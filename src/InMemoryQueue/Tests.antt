-- ===== src/InMemoryQueue/Tests.antt =====
-- A queue with one subscriber, two messages and one worker, that is stopped.
use gpu_telemetry_pipeline.Base.{
  pos, String, true, false, some, List, [], ◌∷◌, ◌≡◌, refl, lookup, insert,
}
use gpu_telemetry_pipeline.Message.{Message}
use gpu_telemetry_pipeline.InMemoryQueue.{
  InMemoryQueue, new_in_memory_queue, Event, starts, receives, dispatches, publishes, subscribes,
  finishes, drains, stop_begins, stop_returns, drain, begin_stop, end_stop, start, publish,
  subscribe, receive, dispatch, remove_at, finish, failed, panicked, releases, releases_panicked,
  release, release_panicked, step, run,
}
use gpu_telemetry_pipeline.InMemoryQueue.Accounting.{Accounts}
use gpu_telemetry_pipeline.InMemoryQueue.Bounds.{run-Accounts_new}

abbrev message : String → Message
message id = record {
  id = id;
  topic = "telemetry";
  payload = "{}";
  headers = [];
  timestamp = 0;
  metadata = [];
}

abbrev events : List Event
events =
    starts
    ∷ subscribes "telemetry" 7
    ∷ publishes (message "a")
    ∷ publishes (message "b")
    ∷ receives
    ∷ dispatches
    ∷ finishes 0 failed
    ∷ releases
    ∷ stop_begins
    ∷ receives
    ∷ dispatches
    ∷ drains
    ∷ finishes 0 panicked
    ∷ stop_returns
    ∷ releases_panicked
    ∷ []

-- `Stop` has returned, and a panic is not counted yet.
abbrev after : InMemoryQueue
after = record {
  subscribers = ("telemetry", 7 ∷ []) ∷ [];
  messages = [];
  buffer_size = 2;
  max_workers = 1;
  running = false;
  closed = false;
  stopping = true;
  dispatching = false;
  total_published = 2;
  total_delivered = 0;
  total_errors = 1;
  pending = [];
  in_flight = [];
  leaving = 0;
  panicking = 0;
  recovering = 1;
}

ran : run events (new_in_memory_queue (pos 2) (pos 1)) ≡ some after
unfolding run step start publish subscribe receive dispatch remove_at finish release
    release_panicked drain begin_stop end_stop new_in_memory_queue lookup insert
ran = refl

run-Accounts_new_example : Accounts 2 2 after
run-Accounts_new_example = run-Accounts_new (pos 2) (pos 1) events after ran
