-- ===== src/Streamer/Tests.antt =====
-- A streamer that takes the lock at its second try, finds no file, and returns.
use gpu_telemetry_pipeline.Base.{false, true, none, some, List, [], ◌∷◌, ◌++◌, ◌≡◌, refl}
use gpu_telemetry_pipeline.Domain.Codec.{codec}
use gpu_telemetry_pipeline.Message.{Message}
use gpu_telemetry_pipeline.MessageQueue.{MessageQueue}
use gpu_telemetry_pipeline.BatchLock.{
  Held, Try, acquire_lock, try_acquire, get_lock, release_lock, owns,
}
use gpu_telemetry_pipeline.Streamer.{open_failed, stream_file}
use gpu_telemetry_pipeline.Streamer.Loop.{
  Round, Node, returned, start, turn, with_lock, process_file, after_file, release_after,
  release_deferred, finish,
}
use gpu_telemetry_pipeline.Streamer.Released.{start-not_owned}

instance abbrev log : MessageQueue (List Message)
log = record { publish = λ m q. (none, q ++ m ∷ []) }

abbrev other : Held
other = record { lock_value = "s2"; expires = 1000 }

abbrev node : Node (List Message)
node = record {
  streamer = record { instance_id = "s1"; rows_sent = 0; error_count = 0 };
  queue = [];
  key = some other;
  deferred = 0;
}

abbrev early : Try
early = record { now = 900; done_before = false; redis_fails = false; done_after = false }

abbrev round : Round
round = record {
  is_done = false;
  tries = early ∷ record early { now = 1100 } ∷ [];
  surroundings = record { uuid = λ i. "id"; is_done = λ i. false; now = 7; batch_id = "b" };
  lines = none;
  others = λ key. key;
  release_time = 1200;
  release_fails = true;
}

abbrev left : Node (List Message)
left = record node {
  streamer = record { instance_id = "s1"; rows_sent = 0; error_count = 1 };
  key = none;
}

returns : start 1300 true false (round ∷ []) node ≡ (returned (some open_failed), left)
unfolding start turn with_lock process_file after_file release_after release_deferred finish
    stream_file acquire_lock try_acquire get_lock release_lock
returns = refl

start-not_owned_example : owns "s1" (get_lock 1300 left.key) ≡ false
start-not_owned_example =
    start-not_owned 1300 false (round ∷ []) node left (some open_failed) refl refl returns
