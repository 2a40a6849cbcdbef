-- ===== src/InMemoryQueue.antt =====
-- internal/mq/inmemory_queue.go: the queue over a channel. A handler is a number. `pending` is what the
-- dispatcher has yet to start for the message it took, and `in_flight` the handlers that have not told the
-- wait group that they are done. Of those that have, `leaving` and `panicking` still hold a worker's place,
-- after a return and after a panic, and `recovering` have a panic to count; `stopping` is that the queue's context is done, `dispatching` that the dispatcher
-- has not returned. `Stop` and `Close` are two events each: they begin, and they return.
pub mod Accounting
pub mod Bounds
pub mod Tests
use gpu_telemetry_pipeline.Base.{
  ℕ, zero, suc, ◌+◌, ◌%◌, ℤ, pos, negsuc, String, Bool, true, false, not, Option, none, some, List,
  [], ◌∷◌, ◌++◌, map, if◌then◌else◌, Dict, lookup, insert, delete, ◌&&◌, length, ltb, ◌==◌,
}
use gpu_telemetry_pipeline.Message.{Message}
use gpu_telemetry_pipeline.MessageQueue.{
  QueueStats, QueueError, queue_closed, not_started, already_running,
}

pub record InMemoryQueue : Type 0 where
  pub subscribers : Dict (List ℕ)
  pub messages : List Message
  pub buffer_size : ℕ
  pub max_workers : ℕ
  pub running : Bool
  pub closed : Bool
  pub stopping : Bool
  pub dispatching : Bool
  pub total_published : ℕ
  pub total_delivered : ℕ
  pub total_errors : ℕ
  pub pending : List (ℕ × Message)
  pub in_flight : List (ℕ × Message)
  pub leaving : ℕ
  pub panicking : ℕ
  pub recovering : ℕ

-- A size that is not positive gives way to the default.
abbrev pub positive_or : ℕ → ℤ → ℕ
positive_or default (negsuc n) = default
positive_or default (pos n) = if n == 0 then default else n

unfoldable pub new_in_memory_queue : ℤ → ℤ → InMemoryQueue
new_in_memory_queue buffer_size max_workers = record {
  subscribers = [];
  messages = [];
  buffer_size = positive_or 1000 buffer_size;
  max_workers = positive_or 100 max_workers;
  running = false;
  closed = false;
  stopping = false;
  dispatching = false;
  total_published = 0;
  total_delivered = 0;
  total_errors = 0;
  pending = [];
  in_flight = [];
  leaving = 0;
  panicking = 0;
  recovering = 0;
}

abbrev pub add_one : ℕ → ℕ
add_one n = (n + 1) % 18446744073709551616

unfoldable pub start : InMemoryQueue → Option QueueError × InMemoryQueue
start q =
    if q.closed
    then (some queue_closed, q)
    else if q.running
    then (some already_running, q)
    else (none, record q { running = true; stopping = false; dispatching = true })

-- `none`: the channel is full and the publisher waits. It may also give up, when its context or the
-- queue's is done, which changes nothing.
unfoldable pub publish : Message → InMemoryQueue → Option (Option QueueError × InMemoryQueue)
publish m q =
    if q.closed
    then some (some queue_closed, q)
    else if not q.running
    then some (some not_started, q)
    else if ltb (length q.messages) q.buffer_size
    then some (
      none,
      record q { messages = q.messages ++ m ∷ []; total_published = add_one q.total_published },
    )
    else none

abbrev pub handlers_of : Option (List ℕ) → List ℕ
handlers_of none = []
handlers_of (some hs) = hs

unfoldable pub subscribe : String → ℕ → InMemoryQueue → Option QueueError × InMemoryQueue
subscribe topic handler q = if q.closed then (some queue_closed, q) else (
  none,
  record q {
    subscribers =
        insert topic (handlers_of (lookup topic q.subscribers) ++ handler ∷ []) q.subscribers;
  },
)

-- Every handler of the topic goes.
unfoldable pub unsubscribe : String → InMemoryQueue → InMemoryQueue
unsubscribe topic q = record q { subscribers = delete topic q.subscribers }

-- The dispatcher takes the next message, once it has started the handlers of the one before; when the
-- queue stops, it goes on until the channel is empty.
unfoldable pub receive : InMemoryQueue → Option InMemoryQueue
receive q = elim q.pending [
  | e ∷ es ↦ none
  | [] ↦ elim q.messages [
    | [] ↦ none
    | m ∷ ms ↦
        if q.dispatching
        then some (record q {
          messages = ms;
          pending = map (λ h. (h, m)) (handlers_of (lookup m.topic q.subscribers));
        })
        else none
  ]
]

-- `drainMessages` finds the channel empty, and the dispatcher returns.
unfoldable pub drain : InMemoryQueue → Option InMemoryQueue
drain q =
    if q.dispatching && q.stopping && length q.pending == 0 && length q.messages == 0
    then some (record q { dispatching = false })
    else none

-- `Stop` begins: it cancels the queue's context, if the queue runs.
unfoldable pub begin_stop : InMemoryQueue → InMemoryQueue
begin_stop q = if q.running then record q { stopping = true } else q

-- `Stop` returns when the dispatcher and all handlers have told the wait group.
unfoldable pub end_stop : InMemoryQueue → Option InMemoryQueue
end_stop q =
    if q.running && q.stopping && not q.dispatching && length q.in_flight == 0
    then some (record q { running = false })
    else none

-- `Close` begins, and then stops the queue.
unfoldable pub begin_close : InMemoryQueue → InMemoryQueue
begin_close q = if q.closed then q else begin_stop (record q { closed = true })

unfoldable pub stats : InMemoryQueue → QueueStats
stats q = record {
  total_published = q.total_published;
  total_delivered = q.total_delivered;
  total_errors = q.total_errors;
  active_subscribers = length q.subscribers;
  queue_depth = length q.messages;
}

-- The worker's places that are taken.
abbrev pub taken_places : InMemoryQueue → ℕ
taken_places q = length q.in_flight + q.leaving + q.panicking

-- The dispatcher starts a handler, once there is a worker's place.
unfoldable pub dispatch : InMemoryQueue → Option InMemoryQueue
dispatch q = elim q.pending [
  | [] ↦ none
  | e ∷ es ↦
      if ltb (taken_places q) q.max_workers
      then some (record q { pending = es; in_flight = e ∷ q.in_flight })
      else none
]

-- What is left without the i-th entry.
unfoldable pub remove_at {ℓ} : {A : Type ℓ} → ℕ → List A → Option (List A)
remove_at i [] = none
remove_at zero (x ∷ xs) = some xs
remove_at (suc i) (x ∷ xs) = elim (remove_at i xs) [ none ↦ none | some ys ↦ some (x ∷ ys) ]

-- How a handler ends.
pub data Ending : Type 0 where
  fine failed panicked : Ending

-- What a return counts is counted before the deferred function, a panic at its end.
abbrev pub end_as : Ending → InMemoryQueue → InMemoryQueue
end_as fine q = record q { leaving = q.leaving + 1; total_delivered = add_one q.total_delivered }
end_as failed q = record q { leaving = q.leaving + 1; total_errors = add_one q.total_errors }
end_as panicked q = record q { panicking = q.panicking + 1 }

-- The i-th handler in flight ends, and tells the wait group.
unfoldable pub finish : ℕ → Ending → InMemoryQueue → Option InMemoryQueue
finish i how q = elim (remove_at i q.in_flight) [
  | none ↦ none
  | some others ↦ some (end_as how (record q { in_flight = others }))
]

-- One that has returned gives up its place.
unfoldable pub release : InMemoryQueue → Option InMemoryQueue
release q = elim q.leaving [ zero ↦ none | suc n ↦ some (record q { leaving = n }) ]

-- One that has panicked gives up its place, and recovers.
unfoldable pub release_panicked : InMemoryQueue → Option InMemoryQueue
release_panicked q = elim q.panicking [
  | zero ↦ none
  | suc n ↦ some (record q { panicking = n; recovering = q.recovering + 1 })
]

-- A panic is counted as an error.
unfoldable pub count_panic : InMemoryQueue → Option InMemoryQueue
count_panic q = elim q.recovering [
  | zero ↦ none
  | suc n ↦ some (record q { recovering = n; total_errors = add_one q.total_errors })
]

pub data Event : Type 0 where
  starts receives dispatches drains stop_begins stop_returns close_begins : Event
  releases releases_panicked counts_panic : Event
  publishes : Message → Event
  subscribes : String → ℕ → Event
  unsubscribes : String → Event
  finishes : ℕ → Ending → Event

abbrev pub after_publish : Option (Option QueueError × InMemoryQueue) → Option InMemoryQueue
after_publish none = none
after_publish (some out) = some out.1

-- `none`: it cannot happen now.
unfoldable pub step : Event → InMemoryQueue → Option InMemoryQueue
step starts q = some (start q).1
step receives q = receive q
step dispatches q = dispatch q
step (publishes m) q = after_publish (publish m q)
step (subscribes topic handler) q = some (subscribe topic handler q).1
step (finishes i how) q = finish i how q
step releases q = release q
step releases_panicked q = release_panicked q
step counts_panic q = count_panic q
step (unsubscribes topic) q = some (unsubscribe topic q)
step drains q = drain q
step stop_begins q = some (begin_stop q)
step stop_returns q = end_stop q
step close_begins q = some (begin_close q)

unfoldable pub run : List Event → InMemoryQueue → Option InMemoryQueue
run [] q = some q
run (e ∷ es) q = elim (step e q) [ none ↦ none | some q' ↦ run es q' ]
