-- ===== src/RedisQueue/Tests.antt =====
-- The queue over the store in memory: runs, and the theorems at concrete queues.
use mathlib.Core.List.{Memᴰ}
use gpu_telemetry_pipeline.Base.{
  ℕ, ◌+◌, String, ◌≡◌, refl, some, List, [], ◌∷◌, arith, All, str_eq, str_eq_iff, if◌then◌else◌,
}
use gpu_telemetry_pipeline.Domain.{unix}
use gpu_telemetry_pipeline.Message.{Message}
use gpu_telemetry_pipeline.Redis.Memory.{
  MemoryStore, empty_store, memory, memory-RedisLaws, memory-IsHealthy, entry_json, message_json,
}
use gpu_telemetry_pipeline.RedisQueue.{
  RedisQueue, ok, panicked, publish, check_expired_messages, requeue_message, fetch_batch,
  find_entry, ack, nack, queue_key, pel_key, pending_entry,
}
use gpu_telemetry_pipeline.RedisQueue.Waiting.{waiting}
use gpu_telemetry_pipeline.RedisQueue.Pending.{Tracked}
use gpu_telemetry_pipeline.RedisQueue.Fetch.{fetch_batch_fifo, fetch_batch_dry}
use gpu_telemetry_pipeline.RedisQueue.Ack.{Removes, ack-Removes, nack-Removes}
use gpu_telemetry_pipeline.RedisQueue.Calls.{Call, publishes, fetches, acks, nacks, checks, run}
use gpu_telemetry_pipeline.RedisQueue.Fresh.{IsFresh}
use gpu_telemetry_pipeline.RedisQueue.Held.{Held}
use gpu_telemetry_pipeline.RedisQueue.Unlost.{publish-run}
use gpu_telemetry_pipeline.RedisQueue.Redelivery.{check_expired_messages-waits}
use gpu_telemetry_pipeline.RedisQueue.Retries.{dead_letter_queue-run}

abbrev message : String → Message
message id = record {
  id = id;
  topic = "telemetry";
  payload = "{}";
  headers = [];
  timestamp = 0;
  metadata = [];
}

abbrev new_queue : RedisQueue MemoryStore
new_queue = record {
  store = empty_store;
  visibility_timeout = 300000000000;
  max_retries = 3;
  dead_letter_queue = [];
}

-- Two messages wait, `a` before `b`.
abbrev two_waiting : RedisQueue MemoryStore
two_waiting = record new_queue {
  store = record empty_store {
    lists = λ k.
        if str_eq k "queue:telemetry"
        then message_json (message "a") ∷ message_json (message "b") ∷ []
        else [];
  };
}

abbrev clock : ℕ → ℕ
clock i = 63900000000000000000 + i

fetch_batch_fifo_example :
    let (r, p) = fetch_batch clock "telemetry" "collectors" "c1" 1 two_waiting in
    (r ≡ ok (message "a" ∷ []))
    × (waiting memory-RedisLaws p "telemetry" ≡ some (message "b") ∷ [])
    × All (λ m. Tracked memory-RedisLaws p m "collectors" "c1") (message "a" ∷ [])
unfolding queue_key
fetch_batch_fifo_example =
    fetch_batch_fifo memory-RedisLaws memory-IsHealthy clock "telemetry" "collectors" "c1"
      (message "a" ∷ []) (some (message "b") ∷ []) two_waiting refl

fetch_batch_dry_example :
    let (r, p) = fetch_batch clock "telemetry" "collectors" "c1" 500 two_waiting in
    (r ≡ panicked)
    × (waiting memory-RedisLaws p "telemetry" ≡ [])
    × All (λ m. Tracked memory-RedisLaws p m "collectors" "c1") (message "a" ∷ message "b" ∷ [])
unfolding queue_key
fetch_batch_dry_example =
    fetch_batch_dry memory-RedisLaws memory-IsHealthy clock "telemetry" "collectors" "c1"
      (message "a" ∷ message "b" ∷ []) 500 two_waiting refl (omega arith)

-- One message is pending.
abbrev one_pending : RedisQueue MemoryStore
one_pending = record new_queue {
  store = record empty_store {
    zsets = λ k.
        if str_eq k "pel:telemetry:collectors"
        then (7, entry_json (pending_entry 7 (message "a") "collectors" "c1")) ∷ []
        else [];
    names = "pel:telemetry:collectors" ∷ [];
  };
}

ack-Removes_example :
    Removes memory-RedisLaws
      (pel_key "telemetry" "collectors")
      "a"
      one_pending
      (ack "telemetry" "collectors" "a" one_pending).1
    × ((t : String)
        → waiting memory-RedisLaws (ack "telemetry" "collectors" "a" one_pending).1 t
          ≡ waiting memory-RedisLaws one_pending t)
unfolding ack find_entry pel_key
ack-Removes_example = ack-Removes memory-RedisLaws "telemetry" "collectors" "a" one_pending refl

nack-Removes_example :
    (r : Removes memory-RedisLaws
      (pel_key "telemetry" "collectors")
      "a"
      one_pending
      (nack "telemetry" "collectors" "a" one_pending).1)
    × ((t : String)
        → waiting memory-RedisLaws (nack "telemetry" "collectors" "a" one_pending).1 t ≡ (
            if str_eq r.entry.message.topic t
            then some r.entry.message ∷ waiting memory-RedisLaws one_pending t
            else waiting memory-RedisLaws one_pending t))
unfolding nack find_entry pel_key requeue_message
nack-Removes_example = nack-Removes memory-RedisLaws "telemetry" "collectors" "a" one_pending refl

new_queue-IsFresh : IsFresh memory-RedisLaws new_queue
new_queue-IsFresh = record {
  retries = omega arith;
  none_dead = refl;
  once = λ k b n. absurd (omega (arith, n));
}

abbrev history : List Call
history =
    publishes (message "a")
    ∷ fetches clock "telemetry" "collectors" "c1" 1
    ∷ checks 63900000400000000000
    ∷ fetches clock "telemetry" "collectors" "c1" 1
    ∷ nacks "telemetry" "collectors" "a"
    ∷ []

dead_letter_queue-run_example : (run new_queue history).dead_letter_queue ≡ []
dead_letter_queue-run_example =
    dead_letter_queue-run memory-RedisLaws new_queue history new_queue-IsFresh

-- Two messages, the second of which is acknowledged.
abbrev unacknowledged : List Call
unacknowledged =
    publishes (message "b")
    ∷ fetches clock "telemetry" "collectors" "c1" 2
    ∷ acks "telemetry" "collectors" "b"
    ∷ checks 63900000400000000000
    ∷ []

publish-run_example :
    Held memory-RedisLaws (message "a") (run (publish (message "a") new_queue).1 unacknowledged)
unfolding publish
publish-run_example =
    publish-run memory-RedisLaws memory-IsHealthy (message "a") new_queue unacknowledged refl
      (tt, (tt, (λ (p : "b" ≡ "a"). cc ((str_eq_iff "b" "a").1 p), (tt, tt))))

check_expired_messages-waits_example :
    let p = (check_expired_messages 63900000000000000000 one_pending).1 in
    Memᴰ (some (message "a")) (waiting memory-RedisLaws p "telemetry")
unfolding unix
check_expired_messages-waits_example =
    check_expired_messages-waits memory-RedisLaws memory-IsHealthy
      (pending_entry 7 (message "a") "collectors" "c1")
      (entry_json (pending_entry 7 (message "a") "collectors" "c1")) refl "pel:telemetry:collectors"
      7 63900000000000000000 one_pending ("pel:telemetry:collectors" ∷ []) refl (Memᴰ.head refl)
      (Memᴰ.head refl) (omega arith) (omega arith)
