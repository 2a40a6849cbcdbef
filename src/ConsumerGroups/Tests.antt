-- ===== src/ConsumerGroups/Tests.antt =====
-- Two consumers of a group, over the store in memory with one message waiting.
use gpu_telemetry_pipeline.Base.{
  ℕ, true, false, Option, none, some, List, [], ◌∷◌, ◌≡◌, refl, str_eq, if◌then◌else◌, lookup,
  insert, delete, ◌==◌, length,
}
use gpu_telemetry_pipeline.Message.{Message}
use gpu_telemetry_pipeline.Redis.Memory.{
  MemoryStore, empty_store, memory, memory-RedisLaws, message_json,
}
use gpu_telemetry_pipeline.RedisQueue.{RedisQueue, pop_message, add_to_pel, queue_key}
use gpu_telemetry_pipeline.ConsumerGroups.{
  Broker, new_broker, register_consumer, deliver_to_consumer, find_group, put_consumers, send,
  unregister_consumer, remove_consumer,
}
use gpu_telemetry_pipeline.ConsumerGroups.Deliveries.{
  Round, Event, registers, unregisters, delivers, reads, run, deliver_one, deliver_message, step,
}
use gpu_telemetry_pipeline.ConsumerGroups.Safe.{Goes, run-Goes_new}
use gpu_telemetry_pipeline.ConsumerGroups.Taken.{Taken, deliver_one-Taken}

abbrev message : Message
message = record {
  id = "a";
  topic = "telemetry";
  payload = "{}";
  headers = [];
  timestamp = 0;
  metadata = [];
}

abbrev queue : RedisQueue MemoryStore
queue = record {
  store = record empty_store {
    lists = λ k. if str_eq k "queue:telemetry" then message_json message ∷ [] else [];
  };
  visibility_timeout = 300000000000;
  max_retries = 3;
  dead_letter_queue = [];
}

abbrev events : List Event
events =
    registers "telemetry" "g" "c1"
    ∷ registers "telemetry" "g" "c2"
    ∷ delivers 63900000000000000000 "telemetry" "g" "c1" ("c2" ∷ [])
    ∷ unregisters "telemetry" "g" "c1"
    ∷ reads 0
    ∷ []

run-Goes_new_example : Goes (
    run (λ m. some "{}") events (record { queue = queue; broker = new_broker; consumer_index = 0 }))
run-Goes_new_example = run-Goes_new (λ m. some "{}") events queue

abbrev registered : Broker
registered = (register_consumer "telemetry" "g" "c1" new_broker).1

abbrev before : Round
before = record { queue = queue; broker = registered; consumer_index = 0 }

abbrev after : Round
after = record {
  queue = (add_to_pel 63900000000000000000 message "g" "c1" (pop_message "telemetry" queue).1).1;
  broker = record registered {
    channels = λ k.
        if 0 == k
        then record { messages = message ∷ []; is_closed = false }
        else registered.channels k;
  };
  consumer_index = 1;
}

delivered : deliver_one 63900000000000000000 "telemetry" "g" ("c1" ∷ []) before ≡ some (true, after)
unfolding deliver_one deliver_message pop_message add_to_pel queue_key deliver_to_consumer
    register_consumer find_group put_consumers send new_broker lookup insert
delivered = refl

deliver_one-Taken_example :
    Taken memory-RedisLaws 63900000000000000000 "g" ("c1" ∷ []) "telemetry" before after
deliver_one-Taken_example =
    deliver_one-Taken memory-RedisLaws 63900000000000000000 "telemetry" "g" ("c1" ∷ []) before after
      delivered

abbrev goroutines : Option Round → ℕ
goroutines none = 0
goroutines (some r) = length r.broker.deliveries

-- A consumer that leaves and comes back has a second goroutine deliver to its group.
twice :
    goroutines (
      run
        (λ m. some "{}")
        (registers "telemetry" "g" "c1"
          ∷ unregisters "telemetry" "g" "c1"
          ∷ registers "telemetry" "g" "c1"
          ∷ [])
        (record { queue = queue; broker = new_broker; consumer_index = 0 }))
    ≡ 2
unfolding run step register_consumer unregister_consumer remove_consumer find_group put_consumers
    new_broker lookup insert delete
twice = refl
