-- ===== src/QueueService/Tests.antt =====
-- A service with one message waiting, no consumer, and the store in memory: a message is published, a
-- consumer registers, fetches and settles another one, and leaves.
use mathlib.Core.List.Memᴰ
use gpu_telemetry_pipeline.Base.{
  ℕ, ◌+◌, String, false, none, some, List, [], ◌∷◌, true, ◌≡◌, ◌≢◌, inr, refl, str_eq, str_eq_iff,
  lookup, insert, arith, if◌then◌else◌,
}
use gpu_telemetry_pipeline.Message.{Message}
use gpu_telemetry_pipeline.Redis.Memory.{
  empty_store, memory, memory-RedisLaws, memory-IsHealthy, message_json,
}
use gpu_telemetry_pipeline.RedisQueue.{queue_key}
use gpu_telemetry_pipeline.RedisQueue.Held.{Held}
use gpu_telemetry_pipeline.HttpServer.{Request, AckRequest, Decoders, query_get}
use gpu_telemetry_pipeline.HttpServer.Mux.{Service, serve}
use gpu_telemetry_pipeline.ConsumerGroups.{
  new_broker, received, ticked, register_consumer, open_stream, find_group, put_consumers,
}
use gpu_telemetry_pipeline.ConsumerGroups.Safe.{new_broker-IsSound}
use gpu_telemetry_pipeline.QueueService
use gpu_telemetry_pipeline.QueueService.{Event, requests, checks, delivers, streams, leaves, run}
use gpu_telemetry_pipeline.QueueService.Good.{IsGood}
use gpu_telemetry_pipeline.QueueService.Whole.{GoesOn, run-GoesOn}
use gpu_telemetry_pipeline.QueueService.Lifecycle.{
  checker, loop, in_batch, Wake, Lifecycle, turns, close_begins, close_returns, turn,
  new_redis_queue,
}
use gpu_telemetry_pipeline.QueueService.Lifecycle
use gpu_telemetry_pipeline.QueueService.Steady.{Steady, new_redis_queue-Steady}
use gpu_telemetry_pipeline.QueueService.Closing.{Closes, close_after, close-Closes}

abbrev message : String → Message
message id = record {
  id = id;
  topic = "telemetry";
  payload = "{}";
  headers = [];
  timestamp = 0;
  metadata = [];
}

abbrev acknowledged : AckRequest
acknowledged = record { topic = "telemetry"; consumer_group = "g"; message_id = "b" }

instance abbrev decoders : Decoders
decoders = record {
  decode_message = λ body. some (message "b");
  decode_ack = λ body. some acknowledged;
  scan_int = λ s. none;
}

abbrev service : Service
service = record {
  queue = record {
    store = record empty_store {
      lists = λ k. if str_eq k "queue:telemetry" then message_json (message "a") ∷ [] else [];
    };
    visibility_timeout = 300000000000;
    max_retries = 3;
    dead_letter_queue = [];
  };
  broker = new_broker;
}

abbrev clock : ℕ → ℕ
clock i = 63900000000000000000 + i

abbrev request : String → String → Request
request method path = record {
  method = method;
  path = path;
  query = ("topic", "telemetry") ∷ ("consumer_group", "g") ∷ ("consumer_id", "c1") ∷ [];
  body = some "{}";
}

abbrev history : List Event
history =
    requests clock (request "POST" "/api/v1/queue/publish")
    ∷ requests clock (request "GET" "/api/v1/queue/subscribe")
    ∷ delivers 63900000000000000000 0 "telemetry" "g" "c1" []
    ∷ streams received 0
    ∷ streams ticked 0
    ∷ requests clock (request "POST" "/api/v1/queue/ack")
    ∷ leaves (request "GET" "/api/v1/queue/subscribe")
    ∷ delivers 63900000000000000000 1 "telemetry" "g" "c1" []
    ∷ checks 63900000400000000000
    ∷ []

service-IsGood : IsGood memory-RedisLaws memory-IsHealthy (message "a") service
unfolding queue_key
service-IsGood = record {
  is_sound = new_broker-IsSound;
  held = Held.waits "telemetry" (Memᴰ.head refl);
}

other : (a : AckRequest) → some acknowledged ≡ some a → a.message_id ≢ "a"
other a e p = cc ((str_eq_iff "b" "a").1 cc)

not_ack :
    {A : Type 0} (path : String)
    → str_eq path "/api/v1/queue/ack" ≡ false
    → path ≡ "/api/v1/queue/ack"
    → A
not_ack path n e = absurd (cc ((str_eq_iff path "/api/v1/queue/ack").1 e))

run-GoesOn_example :
    GoesOn memory-RedisLaws memory-IsHealthy (message "a") (run (λ m. some "{}") history service)
run-GoesOn_example =
    run-GoesOn memory-RedisLaws memory-IsHealthy (message "a") (λ m. some "{}") history service
      (
        (λ e. not_ack _ refl e),
        ((λ e. not_ack _ refl e), (tt, (tt, (tt, ((λ e. other), (tt, (tt, (tt, tt)))))))),
      )
      service-IsGood

-- A queue that has connected, and a service behind it to which a consumer has subscribed.
abbrev connected_queue : Lifecycle
connected_queue = record {
  service = record {
    queue = record {
      store = empty_store;
      visibility_timeout = 300000000000;
      max_retries = 3;
      dead_letter_queue = [];
    };
    broker = new_broker;
  };
  is_cancelled = false;
  running = checker ∷ [];
  waiting = 1;
  is_closed = false;
}

abbrev wake : Wake
wake = record { takes_context = true; now = 63900000000000000000; order = λ names. names }

abbrev subscription : Lifecycle
subscription = record connected_queue {
  service = record connected_queue.service {
    broker = (register_consumer "telemetry" "g" "c1" new_broker).1;
  };
  running = checker ∷ in_batch "telemetry" "g" 0 "c1" [] 50 ∷ [];
  waiting = 2;
}

connected :
    new_redis_queue (λ url. some url) (λ url. some empty_store) "redis://redis:6379" 300000000000 3
    ≡ inr connected_queue
unfolding new_redis_queue
connected = refl

abbrev until_subscribed : List Lifecycle.Event
until_subscribed =
    Lifecycle.requests clock (request "GET" "/api/v1/queue/subscribe") ∷ turns 1 wake ∷ []

reached : Lifecycle.run (λ m. some "{}") until_subscribed connected_queue ≡ some subscription
unfolding Lifecycle.run Lifecycle.step QueueService.step serve open_stream register_consumer
    new_broker find_group put_consumers turn lookup insert query_get
reached = refl

abbrev schedule : List (ℕ × Wake)
schedule = (5, wake) ∷ (2, wake) ∷ (0, wake) ∷ (1, wake) ∷ []

close-Closes_example :
    Closes subscription.service
      (Lifecycle.run (λ m. some "{}") (close_begins ∷ close_after schedule) subscription)
close-Closes_example =
    close-Closes (λ m. some "{}") (λ url. some url) (λ url. some empty_store) "redis://redis:6379"
      300000000000 3 connected_queue subscription until_subscribed schedule connected reached
      (refl, (refl, (refl, (refl, tt)))) (omega arith)

-- The queue connects to a Redis server that holds a message.
abbrev holding : Lifecycle
holding = record connected_queue { service = service }

holding_connected :
    new_redis_queue
      (λ url. some url)
      (λ url. some service.queue.store)
      "redis://redis:6379"
      300000000000
      3
    ≡ inr holding
unfolding new_redis_queue
holding_connected = refl

abbrev life : List Lifecycle.Event
life =
    Lifecycle.requests clock (request "GET" "/api/v1/queue/subscribe")
    ∷ turns 1 wake
    ∷ turns 1 wake
    ∷ Lifecycle.streams received 0
    ∷ close_begins
    ∷ turns 0 wake
    ∷ turns 0 wake
    ∷ close_returns
    ∷ []

new_redis_queue-Steady_example :
    Steady memory-RedisLaws memory-IsHealthy
      (message "a")
      (Lifecycle.run (λ m. some "{}") life holding)
new_redis_queue-Steady_example =
    new_redis_queue-Steady memory-RedisLaws memory-IsHealthy (message "a") (λ m. some "{}")
      (λ url. some url) (λ url. some service.queue.store) "redis://redis:6379" 300000000000 3
      holding life holding_connected service-IsGood.held
      ((λ e. not_ack _ refl e), (tt, (tt, (tt, (tt, (tt, (tt, (tt, tt))))))))
