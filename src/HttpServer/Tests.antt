-- ===== src/HttpServer/Tests.antt =====
-- Requests to a server over the store in memory, with two messages waiting.
use gpu_telemetry_pipeline.Base.{
  ℕ, pos, ◌+◌, String, ◌≡◌, ◌≢◌, refl, none, some, List, [], ◌∷◌, All, str_eq, str_eq_iff,
  if◌then◌else◌, lookup, arith,
}
use gpu_telemetry_pipeline.Message.{Message}
use gpu_telemetry_pipeline.Redis.Memory.{
  MemoryStore, empty_store, memory, memory-RedisLaws, memory-IsHealthy, message_json,
}
use gpu_telemetry_pipeline.RedisQueue.{RedisQueue, queue_key}
use gpu_telemetry_pipeline.RedisQueue.Waiting.{waiting}
use gpu_telemetry_pipeline.RedisQueue.Pending.{Tracked}
use gpu_telemetry_pipeline.HttpServer.{
  Request, Decoders, error, batch, query_get, parse_prefetch, limit_prefetch, handle_fetch,
}
use gpu_telemetry_pipeline.HttpServer.Fetch.{handle_fetch_fifo}
use gpu_telemetry_pipeline.HttpServer.Mux.{Service, plain, serve}
use gpu_telemetry_pipeline.HttpServer.Refused.{serve-Unchanged}
use gpu_telemetry_pipeline.HttpServer.Logging.{
  Writer, write_events, flush_if, write_stream, logging_middleware, logging_middleware-write_stream,
}
use gpu_telemetry_pipeline.HttpClient.Stream.{StreamEvent, connected, pings}
use gpu_telemetry_pipeline.ConsumerGroups.{new_broker}

instance abbrev decoders : Decoders
decoders = record {
  decode_message = λ body. none;
  decode_ack = λ body. none;
  scan_int = λ s. if str_eq s "1" then some (pos 1) else none;
}

abbrev message : String → Message
message id = record {
  id = id;
  topic = "telemetry";
  payload = "{}";
  headers = [];
  timestamp = 0;
  metadata = [];
}

abbrev two_waiting : RedisQueue MemoryStore
two_waiting = record {
  store = record empty_store {
    lists = λ k.
        if str_eq k "queue:telemetry"
        then message_json (message "a") ∷ message_json (message "b") ∷ []
        else [];
  };
  visibility_timeout = 300000000000;
  max_retries = 3;
  dead_letter_queue = [];
}

abbrev clock : ℕ → ℕ
clock i = 63900000000000000000 + i

abbrev request : Request
request = record {
  method = "GET";
  path = "/api/v1/queue/fetch";
  query =
      ("topic", "telemetry")
      ∷ ("consumer_group", "collectors")
      ∷ ("consumer_id", "c1")
      ∷ ("prefetch", "1")
      ∷ [];
  body = none;
}

names :
    (query_get request "topic" ≡ "telemetry")
    × (query_get request "consumer_group" ≡ "collectors")
    × (query_get request "consumer_id" ≡ "c1")
unfolding query_get lookup
names = (refl, refl, refl)

topic-ne-empty : query_get request "topic" ≢ ""
unfolding query_get lookup
topic-ne-empty h = ground (arith, (str_eq_iff "telemetry" "").1 h)

group-ne-empty : query_get request "consumer_group" ≢ ""
unfolding query_get lookup
group-ne-empty h = ground (arith, (str_eq_iff "collectors" "").1 h)

consumer-ne-empty : query_get request "consumer_id" ≢ ""
unfolding query_get lookup
consumer-ne-empty h = ground (arith, (str_eq_iff "c1" "").1 h)

handle_fetch_fifo_example :
    let out = handle_fetch clock request two_waiting in
    (out.0 ≡ batch (message "a" ∷ []))
    × (waiting memory-RedisLaws out.1 (query_get request "topic") ≡ some (message "b") ∷ [])
    × All
        (λ m.
          Tracked memory-RedisLaws out.1 m
            (query_get request "consumer_group")
            (query_get request "consumer_id"))
        (message "a" ∷ [])
unfolding queue_key query_get lookup parse_prefetch limit_prefetch
handle_fetch_fifo_example =
    handle_fetch_fifo memory-RedisLaws memory-IsHealthy clock request (pos 1) (message "a" ∷ [])
      (some (message "b") ∷ []) two_waiting refl topic-ne-empty group-ne-empty consumer-ne-empty
      refl refl refl

fetched : (handle_fetch clock request two_waiting).0 ≡ batch (message "a" ∷ [])
unfolding queue_key query_get lookup parse_prefetch limit_prefetch
fetched =
    (handle_fetch_fifo memory-RedisLaws memory-IsHealthy clock request (pos 1) (message "a" ∷ [])
      (some (message "b") ∷ []) two_waiting refl topic-ne-empty group-ne-empty consumer-ne-empty
      refl refl refl).0

abbrev posted : Request
posted = record request { method = "POST" }

abbrev service : Service
service = record { queue = two_waiting; broker = new_broker }

turned_down : (serve clock posted service).0 ≡ plain (error 405)
unfolding serve handle_fetch
turned_down = refl

serve-Unchanged_example : (serve clock posted service).1 ≡ service
unfolding new_broker
serve-Unchanged_example = serve-Unchanged clock posted service 405 turned_down (omega arith)

-- What a connection has been told, the last first.
data Told : Type 0 where
  header : ℕ → Told
  event : StreamEvent → Told
  flushed : Told

abbrev connection : Writer (List Told)
connection = record {
  write_header = λ code w. header code ∷ w;
  write = λ e w. event e ∷ w;
  flusher = some (λ w. flushed ∷ w);
}

-- The stream itself flushes each event.
flushing :
    write_stream "c1" (pings ∷ []) connection []
    ≡ flushed ∷ event pings ∷ flushed ∷ event (connected "c1") ∷ flushed ∷ []
unfolding write_stream write_events flush_if
flushing = refl

logging_middleware-write_stream_example :
    logging_middleware connection (λ V. write_stream "c1" (pings ∷ [])) []
    ≡ (event pings ∷ event (connected "c1") ∷ [], 200)
logging_middleware-write_stream_example =
    logging_middleware-write_stream connection "c1" (pings ∷ []) []
