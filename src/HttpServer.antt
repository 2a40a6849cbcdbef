-- ===== src/HttpServer.antt =====
-- internal/queueservice/http_server.go: the queue over HTTP. A handler takes a request and the queue
-- and gives its response and the queue after it. Reading bodies and numbers (encoding/json, fmt)
-- is the record `Decoders`. A panic is caught by net/http, which answers nothing: `aborted`.
pub mod Mux
pub mod Logging
pub mod Refused
pub mod Fetch
pub mod Tests
use gpu_telemetry_pipeline.Base.{
  ℕ, ℤ, pos, negsuc, String, Bool, true, false, ◌||◌, Option, none, some, List, [], ◌∷◌, str_eq,
  ltb, if◌then◌else◌, Dict, lookup,
}
use gpu_telemetry_pipeline.Message.{Message}
use gpu_telemetry_pipeline.Redis.{Redis}
use gpu_telemetry_pipeline.RedisQueue.{
  RedisQueue, Result, ok, err, panicked, publish, fetch_batch, ack, nack,
}

-- `body` is `none` when it cannot be read.
pub record Request : Type 0 where
  pub method : String
  pub path : String
  pub query : Dict String
  pub body : Option String

pub record AckRequest : Type 0 where
  pub topic : String
  pub consumer_group : String
  pub message_id : String

pub record Decoders : Type 0 where
  pub decode_message : String → Option Message
  pub decode_ack : String → Option AckRequest
  pub scan_int : String → Option ℤ

pub data Response : Type 0 where
  error : ℕ → Response
  success : String → Response
  batch : List Message → Response
  healthy aborted : Response

abbrev pub get_or_empty : Option String → String
get_or_empty none = ""
get_or_empty (some s) = s

-- `r.URL.Query().Get(name)`.
unfoldable pub query_get : Request → String → String
query_get r name = get_or_empty (lookup name r.query)

-- The response for what a method of the queue returned.
abbrev pub respond {ℓ} :
    {A : Type ℓ} {S : Type 0} → Result A × RedisQueue S → (A → Response) → Response × RedisQueue S
respond (ok a, q) f = (f a, q)
respond (err e, q) f = (error 500, q)
respond (panicked, q) f = (aborted, q)

-- The default of 500 stands when the parameter is empty; `none` is a parameter that is no number.
unfoldable pub parse_prefetch : (String → Option ℤ) → String → Option ℤ
parse_prefetch scan_int s = if str_eq s "" then some (pos 500) else scan_int s

unfoldable pub limit_prefetch : ℤ → ℕ
limit_prefetch (negsuc n) = 1
limit_prefetch (pos n) =
    let prefetch : ℕ = if ltb n 1 then 1 else n in if ltb 2500 prefetch then 2500 else prefetch

module _ ⦃R : Redis⦄ ⦃X : Decoders⦄ where
  open R use {Store}

  abbrev pub Handler : Type 0
  Handler = Request → RedisQueue Store → Response × RedisQueue Store

  abbrev pub publish_body : Option String → RedisQueue Store → Response × RedisQueue Store
  publish_body none q = (error 400, q)
  publish_body (some body) q = elim (X.decode_message body) [
    | none ↦ (error 400, q)
    | some msg ↦ respond (publish msg q) (λ _. success msg.id)
  ]

  unfoldable pub handle_publish : Handler
  handle_publish r q = if str_eq r.method "POST" then publish_body r.body q else (error 405, q)

  -- `clock` is the clock during the fetch.
  unfoldable pub fetch_limited :
      (ℕ → ℕ) → String → String → String → Option ℤ → RedisQueue Store → Response × RedisQueue Store
  fetch_limited clock topic consumer_group consumer_id none q = (error 400, q)
  fetch_limited clock topic consumer_group consumer_id (some prefetch) q =
      respond (fetch_batch clock topic consumer_group consumer_id (limit_prefetch prefetch) q) batch

  unfoldable pub handle_fetch : (ℕ → ℕ) → Handler
  handle_fetch clock r q =
      let topic = query_get r "topic" in
      let consumer_group = query_get r "consumer_group" in
      let consumer_id = query_get r "consumer_id" in
      if str_eq r.method "GET"
      then (if str_eq topic "" || str_eq consumer_group "" || str_eq consumer_id ""
          then (error 400, q)
          else fetch_limited clock topic consumer_group consumer_id
              (parse_prefetch X.scan_int (query_get r "prefetch")) q)
      else (error 405, q)

  -- `handleAck` and `handleNack` differ in the method of the queue.
  abbrev pub with_entry :
      (String → String → String → RedisQueue Store → Result (Unit {0}) × RedisQueue Store)
      → Option String
      → RedisQueue Store
      → Response × RedisQueue Store
  with_entry act none q = (error 400, q)
  with_entry act (some body) q = elim (X.decode_ack body) [
    | none ↦ (error 400, q)
    | some req ↦
        if str_eq req.topic "" || str_eq req.consumer_group "" || str_eq req.message_id ""
        then (error 400, q)
        else respond (act req.topic req.consumer_group req.message_id q)
            (λ _. success req.message_id)
  ]

  unfoldable pub handle_ack : Handler
  handle_ack r q = if str_eq r.method "POST" then with_entry ack r.body q else (error 405, q)

  unfoldable pub handle_nack : Handler
  handle_nack r q = if str_eq r.method "POST" then with_entry nack r.body q else (error 405, q)

  unfoldable pub handle_health : Handler
  handle_health r q = if str_eq r.method "GET" then (healthy, q) else (error 405, q)
