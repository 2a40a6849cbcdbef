-- ===== src/HttpClient.antt =====
-- internal/mq/http_queue_client.go: the queue over HTTP, from the client's side. The client of net/http is
-- the record `Transport`, encoding/json the record `Codec`. A request that cannot be made, that gets no
-- response or whose context is cancelled is one with no response.
pub mod Batch
pub mod Served
pub mod Settled
pub mod Subscriptions
pub mod Shutdown
pub mod Deadline
pub mod Stream
pub mod Reading
pub mod StreamTests
pub mod Tests
use Prim.Native.Char.{code}
use gpu_telemetry_pipeline.Base.{
  ℕ, ℤ, pos, negsuc, String, Bool, true, false, Option, none, some, List, [], ◌∷◌, ◌&&◌, str_eq,
  concat, ◌==◌, if◌then◌else◌,
}
use gpu_telemetry_pipeline.Message.{Message}
use gpu_telemetry_pipeline.MessageQueue.{QueueStats}
use gpu_telemetry_pipeline.HttpServer.{AckRequest}

pub record HttpRequest : Type 0 where
  pub method : String
  pub url : String
  pub body : Option String

pub record HttpResponse : Type 0 where
  pub status : ℕ
  pub body : String

-- `Net` is the network with the server at its other end.
pub record Transport : Type 1 where
  pub Net : Type 0
  pub send : HttpRequest → Net → Option HttpResponse × Net

-- A batch is its messages, none of them null, and its count.
pub record Codec : Type 0 where
  pub encode_message : Message → Option String
  pub encode_ack : AckRequest → Option String
  pub decode_batch : String → Option (List Message × ℤ)

pub record HttpQueueClient : Type 0 where
  pub base_url : String
  pub consumer_group : String
  pub consumer_id : String

-- `strings.TrimSuffix(url, "/")`.
unfoldable pub trim_slash : String → String
trim_slash String.[] = ""
trim_slash (String.◌∷◌ c s) =
    let rest = trim_slash s in if str_eq s "" && code c == 47 then "" else String.◌∷◌ c rest

unfoldable pub new_http_queue_client : String → String → String → HttpQueueClient
new_http_queue_client base_url consumer_group consumer_id = record {
  base_url = trim_slash base_url;
  consumer_group = consumer_group;
  consumer_id = consumer_id;
}

pub data ClientError : Type 0 where
  marshal_failed request_failed : ClientError
  rejected : ℕ → String → ClientError

-- What a caller makes of a response: any status but 200 is an error.
unfoldable pub check_reply : Option HttpResponse → Option ClientError
check_reply none = some request_failed
check_reply (some r) = if r.status == 200 then none else some (rejected r.status r.body)

unfoldable pub post_request : String → String → HttpRequest
post_request url body = record { method = "POST"; url = url; body = some body }

unfoldable pub settle_url : HttpQueueClient → Bool → String
settle_url c true = concat (c.base_url ∷ "/api/v1/queue/ack" ∷ [])
settle_url c false = concat (c.base_url ∷ "/api/v1/queue/nack" ∷ [])

unfoldable pub ack_payload : HttpQueueClient → String → String → AckRequest
ack_payload c topic message_id = record {
  topic = topic;
  consumer_group = c.consumer_group;
  message_id = message_id;
}

-- The texts stand in the URL as they are.
unfoldable pub fetch_request : HttpQueueClient → String → HttpRequest
fetch_request c topic = record {
  method = "GET";
  url = concat (
      c.base_url ∷ "/api/v1/queue/fetch?topic=" ∷ topic ∷ "&consumer_group=" ∷ c.consumer_group
      ∷ "&consumer_id=" ∷ c.consumer_id ∷ "&prefetch=500" ∷ []);
  body = none;
}

-- A handler with its own state `H`; `true` is that it returned nil.
abbrev pub MessageHandler : Type 0 → Type 0
MessageHandler H = Message → H → Bool × H

module _ ⦃T : Transport⦄ ⦃X : Codec⦄ where
  open T use {Net}

  unfoldable pub post : String → Option String → Net → Option ClientError × Net
  post url none n = (some marshal_failed, n)
  post url (some body) n = let out = T.send (post_request url body) n in (check_reply out.0, out.1)

  unfoldable pub publish : HttpQueueClient → Message → Net → Option ClientError × Net
  publish c msg n =
      post (concat (c.base_url ∷ "/api/v1/queue/publish" ∷ [])) (X.encode_message msg) n

  unfoldable pub ack : HttpQueueClient → String → String → Net → Option ClientError × Net
  ack c topic message_id n =
      post (settle_url c true) (X.encode_ack (ack_payload c topic message_id)) n

  unfoldable pub nack : HttpQueueClient → String → String → Net → Option ClientError × Net
  nack c topic message_id n =
      post (settle_url c false) (X.encode_ack (ack_payload c topic message_id)) n

  -- The server is asked, and what it answers is dropped.
  unfoldable pub stats : HttpQueueClient → Net → QueueStats × Net
  stats c n =
      let out =
        T.send
          (record {
            method = "GET";
            url = concat (c.base_url ∷ "/api/v1/queue/stats" ∷ []);
            body = none;
          })
          n in
      (
        record {
          total_published = 0;
          total_delivered = 0;
          total_errors = 0;
          active_subscribers = 0;
          queue_depth = 0;
        },
        out.1,
      )

  -- One message of a batch: the errors of `Ack` and `Nack` are only logged.
  unfoldable pub process_one :
      {H : Type 0} → HttpQueueClient → String → MessageHandler H → Message → H × Net → H × Net
  process_one c topic handler msg (h, n) =
      let out = handler msg h in
      (out.1, (if out.0 then ack c topic msg.id n else nack c topic msg.id n).1)

  unfoldable pub process_batch :
      {H : Type 0} → HttpQueueClient → String → MessageHandler H → List Message → H × Net → H × Net
  process_batch c topic handler [] s = s
  process_batch c topic handler (msg ∷ msgs) s =
      process_batch c topic handler msgs (process_one c topic handler msg s)

  unfoldable pub batch_of : Option (List Message × ℤ) → Option (List Message)
  batch_of none = none
  batch_of (some (msgs, pos n)) = if n == 0 then none else some msgs
  batch_of (some (msgs, negsuc n)) = some msgs

  -- The messages to process; `none` is that the loop sleeps before the next pass.
  unfoldable pub read_batch : Option HttpResponse → Option (List Message)
  read_batch none = none
  read_batch (some r) = if r.status == 200 then batch_of (X.decode_batch r.body) else none

  -- A pass once it has its response.
  unfoldable pub after_fetch :
      {H : Type 0}
      → HttpQueueClient
      → String
      → MessageHandler H
      → Option (List Message)
      → H × Net
      → Bool × (H × Net)
  after_fetch c topic handler none s = (true, s)
  after_fetch c topic handler (some msgs) s = (false, process_batch c topic handler msgs s)

  -- One pass of the loop of `handleBatchPolling`; `true` is that it sleeps at the end.
  unfoldable pub poll :
      {H : Type 0} → HttpQueueClient → String → MessageHandler H → H × Net → Bool × (H × Net)
  poll c topic handler (h, n) =
      let out = T.send (fetch_request c topic) n in
      after_fetch c topic handler (read_batch out.0) (h, out.1)
