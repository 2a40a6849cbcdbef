-- ===== src/HttpClient/Served.antt =====
-- The client with the server of internal/queueservice/http_server.go at the other end of its network.
use gpu_telemetry_pipeline.Base.{
  ℕ, String, Bool, true, false, Option, none, some, List, [], ◌∷◌, ◌++◌, ◌≡◌, str_eq, concat,
  if◌then◌else◌, arith,
}
use gpu_telemetry_pipeline.Message.{Message}
use gpu_telemetry_pipeline.Redis.{Redis}
use gpu_telemetry_pipeline.RedisQueue.{RedisQueue, pel_key}
use gpu_telemetry_pipeline.RedisQueue
use gpu_telemetry_pipeline.HttpServer.{Request, Decoders, error, success, batch, healthy, aborted}
use gpu_telemetry_pipeline.HttpServer.Mux.{Answer, plain, opened, statistics, Service, serve}
use gpu_telemetry_pipeline.HttpClient.{
  HttpResponse, Transport, Codec, ClientError, request_failed, post_request, check_reply,
}

-- The status that the server writes; an aborted request gets none.
abbrev pub status_of : Answer → Option ℕ
status_of (plain (error k)) = some k
status_of (plain (success id)) = some 200
status_of (plain (batch msgs)) = some 200
status_of (plain healthy) = some 200
status_of (plain aborted) = none
status_of (opened ch event) = some 200
status_of (statistics stats) = some 200

-- What may come of a request that the server, where it stands at `before`, would serve so: its
-- response, none although it was served, or none because it did not get there.
pub data Exchange {Q : Type 0} (before : Q) (served : Answer × Q)
    : Option HttpResponse → Q → Type 0 where
  answered :
      (k : ℕ) (body : String)
      → status_of served.0 ≡ some k
      → Exchange before served (some (record { status = k; body = body })) served.1
  unanswered : Exchange before served none served.1
  unreached : Exchange before served none before

-- What became of a message that a client published, from what its caller is told, where `accepted` is
-- that Redis takes the message from the server. Of the message's own topic nothing is said where it
-- does not, since a command whose reply is lost may have been done.
pub data Published (msg : Message) (accepted : Bool) (before after : String → List (Option Message))
    : Option ClientError → Type 0 where
  stored :
      accepted ≡ true
      → ((t : String)
          → after t ≡ (if str_eq msg.topic t then before t ++ some msg ∷ [] else before t))
      → Published msg accepted before after none
  unsure :
      accepted ≡ true
      → ((t : String)
          → after t ≡ (if str_eq msg.topic t then before t ++ some msg ∷ [] else before t))
      → Published msg accepted before after (some request_failed)
  unsent :
      (e : ClientError)
      → ((t : String) → after t ≡ before t)
      → Published msg accepted before after (some e)
  failed_there :
      (e : ClientError)
      → accepted ≡ false
      → ((t : String) → str_eq msg.topic t ≡ false → after t ≡ before t)
      → Published msg accepted before after (some e)

pub check_200 :
    (k : ℕ) (body : String)
    → check_reply (some (record { status = k; body = body })) ≡ none
    → k ≡ 200
unfolding check_reply
check_200 k body h = ground (arith, h)

abbrev pub posted : String → String → Request
posted path body = record { method = "POST"; path = path; query = []; body = some body }

module _ ⦃R : Redis⦄ ⦃T : Transport⦄ ⦃X : Codec⦄ ⦃D : Decoders⦄ where
  open R use {Store}
  open T use {Net}

  -- A network that ends at the server: the queue there, which nobody else uses meanwhile, and what may
  -- come of a POST.
  pub record Connection (base_url : String) : Type 0 where
    pub clock : ℕ → ℕ
    pub service_at : Net → Service
    pub exchange :
        (path body : String) (n : Net)
        → let out = T.send (post_request (concat (base_url ∷ path ∷ [])) body) n in
          Exchange
            (service_at n)
            (serve clock (posted path body) (service_at n))
            out.0
            (service_at out.1)
