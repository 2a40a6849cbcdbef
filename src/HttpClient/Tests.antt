-- ===== src/HttpClient/Tests.antt =====
-- A client whose network ends at a server over the store in memory, with one message waiting and one
-- pending.
use text.Mathlib.TextLemmas
use gpu_telemetry_pipeline.Base.{
  ℕ, ◌+◌, pos, String, Bool, true, Option, none, some, List, [], ◌∷◌, ◌++◌, map, ◌≡◌, refl, sym,
  subst, ◌∙◌, str_eq, concat, if◌then◌else◌, arith,
}
use gpu_telemetry_pipeline.Message.{Message}
use gpu_telemetry_pipeline.Redis.{PendingEntry}
use gpu_telemetry_pipeline.Redis.Memory.{
  MemoryStore, empty_store, memory, memory-RedisLaws, message_json, entry_json,
}
use gpu_telemetry_pipeline.RedisQueue.{RedisQueue, pel_key, queue_key}
use gpu_telemetry_pipeline.RedisQueue
use gpu_telemetry_pipeline.RedisQueue.Waiting.{waiting}
use gpu_telemetry_pipeline.RedisQueue.Ack.{Removes}
use gpu_telemetry_pipeline.HttpServer.{
  AckRequest, Decoders, error, success, batch, healthy, aborted, handle_publish, handle_ack,
  handle_nack,
}
use gpu_telemetry_pipeline.HttpServer.Mux.{Answer, plain, opened, statistics, Service, serve}
use gpu_telemetry_pipeline.ConsumerGroups.{new_broker}
use gpu_telemetry_pipeline.HttpClient.{
  HttpRequest, HttpResponse, Transport, Codec, HttpQueueClient, trim_slash, post_request, publish,
  ack, nack, post, check_reply, settle_url, ack_payload, fetch_request, read_batch, batch_of, poll,
  after_fetch, process_batch, process_one,
}
use gpu_telemetry_pipeline.HttpClient.Batch.{log-poll, settle_request, or_empty, outcomes, handled}
use gpu_telemetry_pipeline.HttpClient.Served.{Exchange, Connection}
use gpu_telemetry_pipeline.HttpClient.Settled.{ack-served}

abbrev message : String → Message
message id = record {
  id = id;
  topic = "telemetry";
  payload = "{}";
  headers = [];
  timestamp = 0;
  metadata = [];
}

abbrev entry : PendingEntry
entry = record {
  message = message "b";
  consumer_group = "g";
  consumer_id = "c1";
  visible_at = 7;
  delivery_count = 1;
}

abbrev queue : RedisQueue MemoryStore
queue = record {
  store = record empty_store {
    lists = λ k. if str_eq k "queue:telemetry" then message_json (message "a") ∷ [] else [];
    zsets = λ k. if str_eq k "pel:telemetry:g" then (7, entry_json entry) ∷ [] else [];
  };
  visibility_timeout = 300000000000;
  max_retries = 3;
  dead_letter_queue = [];
}

abbrev acknowledged : AckRequest
acknowledged = record { topic = "telemetry"; consumer_group = "g"; message_id = "b" }

instance abbrev decoders : Decoders
decoders = record {
  decode_message = λ body. some (message "c");
  decode_ack = λ body. some acknowledged;
  scan_int = λ s. none;
}

instance abbrev codec : Codec
codec = record {
  encode_message = λ m. some "{}";
  encode_ack = λ a. some "{}";
  decode_batch = λ body. some (message "b" ∷ [], pos 1);
}

abbrev clock : ℕ → ℕ
clock i = 63900000000000000000 + i

abbrev service : Service
service = record { queue = queue; broker = new_broker }

abbrev reply_of : Answer → Option HttpResponse
reply_of (plain (error k)) = some (record { status = k; body = "" })
reply_of (plain (success id)) = some (record { status = 200; body = id })
reply_of (plain (batch msgs)) = some (record { status = 200; body = "" })
reply_of (plain healthy) = some (record { status = 200; body = "" })
reply_of (plain aborted) = none
reply_of (opened ch event) = some (record { status = 200; body = "" })
reply_of (statistics stats) = some (record { status = 200; body = "" })

-- A URL is its path here. Posts go to the server; a GET gets a batch.
instance abbrev transport : Transport
transport = record {
  Net = Service × List HttpRequest;
  send = λ r n.
      if str_eq r.method "POST"
      then (let out =
            serve clock (record { method = "POST"; path = r.url; query = []; body = r.body }) n.0 in
          (reply_of out.0, (out.1, n.1 ++ r ∷ [])))
      else (some (record { status = 200; body = "" }), (n.0, n.1 ++ r ∷ []));
}

url_is_path : (path : String) → path ≡ concat ("" ∷ path ∷ [])
url_is_path path = sym (TextLemmas.nil-append _ ∙ TextLemmas.append-nil path)

replied : (s : Service) (out : Answer × Service) → Exchange s out (reply_of out.0) out.1
replied s (plain (error k), p) = Exchange.answered k "" refl
replied s (plain (success id), p) = Exchange.answered 200 id refl
replied s (plain (batch msgs), p) = Exchange.answered 200 "" refl
replied s (plain healthy, p) = Exchange.answered 200 "" refl
replied s (plain aborted, p) = Exchange.unanswered
replied s (opened ch event, p) = Exchange.answered 200 "" refl
replied s (statistics stats, p) = Exchange.answered 200 "" refl

abbrev client : HttpQueueClient
client = record { base_url = ""; consumer_group = "g"; consumer_id = "c1" }

abbrev Net : Type 0
Net = Service × List HttpRequest

abbrev served : String → String → Service → Answer × Service
served path body s =
    serve clock (record { method = "POST"; path = path; query = []; body = some body }) s

exchanged :
    (path body : String) (n : Net)
    → let out = transport.send (post_request (concat ("" ∷ path ∷ [])) body) n in
      Exchange n.0 (served path body n.0) out.0 out.1.0
unfolding post_request
exchanged path body n =
    subst
      (λ url.
        Exchange n.0 (served path body n.0) (reply_of (served url body n.0).0)
          (served url body n.0).1)
      (url_is_path path) (replied n.0 (served path body n.0))

abbrev connection : Connection client.base_url
connection = record { clock = clock; service_at = λ n. n.0; exchange = exchanged }

abbrev start : Net
start = (service, [])

told : (publish client (message "c") start).0 ≡ none
unfolding publish post post_request check_reply serve handle_publish RedisQueue.publish
told = refl

acked : (ack client "telemetry" "b" start).0 ≡ none
unfolding ack post post_request settle_url ack_payload check_reply serve handle_ack RedisQueue.ack
    pel_key RedisQueue.find_entry
acked = refl

ack-served_example :
    let p = (ack client "telemetry" "b" start).1.0.queue in
    Removes memory-RedisLaws (pel_key "telemetry" "g") "b" queue p
    × ((t : String) → waiting memory-RedisLaws p t ≡ waiting memory-RedisLaws queue t)
unfolding ack_payload
ack-served_example =
    ack-served memory-RedisLaws client connection "telemetry" "b" (λ body e. refl) start acked

nacked : (nack client "telemetry" "b" start).0 ≡ none
unfolding nack post post_request settle_url ack_payload check_reply serve handle_nack
    RedisQueue.nack RedisQueue.requeue_message queue_key pel_key RedisQueue.find_entry
nacked = refl

-- A handler that counts its messages and returns nil.
abbrev counting : Message → ℕ → Bool × ℕ
counting m n = (true, n + 1)

recorded : (r : HttpRequest) (n : Net) → (transport.send r n).1.1 ≡ n.1 ++ r ∷ []
recorded r n = ground arith

log-poll_example :
    let msgs = or_empty (read_batch (transport.send (fetch_request client "telemetry") start).0) in
    let s = (poll client "telemetry" counting (0, start)).1 in
    (s.1.1
      ≡ fetch_request client "telemetry"
        ∷ map
            (settle_request (λ n. n.1) recorded (λ a. "{}") (λ a. refl) client "telemetry")
            (outcomes counting msgs 0))
    × (s.0 ≡ handled counting msgs 0)
log-poll_example =
    log-poll (λ n. n.1) recorded (λ a. "{}") (λ a. refl) client "telemetry" counting 0 start

polled : (poll client "telemetry" counting (0, start)).1.0 ≡ 1
unfolding poll after_fetch process_batch process_one read_batch batch_of fetch_request
polled = refl

trimmed : (trim_slash "http://q/" ≡ "http://q") × (trim_slash "http://q" ≡ "http://q")
unfolding trim_slash
trimmed = (refl, refl)
