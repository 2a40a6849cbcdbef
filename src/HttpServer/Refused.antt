-- ===== src/HttpServer/Refused.antt =====
-- What a request that the server turns down leaves behind.
use gpu_telemetry_pipeline.Base.{
  ℕ, ℤ, ◌<◌, String, Bool, true, false, Option, none, some, List, ◌≡◌, ◌≢◌, refl, str_eq,
  if◌then◌else◌, arith,
}
use gpu_telemetry_pipeline.Message.{Message}
use gpu_telemetry_pipeline.Redis.{Redis}
use gpu_telemetry_pipeline.RedisQueue.{
  RedisQueue, Result, ok, err, panicked, publish, fetch_batch, ack, nack,
}
use gpu_telemetry_pipeline.HttpServer.{
  Request, Decoders, Response, error, success, batch, healthy, respond, limit_prefetch,
  publish_body, with_entry, fetch_limited, handle_publish, handle_fetch, handle_ack, handle_nack,
  handle_health,
}
use gpu_telemetry_pipeline.HttpServer.Mux.{
  Service, Answer, plain, on_queue, stream_answer, stats_answer, serve,
}
use gpu_telemetry_pipeline.ConsumerGroups.{open_stream}
use gpu_telemetry_pipeline.ConsumerGroups.Stats.{handle_stats}

-- An answer with a status below 500 that is an error comes with the queue as it was.
abbrev Untouched : {S : Type 0} → RedisQueue S → Response × RedisQueue S → Type 0
Untouched q out = (status : ℕ) → out.0 ≡ error status → status < 500 → out.1 ≡ q

-- The same of the whole server.
abbrev pub Unchanged : ⦃R : Redis⦄ → Service → Answer × Service → Type 0
Unchanged s out = (status : ℕ) → out.0 ≡ plain (error status) → status < 500 → out.1 ≡ s

module _ {S : Type 0} where
  stays : (q : RedisQueue S) (answer : Response) → Untouched q (answer, q)
  stays q answer status h l = refl

  Untouched-if :
      (q : RedisQueue S) (b : Bool) (x y : Response × RedisQueue S)
      → Untouched q x
      → Untouched q y
      → Untouched q (if b then x else y)
  Untouched-if q true x y u v = u
  Untouched-if q false x y u v = v

  Untouched-respond :
      {A : Type 0} (q : RedisQueue S) (out : Result A × RedisQueue S) (f : A → Response)
      → ((a : A) (status : ℕ) → f a ≢ error status)
      → Untouched q (respond out f)
  Untouched-respond q (ok a, p) f g status h l = absurd (g a status h)
  Untouched-respond q (err e, p) f g status h l = absurd (ground (arith, h, l))
  Untouched-respond q (panicked, p) f g status h l = absurd (ground (arith, h))

  Untouched-option :
      {A : Type 0} (q : RedisQueue S) (o : Option A) (x : Response × RedisQueue S)
      (f : A → Response × RedisQueue S)
      → Untouched q x
      → ((a : A) → Untouched q (f a))
      → Untouched q (elim o [ none ↦ x | some a ↦ f a ])
  Untouched-option q none x f u v = u
  Untouched-option q (some a) x f u v = v a

success-ne-error : (s : String) (status : ℕ) → success s ≢ error status
success-ne-error s status h = ground (arith, h)

batch-ne-error : (ms : List Message) (status : ℕ) → batch ms ≢ error status
batch-ne-error ms status h = ground (arith, h)

module _ ⦃R : Redis⦄ ⦃X : Decoders⦄ where
  open R use {Store}

  publish_body-Untouched :
      (body : Option String) (q : RedisQueue Store) → Untouched q (publish_body body q)
  publish_body-Untouched none q = stays q _
  publish_body-Untouched (some body) q =
      Untouched-option q (X.decode_message body) _ _ (stays q (error 400))
        (λ msg. Untouched-respond q (publish msg q) _ (λ a. success-ne-error msg.id))

  with_entry-Untouched :
      (act : String → String → String → RedisQueue Store → Result (Unit {0}) × RedisQueue Store)
      (body : Option String) (q : RedisQueue Store)
      → Untouched q (with_entry act body q)
  with_entry-Untouched act none q = stays q _
  with_entry-Untouched act (some body) q =
      Untouched-option q (X.decode_ack body) _ _ (stays q (error 400)) (λ req.
        Untouched-if q _ _ _ (stays q (error 400)) (
          Untouched-respond q (act req.topic req.consumer_group req.message_id q) _
            (λ a. success-ne-error req.message_id)))

  fetch_limited-Untouched :
      (clock : ℕ → ℕ) (topic group consumer : String) (prefetch : Option ℤ) (q : RedisQueue Store)
      → Untouched q (fetch_limited clock topic group consumer prefetch q)
  unfolding fetch_limited
  fetch_limited-Untouched clock topic group consumer none q = stays q _
  fetch_limited-Untouched clock topic group consumer (some n) q =
      Untouched-respond q (fetch_batch clock topic group consumer (limit_prefetch n) q) batch
        batch-ne-error

  handle_fetch-Untouched :
      (clock : ℕ → ℕ) (r : Request) (q : RedisQueue Store) → Untouched q (handle_fetch clock r q)
  unfolding handle_fetch
  handle_fetch-Untouched clock r q =
      Untouched-if q _ _ _
        (Untouched-if q _ _ _ (stays q (error 400)) (fetch_limited-Untouched clock _ _ _ _ q))
        (stays q (error 405))

  Unchanged-if :
      (s : Service) (b : Bool) (x y : Answer × Service)
      → Unchanged s x
      → Unchanged s y
      → Unchanged s (if b then x else y)
  Unchanged-if s true x y u v = u
  Unchanged-if s false x y u v = v

  Unchanged-on_queue :
      (s : Service) (out : Response × RedisQueue Store)
      → Untouched s.queue out
      → Unchanged s (on_queue out s)
  Unchanged-on_queue s (answer, q) u status h l = ground (arith, u status (cc (h)) l)

  Unchanged-subscribe :
      (r : Request) (s : Service) → Unchanged s (stream_answer (open_stream r s.broker) s)
  unfolding open_stream
  Unchanged-subscribe r s status h l = ground (arith, h)

  Unchanged-stats :
      (r : Request) (s : Service) → Unchanged s (stats_answer (handle_stats r s.broker s.queue) s)
  unfolding handle_stats
  Unchanged-stats r s status h l = ground (arith, h)

  -- A request that the server answers with an error status below 500 (a wrong path, method or
  -- parameter, or a body that is no JSON) leaves the queue and the consumer groups as they were,
  -- whatever Redis does.
  pub serve-Unchanged : (clock : ℕ → ℕ) (r : Request) (s : Service) → Unchanged s (serve clock r s)
  unfolding serve handle_publish handle_ack handle_nack handle_health
  serve-Unchanged clock r s =
      let q = s.queue in
      let at : String → Bool = λ name. str_eq r.path name in
      let wrong = stays q (error 405) in
      let is_post : Bool = str_eq r.method "POST" in
      let fetch = handle_fetch-Untouched clock r q in
      let health = Untouched-if q (str_eq r.method "GET") _ _ (stays q healthy) wrong in
      let nack = Untouched-if q is_post _ _ (with_entry-Untouched nack r.body q) wrong in
      let ack = Untouched-if q is_post _ _ (with_entry-Untouched ack r.body q) wrong in
      let publish = Untouched-if q is_post _ _ (publish_body-Untouched r.body q) wrong in
      let lift = Unchanged-on_queue s in
      Unchanged-if s (at "/api/v1/queue/publish") _ _ (lift _ publish) (
        Unchanged-if s (at "/api/v1/queue/subscribe") _ _ (Unchanged-subscribe r s) (
          Unchanged-if s (at "/api/v1/queue/fetch") _ _ (lift _ fetch) (
            Unchanged-if s (at "/api/v1/queue/ack") _ _ (lift _ ack) (
              Unchanged-if s (at "/api/v1/queue/nack") _ _ (lift _ nack) (
                Unchanged-if s (at "/api/v1/queue/stats") _ _ (Unchanged-stats r s)
                  (Unchanged-if s (at "/health") _ _ (lift _ health) (λ status h l. refl)))))))
