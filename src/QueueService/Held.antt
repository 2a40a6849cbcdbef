-- ===== src/QueueService/Held.antt =====
-- A request leaves every message where it is, or moves it to where it is held.
use mathlib.Core.Option.{some-injective}
use gpu_telemetry_pipeline.Base.{
  ℕ, String, Bool, true, false, Option, none, some, [], inl, inr, ◌≡◌, ◌≢◌, refl, str_eq,
  if◌then◌else◌, Option-cases, ℤ, ◌||◌,
}
use gpu_telemetry_pipeline.Message.{Message}
use gpu_telemetry_pipeline.Redis.{Redis, RedisLaws, IsHealthy}
use gpu_telemetry_pipeline.RedisQueue.{
  RedisQueue, Result, ok, err, panicked, publish, fetch_batch, ack, nack,
}
use gpu_telemetry_pipeline.RedisQueue.Held.{Held, Held-publish}
use gpu_telemetry_pipeline.RedisQueue.Unlost.{Held-ack, Held-nack, Held-fetch_loop}
use gpu_telemetry_pipeline.HttpServer.{
  Request, AckRequest, Decoders, Response, error, success, batch, respond, publish_body, with_entry,
  fetch_limited, limit_prefetch, parse_prefetch, query_get, healthy, handle_publish, handle_fetch,
  handle_ack, handle_nack, handle_health,
}

-- The body acknowledges no message of that id.
abbrev pub SparesBody : ⦃X : Decoders⦄ → String → Option String → Type 0
SparesBody id none = Unit
SparesBody ⦃X⦄ id (some body) = (a : AckRequest) → X.decode_ack body ≡ some a → a.message_id ≢ id

module _ ⦃R : Redis⦄ (L : RedisLaws R) (H : IsHealthy R) (m : Message) where
  open R use {Store}

  -- A handler leaves the message held.
  pub record HeldAfter (out : Response × RedisQueue Store) : Type 0 where
    pub held : Held L m out.1

  HeldAfter-respond :
      {A : Type 0} (out : Result A × RedisQueue Store) (f : A → Response)
      → Held L m out.1
      → HeldAfter (respond out f)
  HeldAfter-respond (ok a, q) f h = record { held = h }
  HeldAfter-respond (err e, q) f h = record { held = h }
  HeldAfter-respond (panicked, q) f h = record { held = h }

  HeldAfter-if :
      (b : Bool) (x y : Response × RedisQueue Store)
      → HeldAfter x
      → HeldAfter y
      → HeldAfter (if b then x else y)
  HeldAfter-if true x y u v = u
  HeldAfter-if false x y u v = v

  module _ ⦃X : Decoders⦄ where
    HeldAfter-publish_body :
        (body : Option String) (q : RedisQueue Store) → Held L m q → HeldAfter (publish_body body q)
    HeldAfter-publish_body none q h = record { held = h }
    HeldAfter-publish_body (some body) q h = elim (Option-cases (X.decode_message body)) [
      | inl e ↦ rw (publish_body, e) (record { held = h })
      | inr (msg, e) ↦
          rw (publish_body, e) (HeldAfter-respond (publish msg q) _ ((Held-publish L m msg).at q h))
    ]

    -- `Ack` or `Nack` behind its handler.
    HeldAfter-with_entry :
        (act : String → String → String → RedisQueue Store → Result (Unit {0}) × RedisQueue Store)
        (body : Option String) (q : RedisQueue Store)
        → ((a : AckRequest)
            → (s : String) → body ≡ some s
            → X.decode_ack s ≡ some a
            → Held L m (act a.topic a.consumer_group a.message_id q).1)
        → Held L m q
        → HeldAfter (with_entry act body q)
    HeldAfter-with_entry act none q k h = record { held = h }
    HeldAfter-with_entry act (some body) q k h = elim (Option-cases (X.decode_ack body)) [
      | inl e ↦ rw (with_entry, e) (record { held = h })
      | inr (a, e) ↦
          rw (with_entry, e)
            (HeldAfter-if
              (str_eq a.topic "" || str_eq a.consumer_group "" || str_eq a.message_id "")
              (error 400, q) _ (record { held = h })
              (HeldAfter-respond (act a.topic a.consumer_group a.message_id q)
                (λ u. success a.message_id) (k a body refl e)))
    ]

    HeldAfter-fetch_limited :
        (clock : ℕ → ℕ) (topic g c : String) (prefetch : Option ℤ) (q : RedisQueue Store)
        → Held L m q
        → HeldAfter (fetch_limited clock topic g c prefetch q)
    unfolding fetch_limited fetch_batch
    HeldAfter-fetch_limited clock topic g c none q h = record { held = h }
    HeldAfter-fetch_limited clock topic g c (some n) q h =
        HeldAfter-respond (fetch_batch clock topic g c (limit_prefetch n) q) batch
          ((Held-fetch_loop L H m clock topic g c (limit_prefetch n) 0 []).at q h)

    pub HeldAfter-handle_publish :
        (r : Request) (q : RedisQueue Store) → Held L m q → HeldAfter (handle_publish r q)
    unfolding handle_publish
    HeldAfter-handle_publish r q h =
        HeldAfter-if (str_eq r.method "POST") _ (error 405, q) (HeldAfter-publish_body r.body q h)
          (record { held = h })

    pub HeldAfter-handle_fetch :
        (clock : ℕ → ℕ) (r : Request) (q : RedisQueue Store)
        → Held L m q
        → HeldAfter (handle_fetch clock r q)
    unfolding handle_fetch
    HeldAfter-handle_fetch clock r q h =
        let as_it_was : (status : ℕ) → HeldAfter (error status, q) =
          λ status. record { held = h } in
        let topic = query_get r "topic" in
        let g = query_get r "consumer_group" in
        let c = query_get r "consumer_id" in
        let prefetch = parse_prefetch X.scan_int (query_get r "prefetch") in
        HeldAfter-if (str_eq r.method "GET") _ (error 405, q)
          (HeldAfter-if (str_eq topic "" || str_eq g "" || str_eq c "") (error 400, q)
            (fetch_limited clock topic g c prefetch q) (as_it_was 400)
            (HeldAfter-fetch_limited clock topic g c prefetch q h))
          (as_it_was 405)

    pub HeldAfter-handle_ack :
        (r : Request) (q : RedisQueue Store)
        → SparesBody m.id r.body
        → Held L m q
        → HeldAfter (handle_ack r q)
    unfolding handle_ack
    HeldAfter-handle_ack r q s h =
        HeldAfter-if (str_eq r.method "POST") _ (error 405, q)
          (HeldAfter-with_entry ack r.body q
            (λ a body e d.
              (Held-ack L H m a.topic a.consumer_group a.message_id (spared r.body body a e d s)).at
                q h)
            h)
          (record { held = h })
      where
        spared :
            (o : Option String) (body : String) (a : AckRequest)
            → o ≡ some body
            → X.decode_ack body ≡ some a
            → SparesBody m.id o
            → a.message_id ≢ m.id
        spared none body a e d s = absurd (cc)
        spared (some t) body a e d s = s a (rw (some-injective _ _ e) d)

    pub HeldAfter-handle_nack :
        (r : Request) (q : RedisQueue Store) → Held L m q → HeldAfter (handle_nack r q)
    unfolding handle_nack
    HeldAfter-handle_nack r q h =
        HeldAfter-if (str_eq r.method "POST") _ (error 405, q)
          (HeldAfter-with_entry nack r.body q
            (λ a body e d. (Held-nack L H m a.topic a.consumer_group a.message_id).at q h) h)
          (record { held = h })

    pub HeldAfter-handle_health :
        (r : Request) (q : RedisQueue Store) → Held L m q → HeldAfter (handle_health r q)
    unfolding handle_health
    HeldAfter-handle_health r q h =
        HeldAfter-if (str_eq r.method "GET") (healthy, q) (error 405, q) (record { held = h })
          (record { held = h })
