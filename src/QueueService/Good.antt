-- ===== src/QueueService/Good.antt =====
-- A request leaves a good service good: its consumer groups sound and a message held.
use gpu_telemetry_pipeline.Base.{
  ℕ, String, Bool, true, false, inl, inr, ◌≡◌, refl, str_eq, str_eq_iff, if◌then◌else◌, Bool-cases,
  ◌||◌,
}
use gpu_telemetry_pipeline.Message.{Message}
use gpu_telemetry_pipeline.Redis.{Redis, RedisLaws, IsHealthy}
use gpu_telemetry_pipeline.RedisQueue.{RedisQueue}
use gpu_telemetry_pipeline.RedisQueue.Held.{Held}
use gpu_telemetry_pipeline.HttpServer.{Request, Decoders, Response, query_get}
use gpu_telemetry_pipeline.HttpServer.Mux.{
  Answer, Service, on_queue, stream_answer, stats_answer, serve,
}
use gpu_telemetry_pipeline.ConsumerGroups.{open_stream}
use gpu_telemetry_pipeline.ConsumerGroups.Stats.{handle_stats}
use gpu_telemetry_pipeline.ConsumerGroups.Open.{IsSound, register-IsSound}
use gpu_telemetry_pipeline.QueueService.{Event, requests, checks, delivers, streams, leaves}
use gpu_telemetry_pipeline.QueueService.Held.{
  SparesBody, HeldAfter, HeldAfter-handle_publish, HeldAfter-handle_fetch, HeldAfter-handle_ack,
  HeldAfter-handle_nack, HeldAfter-handle_health,
}
use gpu_telemetry_pipeline.QueueService.Statistics.{Held-get_stats}

-- The event is no acknowledgement of a message of that id.
abbrev pub Spares : ⦃X : Decoders⦄ → String → Event → Type 0
Spares id (requests clock r) = r.path ≡ "/api/v1/queue/ack" → SparesBody id r.body
Spares id (checks now) = Unit
Spares id (delivers now i topic g first others) = Unit
Spares id (streams signal ch) = Unit
Spares id (leaves r) = Unit

module _ ⦃R : Redis⦄ (L : RedisLaws R) (H : IsHealthy R) (m : Message) where
  open R use {Store}

  -- The consumer groups are sound, and the message is held.
  pub record IsGood (s : Service) : Type 0 where
    pub is_sound : IsSound s.broker
    pub held : Held L m s.queue

  -- An answer with a service that is good.
  pub record GoodAfter (out : Answer × Service) : Type 0 where
    pub good : IsGood out.1

  on_queue-Good :
      (s : Service) (out : Response × RedisQueue Store)
      → IsGood s
      → HeldAfter L H m out
      → GoodAfter (on_queue out s)
  on_queue-Good s (answer, q) g h = record {
    good = record { is_sound = g.is_sound; held = h.held };
  }

  GoodAfter-if :
      (b : Bool) (x y : Answer × Service)
      → (b ≡ true → GoodAfter x)
      → GoodAfter y
      → GoodAfter (if b then x else y)
  GoodAfter-if true x y u v = u refl
  GoodAfter-if false x y u v = v

  open_stream-Good :
      (r : Request) (s : Service) → IsGood s → GoodAfter (stream_answer (open_stream r s.broker) s)
  unfolding open_stream
  open_stream-Good r s g =
      let topic = query_get r "topic" in
      let group = query_get r "consumer_group" in
      let consumer = query_get r "consumer_id" in
      let missing : Bool = str_eq topic "" || str_eq group "" || str_eq consumer "" in
      elim (Bool-cases (str_eq r.method "GET")) [
        | inr e ↦ rw e (record { good = g })
        | inl e ↦ elim (Bool-cases missing) [
          | inl f ↦ rw (e, f) (record { good = g })
          | inr f ↦
              rw (e, f)
                (record {
                  good = record {
                    is_sound = register-IsSound topic group consumer s.broker g.is_sound;
                    held = g.held;
                  };
                })
        ]
      ]

  handle_stats-Good :
      (r : Request) (s : Service)
      → IsGood s
      → GoodAfter (stats_answer (handle_stats r s.broker s.queue) s)
  unfolding handle_stats
  handle_stats-Good r s g = elim (Bool-cases (str_eq r.method "GET")) [
    | inl e ↦ rw e (record {
      good = record { is_sound = g.is_sound; held = Held-get_stats L m s.broker s.queue g.held };
    })
    | inr e ↦ rw e (record { good = g })
  ]

  module _ ⦃X : Decoders⦄ where
    pub serve-Good :
        (clock : ℕ → ℕ) (r : Request) (s : Service)
        → Spares m.id (requests clock r)
        → IsGood s
        → GoodAfter (serve clock r s)
    unfolding serve
    serve-Good clock r s spares g =
        let at : String → Bool = λ name. str_eq r.path name in
        let publish = HeldAfter-handle_publish L H m r s.queue g.held in
        let fetch = HeldAfter-handle_fetch L H m clock r s.queue g.held in
        let ack = λ (p : at "/api/v1/queue/ack" ≡ true).
          HeldAfter-handle_ack L H m r s.queue (spares ((str_eq_iff r.path _).0 p)) g.held in
        let nack = HeldAfter-handle_nack L H m r s.queue g.held in
        let health = HeldAfter-handle_health L H m r s.queue g.held in
        let lift = λ (out : Response × RedisQueue Store). on_queue-Good s out g in
        GoodAfter-if (at "/api/v1/queue/publish") _ _ (λ p. lift _ publish)
          (GoodAfter-if (at "/api/v1/queue/subscribe") _ _ (λ p. open_stream-Good r s g)
            (GoodAfter-if (at "/api/v1/queue/fetch") _ _ (λ p. lift _ fetch)
              (GoodAfter-if (at "/api/v1/queue/ack") _ _ (λ p. lift _ (ack p))
                (GoodAfter-if (at "/api/v1/queue/nack") _ _ (λ p. lift _ nack)
                  (GoodAfter-if (at "/api/v1/queue/stats") _ _ (λ p. handle_stats-Good r s g)
                    (GoodAfter-if (at "/health") _ _ (λ p. lift _ health)
                      (record { good = g })))))))
