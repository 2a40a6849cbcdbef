-- ===== src/QueueService/Delivered.antt =====
-- A turn of a delivery goroutine leaves every message where it is, or moves it to where it is held.
use gpu_telemetry_pipeline.Base.{
  ℕ, ◌+◌, ◌%◌, ap, get_elem?, length, String, Bool, Option, none, some, List, ◌⊎◌, inl, inr, ◌≡◌,
  subst, ◌∙◌, Option-cases, arith,
}
use gpu_telemetry_pipeline.Message.{Message}
use gpu_telemetry_pipeline.Redis.{Redis, RedisLaws, IsHealthy}
use gpu_telemetry_pipeline.RedisQueue.{
  RedisQueue, Result, ok, err, panicked, pop_message, add_to_pel, requeue_message,
}
use gpu_telemetry_pipeline.RedisQueue.Held.{Held, Held-requeue_message, Held-add_to_pel}
use gpu_telemetry_pipeline.RedisQueue.Moves.{Held-pop_message, tracked-Held}
use gpu_telemetry_pipeline.ConsumerGroups.{Broker, deliver_to_consumer}
use gpu_telemetry_pipeline.ConsumerGroups.Deliveries.{
  Round, after_tracking, after_pop, deliver_message, deliver_one,
}

module _ ⦃R : Redis⦄ (L : RedisLaws R) (H : IsHealthy R) (m : Message) where
  open R use {Store}

  after_tracking-Held :
      (topic g i : String) (msg : Message) (out : Result (Unit {0}) × RedisQueue Store) (b : Broker)
      (k : ℕ) (r : Round)
      → Held L m out.1
      → after_tracking topic g i msg out b k ≡ some r
      → Held L m r.queue
  after_tracking-Held topic g i msg (ok u, q) b k r h e =
      elim (Option-cases (deliver_to_consumer topic g i msg b)) [
        | inl n ↦ absurd (ground (arith, n, e))
        | inr (b', d) ↦ let same : q ≡ r.queue = ground (arith, d, e) in subst (Held L m) same h
      ]
  after_tracking-Held topic g i msg (err x, q) b k r h e =
      let same : (requeue_message msg q).1 ≡ r.queue = ground (arith, e) in
      subst (Held L m) same ((Held-requeue_message L m msg).at q h)
  after_tracking-Held topic g i msg (panicked, q) b k r h e = absurd (cc)

  deliver_message-Held :
      (now : ℕ) (topic g : String) (ids : List String) (msg : Message) (q : RedisQueue Store)
      (b : Broker) (k : ℕ) (r : Round)
      → ((i : String) → Held L m (add_to_pel now msg g i q).1)
      → deliver_message now topic g ids msg q b k ≡ some r
      → Held L m r.queue
  unfolding deliver_message
  deliver_message-Held now topic g ids msg q b k r h e =
      elim (Option-cases (get_elem? ids (k % length ids))) [
        | inl n ↦ absurd (ground (arith, n, e))
        | inr (i, found) ↦
            after_tracking-Held topic g i msg (add_to_pel now msg g i q) b (k + 1) r (h i)
              (ground (arith, found, e))
      ]

  -- The message is held, or it is the one that was taken.
  abbrev InHand : Result (Option Message) × RedisQueue Store → Type 0
  InHand out =
      Held L m out.1 ⊎ ((out.0 ≡ ok (some m)) × (c : R.Bytes) × (R.decode_message c ≡ some m))

  tracks :
      (now : ℕ) (g : String) (msg : Message) (q : RedisQueue Store)
      → InHand (ok (some msg), q)
      → (i : String) → Held L m (add_to_pel now msg g i q).1
  tracks now g msg q (inl h) i = (Held-add_to_pel L m now msg g i).at q h
  tracks now g msg q (inr (e, c, d)) i =
      let same : m ≡ msg = cc (e) in
      subst (λ x. Held L m (add_to_pel now x g i q).1) same (tracked-Held L H m now g i c q d)

  after_pop-Held :
      (now : ℕ) (topic g : String) (ids : List String)
      (out : Result (Option Message) × RedisQueue Store) (b : Broker) (k : ℕ) (more : Bool)
      (r : Round)
      → InHand out
      → after_pop now topic g ids out b k ≡ some (more, r)
      → Held L m r.queue
  after_pop-Held now topic g ids (ok (some msg), q) b k more r h e =
      elim (Option-cases (deliver_message now topic g ids msg q b k)) [
        | inl n ↦ absurd (ground (arith, n, e))
        | inr (r', d) ↦
            let same : r' ≡ r = ground (arith, d, e) in
            deliver_message-Held now topic g ids msg q b k r (tracks now g msg q h)
              (d ∙ ap some same)
      ]
  after_pop-Held now topic g ids (ok none, q) b k more r (inl h) e =
      let same : q ≡ r.queue = ground (arith, e) in subst (Held L m) same h
  after_pop-Held now topic g ids (ok none, q) b k more r (inr (n, c, d)) e = absurd (cc)
  after_pop-Held now topic g ids (err x, q) b k more r (inl h) e =
      let same : q ≡ r.queue = ground (arith, e) in subst (Held L m) same h
  after_pop-Held now topic g ids (err x, q) b k more r (inr (n, c, d)) e = absurd (cc)
  after_pop-Held now topic g ids (panicked, q) b k more r h e = absurd (cc)

  pub Held-deliver_one :
      (now : ℕ) (topic g : String) (ids : List String) (r r' : Round) (more : Bool)
      → deliver_one now topic g ids r ≡ some (more, r')
      → Held L m r.queue
      → Held L m r'.queue
  unfolding deliver_one
  Held-deliver_one now topic g ids r r' more e h =
      after_pop-Held now topic g ids (pop_message topic r.queue) r.broker r.consumer_index more r'
        (Held-pop_message L m topic r.queue h) e
