-- ===== src/ConsumerGroups/Taken.antt =====
-- What becomes of a message that a delivery goroutine takes from its topic.
use gpu_telemetry_pipeline.Base.{
  ℕ, ◌+◌, ◌%◌, String, true, false, Option, none, some, List, ◌∷◌, ◌≡◌, refl, sym, ap, subst, ◌∙◌,
  inl, inr, length, get_elem?, str_eq_refl, Option-cases, Bool-cases, arith,
}
use gpu_telemetry_pipeline.Message.{Message}
use gpu_telemetry_pipeline.Redis.{Redis, RedisLaws}
use gpu_telemetry_pipeline.RedisQueue.{
  RedisQueue, Result, ok, err, panicked, pop_message, add_to_pel, requeue_message,
}
use gpu_telemetry_pipeline.RedisQueue.Waiting.{
  waiting, waiting-requeue_message, pop_message-Pops, Pops, took, empty, garbled, refused, is_ok,
}
use gpu_telemetry_pipeline.RedisQueue.Pending.{Tracked, add_to_pel-Tracked, waiting-add_to_pel}
use gpu_telemetry_pipeline.ConsumerGroups.{Broker, deliver_to_consumer}
use gpu_telemetry_pipeline.ConsumerGroups.Deliveries.{
  Round, after_tracking, after_pop, deliver_message, deliver_one,
}

module _ ⦃R : Redis⦄ (L : RedisLaws R) where
  -- Where a message is that was taken, with `before` left, for a consumer at a time: in the pending list
  -- for it; in front of its topic again, where the entry was not taken; or nowhere, where neither the
  -- entry nor the message was.
  pub data Fate (now : ℕ) (m : Message) (group consumer : String)
      (before after : RedisQueue R.Store) : Type 0 where
    kept :
        is_ok (add_to_pel now m group consumer before).0 ≡ true
        → Tracked L after m group consumer
        → Fate now m group consumer before after
    put_back :
        is_ok (add_to_pel now m group consumer before).0 ≡ false
        → is_ok (requeue_message m (add_to_pel now m group consumer before).1).0 ≡ true
        → waiting L after m.topic ≡ some m ∷ waiting L before m.topic
        → Fate now m group consumer before after
    refused_twice :
        is_ok (add_to_pel now m group consumer before).0 ≡ false
        → is_ok (requeue_message m (add_to_pel now m group consumer before).1).0 ≡ false
        → waiting L after m.topic ≡ waiting L before m.topic
        → Fate now m group consumer before after

  -- A pass of the inner loop that goes on has taken the oldest message of the topic, and this is what
  -- became of it, for the consumer whose turn it was.
  pub record Taken (now : ℕ) (group : String) (ids : List String) (topic : String) (r r' : Round)
      : Type 0 where
    pub message : Message
    pub consumer : String
    pub rest : RedisQueue R.Store
    pub was_oldest : waiting L r.queue topic ≡ some message ∷ waiting L rest topic
    pub has_turn : get_elem? ids (r.consumer_index % length ids) ≡ some consumer
    pub next_turn : r'.consumer_index ≡ r.consumer_index + 1
    pub fate : Fate now message group consumer rest r'.queue

  Fate-requeue_message :
      (now : ℕ) (m : Message) (g c : String) (before : RedisQueue R.Store)
      → is_ok (add_to_pel now m g c before).0 ≡ false
      → Fate now m g c before (requeue_message m (add_to_pel now m g c before).1).1
  Fate-requeue_message now m g c before n =
      let q = (add_to_pel now m g c before).1 in
      let w = waiting-add_to_pel L now m g c m.topic before in
      let moved = waiting-requeue_message L m q m.topic in
      elim (Bool-cases (is_ok (requeue_message m q).0)) [
        | inl e ↦ put_back n e (ground (arith, w, e, moved, str_eq_refl m.topic))
        | inr e ↦ refused_twice n e (ground (arith, w, e, moved))
      ]

  after_tracking-Fate :
      (now : ℕ) (t g c : String) (m : Message) (out : Result (Unit {0}) × RedisQueue R.Store)
      (b : Broker) (i : ℕ) (r : Round) (before : RedisQueue R.Store)
      → add_to_pel now m g c before ≡ out
      → after_tracking t g c m out b i ≡ some r
      → (r.consumer_index ≡ i) × Fate now m g c before r.queue
  after_tracking-Fate now t g c m (ok u, q) b i r before o h =
      elim (Option-cases (deliver_to_consumer t g c m b)) [
        | inl e ↦ absurd (ground (arith, e, h))
        | inr (b', e) ↦
            let is : record { queue = q; broker = b'; consumer_index = i } ≡ r =
              ground (arith, e, h) in
            let same : (add_to_pel now m g c before).1 ≡ r.queue =
              ap (λ x. x.1) o ∙ ap (λ r. r.queue) is in
            (
              sym (ap (λ r. r.consumer_index) is),
              kept (ap (λ x. is_ok x.0) o) (
                  subst (λ p. Tracked L p m g c) same
                    (add_to_pel-Tracked L now m g c before (ap (λ x. x.0) o))),
            )
      ]
  after_tracking-Fate now t g c m (err e, q) b i r before o h =
      let is : record { queue = (requeue_message m q).1; broker = b; consumer_index = i } ≡ r =
        ground (arith, h) in
      let same : (requeue_message m (add_to_pel now m g c before).1).1 ≡ r.queue =
        ap (λ x. (requeue_message m x.1).1) o ∙ ap (λ r. r.queue) is in
      (
        sym (ap (λ r. r.consumer_index) is),
        subst (Fate now m g c before) same
            (Fate-requeue_message now m g c before (ap (λ x. is_ok x.0) o)),
      )
  after_tracking-Fate now t g c m (panicked, q) b i r before o h = absurd (ground (arith, h))

  deliver_message-Fate :
      (now : ℕ) (t g : String) (ids : List String) (m : Message) (q : RedisQueue R.Store)
      (b : Broker) (i : ℕ) (r : Round)
      → deliver_message now t g ids m q b i ≡ some r
      → (c : String) × (get_elem? ids (i % length ids) ≡ some c)
        × (r.consumer_index ≡ i + 1)
        × Fate now m g c q r.queue
  unfolding deliver_message
  deliver_message-Fate now t g ids m q b i r h =
      elim (Option-cases (get_elem? ids (i % length ids))) [
        | inl e ↦ absurd (ground (arith, e, h))
        | inr (c, e) ↦
            let went : after_tracking t g c m (add_to_pel now m g c q) b (i + 1) ≡ some r =
              ground (arith, e, h) in
            let (turn, fate) =
              after_tracking-Fate now t g c m (add_to_pel now m g c q) b (i + 1) r q refl went in
            (c, e, turn, fate)
      ]

  after_pop-Taken :
      (now : ℕ) (t g : String) (ids : List String)
      (out : Result (Option Message) × RedisQueue R.Store) (r r' : Round)
      → Pops out.0 (waiting L r.queue t) (waiting L out.1 t)
      → after_pop now t g ids out r.broker r.consumer_index ≡ some (true, r')
      → Taken now g ids t r r'
  after_pop-Taken now t g ids (ok (some m), q) r r' (took m' is was) h =
      elim (Option-cases (deliver_message now t g ids m q r.broker r.consumer_index)) [
        | inl e ↦ absurd (ground (arith, e, h))
        | inr (r'', e) ↦
            let same : r'' ≡ r' = ground (arith, e, h) in
            let (c, turn, next, fate) =
              deliver_message-Fate now t g ids m q r.broker r.consumer_index r'' e in
            record {
              message = m;
              consumer = c;
              rest = q;
              was_oldest = ground (arith, is, was);
              has_turn = turn;
              next_turn = sym (ap (λ r. r.consumer_index) same) ∙ next;
              fate = subst (Fate now m g c q) (ap (λ r. r.queue) same) fate;
            }
      ]
  after_pop-Taken now t g ids (ok (some m), q) r r' (empty is a b) h = absurd (ground (arith, is))
  after_pop-Taken now t g ids (ok (some m), q) r r' (garbled is a) h = absurd (ground (arith, is))
  after_pop-Taken now t g ids (ok (some m), q) r r' (refused is a) h = absurd (ground (arith, is))
  after_pop-Taken now t g ids (ok none, q) r r' p h = absurd (ground (arith, h))
  after_pop-Taken now t g ids (err e, q) r r' p h = absurd (ground (arith, h))
  after_pop-Taken now t g ids (panicked, q) r r' p h = absurd (ground (arith, h))

  -- A pass of the inner loop that goes on has taken the oldest message of the topic, for the consumer
  -- whose turn it was, and the turn goes to the next. If its entry was taken, the message is then in the
  -- pending list for that consumer, whether or not the consumer's channel had room for it; if the entry
  -- failed and putting the message back succeeded, it is in front of its topic again; and only if both
  -- failed has nothing waiting changed.
  pub deliver_one-Taken :
      (now : ℕ) (t g : String) (ids : List String) (r r' : Round)
      → deliver_one now t g ids r ≡ some (true, r')
      → Taken now g ids t r r'
  unfolding deliver_one
  deliver_one-Taken now t g ids r r' h =
      after_pop-Taken now t g ids (pop_message t r.queue) r r' (pop_message-Pops L t r.queue) h
