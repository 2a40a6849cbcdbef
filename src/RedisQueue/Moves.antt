-- ===== src/RedisQueue/Moves.antt =====
-- The steps that take a message from its place, and where it goes from there, with a server that
-- answers.
use mathlib.Core.List.{Memᴰ}
use mathlib.Core.List.Memᴰ
use gpu_telemetry_pipeline.Base.{
  ℕ, String, ◌≡◌, refl, sym, subst, false, Option, none, some, List, [], ◌∷◌, ◌⊎◌, inl, inr, map,
  str_eq, str_eq_iff, str_eq_refl, Bool-cases, arith,
}
use gpu_telemetry_pipeline.Message.{Message}
use gpu_telemetry_pipeline.Redis.{Redis, RedisLaws, IsHealthy, PendingEntry}
use gpu_telemetry_pipeline.RedisQueue.{
  RedisQueue, Result, Action, ok, err, panicked, ◌>>◌, pure, command, after_either, taken, stop,
  pop_message, requeue_message, add_to_pel, track, fetch_round, queue_key, pel_key,
}
use gpu_telemetry_pipeline.RedisQueue.Keeps.{Keeps, keep_rules}
use gpu_telemetry_pipeline.RedisQueue.Keys.{str_eq-queue_key}
use gpu_telemetry_pipeline.RedisQueue.Waiting.{
  waiting, waiting-requeue_message, Pops, took, empty, garbled, refused, pop_message-Pops,
}
use gpu_telemetry_pipeline.RedisQueue.Pending.{
  copies-without_ne, zset-pop_message, add_to_pel-Tracked, add_to_pel_ok,
}
use gpu_telemetry_pipeline.RedisQueue.Held.{Held, Held-requeue_message, Held-add_to_pel}

module _ ⦃R : Redis⦄ (L : RedisLaws R) where
  -- A text that is an entry of the message.
  pub record Carries (b : R.Bytes) (m : Message) : Type 0 where
    pub entry : PendingEntry
    pub is_entry : R.decode_entry b ≡ some entry
    pub is_of : entry.message ≡ m

  decoded_of_mem :
      (m : Message) (bs : List R.Bytes)
      → Memᴰ (some m) (map R.decode_message bs)
      → (b : R.Bytes) × (R.decode_message b ≡ some m)
  decoded_of_mem m [] h = absurd (Memᴰ.not-nil h)
  decoded_of_mem m (b ∷ bs) (Memᴰ.head e) = (b, sym e)
  decoded_of_mem m (b ∷ bs) (Memᴰ.tail h) = decoded_of_mem m bs h

  -- ZREM takes the text out of one pending list, and nothing else from anywhere.
  pub Held-zrem :
      (m : Message) (key : String) (b : R.Bytes) (q : RedisQueue R.Store)
      → Held L m q
      → Held L m (command (R.zrem key b) q).1 ⊎ Carries b m
  Held-zrem m key b q (Held.waits topic h) =
      inl (Held.waits topic (rw (L.list-zrem key (queue_key topic) b q.store) h))
  Held-zrem m key b q (Held.died e i h) = inl (Held.died e i h)
  Held-zrem m key b q (Held.pends k c e d i n) = elim (Bool-cases (R.same c b)) [
    | inl same ↦
        let is_b : c ≡ b = (L.same_iff c b).0 same in
        inr (record { entry = e; is_entry = rw (← is_b) d; is_of = i })
    | inr other ↦
        let apart : c ≡ b → ⊥ = λ (p : c ≡ b). cc ((L.same_iff c b).1 p) in
        inl (
          Held.pends k c e d i (
            ground (
              arith,
              L.zset-zrem key k b q.store,
              copies-without_ne L c b (L.zset_at q.store k) apart,
              n,
            )))
  ]

  waiting-pop_message_other :
      (t topic : String) (q : RedisQueue R.Store)
      → str_eq t topic ≡ false
      → waiting L (pop_message t q).1 topic ≡ waiting L q topic
  unfolding pop_message
  waiting-pop_message_other t topic q h =
      ground
        (arith, L.list-brpop (queue_key t) (queue_key topic) q.store, str_eq-queue_key t topic, h)

  dead-pop_message :
      (t : String) (q : RedisQueue R.Store)
      → (pop_message t q).1.dead_letter_queue ≡ q.dead_letter_queue
  unfolding pop_message
  dead-pop_message t q = ground arith

  waits-Pops :
      (m : Message) (r : Result (Option Message)) (before after : List (Option Message))
      → Pops r before after
      → Memᴰ (some m) before
      → Memᴰ (some m) after ⊎ (r ≡ ok (some m))
  waits-Pops m r before after (took n e b) h = elim (Memᴰ.cases_cons (subst (Memᴰ (some m)) b h)) [
    | inl same ↦ inr (cc (same, e))
    | inr later ↦ inl later
  ]
  waits-Pops m r before after (empty e b a) h = absurd (Memᴰ.not-nil (subst (Memᴰ (some m)) b h))
  waits-Pops m r before after (garbled e b) h = elim (Memᴰ.cases_cons (subst (Memᴰ (some m)) b h)) [
    | inl same ↦ absurd (cc)
    | inr later ↦ inl later
  ]
  waits-Pops m r before after (refused e a) h = inl (subst (Memᴰ (some m)) (sym a) h)

  -- A pop leaves a message where it is, or returns it.
  pub Held-pop_message :
      (m : Message) (t : String) (q : RedisQueue R.Store)
      → Held L m q
      → Held L m (pop_message t q).1
        ⊎ (((pop_message t q).0 ≡ ok (some m)) × (b : R.Bytes) × (R.decode_message b ≡ some m))
  Held-pop_message m t q (Held.pends k b e d i n) =
      inl (Held.pends k b e d i (rw (zset-pop_message L t k q) n))
  Held-pop_message m t q (Held.died e i h) = inl (Held.died e i (rw (dead-pop_message t q) h))
  Held-pop_message m t q (Held.waits topic h) = elim (Bool-cases (str_eq t topic)) [
    | inr other ↦ inl (Held.waits topic (rw (waiting-pop_message_other t topic q other) h))
    | inl same ↦
        let here : Memᴰ (some m) (waiting L q t) = rw ((str_eq_iff t topic).0 same) h in
        elim (waits-Pops m _ _ _ (pop_message-Pops L t q) here) [
          | inl later ↦ inl (Held.waits t later)
          | inr r ↦
              let (b, d) = decoded_of_mem m (L.list_at q.store (queue_key t)) here in inr (r, b, d)
        ]
  ]

module _ ⦃R : Redis⦄ (L : RedisLaws R) (H : IsHealthy R) where
  -- A message that can be written waits once it is put back.
  pub requeue_message-Held :
      (m : Message) (b : R.Bytes) (q : RedisQueue R.Store)
      → R.encode_message m ≡ some b
      → Held L m (requeue_message m q).1
  requeue_message-Held m b q h =
      let back : (requeue_message m q).0 ≡ ok tt =
        unfold requeue_message in
        rw h (ground (arith, H.rpush_done (queue_key m.topic) b q.store)) in
      let there : waiting L (requeue_message m q).1 m.topic ≡ some m ∷ waiting L q m.topic =
        ground (arith, back, waiting-requeue_message L m q m.topic, str_eq_refl m.topic) in
      Held.waits m.topic (rw there (Memᴰ.head refl))

  module _ (m : Message) where
    -- The rest of a method, after ZREM, keeps every other message and finds a place for this one.
    pub Held-zrem-then :
        (key : String) (b : R.Bytes) (next : Action R.Store (Unit {0}))
        → Keeps (Held L m) next
        → ((p : RedisQueue R.Store) → Carries L b m → Held L m (next p).1)
        → Keeps (Held L m) (command (R.zrem key b) >> next)
    Held-zrem-then key b next keeps moves = record { at = λ q h. go q (Held-zrem L m key b q h) }
      where
        go :
            (q : RedisQueue R.Store)
            → Held L m (command (R.zrem key b) q).1 ⊎ Carries L b m
            → Held L m ((command (R.zrem key b) >> next) q).1
        go q (inl h) = rw (H.zrem_done key b q.store) (keeps.at (command (R.zrem key b) q).1 h)
        go q (inr c) = rw (H.zrem_done key b q.store) (moves (command (R.zrem key b) q).1 c)

    Held-track : (now : ℕ) (g c : String) (o : Option Message) → Keeps (Held L m) (track now g c o)
    unfolding track
    Held-track now g c none = search keep_rules
    Held-track now g c (some msg) =
        search (keep_rules, Held-requeue_message L m, Held-add_to_pel L m)

    pub tracked-Held :
        (now : ℕ) (g c : String) (b : R.Bytes) (p : RedisQueue R.Store)
        → R.decode_message b ≡ some m
        → Held L m (add_to_pel now m g c p).1
    tracked-Held now g c b p d =
        let t = add_to_pel-Tracked L now m g c p (add_to_pel_ok L H now m g c p b d) in
        Held.pends (pel_key m.topic g) t.entry_json _ t.is_entry refl t.held

    -- A pass of a fetch leaves the message where it is, or moves it to the pending list.
    pub Held-fetch_round : (now : ℕ) (t g c : String) → Keeps (Held L m) (fetch_round now t g c)
    unfolding fetch_round track
    Held-fetch_round now t g c = record {
      at = λ q h. elim (Held-pop_message L m t q h) [
        | inl left ↦ rest (pop_message t q) left
        | inr (r, b, d) ↦
            let p : RedisQueue R.Store = (pop_message t q).1 in
            let added = add_to_pel_ok L H now m g c p b d in
            let after : (fetch_round now t g c q) ≡ (ok (taken m), (add_to_pel now m g c p).1) =
              ground (arith, r, added) in
            rw after (tracked-Held now g c b p d)
      ];
    }
      where
        rest :
            (r : Result (Option Message) × RedisQueue R.Store)
            → Held L m r.1
            → Held L m (after_either r (track now g c) (pure stop)).1
        rest (ok o, p) v = (Held-track now g c o).at p v
        rest (err e, p) v = v
        rest (panicked, p) v = v
