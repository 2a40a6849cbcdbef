-- ===== src/RedisQueue/Pending.antt =====
-- What the pending lists hold: who puts entries there, and which entries stay.
use gpu_telemetry_pipeline.Base.{
  ℕ, ◌+◌, ◌<◌, String, ◌≡◌, ◌≢◌, refl, ap, true, ◌&&◌, some, List, [], ◌∷◌, ◌++◌, map, arith,
  str_eq, str_eq_iff, Bool-cases, Option-cases, inl, inr, count, count-append,
}
use gpu_telemetry_pipeline.Domain.{unix}
use gpu_telemetry_pipeline.Message.{Message}
use gpu_telemetry_pipeline.Redis.{
  Redis, RedisLaws, IsHealthy, PendingEntry, done, is_done, member, without,
}
use gpu_telemetry_pipeline.RedisQueue.{
  RedisQueue, ok, pop_message, requeue_message, add_to_pel, pending_entry, queue_key, pel_key,
}
use gpu_telemetry_pipeline.RedisQueue.Waiting.{waiting}

module _ ⦃R : Redis⦄ (L : RedisLaws R) where
  -- How often a stored text is a member of a sorted set.
  abbrev pub copies : R.Bytes → List (ℕ × R.Bytes) → ℕ
  copies b = count (λ e. R.same (member e) b)

  pub same_self : (b : R.Bytes) → R.same b b ≡ true
  same_self b = (L.same_iff b b).1 refl

  pub copies-without_self :
      (b : R.Bytes) (es : List (ℕ × R.Bytes)) → copies b (without R.same b es) ≡ 0
  copies-without_self b [] = refl
  copies-without_self b (e ∷ es) = ground (arith, copies-without_self b es)

  pub copies-without_ne :
      (b c : R.Bytes) (es : List (ℕ × R.Bytes))
      → b ≢ c
      → copies b (without R.same c es) ≡ copies b es
  copies-without_ne b c [] h = refl
  copies-without_ne b c ((score, x) ∷ es) h =
      ground (arith, copies-without_ne b c es h, L.same_iff x b, L.same_iff x c)

  copies-append :
      (b : R.Bytes) (xs ys : List (ℕ × R.Bytes)) → copies b (xs ++ ys) ≡ copies b xs + copies b ys
  copies-append b xs ys = count-append (λ e. R.same (member e) b) xs ys

  -- ZADD leaves the new member there once, and every other member as often as it was.
  pub copies-zadd_self :
      (k : String) (score : ℕ) (b : R.Bytes) (s : R.Store)
      → (R.zadd k score b s).0 ≡ done tt
      → copies b (L.zset_at (R.zadd k score b s).1 k) ≡ 1
  copies-zadd_self k score b s h =
      let (low, high, was, now) = L.zset-zadd k score b s h in
      ground (
        arith,
        now,
        ap (copies b) was,
        copies-append b low high,
        same_self b,
        copies-append b low ((score, b) ∷ high),
        copies-without_self b (L.zset_at s k),
      )

  copies-zadd_same_key :
      (k : String) (score : ℕ) (b c : R.Bytes) (s : R.Store)
      → b ≢ c
      → (R.zadd k score c s).0 ≡ done tt
      → copies b (L.zset_at (R.zadd k score c s).1 k) ≡ copies b (L.zset_at s k)
  copies-zadd_same_key k score b c s h d =
      let (low, high, was, now) = L.zset-zadd k score c s d in
      ground (
        arith,
        now,
        ap (copies b) was,
        copies-append b low high,
        L.same_iff c b,
        copies-append b low ((score, c) ∷ high),
        copies-without_ne b c (L.zset_at s k) h,
      )

  pub copies-zadd_ne :
      (k j : String) (score : ℕ) (b c : R.Bytes) (s : R.Store)
      → b ≢ c
      → copies b (L.zset_at (R.zadd k score c s).1 j) ≡ copies b (L.zset_at s j)
  copies-zadd_ne k j score b c s h =
      elim (Bool-cases (is_done (R.zadd k score c s).0 && str_eq k j)) [
        | inl e ↦
            rw (← (str_eq_iff k j).0 (ground arith))
              (copies-zadd_same_key k score b c s h (ground arith))
        | inr e ↦ ap (copies b) (L.zset-zadd_other k j score c s e)
      ]

  -- What a zset holds survives ZADD, whichever member is added.
  pub copies-zadd_pos :
      (k j : String) (score : ℕ) (b c : R.Bytes) (s : R.Store)
      → 0 < copies b (L.zset_at s j)
      → 0 < copies b (L.zset_at (R.zadd k score c s).1 j)
  copies-zadd_pos k j score b c s h =
      elim (Bool-cases (is_done (R.zadd k score c s).0 && str_eq k j)) [
        | inr e ↦ rw (L.zset-zadd_other k j score c s e) h
        | inl e ↦ elim (Bool-cases (R.same b c)) [
          | inl same ↦
              rw ((L.same_iff b c).0 same, ← (str_eq_iff k j).0 (ground arith))
                (omega (arith, copies-zadd_self k score c s (ground arith)))
          | inr other ↦ omega (arith, copies-zadd_ne k j score b c s λ p. cc ((L.same_iff b c).1 p))
        ]
      ]

  -- The message has an entry in the pending list of its topic and of the group, first delivered
  -- to that consumer.
  pub record Tracked (q : RedisQueue R.Store) (msg : Message) (group consumer : String)
      : Type 0 where
    pub visible_at : ℕ
    pub entry_json : R.Bytes
    pub is_entry : R.decode_entry entry_json ≡ some (pending_entry visible_at msg group consumer)
    pub held : 0 < copies entry_json (L.zset_at q.store (pel_key msg.topic group))

  pub add_to_pel-Tracked :
      (now : ℕ) (msg : Message) (group consumer : String) (q : RedisQueue R.Store)
      → (add_to_pel now msg group consumer q).0 ≡ ok tt
      → Tracked (add_to_pel now msg group consumer q).1 msg group consumer
  unfolding add_to_pel
  add_to_pel-Tracked now msg group consumer q h = elim (Option-cases (R.encode_entry entry)) [
    | inl e ↦ absurd (ground arith)
    | inr (b, e) ↦ record {
      visible_at = now + q.visibility_timeout;
      entry_json = b;
      is_entry = L.decode-encode_entry entry b e;
      held = ground (
        arith,
        copies-zadd_self (pel_key msg.topic group) (unix (now + q.visibility_timeout)) b q.store,
      );
    }
  ]
    where
      entry : PendingEntry
      entry = pending_entry (now + q.visibility_timeout) msg group consumer

  pub Tracked-add_to_pel :
      (now : ℕ) (other msg : Message) (g c group consumer : String) (q : RedisQueue R.Store)
      → Tracked q msg group consumer
      → Tracked (add_to_pel now other g c q).1 msg group consumer
  unfolding add_to_pel
  Tracked-add_to_pel now other msg g c group consumer q t = record {
    visible_at = t.visible_at;
    entry_json = t.entry_json;
    is_entry = t.is_entry;
    held = elim (Option-cases (R.encode_entry entry)) [
      | inl e ↦ rw e t.held
      | inr (b, e) ↦ rw e (
          copies-zadd_pos (pel_key other.topic g) (pel_key msg.topic group) _ t.entry_json b q.store
            t.held)
    ];
  }
    where
      entry : PendingEntry
      entry = pending_entry (now + q.visibility_timeout) other g c

  -- A store whose sorted sets are the same tracks the same messages.
  pub Tracked-same_zsets :
      (q p : RedisQueue R.Store) (msg : Message) (group consumer : String)
      → ((k : String) → L.zset_at p.store k ≡ L.zset_at q.store k)
      → Tracked q msg group consumer
      → Tracked p msg group consumer
  Tracked-same_zsets q p msg group consumer h t = record {
    visible_at = t.visible_at;
    entry_json = t.entry_json;
    is_entry = t.is_entry;
    held = rw (h (pel_key msg.topic group)) t.held;
  }

  pub zset-pop_message :
      (topic k : String) (q : RedisQueue R.Store)
      → L.zset_at (pop_message topic q).1.store k ≡ L.zset_at q.store k
  unfolding pop_message
  zset-pop_message topic k q = ground (arith, L.zset-brpop (queue_key topic) k q.store)

  pub zset-requeue_message :
      (msg : Message) (k : String) (q : RedisQueue R.Store)
      → L.zset_at (requeue_message msg q).1.store k ≡ L.zset_at q.store k
  unfolding requeue_message
  zset-requeue_message msg k q = elim (Option-cases (R.encode_message msg)) [
    | inl e ↦ rw e refl
    | inr (b, e) ↦ rw e (L.zset-rpush (queue_key msg.topic) k b q.store)
  ]

  pub waiting-add_to_pel :
      (now : ℕ) (msg : Message) (group consumer topic : String) (q : RedisQueue R.Store)
      → waiting L (add_to_pel now msg group consumer q).1 topic ≡ waiting L q topic
  unfolding add_to_pel
  waiting-add_to_pel now msg group consumer topic q =
      elim (Option-cases
        (R.encode_entry (pending_entry (now + q.visibility_timeout) msg group consumer))) [
          | inl e ↦ rw e refl
          | inr (b, e) ↦ rw e (
              ap (map R.decode_message)
                (L.list-zadd (pel_key msg.topic group) (queue_key topic) _ b q.store))
        ]

  -- With a server that answers, a message that came from JSON can be tracked.
  pub add_to_pel_ok :
      (H : IsHealthy R) (now : ℕ) (msg : Message) (group consumer : String) (q : RedisQueue R.Store)
      (b : R.Bytes)
      → R.decode_message b ≡ some msg
      → (add_to_pel now msg group consumer q).0 ≡ ok tt
  unfolding add_to_pel
  add_to_pel_ok H now msg group consumer q b h =
      let (c, e) = L.encode-decode_message msg b h in
      let (json, f) =
        L.entry_encodes (pending_entry (now + q.visibility_timeout) msg group consumer) c e in
      rw f (
        ground (
          arith,
          H.zadd_done (pel_key msg.topic group) (unix (now + q.visibility_timeout)) json q.store,
        ))
