-- ===== src/RedisQueue/Expiry.antt =====
-- The visibility check (`checkExpiredMessages`) entry by entry: what each step keeps.
use mathlib.Core.List.{Memᴰ}
use gpu_telemetry_pipeline.Base.{
  ℕ, ◌<◌, String, ◌≡◌, refl, Bool, false, ◌&&◌, str_eq, Option, none, some, List, [], ◌∷◌, ◌⊎◌, inl,
  inr, str_eq_refl, leb, Bool-cases, Option-cases, arith,
}
use gpu_telemetry_pipeline.Message.{Message}
use gpu_telemetry_pipeline.Redis.{
  Redis, RedisLaws, IsHealthy, PendingEntry, is_done, member, without,
}
use gpu_telemetry_pipeline.RedisQueue.{
  RedisQueue, ok, ◌>>◌, bury, discard, command, requeue_message, expire, expire_decoded,
  expire_json, queue_key,
}
use gpu_telemetry_pipeline.RedisQueue.Keeps.{Keeps, drop_error-keeps, keep_rules}
use gpu_telemetry_pipeline.RedisQueue.Waiting.{waiting, waiting-requeue_message}
use gpu_telemetry_pipeline.RedisQueue.Pending.{zset-requeue_message}
use gpu_telemetry_pipeline.RedisQueue.Held.{prepended}

module _ ⦃R : Redis⦄ {P : RedisQueue R.Store → Type 0} (key : String) (c : R.Bytes)
    (x : PendingEntry) (kb : Keeps P (bury x)) (kz : Keeps P (command (R.zrem key c)))
    (kr : Keeps P (requeue_message x.message)) where
  Keeps-over : Keeps P (bury x >> discard (command (R.zrem key c)))
  Keeps-over = search keep_rules

  Keeps-below : Keeps P (discard (command (R.zrem key c)) >> discard (requeue_message x.message))
  Keeps-below = search keep_rules

  pub Keeps-expire : Keeps P (expire key c x)
  unfolding expire
  Keeps-expire = record {
    at = λ q h. elim (Bool-cases (leb q.max_retries x.delivery_count)) [
      | inl over ↦ rw over (Keeps-over.at q h)
      | inr below ↦ rw below (Keeps-below.at q h)
    ];
  }

Mem-without {ℓ} :
    {A : Type ℓ} (same : A → A → Bool) (score : ℕ) (b c : A) (es : List (ℕ × A))
    → same b c ≡ false
    → Memᴰ (score, b) es
    → Memᴰ (score, b) (without same c es)
Mem-without same score b c [] h i = elim i [ ]
Mem-without same score b c (e ∷ es) h (Memᴰ.head i) =
    let differs : same (member e) c ≡ false = rw (← i) h in rw differs (Memᴰ.head i)
Mem-without same score b c (e ∷ es) h (Memᴰ.tail i) = elim (Bool-cases (same (member e) c)) [
  | inl gone ↦ rw gone (Mem-without same score b c es h i)
  | inr stays ↦ rw stays (Memᴰ.tail (Mem-without same score b c es h i))
]

module _ ⦃R : Redis⦄ (L : RedisLaws R) (H : IsHealthy R) (e : PendingEntry) (b : R.Bytes)
    (decodes : R.decode_entry b ≡ some e) where
  -- The entry may be delivered again.
  abbrev pub IsAllowed : RedisQueue R.Store → Type 0
  IsAllowed q = e.delivery_count < q.max_retries

  -- The entry's message waits in its topic.
  abbrev pub Waits : RedisQueue R.Store → Type 0
  Waits q = Memᴰ (some e.message) (waiting L q e.message.topic)

  -- The entry stands in the pending list, with that score.
  abbrev pub Listed : String → ℕ → RedisQueue R.Store → Type 0
  Listed key score q = Memᴰ (score, b) (L.zset_at q.store key)

  max_retries-requeue_message :
      (msg : Message) (q : RedisQueue R.Store)
      → (requeue_message msg q).1.max_retries ≡ q.max_retries
  unfolding requeue_message
  max_retries-requeue_message msg q = elim (Option-cases (R.encode_message msg)) [
    | inl n ↦ rw n refl
    | inr (json, w) ↦ rw w refl
  ]

  IsAllowed-expire :
      (key : String) (c : R.Bytes) (x : PendingEntry) → Keeps IsAllowed (expire key c x)
  IsAllowed-expire key c x =
      Keeps-expire key c x (record { at = λ q h. h }) (record { at = λ q h. h })
        (record { at = λ q h. rw (max_retries-requeue_message x.message q) h })

  Waits-expire : (key : String) (c : R.Bytes) (x : PendingEntry) → Keeps Waits (expire key c x)
  Waits-expire key c x =
      Keeps-expire key c x (record { at = λ q h. h })
        (record { at = λ q h. rw (L.list-zrem key (queue_key e.message.topic) c q.store) h })
        (record {
          at = λ q.
              prepended _ _ _ _ (some x.message)
                (waiting-requeue_message L x.message q e.message.topic);
        })

  Listed-expire :
      (key : String) (score : ℕ) (k : String) (c : R.Bytes) (x : PendingEntry)
      → R.same b c ≡ false
      → Keeps (Listed key score) (expire k c x)
  Listed-expire key score k c x other =
      Keeps-expire k c x (record { at = λ q h. h })
        (record {
          at = λ q h. elim (Bool-cases (is_done (R.zrem k c q.store).0 && str_eq k key)) [
            | inl hit ↦
                rw (L.zset-zrem k key c q.store, hit)
                  (Mem-without R.same score b c (L.zset_at q.store key) other h)
            | inr miss ↦ rw (L.zset-zrem k key c q.store, miss) h
          ];
        })
        (record { at = λ q h. rw (zset-requeue_message L x.message key q) h })

  -- The message can be written, so it waits once it is put back.
  Waits-back : (q : RedisQueue R.Store) → Waits (requeue_message e.message q).1
  Waits-back q =
      let (json, w) = L.encode-decode_entry e b decodes in
      let back : (requeue_message e.message q).0 ≡ ok tt =
        unfold requeue_message in
        rw w (ground (arith, H.rpush_done (queue_key e.message.topic) json q.store)) in
      let there : waiting L (requeue_message e.message q).1 e.message.topic
          ≡ some e.message ∷ waiting L q e.message.topic =
        ground (
          arith,
          back,
          waiting-requeue_message L e.message q e.message.topic,
          str_eq_refl e.message.topic,
        ) in
      rw there (Memᴰ.head refl)

  -- The entry itself expires: its message waits.
  expire-Waits : (key : String) (q : RedisQueue R.Store) → IsAllowed q → Waits (expire key b e q).1
  unfolding expire
  expire-Waits key q a =
      let below : leb q.max_retries e.delivery_count ≡ false = ground (arith, a) in
      let p : RedisQueue R.Store = (command (R.zrem key b) q).1 in
      rw (below, H.zrem_done key b q.store)
        (drop_error-keeps Waits (requeue_message e.message p) (Waits-back p))

  -- The entry may be delivered again, and its message waits or its entry is listed.
  pub record IsDue (key : String) (score : ℕ) (q : RedisQueue R.Store) : Type 0 where
    pub is_allowed : IsAllowed q
    pub somewhere : Waits q ⊎ Listed key score q

  expire-Somewhere :
      (key : String) (score : ℕ) (k : String) (c : R.Bytes) (x : PendingEntry)
      (q : RedisQueue R.Store)
      → R.decode_entry c ≡ some x
      → IsAllowed q
      → Waits q ⊎ Listed key score q
      → Waits (expire k c x q).1 ⊎ Listed key score (expire k c x q).1
  expire-Somewhere key score k c x q d a (inl w) = inl ((Waits-expire k c x).at q w)
  expire-Somewhere key score k c x q d a (inr l) = elim (Bool-cases (R.same b c)) [
    | inr other ↦ inr ((Listed-expire key score k c x other).at q l)
    | inl same ↦
        let is_b : b ≡ c = (L.same_iff b c).0 same in
        let is_e : e ≡ x = cc (is_b, d, decodes) in inl (rw (← is_b, ← is_e) (expire-Waits k q a))
  ]

  pub IsDue-expire_json :
      (key : String) (score : ℕ) (k : String) (c : R.Bytes)
      → Keeps (IsDue key score) (expire_json k c)
  unfolding expire_json
  IsDue-expire_json key score k c = decoded (R.decode_entry c) refl
    where
      decoded :
          (o : Option PendingEntry)
          → R.decode_entry c ≡ o
          → Keeps (IsDue key score) (expire_decoded k c o)
      decoded none n = search keep_rules
      decoded (some x) d = record {
        at = λ q v. record {
          is_allowed = (IsAllowed-expire k c x).at q v.is_allowed;
          somewhere = expire-Somewhere key score k c x q d v.is_allowed v.somewhere;
        };
      }

  pub Waits-expire_json : (k : String) (c : R.Bytes) → Keeps Waits (expire_json k c)
  unfolding expire_json
  Waits-expire_json k c = decoded (R.decode_entry c)
    where
      decoded : (o : Option PendingEntry) → Keeps Waits (expire_decoded k c o)
      decoded none = search keep_rules
      decoded (some x) = Waits-expire k c x

  pub expire_json-Waits :
      (key : String) (score : ℕ) (q : RedisQueue R.Store)
      → IsDue key score q
      → Waits (expire_json key b q).1
  unfolding expire_json
  expire_json-Waits key score q v = rw decodes (expire-Waits key q v.is_allowed)
