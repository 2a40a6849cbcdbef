-- ===== src/RedisQueue/Redelivery.antt =====
-- What nobody acknowledged is delivered again: the visibility check puts the message of an entry whose
-- time has come back into its topic.
use mathlib.Core.List.{Memᴰ}
use gpu_telemetry_pipeline.Base.{
  ℕ, ◌≤◌, ◌<◌, String, ◌≡◌, refl, true, Option, none, some, List, [], ◌∷◌, inl, inr, map, leb,
  select, Bool-cases, Option-cases, arith,
}
use gpu_telemetry_pipeline.Domain.{unix}
use gpu_telemetry_pipeline.Redis.{Redis, RedisLaws, IsHealthy, PendingEntry, done, member}
use gpu_telemetry_pipeline.RedisQueue.{
  RedisQueue, Result, ok, after, discard, command, requeue_message, expire, expire_decoded,
  expire_json, expire_all, check_key, check_keys, check_expired_messages, queue_key,
}
use gpu_telemetry_pipeline.RedisQueue.Keeps.{
  Keeps, drop_error-keeps, after-keeps, Keeps-bind, Keeps-discard, keep_rules,
}
use gpu_telemetry_pipeline.RedisQueue.Waiting.{waiting}
use gpu_telemetry_pipeline.RedisQueue.Expiry.{
  Waits, IsDue, IsDue-expire_json, Waits-expire_json, expire_json-Waits,
}

-- A member whose score is within the bound is among those read.
mem-select {ℓ} :
    {A : Type ℓ} (bound score : ℕ) (b : A) (es : List (ℕ × A))
    → score ≤ bound
    → Memᴰ (score, b) es
    → Memᴰ b (map member (select (λ e. leb e.0 bound) es))
mem-select bound score b [] h i = elim i [ ]
mem-select bound score b ((s, c) ∷ es) h (Memᴰ.head i) =
    let same : b ≡ c = cc (i) in
    let in_time : leb s bound ≡ true = ground (arith, h, i) in rw in_time (Memᴰ.head same)
mem-select bound score b ((s, c) ∷ es) h (Memᴰ.tail i) = elim (Bool-cases (leb s bound)) [
  | inl e ↦ rw e (Memᴰ.tail (mem-select bound score b es h i))
  | inr e ↦ rw e (mem-select bound score b es h i)
]

module _ ⦃R : Redis⦄ (H : IsHealthy R) where
  requeue_dropped :
      (x : PendingEntry) (q : RedisQueue R.Store)
      → (discard (requeue_message x.message) q).0 ≡ ok tt
  unfolding requeue_message
  requeue_dropped x q = elim (Option-cases (R.encode_message x.message)) [
    | inl e ↦ rw e refl
    | inr (json, e) ↦ rw (e, H.rpush_done (queue_key x.message.topic) json q.store) refl
  ]

  expire_json_ok :
      (key : String) (c : R.Bytes) (q : RedisQueue R.Store) → (expire_json key c q).0 ≡ ok tt
  unfolding expire_json expire_decoded expire
  expire_json_ok key c q = decoded (R.decode_entry c)
    where
      decoded : (o : Option PendingEntry) → (expire_decoded key c o q).0 ≡ ok tt
      decoded none = refl
      decoded (some x) = elim (Bool-cases (leb q.max_retries x.delivery_count)) [
        | inl over ↦ rw (over, H.zrem_done key c q.store) refl
        | inr below ↦ rw (below, H.zrem_done key c q.store) (requeue_dropped x _)
      ]

  after_ok :
      {A B : Type 0} (r : Result A × RedisQueue R.Store)
      (f : A → RedisQueue R.Store → Result B × RedisQueue R.Store) {a : A}
      → r.0 ≡ ok a
      → after r f ≡ f a r.1
  after_ok (o, p) f h = rw h refl

  expire_all_ok :
      (key : String) (bs : List R.Bytes) (q : RedisQueue R.Store) → (expire_all key bs q).0 ≡ ok tt
  unfolding expire_all
  expire_all_ok key [] q = refl
  expire_all_ok key (c ∷ cs) q =
      rw (after_ok (expire_json key c q) (λ u. expire_all key cs) (expire_json_ok key c q))
        (expire_all_ok key cs (expire_json key c q).1)

  check_key_ok : (now : ℕ) (key : String) (q : RedisQueue R.Store) → (check_key now key q).0 ≡ ok tt
  unfolding check_key
  check_key_ok now key q =
      let (bs, read) = H.zrange_by_score_done key (unix now) q.store in
      rw (read, expire_all_ok key bs (command (R.zrange_by_score key (unix now)) q).1) refl

module _ ⦃R : Redis⦄ (L : RedisLaws R) (H : IsHealthy R) (e : PendingEntry) (b : R.Bytes)
    (decodes : R.decode_entry b ≡ some e) (key : String) (score : ℕ) where
  abbrev Due : RedisQueue R.Store → Type 0
  Due = IsDue L H e b decodes key score

  abbrev IsWaiting : RedisQueue R.Store → Type 0
  IsWaiting = Waits L H e b decodes

  IsWaiting-expire_all : (k : String) (bs : List R.Bytes) → Keeps IsWaiting (expire_all k bs)
  unfolding expire_all
  IsWaiting-expire_all k [] = search keep_rules
  IsWaiting-expire_all k (c ∷ cs) =
      Keeps-bind _ _ (Waits-expire_json L H e b decodes k c) (λ u. IsWaiting-expire_all k cs)

  Due-expire_all : (k : String) (bs : List R.Bytes) → Keeps Due (expire_all k bs)
  unfolding expire_all
  Due-expire_all k [] = search keep_rules
  Due-expire_all k (c ∷ cs) =
      Keeps-bind _ _ (IsDue-expire_json L H e b decodes key score k c) (λ u. Due-expire_all k cs)

  -- The pass over the texts read reaches the entry.
  expire_all-IsWaiting :
      (bs : List R.Bytes) (q : RedisQueue R.Store)
      → Memᴰ b bs
      → Due q
      → IsWaiting (expire_all key bs q).1
  unfolding expire_all
  expire_all-IsWaiting [] q i v = elim i [ ]
  expire_all-IsWaiting (c ∷ cs) q (Memᴰ.head i) v =
      after-keeps IsWaiting (expire_json key c q) (λ u. expire_all key cs)
        (rw (← i) (expire_json-Waits L H e b decodes key score q v))
        (λ u. IsWaiting-expire_all key cs)
  expire_all-IsWaiting (c ∷ cs) q (Memᴰ.tail i) v =
      rw (after_ok H (expire_json key c q) (λ u. expire_all key cs) (expire_json_ok H key c q)) (
        expire_all-IsWaiting cs (expire_json key c q).1 i
          ((IsDue-expire_json L H e b decodes key score key c).at q v))

  IsWaiting-zrange_by_score :
      (k : String) (bound : ℕ) → Keeps IsWaiting (command (R.zrange_by_score k bound))
  IsWaiting-zrange_by_score k bound = record {
    at = λ q h. rw (L.list-zrange_by_score k (queue_key e.message.topic) bound q.store) h;
  }

  IsWaiting-check_key : (now : ℕ) (k : String) → Keeps IsWaiting (check_key now k)
  unfolding check_key
  IsWaiting-check_key now k =
      Keeps-discard _
        (Keeps-bind _ _ (IsWaiting-zrange_by_score k (unix now)) (IsWaiting-expire_all k))

  Due-zrange_by_score : (k : String) (bound : ℕ) → Keeps Due (command (R.zrange_by_score k bound))
  Due-zrange_by_score k bound = record {
    at = λ q v. record {
      is_allowed = v.is_allowed;
      somewhere =
          rw
            (
              L.list-zrange_by_score k (queue_key e.message.topic) bound q.store,
              L.zset-zrange_by_score k key bound q.store,
            )
            v.somewhere;
    };
  }

  Due-check_key : (now : ℕ) (k : String) → Keeps Due (check_key now k)
  unfolding check_key
  Due-check_key now k =
      Keeps-discard _ (Keeps-bind _ _ (Due-zrange_by_score k (unix now)) (Due-expire_all k))

  -- The entry's own list has its turn.
  check_key-IsWaiting :
      (now : ℕ) (q : RedisQueue R.Store)
      → score ≤ unix now
      → Due q
      → IsWaiting (check_key now key q).1
  check_key-IsWaiting now q in_time v = elim (v.somewhere) [
    | inl w ↦ (IsWaiting-check_key now key).at q w
    | inr l ↦
        let (bs, read) = H.zrange_by_score_done key (unix now) q.store in
        let p : RedisQueue R.Store = (command (R.zrange_by_score key (unix now)) q).1 in
        let all : bs ≡ _ = L.reply-zrange_by_score key (unix now) q.store bs read in
        let there : Memᴰ b bs =
          rw all (mem-select (unix now) score b (L.zset_at q.store key) in_time l) in
        unfold check_key in
        rw read (
          drop_error-keeps IsWaiting (expire_all key bs p)
            (expire_all-IsWaiting bs p there ((Due-zrange_by_score key (unix now)).at q v)))
  ]

  IsWaiting-check_keys : (now : ℕ) (ks : List String) → Keeps IsWaiting (check_keys now ks)
  unfolding check_keys
  IsWaiting-check_keys now [] = search keep_rules
  IsWaiting-check_keys now (k ∷ ks) =
      Keeps-bind _ _ (IsWaiting-check_key now k) (λ u. IsWaiting-check_keys now ks)

  check_keys-IsWaiting :
      (now : ℕ) (ks : List String) (q : RedisQueue R.Store)
      → score ≤ unix now
      → Memᴰ key ks
      → Due q
      → IsWaiting (check_keys now ks q).1
  unfolding check_keys
  check_keys-IsWaiting now [] q in_time i v = elim i [ ]
  check_keys-IsWaiting now (k ∷ ks) q in_time (Memᴰ.head i) v =
      after-keeps IsWaiting (check_key now k q) (λ u. check_keys now ks)
        (rw (← i) (check_key-IsWaiting now q in_time v)) (λ u. IsWaiting-check_keys now ks)
  check_keys-IsWaiting now (k ∷ ks) q in_time (Memᴰ.tail i) v =
      rw (after_ok H (check_key now k q) (λ u. check_keys now ks) (check_key_ok H now k q))
        (check_keys-IsWaiting now ks (check_key now k q).1 in_time i ((Due-check_key now k).at q v))

  -- With a server that answers: if a pending list that KEYS names holds an entry, with a score that is
  -- not after the time of the check, and the entry counts fewer deliveries than are allowed, then after
  -- the visibility check the entry's message waits in its topic.
  pub check_expired_messages-waits :
      (now : ℕ) (q : RedisQueue R.Store) (ks : List String)
      → (R.keys "pel:*" q.store).0 ≡ done ks
      → Memᴰ key ks
      → Memᴰ (score, b) (L.zset_at q.store key)
      → score ≤ unix now
      → e.delivery_count < q.max_retries
      → let p = (check_expired_messages now q).1 in
        Memᴰ (some e.message) (waiting L p e.message.topic)
  unfolding check_expired_messages
  check_expired_messages-waits now q ks named i l in_time allowed =
      let p : RedisQueue R.Store = (command (R.keys "pel:*") q).1 in
      let v : Due p = record {
        is_allowed = allowed;
        somewhere = inr (rw (L.zset-keys "pel:*" key q.store) l);
      } in
      rw named (
        drop_error-keeps IsWaiting (check_keys now ks p)
          (check_keys-IsWaiting now ks p in_time i v))
