-- ===== src/RedisQueue/Unlost.antt =====
-- No call of the queue service loses a message: as long as the server answers, only an
-- acknowledgement ends it.
use mathlib.Core.List.{Memᴰ}
use mathlib.Core.List.Memᴰ
use gpu_telemetry_pipeline.Base.{
  ℕ, suc, zero, String, ◌≡◌, ◌≢◌, refl, Option, none, some, List, [], ◌∷◌, ◌++◌, inl, inr, str_eq,
  str_eq_iff, str_eq_refl, leb, All, Bool-cases, Option-cases, arith,
}
use gpu_telemetry_pipeline.Domain.{unix}
use gpu_telemetry_pipeline.Message.{Message}
use gpu_telemetry_pipeline.Redis.{Redis, RedisLaws, IsHealthy, PendingEntry}
use gpu_telemetry_pipeline.RedisQueue.{
  RedisQueue, ok, stop, skipped, taken, pure, ◌>>◌, bury, discard, command, message_not_found,
  publish, requeue_message, fetch_loop, fetch_batch, find_entry, ack, nack, expire, expire_decoded,
  expire_json, expire_all, check_key, check_keys, check_expired_messages, pel_key,
}
use gpu_telemetry_pipeline.RedisQueue.Keeps.{
  Keeps, drop_error-keeps, Keeps-pure, Keeps-bind, Keeps-discard, Keeps-from_option-bind,
  keep_rules,
}
use gpu_telemetry_pipeline.RedisQueue.Calls.{
  Call, publishes, fetches, acks, nacks, checks, step, run,
}
use gpu_telemetry_pipeline.RedisQueue.Waiting.{waiting, waiting-publish}
use gpu_telemetry_pipeline.RedisQueue.Held.{
  Held, Held-Extends, Held-same, Held-publish, Held-requeue_message,
}
use gpu_telemetry_pipeline.RedisQueue.Moves.{
  Carries, Held-zrem, Held-zrem-then, requeue_message-Held, Held-fetch_round,
}

-- The call acknowledges no message of that id.
abbrev pub Spares : String → Call → Type 0
Spares id (acks topic group message_id) = message_id ≢ id
Spares id (publishes msg) = Unit
Spares id (fetches clock topic group consumer count) = Unit
Spares id (nacks topic group message_id) = Unit
Spares id (checks now) = Unit

module _ ⦃R : Redis⦄ where
  find_entry_id :
      (message_id : String) (bs : List R.Bytes) (b : R.Bytes)
      → find_entry message_id bs ≡ some b
      → (e : PendingEntry) × (R.decode_entry b ≡ some e) × (e.message.id ≡ message_id)
  unfolding find_entry
  find_entry_id message_id [] b h = absurd (cc)
  find_entry_id message_id (c ∷ cs) b h = elim (Option-cases (R.decode_entry c)) [
    | inl e ↦ find_entry_id message_id cs b (ground arith)
    | inr (x, e) ↦ elim (Bool-cases (str_eq x.message.id message_id)) [
      | inl hit ↦ (x, ground arith, (str_eq_iff x.message.id message_id).0 hit)
      | inr miss ↦ find_entry_id message_id cs b (ground arith)
    ]
  ]

module _ ⦃R : Redis⦄ (L : RedisLaws R) (H : IsHealthy R) (m : Message) where
  -- What is carried can be put back.
  carried-requeue :
      (b : R.Bytes) (e : PendingEntry) (p : RedisQueue R.Store)
      → R.decode_entry b ≡ some e
      → Carries L b m
      → Held L m (requeue_message e.message p).1
  carried-requeue b e p d c =
      let same : c.entry ≡ e = cc (c.is_entry, d) in
      let (json, w) = L.encode-decode_entry c.entry b c.is_entry in
      let is_m : e.message ≡ m = cc (same, c.is_of) in
      rw is_m (requeue_message-Held L H m json p (rw (← c.is_of) w))

  Held-zrange : (key : String) → Keeps (Held L m) (command (R.zrange key))
  Held-zrange key = Held-same L m (R.zrange key) (L.list-zrange key) (L.zset-zrange key)

  pub Held-ack : (topic group id : String) → id ≢ m.id → Keeps (Held L m) (ack topic group id)
  unfolding ack
  Held-ack topic group id other = Keeps-bind _ _ (Held-zrange (pel_key topic group)) (λ entries.
      Keeps-from_option-bind message_not_found (find_entry id entries) _ (λ b found.
        let (e, d, i) = find_entry_id id entries b found in
        Held-zrem-then L H m (pel_key topic group) b (pure tt) (Keeps-pure tt)
          (λ p c. absurd (other (cc (i, d, c.is_entry, c.is_of))))))

  pub Held-nack : (topic group id : String) → Keeps (Held L m) (nack topic group id)
  unfolding nack
  Held-nack topic group id = Keeps-bind _ _ (Held-zrange (pel_key topic group)) (λ entries.
      Keeps-from_option-bind message_not_found (find_entry id entries) _ (λ b found.
        let (e, d, i) = find_entry_id id entries b found in
        Held-zrem-then L H m (pel_key topic group) b _
          (search (keep_rules, Held-requeue_message L m))
          (λ p c. rw d (carried-requeue b e p d c))))

  Held-bury : (e : PendingEntry) → Keeps (Held L m) (bury e)
  Held-bury e = record {
    at = λ q. Held-Extends L (record {
      topics = λ topic x h. h;
      lists = λ key b n. n;
      dead = λ x h. Memᴰ.append_left (e ∷ []) h;
    });
  }

  -- The entry's message is dead, and its entry goes.
  Held-given_up :
      (key : String) (b : R.Bytes) (e : PendingEntry)
      → R.decode_entry b ≡ some e
      → Keeps (Held L m) (bury e >> discard (command (R.zrem key b)))
  Held-given_up key b e d = record {
    at = λ q h. elim (Held-zrem L m key b (bury e q).1 ((Held-bury e).at q h)) [
      | inl left ↦ rw (H.zrem_done key b q.store) left
      | inr c ↦
          let is_m : e.message ≡ m = cc (d, c.is_entry, c.is_of) in
          rw (H.zrem_done key b q.store)
            (Held.died e is_m (Memᴰ.append_right q.dead_letter_queue (Memᴰ.head refl)))
    ];
  }

  -- The entry goes, and its message waits again.
  Held-put_back :
      (key : String) (b : R.Bytes) (e : PendingEntry)
      → R.decode_entry b ≡ some e
      → Keeps (Held L m) (discard (command (R.zrem key b)) >> discard (requeue_message e.message))
  Held-put_back key b e d = record {
    at = λ q h.
        let removed : (command (R.zrem key b) q).0 ≡ ok tt = rw (H.zrem_done key b q.store) refl in
        let p : RedisQueue R.Store = (command (R.zrem key b) q).1 in
        let keeps =
          Keeps-discard (requeue_message e.message) (Held-requeue_message L m e.message) in
        rw (H.zrem_done key b q.store) (elim (Held-zrem L m key b q h) [
          | inl left ↦ keeps.at p left
          | inr c ↦
              drop_error-keeps (Held L m) (requeue_message e.message p) (carried-requeue b e p d c)
        ]);
  }

  Held-expire :
      (key : String) (b : R.Bytes) (e : PendingEntry)
      → R.decode_entry b ≡ some e
      → Keeps (Held L m) (expire key b e)
  unfolding expire
  Held-expire key b e d = record {
    at = λ q h. elim (Bool-cases (leb q.max_retries e.delivery_count)) [
      | inl over ↦ rw over ((Held-given_up key b e d).at q h)
      | inr below ↦ rw below ((Held-put_back key b e d).at q h)
    ];
  }

  Held-expire_json : (key : String) (b : R.Bytes) → Keeps (Held L m) (expire_json key b)
  unfolding expire_json
  Held-expire_json key b = decoded (R.decode_entry b) refl
    where
      decoded :
          (o : Option PendingEntry)
          → R.decode_entry b ≡ o
          → Keeps (Held L m) (expire_decoded key b o)
      decoded none e = search keep_rules
      decoded (some x) e = Held-expire key b x e

  Held-expire_all : (key : String) (bs : List R.Bytes) → Keeps (Held L m) (expire_all key bs)
  unfolding expire_all
  Held-expire_all key [] = search keep_rules
  Held-expire_all key (b ∷ bs) =
      Keeps-bind _ _ (Held-expire_json key b) (λ _. Held-expire_all key bs)

  Held-check_key : (now : ℕ) (key : String) → Keeps (Held L m) (check_key now key)
  unfolding check_key
  Held-check_key now key = Keeps-discard _ (
      Keeps-bind _ _
        (Held-same L m (R.zrange_by_score key (unix now))
          (λ k s. L.list-zrange_by_score key k (unix now) s)
          (λ k s. L.zset-zrange_by_score key k (unix now) s))
        (Held-expire_all key))

  Held-check_keys : (now : ℕ) (keys : List String) → Keeps (Held L m) (check_keys now keys)
  unfolding check_keys
  Held-check_keys now [] = search keep_rules
  Held-check_keys now (k ∷ ks) = Keeps-bind _ _ (Held-check_key now k) (λ _. Held-check_keys now ks)

  pub Held-check_expired_messages : (now : ℕ) → Keeps (Held L m) (check_expired_messages now)
  unfolding check_expired_messages
  Held-check_expired_messages now = Keeps-discard _ (
      Keeps-bind _ _ (Held-same L m (R.keys "pel:*") (L.list-keys "pel:*") (L.zset-keys "pel:*"))
        (Held-check_keys now))

  pub Held-fetch_loop :
      (clock : ℕ → ℕ) (t g c : String) (n i : ℕ) (acc : List Message)
      → Keeps (Held L m) (fetch_loop clock t g c n i acc)
  unfolding fetch_loop
  Held-fetch_loop clock t g c zero i acc = search keep_rules
  Held-fetch_loop clock t g c (suc n) i acc =
      Keeps-bind _ _ (Held-fetch_round L H m (clock i) t g c) (elim [
        | stop ↦ search keep_rules
        | skipped ↦ Held-fetch_loop clock t g c n _ acc
        | taken msg ↦ Held-fetch_loop clock t g c n _ _
      ])

  step-Held : (q : RedisQueue R.Store) (c : Call) → Spares m.id c → Held L m q → Held L m (step q c)
  unfolding step fetch_batch
  step-Held q (publishes msg) s h = (Held-publish L m msg).at q h
  step-Held q (fetches clock topic group consumer count) s h =
      (Held-fetch_loop clock topic group consumer count 0 []).at q h
  step-Held q (acks topic group id) s h = (Held-ack topic group id s).at q h
  step-Held q (nacks topic group id) s h = (Held-nack topic group id).at q h
  step-Held q (checks now) s h = (Held-check_expired_messages now).at q h

  run-Held :
      (q : RedisQueue R.Store) (cs : List Call)
      → All (Spares m.id) cs
      → Held L m q
      → Held L m (run q cs)
  unfolding run
  run-Held q [] s h = h
  run-Held q (c ∷ cs) s h = run-Held (step q c) cs s.1 (step-Held q c s.0 h)

  -- No message is lost before it is acknowledged, with a server that answers: once a message is
  -- published, then after any calls, none of which acknowledges a message of its id, it waits in a
  -- topic, has an entry in a pending list, or is dead.
  pub publish-run :
      (q : RedisQueue R.Store) (cs : List Call)
      → (publish m q).0 ≡ ok tt
      → All (Spares m.id) cs
      → Held L m (run (publish m q).1 cs)
  publish-run q cs e s =
      let there : waiting L (publish m q).1 m.topic ≡ waiting L q m.topic ++ some m ∷ [] =
        ground (arith, e, waiting-publish L m q m.topic, str_eq_refl m.topic) in
      let last = Memᴰ.append_right (waiting L q m.topic) (Memᴰ.head {xs = []} refl) in
      run-Held (publish m q).1 cs s (Held.waits m.topic (rw there last))
