-- ===== src/RedisQueue/Retries.antt =====
-- The dead letter queue: an entry gets there by its delivery count, which no method ever raises
-- in the store.
use gpu_telemetry_pipeline.Base.{
  ℕ, suc, zero, false, ◌<◌, String, ◌≡◌, refl, Option, none, some, List, [], ◌∷◌, map, arith, inl,
  inr, Bool-cases, select, leb, All,
}
use gpu_telemetry_pipeline.Domain.{unix}
use gpu_telemetry_pipeline.Message.{Message}
use gpu_telemetry_pipeline.Redis.{Redis, RedisLaws, PendingEntry, member}
use gpu_telemetry_pipeline.RedisQueue.{
  RedisQueue, stop, skipped, taken, err, redis_failed, ◌>>=◌, ◌>>◌, command, discard, publish,
  read_popped, pop_message, requeue_message, track, fetch_round, fetch_loop, fetch_batch, ack, nack,
  expire, expire_decoded, expire_json, expire_all, check_key, check_keys, check_expired_messages,
}
use gpu_telemetry_pipeline.RedisQueue.Actions.{Reply-cases}
use gpu_telemetry_pipeline.RedisQueue.Calls.{
  Call, publishes, fetches, acks, nacks, checks, step, run,
}
use gpu_telemetry_pipeline.RedisQueue.Pending.{copies, same_self}
use gpu_telemetry_pipeline.RedisQueue.Keeps.{Keeps, Keeps-bind, Keeps-discard}
use gpu_telemetry_pipeline.RedisQueue.Fresh.{Once, IsFresh, Keeps-zrange_by_score, fresh_rules}

module _ ⦃R : Redis⦄ (L : RedisLaws R) where
  Keeps-publish : (msg : Message) → Keeps (IsFresh L) (publish msg)
  unfolding publish
  Keeps-publish msg = search fresh_rules

  Keeps-requeue_message : (msg : Message) → Keeps (IsFresh L) (requeue_message msg)
  unfolding requeue_message
  Keeps-requeue_message msg = search fresh_rules

  Keeps-ack : (topic group id : String) → Keeps (IsFresh L) (ack topic group id)
  unfolding ack
  Keeps-ack topic group id = search fresh_rules

  Keeps-nack : (topic group id : String) → Keeps (IsFresh L) (nack topic group id)
  unfolding nack
  Keeps-nack topic group id = search (fresh_rules, Keeps-requeue_message)

  Keeps-read_popped : (answer : Option (List R.Bytes)) → Keeps (IsFresh L) (read_popped answer)
  Keeps-read_popped none = search fresh_rules
  Keeps-read_popped (some []) = search fresh_rules
  Keeps-read_popped (some (name ∷ [])) = search fresh_rules
  Keeps-read_popped (some (name ∷ value ∷ more)) = search fresh_rules

  Keeps-pop_message : (topic : String) → Keeps (IsFresh L) (pop_message topic)
  unfolding pop_message
  Keeps-pop_message topic = search (fresh_rules, Keeps-read_popped)

  Keeps-track :
      (now : ℕ) (group consumer : String) (o : Option Message)
      → Keeps (IsFresh L) (track now group consumer o)
  unfolding track
  Keeps-track now group consumer none = search fresh_rules
  Keeps-track now group consumer (some msg) = search (fresh_rules, Keeps-requeue_message)

  Keeps-fetch_round :
      (now : ℕ) (topic group consumer : String)
      → Keeps (IsFresh L) (fetch_round now topic group consumer)
  unfolding fetch_round
  Keeps-fetch_round now topic group consumer = search (fresh_rules, Keeps-pop_message, Keeps-track)

  Keeps-fetch_loop :
      (clock : ℕ → ℕ) (topic group consumer : String) (n i : ℕ) (acc : List Message)
      → Keeps (IsFresh L) (fetch_loop clock topic group consumer n i acc)
  unfolding fetch_loop
  Keeps-fetch_loop clock topic group consumer zero i acc = search fresh_rules
  Keeps-fetch_loop clock topic group consumer (suc n) i acc =
      Keeps-bind _ _ (Keeps-fetch_round (clock i) topic group consumer) (elim [
        | stop ↦ search fresh_rules
        | skipped ↦ Keeps-fetch_loop clock topic group consumer n _ acc
        | taken m ↦ Keeps-fetch_loop clock topic group consumer n _ _
      ])

  Keeps-requeue_expired :
      (key : String) (b : R.Bytes) (msg : Message)
      → Keeps (IsFresh L) (discard (command (R.zrem key b)) >> discard (requeue_message msg))
  Keeps-requeue_expired key b msg = search (fresh_rules, Keeps-requeue_message)

  -- An entry that counts one delivery goes back to its topic.
  Keeps-expire :
      (key : String) (b : R.Bytes) (e : PendingEntry)
      → e.delivery_count ≡ 1
      → Keeps (IsFresh L) (expire key b e)
  unfolding expire
  Keeps-expire key b e once = record {
    at = λ q v.
        let below : leb q.max_retries e.delivery_count ≡ false = ground (arith, v.retries) in
        rw below ((Keeps-requeue_expired key b e.message).at q v);
  }

  Keeps-expire_json : (key : String) (b : R.Bytes) → Once b → Keeps (IsFresh L) (expire_json key b)
  unfolding expire_json
  Keeps-expire_json key b once = decoded (R.decode_entry b) refl
    where
      decoded :
          (o : Option PendingEntry)
          → R.decode_entry b ≡ o
          → Keeps (IsFresh L) (expire_decoded key b o)
      decoded none e = search fresh_rules
      decoded (some x) e = Keeps-expire key b x (once x e)

  Keeps-expire_all :
      (key : String) (bs : List R.Bytes) → All Once bs → Keeps (IsFresh L) (expire_all key bs)
  unfolding expire_all
  Keeps-expire_all key [] h = search fresh_rules
  Keeps-expire_all key (b ∷ bs) h =
      Keeps-bind _ _ (Keeps-expire_json key b h.0) (λ _. Keeps-expire_all key bs h.1)

  -- The members of a pending list, or of a part of it, were put there by `addToPEL`.
  select-Once :
      (bound : ℕ) (es : List (ℕ × R.Bytes))
      → ((b : R.Bytes) → 0 < copies L b es → Once b)
      → All Once (map member (select (λ e. leb e.0 bound) es))
  select-Once bound [] h = tt
  select-Once bound ((score, b) ∷ es) h = elim (Bool-cases (leb score bound)) [
    | inl e ↦ rw e (
      h b (ground (arith, same_self L b)),
      select-Once bound es λ (c : R.Bytes) n. h c (omega (arith, n)),
    )
    | inr e ↦ rw e (select-Once bound es λ (c : R.Bytes) n. h c (omega (arith, n)))
  ]

  Keeps-check_key : (now : ℕ) (key : String) → Keeps (IsFresh L) (check_key now key)
  unfolding check_key
  Keeps-check_key now key = Keeps-discard _ (record {
    at = λ q v.
        let c = R.zrange_by_score key (unix now) in
        let fresh = (Keeps-zrange_by_score L key (unix now)).at q v in
        elim (Reply-cases (c q.store).0) [
          | inl e ↦
              let stays : (command c >>= expire_all key) q ≡ (err redis_failed, (command c q).1) =
                ground (arith, e) in
              rw stays fresh
          | inr (bs, e) ↦
              let goes : (command c >>= expire_all key) q ≡ expire_all key bs (command c q).1 =
                ground (arith, e) in
              let once = select-Once (unix now) (L.zset_at q.store key) (v.once key) in
              let read : bs ≡ _ = L.reply-zrange_by_score key (unix now) q.store bs e in
              rw goes ((Keeps-expire_all key bs (rw read once)).at (command c q).1 fresh)
        ];
  })

  Keeps-check_keys : (now : ℕ) (keys : List String) → Keeps (IsFresh L) (check_keys now keys)
  unfolding check_keys
  Keeps-check_keys now [] = search fresh_rules
  Keeps-check_keys now (k ∷ ks) =
      Keeps-bind _ _ (Keeps-check_key now k) (λ _. Keeps-check_keys now ks)

  Keeps-check_expired_messages : (now : ℕ) → Keeps (IsFresh L) (check_expired_messages now)
  unfolding check_expired_messages
  Keeps-check_expired_messages now = search (fresh_rules, Keeps-check_keys)

  step-IsFresh : (q : RedisQueue R.Store) (c : Call) → IsFresh L q → IsFresh L (step q c)
  unfolding step fetch_batch
  step-IsFresh q (publishes msg) v = (Keeps-publish msg).at q v
  step-IsFresh q (fetches clock topic group consumer count) v =
      (Keeps-fetch_loop clock topic group consumer count 0 []).at q v
  step-IsFresh q (acks topic group id) v = (Keeps-ack topic group id).at q v
  step-IsFresh q (nacks topic group id) v = (Keeps-nack topic group id).at q v
  step-IsFresh q (checks now) v = (Keeps-check_expired_messages now).at q v

  run-IsFresh : (q : RedisQueue R.Store) (cs : List Call) → IsFresh L q → IsFresh L (run q cs)
  unfolding run
  run-IsFresh q [] v = v
  run-IsFresh q (c ∷ cs) v = run-IsFresh (step q c) cs (step-IsFresh q c v)

  -- Whatever calls are made and whichever Redis commands fail, if more than one delivery is allowed,
  -- no message is dead at first and every pending entry counts one delivery, then none is moved to the dead
  -- letter queue, however often its visibility timeout runs out.
  pub dead_letter_queue-run :
      (q : RedisQueue R.Store) (cs : List Call) → IsFresh L q → (run q cs).dead_letter_queue ≡ []
  dead_letter_queue-run q cs v = (run-IsFresh q cs v).none_dead
