-- ===== src/RedisQueue/Fresh.antt =====
-- The dead letter queue: an entry gets there by its delivery count, which no method ever raises
-- in the store.
use gpu_telemetry_pipeline.Base.{
  ℕ, ◌+◌, ◌≤◌, ◌<◌, String, ◌≡◌, some, List, [], ◌∷◌, arith, inl, inr, Bool-cases, Option-cases,
}
use gpu_telemetry_pipeline.Domain.{unix}
use gpu_telemetry_pipeline.Message.{Message}
use gpu_telemetry_pipeline.Redis.{Redis, RedisLaws, PendingEntry, Reply, without}
use gpu_telemetry_pipeline.RedisQueue.{RedisQueue, command, add_to_pel, pending_entry, pel_key}
use gpu_telemetry_pipeline.RedisQueue.Keeps.{Keeps, keep_rules}
use gpu_telemetry_pipeline.RedisQueue.Pending.{copies, copies-zadd_ne}

module _ ⦃R : Redis⦄ where
  -- A stored entry that counts one delivery.
  abbrev pub Once : R.Bytes → Type 0
  Once b = (e : PendingEntry) → R.decode_entry b ≡ some e → e.delivery_count ≡ 1

module _ ⦃R : Redis⦄ (L : RedisLaws R) where
  -- More than one delivery is allowed, none has been given up, and every pending entry counts one.
  pub record IsFresh (q : RedisQueue R.Store) : Type 0 where
    pub retries : 1 < q.max_retries
    pub none_dead : q.dead_letter_queue ≡ []
    pub once : (k : String) (b : R.Bytes) → 0 < copies L b (L.zset_at q.store k) → Once b

  -- A command after which every member was there before.
  pub Keeps-command :
      {A : Type 0} (c : R.Store → Reply A × R.Store)
      → ((k : String) (b : R.Bytes) (s : R.Store)
          → copies L b (L.zset_at (c s).1 k) ≤ copies L b (L.zset_at s k))
      → Keeps IsFresh (command c)
  Keeps-command c h = record {
    at = λ q v. record {
      retries = v.retries;
      none_dead = v.none_dead;
      once = λ k b n. v.once k b (omega (arith, h k b q.store));
    };
  }

  copies-without-le :
      (b c : R.Bytes) (es : List (ℕ × R.Bytes)) → copies L b (without R.same c es) ≤ copies L b es
  copies-without-le b c [] = omega arith
  copies-without-le b c (e ∷ es) = ground (arith, copies-without-le b c es)

  pub Keeps-zrem : (key : String) (c : R.Bytes) → Keeps IsFresh (command (R.zrem key c))
  Keeps-zrem key c =
      Keeps-command (R.zrem key c)
        λ k b s. ground (arith, L.zset-zrem key k c s, copies-without-le b c (L.zset_at s k))

  pub Keeps-zrange : (key : String) → Keeps IsFresh (command (R.zrange key))
  Keeps-zrange key = Keeps-command (R.zrange key) λ k b s. rw (L.zset-zrange key k s) (omega arith)

  pub Keeps-lpush : (key : String) (c : R.Bytes) → Keeps IsFresh (command (R.lpush key c))
  Keeps-lpush key c =
      Keeps-command (R.lpush key c) λ k b s. rw (L.zset-lpush key k c s) (omega arith)

  pub Keeps-rpush : (key : String) (c : R.Bytes) → Keeps IsFresh (command (R.rpush key c))
  Keeps-rpush key c =
      Keeps-command (R.rpush key c) λ k b s. rw (L.zset-rpush key k c s) (omega arith)

  pub Keeps-brpop : (key : String) → Keeps IsFresh (command (R.brpop key))
  Keeps-brpop key = Keeps-command (R.brpop key) λ k b s. rw (L.zset-brpop key k s) (omega arith)

  pub Keeps-keys : (pattern_text : String) → Keeps IsFresh (command (R.keys pattern_text))
  Keeps-keys p = Keeps-command (R.keys p) λ k b s. rw (L.zset-keys p k s) (omega arith)

  pub Keeps-zrange_by_score :
      (key : String) (bound : ℕ) → Keeps IsFresh (command (R.zrange_by_score key bound))
  Keeps-zrange_by_score key bound =
      Keeps-command (R.zrange_by_score key bound)
        λ k b s. rw (L.zset-zrange_by_score key k bound s) (omega arith)

  -- Only ZADD puts a member in, and `addToPEL` gives it the count 1.
  pub Keeps-add_to_pel :
      (now : ℕ) (msg : Message) (group consumer : String)
      → Keeps IsFresh (add_to_pel now msg group consumer)
  unfolding add_to_pel
  Keeps-add_to_pel now msg group consumer = record {
    at = λ q v.
        elim (Option-cases
          (R.encode_entry (pending_entry (now + q.visibility_timeout) msg group consumer))) [
            | inl e ↦ rw e v
            | inr (c, e) ↦ rw e (record {
              retries = v.retries;
              none_dead = v.none_dead;
              once = λ k b n. elim (Bool-cases (R.same b c)) [
                | inl same ↦ λ x d. ground (
                  arith,
                  (L.same_iff b c).0 same,
                  L.decode-encode_entry
                      (pending_entry (now + q.visibility_timeout) msg group consumer) c e,
                )
                | inr other ↦ v.once k b (
                    ground (
                      arith,
                      n,
                      copies-zadd_ne L (pel_key msg.topic group) k
                          (unix (now + q.visibility_timeout)) b c q.store
                          (λ (p : b ≡ c). cc ((L.same_iff b c).1 p)),
                    ))
              ];
            })
          ];
  }

  pub ruleset fresh_rules = (
    keep_rules, Keeps-zrem, Keeps-zrange, Keeps-lpush, Keeps-rpush, Keeps-brpop, Keeps-keys,
    Keeps-zrange_by_score, Keeps-add_to_pel,
  )
