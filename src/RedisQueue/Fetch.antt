-- ===== src/RedisQueue/Fetch.antt =====
-- `FetchBatch`: which messages it returns, in which order, and what happens where it runs dry.
use Prim.Native.Nat.add
use native.Mathlib.Nat.{zero-add}
use mathlib.Core.List.{append-nil, append_assoc}
use gpu_telemetry_pipeline.Base.{
  ℕ, suc, ◌+◌, ◌-◌, ◌<◌, String, ◌≡◌, refl, sym, ap, ◌∙◌, Option, some, List, [], ◌∷◌, ◌++◌, map,
  arith, inl, inr, length, All, ◌≢◌, Option-cases,
}
use gpu_telemetry_pipeline.Message.{Message}
use gpu_telemetry_pipeline.Redis.{Redis, RedisLaws, IsHealthy}
use gpu_telemetry_pipeline.RedisQueue.{
  RedisQueue, Result, ok, err, panicked, taken, redis_failed, pop_message, add_to_pel, track,
  fetch_round, fetch_loop, fetch_batch, queue_key,
}
use gpu_telemetry_pipeline.RedisQueue.Waiting.{
  waiting, brpop_cases, took, empty, garbled, refused, pop_message-Pops,
}
use gpu_telemetry_pipeline.RedisQueue.Pending.{
  Tracked, add_to_pel-Tracked, Tracked-add_to_pel, Tracked-same_zsets, zset-pop_message,
  waiting-add_to_pel, add_to_pel_ok,
}

-- The stored text of the first message of a list that has been read.
map-head {ℓ κ} :
    {A : Type ℓ} {B : Type κ} (f : A → B) (xs : List A) {y : B} {ys : List B}
    → map f xs ≡ y ∷ ys
    → (x : A) × (r : List A) × (xs ≡ x ∷ r) × (f x ≡ y) × (map f r ≡ ys)
map-head f [] e = cc
map-head f (x ∷ r) e = (x, r, refl, cc, cc)

module _ ⦃R : Redis⦄ (L : RedisLaws R) (H : IsHealthy R) where
  pop_front :
      (topic : String) (q : RedisQueue R.Store) {msg : Message} {more : List (Option Message)}
      → waiting L q topic ≡ some msg ∷ more
      → (b : R.Bytes) × (R.decode_message b ≡ some msg)
        × ((pop_message topic q).0 ≡ ok (some msg))
        × (waiting L (pop_message topic q).1 topic ≡ more)
  unfolding pop_message
  pop_front topic q h =
      let (b, r, e, d, m) = map-head R.decode_message (L.list_at q.store (queue_key topic)) h in
      let (answer, replied) = H.brpop_done (queue_key topic) q.store in
      elim (brpop_cases L (queue_key topic) q.store) [
        | inl f ↦ absurd (ground (arith, f, replied))
        | inr (inl f) ↦ absurd (ground (arith, f, e))
        | inr (inr (c, f, l)) ↦ (b, d, ground (arith, f, l, e, d), ground (arith, f, l, e, m))
      ]

  pop_answers :
      (topic : String) (q : RedisQueue R.Store) → (pop_message topic q).0 ≢ err redis_failed
  unfolding pop_message
  pop_answers topic q h =
      let (answer, replied) = H.brpop_done (queue_key topic) q.store in
      elim (brpop_cases L (queue_key topic) q.store) [
        | inl f ↦ ground (arith, f, replied)
        | inr (inl f) ↦ ground (arith, f, h)
        | inr (inr (c, f, l)) ↦ elim (Option-cases (R.decode_message c)) [
          | inl d ↦ ground (arith, f, d, h)
          | inr (m, d) ↦ ground (arith, f, d, h)
        ]
      ]

  -- What a pass that takes a message has done.
  record Takes (now : ℕ) (topic group consumer : String) (q : RedisQueue R.Store) (msg : Message)
      (more : List (Option Message)) : Type 0 where
    returns : (fetch_round now topic group consumer q).0 ≡ ok (taken msg)
    leaves : waiting L (fetch_round now topic group consumer q).1 topic ≡ more
    tracks : Tracked L (fetch_round now topic group consumer q).1 msg group consumer
    keeps :
        (m : Message)
        → Tracked L q m group consumer
        → Tracked L (fetch_round now topic group consumer q).1 m group consumer

  fetch_round-Takes :
      (now : ℕ) (topic group consumer : String) (q : RedisQueue R.Store) {msg : Message}
      {more : List (Option Message)}
      → waiting L q topic ≡ some msg ∷ more
      → Takes now topic group consumer q msg more
  unfolding fetch_round track
  fetch_round-Takes now topic group consumer q {msg} {more} h =
      let (b, d, popped, left) = pop_front topic q h in
      let p : RedisQueue R.Store = (pop_message topic q).1 in
      let added = add_to_pel_ok L H now msg group consumer p b d in
      let after : (fetch_round now topic group consumer q)
          ≡ (ok (taken msg), (add_to_pel now msg group consumer p).1) =
        ground (arith, popped, added) in
      record {
        returns = ap (λ r. r.0) after;
        leaves =
            ap (λ r. waiting L r.1 topic) after
            ∙ waiting-add_to_pel L now msg group consumer topic p
            ∙ left;
        tracks = rw after (add_to_pel-Tracked L now msg group consumer p added);
        keeps = λ m t. rw after (
            Tracked-add_to_pel L now msg m group consumer group consumer p
              (Tracked-same_zsets L q p m group consumer (λ k. zset-pop_message L topic k q) t));
      }

  -- What the loop has done when it has taken `ms` and ends with `outcome`.
  record Drains (topic group consumer : String) (ms : List Message) (q p : RedisQueue R.Store)
      (left : List (Option Message)) : Type 0 where
    leaves : waiting L p topic ≡ left
    tracks : All (λ m. Tracked L p m group consumer) ms
    keeps : (m : Message) → Tracked L q m group consumer → Tracked L p m group consumer

  module _ (clock : ℕ → ℕ) (topic group consumer : String) where
    abbrev loop :
        ℕ → ℕ → List Message → RedisQueue R.Store → Result (List Message) × RedisQueue R.Store
    loop = fetch_loop clock topic group consumer

    fetch_loop_full :
        (ms : List Message) (left : List (Option Message)) (i : ℕ) (acc : List Message)
        (q : RedisQueue R.Store)
        → waiting L q topic ≡ map some ms ++ left
        → ((loop (length ms) i acc q).0 ≡ ok (acc ++ ms))
          × Drains topic group consumer ms q (loop (length ms) i acc q).1 left
    unfolding fetch_loop
    fetch_loop_full [] left i acc q h =
        (ap ok (sym (append-nil acc)), record { leaves = h; tracks = tt; keeps = λ m t. t })
    fetch_loop_full (m ∷ ms) left i acc q h =
        let r = fetch_round-Takes (clock i) topic group consumer q h in
        let q' : RedisQueue R.Store = (fetch_round (clock i) topic group consumer q).1 in
        let (v, d) = fetch_loop_full ms left (i + 1) (acc ++ m ∷ []) q' r.leaves in
        let next : loop (suc (length ms)) i acc q ≡ loop (length ms) (i + 1) (acc ++ m ∷ []) q' =
          ground (arith, r.returns) in
        rw next (
          v ∙ ap ok (append_assoc acc (m ∷ []) ms),
          record {
            leaves = d.leaves;
            tracks = (d.keeps m r.tracks, d.tracks);
            keeps = λ n t. d.keeps n (r.keeps n t);
          },
        )

    -- Where nothing waits the pass panics: it reads the topic of a nil message.
    fetch_round_dry :
        (now : ℕ) (q : RedisQueue R.Store)
        → waiting L q topic ≡ []
        → fetch_round now topic group consumer q ≡ (panicked, (pop_message topic q).1)
          × waiting L (pop_message topic q).1 topic ≡ []
    unfolding fetch_round track
    fetch_round_dry now q h = elim (pop_message-Pops L topic q) [
      | took m r e ↦ absurd (ground (arith, h, e))
      | empty r e a ↦ (ground (arith, r), a)
      | garbled r e ↦ absurd (ground (arith, h, e))
      | refused r a ↦ absurd (pop_answers topic q r)
    ]

    fetch_loop_dry :
        (ms : List Message) (k i : ℕ) (acc : List Message) (q : RedisQueue R.Store)
        → waiting L q topic ≡ map some ms
        → ((loop (length ms + suc k) i acc q).0 ≡ panicked)
          × Drains topic group consumer ms q (loop (length ms + suc k) i acc q).1 []
    unfolding fetch_loop
    fetch_loop_dry [] k i acc q h =
        let (e, left) = fetch_round_dry (clock i) q h in
        let stuck : loop (0 + suc k) i acc q ≡ (panicked, (pop_message topic q).1) =
          rw zero-add (ground (arith, e)) in
        rw stuck (
          refl,
          record {
            leaves = left;
            tracks = tt;
            keeps = λ m t.
                Tracked-same_zsets L q _ m group consumer (λ j. zset-pop_message L topic j q) t;
          },
        )
    fetch_loop_dry (m ∷ ms) k i acc q h =
        let r = fetch_round-Takes (clock i) topic group consumer q h in
        let q' : RedisQueue R.Store = (fetch_round (clock i) topic group consumer q).1 in
        let (v, d) = fetch_loop_dry ms k (i + 1) (acc ++ m ∷ []) q' r.leaves in
        let next : loop (suc (length ms) + suc k) i acc q
            ≡ loop (length ms + suc k) (i + 1) (acc ++ m ∷ []) q' =
          rw (add.suc) (ground (arith, r.returns)) in
        rw next (
          v,
          record {
            leaves = d.leaves;
            tracks = (d.keeps m r.tracks, d.tracks);
            keeps = λ n t. d.keeps n (r.keeps n t);
          },
        )

    -- With a server that answers: a fetch of as many messages as wait at the front of the topic, or
    -- fewer than wait, returns exactly those, oldest first; it leaves the others waiting in order,
    -- and each message returned has an entry, first delivered to this consumer, in the pending list.
    pub fetch_batch_fifo :
        (ms : List Message) (left : List (Option Message)) (q : RedisQueue R.Store)
        → waiting L q topic ≡ map some ms ++ left
        → let (r, p) = fetch_batch clock topic group consumer (length ms) q in
          (r ≡ ok ms) × (waiting L p topic ≡ left) × All (λ m. Tracked L p m group consumer) ms
    unfolding fetch_batch
    fetch_batch_fifo ms left q h =
        let (v, d) = fetch_loop_full ms left 0 [] q h in (v, d.leaves, d.tracks)

    -- With a server that answers: a fetch of more messages than wait panics and returns nothing to
    -- the consumer, though it has taken every message out of the topic and left each in the
    -- pending list, marked as delivered to that consumer.
    pub fetch_batch_dry :
        (ms : List Message) (count : ℕ) (q : RedisQueue R.Store)
        → waiting L q topic ≡ map some ms
        → length ms < count
        → let (r, p) = fetch_batch clock topic group consumer count q in
          (r ≡ panicked) × (waiting L p topic ≡ []) × All (λ m. Tracked L p m group consumer) ms
    unfolding fetch_batch
    fetch_batch_dry ms count q h lt =
        let e : count ≡ length ms + suc (count - length ms - 1) = omega arith in
        let (v, d) = fetch_loop_dry ms (count - length ms - 1) 0 [] q h in
        rw e (v, d.leaves, d.tracks)
