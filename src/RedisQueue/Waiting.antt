-- ===== src/RedisQueue/Waiting.antt =====
-- What waits in a topic's list, oldest first, and how each method changes it.
use mathlib.Core.List.{map-append}
use gpu_telemetry_pipeline.Base.{
  String, ◌≡◌, refl, Bool, true, false, ◌&&◌, Option, none, some, List, [], ◌∷◌, ◌++◌, ◌⊎◌, map,
  arith, str_eq, str_eq_refl, if◌then◌else◌, Option-cases, inl, inr,
}
use gpu_telemetry_pipeline.Message.{Message}
use gpu_telemetry_pipeline.Redis.{Redis, RedisLaws, Reply, done, failed}
use gpu_telemetry_pipeline.RedisQueue.{
  RedisQueue, Result, ok, err, panicked, publish, pop_message, requeue_message, queue_key,
  unmarshal_failed, redis_failed,
}
use gpu_telemetry_pipeline.RedisQueue.Keys.{str_eq-queue_key}

Reply-cases {ℓ} : {A : Type ℓ} (r : Reply A) → (r ≡ failed) ⊎ ((a : A) × (r ≡ done a))
Reply-cases (done a) = inr (a, refl)
Reply-cases failed = inl refl

List-cases {ℓ} : {A : Type ℓ} (xs : List A) → (xs ≡ []) ⊎ ((x : A) × (r : List A) × (xs ≡ x ∷ r))
List-cases [] = inl refl
List-cases (x ∷ r) = inr (x, r, refl)

abbrev pub is_ok {ℓ} : {A : Type ℓ} → Result A → Bool
is_ok (ok a) = true
is_ok (err e) = false
is_ok panicked = false

-- What a pop returns, with what waited before it and after it.
pub data Pops (r : Result (Option Message)) (before after : List (Option Message)) : Type 0 where
  took : (m : Message) → r ≡ ok (some m) → before ≡ some m ∷ after → Pops r before after
  empty : r ≡ ok none → before ≡ [] → after ≡ [] → Pops r before after
  garbled : r ≡ err unmarshal_failed → before ≡ none ∷ after → Pops r before after
  refused : r ≡ err redis_failed → after ≡ before → Pops r before after

module _ ⦃R : Redis⦄ (L : RedisLaws R) where
  -- The messages that wait in a topic, oldest first; `none` is what is no message.
  abbrev pub waiting : RedisQueue R.Store → String → List (Option Message)
  waiting q topic = map R.decode_message (L.list_at q.store (queue_key topic))

  -- A message that is published, once Redis takes it, waits behind all that waited in its topic; no
  -- other topic changes, and a publication that fails changes none.
  pub waiting-publish :
      (msg : Message) (q : RedisQueue R.Store) (topic : String)
      → waiting (publish msg q).1 topic ≡ (
          if is_ok (publish msg q).0 && str_eq msg.topic topic
          then waiting q topic ++ some msg ∷ []
          else waiting q topic)
  unfolding publish
  waiting-publish msg q topic = elim (Option-cases (R.encode_message msg)) [
    | inl e ↦ rw e refl
    | inr (b, e) ↦ rw e (
        ground (
          arith,
          L.list-lpush (queue_key msg.topic) (queue_key topic) b q.store,
          str_eq-queue_key msg.topic topic,
          L.decode-encode_message msg b e,
          map-append R.decode_message (L.list_at q.store (queue_key topic)) (b ∷ []),
        ))
  ]

  pub waiting-requeue_message :
      (msg : Message) (q : RedisQueue R.Store) (topic : String)
      → waiting (requeue_message msg q).1 topic ≡ (
          if is_ok (requeue_message msg q).0 && str_eq msg.topic topic
          then some msg ∷ waiting q topic
          else waiting q topic)
  unfolding requeue_message
  waiting-requeue_message msg q topic = elim (Option-cases (R.encode_message msg)) [
    | inl e ↦ rw e refl
    | inr (b, e) ↦ rw e (
        ground (
          arith,
          L.list-rpush (queue_key msg.topic) (queue_key topic) b q.store,
          str_eq-queue_key msg.topic topic,
          L.decode-encode_message msg b e,
        ))
  ]

  -- BRPOP fails and changes nothing, finds the list empty, or takes the element at its tail.
  pub brpop_cases :
      (k : String) (s : R.Store)
      → let (r, s') = R.brpop k s in
        ((r ≡ failed) × (L.list_at s' k ≡ L.list_at s k))
        ⊎ ((r ≡ done none) × (L.list_at s k ≡ []) × (L.list_at s' k ≡ []))
        ⊎ ((b : R.Bytes) × (r ≡ done (some (R.of_text k ∷ b ∷ [])))
            × (L.list_at s k ≡ b ∷ L.list_at s' k))
  brpop_cases k s = elim (Reply-cases (R.brpop k s).0) [
    | inl e ↦ inl (e, ground (arith, L.list-brpop k k s))
    | inr (answer, e) ↦ elim (List-cases (L.list_at s k)) [
      | inl nil ↦ inr (
          inl (
            ground (arith, L.list-brpop k k s, L.reply-brpop k s answer e, str_eq_refl k),
            nil,
            ground (arith, L.list-brpop k k s, L.reply-brpop k s answer e, str_eq_refl k),
          ))
      | inr (b, bs, cons) ↦ inr (
          inr (
            b,
            ground (arith, L.list-brpop k k s, L.reply-brpop k s answer e, str_eq_refl k),
            ground (arith, L.list-brpop k k s, L.reply-brpop k s answer e, str_eq_refl k),
          ))
    ]
  ]

  -- `popMessage` returns the oldest message and takes it, finds none, drops the oldest entry if it
  -- is no message, or fails and takes nothing.
  pub pop_message-Pops :
      (topic : String) (q : RedisQueue R.Store)
      → let (r, q') = pop_message topic q in Pops r (waiting q topic) (waiting q' topic)
  unfolding pop_message
  pop_message-Pops topic q = elim (brpop_cases (queue_key topic) q.store) [
    | inl e ↦ refused (ground (arith, e)) (ground (arith, e))
    | inr (inl e) ↦ empty (ground (arith, e)) (ground (arith, e)) (ground (arith, e))
    | inr (inr (b, e, l)) ↦ elim (Option-cases (R.decode_message b)) [
      | inl d ↦ garbled (ground (arith, e, l, d)) (ground (arith, e, l, d))
      | inr (m, d) ↦ took m (ground (arith, e, l, d)) (ground (arith, e, l, d))
    ]
  ]
