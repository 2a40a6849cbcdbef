-- ===== src/RedisQueue/Held.antt =====
-- Where a message is: it waits in a topic, has an entry in a pending list, or is dead. Which steps
-- leave every message where it is, and where a step moves one.
use mathlib.Core.List.{Memᴰ}
use mathlib.Core.List.Memᴰ
use gpu_telemetry_pipeline.Base.{
  ℕ, ◌+◌, ◌<◌, String, ◌≡◌, refl, Bool, true, false, Option, some, List, [], ◌∷◌, ◌++◌, inl, inr,
  if◌then◌else◌, Option-cases,
}
use gpu_telemetry_pipeline.Message.{Message}
use gpu_telemetry_pipeline.Redis.{Redis, RedisLaws, PendingEntry, Reply}
use gpu_telemetry_pipeline.RedisQueue.{
  RedisQueue, command, publish, requeue_message, add_to_pel, pending_entry, queue_key, pel_key,
}
use gpu_telemetry_pipeline.RedisQueue.Keeps.{Keeps}
use gpu_telemetry_pipeline.RedisQueue.Waiting.{waiting, waiting-publish, waiting-requeue_message}
use gpu_telemetry_pipeline.RedisQueue.Pending.{
  copies, copies-zadd_pos, waiting-add_to_pel, zset-requeue_message,
}

appended :
    {A : Type 0} (x : A) (b : Bool) (xs ys : List A) (y : A)
    → ys ≡ (if b then xs ++ y ∷ [] else xs)
    → Memᴰ x xs
    → Memᴰ x ys
appended x true xs ys y e h = rw e (Memᴰ.append_left (y ∷ []) h)
appended x false xs ys y e h = rw e h

pub prepended :
    {A : Type 0} (x : A) (b : Bool) (xs ys : List A) (y : A)
    → ys ≡ (if b then y ∷ xs else xs)
    → Memᴰ x xs
    → Memᴰ x ys
prepended x true xs ys y e h = rw e (Memᴰ.tail h)
prepended x false xs ys y e h = rw e h

module _ ⦃R : Redis⦄ (L : RedisLaws R) where
  pub data Held (m : Message) (q : RedisQueue R.Store) : Type 0 where
    waits : (topic : String) → Memᴰ (some m) (waiting L q topic) → Held m q
    pends :
        (key : String) (b : R.Bytes) (e : PendingEntry)
        → R.decode_entry b ≡ some e
        → e.message ≡ m
        → 0 < copies L b (L.zset_at q.store key)
        → Held m q
    died : (e : PendingEntry) → e.message ≡ m → Memᴰ e q.dead_letter_queue → Held m q

  -- All that one queue holds, the other holds at the same place.
  pub record Extends (q p : RedisQueue R.Store) : Type 0 where
    pub topics :
        (topic : String) (x : Option Message)
        → Memᴰ x (waiting L q topic)
        → Memᴰ x (waiting L p topic)
    pub lists :
        (key : String) (b : R.Bytes)
        → 0 < copies L b (L.zset_at q.store key)
        → 0 < copies L b (L.zset_at p.store key)
    pub dead : (e : PendingEntry) → Memᴰ e q.dead_letter_queue → Memᴰ e p.dead_letter_queue

  pub Held-Extends : {m : Message} {q p : RedisQueue R.Store} → Extends q p → Held m q → Held m p
  Held-Extends x (Held.waits topic h) = Held.waits topic (x.topics topic _ h)
  Held-Extends x (Held.pends key b e d i n) = Held.pends key b e d i (x.lists key b n)
  Held-Extends x (Held.died e i h) = Held.died e i (x.dead e h)

  -- A command after which the lists and the sorted sets are as they were.
  pub Held-same :
      {A : Type 0} (m : Message) (c : R.Store → Reply A × R.Store)
      → ((k : String) (s : R.Store) → L.list_at (c s).1 k ≡ L.list_at s k)
      → ((k : String) (s : R.Store) → L.zset_at (c s).1 k ≡ L.zset_at s k)
      → Keeps (Held m) (command c)
  Held-same m c l z = record {
    at = λ q. Held-Extends (record {
      topics = λ topic x h. rw (l (queue_key topic) q.store) h;
      lists = λ key b n. rw (z key q.store) n;
      dead = λ e h. h;
    });
  }

  zset-publish :
      (msg : Message) (k : String) (q : RedisQueue R.Store)
      → L.zset_at (publish msg q).1.store k ≡ L.zset_at q.store k
  unfolding publish
  zset-publish msg k q = elim (Option-cases (R.encode_message msg)) [
    | inl e ↦ rw e refl
    | inr (b, e) ↦ rw e (L.zset-lpush (queue_key msg.topic) k b q.store)
  ]

  dead-publish :
      (msg : Message) (q : RedisQueue R.Store)
      → (publish msg q).1.dead_letter_queue ≡ q.dead_letter_queue
  unfolding publish
  dead-publish msg q = elim (Option-cases (R.encode_message msg)) [
    | inl e ↦ rw e refl
    | inr (b, e) ↦ rw e refl
  ]

  dead-requeue_message :
      (msg : Message) (q : RedisQueue R.Store)
      → (requeue_message msg q).1.dead_letter_queue ≡ q.dead_letter_queue
  unfolding requeue_message
  dead-requeue_message msg q = elim (Option-cases (R.encode_message msg)) [
    | inl e ↦ rw e refl
    | inr (b, e) ↦ rw e refl
  ]

  pub Held-publish : (m msg : Message) → Keeps (Held m) (publish msg)
  Held-publish m msg = record {
    at = λ q. Held-Extends (record {
      topics = λ topic x h. appended x _ _ _ (some msg) (waiting-publish L msg q topic) h;
      lists = λ key b n. rw (zset-publish msg key q) n;
      dead = λ e h. rw (dead-publish msg q) h;
    });
  }

  pub Held-requeue_message : (m msg : Message) → Keeps (Held m) (requeue_message msg)
  Held-requeue_message m msg = record {
    at = λ q. Held-Extends (record {
      topics = λ topic x h. prepended x _ _ _ (some msg) (waiting-requeue_message L msg q topic) h;
      lists = λ key b n. rw (zset-requeue_message L msg key q) n;
      dead = λ e h. rw (dead-requeue_message msg q) h;
    });
  }

  dead-add_to_pel :
      (now : ℕ) (msg : Message) (g c : String) (q : RedisQueue R.Store)
      → (add_to_pel now msg g c q).1.dead_letter_queue ≡ q.dead_letter_queue
  unfolding add_to_pel
  dead-add_to_pel now msg g c q =
      elim (Option-cases (R.encode_entry (pending_entry (now + q.visibility_timeout) msg g c))) [
        | inl e ↦ rw e refl
        | inr (b, e) ↦ rw e refl
      ]

  pends-add_to_pel :
      (now : ℕ) (msg : Message) (g c key : String) (b : R.Bytes) (q : RedisQueue R.Store)
      → 0 < copies L b (L.zset_at q.store key)
      → 0 < copies L b (L.zset_at (add_to_pel now msg g c q).1.store key)
  unfolding add_to_pel
  pends-add_to_pel now msg g c key b q n =
      elim (Option-cases (R.encode_entry (pending_entry (now + q.visibility_timeout) msg g c))) [
        | inl e ↦ rw e n
        | inr (json, e) ↦ rw e (copies-zadd_pos L (pel_key msg.topic g) key _ b json q.store n)
      ]

  pub Held-add_to_pel :
      (m : Message) (now : ℕ) (msg : Message) (g c : String)
      → Keeps (Held m) (add_to_pel now msg g c)
  Held-add_to_pel m now msg g c = record {
    at = λ q. Held-Extends (record {
      topics = λ topic x h. rw (waiting-add_to_pel L now msg g c topic q) h;
      lists = λ key b n. pends-add_to_pel now msg g c key b q n;
      dead = λ e h. rw (dead-add_to_pel now msg g c q) h;
    });
  }
