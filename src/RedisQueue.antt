-- ===== src/RedisQueue.antt =====
-- internal/queueservice/redis_queue.go: the competing-consumer queue over Redis.
-- A method is an action: it takes the queue and gives what it returns and the queue after it.
-- `time.Now()` is an argument. A Redis command that fails is an `err`; a nil dereference is
-- `panicked`, after which the request is over and the store stays as it was left.
pub mod Keys
pub mod Actions
pub mod Waiting
pub mod Pending
pub mod Fetch
pub mod Ack
pub mod Calls
pub mod Keeps
pub mod Held
pub mod Moves
pub mod Unlost
pub mod Expiry
pub mod Redelivery
pub mod Fresh
pub mod Retries
pub mod Tests
use gpu_telemetry_pipeline.Base.{
  ℕ, suc, zero, ◌+◌, String, Bool, false, Option, none, some, List, [], ◌∷◌, ◌++◌, str_eq, leb,
  concat, if◌then◌else◌,
}
use gpu_telemetry_pipeline.Domain.{unix}
use gpu_telemetry_pipeline.Message.{Message}
use gpu_telemetry_pipeline.Redis.{Redis, PendingEntry, Reply, done, failed}

pub record RedisQueue (Store : Type 0) : Type 0 where
  pub store : Store
  pub visibility_timeout : ℕ
  pub max_retries : ℕ
  pub dead_letter_queue : List PendingEntry

pub data Error : Type 0 where
  marshal_failed unmarshal_failed redis_failed message_not_found : Error

pub data Result {ℓ} (A : Type ℓ) : Type ℓ where
  ok : A → Result A
  err : Error → Result A
  panicked : Result A

unfoldable pub queue_key : String → String
queue_key topic = concat ("queue:" ∷ topic ∷ [])

unfoldable pub pel_key : String → String → String
pel_key topic consumer_group = concat ("pel:" ∷ topic ∷ ":" ∷ consumer_group ∷ [])

abbrev pub Action : Type 0 → Type 0 → Type 0
Action S A = RedisQueue S → Result A × RedisQueue S

module _ {S : Type 0} where
  abbrev pub pure : {A : Type 0} → A → Action S A
  pure a q = (ok a, q)

  abbrev pub fail : {A : Type 0} → Error → Action S A
  fail e q = (err e, q)

  abbrev pub panic : {A : Type 0} → Action S A
  panic q = (panicked, q)

  -- The rest of a method: it runs if the step before it returned.
  abbrev pub after :
      {A B : Type 0} → Result A × RedisQueue S → (A → Action S B) → Result B × RedisQueue S
  after (ok a, q) f = f a q
  after (err e, q) f = (err e, q)
  after (panicked, q) f = (panicked, q)

  infixl 5 ◌>>=◌ ◌>>◌
  abbrev pub ◌>>=◌ : {A B : Type 0} → Action S A → (A → Action S B) → Action S B
  ◌>>=◌ m f q = after (m q) f

  abbrev pub ◌>>◌ : {B : Type 0} → Action S (Unit {0}) → Action S B → Action S B
  m >> k = m >>= λ _. k

  abbrev pub after_either :
      {A B : Type 0}
      → Result A × RedisQueue S
      → (A → Action S B)
      → Action S B
      → Result B × RedisQueue S
  after_either (ok a, q) f g = f a q
  after_either (err e, q) f g = g q
  after_either (panicked, q) f g = (panicked, q)

  -- `if err != nil { … }` around the rest of a loop's body.
  abbrev pub attempt : {A B : Type 0} → Action S A → (A → Action S B) → Action S B → Action S B
  attempt m f g q = after_either (m q) f g

  abbrev pub drop_error : Result (Unit {0}) × RedisQueue S → Result (Unit {0}) × RedisQueue S
  drop_error (ok a, q) = (ok a, q)
  drop_error (err e, q) = (ok tt, q)
  drop_error (panicked, q) = (panicked, q)

  -- `_ = f()`, or a command whose error is not read: the error is dropped.
  abbrev pub discard : Action S (Unit {0}) → Action S (Unit {0})
  discard m q = drop_error (m q)

abbrev pub from_option : {S A : Type 0} → Error → Option A → Action S A
from_option e none = fail e
from_option e (some a) = pure a

abbrev pub from_reply : {A : Type 0} → Reply A → Result A
from_reply (done a) = ok a
from_reply failed = err redis_failed

-- A Redis command within a method.
abbrev pub command : {S A : Type 0} → (S → Reply A × S) → Action S A
command c q = let (r, s) = c q.store in (from_reply r, record q { store = s })

abbrev pub bury : {S : Type 0} → PendingEntry → Action S (Unit {0})
bury entry q = (ok tt, record q { dead_letter_queue = q.dead_letter_queue ++ entry ∷ [] })

-- What one pass of the loop of `FetchBatch` did: it broke off, put a message back, or took one.
pub data Round : Type 0 where
  stop skipped : Round
  taken : Message → Round

abbrev pub pending_entry : ℕ → Message → String → String → PendingEntry
pending_entry visible_at msg consumer_group consumer_id = record {
  message = msg;
  consumer_group = consumer_group;
  consumer_id = consumer_id;
  visible_at = visible_at;
  delivery_count = 1;
}

module _ ⦃R : Redis⦄ where
  open R use {Store, Bytes}

  unfoldable pub publish : Message → Action Store (Unit {0})
  publish msg = do
    msg_json ← from_option marshal_failed (R.encode_message msg)
    command (R.lpush (queue_key msg.topic) msg_json)

  -- BRPOP answers with the key and the value.
  abbrev read_popped : Option (List Bytes) → Action Store (Option Message)
  read_popped (some (name ∷ value ∷ more)) = do
    msg ← from_option unmarshal_failed (R.decode_message value)
    pure (some msg)
  read_popped _ = pure none

  unfoldable pub pop_message : String → Action Store (Option Message)
  pop_message topic = do result ← command (R.brpop (queue_key topic)); read_popped result

  unfoldable pub add_to_pel : ℕ → Message → String → String → Action Store (Unit {0})
  add_to_pel now msg consumer_group consumer_id q =
      let visible_at : ℕ = now + q.visibility_timeout in
      let add : Action Store (Unit {0}) = do
        entry_json ←
            from_option marshal_failed
              (R.encode_entry (pending_entry visible_at msg consumer_group consumer_id))
        command (R.zadd (pel_key msg.topic consumer_group) (unix visible_at) entry_json)
      in add q

  unfoldable pub requeue_message : Message → Action Store (Unit {0})
  requeue_message msg = do
    msg_json ← from_option marshal_failed (R.encode_message msg)
    command (R.rpush (queue_key msg.topic) msg_json)

  -- `popMessage` returns a nil message where there is none, and `addToPEL` reads `msg.Topic`.
  unfoldable pub track : ℕ → String → String → Option Message → Action Store Round
  track now consumer_group consumer_id none = panic
  track now consumer_group consumer_id (some msg) =
      attempt (add_to_pel now msg consumer_group consumer_id) (λ _. pure (taken msg))
        (discard (requeue_message msg) >> pure skipped)

  unfoldable pub fetch_round : ℕ → String → String → String → Action Store Round
  fetch_round now topic consumer_group consumer_id =
      attempt (pop_message topic) (track now consumer_group consumer_id) (pure stop)

  -- `clock i` is the reading of the clock in pass `i`; the first number is the passes left.
  unfoldable pub fetch_loop :
      (ℕ → ℕ) → String → String → String → ℕ → ℕ → List Message → Action Store (List Message)
  fetch_loop clock topic consumer_group consumer_id zero i messages = pure messages
  fetch_loop clock topic consumer_group consumer_id (suc n) i messages =
      fetch_round (clock i) topic consumer_group consumer_id >>= elim [
        | stop ↦ pure messages
        | skipped ↦ fetch_loop clock topic consumer_group consumer_id n (i + 1) messages
        | taken msg ↦
            fetch_loop clock topic consumer_group consumer_id n (i + 1) (messages ++ msg ∷ [])
      ]

  unfoldable pub fetch_batch : (ℕ → ℕ) → String → String → String → ℕ → Action Store (List Message)
  fetch_batch clock topic consumer_group consumer_id count =
      fetch_loop clock topic consumer_group consumer_id count 0 []

  abbrev matches_id : String → Option PendingEntry → Bool
  matches_id message_id none = false
  matches_id message_id (some entry) = str_eq entry.message.id message_id

  -- The first entry of the list with that message id; one that is no JSON is passed over.
  unfoldable pub find_entry : String → List Bytes → Option Bytes
  find_entry message_id [] = none
  find_entry message_id (entry_json ∷ more) =
      if matches_id message_id (R.decode_entry entry_json)
      then some entry_json
      else find_entry message_id more

  unfoldable pub ack : String → String → String → Action Store (Unit {0})
  ack topic consumer_group message_id = do
    entries ← command (R.zrange (pel_key topic consumer_group))
    entry_json ← from_option message_not_found (find_entry message_id entries)
    command (R.zrem (pel_key topic consumer_group) entry_json)
    pure tt

  unfoldable pub nack : String → String → String → Action Store (Unit {0})
  nack topic consumer_group message_id = do
    entries ← command (R.zrange (pel_key topic consumer_group))
    entry_json ← from_option message_not_found (find_entry message_id entries)
    command (R.zrem (pel_key topic consumer_group) entry_json)
    entry ← from_option unmarshal_failed (R.decode_entry entry_json)
    requeue_message entry.message

  -- The new delivery count is only logged: what goes back is the message.
  unfoldable pub expire : String → Bytes → PendingEntry → Action Store (Unit {0})
  expire pel_key entry_json entry q =
      let expired : Action Store (Unit {0}) =
        if leb q.max_retries entry.delivery_count
        then bury entry >> discard (command (R.zrem pel_key entry_json))
        else discard (command (R.zrem pel_key entry_json))
          >> discard (requeue_message entry.message) in
      expired q

  -- What is no JSON is logged and passed over.
  unfoldable pub expire_decoded : String → Bytes → Option PendingEntry → Action Store (Unit {0})
  expire_decoded pel_key entry_json none = pure tt
  expire_decoded pel_key entry_json (some entry) = expire pel_key entry_json entry

  unfoldable pub expire_json : String → Bytes → Action Store (Unit {0})
  unfolding expire_decoded
  expire_json pel_key entry_json = expire_decoded pel_key entry_json (R.decode_entry entry_json)

  unfoldable pub expire_all : String → List Bytes → Action Store (Unit {0})
  expire_all pel_key [] = pure tt
  expire_all pel_key (entry_json ∷ more) = expire_json pel_key entry_json >> expire_all pel_key more

  -- One pending list; where its entries cannot be read the next list has its turn.
  unfoldable pub check_key : ℕ → String → Action Store (Unit {0})
  check_key now pel_key =
      discard
        do entries ← command (R.zrange_by_score pel_key (unix now)); expire_all pel_key entries

  unfoldable pub check_keys : ℕ → List String → Action Store (Unit {0})
  check_keys now [] = pure tt
  check_keys now (pel_key ∷ more) = check_key now pel_key >> check_keys now more

  unfoldable pub check_expired_messages : ℕ → Action Store (Unit {0})
  check_expired_messages now = discard do found ← command (R.keys "pel:*"); check_keys now found
