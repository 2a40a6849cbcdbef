-- ===== src/Redis.antt =====
-- What internal/queueservice takes from outside the repository: the commands of the go-redis
-- client and the JSON form of what is stored. Both are parameters here, with the documented
-- behaviour of each command as laws; Redis/Memory.antt has one store that meets them.
pub mod Memory
use gpu_telemetry_pipeline.Base.{
  ℕ, String, ◌≡◌, ◌↔◌, Bool, true, false, ◌&&◌, Option, none, some, List, [], ◌∷◌, ◌++◌, map, leb,
  if◌then◌else◌, str_eq, select,
}
use gpu_telemetry_pipeline.Message.{Message}

-- One entry of a pending list (`PendingEntry` of redis_queue.go), which is stored as JSON.
pub record PendingEntry : Type 0 where
  pub message : Message
  pub consumer_group : String
  pub consumer_id : String
  pub visible_at : ℕ
  pub delivery_count : ℕ

-- What a command returns to its caller: a value, or a non-nil error.
pub data Reply {ℓ} (A : Type ℓ) : Type ℓ where
  done : A → Reply A
  failed : Reply A

abbrev pub is_done {ℓ} : {A : Type ℓ} → Reply A → Bool
is_done (done a) = true
is_done failed = false

-- `Store` is the server with the connection to it, so the same command may fail once and succeed
-- later. `brpop` answers `none` for `redis.Nil`; `zrange` takes the whole set (0 to -1);
-- `zrange_by_score` takes the scores from -inf up to a bound, that bound included.
pub record Redis : Type 1 where
  pub Store : Type 0
  pub Bytes : Type 0
  pub of_text : String → Bytes
  pub same : Bytes → Bytes → Bool
  pub encode_message : Message → Option Bytes
  pub decode_message : Bytes → Option Message
  pub encode_entry : PendingEntry → Option Bytes
  pub decode_entry : Bytes → Option PendingEntry
  pub lpush : String → Bytes → Store → Reply (Unit {0}) × Store
  pub rpush : String → Bytes → Store → Reply (Unit {0}) × Store
  pub brpop : String → Store → Reply (Option (List Bytes)) × Store
  pub zadd : String → ℕ → Bytes → Store → Reply (Unit {0}) × Store
  pub zrem : String → Bytes → Store → Reply (Unit {0}) × Store
  pub zrange : String → Store → Reply (List Bytes) × Store
  pub zrange_by_score : String → ℕ → Store → Reply (List Bytes) × Store
  pub keys : String → Store → Reply (List String) × Store
  pub llen : String → Store → Reply ℕ × Store
  pub zcard : String → Store → Reply ℕ × Store

-- The member of a scored entry.
abbrev pub member {ℓ} : {A : Type ℓ} → ℕ × A → A
member (score, b) = b

abbrev pub without {ℓ} : {A : Type ℓ} → (A → A → Bool) → A → List (ℕ × A) → List (ℕ × A)
without same b [] = []
without same b (e ∷ es) = if same (member e) b then without same b es else e ∷ without same b es

-- What BRPOP answers at a list: the key, and the element at the tail.
abbrev pub pop_answer {ℓ} : {A : Type ℓ} → A → List A → Option (List A)
pop_answer name [] = none
pop_answer name (b ∷ bs) = some (name ∷ b ∷ [])

abbrev pub rest {ℓ} : {A : Type ℓ} → List A → List A
rest [] = []
rest (x ∷ xs) = xs

-- The documented behaviour. `list_at` shows a list from its tail to its head: LPUSH puts at the
-- end of this view, RPUSH at its front, and BRPOP takes from its front. `zset_at` shows a sorted
-- set in rank order. A command that fails has changed neither, nor has a command that reads.
pub record RedisLaws (R : Redis) : Type 0 where
  pub list_at : R.Store → String → List R.Bytes
  pub zset_at : R.Store → String → List (ℕ × R.Bytes)
  pub same_iff : (a b : R.Bytes) → (R.same a b ≡ true) ↔ (a ≡ b)
  pub decode-encode_message :
      (m : Message) (b : R.Bytes) → R.encode_message m ≡ some b → R.decode_message b ≡ some m
  pub decode-encode_entry :
      (e : PendingEntry) (b : R.Bytes) → R.encode_entry e ≡ some b → R.decode_entry b ≡ some e
  -- What was read from JSON can be written as JSON, and an entry if its message can.
  pub encode-decode_message :
      (m : Message) (b : R.Bytes)
      → R.decode_message b ≡ some m
      → (c : R.Bytes) × (R.encode_message m ≡ some c)
  pub encode-decode_entry :
      (e : PendingEntry) (b : R.Bytes)
      → R.decode_entry b ≡ some e
      → (c : R.Bytes) × (R.encode_message e.message ≡ some c)
  pub entry_encodes :
      (e : PendingEntry) (b : R.Bytes)
      → R.encode_message e.message ≡ some b
      → (c : R.Bytes) × (R.encode_entry e ≡ some c)
  pub list-lpush :
      (k j : String) (b : R.Bytes) (s : R.Store)
      → list_at (R.lpush k b s).1 j
        ≡ (if is_done (R.lpush k b s).0 && str_eq k j then list_at s j ++ b ∷ [] else list_at s j)
  pub list-rpush :
      (k j : String) (b : R.Bytes) (s : R.Store)
      → list_at (R.rpush k b s).1 j
        ≡ (if is_done (R.rpush k b s).0 && str_eq k j then b ∷ list_at s j else list_at s j)
  pub list-brpop :
      (k j : String) (s : R.Store)
      → list_at (R.brpop k s).1 j
        ≡ (if is_done (R.brpop k s).0 && str_eq k j then rest (list_at s j) else list_at s j)
  pub reply-brpop :
      (k : String) (s : R.Store) (answer : Option (List R.Bytes))
      → (R.brpop k s).0 ≡ done answer
      → answer ≡ pop_answer (R.of_text k) (list_at s k)
  pub list-zadd :
      (k j : String) (score : ℕ) (b : R.Bytes) (s : R.Store)
      → list_at (R.zadd k score b s).1 j ≡ list_at s j
  pub list-zrem :
      (k j : String) (b : R.Bytes) (s : R.Store) → list_at (R.zrem k b s).1 j ≡ list_at s j
  pub list-zrange : (k j : String) (s : R.Store) → list_at (R.zrange k s).1 j ≡ list_at s j
  pub list-zrange_by_score :
      (k j : String) (bound : ℕ) (s : R.Store)
      → list_at (R.zrange_by_score k bound s).1 j ≡ list_at s j
  pub list-keys : (p j : String) (s : R.Store) → list_at (R.keys p s).1 j ≡ list_at s j
  pub list-llen : (k j : String) (s : R.Store) → list_at (R.llen k s).1 j ≡ list_at s j
  pub list-zcard : (k j : String) (s : R.Store) → list_at (R.zcard k s).1 j ≡ list_at s j
  pub zset-llen : (k j : String) (s : R.Store) → zset_at (R.llen k s).1 j ≡ zset_at s j
  pub zset-zcard : (k j : String) (s : R.Store) → zset_at (R.zcard k s).1 j ≡ zset_at s j
  pub zset-lpush :
      (k j : String) (b : R.Bytes) (s : R.Store) → zset_at (R.lpush k b s).1 j ≡ zset_at s j
  pub zset-rpush :
      (k j : String) (b : R.Bytes) (s : R.Store) → zset_at (R.rpush k b s).1 j ≡ zset_at s j
  pub zset-brpop : (k j : String) (s : R.Store) → zset_at (R.brpop k s).1 j ≡ zset_at s j
  -- A member that is there already moves to its new score; where it stands among equal scores is
  -- left open.
  pub zset-zadd :
      (k : String) (score : ℕ) (b : R.Bytes) (s : R.Store)
      → (R.zadd k score b s).0 ≡ done tt
      → (low high : List (ℕ × R.Bytes)) × (without R.same b (zset_at s k) ≡ low ++ high)
        × (zset_at (R.zadd k score b s).1 k ≡ low ++ (score, b) ∷ high)
  pub zset-zadd_other :
      (k j : String) (score : ℕ) (b : R.Bytes) (s : R.Store)
      → (is_done (R.zadd k score b s).0 && str_eq k j) ≡ false
      → zset_at (R.zadd k score b s).1 j ≡ zset_at s j
  pub zset-zrem :
      (k j : String) (b : R.Bytes) (s : R.Store)
      → zset_at (R.zrem k b s).1 j ≡ (
          if is_done (R.zrem k b s).0 && str_eq k j
          then without R.same b (zset_at s j)
          else zset_at s j)
  pub zset-zrange : (k j : String) (s : R.Store) → zset_at (R.zrange k s).1 j ≡ zset_at s j
  pub zset-zrange_by_score :
      (k j : String) (bound : ℕ) (s : R.Store)
      → zset_at (R.zrange_by_score k bound s).1 j ≡ zset_at s j
  pub zset-keys : (p j : String) (s : R.Store) → zset_at (R.keys p s).1 j ≡ zset_at s j
  pub reply-zrange :
      (k : String) (s : R.Store) (bs : List R.Bytes)
      → (R.zrange k s).0 ≡ done bs
      → bs ≡ map member (zset_at s k)
  pub reply-zrange_by_score :
      (k : String) (bound : ℕ) (s : R.Store) (bs : List R.Bytes)
      → (R.zrange_by_score k bound s).0 ≡ done bs
      → bs ≡ map member (select (λ e. leb e.0 bound) (zset_at s k))

-- A server that answers every command.
pub record IsHealthy (R : Redis) : Type 0 where
  pub lpush_done : (k : String) (b : R.Bytes) (s : R.Store) → (R.lpush k b s).0 ≡ done tt
  pub rpush_done : (k : String) (b : R.Bytes) (s : R.Store) → (R.rpush k b s).0 ≡ done tt
  pub brpop_done :
      (k : String) (s : R.Store) → (r : Option (List R.Bytes)) × ((R.brpop k s).0 ≡ done r)
  pub zadd_done :
      (k : String) (score : ℕ) (b : R.Bytes) (s : R.Store) → (R.zadd k score b s).0 ≡ done tt
  pub zrem_done : (k : String) (b : R.Bytes) (s : R.Store) → (R.zrem k b s).0 ≡ done tt
  pub zrange_done : (k : String) (s : R.Store) → (bs : List R.Bytes) × ((R.zrange k s).0 ≡ done bs)
  pub zrange_by_score_done :
      (k : String) (bound : ℕ) (s : R.Store)
      → (bs : List R.Bytes) × ((R.zrange_by_score k bound s).0 ≡ done bs)
