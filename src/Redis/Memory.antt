-- ===== src/Redis/Memory.antt =====
-- A store in memory that meets the laws of Redis, for the examples. The JSON form of a record is
-- the record itself under a tag, so that reading back what was written gives it again.
use mathlib.Core.Bool.{decide, decide_iff}
use native.Mathlib.Decide.{ℕ_discrete}
use gpu_telemetry_pipeline.Base.{
  ℕ, String, ◌≡◌, refl, Bool, Option, none, some, List, [], ◌∷◌, ◌++◌, map, arith, str_eq,
  str_eq_iff, str_eq_refl, if◌then◌else◌, select, leb, length, Bool-cases, inl, inr,
}
use gpu_telemetry_pipeline.Message.{Message}
use gpu_telemetry_pipeline.Redis.{
  Redis, RedisLaws, IsHealthy, PendingEntry, done, member, without, rest, pop_answer,
}

pub data Doc : Type 0 where
  name : String → Doc
  message_json : Message → Doc
  entry_json : PendingEntry → Doc

String_discrete : Discrete String
String_discrete s t = elim (Bool-cases (str_eq s t)) [
  | inl e ↦ yes ((str_eq_iff s t).0 e)
  | inr e ↦ no λ (p : s ≡ t). cc ((str_eq_iff s t).1 p)
]

pub Doc-discrete : Discrete Doc
Doc-discrete = hlevel (ℕ_discrete, String_discrete)

pub record MemoryStore : Type 0 where
  pub lists : String → List Doc
  pub zsets : String → List (ℕ × Doc)
  pub names : List String

abbrev pub empty_store : MemoryStore
empty_store = record { lists = λ k. []; zsets = λ k. []; names = [] }

abbrev put_at {ℓ} : {A : Type ℓ} → (String → A) → String → A → String → A
put_at f k a j = if str_eq k j then a else f j

abbrev as_message : Doc → Option Message
as_message (message_json m) = some m
as_message (name t) = none
as_message (entry_json e) = none

abbrev as_entry : Doc → Option PendingEntry
as_entry (entry_json e) = some e
as_entry (name t) = none
as_entry (message_json m) = none

abbrev pub same_doc : Doc → Doc → Bool
same_doc a b = decide (Doc-discrete a b)

instance abbrev pub memory : Redis
memory = record {
  Store = MemoryStore;
  Bytes = Doc;
  of_text = name;
  same = same_doc;
  encode_message = λ m. some (message_json m);
  decode_message = as_message;
  encode_entry = λ e. some (entry_json e);
  decode_entry = as_entry;
  lpush = λ k b s. (done tt, record s { lists = put_at s.lists k (s.lists k ++ b ∷ []) });
  rpush = λ k b s. (done tt, record s { lists = put_at s.lists k (b ∷ s.lists k) });
  brpop = λ k s. (
    done (pop_answer (name k) (s.lists k)),
    record s { lists = put_at s.lists k (rest (s.lists k)) },
  );
  zadd = λ k score b s. (
    done tt,
    record s {
      zsets = put_at s.zsets k ((score, b) ∷ without same_doc b (s.zsets k));
      names = k ∷ s.names;
    },
  );
  zrem = λ k b s. (done tt, record s { zsets = put_at s.zsets k (without same_doc b (s.zsets k)) });
  zrange = λ k s. (done (map member (s.zsets k)), s);
  zrange_by_score = λ k bound s. (done (map member (select (λ e. leb e.0 bound) (s.zsets k))), s);
  keys = λ p s. (done s.names, s);
  llen = λ k s. (done (length (s.lists k)), s);
  zcard = λ k s. (done (length (s.zsets k)), s);
}

-- A key that is written reads the new value; any other key reads what it did.
pub put_at_keeps :
    {A : Type 0} (f : String → A) (k j : String) (g : A → A)
    → put_at f k (g (f k)) j ≡ (if str_eq k j then g (f j) else f j)
put_at_keeps f k j g = elim (Bool-cases (str_eq k j)) [
  | inl e ↦ rw (e, (str_eq_iff k j).0 e)
  | inr e ↦ rw e
]

pub read_message : (m : Message) (b : Doc) → some (message_json m) ≡ some b → as_message b ≡ some m
read_message m b e = ground arith

pub read_entry : (x : PendingEntry) (b : Doc) → some (entry_json x) ≡ some b → as_entry b ≡ some x
read_entry x b e = ground arith

pub done_injective {ℓ} : {A : Type ℓ} {a b : A} → done a ≡ done b → b ≡ a
done_injective e = cc

abbrev pub memory-RedisLaws : RedisLaws memory
memory-RedisLaws = record {
  list_at = λ s. s.lists;
  zset_at = λ s. s.zsets;
  same_iff = λ a b. decide_iff (Doc-discrete a b);
  decode-encode_message = read_message;
  decode-encode_entry = read_entry;
  encode-decode_message = λ m b e. (message_json m, refl);
  encode-decode_entry = λ x b e. (message_json x.message, refl);
  entry_encodes = λ x b e. (entry_json x, refl);
  list-lpush = λ k j b s. put_at_keeps s.lists k j (λ l. l ++ b ∷ []);
  list-rpush = λ k j b s. put_at_keeps s.lists k j (λ l. b ∷ l);
  list-brpop = λ k j s. put_at_keeps s.lists k j rest;
  reply-brpop = λ k s answer e. done_injective e;
  list-zadd = λ k j score b s. refl;
  list-zrem = λ k j b s. refl;
  list-zrange = λ k j s. refl;
  list-zrange_by_score = λ k j bound s. refl;
  list-keys = λ p j s. refl;
  list-llen = λ k j s. refl;
  list-zcard = λ k j s. refl;
  zset-llen = λ k j s. refl;
  zset-zcard = λ k j s. refl;
  zset-lpush = λ k j b s. refl;
  zset-rpush = λ k j b s. refl;
  zset-brpop = λ k j s. refl;
  zset-zadd = λ k score b s h. ([], without same_doc b (s.zsets k), refl, rw (str_eq_refl k));
  zset-zadd_other = λ k j score b s h. rw h;
  zset-zrem = λ k j b s. put_at_keeps s.zsets k j (without same_doc b);
  zset-zrange = λ k j s. refl;
  zset-zrange_by_score = λ k j bound s. refl;
  zset-keys = λ p j s. refl;
  reply-zrange = λ k s bs e. done_injective e;
  reply-zrange_by_score = λ k bound s bs e. done_injective e;
}

abbrev pub memory-IsHealthy : IsHealthy memory
memory-IsHealthy = record {
  lpush_done = λ k b s. refl;
  rpush_done = λ k b s. refl;
  brpop_done = λ k s. (pop_answer (name k) (s.lists k), refl);
  zadd_done = λ k score b s. refl;
  zrem_done = λ k b s. refl;
  zrange_done = λ k s. (map member (s.zsets k), refl);
  zrange_by_score_done = λ k bound s. (map member (select (λ e. leb e.0 bound) (s.zsets k)), refl);
}
