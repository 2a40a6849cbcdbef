-- ===== src/Mongo.antt =====
-- The MongoDB driver as internal/storage/mongodb calls it: documents, the filters that it is given,
-- the calls as a parameter, and what MongoDB documents of them. A date is in milliseconds, as in BSON,
-- counted from Go's zero time.
pub mod Memory
use mathlib.Core.List.{Perm}
use gpu_telemetry_pipeline.Base.{
  ℕ, zero, suc, ◌≤◌, String, Bool, true, false, ◌&&◌, Option, none, some, List, [], ◌∷◌, ◌++◌, ◌≡◌,
  ◌≢◌, str_eq, leb, if◌then◌else◌, Dict, lookup, insert, select, count, take,
}

-- `operators` is a condition on a date, such as {"$gte": t}.
pub data Value : Type 0 where
  text : String → Value
  date : ℕ → Value
  operators : Dict ℕ → Value

abbrev pub Document : Type 0
Document = Dict Value

pub record Collection : Type 0 where
  pub database : String
  pub collection : String

abbrev pub same_collection : Collection → Collection → Bool
same_collection a b = str_eq a.database b.database && str_eq a.collection b.collection

pub data Reply {ℓ} (A : Type ℓ) : Type ℓ where
  done : A → Reply A
  failed : Reply A

abbrev pub is_done {ℓ} : {A : Type ℓ} → Reply A → Bool
is_done (done a) = true
is_done failed = false

pub data FindReply : Type 0 where
  found : Document → FindReply
  no_documents find_failed : FindReply

-- An insert of many documents may fail on a key that is there already.
pub data ManyReply : Type 0 where
  all_done duplicate_key many_failed : ManyReply

pub record Update : Type 0 where
  pub filter : Document
  pub set : Document
  pub upsert : Bool

-- The test of one operator; only these two are used.
unfoldable pub operator_holds : String → ℕ → ℕ → Bool
operator_holds name bound d =
    if str_eq name "$gte" then leb bound d else if str_eq name "$lte" then leb d bound else false

unfoldable pub operators_hold : Dict ℕ → ℕ → Bool
operators_hold [] d = true
operators_hold (o ∷ os) d = operator_holds o.0 o.1 d && operators_hold os d

-- A condition against the field of a document.
unfoldable pub value_holds : Value → Option Value → Bool
value_holds (text s) (some (text t)) = str_eq t s
value_holds (date a) (some (date b)) = leb a b && leb b a
value_holds (operators os) (some (date d)) = operators_hold os d
value_holds _ _ = false

-- A filter is the conjunction of its conditions.
unfoldable pub meets : Document → Document → Bool
meets [] doc = true
meets (c ∷ cs) doc = value_holds c.1 (lookup c.0 doc) && meets cs doc

-- `$set`: each field of the first document is written into the second.
unfoldable pub merge : Document → Document → Document
merge [] doc = doc
merge (f ∷ fs) doc = merge fs (insert f.0 f.1 doc)

-- A limit of 0 is none.
abbrev pub limited {ℓ} : {A : Type ℓ} → Option ℕ → List A → List A
limited none xs = xs
limited (some zero) xs = xs
limited (some (suc n)) xs = take (suc n) xs

-- The value of a date field, for ordering.
abbrev pub date_of : Option Value → ℕ
date_of (some (date d)) = d
date_of _ = 0

-- The first of the documents is not newer, by a date field.
abbrev pub IsNotNewer : String → Document → List Document → Type 0
IsNotNewer field x [] = Unit
IsNotNewer field x (y ∷ ys) = date_of (lookup field y) ≤ date_of (lookup field x)

abbrev pub IsNewestFirst : String → List Document → Type 0
IsNewestFirst field [] = Unit
IsNewestFirst field (x ∷ xs) = IsNotNewer field x xs × IsNewestFirst field xs

-- `Database` is the server with the connection to it. A search includes the reading of its cursor into
-- structs, which fails on a field of another type. The sort of `find_newest` is by one date field,
-- descending.
pub record Mongo : Type 1 where
  pub Database : Type 0
  pub insert_one : Collection → Document → Database → Reply (Unit {0}) × Database
  pub insert_many : Collection → List Document → Database → ManyReply × Database
  pub update_one : Collection → Update → Database → Reply (Unit {0}) × Database
  pub bulk_write : Collection → List Update → Database → Reply (Unit {0}) × Database
  pub find_one : Collection → Document → Database → FindReply
  pub find : Collection → Document → Database → Reply (List Document)
  pub find_newest : Collection → Document → String → Option ℕ → Database → Reply (List Document)
  pub count_documents : Collection → Document → Database → Reply ℕ

-- What an update of one document may do to a collection.
pub data Updates (u : Update) (before after : List Document) : Type 0 where
  changed :
      (front back : List Document) (doc : Document)
      → before ≡ front ++ doc ∷ back
      → meets u.filter doc ≡ true
      → after ≡ front ++ merge u.set doc ∷ back
      → Updates u before after
  inserted :
      select (meets u.filter) before ≡ []
      → u.upsert ≡ true
      → after ≡ before ++ merge u.set (merge u.filter []) ∷ []
      → Updates u before after
  unmatched :
      select (meets u.filter) before ≡ []
      → u.upsert ≡ false
      → after ≡ before
      → Updates u before after

-- What a search for one document may find.
pub data Finds (filter : Document) (docs : List Document) : FindReply → Type 0 where
  hit :
      (front back : List Document) (doc : Document)
      → docs ≡ front ++ doc ∷ back
      → meets filter doc ≡ true
      → Finds filter docs (found doc)
  miss : select (meets filter) docs ≡ [] → Finds filter docs no_documents
  broken : Finds filter docs find_failed

-- The documented behaviour. `docs_of` shows the documents of a collection, less the `_id` that the
-- server adds. Which of several documents that match is updated or found is left open, as is the
-- order of equal dates.
pub record MongoLaws (M : Mongo) : Type 0 where
  pub docs_of : M.Database → Collection → List Document
  pub docs-insert_one :
      (c k : Collection) (doc : Document) (d : M.Database)
      → docs_of (M.insert_one c doc d).1 k ≡ (
          if is_done (M.insert_one c doc d).0 && same_collection c k
          then docs_of d k ++ doc ∷ []
          else docs_of d k)
  pub docs-update_one :
      (c : Collection) (u : Update) (d : M.Database)
      → (M.update_one c u d).0 ≡ done tt
      → Updates u (docs_of d c) (docs_of (M.update_one c u d).1 c)
  pub docs-update_one_failed :
      (c : Collection) (u : Update) (d : M.Database)
      → (M.update_one c u d).0 ≡ failed
      → docs_of (M.update_one c u d).1 c ≡ docs_of d c
  pub docs-update_one_other :
      (c k : Collection) (u : Update) (d : M.Database)
      → same_collection c k ≡ false
      → docs_of (M.update_one c u d).1 k ≡ docs_of d k
  pub reply-find_one :
      (c : Collection) (filter : Document) (d : M.Database)
      → Finds filter (docs_of d c) (M.find_one c filter d)
  pub reply-find :
      (c : Collection) (filter : Document) (d : M.Database) (docs : List Document)
      → M.find c filter d ≡ done docs
      → Perm docs (select (meets filter) (docs_of d c))
  pub reply-find_newest :
      (c : Collection) (filter : Document) (field : String) (limit : Option ℕ) (d : M.Database)
      (docs : List Document)
      → M.find_newest c filter field limit d ≡ done docs
      → (ranked : List Document) × Perm ranked (select (meets filter) (docs_of d c))
        × IsNewestFirst field ranked
        × (docs ≡ limited limit ranked)
