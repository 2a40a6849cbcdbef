-- ===== src/Mongo/Memory.antt =====
-- A database in memory that meets what is assumed of MongoDB: the first document that matches is
-- updated or found, and a search for the newest sorts by insertion.
use mathlib.Core.List.{Perm}
use mathlib.Core.List.Perm
use gpu_telemetry_pipeline.Base.{
  ℕ, ◌≤◌, String, true, false, List, [], ◌∷◌, ◌++◌, ◌≡◌, ◌≢◌, refl, subst, sym, ap, str_eq_iff, leb,
  leb→le, if◌then◌else◌, lookup, select, length, Bool-cases, inl, inr, arith,
}
use gpu_telemetry_pipeline.Mongo.{
  Document, Collection, same_collection, Reply, done, failed, FindReply, found, no_documents,
  all_done, Update, meets, merge, limited, date_of, IsNotNewer, IsNewestFirst, Mongo, MongoLaws,
  Updates, Finds,
}

abbrev pub Tables : Type 0
Tables = Collection → List Document

abbrev pub empty : Tables
empty c = []

abbrev pub put_at : Tables → Collection → List Document → Tables
put_at d c docs k = if same_collection c k then docs else d k

unfoldable pub update_first : Update → List Document → List Document
update_first u [] = if u.upsert then merge u.set (merge u.filter []) ∷ [] else []
update_first u (x ∷ xs) = if meets u.filter x then merge u.set x ∷ xs else x ∷ update_first u xs

unfoldable pub update_all : List Update → List Document → List Document
update_all [] docs = docs
update_all (u ∷ us) docs = update_all us (update_first u docs)

unfoldable pub find_first : Document → List Document → FindReply
find_first filter [] = no_documents
find_first filter (x ∷ xs) = if meets filter x then found x else find_first filter xs

abbrev pub date_in : String → Document → ℕ
date_in field doc = date_of (lookup field doc)

unfoldable pub put_newest : String → Document → List Document → List Document
put_newest field x [] = x ∷ []
put_newest field x (y ∷ ys) =
    if leb (date_in field y) (date_in field x) then x ∷ y ∷ ys else y ∷ put_newest field x ys

unfoldable pub rank : String → List Document → List Document
rank field [] = []
rank field (x ∷ xs) = put_newest field x (rank field xs)

put_newest-perm :
    (field : String) (x : Document) (ys : List Document) → Perm (put_newest field x ys) (x ∷ ys)
unfolding put_newest
put_newest-perm field x [] = Perm.rfl
put_newest-perm field x (y ∷ ys) = elim (Bool-cases (leb (date_in field y) (date_in field x))) [
  | inl e ↦ rw e Perm.rfl
  | inr e ↦ rw e (Perm.trans (Perm.cons y (put_newest-perm field x ys)) (Perm.swap x y ys))
]

pub rank-perm : (field : String) (xs : List Document) → Perm (rank field xs) xs
unfolding rank
rank-perm field [] = Perm.rfl
rank-perm field (x ∷ xs) =
    Perm.trans (put_newest-perm field x (rank field xs)) (Perm.cons x (rank-perm field xs))

IsNotNewer-put_newest :
    (field : String) (y x : Document) (ys : List Document)
    → date_in field x ≤ date_in field y
    → IsNotNewer field y ys
    → IsNotNewer field y (put_newest field x ys)
unfolding put_newest
IsNotNewer-put_newest field y x [] h s = h
IsNotNewer-put_newest field y x (z ∷ ys) h s =
    elim (Bool-cases (leb (date_in field z) (date_in field x))) [ inl e ↦ rw e h | inr e ↦ rw e s ]

IsNewestFirst-put_newest :
    (field : String) (x : Document) (ys : List Document)
    → IsNewestFirst field ys
    → IsNewestFirst field (put_newest field x ys)
unfolding put_newest
IsNewestFirst-put_newest field x [] s = (tt, tt)
IsNewestFirst-put_newest field x (y ∷ ys) s =
    elim (Bool-cases (leb (date_in field y) (date_in field x))) [
      | inl e ↦ rw e (leb→le _ _ e, s)
      | inr e ↦ rw e (
        IsNotNewer-put_newest field y x ys (ground (arith, e)) s.0,
        IsNewestFirst-put_newest field x ys s.1,
      )
    ]

pub IsNewestFirst-rank : (field : String) (xs : List Document) → IsNewestFirst field (rank field xs)
unfolding rank
IsNewestFirst-rank field [] = tt
IsNewestFirst-rank field (x ∷ xs) =
    IsNewestFirst-put_newest field x (rank field xs) (IsNewestFirst-rank field xs)

further :
    (u : Update) (x : Document) (xs ys : List Document)
    → meets u.filter x ≡ false
    → Updates u xs ys
    → Updates u (x ∷ xs) (x ∷ ys)
further u x xs ys e (Updates.changed front back doc split hit result) =
    Updates.changed (x ∷ front) back doc (ap (λ l. x ∷ l) split) hit (ap (λ l. x ∷ l) result)
further u x xs ys e (Updates.inserted nothing upsert result) =
    Updates.inserted (rw e nothing) upsert (ap (λ l. x ∷ l) result)
further u x xs ys e (Updates.unmatched nothing upsert result) =
    Updates.unmatched (rw e nothing) upsert (ap (λ l. x ∷ l) result)

find_further :
    (filter : Document) (x : Document) (xs : List Document) (r : FindReply)
    → meets filter x ≡ false
    → Finds filter xs r
    → Finds filter (x ∷ xs) r
find_further filter x xs r e (Finds.hit front back doc split hit) =
    Finds.hit (x ∷ front) back doc (ap (λ l. x ∷ l) split) hit
find_further filter x xs r e (Finds.miss nothing) = Finds.miss (rw e nothing)
find_further filter x xs r e Finds.broken = Finds.broken

pub update_first-Updates :
    (u : Update) (docs : List Document) → Updates u docs (update_first u docs)
unfolding update_first
update_first-Updates u [] = elim (Bool-cases u.upsert) [
  | inl e ↦ simp e (Updates.inserted refl e refl)
  | inr e ↦ simp e (Updates.unmatched refl e refl)
]
update_first-Updates u (x ∷ xs) = elim (Bool-cases (meets u.filter x)) [
  | inl e ↦ rw e (Updates.changed [] xs x refl e refl)
  | inr e ↦ rw e (further u x xs _ e (update_first-Updates u xs))
]

pub find_first-Finds :
    (filter : Document) (docs : List Document) → Finds filter docs (find_first filter docs)
unfolding find_first
find_first-Finds filter [] = Finds.miss refl
find_first-Finds filter (x ∷ xs) = elim (Bool-cases (meets filter x)) [
  | inl e ↦ rw e (Finds.hit [] xs x refl e)
  | inr e ↦ rw e (find_further filter x xs _ e (find_first-Finds filter xs))
]

instance abbrev pub mongo : Mongo
mongo = record {
  Database = Tables;
  insert_one = λ c doc d. (done tt, put_at d c (d c ++ doc ∷ []));
  insert_many = λ c docs d. (all_done, put_at d c (d c ++ docs));
  update_one = λ c u d. (done tt, put_at d c (update_first u (d c)));
  bulk_write = λ c us d. (done tt, put_at d c (update_all us (d c)));
  find_one = λ c filter d. find_first filter (d c);
  find = λ c filter d. done (select (meets filter) (d c));
  find_newest =
      λ c filter field limit d. done (limited limit (rank field (select (meets filter) (d c))));
  count_documents = λ c filter d. done (length (select (meets filter) (d c)));
}

same_self : (c : Collection) → same_collection c c ≡ true
same_self c = ground (arith, str_eq_iff c.database c.database, str_eq_iff c.collection c.collection)

pub put_at_keeps :
    (d : Tables) (c k : Collection) (g : List Document → List Document)
    → put_at d c (g (d c)) k ≡ (if same_collection c k then g (d k) else d k)
put_at_keeps d c k g = elim (Bool-cases (same_collection c k)) [
  | inl e ↦
      let same : c ≡ k =
        ground (arith, e, str_eq_iff c.database k.database, str_eq_iff c.collection k.collection) in
      rw (e, same)
  | inr e ↦ rw e
]

pub done_injective {ℓ} : {A : Type ℓ} {a b : A} → done a ≡ done b → b ≡ a
done_injective e = cc

pub own :
    (d : Tables) (c : Collection) (u : Update)
    → put_at d c (update_first u (d c)) c ≡ update_first u (d c)
own d c u = rw (same_self c)

pub done_ne_failed : ◌≢◌ {A = Reply (Unit {0})} (done tt) failed
done_ne_failed h = cc

abbrev pub mongo-MongoLaws : MongoLaws mongo
mongo-MongoLaws = record {
  docs_of = λ d. d;
  docs-insert_one = λ c k doc d. put_at_keeps d c k (λ l. l ++ doc ∷ []);
  docs-update_one =
      λ c u d h. subst (Updates u (d c)) (sym (own d c u)) (update_first-Updates u (d c));
  docs-update_one_failed = λ c u d h. absurd (done_ne_failed h);
  docs-update_one_other = λ c k u d h. rw h;
  reply-find_one = λ c filter d. find_first-Finds filter (d c);
  reply-find = λ c filter d docs h.
      subst (λ l. Perm l (select (meets filter) (d c))) (sym (done_injective h)) Perm.rfl;
  reply-find_newest = λ c filter field limit d docs h. (
    rank field (select (meets filter) (d c)),
    rank-perm field _,
    IsNewestFirst-rank field _,
    done_injective h,
  );
}
