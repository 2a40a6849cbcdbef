-- ===== src/MongoRepository/Query.antt =====
-- What `GetByGPU` asks MongoDB for, and what it gives back.
use mathlib.Core.List.{Perm}
use mathlib.Core.List.Perm
use gpu_telemetry_pipeline.Base.{
  ℕ, zero, suc, ◌*◌, ◌≤◌, String, Bool, true, ◌&&◌, Option, none, some, List, [], ◌∷◌, map, ◌⊎◌,
  inl, inr, ◌≡◌, refl, ap, ap₂, subst, Bool-cases, ◌∙◌, str_eq, str_eq_iff, leb, lookup, insert,
  select, take, arith,
}
use gpu_telemetry_pipeline.Domain.{TelemetryPoint}
use gpu_telemetry_pipeline.Storage.{TimeFilter}
use gpu_telemetry_pipeline.Mongo.{
  Document, Collection, Reply, done, failed, Mongo, MongoLaws, meets, value_holds, operators_hold,
  operator_holds, limited, IsNewestFirst, date_of,
}
use gpu_telemetry_pipeline.MongoRepository.{
  to_date, of_date, encode_point, decode_point, query_filter, get_by_gpu,
}

Reply-cases : {A : Type 0} (r : Reply A) → (r ≡ failed) ⊎ ((a : A) × (r ≡ done a))
Reply-cases (done a) = inr (a, refl)
Reply-cases failed = inl refl

-- A point as the database keeps it: its time cut to the millisecond.
abbrev pub kept : TelemetryPoint → TelemetryPoint
kept t = record t { timestamp = of_date (to_date t.timestamp) }

-- Storing a point and reading it back gives the point, its time cut to the millisecond.
pub decode-encode_point : (t : TelemetryPoint) → decode_point (encode_point t) ≡ kept t
unfolding decode_point encode_point lookup
decode-encode_point t = ground (arith, str_eq_iff t.batch_id "", str_eq_iff t.labels_raw "")

abbrev pub not_before : Option ℕ → ℕ → Bool
not_before none t = true
not_before (some s) t = leb (to_date s) (to_date t)

abbrev pub not_after : Option ℕ → ℕ → Bool
not_after none t = true
not_after (some e) t = leb (to_date t) (to_date e)

-- The points that a request means: of the GPU, and in the time range to the millisecond.
abbrev pub is_meant : String → TimeFilter → TelemetryPoint → Bool
is_meant uuid f t =
    str_eq t.gpu_uuid uuid
    && not_before f.start_time t.timestamp
    && not_after f.end_time t.timestamp

-- The filter that is sent to MongoDB matches the document of a point exactly when the point is meant.
pub meets-query_filter :
    (uuid : String) (f : TimeFilter) (t : TelemetryPoint)
    → meets (query_filter uuid f) (encode_point t) ≡ is_meant uuid f t
unfolding meets query_filter encode_point value_holds operators_hold operator_holds lookup insert
meets-query_filter uuid f t = ground arith

select-encode_point :
    (uuid : String) (f : TimeFilter) (ts : List TelemetryPoint)
    → select (meets (query_filter uuid f)) (map encode_point ts)
      ≡ map encode_point (select (is_meant uuid f) ts)
select-encode_point uuid f [] = refl
select-encode_point uuid f (t ∷ ts) = elim (Bool-cases (is_meant uuid f t)) [
  | inl e ↦
      rw (meets-query_filter uuid f t, e)
        (ap (λ l. encode_point t ∷ l) (select-encode_point uuid f ts))
  | inr e ↦ rw (meets-query_filter uuid f t, e) (select-encode_point uuid f ts)
]

map-decode_point : (ts : List TelemetryPoint) → map decode_point (map encode_point ts) ≡ map kept ts
map-decode_point [] = refl
map-decode_point (t ∷ ts) = ap₂ ◌∷◌ (decode-encode_point t) (map-decode_point ts)

-- No point of the list comes before a newer one.
abbrev pub NotNewer : TelemetryPoint → List TelemetryPoint → Type 0
NotNewer t [] = Unit
NotNewer t (u ∷ us) = u.timestamp ≤ t.timestamp

abbrev pub NewestFirst : List TelemetryPoint → Type 0
NewestFirst [] = Unit
NewestFirst (t ∷ ts) = NotNewer t ts × NewestFirst ts

timestamp-decode_point :
    (doc : Document) → (decode_point doc).timestamp ≡ date_of (lookup "timestamp" doc) * 1000000
unfolding decode_point
timestamp-decode_point doc = ground arith

NewestFirst-decode_point :
    (docs : List Document) → IsNewestFirst "timestamp" docs → NewestFirst (map decode_point docs)
NewestFirst-decode_point [] s = tt
NewestFirst-decode_point (x ∷ []) s = (tt, tt)
NewestFirst-decode_point (x ∷ y ∷ docs) s = (
  omega (arith, s.0, timestamp-decode_point x, timestamp-decode_point y),
  NewestFirst-decode_point (y ∷ docs) s.1,
)

map-take : {A B : Type 0} (g : A → B) (n : ℕ) (xs : List A) → map g (take n xs) ≡ take n (map g xs)
map-take g zero xs = refl
map-take g (suc n) [] = refl
map-take g (suc n) (x ∷ xs) = ap (λ l. g x ∷ l) (map-take g n xs)

map-limited :
    {A B : Type 0} (g : A → B) (n : Option ℕ) (xs : List A)
    → map g (limited n xs) ≡ limited n (map g xs)
map-limited g none xs = refl
map-limited g (some zero) xs = refl
map-limited g (some (suc n)) xs = map-take g (suc n) xs

-- What a request for points gives, of the points `ts` that were stored.
pub record Reads (uuid : String) (f : TimeFilter) (ts rs : List TelemetryPoint) : Type 0 where
  pub ranked : List TelemetryPoint
  pub all_meant : Perm ranked (map kept (select (is_meant uuid f) ts))
  pub newest_first : NewestFirst ranked
  pub first_ones : rs ≡ limited f.limit ranked

module _ ⦃M : Mongo⦄ (L : MongoLaws M) where
  -- A request that returns no error gives the points meant, each once for each time it was stored, cut
  -- to the millisecond, newest first; with a limit, the newest of them up to the limit.
  pub get_by_gpu-Reads :
      (c : Collection) (uuid : String) (f : TimeFilter) (d : M.Database)
      (ts rs : List TelemetryPoint)
      → L.docs_of d c ≡ map encode_point ts
      → get_by_gpu c uuid f d ≡ inr rs
      → Reads uuid f ts rs
  unfolding get_by_gpu
  get_by_gpu-Reads c uuid f d ts rs stored h =
      elim (Reply-cases (M.find_newest c (query_filter uuid f) "timestamp" f.limit d)) [
        | inl e ↦ absurd (ground (arith, e, h))
        | inr (docs, e) ↦
            let (ranked, same, sorted, first) =
              L.reply-find_newest c (query_filter uuid f) "timestamp" f.limit d docs e in
            let meant : select (meets (query_filter uuid f)) (L.docs_of d c)
                ≡ map encode_point (select (is_meant uuid f) ts) =
              ap (select (meets (query_filter uuid f))) stored ∙ select-encode_point uuid f ts in
            record {
              ranked = map decode_point ranked;
              all_meant =
                  subst (λ l. Perm (map decode_point ranked) l)
                    (ap (map decode_point) meant ∙ map-decode_point (select (is_meant uuid f) ts))
                    (Perm.map decode_point same);
              newest_first = NewestFirst-decode_point ranked sorted;
              first_ones =
                  ground (arith, e, h)
                  ∙ ap (map decode_point) first
                  ∙ map-limited decode_point f.limit ranked;
            }
      ]
