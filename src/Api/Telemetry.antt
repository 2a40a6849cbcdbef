-- ===== src/Api/Telemetry.antt =====
-- When the telemetry handler refuses a request, and what it answers when it does not.
use gpu_telemetry_pipeline.Base.{
  ℕ, ◌≤◌, String, true, false, Option, some, List, map, ◌⊎◌, inl, inr, ◌≡◌, ◌≢◌, refl, ap, ◌∙◌,
  length, length-map, arith, str_eq, str_eq_iff, Bool-cases, [], ◌∷◌, ap₂, subst, sym, ◌↔◌,
}
use gpu_telemetry_pipeline.Domain.{TelemetryPoint, Gpu}
use gpu_telemetry_pipeline.Storage.{Storage, TimeFilter}
use gpu_telemetry_pipeline.Api.{
  okay, failed, ErrorResponse, TelemetryListResponse, TelemetryResponse, to_telemetry_response,
  to_telemetry_list_response, match_uuid, match_groups, skip_gpu, skip_char, skip_hex, is_hex,
  Parsers, Query, read_limit, is_after, read_filter, find_telemetry, get_gpu_telemetry,
}

-- A filter that the database may be asked for.
pub record IsBounded (f : TimeFilter) : Type 0 where
  pub limit_range : (n : ℕ) → f.limit ≡ some n → (1 ≤ n) × (n ≤ 10000)
  pub time_range : (s e : ℕ) → f.start_time ≡ some s → f.end_time ≡ some e → s ≤ e

Either-cases : {A B : Type 0} (x : A ⊎ B) → ((a : A) × (x ≡ inl a)) ⊎ ((b : B) × (x ≡ inr b))
Either-cases (inl a) = inl (a, refl)
Either-cases (inr b) = inr (b, refl)

module _ ⦃P : Parsers⦄ where
  read_limit-bounded :
      (text : String) (o : Option ℕ) (n : ℕ)
      → read_limit text ≡ inr o
      → o ≡ some n
      → (1 ≤ n) × (n ≤ 10000)
  unfolding read_limit
  read_limit-bounded text o n h e = (ground (arith, h, e), ground (arith, h, e))

  after-bounded :
      (o p : Option ℕ) (s e : ℕ) → is_after o p ≡ false → o ≡ some s → p ≡ some e → s ≤ e
  after-bounded o p s e h a b = ground (arith, h, a, b)

  -- A query that is accepted gives a filter with a limit from 1 to 10000, if any, and a start that
  -- is not after the end, if it has both.
  pub read_filter-IsBounded :
      (query : Query) (f : TimeFilter) → read_filter query ≡ inr f → IsBounded f
  unfolding read_filter
  read_filter-IsBounded query f h = record {
    limit_range = λ n e.
        let same : read_limit query.limit ≡ inr f.limit = ground (arith, h) in
        read_limit-bounded query.limit f.limit n same e;
    time_range = λ s e p q. ground (arith, h, p, q);
  }

no_empty_uuid : match_uuid "" ≡ false
unfolding match_uuid match_groups skip_gpu skip_char skip_hex is_hex
no_empty_uuid = refl

match_uuid-not_empty : (uuid : String) → match_uuid uuid ≡ true → str_eq uuid "" ≡ false
match_uuid-not_empty uuid h = elim (Bool-cases (str_eq uuid "")) [
  | inl e ↦ absurd (cc (h, no_empty_uuid, (str_eq_iff uuid "").0 e))
  | inr e ↦ e
]

-- An entry of the answer has the fields of its point.
pub record Shows (t : TelemetryPoint) (r : TelemetryResponse) : Type 0 where
  pub gpu_uuid : r.gpu_uuid ≡ t.gpu_uuid
  pub metric_name : r.metric_name ≡ t.metric_name
  pub value : r.value ≡ t.value
  pub timestamp : r.timestamp ≡ t.timestamp
  pub labels_raw : r.labels_raw ≡ t.labels_raw

abbrev pub ShowsAll : List TelemetryPoint → List TelemetryResponse → Type 0
ShowsAll [] [] = Unit
ShowsAll (t ∷ ts) (r ∷ rs) = Shows t r × ShowsAll ts rs
ShowsAll [] (r ∷ rs) = ⊥
ShowsAll (t ∷ ts) [] = ⊥

map-ShowsAll : (ts : List TelemetryPoint) → ShowsAll ts (map to_telemetry_response ts)
unfolding to_telemetry_response
map-ShowsAll [] = tt
map-ShowsAll (t ∷ ts) = (
  record { gpu_uuid = refl; metric_name = refl; value = refl; timestamp = refl; labels_raw = refl },
  map-ShowsAll ts,
)

shown : (t : TelemetryPoint) (r : TelemetryResponse) → Shows t r → r ≡ to_telemetry_response t
unfolding to_telemetry_response
shown t r s = λ i. record {
  gpu_uuid = s.gpu_uuid i;
  metric_name = s.metric_name i;
  value = s.value i;
  timestamp = s.timestamp i;
  labels_raw = s.labels_raw i;
}

ShowsAll-map :
    (ts : List TelemetryPoint) (rs : List TelemetryResponse)
    → ShowsAll ts rs
    → rs ≡ map to_telemetry_response ts
ShowsAll-map [] [] s = refl
ShowsAll-map (t ∷ ts) (r ∷ rs) s = ap₂ (λ x xs. x ∷ xs) (shown t r s.0) (ShowsAll-map ts rs s.1)
ShowsAll-map [] (r ∷ rs) s = absurd s
ShowsAll-map (t ∷ ts) [] s = absurd s

module _ {D : Type 0} ⦃R : Storage D⦄ where
  find_telemetry-ne-400 :
      (uuid : String) (f : TimeFilter) (d : D) (e : ErrorResponse)
      → find_telemetry uuid f d ≢ failed 400 e
  unfolding find_telemetry
  find_telemetry-ne-400 uuid f d e h = ground (arith, h)

  -- What a full answer rests on: a valid request, a GPU that is known, and the points that the
  -- database gives for that GPU and the request's filter, each in its place.
  pub record Answers ⦃P : Parsers⦄ (uuid : String) (query : Query) (d : D)
      (r : TelemetryListResponse) : Type 0 where
    pub valid_uuid : match_uuid uuid ≡ true
    pub filter : TimeFilter
    pub valid_query : read_filter query ≡ inr filter
    pub gpu : Gpu
    pub gpu_known : R.get_by_uuid uuid d ≡ inr gpu
    pub points : List TelemetryPoint
    pub points_given : R.get_by_gpu uuid filter d ≡ inr points
    pub metrics_are : ShowsAll points r.metrics
    pub total_is : r.total ≡ length points
    pub gpu_is : r.gpu_uuid ≡ uuid
    pub times_are : (r.start_time ≡ filter.start_time) × (r.end_time ≡ filter.end_time)

module _ ⦃P : Parsers⦄ {D D' : Type 0} where
  -- A request that is answered with 400 over one database is answered with the same 400 over any
  -- other: a fault in the request comes before an unknown GPU and before a database that fails.
  pub get_gpu_telemetry-400 :
      (R : Storage D) (R' : Storage D') (uuid : String) (query : Query) (d : D) (d' : D')
      (e : ErrorResponse)
      → get_gpu_telemetry ⦃R = R⦄ uuid query d ≡ failed 400 e
      → get_gpu_telemetry ⦃R = R'⦄ uuid query d' ≡ failed 400 e
  unfolding get_gpu_telemetry
  get_gpu_telemetry-400 R R' uuid query d d' e h = elim (Either-cases (read_filter query)) [
    | inl (f, a) ↦ ground (arith, h, a)
    | inr (f, a) ↦ ground (arith, h, a, find_telemetry-ne-400 ⦃R = R⦄ uuid f d e)
  ]

module _ ⦃P : Parsers⦄ {D : Type 0} ⦃R : Storage D⦄ where
  Answers-of :
      (uuid : String) (query : Query) (d : D) (r : TelemetryListResponse)
      → get_gpu_telemetry uuid query d ≡ okay r
      → Answers uuid query d r
  unfolding get_gpu_telemetry find_telemetry to_telemetry_list_response
  Answers-of uuid query d r h = elim (Either-cases (read_filter query)) [
    | inl (e, a) ↦ absurd (ground (arith, h, a))
    | inr (f, a) ↦ elim (Either-cases (R.get_by_uuid uuid d)) [
      | inl (e, b) ↦ absurd (ground (arith, h, a, b))
      | inr (g, b) ↦ elim (Either-cases (R.get_by_gpu uuid f d)) [
        | inl (e, c) ↦ absurd (ground (arith, h, a, b, c))
        | inr (ts, c) ↦
            let body : r ≡ record (to_telemetry_list_response ts uuid) {
              start_time = f.start_time;
              end_time = f.end_time;
            } =
              ground (arith, h, a, b, c) in
            record {
              valid_uuid = ground (arith, h, a, b, c);
              filter = f;
              valid_query = a;
              gpu = g;
              gpu_known = b;
              points = ts;
              points_given = c;
              metrics_are =
                  subst (ShowsAll ts) (sym (ap (λ (x : TelemetryListResponse). x.metrics) body))
                    (map-ShowsAll ts);
              gpu_is = ap (λ (x : TelemetryListResponse). x.gpu_uuid) body;
              total_is =
                  ap (λ (x : TelemetryListResponse). x.total) body
                  ∙ length-map to_telemetry_response ts;
              times_are = (
                ap (λ (x : TelemetryListResponse). x.start_time) body,
                ap (λ (x : TelemetryListResponse). x.end_time) body,
              );
            }
      ]
    ]
  ]

  okay-of :
      (uuid : String) (query : Query) (d : D) (r : TelemetryListResponse)
      → Answers uuid query d r
      → get_gpu_telemetry uuid query d ≡ okay r
  unfolding get_gpu_telemetry find_telemetry to_telemetry_list_response
  okay-of uuid query d r a =
      let shown_as = ShowsAll-map a.points r.metrics a.metrics_are in
      let body : record {
        metrics = map to_telemetry_response a.points;
        total = length (map to_telemetry_response a.points);
        gpu_uuid = uuid;
        start_time = a.filter.start_time;
        end_time = a.filter.end_time;
      }
          ≡ r =
        λ i. record {
          metrics = sym shown_as i;
          total = (length-map to_telemetry_response a.points ∙ sym a.total_is) i;
          gpu_uuid = sym a.gpu_is i;
          start_time = sym a.times_are.0 i;
          end_time = sym a.times_are.1 i;
        } in
      rw
        (
          match_uuid-not_empty uuid a.valid_uuid,
          a.valid_uuid,
          a.valid_query,
          find_telemetry,
          a.gpu_known,
          a.points_given,
        )
        (ap okay body)

  -- A request is answered with 200 and a body exactly when its UUID and its query are valid, its GPU is
  -- known, the database gives points of that GPU for the filter, and the body lists these, each with
  -- its fields, in the database's order, with their number, the UUID and the filter's two times.
  pub get_gpu_telemetry-Answers :
      (uuid : String) (query : Query) (d : D) (r : TelemetryListResponse)
      → (get_gpu_telemetry uuid query d ≡ okay r) ↔ Answers uuid query d r
  get_gpu_telemetry-Answers uuid query d r = (Answers-of uuid query d r, okay-of uuid query d r)
