-- ===== src/Api.antt =====
-- internal/api: the gateway's handlers and their data. Gin routes a request to its handler and gives
-- it the path's UUID and the query's texts; time.Parse and strconv.Atoi are the record `Parsers`.
-- The time of an error response is left out.
pub mod Telemetry
pub mod Tests
use gpu_telemetry_pipeline.Base.{
  ℕ, suc, zero, ◌+◌, ℤ, pos, negsuc, String, Bool, true, false, not, ◌&&◌, ◌||◌, Option, none, some,
  List, [], ◌∷◌, map, ◌⊎◌, inl, inr, str_eq, ltb, leb, ◌==◌, if◌then◌else◌, length, concat,
}
use Prim.Native.Char.{code}
use gpu_telemetry_pipeline.Domain.{TelemetryPoint, Gpu, DomainError, gpu_not_found}
use gpu_telemetry_pipeline.Storage.{Storage, TimeFilter, RepositoryError, known, driver_failed}

pub record GpuResponse : Type 0 where
  pub uuid : String
  pub device_id : String
  pub gpu_index : String
  pub model_name : String
  pub hostname : String
  pub container : String
  pub pod : String
  pub namespace : String

pub record GpuListResponse : Type 0 where
  pub gpus : List GpuResponse
  pub total : ℕ

pub record TelemetryResponse : Type 0 where
  pub gpu_uuid : String
  pub metric_name : String
  pub value : String
  pub timestamp : ℕ
  pub labels_raw : String

pub record TelemetryListResponse : Type 0 where
  pub metrics : List TelemetryResponse
  pub total : ℕ
  pub gpu_uuid : String
  pub start_time : Option ℕ
  pub end_time : Option ℕ

pub record ErrorResponse : Type 0 where
  pub error : String
  pub message : String

-- `c.JSON(status, body)`: 200 with a body, or another status with an error.
pub data Response {ℓ} (A : Type ℓ) : Type ℓ where
  okay : A → Response A
  failed : ℕ → ErrorResponse → Response A

unfoldable pub to_gpu_response : Gpu → GpuResponse
to_gpu_response g = record {
  uuid = g.uuid;
  device_id = g.device_id;
  gpu_index = g.gpu_index;
  model_name = g.model_name;
  hostname = g.hostname;
  container = g.container;
  pod = g.pod;
  namespace = g.namespace;
}

unfoldable pub to_gpu_list_response : List Gpu → GpuListResponse
to_gpu_list_response gs =
    let responses = map to_gpu_response gs in record { gpus = responses; total = length responses }

unfoldable pub to_telemetry_response : TelemetryPoint → TelemetryResponse
to_telemetry_response t = record {
  gpu_uuid = t.gpu_uuid;
  metric_name = t.metric_name;
  value = t.value;
  timestamp = t.timestamp;
  labels_raw = t.labels_raw;
}

unfoldable pub to_telemetry_list_response : List TelemetryPoint → String → TelemetryListResponse
to_telemetry_list_response ts uuid =
    let responses = map to_telemetry_response ts in
    record {
      metrics = responses;
      total = length responses;
      gpu_uuid = uuid;
      start_time = none;
      end_time = none;
    }

-- `[0-9a-fA-F]`.
unfoldable pub is_hex : ℕ → Bool
is_hex c = leb 48 c && leb c 57 || leb 97 c && leb c 102 || leb 65 c && leb c 70

-- What follows `n` hexadecimal digits.
unfoldable pub skip_hex : ℕ → String → Option String
skip_hex zero s = some s
skip_hex (suc n) String.[] = none
skip_hex (suc n) (String.◌∷◌ c s) = if is_hex (code c) then skip_hex n s else none

unfoldable pub skip_char : ℕ → String → Option String
skip_char d String.[] = none
skip_char d (String.◌∷◌ c s) = if code c == d then some s else none

abbrev pub at_end : Option String → Bool
at_end none = false
at_end (some s) = str_eq s ""

-- Groups of digits with a dash between two.
unfoldable pub match_groups : ℕ → List ℕ → String → Bool
match_groups n [] s = at_end (skip_hex n s)
match_groups n (k ∷ ks) s = elim (skip_hex n s) [
  | none ↦ false
  | some rest ↦ elim (skip_char b'-' rest) [ none ↦ false | some more ↦ match_groups k ks more ]
]

unfoldable pub skip_gpu : String → Option String
skip_gpu s = elim (skip_char b'G' s) [
  | none ↦ none
  | some s ↦ elim (skip_char b'P' s) [
    | none ↦ none
    | some s ↦ elim (skip_char b'U' s) [ none ↦ none | some s ↦ skip_char b'-' s ]
  ]
]

-- `uuidRegex.MatchString`.
unfoldable pub match_uuid : String → Bool
match_uuid s =
    match_groups 8 (4 ∷ 4 ∷ 4 ∷ 12 ∷ []) s
    || elim (skip_gpu s) [ none ↦ false | some rest ↦ match_groups 8 (4 ∷ 4 ∷ 4 ∷ 12 ∷ []) rest ]

pub record Parsers : Type 0 where
  pub parse_time : String → Option ℕ
  pub atoi : String → Option ℤ

-- The query's texts, empty where there are none.
pub record Query : Type 0 where
  pub start_time : String
  pub end_time : String
  pub limit : String

abbrev pub refuse : String → String → ErrorResponse
refuse error message = record { error = error; message = message }

module _ ⦃P : Parsers⦄ where
  unfoldable pub read_time : String → String → ErrorResponse ⊎ Option ℕ
  read_time name s = if str_eq s "" then inr none else elim (P.parse_time s) [
    | none ↦ inl (
        refuse (concat ("Invalid " ∷ name ∷ " format" ∷ []))
          (concat ("Use RFC3339 format (e.g., 2023-01-01T00:00:00Z). Got: " ∷ s ∷ [])))
    | some t ↦ inr (some t)
  ]

  abbrev pub check_limit : String → ℕ → ErrorResponse ⊎ Option ℕ
  check_limit title n =
      if ltb n 1
      then inl (refuse title "limit must be greater than 0")
      else if ltb 10000 n
      then inl (refuse title "limit must not exceed 10000")
      else inr (some n)

  unfoldable pub read_limit : String → ErrorResponse ⊎ Option ℕ
  read_limit s =
      let title : String = "Invalid limit parameter" in
      if str_eq s "" then inr none else elim (P.atoi s) [
        | none ↦ inl (refuse title (concat ("limit must be a valid integer. Got: " ∷ s ∷ [])))
        | some n ↦ elim n [
          | negsuc k ↦ inl (refuse title "limit must be greater than 0")
          | pos k ↦ check_limit title k
        ]
      ]

  -- `start.After(end)`, when both are there.
  abbrev pub is_after : Option ℕ → Option ℕ → Bool
  is_after (some s) (some e) = ltb e s
  is_after _ _ = false

  -- The filter of a query, or why it is refused: the first fault in the handler's order.
  unfoldable pub read_filter : Query → ErrorResponse ⊎ TimeFilter
  read_filter query = elim (read_time "start_time" query.start_time) [
    | inl e ↦ inl e
    | inr start_time ↦ elim (read_time "end_time" query.end_time) [
      | inl e ↦ inl e
      | inr end_time ↦
          if is_after start_time end_time
          then inl (refuse "Invalid time range" "start_time must be before end_time")
          else elim (read_limit query.limit) [
            | inl e ↦ inl e
            | inr limit ↦
                inr (record { start_time = start_time; end_time = end_time; limit = limit })
          ]
    ]
  ]

abbrev pub is_not_found : RepositoryError → Bool
is_not_found (known gpu_not_found) = true
is_not_found _ = false

abbrev pub not_found_response : String → ErrorResponse
not_found_response uuid = refuse "GPU not found" (concat ("No GPU found with UUID: " ∷ uuid ∷ []))

module _ {D : Type 0} ⦃R : Storage D⦄ where
  unfoldable pub list_gpus : D → Response GpuListResponse
  list_gpus d = elim (R.list_gpus d) [
    | inl e ↦
        failed 500 (
          refuse "Failed to retrieve GPUs" "Internal server error occurred while fetching GPU list")
    | inr gs ↦ okay (to_gpu_list_response gs)
  ]

  unfoldable pub get_gpu : String → D → Response GpuResponse
  get_gpu uuid d =
      if str_eq uuid ""
      then failed 400 (refuse "Invalid request" "GPU UUID is required")
      else elim (R.get_by_uuid uuid d) [
        | inl e ↦
            if is_not_found e
            then failed 404 (not_found_response uuid)
            else failed 500 (refuse "Failed to retrieve GPU" "Internal server error occurred")
        | inr g ↦ okay (to_gpu_response g)
      ]

  -- The handler from the point where the request is known to be valid.
  unfoldable pub find_telemetry : String → TimeFilter → D → Response TelemetryListResponse
  find_telemetry uuid filter d = elim (R.get_by_uuid uuid d) [
    | inl e ↦
        if is_not_found e
        then failed 404 (not_found_response uuid)
        else failed 500
            (refuse "Failed to verify GPU" "Internal server error occurred while verifying GPU")
    | inr g ↦ elim (R.get_by_gpu uuid filter d) [
      | inl e ↦ failed 500 (
          refuse "Failed to retrieve telemetry data"
            "Internal server error occurred while fetching telemetry")
      | inr ts ↦ okay (record (to_telemetry_list_response ts uuid) {
        start_time = filter.start_time;
        end_time = filter.end_time;
      })
    ]
  ]

  unfoldable pub get_gpu_telemetry :
      ⦃P : Parsers⦄ → String → Query → D → Response TelemetryListResponse
  get_gpu_telemetry uuid query d =
      if str_eq uuid ""
      then failed 400 (refuse "Invalid request" "GPU UUID is required")
      else if not (match_uuid uuid)
      then failed 400 (
          refuse "Invalid UUID format"
            "UUID must be in format: xxxxxxxx-xxxx-xxxx-xxxx-xxxxxxxxxxxx or GPU-xxxxxxxx-xxxx-xxxx-xxxx-xxxxxxxxxxxx")
      else elim (read_filter query) [
        | inl e ↦ failed 400 e
        | inr filter ↦ find_telemetry uuid filter d
      ]
