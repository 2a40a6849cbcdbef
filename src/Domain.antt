-- ===== src/Domain.antt =====
-- internal/domain: telemetry points and GPUs. A `time.Time` is the number of nanoseconds since
-- Go's zero time, so `IsZero` is the test for 0. Metric values stay texts, as in the source.
pub mod Codec
use gpu_telemetry_pipeline.Base.{
  ℕ, ◌/◌, ◌-◌, String, Bool, Option, some, ◌≡◌, List, [], ◌∷◌, str_eq, ◌==◌, concat, if◌then◌else◌,
}

pub record TelemetryPoint : Type 0 where
  pub gpu_uuid : String
  pub metric_name : String
  pub value : String
  pub timestamp : ℕ
  pub batch_id : String
  pub labels_raw : String

pub record Gpu : Type 0 where
  pub uuid : String
  pub device_id : String
  pub gpu_index : String
  pub model_name : String
  pub hostname : String
  pub container : String
  pub pod : String
  pub namespace : String

pub data DomainError : Type 0 where
  not_found already_exists invalid_input internal_error unauthorized forbidden validation_failed
        database_error queue_error parsing_error gpu_not_found :
      DomainError

abbrev pub is_zero : ℕ → Bool
is_zero t = t == 0

-- Seconds between year 1 and 1970.
abbrev pub unix_epoch : ℕ
unix_epoch = 62135596800

-- `t.Unix()` for a time after 1970.
unfoldable pub unix : ℕ → ℕ
unix t = t / 1000000000 - unix_epoch

-- `format` is `t.Format(time.RFC3339Nano)`.
unfoldable pub get_unique_key : (ℕ → String) → TelemetryPoint → String
get_unique_key format t =
    if str_eq t.batch_id ""
    then concat (t.gpu_uuid ∷ ":" ∷ t.metric_name ∷ ":" ∷ format t.timestamp ∷ [])
    else concat (t.gpu_uuid ∷ ":" ∷ t.metric_name ∷ ":" ∷ t.batch_id ∷ [])

unfoldable pub get_composite_key : Gpu → String
get_composite_key g = concat (g.hostname ∷ ":" ∷ g.device_id ∷ [])

-- encoding/json on telemetry points; `none` is an error.
pub record TelemetryJson : Type 0 where
  pub marshal : TelemetryPoint → Option String
  pub unmarshal : String → Option TelemetryPoint

-- What was marshalled reads back.
abbrev pub IsFaithful : TelemetryJson → Type 0
IsFaithful J =
    (t : TelemetryPoint) (bytes : String) → J.marshal t ≡ some bytes → J.unmarshal bytes ≡ some t
