-- ===== src/Api/Tests.antt =====
-- Requests for telemetry, over an empty database and over one with a GPU and a point.
use gpu_telemetry_pipeline.Base.{
  pos, negsuc, String, true, false, none, some, [], ◌∷◌, inr, ◌≡◌, ◌↔◌, refl, str_eq, if◌then◌else◌,
}
use gpu_telemetry_pipeline.Domain.{TelemetryPoint, Gpu}
use gpu_telemetry_pipeline.Storage.Memory.{Tables, empty_tables, tables, find_gpu}
use gpu_telemetry_pipeline.Api.{
  okay, failed, ErrorResponse, refuse, TelemetryListResponse, Parsers, Query, read_filter,
  read_time, read_limit, get_gpu_telemetry, match_uuid, match_groups, skip_gpu, skip_char, skip_hex,
  is_hex, find_telemetry, to_telemetry_list_response, to_telemetry_response,
}
use gpu_telemetry_pipeline.Api.Telemetry.{
  IsBounded, Answers, read_filter-IsBounded, get_gpu_telemetry-400, get_gpu_telemetry-Answers,
}

instance abbrev parsers : Parsers
parsers = record {
  parse_time = λ s. if str_eq s "2025-01-18T00:00:00Z" then some 5 else none;
  atoi = λ s.
      if str_eq s "100" then some (pos 100) else if str_eq s "-1" then some (negsuc 0) else none;
}

abbrev uuid : String
uuid = "GPU-5fd4f087-86f3-7a43-b711-4771313afc50"

uuid_test :
    (match_uuid uuid ≡ true)
    × (match_uuid "5fd4f087-86f3-7a43-b711-4771313afc50" ≡ true)
    × (match_uuid "GPU-1" ≡ false)
unfolding match_uuid match_groups skip_gpu skip_char skip_hex is_hex
uuid_test = (refl, refl, refl)

abbrev good : Query
good = record { start_time = "2025-01-18T00:00:00Z"; end_time = ""; limit = "100" }

abbrev bad : Query
bad = record { start_time = ""; end_time = ""; limit = "-1" }

abbrev point : TelemetryPoint
point = record {
  gpu_uuid = uuid;
  metric_name = "UTIL";
  value = "85";
  timestamp = 7;
  batch_id = "b";
  labels_raw = "";
}

abbrev gpu : Gpu
gpu = record {
  uuid = uuid;
  device_id = "nvidia0";
  gpu_index = "0";
  model_name = "H100";
  hostname = "host";
  container = "";
  pod = "";
  namespace = "";
}

abbrev full : Tables
full = record { points = point ∷ []; gpus = gpu ∷ [] }

filtered :
    read_filter good ≡ inr (record { start_time = some 5; end_time = none; limit = some 100 })
unfolding read_filter read_time read_limit
filtered = refl

read_filter-IsBounded_example :
    IsBounded (record { start_time = some 5; end_time = none; limit = some 100 })
read_filter-IsBounded_example = read_filter-IsBounded good _ filtered

abbrev answer : TelemetryListResponse
answer = record {
  metrics =
      record { gpu_uuid = uuid; metric_name = "UTIL"; value = "85"; timestamp = 7; labels_raw = "" }
      ∷ [];
  total = 1;
  gpu_uuid = uuid;
  start_time = some 5;
  end_time = none;
}

answered : get_gpu_telemetry uuid good full ≡ okay answer
unfolding get_gpu_telemetry find_telemetry to_telemetry_list_response to_telemetry_response
    match_uuid match_groups skip_gpu skip_char skip_hex is_hex read_filter read_time read_limit
    find_gpu
answered = refl

get_gpu_telemetry-Answers_example :
    (get_gpu_telemetry uuid good full ≡ okay answer) ↔ Answers uuid good full answer
get_gpu_telemetry-Answers_example = get_gpu_telemetry-Answers uuid good full answer

abbrev fault : ErrorResponse
fault = refuse "Invalid limit parameter" "limit must be greater than 0"

refused : get_gpu_telemetry uuid bad full ≡ failed 400 fault
unfolding get_gpu_telemetry match_uuid match_groups skip_gpu skip_char skip_hex is_hex read_filter
    read_time read_limit
refused = refl

get_gpu_telemetry-400_example : get_gpu_telemetry uuid bad empty_tables ≡ failed 400 fault
get_gpu_telemetry-400_example =
    get_gpu_telemetry-400 tables tables uuid bad full empty_tables fault refused
