-- ===== src/Parser.antt =====
-- internal/parser/csv_parser.go: columns by name, rows to records, records to the domain.
-- Splitting the file into rows of texts is `encoding/csv`; a reader is the rows that it yields.
pub mod Columns
pub mod Reader
pub mod Rows
pub mod Tests
use Prim.Native.Char.{code}
use gpu_telemetry_pipeline.Base.{
  ℕ, suc, zero, ◌+◌, String, Bool, true, false, ◌&&◌, ◌||◌, Option, none, some, List, [], ◌∷◌,
  str_eq, ◌==◌, leb, if◌then◌else◌, Dict, lookup, insert, length, get_elem?,
}
use gpu_telemetry_pipeline.Domain.{TelemetryPoint, Gpu}

-- `unicode.IsSpace`.
unfoldable pub is_space : ℕ → Bool
is_space c =
    leb 9 c && leb c 13
    || c == 32
    || c == 133
    || c == 160
    || c == 5760
    || leb 8192 c && leb c 8202
    || c == 8232
    || c == 8233
    || c == 8239
    || c == 8287
    || c == 12288

unfoldable pub trim_left : String → String
trim_left String.[] = ""
trim_left (String.◌∷◌ c s) = if is_space (code c) then trim_left s else String.◌∷◌ c s

-- A space that only spaces follow goes.
unfoldable pub trim_end : ℕ → String → String → String
trim_end c String.[] s = if is_space c then "" else s
trim_end c (String.◌∷◌ d r) s = s

unfoldable pub trim_right : String → String
trim_right String.[] = ""
trim_right (String.◌∷◌ c s) = let r = trim_right s in trim_end (code c) r (String.◌∷◌ c r)

-- `strings.TrimSpace`.
unfoldable pub trim_space : String → String
unfolding trim_left trim_right trim_end is_space
trim_space s = trim_right (trim_left s)

pub record CsvRecord : Type 0 where
  pub timestamp : String
  pub metric_name : String
  pub gpu_id : String
  pub device : String
  pub uuid : String
  pub model_name : String
  pub hostname : String
  pub container : String
  pub pod : String
  pub namespace : String
  pub value : String
  pub labels_raw : String

pub data ParseError : Type 0 where
  invalid_input header_not_parsed missing_fields : ParseError
  missing_column : String → ParseError

pub record CsvParser : Type 0 where
  pub header_map : Dict ℕ

unfoldable pub new_csv_parser : CsvParser
new_csv_parser = record { header_map = [] }

unfoldable pub index_columns : ℕ → List String → Dict ℕ → Dict ℕ
index_columns i [] m = m
index_columns i (col ∷ cols) m = index_columns (i + 1) cols (insert (trim_space col) i m)

abbrev pub required : List String
required =
    "timestamp" ∷ "metric_name" ∷ "gpu_id" ∷ "device" ∷ "uuid" ∷ "modelName" ∷ "Hostname" ∷ "value"
    ∷ []

-- The first required column that the map lacks.
unfoldable pub find_missing : List String → Dict ℕ → Option ParseError
find_missing [] m = none
find_missing (col ∷ cols) m = elim (lookup col m) [
  | none ↦ some (missing_column col)
  | some i ↦ find_missing cols m
]

-- The parser keeps the columns of a header that it refuses.
unfoldable pub parse_header : CsvParser → List String → Option ParseError × CsvParser
parse_header p [] = (some invalid_input, p)
parse_header p (col ∷ cols) =
    let m = index_columns 0 (col ∷ cols) p.header_map in
    (find_missing required m, record p { header_map = m })

abbrev pub cell : Option String → String
cell none = ""
cell (some text) = trim_space text

unfoldable pub get_col : Dict ℕ → List String → String → String
get_col m row name = elim (lookup name m) [ none ↦ "" | some idx ↦ cell (get_elem? row idx) ]

abbrev pub csv_record : Dict ℕ → List String → CsvRecord
csv_record m row = record {
  timestamp = get_col m row "timestamp";
  metric_name = get_col m row "metric_name";
  gpu_id = get_col m row "gpu_id";
  device = get_col m row "device";
  uuid = get_col m row "uuid";
  model_name = get_col m row "modelName";
  hostname = get_col m row "Hostname";
  container = get_col m row "container";
  pod = get_col m row "pod";
  namespace = get_col m row "namespace";
  value = get_col m row "value";
  labels_raw = get_col m row "labels_raw";
}

pub data Parsed : Type 0 where
  parsed : CsvRecord → Parsed
  rejected : ParseError → Parsed

unfoldable pub validate_record : CsvRecord → Parsed
validate_record r =
    if str_eq r.uuid "" || str_eq r.metric_name "" then rejected missing_fields else parsed r

unfoldable pub parse_row : CsvParser → List String → Parsed
unfolding validate_record
parse_row p [] = rejected invalid_input
parse_row p (text ∷ row) =
    if length p.header_map == 0
    then rejected header_not_parsed
    else validate_record (csv_record p.header_map (text ∷ row))

-- The streamer sets the timestamp and the batch.
unfoldable pub to_telemetry_point : CsvRecord → TelemetryPoint
to_telemetry_point r = record {
  gpu_uuid = r.uuid;
  metric_name = r.metric_name;
  value = r.value;
  timestamp = 0;
  batch_id = "";
  labels_raw = r.labels_raw;
}

unfoldable pub to_gpu : CsvRecord → Gpu
to_gpu r = record {
  uuid = r.uuid;
  model_name = r.model_name;
  hostname = r.hostname;
  device_id = r.device;
  gpu_index = r.gpu_id;
  container = r.container;
  pod = r.pod;
  namespace = r.namespace;
}
