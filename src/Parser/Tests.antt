-- ===== src/Parser/Tests.antt =====
-- A header with spaces and a repeated column, and rows under it.
use gpu_telemetry_pipeline.Base.{
  String, ◌≡◌, ◌≢◌, refl, some, none, List, [], ◌∷◌, ◌↔◌, All, lookup, insert,
}
use gpu_telemetry_pipeline.Parser.{
  CsvParser, parsed, new_csv_parser, trim_space, parse_header, parse_row, required, csv_record,
  missing_column, index_columns, find_missing,
}
use gpu_telemetry_pipeline.Parser.Columns.{find_last, parse_header_iff}
use gpu_telemetry_pipeline.Parser.Rows.{Accepts, parse_row_iff}

abbrev header : List String
header =
    "timestamp" ∷ " metric_name" ∷ "gpu_id" ∷ "device" ∷ "uuid " ∷ "modelName" ∷ "Hostname"
    ∷ "value" ∷ "uuid" ∷ []

trim_space_test : trim_space " \t a b \n" ≡ "a b"
unfolding trim_space
trim_space_test = refl

parse_header_iff_example :
    ((parse_header new_csv_parser header).0 ≡ none)
    ↔ ((header ≢ []) × All (λ col. find_last col header ≢ none) required)
parse_header_iff_example = parse_header_iff header

refused : (parse_header new_csv_parser ("uuid" ∷ [])).0 ≡ some (missing_column "timestamp")
unfolding parse_header new_csv_parser index_columns find_missing lookup insert trim_space
refused = refl

abbrev two_columns : CsvParser
two_columns = record { header_map = ("uuid", 0) ∷ ("metric_name", 1) ∷ [] }

abbrev row : List String
row = "GPU-1 " ∷ "DCGM_FI_DEV_GPU_UTIL" ∷ []

parse_row_iff_example :
    (parse_row two_columns row ≡ parsed (csv_record two_columns.header_map row))
    ↔ Accepts two_columns row (csv_record two_columns.header_map row)
parse_row_iff_example = parse_row_iff two_columns row (csv_record two_columns.header_map row)
