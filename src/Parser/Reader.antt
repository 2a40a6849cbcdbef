-- ===== src/Parser/Reader.antt =====
-- internal/parser/csv_parser.go: the reader that gives one record at a time. Splitting the file is
-- encoding/csv's work, so what is left to read is a list: a row of texts, or a row it cannot split.
use gpu_telemetry_pipeline.Base.{ℕ, ◌+◌, String, Option, none, some, List, [], ◌∷◌}
use gpu_telemetry_pipeline.Parser.{
  CsvParser, CsvRecord, Parsed, parsed, rejected, new_csv_parser, parse_header, parse_row,
}

pub data Line : Type 0 where
  fields : List String → Line
  broken : Line

pub record StreamReader : Type 0 where
  pub reader : List Line
  pub parser : CsvParser
  pub row : ℕ

pub data Read : Type 0 where
  next_record : CsvRecord → Read
  row_error : Read
  end_of_file : Read

-- `none`: the header is missing, cannot be split, or is refused.
unfoldable pub new_stream_reader : List Line → Option StreamReader
new_stream_reader [] = none
new_stream_reader (broken ∷ lines) = none
new_stream_reader (fields header ∷ lines) =
    let (error, p) = parse_header new_csv_parser header in
    elim error [ none ↦ some (record { reader = lines; parser = p; row = 1 }) | some e ↦ none ]

abbrev pub to_read : Parsed → Read
to_read (parsed r) = next_record r
to_read (rejected e) = row_error

-- A row that cannot be split does not count as a row.
unfoldable pub next : StreamReader → Read × StreamReader
next sr = elim sr.reader [
  | [] ↦ (end_of_file, sr)
  | broken ∷ lines ↦ (row_error, record sr { reader = lines })
  | fields texts ∷ lines ↦
      (to_read (parse_row sr.parser texts), record sr { reader = lines; row = sr.row + 1 })
]
