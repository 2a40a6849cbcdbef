-- ===== src/Parser/Rows.antt =====
-- What a row of the file becomes.
use mathlib.Core.List.{cons-ne-nil}
use gpu_telemetry_pipeline.Base.{
  ℕ, none, some, Dict, lookup, get_elem?, Option-cases, sym, subst, String, ◌≡◌, ◌≢◌, ◌↔◌, refl,
  List, [], ◌∷◌, arith, str_eq_iff, ◌==◌, ==_iff, length, Bool-cases, inl, inr,
}
use gpu_telemetry_pipeline.Parser.{
  CsvParser, CsvRecord, trim_space, get_col, parsed, csv_record, validate_record, parse_row,
}

-- What a row says under a name: nothing where the header lacks the name or the row is too short, or else
-- the text in that column with the spaces at its ends trimmed.
pub data IsCell (m : Dict ℕ) (row : List String) (name : String) : String → Type 0 where
  no_column : lookup name m ≡ none → IsCell m row name ""
  short_row : (i : ℕ) → lookup name m ≡ some i → get_elem? row i ≡ none → IsCell m row name ""
  found :
      (i : ℕ) (text : String)
      → lookup name m ≡ some i
      → get_elem? row i ≡ some text
      → IsCell m row name (trim_space text)

-- The columns of the file, by the names in its header.
pub record Columns (m : Dict ℕ) (row : List String) (r : CsvRecord) : Type 0 where
  pub timestamp : IsCell m row "timestamp" r.timestamp
  pub metric_name : IsCell m row "metric_name" r.metric_name
  pub gpu_id : IsCell m row "gpu_id" r.gpu_id
  pub device : IsCell m row "device" r.device
  pub uuid : IsCell m row "uuid" r.uuid
  pub model_name : IsCell m row "modelName" r.model_name
  pub hostname : IsCell m row "Hostname" r.hostname
  pub container : IsCell m row "container" r.container
  pub pod : IsCell m row "pod" r.pod
  pub namespace : IsCell m row "namespace" r.namespace
  pub value : IsCell m row "value" r.value
  pub labels_raw : IsCell m row "labels_raw" r.labels_raw

-- A row that is accepted is read column by column, is not empty, and has a GPU and a metric.
pub record Accepts (p : CsvParser) (row : List String) (r : CsvRecord) : Type 0 where
  pub not_empty : row ≢ []
  pub header_read : length p.header_map ≢ 0
  pub columns : Columns p.header_map row r
  pub has_uuid : r.uuid ≢ ""
  pub has_metric : r.metric_name ≢ ""

get_col-IsCell :
    (m : Dict ℕ) (row : List String) (name : String) → IsCell m row name (get_col m row name)
unfolding get_col
get_col-IsCell m row name = elim (Option-cases (lookup name m)) [
  | inl e ↦ rw (get_col, e) (no_column e)
  | inr (i, e) ↦ elim (Option-cases (get_elem? row i)) [
    | inl f ↦ rw (get_col, e, f) (short_row i e f)
    | inr (text, f) ↦ rw (get_col, e, f) (found i text e f)
  ]
]

IsCell-get_col :
    (m : Dict ℕ) (row : List String) (name text : String)
    → IsCell m row name text
    → text ≡ get_col m row name
unfolding get_col
IsCell-get_col m row name _ (no_column e) = rw (get_col, e) refl
IsCell-get_col m row name _ (short_row i e f) = rw (get_col, e, f) refl
IsCell-get_col m row name _ (found i text e f) = rw (get_col, e, f) refl

csv_record-Columns : (m : Dict ℕ) (row : List String) → Columns m row (csv_record m row)
csv_record-Columns m row = record {
  timestamp = get_col-IsCell m row "timestamp";
  metric_name = get_col-IsCell m row "metric_name";
  gpu_id = get_col-IsCell m row "gpu_id";
  device = get_col-IsCell m row "device";
  uuid = get_col-IsCell m row "uuid";
  model_name = get_col-IsCell m row "modelName";
  hostname = get_col-IsCell m row "Hostname";
  container = get_col-IsCell m row "container";
  pod = get_col-IsCell m row "pod";
  namespace = get_col-IsCell m row "namespace";
  value = get_col-IsCell m row "value";
  labels_raw = get_col-IsCell m row "labels_raw";
}

Columns-csv_record :
    (m : Dict ℕ) (row : List String) (r : CsvRecord) → Columns m row r → r ≡ csv_record m row
Columns-csv_record m row r c = λ i. record {
  timestamp = IsCell-get_col m row "timestamp" r.timestamp c.timestamp i;
  metric_name = IsCell-get_col m row "metric_name" r.metric_name c.metric_name i;
  gpu_id = IsCell-get_col m row "gpu_id" r.gpu_id c.gpu_id i;
  device = IsCell-get_col m row "device" r.device c.device i;
  uuid = IsCell-get_col m row "uuid" r.uuid c.uuid i;
  model_name = IsCell-get_col m row "modelName" r.model_name c.model_name i;
  hostname = IsCell-get_col m row "Hostname" r.hostname c.hostname i;
  container = IsCell-get_col m row "container" r.container c.container i;
  pod = IsCell-get_col m row "pod" r.pod c.pod i;
  namespace = IsCell-get_col m row "namespace" r.namespace c.namespace i;
  value = IsCell-get_col m row "value" r.value c.value i;
  labels_raw = IsCell-get_col m row "labels_raw" r.labels_raw c.labels_raw i;
}

validate_record_iff :
    (c r : CsvRecord)
    → (validate_record c ≡ parsed r) ↔ ((r ≡ c) × (r.uuid ≢ "") × (r.metric_name ≢ ""))
unfolding validate_record
validate_record_iff c r = (
  λ e. (
    ground arith,
    ground (arith, str_eq_iff c.uuid ""),
    ground (arith, str_eq_iff c.metric_name ""),
  ),
  λ a. ground (arith, a.0, str_eq_iff c.uuid "", str_eq_iff c.metric_name ""),
)

-- A row is parsed to a record exactly when the row is not empty, a header has been read, each field of
-- the record is the trimmed text of the column with its name, or is empty where there is no such column
-- or the row is too short for it, and neither its GPU nor its metric name is empty.
pub parse_row_iff :
    (p : CsvParser) (row : List String) (r : CsvRecord)
    → (parse_row p row ≡ parsed r) ↔ Accepts p row r
unfolding parse_row
parse_row_iff p [] r = (λ e. cc, λ a. absurd (a.not_empty refl))
parse_row_iff p (text ∷ row) r =
    let c : CsvRecord = csv_record p.header_map (text ∷ row) in
    elim (Bool-cases (length p.header_map == 0)) [
      | inl e ↦ (λ h. absurd (ground (arith, e, h)), λ a. absurd (a.header_read ((==_iff _ _).0 e)))
      | inr e ↦
          let (there, back) = validate_record_iff c r in
          (
            λ h.
                let (same, uuid, metric) = there (ground (arith, e, h)) in
                record {
                  not_empty = cons-ne-nil text row;
                  header_read = ground (arith, e);
                  columns =
                      subst (Columns p.header_map (text ∷ row)) (sym same)
                        (csv_record-Columns p.header_map (text ∷ row));
                  has_uuid = uuid;
                  has_metric = metric;
                },
            λ a. ground (
              arith,
              e,
              back (
                Columns-csv_record p.header_map (text ∷ row) r a.columns,
                a.has_uuid,
                a.has_metric,
              ),
            ),
          )
    ]
