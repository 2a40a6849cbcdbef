-- ===== src/Pipeline.antt =====
-- The streamer and the collector together: what internal/collector/collector.go makes of a message
-- that internal/streamer/streamer.go built.
pub mod Tests
use gpu_telemetry_pipeline.Base.{
  ℕ, String, Bool, true, false, Option, none, some, List, [], ◌∷◌, ◌≡◌, ◌≢◌, refl, sym, ap, ◌∙◌,
  str_eq, str_eq_of_ne, lookup, insert, ◌+◌, arith, All,
}
use gpu_telemetry_pipeline.Domain.{TelemetryPoint, Gpu, TelemetryJson, IsFaithful}
use gpu_telemetry_pipeline.Message.{Message}
use gpu_telemetry_pipeline.Storage.{Storage}
use gpu_telemetry_pipeline.Parser.{
  CsvRecord, CsvParser, Parsed, parsed, rejected, parse_row, validate_record, to_gpu,
  to_telemetry_point,
}
use gpu_telemetry_pipeline.Streamer.{
  Surroundings, record_message, record_headers, record_metadata, batch_point,
}
use gpu_telemetry_pipeline.Parser.Reader.{Line, fields, broken}
use gpu_telemetry_pipeline.Streamer.Batch.{accepted, keep, batch_messages}
use gpu_telemetry_pipeline.Collector.Counts.{effect, effects}
use gpu_telemetry_pipeline.Collector.{
  Collector, count_processed, process_message, process_point, keep_gpu, keep_telemetry,
  validate_telemetry, extract_gpu_from_message,
}

-- The GPU of a record comes through a message's metadata unchanged.
pub extract_gpu-record_message :
    (instance_id id payload : String) (now : ℕ) (batch_id : String) (r : CsvRecord)
    → extract_gpu_from_message
        (record_message instance_id id payload now batch_id r)
        (batch_point now batch_id r)
      ≡ to_gpu r
unfolding extract_gpu_from_message record_message record_metadata batch_point to_telemetry_point
    to_gpu lookup insert
extract_gpu-record_message instance_id id payload now batch_id r = refl

-- A record that the parser lets through, published at a time that is not zero, is valid for the
-- collector.
pub validate-batch_point :
    (now : ℕ) (batch_id : String) (r : CsvRecord)
    → now ≢ 0
    → validate_record r ≡ parsed r
    → validate_telemetry (batch_point now batch_id r) ≡ none
unfolding validate_telemetry validate_record batch_point to_telemetry_point
validate-batch_point now batch_id r h v = ground (arith, h, v)

parse_row-valid :
    (p : CsvParser) (row : List String) (r : CsvRecord)
    → parse_row p row ≡ parsed r
    → validate_record r ≡ parsed r
unfolding parse_row validate_record
parse_row-valid p [] r h = ground (arith, h)
parse_row-valid p (text ∷ row) r h = ground (arith, h)

keep-valid :
    (x : Parsed) (rs : List CsvRecord)
    → ((r : CsvRecord) → x ≡ parsed r → validate_record r ≡ parsed r)
    → All (λ r. validate_record r ≡ parsed r) rs
    → All (λ r. validate_record r ≡ parsed r) (keep x rs)
keep-valid (parsed r) rs h a = (h r refl, a)
keep-valid (rejected e) rs h a = a

accepted-valid :
    (p : CsvParser) (lines : List Line) → All (λ r. validate_record r ≡ parsed r) (accepted p lines)
accepted-valid p [] = tt
accepted-valid p (broken ∷ lines) = accepted-valid p lines
accepted-valid p (fields row ∷ lines) =
    keep-valid (parse_row p row) _ (parse_row-valid p row) (accepted-valid p lines)

module _ {D : Type 0} ⦃R : Storage D⦄ ⦃J : TelemetryJson⦄ where
  -- What a database should be after a record: its GPU is stored, then its point.
  abbrev pub store_record : Surroundings → CsvRecord → D → D
  store_record w r d =
      (R.store_telemetry (batch_point w.now w.batch_id r) (R.store_gpu (to_gpu r) d).1).1

  abbrev pub store_records : Surroundings → List CsvRecord → D → D
  store_records w [] d = d
  store_records w (r ∷ rs) d = store_records w rs (store_record w r d)

  effect-valid :
      (m : Message) (t : TelemetryPoint) (d : D)
      → J.unmarshal m.payload ≡ some t
      → validate_telemetry t ≡ none
      → effect m d ≡ (R.store_telemetry t (R.store_gpu (extract_gpu_from_message m t) d).1).1
  unfolding effect process_message process_point keep_gpu keep_telemetry
  effect-valid m t d back fine = ground (arith, back, fine)

  pub effect-record_message :
      (instance_id id payload : String) (w : Surroundings) (r : CsvRecord) (d : D)
      → J.unmarshal payload ≡ some (batch_point w.now w.batch_id r)
      → w.now ≢ 0
      → validate_record r ≡ parsed r
      → effect (record_message instance_id id payload w.now w.batch_id r) d ≡ store_record w r d
  effect-record_message instance_id id payload w r d back later valid =
      let t = batch_point w.now w.batch_id r in
      let m = record_message instance_id id payload w.now w.batch_id r in
      let same : J.unmarshal m.payload ≡ some t = unfold record_message in back in
      effect-valid m t d same (validate-batch_point w.now w.batch_id r later valid)
      ∙ ap (λ g. (R.store_telemetry t (R.store_gpu g d).1).1)
          (extract_gpu-record_message instance_id id payload w.now w.batch_id r)

  effects-batch_messages :
      (F : IsFaithful J) (instance_id : String) (w : Surroundings) (payload : CsvRecord → String)
      → ((r : CsvRecord) → J.marshal (batch_point w.now w.batch_id r) ≡ some (payload r))
      → w.now ≢ 0
      → (i : ℕ) (rs : List CsvRecord) (d : D) → All (λ r. validate_record r ≡ parsed r) rs
      → effects (batch_messages instance_id payload w i rs) d ≡ store_records w rs d
  unfolding effects
  effects-batch_messages F instance_id w payload encodes later i [] d a = refl
  effects-batch_messages F instance_id w payload encodes later i (r ∷ rs) d a =
      ap (effects (batch_messages instance_id payload w (i + 1) rs)) (
        effect-record_message instance_id (w.uuid i) (payload r) w r d (F _ _ (encodes r)) later
          a.0)
      ∙ effects-batch_messages F instance_id w payload encodes later (i + 1) rs _ a.1

  -- The messages of one pass over a file, handled by the collector one by one, store the GPU and the
  -- batch's point of every row that the parser takes, in the file's order and nothing else. The
  -- JSON of points reads back, and the batch's time is not Go's zero time.
  pub collect-accepted :
      (F : IsFaithful J) (instance_id : String) (w : Surroundings) (payload : CsvRecord → String)
      → ((r : CsvRecord) → J.marshal (batch_point w.now w.batch_id r) ≡ some (payload r))
      → w.now ≢ 0
      → (p : CsvParser) (lines : List Line) (d : D)
      → effects (batch_messages instance_id payload w 0 (accepted p lines)) d
        ≡ store_records w (accepted p lines) d
  collect-accepted F instance_id w payload encodes later p lines d =
      effects-batch_messages F instance_id w payload encodes later 0 _ d (accepted-valid p lines)
