-- ===== src/Streamer.antt =====
-- internal/streamer/streamer.go: one pass over the CSV file, published record by record.
-- `uuid.New()` for the i-th record, the clock, the file's lines and whether the context is done when
-- the i-th record comes up are arguments; `none` for the lines is a file that does not open.
pub mod Batch
pub mod Loop
pub mod Released
pub mod Tests
use gpu_telemetry_pipeline.Base.{
  ℕ, suc, zero, ◌+◌, ◌%◌, String, Bool, Option, none, some, List, [], ◌∷◌, if◌then◌else◌, Dict,
  insert, length,
}
use gpu_telemetry_pipeline.Domain.{TelemetryPoint, TelemetryJson}
use gpu_telemetry_pipeline.Message.{Value, text, Message}
use gpu_telemetry_pipeline.MessageQueue.{MessageQueue}
use gpu_telemetry_pipeline.Parser.{CsvRecord, to_telemetry_point}
use gpu_telemetry_pipeline.Parser.Reader.{
  Line, StreamReader, Read, next_record, row_error, end_of_file, new_stream_reader, next,
}

pub record Streamer : Type 0 where
  pub instance_id : String
  pub rows_sent : ℕ
  pub error_count : ℕ

pub data StreamError : Type 0 where
  open_failed header_failed marshal_failed publish_failed context_done no_end : StreamError

abbrev pub topic_telemetry : String
topic_telemetry = "telemetry"

-- The point of a record in a batch.
unfoldable pub batch_point : ℕ → String → CsvRecord → TelemetryPoint
batch_point now batch_id r = record (to_telemetry_point r) { timestamp = now; batch_id = batch_id }

unfoldable pub record_headers : String → String → CsvRecord → Dict String
record_headers instance_id batch_id r = insert "batch_id" batch_id (
    insert "metric_name" r.metric_name
      (insert "gpu_uuid" r.uuid (insert "instance_id" instance_id [])))

unfoldable pub record_metadata : CsvRecord → Dict Value
record_metadata r = insert "namespace" (text r.namespace) (
    insert "pod" (text r.pod) (
      insert "container" (text r.container) (
        insert "model_name" (text r.model_name) (
          insert "gpu_index" (text r.gpu_id)
            (insert "device" (text r.device) (insert "hostname" (text r.hostname) []))))))

unfoldable pub record_message : String → String → String → ℕ → String → CsvRecord → Message
record_message instance_id id payload now batch_id r = record {
  id = id;
  topic = topic_telemetry;
  payload = payload;
  headers = record_headers instance_id batch_id r;
  timestamp = now;
  metadata = record_metadata r;
}

module _ {Q : Type 0} ⦃M : MessageQueue Q⦄ ⦃J : TelemetryJson⦄ where
  unfoldable pub process_record :
      String → String → CsvRecord → ℕ → String → Q → Option StreamError × Q
  process_record instance_id id r now batch_id q = elim (J.marshal (batch_point now batch_id r)) [
    | none ↦ (some marshal_failed, q)
    | some payload ↦
        let out = M.publish (record_message instance_id id payload now batch_id r) q in
        (elim out.0 [ none ↦ none | some e ↦ some publish_failed ], out.1)
  ]

-- The loop that reads the file to its end: the records and the number of rows refused. It runs on
-- fuel, and `none` is that the fuel was not enough.
unfoldable pub read_all : ℕ → StreamReader → Option (List CsvRecord × ℕ)
read_all zero sr = none
read_all (suc fuel) sr =
    let (got, sr') = next sr in
    elim got [
      | end_of_file ↦ some ([], 0)
      | row_error ↦ elim (read_all fuel sr') [ none ↦ none | some out ↦ some (out.0, out.1 + 1) ]
      | next_record r ↦ elim (read_all fuel sr') [
        | none ↦ none
        | some out ↦ some (r ∷ out.0, out.1)
      ]
    ]

abbrev pub count_row : Streamer → Streamer
count_row s = record s { rows_sent = (s.rows_sent + 1) % 18446744073709551616 }

abbrev pub count_errors : ℕ → Streamer → Streamer
count_errors n s = record s { error_count = (s.error_count + n) % 18446744073709551616 }

-- Where the records come from: their ids, and when the context is done.
pub record Surroundings : Type 0 where
  pub uuid : ℕ → String
  pub is_done : ℕ → Bool
  pub now : ℕ
  pub batch_id : String

module _ {Q : Type 0} ⦃M : MessageQueue Q⦄ ⦃J : TelemetryJson⦄ where
  -- A record that fails is left out.
  unfoldable pub publish_all :
      Surroundings → ℕ → List CsvRecord → Streamer → Q → Option StreamError × Streamer × Q
  publish_all w i [] s q = (none, s, q)
  publish_all w i (r ∷ rs) s q =
      if w.is_done i
      then (some context_done, s, q)
      else (let out = process_record s.instance_id (w.uuid i) r w.now w.batch_id q in
          publish_all w (i + 1) rs (elim out.0 [ none ↦ count_row s | some e ↦ s ]) out.1)

  unfoldable pub stream_reader :
      Surroundings → StreamReader → Streamer → Q → Option StreamError × Streamer × Q
  stream_reader w sr s q = elim (read_all (suc (length sr.reader)) sr) [
    | none ↦ (some no_end, s, q)
    | some out ↦ publish_all w 0 out.0 (count_errors out.1 s) q
  ]

  unfoldable pub stream_file :
      Surroundings → Option (List Line) → Streamer → Q → Option StreamError × Streamer × Q
  stream_file w none s q = (some open_failed, s, q)
  stream_file w (some lines) s q = elim (new_stream_reader lines) [
    | none ↦ (some header_failed, s, q)
    | some sr ↦ stream_reader w sr s q
  ]
