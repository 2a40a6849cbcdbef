-- ===== src/Streamer/Batch.antt =====
-- What one pass over the file publishes and counts.
use gpu_telemetry_pipeline.Base.{
  ℕ, suc, zero, ◌+◌, ◌%◌, ◌<◌, String, false, Option, none, some, List, [], ◌∷◌, ◌++◌, ◌≡◌, refl,
  sym, ap, ◌∙◌, length, append_assoc, append_nil, arith,
}
use gpu_telemetry_pipeline.Domain.{TelemetryJson}
use gpu_telemetry_pipeline.Message.{Message}
use gpu_telemetry_pipeline.MessageQueue.{MessageQueue, TakesAll}
use gpu_telemetry_pipeline.Parser.{CsvParser, CsvRecord, Parsed, parsed, rejected, parse_row}
use gpu_telemetry_pipeline.Parser.Reader.{
  Line, fields, broken, StreamReader, new_stream_reader, next,
}
use gpu_telemetry_pipeline.Streamer.{
  Streamer, StreamError, Surroundings, batch_point, record_message, process_record, read_all,
  count_row, count_errors, publish_all, stream_reader, stream_file,
}

abbrev pub keep : Parsed → List CsvRecord → List CsvRecord
keep (parsed r) rs = r ∷ rs
keep (rejected e) rs = rs

abbrev pub is_refused : Parsed → ℕ
is_refused (parsed r) = 0
is_refused (rejected e) = 1

-- The rows that a parser takes, in order.
abbrev pub accepted : CsvParser → List Line → List CsvRecord
accepted p [] = []
accepted p (broken ∷ lines) = accepted p lines
accepted p (fields row ∷ lines) = keep (parse_row p row) (accepted p lines)

-- How many rows it does not take.
abbrev pub refused : CsvParser → List Line → ℕ
refused p [] = 0
refused p (broken ∷ lines) = suc (refused p lines)
refused p (fields row ∷ lines) = is_refused (parse_row p row) + refused p lines

-- Fuel above the number of lines is enough: the loop ends with the rows taken and the number of
-- the others.
pub read_all-accepted :
    (fuel : ℕ) (lines : List Line) (p : CsvParser) (row : ℕ)
    → length lines < fuel
    → read_all fuel (record { reader = lines; parser = p; row = row })
      ≡ some (accepted p lines, refused p lines)
unfolding read_all next
read_all-accepted zero lines p row h = ground arith
read_all-accepted (suc fuel) [] p row h = refl
read_all-accepted (suc fuel) (broken ∷ lines) p row h =
    ground (arith, read_all-accepted fuel lines p row (omega (arith, h)))
read_all-accepted (suc fuel) (fields texts ∷ lines) p row h =
    ground (arith, read_all-accepted fuel lines p (row + 1) (omega (arith, h)))

-- The messages of a batch: the i-th has the i-th id, and all have its time and its name.
abbrev pub batch_messages :
    String → (CsvRecord → String) → Surroundings → ℕ → List CsvRecord → List Message
batch_messages instance_id payload w i [] = []
batch_messages instance_id payload w i (r ∷ rs) =
    record_message instance_id (w.uuid i) (payload r) w.now w.batch_id r
    ∷ batch_messages instance_id payload w (i + 1) rs

module _ {Q : Type 0} ⦃M : MessageQueue Q⦄ ⦃J : TelemetryJson⦄ (sent : Q → List Message)
    (T : TakesAll M sent) (w : Surroundings) (payload : CsvRecord → String)
    (encodes : (r : CsvRecord) → J.marshal (batch_point w.now w.batch_id r) ≡ some (payload r))
    (goes_on : (i : ℕ) → w.is_done i ≡ false) where
  process_record-sent :
      (instance_id id : String) (r : CsvRecord) (q : Q)
      → ((process_record instance_id id r w.now w.batch_id q).0 ≡ none)
        × (sent (process_record instance_id id r w.now w.batch_id q).1
            ≡ sent q ++ record_message instance_id id (payload r) w.now w.batch_id r ∷ [])
  unfolding process_record
  process_record-sent instance_id id r q =
      let m = record_message instance_id id (payload r) w.now w.batch_id r in
      let fine : process_record instance_id id r w.now w.batch_id q ≡ (none, (M.publish m q).1) =
        ground (arith, encodes r, T.no_error m q) in
      rw fine (refl, T.at_end m q)

  record Streams (rs : List CsvRecord) (i : ℕ) (s : Streamer) (q : Q)
      (out : Option StreamError × Streamer × Q) : Type 0 where
    no_error : out.0 ≡ none
    all_sent : sent out.2 ≡ sent q ++ batch_messages s.instance_id payload w i rs
    counted :
        out.1.rows_sent % 18446744073709551616 ≡ (s.rows_sent + length rs) % 18446744073709551616
    errors : out.1.error_count ≡ s.error_count

  publish_all-Streams :
      (rs : List CsvRecord) (i : ℕ) (s : Streamer) (q : Q)
      → Streams rs i s q (publish_all w i rs s q)
  publish_all-Streams [] i s q =
      unfold publish_all in
      record {
        no_error = refl;
        all_sent = sym (append_nil (sent q));
        counted = omega arith;
        errors = refl;
      }
  publish_all-Streams (r ∷ rs) i s q =
      let out = process_record s.instance_id (w.uuid i) r w.now w.batch_id q in
      let (fine, at_end) = process_record-sent s.instance_id (w.uuid i) r q in
      let k = publish_all-Streams rs (i + 1) (count_row s) out.1 in
      let goes : publish_all w i (r ∷ rs) s q ≡ publish_all w (i + 1) rs (count_row s) out.1 =
        unfold publish_all in ground (arith, goes_on i, fine) in
      rw goes (record {
        no_error = k.no_error;
        all_sent =
            k.all_sent
            ∙ ap (λ l. l ++ batch_messages s.instance_id payload w (i + 1) rs) at_end
            ∙ append_assoc (sent q) _ _;
        counted = omega (arith, k.counted);
        errors = k.errors;
      })

  -- A pass over a file whose header is accepted, with a queue that takes every message, points that
  -- can be marshalled and a context that is never done, ends without an error. It has published one
  -- message for each row taken, in the file's order, all with the batch's time and name, and the
  -- counters have gone up by the rows taken and the rows refused, modulo their 2^64.
  pub stream_file-sent :
      (lines : List Line) (sr : StreamReader) (s : Streamer) (q : Q)
      → new_stream_reader lines ≡ some sr
      → let rs = accepted sr.parser sr.reader in
        let out = stream_file w (some lines) s q in
        (out.0 ≡ none)
        × (sent out.2 ≡ sent q ++ batch_messages s.instance_id payload w 0 rs)
        × (out.1.rows_sent % 18446744073709551616
            ≡ (s.rows_sent + length rs) % 18446744073709551616)
        × (out.1.error_count ≡ (s.error_count + refused sr.parser sr.reader) % 18446744073709551616)
  stream_file-sent lines sr s q h =
      let rs = accepted sr.parser sr.reader in
      let n = refused sr.parser sr.reader in
      let all =
        read_all-accepted (suc (length sr.reader)) sr.reader sr.parser sr.row (omega arith) in
      let goes : stream_file w (some lines) s q ≡ publish_all w 0 rs (count_errors n s) q =
        unfold stream_file stream_reader in ground (arith, h, all) in
      let k = publish_all-Streams rs 0 (count_errors n s) q in
      rw goes (k.no_error, k.all_sent, k.counted, k.errors)
