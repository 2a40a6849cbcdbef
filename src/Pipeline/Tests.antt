-- ===== src/Pipeline/Tests.antt =====
-- A file of two rows and a bad one, streamed, and its messages collected.
use gpu_telemetry_pipeline.Base.{
  ℕ, suc, ◌+◌, ◌%◌, String, ◌≡◌, ◌≢◌, arith, refl, Bool, true, false, Option, none, some, List, [],
  ◌∷◌, ◌++◌, drop, take, length,
}
use gpu_telemetry_pipeline.Domain.{TelemetryPoint}
use gpu_telemetry_pipeline.Domain.Codec.{codec, codec-IsFaithful, write}
use gpu_telemetry_pipeline.Message.{Message}
use gpu_telemetry_pipeline.MessageQueue.{MessageQueue, TakesAll}
use gpu_telemetry_pipeline.Storage.Memory.{empty_tables, tables}
use gpu_telemetry_pipeline.Parser.{CsvRecord, CsvParser}
use gpu_telemetry_pipeline.Parser.Reader.{Line, fields, broken, StreamReader, new_stream_reader}
use gpu_telemetry_pipeline.Streamer.{Streamer, Surroundings, stream_file, batch_point}
use gpu_telemetry_pipeline.Streamer.Batch.{accepted, refused, batch_messages, stream_file-sent}
use gpu_telemetry_pipeline.Collector.{
  Collector, started, Event, enqueued, timed_out, takes, works, new_collector, run,
}
use gpu_telemetry_pipeline.Collector.Counts.{arrivals, effects, Counted, run-balanced}
use gpu_telemetry_pipeline.Collector.Order.{InOrder, run-fifo}
use gpu_telemetry_pipeline.Pipeline.{store_records, collect-accepted}

abbrev header : List String
header =
    "timestamp" ∷ "metric_name" ∷ "gpu_id" ∷ "device" ∷ "uuid" ∷ "modelName" ∷ "Hostname" ∷ "value"
    ∷ []

abbrev lines : List Line
lines =
    fields ("t" ∷ "UTIL" ∷ "0" ∷ "nvidia0" ∷ "GPU-1" ∷ "H100" ∷ "host" ∷ "85" ∷ [])
    ∷ broken
    ∷ fields ("t" ∷ "" ∷ "1" ∷ "nvidia1" ∷ "GPU-2" ∷ "H100" ∷ "host" ∷ "90" ∷ [])
    ∷ fields ("t" ∷ "TEMP" ∷ "1" ∷ "nvidia1" ∷ "GPU-2" ∷ "H100" ∷ "host" ∷ "41" ∷ [])
    ∷ []

abbrev parser : CsvParser
parser = record {
  header_map =
      ("timestamp", 0)
      ∷ ("metric_name", 1)
      ∷ ("gpu_id", 2)
      ∷ ("device", 3)
      ∷ ("uuid", 4)
      ∷ ("modelName", 5)
      ∷ ("Hostname", 6)
      ∷ ("value", 7)
      ∷ [];
}

abbrev reader : StreamReader
reader = record { reader = lines; parser = parser; row = 1 }

opens : new_stream_reader (fields header ∷ lines) ≡ some reader
unfolding new_stream_reader gpu_telemetry_pipeline.Parser.parse_header
    gpu_telemetry_pipeline.Parser.new_csv_parser gpu_telemetry_pipeline.Parser.index_columns
    gpu_telemetry_pipeline.Parser.find_missing gpu_telemetry_pipeline.Parser.trim_space
    gpu_telemetry_pipeline.Base.lookup gpu_telemetry_pipeline.Base.insert
opens = refl

instance abbrev log : MessageQueue (List Message)
log = record { publish = λ m q. (none, q ++ m ∷ []) }

log-TakesAll : TakesAll log (λ q. q)
log-TakesAll = record { no_error = λ m q. refl; at_end = λ m q. refl }

abbrev around : Surroundings
around = record { uuid = λ i. "id"; is_done = λ i. false; now = 7; batch_id = "b" }

abbrev payload : CsvRecord → String
payload r = write (batch_point 7 "b" r)

abbrev streamer : Streamer
streamer = record { instance_id = "s"; rows_sent = 0; error_count = 0 }

abbrev no_messages : List Message
no_messages = []

stream_file-sent_example :
    let out = stream_file around (some (fields header ∷ lines)) streamer no_messages in
    (out.0 ≡ none)
    × (out.2 ≡ no_messages ++ batch_messages "s" payload around 0 (accepted parser lines))
    × (out.1.rows_sent % 18446744073709551616
        ≡ (0 + length (accepted parser lines)) % 18446744073709551616)
    × (out.1.error_count ≡ (0 + refused parser lines) % 18446744073709551616)
stream_file-sent_example =
    stream_file-sent (λ q. q) log-TakesAll around payload (λ r. refl) (λ i. refl)
      (fields header ∷ lines) reader streamer no_messages opens

taken : (length (accepted parser lines) ≡ 2) × (refused parser lines ≡ 2)
unfolding gpu_telemetry_pipeline.Parser.parse_row gpu_telemetry_pipeline.Parser.get_col
    gpu_telemetry_pipeline.Parser.trim_space gpu_telemetry_pipeline.Base.lookup
taken = (refl, refl)

seven-ne-zero : around.now ≢ 0
seven-ne-zero = omega arith

collect-accepted_example :
    effects (batch_messages "s" payload around 0 (accepted parser lines)) empty_tables
    ≡ store_records around (accepted parser lines) empty_tables
collect-accepted_example =
    collect-accepted codec-IsFaithful "s" around payload (λ r. refl) seven-ne-zero parser lines
      empty_tables

abbrev message : String → Message
message id = record {
  id = id;
  topic = "telemetry";
  payload = "";
  headers = [];
  timestamp = 0;
  metadata = [];
}

-- The first worker is at its message when the last one takes another.
abbrev events : List Event
events =
    enqueued (message "1")
    ∷ timed_out (message "2")
    ∷ takes
    ∷ enqueued (message "3")
    ∷ enqueued (message "4")
    ∷ takes
    ∷ works 0
    ∷ []

abbrev after : Collector
after = record {
  work_queue = message "4" ∷ [];
  busy = started (message "3") ∷ [];
  messages_processed = 1;
  messages_errors = 2;
  gpus_stored = 0;
  telemetry_stored = 0;
}

ran : run events new_collector empty_tables ≡ some (after, empty_tables)
unfolding run gpu_telemetry_pipeline.Collector.step gpu_telemetry_pipeline.Collector.work
    gpu_telemetry_pipeline.Collector.take_message gpu_telemetry_pipeline.Collector.job_step
    new_collector gpu_telemetry_pipeline.Domain.Codec.read gpu_telemetry_pipeline.Domain.Codec.split
ran = refl

run-balanced_example : Counted 2 1 after
run-balanced_example = run-balanced events empty_tables _ ran

run-fifo_example : InOrder 2 (arrivals events) after
run-fifo_example = run-fifo events empty_tables _ ran
