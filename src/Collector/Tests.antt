-- ===== src/Collector/Tests.antt =====
-- A collector whose workers all see the end of the context before the message that has just come.
use gpu_telemetry_pipeline.Base.{ℕ, zero, suc, true, false, some, List, [], ◌∷◌, ◌≡◌, refl}
use gpu_telemetry_pipeline.Domain.Codec.{codec}
use gpu_telemetry_pipeline.Message.{Message}
use gpu_telemetry_pipeline.Storage.Memory.{Tables, empty_tables, tables}
use gpu_telemetry_pipeline.Collector
use gpu_telemetry_pipeline.Collector.{new_collector}
use gpu_telemetry_pipeline.Collector.Lifecycle.{
  Pool, start_pool, Change, handles, context_ends, leaves, closes, change, run, has_returned,
  run-not_returned,
}

abbrev message : Message
message = record {
  id = "a";
  topic = "telemetry";
  payload = "";
  headers = [];
  timestamp = 0;
  metadata = [];
}

abbrev repeated : ℕ → List Change
repeated zero = []
repeated (suc n) = leaves ∷ repeated n

abbrev stuck : Pool Tables
stuck = record {
  collector = record new_collector { work_queue = message ∷ [] };
  database = empty_tables;
  workers = 0;
  context_done = true;
  workers_done = false;
  closed = false;
}

reached :
    run (handles message ∷ context_ends ∷ repeated 50) (start_pool new_collector empty_tables)
    ≡ some stuck
unfolding run change start_pool Collector.step new_collector
reached = refl

abbrev closed_pool : Pool Tables
closed_pool = record stuck { closed = true }

closed_next : run (closes ∷ []) stuck ≡ some closed_pool
unfolding run change
closed_next = refl

run-not_returned_example : has_returned closed_pool ≡ false
run-not_returned_example =
    run-not_returned (closes ∷ []) stuck closed_pool
      (record { no_worker = refl; work_left = refl; not_done = refl }) closed_next
