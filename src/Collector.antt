-- ===== src/Collector.antt =====
-- internal/collector/collector.go: messages from the queue to the repositories.
-- `TelemetryJson` is encoding/json on telemetry points. The counters are 64-bit words. The workers run at
-- the same time: one takes a message in one step, and processes it in a step for each call of the
-- database, between which the others take theirs. `process_message` is the steps of one message with none
-- of another worker between them.
pub mod Counts
pub mod Lifecycle
pub mod Order
pub mod Steps
pub mod Tests
use gpu_telemetry_pipeline.Base.{
  ℕ, ◌+◌, ◌%◌, ◌^◌, String, Bool, true, false, Option, none, some, List, [], ◌∷◌, ◌++◌, str_eq,
  if◌then◌else◌, Dict, lookup, length, ltb, get_elem?, zero, suc,
}
use gpu_telemetry_pipeline.Domain.{TelemetryPoint, Gpu, is_zero, TelemetryJson}
use gpu_telemetry_pipeline.Message.{Value, text, other, Message}
use gpu_telemetry_pipeline.Storage.{Storage}

pub data TelemetryError : Type 0 where
  missing_uuid missing_metric_name missing_timestamp : TelemetryError

-- A worker that has a message, before its next step.
pub data Job : Type 0 where
  started : Message → Job
  storing_gpu storing_telemetry : Message → TelemetryPoint → Job

-- `busy` are the workers that have a message.
pub record Collector : Type 0 where
  pub work_queue : List Message
  pub busy : List Job
  pub messages_processed : ℕ
  pub messages_errors : ℕ
  pub gpus_stored : ℕ
  pub telemetry_stored : ℕ

abbrev pub work_queue_size : ℕ
work_queue_size = 1000

abbrev pub worker_pool_size : ℕ
worker_pool_size = 50

unfoldable pub new_collector : Collector
new_collector = record {
  work_queue = [];
  busy = [];
  messages_processed = 0;
  messages_errors = 0;
  gpus_stored = 0;
  telemetry_stored = 0;
}

-- `Add(1)` on an `atomic.Int64`, read as the word that it is stored in.
abbrev pub add_one : ℕ → ℕ
add_one n = (n + 1) % 18446744073709551616

abbrev pub count_processed : Collector → Collector
count_processed c = record c { messages_processed = add_one c.messages_processed }

abbrev pub count_error : Collector → Collector
count_error c = record c { messages_errors = add_one c.messages_errors }

abbrev pub count_gpu : Collector → Collector
count_gpu c = record c { gpus_stored = add_one c.gpus_stored }

abbrev pub count_telemetry : Collector → Collector
count_telemetry c = record c { telemetry_stored = add_one c.telemetry_stored }

unfoldable pub validate_telemetry : TelemetryPoint → Option TelemetryError
validate_telemetry t =
    if str_eq t.gpu_uuid ""
    then some missing_uuid
    else if str_eq t.metric_name ""
    then some missing_metric_name
    else if is_zero t.timestamp
    then some missing_timestamp
    else none

-- `s, _ := metadata[key].(string)`.
abbrev pub text_or_empty : Option Value → String
text_or_empty none = ""
text_or_empty (some (text s)) = s
text_or_empty (some (other s)) = ""

unfoldable pub extract_gpu_from_message : Message → TelemetryPoint → Gpu
extract_gpu_from_message m t = record {
  uuid = t.gpu_uuid;
  device_id = text_or_empty (lookup "device" m.metadata);
  gpu_index = text_or_empty (lookup "gpu_index" m.metadata);
  model_name = text_or_empty (lookup "model_name" m.metadata);
  hostname = text_or_empty (lookup "hostname" m.metadata);
  container = text_or_empty (lookup "container" m.metadata);
  pod = text_or_empty (lookup "pod" m.metadata);
  namespace = text_or_empty (lookup "namespace" m.metadata);
}

module _ {D : Type 0} ⦃R : Storage D⦄ where
  -- A GPU that is not stored is not an error of the message.
  unfoldable pub keep_gpu : Gpu → Collector → D → Collector × D
  keep_gpu g c d =
      let stored = R.store_gpu g d in (elim stored.0 [ none ↦ count_gpu c | some e ↦ c ], stored.1)

  unfoldable pub keep_telemetry : TelemetryPoint → Collector → D → Collector × D
  keep_telemetry t c d =
      let stored = R.store_telemetry t d in
      (elim stored.0 [ none ↦ count_telemetry c | some e ↦ count_error c ], stored.1)

  unfoldable pub process_point : Message → TelemetryPoint → Collector → D → Collector × D
  process_point m t c d = elim (validate_telemetry t) [
    | some e ↦ (count_error c, d)
    | none ↦
        let kept = keep_gpu (extract_gpu_from_message m t) c d in keep_telemetry t kept.0 kept.1
  ]

  unfoldable pub process_message : ⦃J : TelemetryJson⦄ → Message → Collector → D → Collector × D
  process_message ⦃J⦄ m c d = elim (J.unmarshal m.payload) [
    | none ↦ (count_error (count_processed c), d)
    | some t ↦ process_point m t (count_processed c) d
  ]

-- What happens next: a message is handed over and the channel, the timer or the context is first, a
-- worker takes the oldest message, or the i-th of those that have one does its next step.
pub data Event : Type 0 where
  enqueued timed_out cancelled : Message → Event
  takes : Event
  works : ℕ → Event

-- A worker that has no message takes one, where there are so many workers; with nothing in the channel it
-- blocks.
unfoldable pub take_message : ℕ → Collector → Option Collector
take_message workers c = elim c.work_queue [
  | [] ↦ none
  | m ∷ ms ↦
      if ltb (length c.busy) workers
      then some (record c { work_queue = ms; busy = c.busy ++ started m ∷ [] })
      else none
]

abbrev pub check_point :
    Message → TelemetryPoint → Option TelemetryError → Collector → Option Job × Collector
check_point m t (some e) c = (none, count_error c)
check_point m t none c = (some (storing_gpu m t), c)

abbrev pub check_message : Message → Option TelemetryPoint → Collector → Option Job × Collector
check_message m none c = (none, count_error c)
check_message m (some t) c = check_point m t (validate_telemetry t) c

-- A worker goes on with its next step, or is free again.
abbrev pub place : ℕ → Option Job → List Job → List Job
place i next [] = []
place zero none (j ∷ js) = js
place zero (some next) (j ∷ js) = next ∷ js
place (suc i) next (j ∷ js) = j ∷ place i next js

module _ {D : Type 0} ⦃R : Storage D⦄ ⦃J : TelemetryJson⦄ where
  -- The next step of a worker: up to the first call of the database, and each of the two calls.
  unfoldable pub job_step : Job → Collector → D → Option Job × Collector × D
  job_step (started m) c d =
      let checked = check_message m (J.unmarshal m.payload) (count_processed c) in
      (checked.0, checked.1, d)
  job_step (storing_gpu m t) c d =
      let kept = keep_gpu (extract_gpu_from_message m t) c d in
      (some (storing_telemetry m t), kept.0, kept.1)
  job_step (storing_telemetry m t) c d = let kept = keep_telemetry t c d in (none, kept.0, kept.1)

  abbrev pub after_step : ℕ → Option Job × Collector × D → Collector × D
  after_step i (next, c, d) = (record c { busy = place i next c.busy }, d)

  unfoldable pub work : ℕ → Collector → D → Option (Collector × D)
  work i c d = elim (get_elem? c.busy i) [
    | none ↦ none
    | some j ↦ some (after_step i (job_step j c d))
  ]

  abbrev pub with_database : Option Collector → D → Option (Collector × D)
  with_database none d = none
  with_database (some c) d = some (c, d)

  -- `none`: it cannot happen now.
  unfoldable pub step : Event → Collector → D → Option (Collector × D)
  step (enqueued m) c d =
      if ltb (length c.work_queue) work_queue_size
      then some (record c { work_queue = c.work_queue ++ m ∷ [] }, d)
      else none
  step (timed_out m) c d = some (count_error c, d)
  step (cancelled m) c d = some (c, d)
  step takes c d = with_database (take_message worker_pool_size c) d
  step (works i) c d = work i c d

  unfoldable pub run : List Event → Collector → D → Option (Collector × D)
  run [] c d = some (c, d)
  run (e ∷ es) c d = elim (step e c d) [ none ↦ none | some s ↦ run es s.0 s.1 ]
