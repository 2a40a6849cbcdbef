-- ===== src/Collector/Steps.antt =====
-- What the events of internal/collector/collector.go come to: a job's step, and each event that happens.
use gpu_telemetry_pipeline.Base.{
  Option, none, get_elem?, ℕ, ◌+◌, ◌%◌, some, List, [], ◌∷◌, ◌++◌, ◌≡◌, refl, sym, inl, inr,
  Option-cases, Bool-cases, List-cases, ◌<◌, length, ltb, ltb→lt, ap, ◌∙◌, arith,
}
use mathlib.Core.Option.{some-injective}
use gpu_telemetry_pipeline.Domain.{TelemetryPoint, TelemetryJson}
use gpu_telemetry_pipeline.Message.{Message}
use gpu_telemetry_pipeline.Storage.{Storage}
use gpu_telemetry_pipeline.Collector.{
  Collector, Job, started, storing_gpu, storing_telemetry, Event, enqueued, takes, works,
  count_processed, TelemetryError, validate_telemetry, check_point, check_message, job_step,
  keep_gpu, keep_telemetry, process_message, process_point, place, after_step, take_message, step,
  run, work, work_queue_size, worker_pool_size,
}

-- A worker that goes on has its message still.
abbrev pub size : Option Job → ℕ
size none = 0
size (some j) = 1

-- What a place in the list counts.
abbrev pub one : Option Job → ℕ
one none = 0
one (some (started m)) = 1
one (some (storing_gpu m t)) = 0
one (some (storing_telemetry m t)) = 0

-- A step counts its message once, and in the end as an error or as a stored point.
pub record Settles (j : Job) (c : Collector) (next : Option Job) (c' : Collector) : Type 0 where
  pub processed :
      (c'.messages_processed + one next) % 18446744073709551616
      ≡ (c.messages_processed + one (some j)) % 18446744073709551616
  pub settled :
      (c'.messages_errors + c'.telemetry_stored + size next) % 18446744073709551616
      ≡ (c.messages_errors + c.telemetry_stored + 1) % 18446744073709551616
  pub same_queue : c'.work_queue ≡ c.work_queue
  pub same_busy : c'.busy ≡ c.busy

check_point-Settles :
    (m : Message) (t : TelemetryPoint) (e : Option TelemetryError) (c : Collector)
    → let out = check_point m t e (count_processed c) in Settles (started m) c out.0 out.1
check_point-Settles m t none c = record {
  processed = omega arith;
  settled = omega arith;
  same_queue = refl;
  same_busy = refl;
}
check_point-Settles m t (some e) c = record {
  processed = omega arith;
  settled = omega arith;
  same_queue = refl;
  same_busy = refl;
}

check_message-Settles :
    (m : Message) (o : Option TelemetryPoint) (c : Collector)
    → let out = check_message m o (count_processed c) in Settles (started m) c out.0 out.1
check_message-Settles m none c = record {
  processed = omega arith;
  settled = omega arith;
  same_queue = refl;
  same_busy = refl;
}
check_message-Settles m (some t) c = check_point-Settles m t (validate_telemetry t) c

module _ {D : Type 0} ⦃R : Storage D⦄ ⦃J : TelemetryJson⦄ where
  pub job_step-Settles :
      (j : Job) (c : Collector) (d : D) → let out = job_step j c d in Settles j c out.0 out.1
  unfolding job_step keep_gpu keep_telemetry
  job_step-Settles (started m) c d = check_message-Settles m (J.unmarshal m.payload) c
  job_step-Settles (storing_gpu m t) c d = record {
    processed = ground arith;
    settled = ground arith;
    same_queue = ground arith;
    same_busy = ground arith;
  }
  job_step-Settles (storing_telemetry m t) c d = record {
    processed = ground arith;
    settled = ground arith;
    same_queue = ground arith;
    same_busy = ground arith;
  }

  -- A step that happens, and the rest of the run.
  pub run-step :
      (e : Event) (es : List Event) (c : Collector) (d : D) (s : Collector × D)
      → run (e ∷ es) c d ≡ some s
      → (c' : Collector) × (d' : D) × (step e c d ≡ some (c', d')) × (run es c' d' ≡ some s)
  unfolding run
  run-step e es c d s h = elim (Option-cases (step e c d)) [
    | inl n ↦ ground (arith, n, h)
    | inr (next, p) ↦ (next.0, next.1, p, ground (arith, p, h))
  ]

  pub enqueued-room :
      (m : Message) (c c' : Collector) (d d' : D)
      → step (enqueued m) c d ≡ some (c', d')
      → (length c.work_queue < work_queue_size)
        × (c' ≡ record c { work_queue = c.work_queue ++ m ∷ [] })
  unfolding step
  enqueued-room m c c' d d' h = elim (Bool-cases (ltb (length c.work_queue) work_queue_size)) [
    | inl e ↦
        let goes : step (enqueued m) c d
            ≡ some (record c { work_queue = c.work_queue ++ m ∷ [] }, d) =
          ground (arith, e) in
        let same = some-injective _ _ (sym h ∙ goes) in
        (ltb→lt _ _ e, ap (λ (s : Collector × D). s.0) same)
    | inr e ↦ ground (arith, e, h)
  ]

  pub takes-next :
      (c c' : Collector) (d d' : D)
      → step takes c d ≡ some (c', d')
      → (m : Message) × (ms : List Message) × (c.work_queue ≡ m ∷ ms)
        × (length c.busy < worker_pool_size)
        × (c' ≡ record c { work_queue = ms; busy = c.busy ++ started m ∷ [] })
  unfolding step take_message
  takes-next c c' d d' h = elim (List-cases c.work_queue) [
    | inl e ↦ ground (arith, e, h)
    | inr (m, ms, e) ↦ elim (Bool-cases (ltb (length c.busy) worker_pool_size)) [
      | inl f ↦
          let goes : step takes c d
              ≡ some (record c { work_queue = ms; busy = c.busy ++ started m ∷ [] }, d) =
            ground (arith, e, f) in
          let same = some-injective _ _ (sym h ∙ goes) in
          (m, ms, e, ltb→lt _ _ f, ap (λ (s : Collector × D). s.0) same)
      | inr f ↦ ground (arith, e, f, h)
    ]
  ]

  pub works-next :
      (i : ℕ) (c c' : Collector) (d d' : D)
      → step (works i) c d ≡ some (c', d')
      → (j : Job) × (get_elem? c.busy i ≡ some j)
        × (let out = job_step j c d in c' ≡ record out.1 { busy = place i out.0 out.1.busy })
  unfolding step work
  works-next i c c' d d' h = elim (Option-cases (get_elem? c.busy i)) [
    | inl e ↦ ground (arith, e, h)
    | inr (j, e) ↦
        let goes : step (works i) c d ≡ some (after_step i (job_step j c d)) = ground (arith, e) in
        (j, e, ap (λ (s : Collector × D). s.0) (some-injective _ _ (sym h ∙ goes)))
  ]

  pub work-same_queue :
      (i : ℕ) (c c' : Collector) (d d' : D)
      → work i c d ≡ some (c', d')
      → c'.work_queue ≡ c.work_queue
  work-same_queue i c c' d d' h =
      let (j, at, same) = works-next i c c' d d' (unfold step in h) in
      let s = job_step-Settles j c d in ap (λ (c : Collector). c.work_queue) same ∙ s.same_queue

-- The next step, where no other worker does one before it.
abbrev go_on :
    {D : Type 0}
    → ⦃R : Storage D⦄ → ⦃J : TelemetryJson⦄ → Option Job × Collector × D
    → Option Job × Collector × D
go_on (none, c, d) = (none, c, d)
go_on (some j, c, d) = job_step j c d

module _ {D : Type 0} ⦃R : Storage D⦄ ⦃J : TelemetryJson⦄ where
  go_on-check_point :
      (m : Message) (t : TelemetryPoint) (c : Collector) (d : D)
      → let checked = check_point m t (validate_telemetry t) c in
        go_on (go_on (checked.0, checked.1, d))
        ≡ (none, (process_point m t c d).0, (process_point m t c d).1)
  unfolding job_step process_point
  go_on-check_point m t c d = elim (Option-cases (validate_telemetry t)) [
    | inl e ↦ ground (arith, e)
    | inr (x, e) ↦ ground (arith, e)
  ]

  -- The steps of one message, with no other step between them, are the whole `processMessage`.
  go_on-process_message :
      (m : Message) (c : Collector) (d : D)
      → let whole = process_message m c d in
        go_on (go_on (job_step (started m) c d)) ≡ (none, whole.0, whole.1)
  unfolding job_step process_message
  go_on-process_message m c d = elim (Option-cases (J.unmarshal m.payload)) [
    | inl e ↦ ground (arith, e)
    | inr (t, e) ↦
        let same : process_message m c d ≡ process_point m t (count_processed c) d =
          ground (arith, e) in
        rw (same, e) (go_on-check_point m t (count_processed c) d)
  ]
