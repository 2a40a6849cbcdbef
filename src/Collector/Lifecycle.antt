-- ===== src/Collector/Lifecycle.antt =====
-- How the collector ends (`Start`, `startWorkerPool` and `worker` of internal/collector/collector.go):
-- the workers, the monitor that waits for an empty channel, and the wait of `Start` for it.
use gpu_telemetry_pipeline.Base.{
  ℕ, ◌-◌, ltb, Bool, true, false, not, ◌&&◌, Option, none, some, List, [], ◌∷◌, ◌≡◌, if◌then◌else◌,
  length, length-append, Option-cases, inl, inr, arith, ◌==◌,
}
use gpu_telemetry_pipeline.Domain.{TelemetryJson}
use gpu_telemetry_pipeline.Storage.{Storage}
use gpu_telemetry_pipeline.Message.{Message}
use gpu_telemetry_pipeline.Collector
use gpu_telemetry_pipeline.Collector.{
  Collector, enqueued, new_collector, take_message, work, job_step, with_database, work_queue_size,
  worker_pool_size, Job,
}
use gpu_telemetry_pipeline.Collector.Steps.{work-same_queue}

-- `workers` is how many have not returned. `closed` is that the channel of work is closed.
pub record Pool (D : Type 0) : Type 0 where
  pub collector : Collector
  pub database : D
  pub workers : ℕ
  pub context_done : Bool
  pub workers_done : Bool
  pub closed : Bool

unfoldable pub start_pool : {D : Type 0} → Collector → D → Pool D
start_pool c d = record {
  collector = c;
  database = d;
  workers = worker_pool_size;
  context_done = false;
  workers_done = false;
  closed = false;
}

-- What happens next: a message is handed over, a worker takes one, the i-th of those that have one does
-- its next step, the context ends, a worker that has no message sees that the context is done and
-- returns, the monitor looks at the channel, or `Start` has unsubscribed and closes it.
pub data Change : Type 0 where
  handles : Message → Change
  works : ℕ → Change
  takes context_ends leaves monitor_looks closes : Change

-- `Start` returns once it has closed the channel and the monitor has signalled.
unfoldable pub has_returned : {D : Type 0} → Pool D → Bool
has_returned p = p.closed && p.workers_done

module _ {D : Type 0} ⦃R : Storage D⦄ ⦃J : TelemetryJson⦄ where
  abbrev pub with_work : Pool D → Option (Collector × D) → Option (Pool D)
  with_work p none = none
  with_work p (some (c, d)) = some (record p { collector = c; database = d })

  -- `none`: it cannot happen now, or it is a panic (a send on the closed channel).
  unfoldable pub change : Change → Pool D → Option (Pool D)
  change (handles m) p =
      if p.closed then none else with_work p (Collector.step (enqueued m) p.collector p.database)
  change takes p = with_work p (with_database (take_message p.workers p.collector) p.database)
  change (works i) p = with_work p (work i p.collector p.database)
  change context_ends p = some (record p { context_done = true })
  change leaves p =
      if p.context_done && ltb (length p.collector.busy) p.workers
      then some (record p { workers = p.workers - 1 })
      else none
  change monitor_looks p =
      if p.context_done && length p.collector.work_queue == 0
      then some (record p { workers_done = true })
      else none
  change closes p =
      if p.context_done && not p.closed then some (record p { closed = true }) else none

  unfoldable pub run : List Change → Pool D → Option (Pool D)
  run [] p = some p
  run (e ∷ es) p = elim (change e p) [ none ↦ none | some p' ↦ run es p' ]

-- No worker is left, a message is, and the monitor has not signalled.
pub record IsStuck {D : Type 0} (p : Pool D) : Type 0 where
  pub no_worker : p.workers ≡ 0
  pub work_left : (length p.collector.work_queue == 0) ≡ false
  pub not_done : p.workers_done ≡ false

module _ {D : Type 0} ⦃R : Storage D⦄ ⦃J : TelemetryJson⦄ where
  IsStuck-change : (e : Change) (p p' : Pool D) → IsStuck p → change e p ≡ some p' → IsStuck p'
  unfolding change Collector.step take_message
  IsStuck-change (handles m) p p' s h = record {
    no_worker = ground (arith, h, s.no_worker);
    work_left = ground (arith, h, s.work_left, length-append p.collector.work_queue (m ∷ []));
    not_done = ground (arith, h, s.not_done);
  }
  IsStuck-change takes p p' s h = absurd (ground (arith, h, s.no_worker))
  IsStuck-change (works i) p p' s h = elim (Option-cases (work i p.collector p.database)) [
    | inl n ↦ absurd (ground (arith, n, h))
    | inr ((c, d), e) ↦ record {
      no_worker = ground (arith, e, h, s.no_worker);
      work_left = ground (arith, e, h, s.work_left, work-same_queue i p.collector c p.database d e);
      not_done = ground (arith, e, h, s.not_done);
    }
  ]
  IsStuck-change context_ends p p' s h = record {
    no_worker = ground (arith, h, s.no_worker);
    work_left = ground (arith, h, s.work_left);
    not_done = ground (arith, h, s.not_done);
  }
  IsStuck-change leaves p p' s h = absurd (ground (arith, h, s.no_worker))
  IsStuck-change monitor_looks p p' s h = absurd (ground (arith, h, s.work_left))
  IsStuck-change closes p p' s h = record {
    no_worker = ground (arith, h, s.no_worker);
    work_left = ground (arith, h, s.work_left);
    not_done = ground (arith, h, s.not_done);
  }

  -- Once every worker has returned while a message is still in the channel and the monitor has not
  -- signalled, `Start` does not return, whatever happens next: nobody takes the message, and the monitor
  -- waits for an empty channel.
  pub run-not_returned :
      (es : List Change) (p p' : Pool D) → IsStuck p → run es p ≡ some p' → has_returned p' ≡ false
  unfolding run has_returned
  run-not_returned [] p p' s h = ground (arith, h, s.not_done)
  run-not_returned (e ∷ es) p p' s h = elim (Option-cases (change e p)) [
    | inl n ↦ absurd (ground (arith, n, h))
    | inr (q, c) ↦ run-not_returned es q p' (IsStuck-change e p q s c) (ground (arith, c, h))
  ]
