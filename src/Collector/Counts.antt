-- ===== src/Collector/Counts.antt =====
-- What the counters and the bounds of internal/collector/collector.go are after any run of events.
use gpu_telemetry_pipeline.Base.{
  Option, none, zero, get_elem?, ℕ, ◌+◌, ◌%◌, ◌≤◌, suc, some, List, [], ◌∷◌, ◌++◌, ◌≡◌, refl, sym,
  ◌<◌, length, length-append, subst, ap, ◌∙◌, arith,
}
use mathlib.Core.Option.{some-injective}
use gpu_telemetry_pipeline.Domain.{TelemetryJson}
use gpu_telemetry_pipeline.Message.{Message}
use gpu_telemetry_pipeline.Storage.{Storage}
use gpu_telemetry_pipeline.Collector.{
  Collector, Job, started, storing_gpu, storing_telemetry, Event, enqueued, timed_out, cancelled,
  takes, works, new_collector, process_message, count_error, place, step, run, work_queue_size,
  worker_pool_size,
}
use gpu_telemetry_pipeline.Collector.Steps.{
  size, one, Settles, job_step-Settles, run-step, enqueued-room, takes-next, works-next,
}

-- How often a worker took a message.
abbrev pub turns : List Event → ℕ
turns [] = 0
turns (enqueued m ∷ es) = turns es
turns (timed_out m ∷ es) = turns es
turns (cancelled m ∷ es) = turns es
turns (takes ∷ es) = suc (turns es)
turns (works i ∷ es) = turns es

-- How many messages found no room in time.
abbrev pub drops : List Event → ℕ
drops [] = 0
drops (enqueued m ∷ es) = drops es
drops (timed_out m ∷ es) = suc (drops es)
drops (cancelled m ∷ es) = drops es
drops (takes ∷ es) = drops es
drops (works i ∷ es) = drops es

-- The messages that reached the channel.
abbrev pub arrivals : List Event → List Message
arrivals [] = []
arrivals (enqueued m ∷ es) = m ∷ arrivals es
arrivals (timed_out m ∷ es) = arrivals es
arrivals (cancelled m ∷ es) = arrivals es
arrivals (takes ∷ es) = arrivals es
arrivals (works i ∷ es) = arrivals es

-- The workers that have not counted their message yet.
abbrev pub uncounted : List Job → ℕ
uncounted [] = 0
uncounted (started m ∷ js) = suc (uncounted js)
uncounted (storing_gpu m t ∷ js) = uncounted js
uncounted (storing_telemetry m t ∷ js) = uncounted js

-- The counters for `taken` messages that workers took and `lost` ones dropped, and the bounds of the
-- channel and the pool.
pub record Counted (taken lost : ℕ) (c : Collector) : Type 0 where
  pub processed_count :
      (c.messages_processed + uncounted c.busy) % 18446744073709551616
      ≡ taken % 18446744073709551616
  pub balance :
      (c.messages_errors + c.telemetry_stored + length c.busy) % 18446744073709551616
      ≡ (taken + lost) % 18446744073709551616
  pub bounded : length c.work_queue ≤ work_queue_size
  pub pool_bound : length c.busy ≤ worker_pool_size

length-place :
    (i : ℕ) (js : List Job) (j : Job) (next : Option Job)
    → get_elem? js i ≡ some j
    → length (place i next js) + 1 ≡ length js + size next
length-place i [] j next e = absurd (cc)
length-place zero (x ∷ js) j none e = omega arith
length-place zero (x ∷ js) j (some y) e = omega arith
length-place (suc i) (x ∷ js) j next e = omega (arith, length-place i js j next e)

uncounted-append :
    (js : List Job) (m : Message) → uncounted (js ++ started m ∷ []) ≡ suc (uncounted js)
uncounted-append [] m = refl
uncounted-append (started x ∷ js) m = ap suc (uncounted-append js m)
uncounted-append (storing_gpu x t ∷ js) m = uncounted-append js m
uncounted-append (storing_telemetry x t ∷ js) m = uncounted-append js m

uncounted-cons : (x : Job) (js : List Job) → uncounted (x ∷ js) ≡ one (some x) + uncounted js
uncounted-cons (started m) js = omega arith
uncounted-cons (storing_gpu m t) js = omega arith
uncounted-cons (storing_telemetry m t) js = omega arith

uncounted-place :
    (i : ℕ) (js : List Job) (j : Job) (next : Option Job)
    → get_elem? js i ≡ some j
    → uncounted (place i next js) + one (some j) ≡ uncounted js + one next
uncounted-place i [] j next e = absurd (cc)
uncounted-place zero (x ∷ js) j none e =
    let same = ap one e in omega (arith, same, uncounted-cons x js)
uncounted-place zero (x ∷ js) j (some y) e =
    let same = ap one e in omega (arith, same, uncounted-cons x js, uncounted-cons y js)
uncounted-place (suc i) (x ∷ js) j next e =
    omega (
      arith,
      uncounted-place i js j next e,
      uncounted-cons x js,
      uncounted-cons x (place i next js),
    )

module _ {D : Type 0} ⦃R : Storage D⦄ ⦃J : TelemetryJson⦄ where
  -- What one message makes of the database where no other is processed meanwhile.
  unfoldable pub effect : Message → D → D
  effect m d = (process_message m new_collector d).1

  unfoldable pub effects : List Message → D → D
  effects [] d = d
  effects (m ∷ ms) d = effects ms (effect m d)

Counted-takes :
    (taken lost : ℕ) (c : Collector) (m : Message) (ms : List Message)
    → c.work_queue ≡ m ∷ ms
    → length c.busy < worker_pool_size
    → Counted taken lost c
    → Counted (suc taken) lost (record c { work_queue = ms; busy = c.busy ++ started m ∷ [] })
Counted-takes taken lost c m ms front room k =
    let more = length-append c.busy (started m ∷ []) in
    record {
      processed_count = omega (arith, k.processed_count, uncounted-append c.busy m);
      balance = omega (arith, k.balance, more);
      bounded = omega (arith, ap length front, k.bounded);
      pool_bound = omega (arith, room, more);
    }

Counted-works :
    (taken lost i : ℕ) (j : Job) (c : Collector) (next : Option Job) (c' : Collector)
    → get_elem? c.busy i ≡ some j
    → Settles j c next c'
    → Counted taken lost c
    → Counted taken lost (record c' { busy = place i next c'.busy })
Counted-works taken lost i j c next c' e s k =
    let fewer : length (place i next c'.busy) + 1 ≡ length c.busy + size next =
      ap (λ js. length (place i next js) + 1) s.same_busy ∙ length-place i c.busy j next e in
    let counted : uncounted (place i next c'.busy) + one (some j) ≡ uncounted c.busy + one next =
      ap (λ js. uncounted (place i next js) + one (some j)) s.same_busy
      ∙ uncounted-place i c.busy j next e in
    record {
      processed_count = omega (arith, k.processed_count, s.processed, counted);
      balance = omega (arith, k.balance, s.settled, fewer);
      bounded = omega (arith, ap length s.same_queue, k.bounded);
      pool_bound = within next fewer;
    }
  where
    within :
        (next : Option Job)
        → length (place i next c'.busy) + 1 ≡ length c.busy + size next
        → length (place i next c'.busy) ≤ worker_pool_size
    within none f = omega (arith, f, k.pool_bound)
    within (some y) f = omega (arith, f, k.pool_bound)

module _ {D : Type 0} ⦃R : Storage D⦄ ⦃J : TelemetryJson⦄ where
  run-Counted :
      (es : List Event) (taken lost : ℕ) (c : Collector) (d : D) (s : Collector × D)
      → Counted taken lost c
      → run es c d ≡ some s
      → Counted (taken + turns es) (lost + drops es) s.0
  run-Counted [] taken lost c d s k e =
      let same = ap (λ (s : Collector × D). s.0) (some-injective (c, d) s (unfold run in e)) in
      subst (Counted (taken + 0) (lost + 0)) same (record {
        processed_count = omega (arith, k.processed_count);
        balance = omega (arith, k.balance);
        bounded = k.bounded;
        pool_bound = k.pool_bound;
      })
  run-Counted (enqueued m ∷ es) taken lost c d s k e =
      let (c', d', p, q) = run-step (enqueued m) es c d s e in
      let (room, same_c) = enqueued-room m c c' d d' p in
      let k' : Counted taken lost c' = subst (Counted taken lost) (sym same_c) (record {
        processed_count = k.processed_count;
        balance = k.balance;
        bounded = omega (arith, room, length-append c.work_queue (m ∷ []));
        pool_bound = k.pool_bound;
      }) in
      run-Counted es taken lost c' d' s k' q
  run-Counted (timed_out m ∷ es) taken lost c d s k e =
      let k' : Counted taken (suc lost) (count_error c) = record {
        processed_count = k.processed_count;
        balance = omega (arith, k.balance);
        bounded = k.bounded;
        pool_bound = k.pool_bound;
      } in
      let r = run-Counted es taken (suc lost) (count_error c) d s k' (unfold run step in e) in
      record {
        processed_count = r.processed_count;
        balance = omega (arith, r.balance);
        bounded = r.bounded;
        pool_bound = r.pool_bound;
      }
  run-Counted (cancelled m ∷ es) taken lost c d s k e =
      run-Counted es taken lost c d s k (unfold run step in e)
  run-Counted (takes ∷ es) taken lost c d s k e =
      let (c', d', p, q) = run-step takes es c d s e in
      let (m, ms, front, room, same_c) = takes-next c c' d d' p in
      let k' : Counted (suc taken) lost c' =
        subst (Counted (suc taken) lost) (sym same_c)
          (Counted-takes taken lost c m ms front room k) in
      let r = run-Counted es (suc taken) lost c' d' s k' q in
      record {
        processed_count = omega (arith, r.processed_count);
        balance = omega (arith, r.balance);
        bounded = r.bounded;
        pool_bound = r.pool_bound;
      }
  run-Counted (works i ∷ es) taken lost c d s k e =
      let (c', d', p, q) = run-step (works i) es c d s e in
      let (j, at, same_c) = works-next i c c' d d' p in
      let k' : Counted taken lost c' =
        subst (Counted taken lost) (sym same_c)
          (Counted-works taken lost i j c _ _ at (job_step-Settles j c d) k) in
      run-Counted es taken lost c' d' s k' q

  -- After any run of a new collector, its workers interleaved in any order: the messages that workers took
  -- are those that the processed counter counts and those whose worker has not counted them yet; the
  -- errors, the stored points and the messages in work add up to those taken and those dropped, all
  -- modulo the counters' 2^64; the channel never holds more than its 1000 places, and no more than 50
  -- messages are in work.
  pub run-balanced :
      (es : List Event) (d : D) (s : Collector × D)
      → run es new_collector d ≡ some s
      → Counted (turns es) (drops es) s.0
  unfolding new_collector
  run-balanced es d s h =
      let r =
        run-Counted es 0 0 new_collector d s
          (record {
            processed_count = refl;
            balance = refl;
            bounded = omega arith;
            pool_bound = omega arith;
          })
          h in
      record {
        processed_count = omega (arith, r.processed_count);
        balance = omega (arith, r.balance);
        bounded = r.bounded;
        pool_bound = r.pool_bound;
      }
