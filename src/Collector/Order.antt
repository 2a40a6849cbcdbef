-- ===== src/Collector/Order.antt =====
-- In which order the collector's workers take the messages that reach its channel.
use gpu_telemetry_pipeline.Base.{
  ℕ, zero, suc, ◌+◌, ◌≡◌, Option, none, some, List, [], ◌∷◌, ◌++◌, length, get_elem?, ap, sym, refl,
  subst, ◌∙◌, arith, append_assoc, append_nil, length-append,
}
use mathlib.Core.Option.{some-injective}
use gpu_telemetry_pipeline.Domain.{TelemetryPoint, TelemetryJson}
use gpu_telemetry_pipeline.Message.{Message}
use gpu_telemetry_pipeline.Storage.{Storage}
use gpu_telemetry_pipeline.Collector.{
  Collector, Job, started, storing_gpu, storing_telemetry, Event, enqueued, timed_out, cancelled,
  takes, works, new_collector, check_point, check_message, count_processed, count_error,
  TelemetryError, validate_telemetry, place, job_step, step, run,
}
use gpu_telemetry_pipeline.Collector.Counts.{turns, arrivals}
use gpu_telemetry_pipeline.Collector.Steps.{
  run-step, enqueued-room, takes-next, works-next, job_step-Settles,
}

abbrev pub message_of : Job → Message
message_of (started m) = m
message_of (storing_gpu m t) = m
message_of (storing_telemetry m t) = m

-- The jobs' messages are among the messages, each at its own place and in the same order.
pub data AreAmong : List Job → List Message → Type 0 where
  no_more : AreAmong [] []
  passed : {js : List Job} {ms : List Message} (m : Message) → AreAmong js ms → AreAmong js (m ∷ ms)
  in_work :
      {js : List Job} {ms : List Message} (j : Job) (m : Message)
      → message_of j ≡ m
      → AreAmong js ms
      → AreAmong (j ∷ js) (m ∷ ms)

-- A worker goes on with the message that it has.
data KeepsMessage (j : Job) : Option Job → Type 0 where
  done : KeepsMessage j none
  goes_on : (next : Job) → message_of next ≡ message_of j → KeepsMessage j (some next)

AreAmong-append :
    (js : List Job) (ms : List Message) (m : Message)
    → AreAmong js ms
    → AreAmong (js ++ started m ∷ []) (ms ++ m ∷ [])
AreAmong-append js ms m no_more = in_work (started m) m refl no_more
AreAmong-append js ms m (passed x s) = passed x (AreAmong-append _ _ m s)
AreAmong-append js ms m (in_work j x e s) = in_work j x e (AreAmong-append _ _ m s)

AreAmong-place :
    (i : ℕ) (js : List Job) (ms : List Message) (j : Job) (next : Option Job)
    → get_elem? js i ≡ some j
    → KeepsMessage j next
    → AreAmong js ms
    → AreAmong (place i next js) ms
AreAmong-place i js ms j next e k no_more = absurd (cc)
AreAmong-place i js ms j next e k (passed x s) = passed x (AreAmong-place i _ _ j next e k s)
AreAmong-place zero js ms j none e k (in_work y x h s) = passed x s
AreAmong-place zero js ms j (some z) e (goes_on _ f) (in_work y x h s) =
    in_work z x (f ∙ sym (ap message_of (some-injective _ _ e)) ∙ h) s
AreAmong-place (suc i) js ms j next e k (in_work y x h s) =
    in_work y x h (AreAmong-place i _ _ j next e k s)

check_point-KeepsMessage :
    (m : Message) (t : TelemetryPoint) (e : Option TelemetryError) (c : Collector)
    → KeepsMessage (started m) (check_point m t e c).0
check_point-KeepsMessage m t none c = goes_on (storing_gpu m t) refl
check_point-KeepsMessage m t (some e) c = done

check_message-KeepsMessage :
    (m : Message) (o : Option TelemetryPoint) (c : Collector)
    → KeepsMessage (started m) (check_message m o c).0
check_message-KeepsMessage m none c = done
check_message-KeepsMessage m (some t) c = check_point-KeepsMessage m t (validate_telemetry t) c

-- `taken` are the messages that workers took so far, of those that arrived.
pub record InOrder (n : ℕ) (arrived : List Message) (c : Collector) : Type 0 where
  pub taken : List Message
  pub each_turn : length taken ≡ n
  pub in_turn : taken ++ c.work_queue ≡ arrived
  pub in_progress : AreAmong c.busy taken

module _ {D : Type 0} ⦃R : Storage D⦄ ⦃J : TelemetryJson⦄ where
  job_step-KeepsMessage : (j : Job) (c : Collector) (d : D) → KeepsMessage j (job_step j c d).0
  unfolding job_step
  job_step-KeepsMessage (started m) c d =
      check_message-KeepsMessage m (J.unmarshal m.payload) (count_processed c)
  job_step-KeepsMessage (storing_gpu m t) c d = goes_on (storing_telemetry m t) refl
  job_step-KeepsMessage (storing_telemetry m t) c d = done

  run-InOrder :
      (es : List Event) (n : ℕ) (arrived : List Message) (c : Collector) (d : D) (s : Collector × D)
      → InOrder n arrived c
      → run es c d ≡ some s
      → InOrder (n + turns es) (arrived ++ arrivals es) s.0
  run-InOrder [] n arrived c d s k e =
      let same = ap (λ (s : Collector × D). s.0) (some-injective (c, d) s (unfold run in e)) in
      subst (InOrder (n + 0) (arrived ++ [])) same (record {
        taken = k.taken;
        each_turn = omega (arith, k.each_turn);
        in_turn = k.in_turn ∙ sym (append_nil arrived);
        in_progress = k.in_progress;
      })
  run-InOrder (enqueued m ∷ es) n arrived c d s k e =
      let (c', d', p, q) = run-step (enqueued m) es c d s e in
      let (room, same) = enqueued-room m c c' d d' p in
      let k' : InOrder n (arrived ++ m ∷ []) c' =
        subst (InOrder n (arrived ++ m ∷ [])) (sym same) (record {
          taken = k.taken;
          each_turn = k.each_turn;
          in_turn =
              sym (append_assoc k.taken c.work_queue (m ∷ [])) ∙ ap (λ ms. ms ++ m ∷ []) k.in_turn;
          in_progress = k.in_progress;
        }) in
      subst (λ ms. InOrder (n + turns es) ms s.0) (append_assoc arrived (m ∷ []) (arrivals es))
        (run-InOrder es n (arrived ++ m ∷ []) c' d' s k' q)
  run-InOrder (timed_out m ∷ es) n arrived c d s k e =
      run-InOrder es n arrived (count_error c) d s
        (record {
          taken = k.taken;
          each_turn = k.each_turn;
          in_turn = k.in_turn;
          in_progress = k.in_progress;
        })
        (unfold run step in e)
  run-InOrder (cancelled m ∷ es) n arrived c d s k e =
      run-InOrder es n arrived c d s k (unfold run step in e)
  run-InOrder (takes ∷ es) n arrived c d s k e =
      let (c', d', p, q) = run-step takes es c d s e in
      let (m, ms, front, room, same) = takes-next c c' d d' p in
      let k' : InOrder (suc n) arrived c' = subst (InOrder (suc n) arrived) (sym same) (record {
        taken = k.taken ++ m ∷ [];
        each_turn = omega (arith, length-append k.taken (m ∷ []), k.each_turn);
        in_turn =
            append_assoc k.taken (m ∷ []) ms ∙ ap (λ ms. k.taken ++ ms) (sym front) ∙ k.in_turn;
        in_progress = AreAmong-append c.busy k.taken m k.in_progress;
      }) in
      let r = run-InOrder es (suc n) arrived c' d' s k' q in
      record {
        taken = r.taken;
        each_turn = omega (arith, r.each_turn);
        in_turn = r.in_turn;
        in_progress = r.in_progress;
      }
  run-InOrder (works i ∷ es) n arrived c d s k e =
      let (c', d', p, q) = run-step (works i) es c d s e in
      let (j, at, same) = works-next i c c' d d' p in
      let settled = job_step-Settles j c d in
      let moved =
        AreAmong-place i c.busy k.taken j (job_step j c d).0 at (job_step-KeepsMessage j c d)
          k.in_progress in
      let k' : InOrder n arrived c' = subst (InOrder n arrived) (sym same) (record {
        taken = k.taken;
        each_turn = k.each_turn;
        in_turn = ap (λ ms. k.taken ++ ms) settled.same_queue ∙ k.in_turn;
        in_progress =
            subst (λ js. AreAmong (place i (job_step j c d).0 js) k.taken) (sym settled.same_busy)
              moved;
      }) in
      run-InOrder es n arrived c' d' s k' q

  -- After any run of a new collector, its workers interleaved in any order: the messages that workers
  -- took, one for each turn, and behind them those in the channel are the messages that reached the
  -- channel, in their order, none twice and none left out; and those that workers are busy with, each
  -- with another one, are among the messages taken, in the order in which they were taken.
  pub run-fifo :
      (es : List Event) (d : D) (s : Collector × D)
      → run es new_collector d ≡ some s
      → InOrder (turns es) (arrivals es) s.0
  unfolding new_collector
  run-fifo es d s h =
      let start : InOrder 0 [] new_collector = record {
        taken = [];
        each_turn = refl;
        in_turn = refl;
        in_progress = no_more;
      } in
      let r = run-InOrder es 0 [] new_collector d s start h in
      record {
        taken = r.taken;
        each_turn = omega (arith, r.each_turn);
        in_turn = r.in_turn;
        in_progress = r.in_progress;
      }
