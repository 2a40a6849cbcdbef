-- ===== src/QueueService/Counting.antt =====
-- The wait group of a `RedisQueue` counts the goroutines that run.
use mathlib.Core.Option.{some-injective}
use gpu_telemetry_pipeline.Base.{
  ℕ, zero, suc, ◌==◌, ◌&&◌, String, true, Option, none, some, List, [], ◌∷◌, inl, inr, ◌≡◌, refl,
  sym, ◌∙◌, ap, length, get_elem?, length-append, Option-cases, Bool-cases, arith,
}
use gpu_telemetry_pipeline.Message.{Message}
use gpu_telemetry_pipeline.Redis.{Redis}
use gpu_telemetry_pipeline.HttpServer.{Decoders}
use gpu_telemetry_pipeline.HttpServer.Mux.{Service}
use gpu_telemetry_pipeline.QueueService.Lifecycle.{
  new_redis_queue, Goroutine, Wake, Event, requests, streams, leaves, turns, close_begins,
  close_returns, started, place, count, Lifecycle, turn, after_turn, with_service, served, turn_at,
  step, run,
}

pub length-place :
    (i : ℕ) (gs : List Goroutine) (g : Goroutine) (next : Option Goroutine) (n : ℕ)
    → get_elem? gs i ≡ some g
    → count next (length gs) ≡ some n
    → length (place i next gs) ≡ n
length-place i [] g next n e c = absurd (cc)
length-place zero (x ∷ xs) g none n e c = ground (arith, c)
length-place zero (x ∷ xs) g (some y) n e c = ground (arith, c)
length-place (suc i) (x ∷ []) g next n e c = absurd (cc)
length-place (suc i) (x ∷ y ∷ xs) g none n e c =
    let ih = length-place i (y ∷ xs) g none (length xs) e refl in ground (arith, ih, c)
length-place (suc i) (x ∷ y ∷ xs) g (some z) n e c =
    let ih = length-place i (y ∷ xs) g (some z) (length (y ∷ xs)) e refl in ground (arith, ih, c)

module _ ⦃R : Redis⦄ where
  -- The counter of the wait group is the number of goroutines that run.
  abbrev pub Counts : Lifecycle → Type 0
  Counts l = l.waiting ≡ length l.running

  with_service-Counts :
      (s : Option Service) (l l' : Lifecycle) → with_service s l ≡ some l' → Counts l → Counts l'
  with_service-Counts none l l' e c = absurd (cc)
  with_service-Counts (some s) l l' e c =
      let new = started l.service.broker s.broker in
      let total = length-append l.running new in
      rw (← some-injective _ _ e) (omega (arith, c, total))

  served-Counts :
      (s : Option Service) (l l' : Lifecycle) → served s l ≡ some l' → Counts l → Counts l'
  served-Counts s l l' e c = elim (Bool-cases l.is_cancelled) [
    | inl b ↦ let same : some l ≡ some l' = ground (arith, b, e) in rw (← some-injective _ _ same) c
    | inr b ↦ with_service-Counts s l l' (ground (arith, b, e)) c
  ]

  after_turn-Counts :
      (i : ℕ) (g : Goroutine) (out : Option (Option Goroutine × Service)) (l l' : Lifecycle)
      → get_elem? l.running i ≡ some g
      → after_turn i out l ≡ some l'
      → Counts l
      → Counts l'
  after_turn-Counts i g none l l' f e c = absurd (cc)
  after_turn-Counts i g (some (next, s)) l l' f e c = elim (Option-cases (count next l.waiting)) [
    | inl n ↦ absurd (ground (arith, n, e))
    | inr (n, k) ↦
        let size = length-place i l.running g next n f (ap (count next) (sym c) ∙ k) in
        let same : some (record l { service = s; running = place i next l.running; waiting = n })
            ≡ some l' =
          ground (arith, k, e) in
        rw (← some-injective _ _ same) (sym size)
  ]

  turn_at-Counts :
      (i : ℕ) (w : Wake) (l l' : Lifecycle) → turn_at i w l ≡ some l' → Counts l → Counts l'
  turn_at-Counts i w l l' e c = elim (Option-cases (get_elem? l.running i)) [
    | inl n ↦ let same : some l ≡ some l' = ground (arith, n, e) in rw (← some-injective _ _ same) c
    | inr (g, f) ↦ after_turn-Counts i g (turn w g l) l l' f (ground (arith, f, e)) c
  ]

  pub new_redis_queue-Counts :
      {Options : Type 0} (parse_url : String → Option Options) (ping : Options → Option R.Store)
      (url : String) (timeout retries : ℕ) (l : Lifecycle)
      → new_redis_queue parse_url ping url timeout retries ≡ inr l
      → Counts l
  unfolding new_redis_queue
  new_redis_queue-Counts parse_url ping url timeout retries l e = ground (arith, e)

  module _ ⦃X : Decoders⦄ (marshal : Message → Option String) where
    step-Counts : (e : Event) (l l' : Lifecycle) → step marshal e l ≡ some l' → Counts l → Counts l'
    unfolding step
    step-Counts (requests clock r) l l' e c = served-Counts _ l l' e c
    step-Counts (streams signal ch) l l' e c = served-Counts _ l l' e c
    step-Counts (leaves r) l l' e c = served-Counts _ l l' e c
    step-Counts (turns n w) l l' e c = turn_at-Counts _ w l l' e c
    step-Counts close_begins l l' e c = rw (← some-injective _ _ e) c
    step-Counts close_returns l l' e c = elim (Bool-cases (l.is_cancelled && l.waiting == 0)) [
      | inl b ↦
          let same : some (record l { is_closed = true }) ≡ some l' = ground (arith, b, e) in
          rw (← some-injective _ _ same) c
      | inr b ↦
          let same : some l ≡ some l' = ground (arith, b, e) in rw (← some-injective _ _ same) c
    ]

    pub run-Counts :
        (es : List Event) (l l' : Lifecycle) → run marshal es l ≡ some l' → Counts l → Counts l'
    unfolding run
    run-Counts [] l l' e c = rw (← some-injective _ _ e) c
    run-Counts (x ∷ es) l l' e c = elim (Option-cases (step marshal x l)) [
      | inl n ↦ absurd (ground (arith, n, e))
      | inr (k, f) ↦ run-Counts es k l' (ground (arith, f, e)) (step-Counts x l k f c)
    ]
