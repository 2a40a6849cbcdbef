-- ===== src/QueueService/Closing.antt =====
-- Close of a `RedisQueue`: once the context has ended the goroutines return, and so does Close.
use mathlib.Core.Option.{some-injective}
use gpu_telemetry_pipeline.Base.{
  ℕ, zero, suc, ◌+◌, ◌*◌, ◌%◌, ◌<◌, ◌≤◌, String, true, Option, none, some, List, [], ◌∷◌, ◌⊎◌, inl,
  inr, ◌≡◌, refl, sym, ◌∙◌, ap, length, get_elem?, All, arith,
}
use native.Mathlib.Nat.{mod-lt}
use gpu_telemetry_pipeline.Message.{Message}
use gpu_telemetry_pipeline.Redis.{Redis}
use gpu_telemetry_pipeline.HttpServer.{Decoders}
use gpu_telemetry_pipeline.HttpServer.Mux.{Service}
use gpu_telemetry_pipeline.ConsumerGroups.Safe.{get_elem?-in_range}
use gpu_telemetry_pipeline.QueueService.Lifecycle.{
  Goroutine, checker, loop, in_batch, Wake, Event, turns, close_begins, close_returns, place, count,
  Lifecycle, new_redis_queue, checker_turn, turn, after_turn, turn_at, step, run,
}
use gpu_telemetry_pipeline.QueueService.Counting.{
  length-place, Counts, run-Counts, new_redis_queue-Counts,
}

-- The passes that a goroutine takes to its end once the context has ended.
abbrev to_go : Goroutine → ℕ
to_go checker = 1
to_go (loop t g i) = 1
to_go (in_batch t g i first others left) = 2

abbrev passes : List Goroutine → ℕ
passes [] = 0
passes (g ∷ gs) = to_go g + passes gs

passes-≤ : (gs : List Goroutine) → passes gs ≤ 2 * length gs
passes-≤ [] = omega arith
passes-≤ (checker ∷ gs) = omega (arith, passes-≤ gs)
passes-≤ (loop t g i ∷ gs) = omega (arith, passes-≤ gs)
passes-≤ (in_batch t g i first others left ∷ gs) = omega (arith, passes-≤ gs)

-- As what a goroutine goes on when the context has ended.
abbrev ended : Goroutine → Option Goroutine
ended checker = none
ended (loop t g i) = none
ended (in_batch t g i first others left) = some (loop t g i)

passes-first :
    (g : Goroutine) (gs : List Goroutine)
    → suc (passes (place zero (ended g) (g ∷ gs))) ≡ passes (g ∷ gs)
passes-first checker gs = omega arith
passes-first (loop t g i) gs = omega arith
passes-first (in_batch t g i first others left) gs = omega arith

passes-place :
    (i : ℕ) (gs : List Goroutine) (g : Goroutine)
    → get_elem? gs i ≡ some g
    → suc (passes (place i (ended g) gs)) ≡ passes gs
passes-place i [] g e = absurd (cc)
passes-place zero (x ∷ xs) g e = rw (← some-injective _ _ e) (passes-first x xs)
passes-place (suc i) (x ∷ xs) g e = let ih = passes-place i xs g e in omega (arith, ih)

passes-zero : (gs : List Goroutine) → passes gs ≤ 0 → gs ≡ []
passes-zero [] h = refl
passes-zero (checker ∷ gs) h = absurd (omega (arith, h))
passes-zero (loop t g i ∷ gs) h = absurd (omega (arith, h))
passes-zero (in_batch t g i first others left ∷ gs) h = absurd (omega (arith, h))

-- The goroutine whose turn it is, if one runs.
chosen :
    (gs : List Goroutine) (n : ℕ)
    → (gs ≡ []) ⊎ ((g : Goroutine) × (get_elem? gs (n % length gs) ≡ some g))
chosen [] n = inl refl
chosen (g ∷ gs) n =
    let size : ℕ = length (g ∷ gs) in
    let inside : n % size < size = mod-lt n (omega arith) in
    inr (get_elem?-in_range (g ∷ gs) (n % size) inside)

none_at : (gs : List Goroutine) (i : ℕ) → gs ≡ [] → get_elem? gs i ≡ none
none_at gs i e = rw e refl

-- The rest of Close: passes of the goroutines, each with the number that says whose turn it is, and the
-- return.
abbrev pub close_after : List (ℕ × Wake) → List Event
close_after [] = close_returns ∷ []
close_after (p ∷ ps) = turns p.0 p.1 ∷ close_after ps

abbrev pub SeesEnd : ℕ × Wake → Type 0
SeesEnd p = p.1.takes_context ≡ true

module _ ⦃R : Redis⦄ where
  turn-ended :
      (w : Wake) (g : Goroutine) (l : Lifecycle)
      → l.is_cancelled ≡ true
      → w.takes_context ≡ true
      → turn w g l ≡ some (ended g, l.service)
  unfolding turn checker_turn
  turn-ended w checker l c t = rw (c, t) refl
  turn-ended w (loop topic group i) l c t = rw c refl
  turn-ended w (in_batch topic group i first others left) l c t = rw c refl

  -- The context has ended, and the service is that one.
  record IsEnding (s : Service) (l : Lifecycle) : Type 0 where
    is_cancelled : l.is_cancelled ≡ true
    counts : Counts l
    service : l.service ≡ s

  -- A pass brings the end nearer.
  record Nears (s : Service) (l : Lifecycle) (out : Option Lifecycle) : Type 0 where
    after : Lifecycle
    is_some : out ≡ some after
    is_ending : IsEnding s after
    nearer : suc (passes after.running) ≡ passes l.running

  after_turn-Nears :
      (i : ℕ) (g : Goroutine) (n : ℕ) (s : Service) (l : Lifecycle)
      → get_elem? l.running i ≡ some g
      → count (ended g) l.waiting ≡ some n
      → IsEnding s l
      → Nears s l (after_turn i (some (ended g, l.service)) l)
  after_turn-Nears i g n s l f k v = record {
    after = record l { running = place i (ended g) l.running; waiting = n };
    is_some = rw (after_turn, k) refl;
    is_ending = record {
      is_cancelled = v.is_cancelled;
      counts =
          sym (length-place i l.running g (ended g) n f (ap (count (ended g)) (sym v.counts) ∙ k));
      service = v.service;
    };
    nearer = passes-place i l.running g f;
  }

  -- One that runs is counted.
  counted :
      (i : ℕ) (g : Goroutine) (gs : List Goroutine)
      → get_elem? gs i ≡ some g
      → (n : ℕ) × (count (ended g) (length gs) ≡ some n)
  counted i g [] f = absurd (cc)
  counted i checker (x ∷ gs) f = (length gs, refl)
  counted i (loop t c k) (x ∷ gs) f = (length gs, refl)
  counted i (in_batch t c k first others left) (x ∷ gs) f = (length (x ∷ gs), refl)

  turn_at-Nears :
      (i : ℕ) (w : Wake) (g : Goroutine) (s : Service) (l : Lifecycle)
      → get_elem? l.running i ≡ some g
      → w.takes_context ≡ true
      → IsEnding s l
      → Nears s l (turn_at i w l)
  turn_at-Nears i w g s l f t v =
      let (n, k) = counted i g l.running f in
      rw (turn_at, f, turn-ended w g l v.is_cancelled t)
        (after_turn-Nears i g n s l f (ap (count (ended g)) v.counts ∙ k) v)

  -- Close has returned, with the client closed, and the service is that one.
  pub record Closes (s : Service) (out : Option Lifecycle) : Type 0 where
    pub after : Lifecycle
    pub is_some : out ≡ some after
    pub is_closed : after.is_closed ≡ true
    pub none_running : after.running ≡ []
    pub same_service : after.service ≡ s

  module _ ⦃X : Decoders⦄ (marshal : Message → Option String) where
    still : (i : ℕ) (w : Wake) (l : Lifecycle) → l.running ≡ [] → turn_at i w l ≡ some l
    still i w l e = rw (turn_at, none_at l.running i e) refl

    close_after-Closes :
        (ps : List (ℕ × Wake)) (s : Service) (l : Lifecycle)
        → All SeesEnd ps
        → passes l.running ≤ length ps
        → IsEnding s l
        → Closes s (run marshal (close_after ps) l)
    unfolding run step
    close_after-Closes [] s l a h v =
        let none_left = passes-zero l.running h in
        record {
          after = record l { is_closed = true };
          is_some = rw (v.is_cancelled, v.counts ∙ ap length none_left) refl;
          is_closed = refl;
          none_running = none_left;
          same_service = v.service;
        }
    close_after-Closes (p ∷ ps) s l a h v = elim (chosen l.running p.0) [
      | inl e ↦
          let same = still (p.0 % length l.running) p.1 l e in
          let rest = close_after-Closes ps s l a.1 (rw e (omega arith)) v in
          record {
            after = rest.after;
            is_some = rw (run, same) rest.is_some;
            is_closed = rest.is_closed;
            none_running = rest.none_running;
            same_service = rest.same_service;
          }
      | inr (g, f) ↦
          let near = turn_at-Nears _ p.1 g s l f a.0 v in
          let rest =
            close_after-Closes ps s near.after a.1 (omega (arith, near.nearer, h)) near.is_ending in
          record {
            after = rest.after;
            is_some = rw (run, near.is_some) rest.is_some;
            is_closed = rest.is_closed;
            none_running = rest.none_running;
            same_service = rest.same_service;
          }
    ]

    -- Where a queue has connected and then come to a state by requests, turns and ends of streams,
    -- passes of its goroutines and calls of Close that are still waiting or have returned, in any order:
    -- if Close is called, and its goroutines take passes in any order, at least twice as many as there
    -- are goroutines, in which the end of the context is seen, then nothing panics, Close returns with the
    -- client closed, every goroutine has returned, and the service is as it was when Close was called.
    pub close-Closes :
        {Options : Type 0} (parse_url : String → Option Options) (ping : Options → Option R.Store)
        (url : String) (timeout retries : ℕ) (l l' : Lifecycle) (es : List Event)
        (ps : List (ℕ × Wake))
        → new_redis_queue parse_url ping url timeout retries ≡ inr l
        → run marshal es l ≡ some l'
        → All SeesEnd ps
        → 2 * length l'.running ≤ length ps
        → Closes l'.service (run marshal (close_begins ∷ close_after ps) l')
    unfolding run step
    close-Closes parse_url ping url timeout retries l l' es ps c e a h =
        let counts =
          run-Counts marshal es l l' e
            (new_redis_queue-Counts parse_url ping url timeout retries l c) in
        close_after-Closes ps l'.service (record l' { is_cancelled = true }) a
          (omega (arith, h, passes-≤ l'.running))
          (record { is_cancelled = refl; counts = counts; service = refl })
