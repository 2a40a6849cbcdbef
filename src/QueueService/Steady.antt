-- ===== src/QueueService/Steady.antt =====
-- The life of a `RedisQueue` with its goroutines: nothing panics, and no message is lost.
use mathlib.Core.Option.{some-injective}
use gpu_telemetry_pipeline.Base.{
  ◌++◌, if◌then◌else◌, ℕ, ◌+◌, ◌%◌, ◌==◌, ◌&&◌, String, Bool, true, false, Option, none, some, List,
  [], ◌∷◌, inl, inr, ◌≡◌, subst, refl, sym, ◌∙◌, ap, length, get_elem?, length-append, Option-cases,
  Bool-cases, All, arith,
}
use gpu_telemetry_pipeline.Message.{Message}
use gpu_telemetry_pipeline.Redis.{Redis, RedisLaws, IsHealthy}
use gpu_telemetry_pipeline.HttpServer.{Decoders}
use gpu_telemetry_pipeline.HttpServer.Mux.{Service}
use gpu_telemetry_pipeline.RedisQueue.Held.{Held}
use gpu_telemetry_pipeline.ConsumerGroups.{new_broker}
use gpu_telemetry_pipeline.ConsumerGroups.Open.{IsSound}
use gpu_telemetry_pipeline.ConsumerGroups.Safe.{new_broker-IsSound}
use gpu_telemetry_pipeline.ConsumerGroups.Deliveries.{Round, round_of}
use gpu_telemetry_pipeline.QueueService
use gpu_telemetry_pipeline.QueueService.{service_of}
use gpu_telemetry_pipeline.QueueService.Good.{Spares, IsGood}
use gpu_telemetry_pipeline.QueueService.Whole.{GoesOn, step-GoesOn}
use gpu_telemetry_pipeline.QueueService.Lifecycle.{
  Goroutine, checker, loop, in_batch, Wake, Event, requests, streams, leaves, turns, close_begins,
  close_returns, started, place, count, Lifecycle, new_redis_queue, checker_turn, turn, after_one,
  next_pass, after_turn, with_service, served, turn_at, step, run,
}
use gpu_telemetry_pipeline.QueueService.Counting.{Counts, length-place, new_redis_queue-Counts}

-- The event is no request that acknowledges a message of that id.
abbrev pub SparesMessage : ⦃X : Decoders⦄ → String → Event → Type 0
SparesMessage id (requests clock r) = Spares id (QueueService.requests clock r)
SparesMessage id (streams signal ch) = Unit
SparesMessage id (leaves r) = Unit
SparesMessage id (turns n w) = Unit
SparesMessage id close_begins = Unit
SparesMessage id close_returns = Unit

-- A goroutine that runs is counted.
counted :
    (i n : ℕ) (g : Goroutine) (next : Option Goroutine) (gs : List Goroutine)
    → get_elem? gs i ≡ some g
    → n ≡ length gs
    → (k : ℕ) × (count next n ≡ some k)
counted i n g next [] f e = absurd (cc)
counted i n g none (x ∷ gs) f e = (length gs, rw e refl)
counted i n g (some y) (x ∷ gs) f e = (n, refl)

module _ ⦃R : Redis⦄ where
  new_redis_queue-IsSound :
      {Options : Type 0} (parse_url : String → Option Options) (ping : Options → Option R.Store)
      (url : String) (timeout retries : ℕ) (l : Lifecycle)
      → new_redis_queue parse_url ping url timeout retries ≡ inr l
      → IsSound l.service.broker
  unfolding new_redis_queue
  new_redis_queue-IsSound parse_url ping url timeout retries l e =
      let same : new_broker ≡ l.service.broker = ground (arith, e) in
      subst IsSound same new_broker-IsSound

module _ ⦃R : Redis⦄ (L : RedisLaws R) (H : IsHealthy R) (m : Message) where
  -- The wait group counts the goroutines, the consumer groups are sound, and the message is held.
  pub record IsSteady (l : Lifecycle) : Type 0 where
    pub counts : Counts l
    pub is_good : IsGood L H m l.service

  -- Nothing has panicked, and all is steady.
  pub record Steady (out : Option Lifecycle) : Type 0 where
    pub after : Lifecycle
    pub is_some : out ≡ some after
    pub is_steady : IsSteady after

  -- A pass without a panic, with a service that is good.
  record Passes (out : Option (Option Goroutine × Service)) : Type 0 where
    next : Option Goroutine
    after : Service
    is_some : out ≡ some (next, after)
    is_good : IsGood L H m after

  module _ ⦃X : Decoders⦄ (marshal : Message → Option String) where
    with_service-Steady :
        (o : Option Service) (l : Lifecycle)
        → GoesOn L H m o
        → IsSteady l
        → Steady (with_service o l)
    with_service-Steady o l went v =
        let new = started l.service.broker went.after.broker in
        record {
          after = record l {
            service = went.after;
            running = l.running ++ new;
            waiting = l.waiting + length new;
          };
          is_some = rw (went.is_some) refl;
          is_steady = record {
            counts = omega (arith, v.counts, length-append l.running new);
            is_good = went.is_good;
          };
        }

    Passes-if :
        (b : Bool) (x y : Option (Option Goroutine × Service))
        → Passes x
        → Passes y
        → Passes (if b then x else y)
    Passes-if true x y u v = u
    Passes-if false x y u v = v

    Steady-if :
        (b : Bool) (x y : Option Lifecycle) → Steady x → Steady y → Steady (if b then x else y)
    Steady-if true x y u v = u
    Steady-if false x y u v = v

    served-Steady :
        (o : Option Service) (l : Lifecycle) → GoesOn L H m o → IsSteady l → Steady (served o l)
    served-Steady o l went v =
        Steady-if l.is_cancelled _ _ (record { after = l; is_some = refl; is_steady = v })
          (with_service-Steady o l went v)

    checker_turn-Passes :
        (w : Wake) (l : Lifecycle) → IsGood L H m l.service → Passes (some (checker_turn w l))
    unfolding checker_turn QueueService.step
    checker_turn-Passes w l g = elim (Bool-cases l.is_cancelled) [
      | inl c ↦ record {
        next = if w.takes_context then none else some checker;
        after = l.service;
        is_some = rw c refl;
        is_good = g;
      }
      | inr c ↦
          let went = step-GoesOn L H m marshal (QueueService.checks w.now) l.service tt g in
          record {
            next = some checker;
            after = went.after;
            is_some = rw c (ap (λ s. some (some checker, s)) (some-injective _ _ went.is_some));
            is_good = went.is_good;
          }
    ]

    after_one-Passes :
        (topic group first : String) (others : List String) (left : ℕ) (out : Option (Bool × Round))
        → GoesOn L H m (service_of (round_of out))
        → Passes (after_one topic group first others left out)
    after_one-Passes topic group first others left none went = absurd (ground (arith, went.is_some))
    after_one-Passes topic group first others left (some (more, r)) went =
        let next = some (next_pass topic group r.consumer_index first others more left) in
        record {
          next = next;
          after = went.after;
          is_some = ap (λ s. some (next, s)) (some-injective _ _ went.is_some);
          is_good = went.is_good;
        }

    turn-Passes :
        (w : Wake) (g : Goroutine) (l : Lifecycle) → IsGood L H m l.service → Passes (turn w g l)
    unfolding turn QueueService.step
    turn-Passes w checker l v = checker_turn-Passes w l v
    turn-Passes w (loop topic group i) l v =
        Passes-if l.is_cancelled _ _
          (record { next = none; after = l.service; is_some = refl; is_good = v })
          (record { next = _; after = l.service; is_some = refl; is_good = v })
    turn-Passes w (in_batch topic group i first others left) l v =
        Passes-if l.is_cancelled _ _
          (record { next = _; after = l.service; is_some = refl; is_good = v })
          (after_one-Passes topic group first others left _ (
            step-GoesOn L H m marshal (QueueService.delivers w.now i topic group first others)
              l.service tt v))

    turn_at-Steady : (i : ℕ) (w : Wake) (l : Lifecycle) → IsSteady l → Steady (turn_at i w l)
    turn_at-Steady i w l v = elim (Option-cases (get_elem? l.running i)) [
      | inl e ↦ rw (turn_at, e) (record { after = l; is_some = refl; is_steady = v })
      | inr (g, e) ↦
          let went = turn-Passes w g l v.is_good in
          let (n, k) = counted i l.waiting g went.next l.running e v.counts in
          record {
            after = record l {
              service = went.after;
              running = place i went.next l.running;
              waiting = n;
            };
            is_some = rw (turn_at, e, went.is_some, after_turn, k) refl;
            is_steady = record {
              counts = sym (
                  length-place i l.running g went.next n e
                    (ap (count went.next) (sym v.counts) ∙ k));
              is_good = went.is_good;
            };
          }
    ]

    step-Steady :
        (e : Event) (l : Lifecycle) → SparesMessage m.id e → IsSteady l → Steady (step marshal e l)
    unfolding step
    step-Steady (requests clock r) l p v =
        served-Steady _ l
          (step-GoesOn L H m marshal (QueueService.requests clock r) l.service p v.is_good) v
    step-Steady (streams signal ch) l p v =
        served-Steady _ l
          (step-GoesOn L H m marshal (QueueService.streams signal ch) l.service tt v.is_good) v
    step-Steady (leaves r) l p v =
        served-Steady _ l (step-GoesOn L H m marshal (QueueService.leaves r) l.service tt v.is_good)
          v
    step-Steady (turns n w) l p v = turn_at-Steady (n % length l.running) w l v
    step-Steady close_begins l p v = record {
      after = _;
      is_some = refl;
      is_steady = record { counts = v.counts; is_good = v.is_good };
    }
    step-Steady close_returns l p v = elim (Bool-cases (l.is_cancelled && l.waiting == 0)) [
      | inl c ↦ record {
        after = record l { is_closed = true };
        is_some = rw c refl;
        is_steady = record { counts = v.counts; is_good = v.is_good };
      }
      | inr c ↦ record { after = l; is_some = rw c refl; is_steady = v }
    ]

    run-Steady :
        (es : List Event) (l : Lifecycle)
        → All (SparesMessage m.id) es
        → IsSteady l
        → Steady (run marshal es l)
    unfolding run
    run-Steady [] l p v = record { after = l; is_some = refl; is_steady = v }
    run-Steady (e ∷ es) l p v =
        let went = step-Steady e l p.0 v in
        let rest = run-Steady es went.after p.1 went.is_steady in
        record {
          after = rest.after;
          is_some = rw (run, went.is_some) rest.is_some;
          is_steady = rest.is_steady;
        }

    -- With a Redis server that answers: where a queue has connected and holds a message, then after any
    -- requests, turns and ends of streams, passes of the goroutines that it has started, and calls of
    -- Close that come between such passes, in any order, if no request acknowledges a message of its id,
    -- nothing outside a request has panicked, the wait group counts the goroutines that run, and the
    -- message is held: it waits in a topic, has an entry in a pending list, or is dead.
    pub new_redis_queue-Steady :
        {Options : Type 0} (parse_url : String → Option Options) (ping : Options → Option R.Store)
        (url : String) (timeout retries : ℕ) (l : Lifecycle) (es : List Event)
        → new_redis_queue parse_url ping url timeout retries ≡ inr l
        → Held L m l.service.queue
        → All (SparesMessage m.id) es
        → Steady (run marshal es l)
    new_redis_queue-Steady parse_url ping url timeout retries l es c h p =
        run-Steady es l p (record {
          counts = new_redis_queue-Counts parse_url ping url timeout retries l c;
          is_good = record {
            is_sound = new_redis_queue-IsSound parse_url ping url timeout retries l c;
            held = h;
          };
        })
