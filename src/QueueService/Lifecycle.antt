-- ===== src/QueueService/Lifecycle.antt =====
-- The life of a `RedisQueue` of internal/queueservice/redis_queue.go: connecting, the goroutines that it
-- starts (visibilityTimeoutChecker, deliverMessagesToGroup) pass by pass, and Close, which waits for them.
-- A command in a context that has ended fails before it is sent. A pass of a delivery goroutine takes
-- one message at one go.
use gpu_telemetry_pipeline.Base.{
  ℕ, zero, suc, ◌+◌, ◌%◌, ◌==◌, ◌&&◌, String, Bool, true, false, Option, none, some, List, [], ◌∷◌,
  ◌++◌, ◌⊎◌, inl, inr, map, length, drop, get_elem?, if◌then◌else◌,
}
use gpu_telemetry_pipeline.Message.{Message}
use gpu_telemetry_pipeline.Redis.{Redis}
use gpu_telemetry_pipeline.RedisQueue.{check_expired_messages}
use gpu_telemetry_pipeline.HttpServer.{Request, Decoders}
use gpu_telemetry_pipeline.HttpServer.Mux.{Service}
use gpu_telemetry_pipeline.ConsumerGroups.{
  Broker, Delivery, Signal, new_broker, find_group, consumers_of,
}
use gpu_telemetry_pipeline.ConsumerGroups.Deliveries.{Round, deliver_one, names_of}
use gpu_telemetry_pipeline.QueueService

-- The checker; or a delivery goroutine at the top of its loop, with its place in the round, or in a batch,
-- with the consumers that it has read and the passes that are left.
pub data Goroutine : Type 0 where
  checker : Goroutine
  loop : String → String → ℕ → Goroutine
  in_batch : String → String → ℕ → String → List String → ℕ → Goroutine

-- What a pass finds: whether a `select` takes the context's end where the ticker is ready too, the time,
-- and the order in which Go's map gives its keys.
pub record Wake : Type 0 where
  pub takes_context : Bool
  pub now : ℕ
  pub order : List String → List String

pub data Event : Type 0 where
  requests : (ℕ → ℕ) → Request → Event
  streams : Signal → ℕ → Event
  leaves : Request → Event
  turns : ℕ → Wake → Event
  close_begins close_returns : Event

pub data ConnectError : Type 0 where
  parse_failed ping_failed : ConnectError

abbrev pub started : Broker → Broker → List Goroutine
started b b' =
    map (λ (d : Delivery). loop d.topic d.consumer_group 0)
      (drop (length b.deliveries) b'.deliveries)

-- The goroutine at a place goes on as another, or has returned.
abbrev pub place : ℕ → Option Goroutine → List Goroutine → List Goroutine
place i next [] = []
place zero none (g ∷ gs) = gs
place zero (some next) (g ∷ gs) = next ∷ gs
place (suc i) next (g ∷ gs) = g ∷ place i next gs

-- `defer q.wg.Done()` of a goroutine that returns; below zero it panics.
abbrev pub count : Option Goroutine → ℕ → Option ℕ
count (some g) n = some n
count none zero = none
count none (suc n) = some n

abbrev pub read_names : String → String → ℕ → List String → Goroutine
read_names topic consumer_group i [] = loop topic consumer_group i
read_names topic consumer_group i (first ∷ others) = in_batch topic consumer_group i first others 50

abbrev pub next_pass : String → String → ℕ → String → List String → Bool → ℕ → Goroutine
next_pass topic consumer_group i first others true (suc (suc n)) =
    in_batch topic consumer_group i first others (suc n)
next_pass topic consumer_group i first others true zero = loop topic consumer_group i
next_pass topic consumer_group i first others true (suc zero) = loop topic consumer_group i
next_pass topic consumer_group i first others false n = loop topic consumer_group i

module _ ⦃R : Redis⦄ where
  open R use {Store}

  -- `running` are the goroutines that have not returned, `waiting` is the counter of the wait group,
  -- and `is_closed` says that the client of Redis is.
  pub record Lifecycle : Type 0 where
    pub service : Service
    pub is_cancelled : Bool
    pub running : List Goroutine
    pub waiting : ℕ
    pub is_closed : Bool

  abbrev pub opened : ℕ → ℕ → Option Store → ConnectError ⊎ Lifecycle
  opened visibility_timeout max_retries none = inl ping_failed
  opened visibility_timeout max_retries (some store) = inr (record {
    service = record {
      queue = record {
        store = store;
        visibility_timeout = visibility_timeout;
        max_retries = max_retries;
        dead_letter_queue = [];
      };
      broker = new_broker;
    };
    is_cancelled = false;
    running = checker ∷ [];
    waiting = 1;
    is_closed = false;
  })

  -- Redis.ParseURL and the PING of a new client are arguments.
  unfoldable pub new_redis_queue :
      {Options : Type 0}
      → (String → Option Options)
      → (Options → Option Store)
      → String
      → ℕ
      → ℕ
      → ConnectError ⊎ Lifecycle
  new_redis_queue parse_url ping redis_url visibility_timeout max_retries =
      elim (parse_url redis_url) [
        | none ↦ inl parse_failed
        | some options ↦ opened visibility_timeout max_retries (ping options)
      ]

  -- A pass of `visibilityTimeoutChecker`.
  unfoldable pub checker_turn : Wake → Lifecycle → Option Goroutine × Service
  checker_turn w l =
      if l.is_cancelled then ((if w.takes_context then none else some checker), l.service) else (
        some checker,
        record l.service { queue = (check_expired_messages w.now l.service.queue).1 },
      )

  abbrev pub after_one :
      String
      → String
      → String
      → List String
      → ℕ
      → Option (Bool × Round)
      → Option (Option Goroutine × Service)
  after_one topic consumer_group first others left none = none
  after_one topic consumer_group first others left (some (more, r)) = some (
    some (next_pass topic consumer_group r.consumer_index first others more left),
    record { queue = r.queue; broker = r.broker },
  )

  -- A pass of a goroutine: what it goes on as, if it does, and the service; or a panic.
  unfoldable pub turn : Wake → Goroutine → Lifecycle → Option (Option Goroutine × Service)
  turn w checker l = some (checker_turn w l)
  turn w (loop topic consumer_group i) l =
      if l.is_cancelled
      then some (none, l.service)
      else (let names =
            w.order (names_of (consumers_of (find_group topic consumer_group l.service.broker))) in
          some (some (read_names topic consumer_group i names), l.service))
  turn w (in_batch topic consumer_group i first others left) l =
      if l.is_cancelled
      then some (some (loop topic consumer_group i), l.service)
      else after_one topic consumer_group first others left (
          deliver_one w.now topic consumer_group (first ∷ others)
            (record { queue = l.service.queue; broker = l.service.broker; consumer_index = i }))

  abbrev pub after_turn : ℕ → Option (Option Goroutine × Service) → Lifecycle → Option Lifecycle
  after_turn i none l = none
  after_turn i (some (next, s)) l = elim (count next l.waiting) [
    | none ↦ none
    | some n ↦ some (record l { service = s; running = place i next l.running; waiting = n })
  ]

  -- A registration may have started a goroutine.
  abbrev pub with_service : Option Service → Lifecycle → Option Lifecycle
  with_service none l = none
  with_service (some s) l =
      let new = started l.service.broker s.broker in
      some (record l { service = s; running = l.running ++ new; waiting = l.waiting + length new })

  -- The command that owns the queue calls Close when its server has shut down, so no handler runs then:
  -- nothing is served any more.
  abbrev pub served : Option Service → Lifecycle → Option Lifecycle
  served s l = if l.is_cancelled then some l else with_service s l

  abbrev pub turn_at : ℕ → Wake → Lifecycle → Option Lifecycle
  turn_at i w l = elim (get_elem? l.running i) [
    | none ↦ some l
    | some g ↦ after_turn i (turn w g l) l
  ]

  module _ ⦃X : Decoders⦄ (marshal : Message → Option String) where
    -- `close_returns` is Close when the wait group lets it go on; before that nothing happens.
    unfoldable pub step : Event → Lifecycle → Option Lifecycle
    step (requests clock r) l =
        served (QueueService.step marshal (QueueService.requests clock r) l.service) l
    step (streams signal ch) l =
        served (QueueService.step marshal (QueueService.streams signal ch) l.service) l
    step (leaves r) l = served (QueueService.step marshal (QueueService.leaves r) l.service) l
    step (turns n w) l = turn_at (n % length l.running) w l
    step close_begins l = some (record l { is_cancelled = true })
    step close_returns l =
        some (if l.is_cancelled && l.waiting == 0 then record l { is_closed = true } else l)

    unfoldable pub run : List Event → Lifecycle → Option Lifecycle
    run [] l = some l
    run (e ∷ es) l = elim (step e l) [ none ↦ none | some l' ↦ run es l' ]
