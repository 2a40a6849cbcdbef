-- ===== src/QueueService.antt =====
-- The whole queue service (internal/queueservice): requests to its server, the ticks of the visibility
-- check, the turns of the delivery goroutines, and the turns and ends of open streams, in any order. A
-- panic outside a request is `none`.
pub mod Statistics
pub mod Delivered
pub mod Held
pub mod Good
pub mod Whole
pub mod Lifecycle
pub mod Counting
pub mod Closing
pub mod Steady
pub mod Tests
use gpu_telemetry_pipeline.Base.{ℕ, String, Option, none, some, List, [], ◌∷◌}
use gpu_telemetry_pipeline.Message.{Message}
use gpu_telemetry_pipeline.Redis.{Redis}
use gpu_telemetry_pipeline.RedisQueue.{check_expired_messages}
use gpu_telemetry_pipeline.HttpServer.{Request, Decoders}
use gpu_telemetry_pipeline.HttpServer.Mux.{Service, serve}
use gpu_telemetry_pipeline.ConsumerGroups.{Broker, Signal, stream_select, close_stream}
use gpu_telemetry_pipeline.ConsumerGroups.Deliveries.{Round, round_of, deliver_one}

-- A request with the clock during it; a tick with the time; a goroutine that delivers at that time to
-- consumers that it read earlier, with its place in the round; a turn of a stream; and the end of one.
pub data Event : Type 0 where
  requests : (ℕ → ℕ) → Request → Event
  checks : ℕ → Event
  delivers : ℕ → ℕ → String → String → String → List String → Event
  streams : Signal → ℕ → Event
  leaves : Request → Event

module _ ⦃R : Redis⦄ where
  open R use {Store}

  abbrev pub with_broker : Service → Option Broker → Option Service
  with_broker s none = none
  with_broker s (some b) = some (record s { broker = b })

  abbrev pub service_of : Option Round → Option Service
  service_of none = none
  service_of (some r) = some (record { queue = r.queue; broker = r.broker })

  module _ ⦃X : Decoders⦄ (marshal : Message → Option String) where
    unfoldable pub step : Event → Service → Option Service
    step (requests clock r) s = some (serve clock r s).1
    step (checks now) s = some (record s { queue = (check_expired_messages now s.queue).1 })
    step (delivers now i topic consumer_group first others) s = service_of (
        round_of (
          deliver_one now topic consumer_group (first ∷ others)
            (record { queue = s.queue; broker = s.broker; consumer_index = i })))
    step (streams signal ch) s =
        some (record s { broker = (stream_select marshal signal ch s.broker).1 })
    step (leaves r) s = with_broker s (close_stream r s.broker)

    unfoldable pub run : List Event → Service → Option Service
    run [] s = some s
    run (e ∷ es) s = elim (step e s) [ none ↦ none | some s' ↦ run es s' ]
