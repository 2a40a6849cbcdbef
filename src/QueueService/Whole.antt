-- ===== src/QueueService/Whole.antt =====
-- The queue service as a whole: nothing panics outside a request, and no message is lost.
use gpu_telemetry_pipeline.Base.{
  ℕ, String, Bool, Option, none, some, List, [], ◌∷◌, ◌≡◌, refl, sym, subst, All, arith,
}
use gpu_telemetry_pipeline.Message.{Message}
use gpu_telemetry_pipeline.Redis.{Redis, RedisLaws, IsHealthy}
use gpu_telemetry_pipeline.RedisQueue.Held.{Held}
use gpu_telemetry_pipeline.RedisQueue.Unlost.{Held-check_expired_messages}
use gpu_telemetry_pipeline.HttpServer.{Decoders, query_get}
use gpu_telemetry_pipeline.HttpServer.Mux.{Service}
use gpu_telemetry_pipeline.ConsumerGroups.{
  Broker, Signal, context_done, received, ticked, stream_select, close_stream,
}
use gpu_telemetry_pipeline.ConsumerGroups.Deliveries.{Round, round_of, deliver_one}
use gpu_telemetry_pipeline.ConsumerGroups.Deliveries
use gpu_telemetry_pipeline.ConsumerGroups.Open.{IsSound}
use gpu_telemetry_pipeline.ConsumerGroups.Leaving.{
  stream_turn-IsSound, unregister_consumer-Succeeds,
}
use gpu_telemetry_pipeline.ConsumerGroups.Safe.{Goes, step-Goes}
use gpu_telemetry_pipeline.QueueService.{
  Event, requests, checks, delivers, streams, leaves, service_of, step, run,
}
use gpu_telemetry_pipeline.QueueService.Delivered.{Held-deliver_one}
use gpu_telemetry_pipeline.QueueService.Good.{Spares, IsGood, serve-Good}

module _ ⦃R : Redis⦄ (L : RedisLaws R) (H : IsHealthy R) (m : Message) where
  open R use {Store}

  module _ ⦃X : Decoders⦄ where
    -- The service goes on, and is good.
    pub record GoesOn (out : Option Service) : Type 0 where
      pub after : Service
      pub is_some : out ≡ some after
      pub is_good : IsGood L H m after

    stream_select-IsSound :
        (marshal : Message → Option String) (signal : Signal) (ch : ℕ) (b : Broker)
        → IsSound b
        → IsSound (stream_select marshal signal ch b).1
    unfolding stream_select
    stream_select-IsSound marshal context_done ch b v = v
    stream_select-IsSound marshal received ch b v = stream_turn-IsSound marshal ch b v
    stream_select-IsSound marshal ticked ch b v = v

    delivered-GoesOn :
        (now : ℕ) (topic group : String) (ids : List String) (r : Round)
        (out : Option (Bool × Round))
        → deliver_one now topic group ids r ≡ out
        → Held L m r.queue
        → (went : Goes (round_of out)) → GoesOn (service_of (round_of out))
    delivered-GoesOn now topic group ids r none e h went = absurd (ground (arith, went.is_some))
    delivered-GoesOn now topic group ids r (some (more, r')) e h went = record {
      after = _;
      is_some = refl;
      is_good = record {
        is_sound =
            let same : r' ≡ went.after = cc (went.is_some) in
            subst (λ x. IsSound x.broker) (sym same) went.is_sound;
        held = Held-deliver_one L H m now topic group ids r r' more e h;
      };
    }

    pub step-GoesOn :
        (marshal : Message → Option String) (e : Event) (s : Service)
        → Spares m.id e
        → IsGood L H m s
        → GoesOn (step marshal e s)
    unfolding step close_stream Deliveries.step
    step-GoesOn marshal (requests clock r) s p g = record {
      after = _;
      is_some = refl;
      is_good = (serve-Good L H m clock r s p g).good;
    }
    step-GoesOn marshal (checks now) s p g = record {
      after = _;
      is_some = refl;
      is_good = record {
        is_sound = g.is_sound;
        held = (Held-check_expired_messages L H m now).at s.queue g.held;
      };
    }
    step-GoesOn marshal (delivers now i topic group first others) s p g =
        let r : Round = record { queue = s.queue; broker = s.broker; consumer_index = i } in
        delivered-GoesOn now topic group (first ∷ others) r _ refl g.held
          (step-Goes marshal (Deliveries.delivers now topic group first others) r g.is_sound)
    step-GoesOn marshal (streams signal ch) s p g = record {
      after = _;
      is_some = refl;
      is_good = record {
        is_sound = stream_select-IsSound marshal signal ch s.broker g.is_sound;
        held = g.held;
      };
    }
    step-GoesOn marshal (leaves r) s p g =
        let gone =
          unregister_consumer-Succeeds (query_get r "topic") (query_get r "consumer_group")
            (query_get r "consumer_id") s.broker g.is_sound in
        record {
          after = record s { broker = gone.after };
          is_some = rw (gone.is_some) refl;
          is_good = record { is_sound = gone.is_sound; held = g.held };
        }

    -- With a Redis server that answers: where a message is held by a service whose consumer groups are
    -- sound, then after any requests, ticks of the visibility check, deliveries to consumers, gone or
    -- not, and turns and ends of streams, in any order, if no request acknowledges a message of its id,
    -- no step outside a request has panicked, the groups are sound, and the message is held: it
    -- waits in a topic, has an entry in a pending list, or is dead.
    pub run-GoesOn :
        (marshal : Message → Option String) (es : List Event) (s : Service)
        → All (Spares m.id) es
        → IsGood L H m s
        → GoesOn (run marshal es s)
    unfolding run
    run-GoesOn marshal [] s p g = record { after = s; is_some = refl; is_good = g }
    run-GoesOn marshal (e ∷ es) s p g =
        let went = step-GoesOn marshal e s p.0 g in
        let rest = run-GoesOn marshal es went.after p.1 went.is_good in
        record {
          after = rest.after;
          is_some = rw (run, went.is_some) rest.is_some;
          is_good = rest.is_good;
        }
