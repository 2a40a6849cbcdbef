-- ===== src/ConsumerGroups/Deliveries.antt =====
-- The goroutines that deliver to a consumer group (`deliverMessagesToGroup`), and the events of the
-- groups in any order.
use gpu_telemetry_pipeline.Base.{
  ℕ, zero, suc, ◌+◌, ◌%◌, String, Bool, true, false, Option, none, some, List, [], ◌∷◌,
  if◌then◌else◌, Dict, length, get_elem?,
}
use gpu_telemetry_pipeline.Message.{Message}
use gpu_telemetry_pipeline.Redis.{Redis}
use gpu_telemetry_pipeline.RedisQueue.{
  RedisQueue, Result, ok, err, panicked, pop_message, add_to_pel, requeue_message,
}
use gpu_telemetry_pipeline.ConsumerGroups.{
  QueueConsumer, Broker, find_group, consumers_of, register_consumer, unregister_consumer,
  deliver_to_consumer, stream_turn,
}

module _ ⦃R : Redis⦄ where
  open R use {Store}

  -- The queue and the consumers, with the place of the goroutine in its round.
  pub record Round : Type 0 where
    pub queue : RedisQueue Store
    pub broker : Broker
    pub consumer_index : ℕ

  -- A message in the pending list goes to its consumer; one that did not get there is put back.
  abbrev pub after_tracking :
      String
      → String
      → String
      → Message
      → Result (Unit {0}) × RedisQueue Store
      → Broker
      → ℕ
      → Option Round
  after_tracking topic consumer_group consumer_id msg (ok u, q) b i =
      elim (deliver_to_consumer topic consumer_group consumer_id msg b) [
        | none ↦ none
        | some b' ↦ some (record { queue = q; broker = b'; consumer_index = i })
      ]
  after_tracking topic consumer_group consumer_id msg (err e, q) b i =
      some (record { queue = (requeue_message msg q).1; broker = b; consumer_index = i })
  after_tracking topic consumer_group consumer_id msg (panicked, q) b i = none

  -- The consumer whose turn it is, of those that were read at the beginning of the batch.
  unfoldable pub deliver_message :
      ℕ → String → String → List String → Message → RedisQueue Store → Broker → ℕ → Option Round
  deliver_message now topic consumer_group consumer_ids msg q b i =
      elim (get_elem? consumer_ids (i % length consumer_ids)) [
        | none ↦ none
        | some consumer_id ↦
            after_tracking topic consumer_group consumer_id msg
              (add_to_pel now msg consumer_group consumer_id q) b (i + 1)
      ]

  abbrev pub after_pop :
      ℕ
      → String
      → String
      → List String
      → Result (Option Message) × RedisQueue Store
      → Broker
      → ℕ
      → Option (Bool × Round)
  after_pop now topic consumer_group consumer_ids (ok (some msg), q) b i =
      elim (deliver_message now topic consumer_group consumer_ids msg q b i) [
        | none ↦ none
        | some r ↦ some (true, r)
      ]
  after_pop now topic consumer_group consumer_ids (ok none, q) b i =
      some (false, record { queue = q; broker = b; consumer_index = i })
  after_pop now topic consumer_group consumer_ids (err e, q) b i =
      some (false, record { queue = q; broker = b; consumer_index = i })
  after_pop now topic consumer_group consumer_ids (panicked, q) b i = none

  -- One pass of the inner loop; `false` is that the batch ends.
  unfoldable pub deliver_one : ℕ → String → String → List String → Round → Option (Bool × Round)
  deliver_one now topic consumer_group consumer_ids r =
      after_pop now topic consumer_group consumer_ids (pop_message topic r.queue) r.broker
        r.consumer_index

  -- The inner loop: passes left, and the clock at each.
  unfoldable pub deliver_batch : (ℕ → ℕ) → String → String → List String → ℕ → Round → Option Round
  deliver_batch clock topic consumer_group consumer_ids zero r = some r
  deliver_batch clock topic consumer_group consumer_ids (suc n) r =
      elim (deliver_one (clock n) topic consumer_group consumer_ids r) [
        | none ↦ none
        | some (more, r') ↦
            let rest = deliver_batch clock topic consumer_group consumer_ids n r' in
            if more then rest else some r'
      ]

  abbrev pub names_of : Dict QueueConsumer → List String
  names_of [] = []
  names_of (entry ∷ entries) = entry.0 ∷ names_of entries

  -- One pass of the outer loop, with the order in which Go's map gives its keys.
  unfoldable pub deliver_messages_to_group :
      (List String → List String) → (ℕ → ℕ) → String → String → Round → Option Round
  deliver_messages_to_group order clock topic consumer_group r =
      elim (names_of (consumers_of (find_group topic consumer_group r.broker))) [
        | [] ↦ some r
        | name ∷ names ↦ deliver_batch clock topic consumer_group (order (name ∷ names)) 50 r
      ]

  -- What happens to the groups, in any order; a goroutine delivers by a list of consumers that it read
  -- earlier and that is not empty.
  pub data Event : Type 0 where
    registers unregisters : String → String → String → Event
    delivers : ℕ → String → String → String → List String → Event
    reads : ℕ → Event

  abbrev pub with_broker : Round → Option Broker → Option Round
  with_broker r none = none
  with_broker r (some b) = some (record r { broker = b })

  abbrev pub round_of : Option (Bool × Round) → Option Round
  round_of none = none
  round_of (some out) = some out.1

  unfoldable pub step : (Message → Option String) → Event → Round → Option Round
  step marshal (registers topic consumer_group consumer_id) r =
      some (record r { broker = (register_consumer topic consumer_group consumer_id r.broker).1 })
  step marshal (unregisters topic consumer_group consumer_id) r =
      with_broker r (unregister_consumer topic consumer_group consumer_id r.broker)
  step marshal (delivers now topic consumer_group first others) r =
      round_of (deliver_one now topic consumer_group (first ∷ others) r)
  step marshal (reads ch) r = some (record r { broker = (stream_turn marshal ch r.broker).1 })

  unfoldable pub run : (Message → Option String) → List Event → Round → Option Round
  run marshal [] r = some r
  run marshal (e ∷ es) r = elim (step marshal e r) [ none ↦ none | some r' ↦ run marshal es r' ]
