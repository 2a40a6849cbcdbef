-- ===== src/ConsumerGroups.antt =====
-- internal/queueservice/redis_queue.go: consumer groups, with the goroutines that deliver to them, and
-- the subscription stream of http_server.go. A channel is a number, and `channels` says what it
-- holds: an unregistered consumer's channel outlives it. A panic is `none`.
pub mod Deliveries
pub mod Stats
pub mod Open
pub mod Leaving
pub mod Safe
pub mod Taken
pub mod Tests
use gpu_telemetry_pipeline.Base.{
  ℕ, zero, suc, ◌+◌, ◌%◌, String, Bool, true, false, ◌&&◌, ◌||◌, Option, none, some, List, [], ◌∷◌,
  ◌++◌, ◌⊎◌, inl, inr, str_eq, ◌==◌, ltb, if◌then◌else◌, Dict, lookup, insert, delete, length,
  get_elem?,
}
use gpu_telemetry_pipeline.Message.{Message}
use gpu_telemetry_pipeline.Redis.{Redis, Reply, done, failed}
use gpu_telemetry_pipeline.RedisQueue.{
  RedisQueue, Result, ok, err, panicked, pop_message, add_to_pel, requeue_message, queue_key,
  pel_key,
}
use gpu_telemetry_pipeline.HttpServer.{Request, query_get}
use gpu_telemetry_pipeline.HttpClient.Stream.{StreamEvent, connected, sends, pings}

pub record QueueConsumer : Type 0 where
  pub id : String
  pub events_ch : ℕ

pub record QueueConsumerGroup : Type 0 where
  pub name : String
  pub consumers : Dict QueueConsumer

pub record Channel : Type 0 where
  pub messages : List Message
  pub is_closed : Bool

-- `deliverMessagesToGroup`, running for a topic and a group.
pub record Delivery : Type 0 where
  pub topic : String
  pub consumer_group : String

-- The numbers from `next` on are no channels yet.
pub record Broker : Type 0 where
  pub consumer_groups : Dict (Dict QueueConsumerGroup)
  pub channels : ℕ → Channel
  pub next : ℕ
  pub deliveries : List Delivery

abbrev pub empty_channel : Channel
empty_channel = record { messages = []; is_closed = false }

unfoldable pub new_broker : Broker
new_broker = record {
  consumer_groups = [];
  channels = λ ch. empty_channel;
  next = 0;
  deliveries = [];
}

abbrev pub or_empty {ℓ} : {V : Type ℓ} → Option (Dict V) → Dict V
or_empty none = []
or_empty (some m) = m

abbrev pub groups_of : String → Broker → Dict QueueConsumerGroup
groups_of topic b = or_empty (lookup topic b.consumer_groups)

-- `q.consumerGroups[topic][consumerGroup]`.
unfoldable pub find_group : String → String → Broker → Option QueueConsumerGroup
find_group topic consumer_group b = lookup consumer_group (groups_of topic b)

abbrev pub consumers_of : Option QueueConsumerGroup → Dict QueueConsumer
consumers_of none = []
consumers_of (some g) = g.consumers

unfoldable pub put_consumers :
    String → String → Dict QueueConsumer → Broker → Dict (Dict QueueConsumerGroup)
put_consumers topic consumer_group consumers b =
    insert topic
      (insert consumer_group (record { name = consumer_group; consumers = consumers })
        (groups_of topic b))
      b.consumer_groups

abbrev pub set_channel : ℕ → Channel → (ℕ → Channel) → ℕ → Channel
set_channel ch c channels k = if ch == k then c else channels k

-- A group with one consumer gets a delivery goroutine.
unfoldable pub register_consumer : String → String → String → Broker → ℕ × Broker
register_consumer topic consumer_group consumer_id b =
    let consumers =
      insert consumer_id (record { id = consumer_id; events_ch = b.next })
        (consumers_of (find_group topic consumer_group b)) in
    (
      b.next,
      record {
        consumer_groups = put_consumers topic consumer_group consumers b;
        channels = set_channel b.next empty_channel b.channels;
        next = b.next + 1;
        deliveries =
            if length consumers == 1
            then b.deliveries ++ record { topic = topic; consumer_group = consumer_group } ∷ []
            else b.deliveries;
      },
    )

abbrev pub close_channel : ℕ → (ℕ → Channel) → Option (ℕ → Channel)
close_channel ch channels =
    if (channels ch).is_closed
    then none
    else some (set_channel ch (record (channels ch) { is_closed = true }) channels)

-- The rest of `UnregisterConsumer` in a group, for what is found under the consumer's name.
unfoldable pub remove_consumer :
    String → String → String → Option QueueConsumer → Broker → Option Broker
remove_consumer topic consumer_group consumer_id none b = some b
remove_consumer topic consumer_group consumer_id (some consumer) b =
    elim (close_channel consumer.events_ch b.channels) [
      | none ↦ none
      | some channels ↦ some (record b {
        consumer_groups =
            put_consumers topic consumer_group
              (delete consumer_id (consumers_of (find_group topic consumer_group b))) b;
        channels = channels;
      })
    ]

abbrev pub find_consumer : String → String → String → Broker → Option QueueConsumer
find_consumer topic consumer_group consumer_id b =
    lookup consumer_id (consumers_of (find_group topic consumer_group b))

-- Where there is no topic or no group there is no consumer.
unfoldable pub unregister_consumer : String → String → String → Broker → Option Broker
unregister_consumer topic consumer_group consumer_id b =
    remove_consumer topic consumer_group consumer_id
      (find_consumer topic consumer_group consumer_id b) b

-- A send that does not wait: a message for a full channel is dropped.
unfoldable pub send : ℕ → Message → Broker → Option Broker
send ch msg b =
    let c = b.channels ch in
    if c.is_closed
    then none
    else if ltb (length c.messages) 100
    then some (record b {
      channels = set_channel ch (record c { messages = c.messages ++ msg ∷ [] }) b.channels;
    })
    else some b

abbrev pub send_to : Option QueueConsumer → Message → Broker → Option Broker
send_to none msg b = some b
send_to (some consumer) msg b = send consumer.events_ch msg b

unfoldable pub deliver_to_consumer : String → String → String → Message → Broker → Option Broker
deliver_to_consumer topic consumer_group consumer_id msg b =
    send_to (find_consumer topic consumer_group consumer_id b) msg b

-- What the stream's handler does at one turn of its loop: it has ended, it waits, it passes over a
-- message that has no JSON, or it writes an event.
pub data Turn : Type 0 where
  ended waiting skipped : Turn
  wrote : StreamEvent → Turn

abbrev pub written : Option String → Turn
written none = skipped
written (some json) = wrote (sends json)

-- The turn in which the channel is looked at.
unfoldable pub stream_turn : (Message → Option String) → ℕ → Broker → Turn × Broker
stream_turn marshal ch b = elim (b.channels ch).messages [
  | [] ↦ ((if (b.channels ch).is_closed then ended else waiting), b)
  | msg ∷ more ↦ (
    written (marshal msg),
    record b { channels = set_channel ch (record (b.channels ch) { messages = more }) b.channels },
  )
]

-- The beginning of `handleSubscribe`: an error status, or the channel and the first event.
unfoldable pub open_stream : Request → Broker → ℕ ⊎ (ℕ × StreamEvent) × Broker
open_stream r b =
    let topic = query_get r "topic" in
    let consumer_group = query_get r "consumer_group" in
    let consumer_id = query_get r "consumer_id" in
    if str_eq r.method "GET"
    then (if str_eq topic "" || str_eq consumer_group "" || str_eq consumer_id ""
        then inl 400
        else (let out = register_consumer topic consumer_group consumer_id b in
            inr ((out.0, connected consumer_id), out.1)))
    else inl 405

-- What the `select` of the stream's loop finds ready.
pub data Signal : Type 0 where
  context_done received ticked : Signal

-- One turn of the loop; the ticker has it write a ping.
unfoldable pub stream_select : (Message → Option String) → Signal → ℕ → Broker → Turn × Broker
stream_select marshal context_done ch b = (ended, b)
stream_select marshal received ch b = stream_turn marshal ch b
stream_select marshal ticked ch b = (wrote pings, b)

-- The deferred call at the end of `handleSubscribe`.
unfoldable pub close_stream : Request → Broker → Option Broker
close_stream r b =
    unregister_consumer (query_get r "topic") (query_get r "consumer_group")
      (query_get r "consumer_id") b
