-- ===== src/ConsumerGroups/Stats.antt =====
-- `GetStats` of internal/queueservice/redis_queue.go and its handler: what waits and what is pending, for
-- the topics and groups that have had consumers. A command that fails counts 0.
use gpu_telemetry_pipeline.Base.{
  ℕ, String, List, [], ◌∷◌, ◌⊎◌, inl, inr, str_eq, if◌then◌else◌, Dict, length,
}
use gpu_telemetry_pipeline.Redis.{Redis, Reply, done, failed}
use gpu_telemetry_pipeline.RedisQueue.{RedisQueue, queue_key, pel_key}
use gpu_telemetry_pipeline.HttpServer.{Request}
use gpu_telemetry_pipeline.ConsumerGroups.{QueueConsumerGroup, Broker}

pub record GroupStats : Type 0 where
  pub name : String
  pub consumer_count : ℕ
  pub pending_messages : ℕ

pub record TopicStats : Type 0 where
  pub name : String
  pub queue_depth : ℕ
  pub consumer_groups : List GroupStats

pub record Stats : Type 0 where
  pub topics : List TopicStats
  pub dead_letter_count : ℕ

abbrev pub count_of : Reply ℕ → ℕ
count_of (done n) = n
count_of failed = 0

module _ ⦃R : Redis⦄ where
  open R use {Store}

  unfoldable pub group_stats : String → Dict QueueConsumerGroup → Store → List GroupStats × Store
  group_stats topic [] s = ([], s)
  group_stats topic ((group_name, group) ∷ groups) s =
      let pending = R.zcard (pel_key topic group_name) s in
      let rest = group_stats topic groups pending.1 in
      (
        record {
          name = group_name;
          consumer_count = length group.consumers;
          pending_messages = count_of pending.0;
        }
            ∷ rest.0,
        rest.1,
      )

  unfoldable pub topic_stats : Dict (Dict QueueConsumerGroup) → Store → List TopicStats × Store
  topic_stats [] s = ([], s)
  topic_stats ((topic, groups) ∷ topics) s =
      let depth = R.llen (queue_key topic) s in
      let found = group_stats topic groups depth.1 in
      let rest = topic_stats topics found.1 in
      (
        record { name = topic; queue_depth = count_of depth.0; consumer_groups = found.0 } ∷ rest.0,
        rest.1,
      )

  unfoldable pub get_stats : Broker → RedisQueue Store → Stats × RedisQueue Store
  get_stats b q =
      let found = topic_stats b.consumer_groups q.store in
      (
        record { topics = found.0; dead_letter_count = length q.dead_letter_queue },
        record q { store = found.1 },
      )

  -- An error status, or the statistics.
  unfoldable pub handle_stats : Request → Broker → RedisQueue Store → (ℕ ⊎ Stats) × RedisQueue Store
  handle_stats r b q =
      if str_eq r.method "GET"
      then (let out = get_stats b q in (inr out.0, out.1))
      else (inl 405, q)
