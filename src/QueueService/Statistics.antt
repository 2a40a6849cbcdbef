-- ===== src/QueueService/Statistics.antt =====
-- The statistics of the queue service only read: every message is where it was.
use gpu_telemetry_pipeline.Base.{String, [], ◌∷◌, ◌≡◌, refl, ◌∙◌, Dict}
use gpu_telemetry_pipeline.Message.{Message}
use gpu_telemetry_pipeline.Redis.{Redis, RedisLaws}
use gpu_telemetry_pipeline.RedisQueue.{RedisQueue, queue_key, pel_key}
use gpu_telemetry_pipeline.RedisQueue.Held.{Held, Held-Extends}
use gpu_telemetry_pipeline.ConsumerGroups.{Broker, QueueConsumerGroup}
use gpu_telemetry_pipeline.ConsumerGroups.Stats.{group_stats, topic_stats, get_stats}

module _ ⦃R : Redis⦄ (L : RedisLaws R) where
  open R use {Store}

  -- The statistics read, and change nothing.
  record Same (s t : Store) : Type 0 where
    lists : (k : String) → L.list_at t k ≡ L.list_at s k
    zsets : (k : String) → L.zset_at t k ≡ L.zset_at s k

  Same-group_stats :
      (topic : String) (groups : Dict QueueConsumerGroup) (s : Store)
      → Same s (group_stats topic groups s).1
  unfolding group_stats
  Same-group_stats topic [] s = record { lists = λ k. refl; zsets = λ k. refl }
  Same-group_stats topic (g ∷ gs) s =
      let rest = Same-group_stats topic gs (R.zcard (pel_key topic g.0) s).1 in
      record {
        lists = λ k. rest.lists k ∙ L.list-zcard (pel_key topic g.0) k s;
        zsets = λ k. rest.zsets k ∙ L.zset-zcard (pel_key topic g.0) k s;
      }

  Same-topic_stats :
      (topics : Dict (Dict QueueConsumerGroup)) (s : Store) → Same s (topic_stats topics s).1
  unfolding topic_stats
  Same-topic_stats [] s = record { lists = λ k. refl; zsets = λ k. refl }
  Same-topic_stats (t ∷ ts) s =
      let depth = R.llen (queue_key t.0) s in
      let found = Same-group_stats t.0 t.1 depth.1 in
      let rest = Same-topic_stats ts (group_stats t.0 t.1 depth.1).1 in
      record {
        lists = λ k. rest.lists k ∙ found.lists k ∙ L.list-llen (queue_key t.0) k s;
        zsets = λ k. rest.zsets k ∙ found.zsets k ∙ L.zset-llen (queue_key t.0) k s;
      }

  pub Held-get_stats :
      (m : Message) (b : Broker) (q : RedisQueue Store) → Held L m q → Held L m (get_stats b q).1
  unfolding get_stats
  Held-get_stats m b q =
      let same = Same-topic_stats b.consumer_groups q.store in
      Held-Extends L (record {
        topics = λ topic x h. rw (same.lists (queue_key topic)) h;
        lists = λ key c n. rw (same.zsets key) n;
        dead = λ e h. h;
      })
