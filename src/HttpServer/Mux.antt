-- ===== src/HttpServer/Mux.antt =====
-- The whole server of internal/queueservice/http_server.go: the queue with its consumer groups, and the
-- mux in front of all handlers. A subscription is answered with its open stream, which goes on in
-- ConsumerGroups.
use gpu_telemetry_pipeline.Base.{ℕ, ◌⊎◌, inl, inr, str_eq, if◌then◌else◌}
use gpu_telemetry_pipeline.Redis.{Redis}
use gpu_telemetry_pipeline.RedisQueue.{RedisQueue}
use gpu_telemetry_pipeline.HttpServer.{
  Request, Decoders, Response, error, handle_publish, handle_fetch, handle_ack, handle_nack,
  handle_health,
}
use gpu_telemetry_pipeline.HttpClient.Stream.{StreamEvent}
use gpu_telemetry_pipeline.ConsumerGroups.{Broker, open_stream}
use gpu_telemetry_pipeline.ConsumerGroups.Stats.{Stats, handle_stats}

pub data Answer : Type 0 where
  plain : Response → Answer
  opened : ℕ → StreamEvent → Answer
  statistics : Stats → Answer

module _ ⦃R : Redis⦄ where
  open R use {Store}

  pub record Service : Type 0 where
    pub queue : RedisQueue Store
    pub broker : Broker

  -- A handler that does not look at the consumer groups.
  abbrev pub on_queue : Response × RedisQueue Store → Service → Answer × Service
  on_queue (answer, q) s = (plain answer, record s { queue = q })

  abbrev pub stream_answer : ℕ ⊎ (ℕ × StreamEvent) × Broker → Service → Answer × Service
  stream_answer (inl status) s = (plain (error status), s)
  stream_answer (inr ((ch, event), b)) s = (opened ch event, record s { broker = b })

  abbrev pub stats_answer : (ℕ ⊎ Stats) × RedisQueue Store → Service → Answer × Service
  stats_answer (inl status, q) s = (plain (error status), record s { queue = q })
  stats_answer (inr stats, q) s = (statistics stats, record s { queue = q })

  module _ ⦃X : Decoders⦄ where
    -- The mux of `NewHTTPServer`; what no route matches is not found.
    unfoldable pub serve : (ℕ → ℕ) → Request → Service → Answer × Service
    serve clock r s =
        if str_eq r.path "/api/v1/queue/publish"
        then on_queue (handle_publish r s.queue) s
        else if str_eq r.path "/api/v1/queue/subscribe"
        then stream_answer (open_stream r s.broker) s
        else if str_eq r.path "/api/v1/queue/fetch"
        then on_queue (handle_fetch clock r s.queue) s
        else if str_eq r.path "/api/v1/queue/ack"
        then on_queue (handle_ack r s.queue) s
        else if str_eq r.path "/api/v1/queue/nack"
        then on_queue (handle_nack r s.queue) s
        else if str_eq r.path "/api/v1/queue/stats"
        then stats_answer (handle_stats r s.broker s.queue) s
        else if str_eq r.path "/health"
        then on_queue (handle_health r s.queue) s
        else (plain (error 404), s)
