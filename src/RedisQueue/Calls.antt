-- ===== src/RedisQueue/Calls.antt =====
-- A history of the queue service: the calls that its endpoints and its ticker make, one after the
-- other. A call that fails or panics leaves the queue as it was when the call ended.
use gpu_telemetry_pipeline.Base.{ℕ, String, List, [], ◌∷◌}
use gpu_telemetry_pipeline.Message.{Message}
use gpu_telemetry_pipeline.Redis.{Redis}
use gpu_telemetry_pipeline.RedisQueue.{
  RedisQueue, publish, fetch_batch, ack, nack, check_expired_messages,
}

pub data Call : Type 0 where
  publishes : Message → Call
  fetches : (ℕ → ℕ) → String → String → String → ℕ → Call
  acks nacks : String → String → String → Call
  checks : ℕ → Call

module _ ⦃R : Redis⦄ where
  unfoldable pub step : RedisQueue R.Store → Call → RedisQueue R.Store
  step q (publishes msg) = (publish msg q).1
  step q (fetches clock topic group consumer count) =
      (fetch_batch clock topic group consumer count q).1
  step q (acks topic group id) = (ack topic group id q).1
  step q (nacks topic group id) = (nack topic group id q).1
  step q (checks now) = (check_expired_messages now q).1

  unfoldable pub run : RedisQueue R.Store → List Call → RedisQueue R.Store
  run q [] = q
  run q (c ∷ cs) = run (step q c) cs
