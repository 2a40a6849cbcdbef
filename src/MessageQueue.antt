-- ===== src/MessageQueue.antt =====
-- internal/mq/queue.go: what a publisher needs of a queue with contents `Q`, and a queue's statistics.
use gpu_telemetry_pipeline.Base.{ℕ, Option, none, List, [], ◌∷◌, ◌++◌, ◌≡◌}
use gpu_telemetry_pipeline.Message.{Message}

pub data QueueError : Type 0 where
  queue_full queue_closed not_started already_running publish_failed : QueueError

pub record QueueStats : Type 0 where
  pub total_published : ℕ
  pub total_delivered : ℕ
  pub total_errors : ℕ
  pub active_subscribers : ℕ
  pub queue_depth : ℕ

pub record MessageQueue (Q : Type 0) : Type 0 where
  pub publish : Message → Q → Option QueueError × Q

-- A queue that takes every message, as `sent` shows: the oldest first.
pub record TakesAll {Q : Type 0} (M : MessageQueue Q) (sent : Q → List Message) : Type 0 where
  pub no_error : (m : Message) (q : Q) → (M.publish m q).0 ≡ none
  pub at_end : (m : Message) (q : Q) → sent (M.publish m q).1 ≡ sent q ++ m ∷ []
