-- ===== src/Message.antt =====
-- internal/mq/message.go and internal/mq/queue.go: messages and their metadata.
-- A payload is its JSON text. A metadata value is a text or the JSON text of anything else.
-- The two Go maps are dictionaries, so a header that is set twice keeps the last value.
use gpu_telemetry_pipeline.Base.{ℕ, String, Option, none, some, [], Dict, lookup, insert}

pub data Value : Type 0 where
  text : String → Value
  other : String → Value

pub record Message : Type 0 where
  pub id : String
  pub topic : String
  pub payload : String
  pub headers : Dict String
  pub timestamp : ℕ
  pub metadata : Dict Value

-- `marshal` is `json.Marshal` of the payload, and `now` is `time.Now()`.
unfoldable pub new_message_with_id {ℓ} :
    {A : Type ℓ} → (A → Option String) → ℕ → String → String → A → Option Message
new_message_with_id marshal now id topic payload = elim (marshal payload) [
  | none ↦ none
  | some bytes ↦ some (record {
    id = id;
    topic = topic;
    payload = bytes;
    headers = [];
    timestamp = now;
    metadata = [];
  })
]

unfoldable pub with_header : Message → String → String → Message
with_header m key value = record m { headers = insert key value m.headers }

unfoldable pub with_metadata : Message → String → Value → Message
with_metadata m key value = record m { metadata = insert key value m.metadata }

unfoldable pub get_header : Message → String → Option String
get_header m key = lookup key m.headers

unfoldable pub get_metadata : Message → String → Option Value
get_metadata m key = lookup key m.metadata

-- `NewMessage`: the identifier is that of `uuid.New()`.
unfoldable pub new_message {ℓ} :
    {A : Type ℓ} → (A → Option String) → String → ℕ → String → A → Option Message
new_message marshal new_uuid now topic payload = elim (marshal payload) [
  | none ↦ none
  | some bytes ↦ some (record {
    id = new_uuid;
    topic = topic;
    payload = bytes;
    headers = [];
    timestamp = now;
    metadata = [];
  })
]

-- `json.Unmarshal` of the payload.
unfoldable pub unmarshal {ℓ} : {A : Type ℓ} → (String → Option A) → Message → Option A
unmarshal read m = read m.payload
