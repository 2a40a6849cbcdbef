-- ===== src/HttpClient/Stream.antt =====
-- The stream of `handleSubscribe` (internal/queueservice/http_server.go) and its reader
-- `handleSSEConnection`: what the server writes, and what the client makes of the lines, which are those
-- that bufio.Scanner yields.
use Prim.Native.Char.{Char, code}
use gpu_telemetry_pipeline.Base.{
  ℕ, ◌+◌, ◌*◌, Bool, String, not, ◌&&◌, Option, none, some, List, [], ◌∷◌, ◌++◌, str_eq, concat,
  ◌==◌, ltb, if◌then◌else◌,
}
use gpu_telemetry_pipeline.Message.{Message}
use gpu_telemetry_pipeline.Parser.{trim_space}
use gpu_telemetry_pipeline.HttpClient.{
  Transport, Codec, HttpQueueClient, MessageHandler, process_one,
}

-- What is written to the stream, a message as its JSON.
pub data StreamEvent : Type 0 where
  connected sends : String → StreamEvent
  pings : StreamEvent

abbrev pub before_break : Char → List String → List String
before_break c [] = String.◌∷◌ c "" ∷ []
before_break c (line ∷ lines) = String.◌∷◌ c line ∷ lines

-- A text, cut at its line breaks.
unfoldable pub split_lines : String → List String
split_lines String.[] = "" ∷ []
split_lines (String.◌∷◌ c s) =
    if code c == 10 then "" ∷ split_lines s else before_break c (split_lines s)

abbrev pub connected_data : String → String
connected_data consumer_id =
    concat ("data: " ∷ "{\"status\":\"connected\",\"consumer_id\":\"" ∷ consumer_id ∷ "\"}" ∷ [])

-- The lines of an event. JSON has no line break, but the consumer's id is written as it is.
unfoldable pub event_lines : StreamEvent → List String
event_lines (connected consumer_id) =
    "event: connected" ∷ split_lines (connected_data consumer_id) ++ "" ∷ []
event_lines (sends json) = "event: message" ∷ concat ("data: " ∷ json ∷ []) ∷ "" ∷ []
event_lines pings = ": ping" ∷ "" ∷ []

unfoldable pub stream_lines : List StreamEvent → List String
stream_lines [] = []
stream_lines (e ∷ es) = event_lines e ++ stream_lines es

-- `strings.HasPrefix` and `strings.TrimPrefix` together.
unfoldable pub cut_prefix : String → String → Option String
cut_prefix String.[] s = some s
cut_prefix (String.◌∷◌ c p) String.[] = none
cut_prefix (String.◌∷◌ c p) (String.◌∷◌ d s) = if code c == code d then cut_prefix p s else none

pub record PartialEvent : Type 0 where
  pub event_type : String
  pub event_data : String

abbrev pub blank : PartialEvent
blank = record { event_type = ""; event_data = "" }

-- The data to handle, when the line ends an event that is a message.
abbrev pub complete : PartialEvent → Option String
complete e =
    if str_eq e.event_type "message" && not (str_eq e.event_data "")
    then some e.event_data
    else none

abbrev pub read_other : PartialEvent → String → Option String → PartialEvent × Option String
read_other e line (some rest) = (record e { event_data = trim_space rest }, none)
read_other e line none = if str_eq line "" then (blank, complete e) else (e, none)

abbrev pub read_field : PartialEvent → String → Option String → PartialEvent × Option String
read_field e line (some rest) = (record e { event_type = trim_space rest }, none)
read_field e line none = read_other e line (cut_prefix "data:" line)

unfoldable pub read_line : PartialEvent → String → PartialEvent × Option String
read_line e line = read_field e line (cut_prefix "event:" line)

-- `retryDelay` in seconds: how a try to connect went, and the delay after it.
pub data Attempt : Type 0 where
  no_request no_response bad_status opened : Attempt

unfoldable pub min : ℕ → ℕ → ℕ
min a b = if ltb a b then a else b

unfoldable pub next_delay : Attempt → ℕ → ℕ
next_delay no_request delay = delay
next_delay no_response delay = min (delay * 2) 30
next_delay bad_status delay = min (delay * 2) 30
next_delay opened delay = 1

unfoldable pub delay_after : List Attempt → ℕ → ℕ
delay_after [] delay = delay
delay_after (a ∷ more) delay = delay_after more (next_delay a delay)

abbrev pub handle_complete {ℓ} : {S : Type ℓ} → (String → S → S) → Option String → S → S
handle_complete handle none s = s
handle_complete handle (some json) s = handle json s

-- The bytes of a text in UTF-8.
unfoldable pub byte_length : String → ℕ
byte_length String.[] = 0
byte_length (String.◌∷◌ c s) =
    (if ltb (code c) 128
      then 1
      else if ltb (code c) 2048
      then 2
      else if ltb (code c) 65536
      then 3
      else 4)
    + byte_length s

-- A line that bufio.Scanner has no room for, with its line break, ends the stream.
unfoldable pub is_too_long : String → Bool
is_too_long line = ltb 65535 (byte_length line)

unfoldable pub read_stream {ℓ} :
    {S : Type ℓ} → (String → S → S) → PartialEvent → List String → S → S
read_stream handle e [] s = s
read_stream handle e (line ∷ lines) s =
    let read = read_line e line in
    let rest = read_stream handle read.0 lines (handle_complete handle read.1 s) in
    if is_too_long line then s else rest

module _ ⦃T : Transport⦄ ⦃X : Codec⦄ where
  open T use {Net}

  -- JSON that is no message is logged and passed over.
  unfoldable pub handle_decoded :
      {H : Type 0}
      → HttpQueueClient
      → String
      → MessageHandler H
      → Option Message
      → H × Net
      → H × Net
  handle_decoded c topic handler none s = s
  handle_decoded c topic handler (some msg) s = process_one c topic handler msg s

  -- `json.Unmarshal` of a message is an argument.
  unfoldable pub handle_message :
      {H : Type 0}
      → (String → Option Message)
      → HttpQueueClient
      → String
      → MessageHandler H
      → String
      → H × Net
      → H × Net
  handle_message unmarshal c topic handler json s =
      handle_decoded c topic handler (unmarshal json) s
