-- ===== src/HttpClient/Reading.antt =====
-- What the client reads is what the server sent, and how long it waits before it connects again.
use text.Mathlib.TextLemmas.{nil-append, cons-append, append-nil, append_assoc}
use Prim.Native.Nat.pow
use native.Mathlib.Nat.{mul_assoc, mul_comm}
use Prim.Native.String
use gpu_telemetry_pipeline.Base.{
  ℕ, suc, ◌*◌, ◌^◌, String, Option, none, some, List, [], ◌∷◌, ◌≡◌, ◌≢◌, refl, sym, ap, ◌∙◌,
  str_eq_of_ne, false, ◌++◌, subst, All, arith, length,
}
use gpu_telemetry_pipeline.Parser.{trim_space, trim_left, trim_right, trim_end, is_space}
use gpu_telemetry_pipeline.HttpClient.Stream.{
  StreamEvent, connected, sends, pings, event_lines, stream_lines, cut_prefix, PartialEvent, blank,
  read_field, read_other, read_line, Attempt, no_request, no_response, bad_status, opened, min,
  next_delay, delay_after, handle_complete, read_stream, split_lines, connected_data, is_too_long,
}

cut_prefix-append : (p s : String) → cut_prefix p (String.◌++◌ p s) ≡ some s
unfolding cut_prefix
cut_prefix-append String.[] s = ap some (nil-append s)
cut_prefix-append (String.◌∷◌ c p) s =
    ap (cut_prefix (String.◌∷◌ c p)) (cons-append c p s) ∙ ground (arith, cut_prefix-append p s)

-- JSON of a message as it is written: not empty, and with no space at either end.
pub record IsCompact (json : String) : Type 0 where
  pub not_empty : json ≢ ""
  pub trimmed : trim_space json ≡ json

trim_space-space : (s : String) → trim_space (String.◌++◌ " " s) ≡ trim_space s
unfolding trim_space trim_left is_space
trim_space-space s =
    ap (λ t. trim_right (trim_left t))
      (cons-append " " "" s ∙ ap (λ t. String.◌∷◌ " " t) (nil-append s))

data_line : (rest : String) → String.◌++◌ "data: " rest ≡ String.◌++◌ "data:" (String.◌++◌ " " rest)
data_line rest = append_assoc "data:" " " rest

not_event : (rest : String) → cut_prefix "event:" (String.◌++◌ "data:" rest) ≡ none
unfolding cut_prefix
not_event rest = ap (cut_prefix "event:") (cons-append "d" "ata:" rest) ∙ refl

read_line-data :
    (e : PartialEvent) (rest : String)
    → read_line e (String.◌++◌ "data: " rest) ≡ (record e { event_data = trim_space rest }, none)
unfolding read_line
read_line-data e rest =
    let line = String.◌++◌ "data:" (String.◌++◌ " " rest) in
    ap (read_line e) (data_line rest)
    ∙ ap (read_field e line) (not_event (String.◌++◌ " " rest))
    ∙ ap (read_other e line) (cut_prefix-append "data:" (String.◌++◌ " " rest))
    ∙ ap (λ t. (record e { event_data = t }, none)) (trim_space-space rest)

read_line-message :
    (e : PartialEvent) → read_line e "event: message" ≡ (record e { event_type = "message" }, none)
unfolding read_line cut_prefix trim_space trim_left trim_right trim_end is_space
read_line-message e = refl

read_line-connected :
    (e : PartialEvent)
    → read_line e "event: connected" ≡ (record e { event_type = "connected" }, none)
unfolding read_line cut_prefix trim_space trim_left trim_right trim_end is_space
read_line-connected e = refl

read_line-ping : (e : PartialEvent) → read_line e ": ping" ≡ (e, none)
unfolding read_line cut_prefix
read_line-ping e = refl

read_line-empty_message :
    (json : String)
    → json ≢ ""
    → read_line (record { event_type = "message"; event_data = json }) "" ≡ (blank, some json)
unfolding read_line cut_prefix
read_line-empty_message json h = rw (str_eq_of_ne json "" h) refl

read_line-empty_other :
    (data_text : String)
    → read_line (record { event_type = "connected"; event_data = data_text }) "" ≡ (blank, none)
unfolding read_line cut_prefix
read_line-empty_other data_text = refl

read_line-empty_blank : read_line blank "" ≡ (blank, none)
unfolding read_line cut_prefix
read_line-empty_blank = refl

-- JSON is compact, and the consumer's id has no line break.
abbrev pub IsShaped : StreamEvent → Type 0
IsShaped (sends json) = IsCompact json
IsShaped (connected consumer_id) =
    split_lines (connected_data consumer_id) ≡ connected_data consumer_id ∷ []
IsShaped pings = Unit

abbrev pub IsShort : String → Type 0
IsShort line = is_too_long line ≡ false

-- No line of it is too long for the reader, either.
abbrev pub IsWellFormed : StreamEvent → Type 0
IsWellFormed e = IsShaped e × All IsShort (event_lines e)

-- The messages of a stream, handled one after the other.
unfoldable pub handle_all {ℓ} : {S : Type ℓ} → (String → S → S) → List StreamEvent → S → S
handle_all handle [] s = s
handle_all handle (sends json ∷ es) s = handle_all handle es (handle json s)
handle_all handle (connected consumer_id ∷ es) s = handle_all handle es s
handle_all handle (pings ∷ es) s = handle_all handle es s

module _ {S : Type 0} where
  read_one :
      (handle : String → S → S) (e e' : PartialEvent) (line : String) (lines : List String)
      (found : Option String) (s : S)
      → read_line e line ≡ (e', found)
      → IsShort line
      → read_stream handle e (line ∷ lines) s
        ≡ read_stream handle e' lines (handle_complete handle found s)
  unfolding read_stream
  read_one handle e e' line lines found s h short = rw (read_stream, short, h) refl

  read_connected :
      (handle : String → S → S) (consumer_id : String) (es : List StreamEvent) (s : S)
      → All IsShort ("event: connected" ∷ connected_data consumer_id ∷ "" ∷ [])
      → read_stream handle blank
          ("event: connected" ∷ connected_data consumer_id ∷ "" ∷ stream_lines es)
          s
        ≡ read_stream handle blank (stream_lines es) s
  read_connected handle consumer_id es s a =
      let data_text : String =
        String.◌++◌ "{\"status\":\"connected\",\"consumer_id\":\""
          (String.◌++◌ consumer_id (String.◌++◌ "\"}" "")) in
      read_one handle _ _ _ _ _ s (read_line-connected blank) a.0
      ∙ read_one handle _ _ _ _ _ s
          (read_line-data (record blank { event_type = "connected" }) data_text) a.1.0
      ∙ read_one handle _ _ _ _ _ s (read_line-empty_other (trim_space data_text)) a.1.1.0

  -- The client that reads what the server has written handles each message that was sent, once and in
  -- the order in which they were sent, and nothing else: neither the event of the connection nor the
  -- pings. The JSON of a message is not empty and has no space at its ends, the id of the consumer has no
  -- line break, and no line has more than the 65535 bytes that bufio.Scanner has room for.
  pub read_stream-stream_lines :
      (handle : String → S → S) (es : List StreamEvent) (s : S)
      → All IsWellFormed es
      → read_stream handle blank (stream_lines es) s ≡ handle_all handle es s
  unfolding stream_lines event_lines handle_all
  read_stream-stream_lines handle [] s a = unfold read_stream in refl
  read_stream-stream_lines handle (sends json ∷ es) s ((j, short), a) =
      read_one handle _ _ _ _ _ s (read_line-message blank) short.0
      ∙ read_one handle _ _ _ _ _ s
          (read_line-data (record blank { event_type = "message" }) (String.◌++◌ json "")) short.1.0
      ∙ ap
          (λ t.
            read_stream handle (record { event_type = "message"; event_data = t })
              ("" ∷ stream_lines es) s)
          (ap trim_space (append-nil json) ∙ j.trimmed)
      ∙ read_one handle _ _ _ _ _ s (read_line-empty_message json j.not_empty) short.1.1.0
      ∙ read_stream-stream_lines handle es (handle json s) a
  read_stream-stream_lines handle (connected consumer_id ∷ es) s ((one, short), a) =
      ap
        (λ ls. read_stream handle blank ("event: connected" ∷ (ls ++ "" ∷ []) ++ stream_lines es) s)
        one
      ∙ read_connected handle consumer_id es s
          (subst (λ ls. All IsShort ("event: connected" ∷ ls ++ "" ∷ [])) one short)
      ∙ read_stream-stream_lines handle es s a
  read_stream-stream_lines handle (pings ∷ es) s ((j, short), a) =
      read_one handle _ _ _ _ _ s (read_line-ping blank) short.0
      ∙ read_one handle _ _ _ _ _ s read_line-empty_blank short.1.0
      ∙ read_stream-stream_lines handle es s a

abbrev pub IsFailure : Attempt → Type 0
IsFailure no_response = Unit
IsFailure bad_status = Unit
IsFailure no_request = ⊥
IsFailure opened = ⊥

next_delay-failure : (a : Attempt) (d : ℕ) → IsFailure a → next_delay a (min d 30) ≡ min (d * 2) 30
unfolding next_delay min
next_delay-failure no_response d f = ground arith
next_delay-failure bad_status d f = ground arith
next_delay-failure no_request d f = absurd f
next_delay-failure opened d f = absurd f

pow_step : (d n : ℕ) → d * 2 * 2 ^ n ≡ d * 2 ^ suc n
pow_step d n = mul_assoc d 2 (2 ^ n) ∙ ap (λ k. d * k) (mul_comm 2 (2 ^ n) ∙ sym (pow.suc 2 n))

delay_after-from :
    (tries : List Attempt) (d : ℕ)
    → All IsFailure tries
    → delay_after tries (min d 30) ≡ min (d * 2 ^ length tries) 30
unfolding delay_after
delay_after-from [] d f = ap (λ k. min k 30) (omega arith)
delay_after-from (a ∷ tries) d f =
    ap (delay_after tries) (next_delay-failure a d f.0)
    ∙ delay_after-from tries (d * 2) f.1
    ∙ ap (λ k. min k 30) (pow_step d (length tries))

-- The client waits twice tries long after each failure to connect, from one second on, and never more
-- than 30 seconds.
pub delay_after-failures :
    (tries : List Attempt) → All IsFailure tries → delay_after tries 1 ≡ min (2 ^ length tries) 30
unfolding min
delay_after-failures tries f =
    let once : 1 * 2 ^ length tries ≡ 2 ^ length tries = omega arith in
    delay_after-from tries 1 f ∙ ap (λ k. min k 30) once
