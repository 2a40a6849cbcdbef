-- ===== src/HttpClient/StreamTests.antt =====
-- Subscriptions that end and that do not, and a stream of three events.
use gpu_telemetry_pipeline.Base.{
  String, true, false, List, [], ◌∷◌, ◌++◌, ◌≡◌, refl, str_eq_iff, lookup, insert, delete, some,
  arith,
}
use gpu_telemetry_pipeline.HttpClient.Subscriptions
use gpu_telemetry_pipeline.HttpClient.Subscriptions.{
  Subscriptions, has_shut_down, loop_looks, subscribes, unsubscribes, awaited, begin_shutdown,
  subscribe, put, unsubscribe, alter,
}
use gpu_telemetry_pipeline.HttpClient.Shutdown.{IsKept, Sees, run-shut_down, run-not_shut_down}
use gpu_telemetry_pipeline.HttpClient.Stream.{
  StreamEvent, connected, sends, pings, stream_lines, read_stream, blank, event_lines, split_lines,
  is_too_long, byte_length,
}
use gpu_telemetry_pipeline.HttpClient.Reading.{IsCompact, handle_all, read_stream-stream_lines}
use gpu_telemetry_pipeline.Parser.{trim_space, trim_left, trim_right, trim_end, is_space}

-- A client with a subscription whose context lasts.
abbrev busy : Subscriptions
busy = record {
  entries = ("telemetry", 0) ∷ [];
  objects = record { handler = 1; is_cancelled = false; is_done = false } ∷ [];
  client_cancelled = false;
}

busy-IsKept : IsKept "telemetry" 0 busy
unfolding lookup
busy-IsKept = record {
  subscription = record { handler = 1; is_cancelled = false; is_done = false };
  is_there = refl;
  not_cancelled = refl;
  not_done = refl;
  owned = λ t h. ground (arith, h, str_eq_iff "telemetry" t, str_eq_iff t "telemetry");
}

abbrev others : List Subscriptions.Event
others = loop_looks 0 ∷ subscribes "other" 2 false ∷ []

is_there : lookup "telemetry" busy.entries ≡ some 0
unfolding lookup
is_there = refl

run-not_shut_down_example :
    has_shut_down (awaited busy.entries) (Subscriptions.run others (begin_shutdown busy)).objects
    ≡ false
run-not_shut_down_example =
    run-not_shut_down "telemetry" 0 others busy busy-IsKept is_there (refl, (refl, tt))

abbrev ends : List Subscriptions.Event
ends = subscribes "other" 2 false ∷ unsubscribes "telemetry" ∷ loop_looks 0 ∷ []

sees : Sees 0 (begin_shutdown busy) ends
unfolding Subscriptions.step subscribe put unsubscribe alter begin_shutdown lookup insert delete
sees = Sees.later _ _ _ (
    Sees.later _ _ _
      (Sees.now _ (record { handler = 1; is_cancelled = true; is_done = false }) [] refl refl))

run-shut_down_example :
    has_shut_down (awaited busy.entries) (Subscriptions.run ends (begin_shutdown busy)).objects
    ≡ true
unfolding awaited
run-shut_down_example = run-shut_down ends busy (sees, tt)

abbrev sent : List StreamEvent
sent = connected "c1" ∷ pings ∷ sends "{}" ∷ []

braces-IsCompact : IsCompact "{}"
unfolding trim_space trim_left trim_right trim_end is_space
braces-IsCompact = record {
  not_empty = λ h. ground (arith, (str_eq_iff "{}" "").1 h);
  trimmed = refl;
}

-- A handler that keeps what it is given.
abbrev keeping : String → List String → List String
keeping json s = s ++ json ∷ []

read_stream-stream_lines_example :
    read_stream keeping blank (stream_lines sent) [] ≡ handle_all keeping sent []
unfolding event_lines split_lines is_too_long byte_length
read_stream-stream_lines_example = read_stream-stream_lines keeping sent [] (
  (refl, (refl, (refl, (refl, tt)))),
  ((tt, (refl, (refl, tt))), ((braces-IsCompact, (refl, (refl, (refl, tt)))), tt)),
)
