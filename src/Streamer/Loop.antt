-- ===== src/Streamer/Loop.antt =====
-- The loop of `Start` (internal/streamer/streamer.go): the lock, one pass over the file, the release.
-- A round is one turn of the loop. `others` is what the other instances do to the key meanwhile.
use gpu_telemetry_pipeline.Base.{
  ℕ, zero, suc, String, Bool, true, false, Option, none, some, List, [], ◌∷◌, if◌then◌else◌,
}
use gpu_telemetry_pipeline.Domain.{TelemetryJson}
use gpu_telemetry_pipeline.MessageQueue.{MessageQueue}
use gpu_telemetry_pipeline.Parser.Reader.{Line}
use gpu_telemetry_pipeline.BatchLock.{
  Held, release_lock, Try, Acquired, acquired, cancelled, still_trying, acquire_lock,
}
use gpu_telemetry_pipeline.Streamer.{
  Streamer, StreamError, context_done, Surroundings, stream_file, count_errors,
}

pub record Round : Type 0 where
  pub is_done : Bool
  pub tries : List Try
  pub surroundings : Surroundings
  pub lines : Option (List Line)
  pub others : Option Held → Option Held
  pub release_time : ℕ
  pub release_fails : Bool

-- A streamer in its surroundings: its queue, the shared key, and the releases that it has deferred.
pub record Node (Q : Type 0) : Type 0 where
  pub streamer : Streamer
  pub queue : Q
  pub key : Option Held
  pub deferred : ℕ

-- `waits`: `AcquireLock` has not returned.
pub data Outcome : Type 0 where
  returned : Option StreamError → Outcome
  goes_on waits : Outcome

-- The deferred releases run when `Start` returns.
unfoldable pub release_deferred : ℕ → ℕ → String → Option Held → Option Held
release_deferred zero now value key = key
release_deferred (suc n) now value key = release_deferred n now value (release_lock now value key)

abbrev pub is_context_done : StreamError → Bool
is_context_done context_done = true
is_context_done e = false

unfoldable pub release_after : Bool → Round → String → Option Held → Option Held
release_after has_lock r value key =
    if has_lock
    then (if r.release_fails then key else release_lock r.release_time value key)
    else key

-- What follows the pass over the file.
unfoldable pub after_file : Bool → Option StreamError → Streamer → Outcome × Streamer
after_file loop_mode none s = ((if loop_mode then goes_on else returned none), s)
after_file loop_mode (some e) s =
    if is_context_done e
    then (returned (some e), s)
    else ((if loop_mode then goes_on else returned (some e)), count_errors 1 s)

module _ {Q : Type 0} ⦃M : MessageQueue Q⦄ ⦃J : TelemetryJson⦄ where
  -- The pass over the file, once the lock is held where there is one.
  unfoldable pub process_file : Bool → Bool → Round → Node Q → Outcome × Node Q
  process_file has_lock loop_mode r n =
      let out = stream_file r.surroundings r.lines n.streamer n.queue in
      let next = after_file loop_mode out.0 out.1 in
      (
        next.0,
        record n {
          streamer = next.1;
          queue = out.2;
          key = release_after has_lock r n.streamer.instance_id (r.others n.key);
        },
      )

  unfoldable pub with_lock : Bool → Round → Acquired → Node Q → Outcome × Node Q
  with_lock loop_mode r acquired n =
      process_file true loop_mode r (record n { deferred = suc n.deferred })
  with_lock loop_mode r cancelled n = (returned (some context_done), n)
  with_lock loop_mode r still_trying n = (waits, n)

  unfoldable pub turn : Bool → Bool → Round → Node Q → Outcome × Node Q
  turn has_lock loop_mode r n =
      let got = acquire_lock n.streamer.instance_id r.tries n.key in
      if r.is_done
      then (returned (some context_done), n)
      else if has_lock
      then with_lock loop_mode r got.0 (record n { key = got.1 })
      else process_file false loop_mode r n

  unfoldable pub finish : ℕ → Option StreamError → Node Q → Outcome × Node Q
  finish now e n = (
    returned e,
    record n { key = release_deferred n.deferred now n.streamer.instance_id n.key; deferred = 0 },
  )

  -- The loop over these rounds; the time is that of the deferred releases.
  unfoldable pub start : ℕ → Bool → Bool → List Round → Node Q → Outcome × Node Q
  start now has_lock loop_mode [] n = (goes_on, n)
  start now has_lock loop_mode (r ∷ rounds) n =
      let out = turn has_lock loop_mode r n in
      let rest = start now has_lock loop_mode rounds out.1 in
      elim out.0 [ returned e ↦ finish now e out.1 | goes_on ↦ rest | waits ↦ (waits, out.1) ]
