-- ===== src/BatchLock.antt =====
-- internal/streamer/batch_lock.go: the lock under which one streamer at a time publishes the file.
-- `LockStore` is the key that all instances share: its value and when it expires. SET NX, and the
-- two scripts, are done by Redis at one go; a time is in milliseconds.
pub mod Exclusion
pub mod Tests
use gpu_telemetry_pipeline.Base.{
  ℕ, ◌+◌, String, Bool, true, false, Option, none, some, List, [], ◌∷◌, str_eq, ltb, if◌then◌else◌,
}

pub record Held : Type 0 where
  pub lock_value : String
  pub expires : ℕ

abbrev pub lock_ttl : ℕ
lock_ttl = 300000

-- What Redis shows of the key at a time: an expired key is gone.
unfoldable pub get_lock : ℕ → Option Held → Option Held
get_lock now none = none
get_lock now (some h) = if ltb now h.expires then some h else none

abbrev pub owns : String → Option Held → Bool
owns value none = false
owns value (some h) = str_eq h.lock_value value

-- One attempt of `AcquireLock`: SET NX with the value and the time to live.
unfoldable pub try_acquire : ℕ → String → Option Held → Bool × Option Held
try_acquire now value key = elim (get_lock now key) [
  | none ↦ (true, some (record { lock_value = value; expires = now + lock_ttl }))
  | some h ↦ (false, key)
]

unfoldable pub release_lock : ℕ → String → Option Held → Option Held
release_lock now value key = if owns value (get_lock now key) then none else key

-- `false` is the error that the lock is not owned.
unfoldable pub extend_lock : ℕ → String → Option Held → Bool × Option Held
extend_lock now value key =
    if owns value (get_lock now key)
    then (true, some (record { lock_value = value; expires = now + lock_ttl }))
    else (false, key)

-- What an instance asks for.
pub data Ask : Type 0 where
  acquires releases extends : String → Ask

-- A request of an instance at a time.
unfoldable pub step : ℕ → Ask → Option Held → Option Held
step now (acquires value) key = (try_acquire now value key).1
step now (releases value) key = release_lock now value key
step now (extends value) key = (extend_lock now value key).1

unfoldable pub run : List (ℕ × Ask) → Option Held → Option Held
run [] key = key
run ((now, a) ∷ asks) key = run asks (step now a key)

-- One turn of the loop of `AcquireLock`: whether the context is done when it begins and when it sleeps,
-- and whether Redis fails. A sleep after a failure of Redis is not interrupted.
pub record Try : Type 0 where
  pub now : ℕ
  pub done_before : Bool
  pub redis_fails : Bool
  pub done_after : Bool

pub data Acquired : Type 0 where
  acquired cancelled still_trying : Acquired

unfoldable pub acquire_lock : String → List Try → Option Held → Acquired × Option Held
acquire_lock value [] key = (still_trying, key)
acquire_lock value (t ∷ tries) key =
    let rest = acquire_lock value tries key in
    let out = try_acquire t.now value key in
    if t.done_before
    then (cancelled, key)
    else if t.redis_fails
    then rest
    else if out.0
    then (acquired, out.1)
    else if t.done_after
    then (cancelled, key)
    else rest
