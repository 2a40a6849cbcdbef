-- ===== src/BatchLock/Exclusion.antt =====
-- No two instances hold the lock at a time.
use gpu_telemetry_pipeline.Base.{
  ℕ, ◌+◌, ◌<◌, String, true, false, Option, some, List, [], ◌∷◌, ◌≡◌, ◌≢◌, refl, ap, ◌∙◌,
  str_eq_refl, str_eq_iff, All, arith,
}
use gpu_telemetry_pipeline.BatchLock.{
  Held, lock_ttl, get_lock, try_acquire, release_lock, extend_lock, Ask, acquires, releases,
  extends, step, run,
}

abbrev pub value_of : Ask → String
value_of (acquires value) = value
value_of (releases value) = value
value_of (extends value) = value

-- A request of another instance, before the time.
abbrev pub IsForeign : String → ℕ → ℕ × Ask → Type 0
IsForeign value limit (now, a) = (value_of a ≢ value) × (now < limit)

abbrev held_at : String → ℕ → Option Held
held_at value limit = some (record { lock_value = value; expires = limit })

step-foreign :
    (value : String) (limit now : ℕ) (a : Ask)
    → IsForeign value limit (now, a)
    → step now a (held_at value limit) ≡ held_at value limit
unfolding step try_acquire release_lock extend_lock get_lock
step-foreign value limit now (acquires v) h = ground (arith, h.1)
step-foreign value limit now (releases v) h = ground (arith, h.0, h.1, str_eq_iff value v)
step-foreign value limit now (extends v) h = ground (arith, h.0, h.1, str_eq_iff value v)

pub run-foreign :
    (value : String) (limit : ℕ) (asks : List (ℕ × Ask))
    → All (IsForeign value limit) asks
    → run asks (held_at value limit) ≡ held_at value limit
unfolding run
run-foreign value limit [] a = refl
run-foreign value limit ((now, a) ∷ asks) (h, hs) =
    ap (run asks) (step-foreign value limit now a h) ∙ run-foreign value limit asks hs

-- Once an instance has acquired the lock, then until five minutes later, whatever the other
-- instances ask for (to acquire, to release or to extend), none of them acquires it, and the owner
-- can still extend it.
pub try_acquire-exclusive :
    (value : String) (start : ℕ) (key : Option Held) (asks : List (ℕ × Ask)) (other : String)
    (now : ℕ)
    → (try_acquire start value key).0 ≡ true
    → All (IsForeign value (start + lock_ttl)) asks
    → other ≢ value
    → now < start + lock_ttl
    → let later = run asks (try_acquire start value key).1 in
      ((try_acquire now other later).0 ≡ false)
      × ((extend_lock now other later).0 ≡ false)
      × ((extend_lock now value later).0 ≡ true)
try_acquire-exclusive value start key asks other now won foreign differs before =
    let mine : (try_acquire start value key).1 ≡ held_at value (start + lock_ttl) =
      unfold try_acquire in ground (arith, won) in
    let kept : run asks (try_acquire start value key).1 ≡ held_at value (start + lock_ttl) =
      ap (run asks) mine ∙ run-foreign value (start + lock_ttl) asks foreign in
    rw kept (
      unfold try_acquire get_lock in ground (arith, before),
      unfold extend_lock get_lock in ground (arith, before, differs, str_eq_iff value other),
      unfold extend_lock get_lock in ground (arith, before, str_eq_refl value),
    )
