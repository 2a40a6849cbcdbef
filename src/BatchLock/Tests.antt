-- ===== src/BatchLock/Tests.antt =====
-- Two streamers and one lock.
use gpu_telemetry_pipeline.Base.{
  ℕ, String, true, false, none, List, [], ◌∷◌, ◌≡◌, ◌≢◌, refl, str_eq_iff, arith,
}
use gpu_telemetry_pipeline.BatchLock.{
  get_lock, try_acquire, extend_lock, Ask, acquires, releases, run,
}
use gpu_telemetry_pipeline.BatchLock.Exclusion.{try_acquire-exclusive}

abbrev asks : List (ℕ × Ask)
asks = (20, acquires "b") ∷ (30, releases "b") ∷ []

won : (try_acquire 10 "a" none).0 ≡ true
unfolding try_acquire get_lock
won = refl

abbrev a : String
a = "a"

abbrev b : String
b = "b"

b-ne-a : b ≢ a
b-ne-a h = ground (arith, (str_eq_iff "b" "a").1 h)

try_acquire-exclusive_example :
    let later = run asks (try_acquire 10 "a" none).1 in
    ((try_acquire 40 "b" later).0 ≡ false)
    × ((extend_lock 40 "b" later).0 ≡ false)
    × ((extend_lock 40 "a" later).0 ≡ true)
try_acquire-exclusive_example =
    try_acquire-exclusive "a" 10 none asks "b" 40 won
      ((b-ne-a, omega arith), ((b-ne-a, omega arith), tt)) b-ne-a (omega arith)

-- Five minutes on, the key has expired and another instance acquires it.
expired : (try_acquire 300010 "b" (try_acquire 10 "a" none).1).0 ≡ true
unfolding try_acquire get_lock
expired = refl
