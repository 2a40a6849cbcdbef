-- ===== src/Config/Valid.antt =====
-- Which environments give a configuration that passes.
use gpu_telemetry_pipeline.Base.{
  ℕ, ℤ, pos, negsuc, ◌≤◌, String, true, false, none, ◌≡◌, ◌↔◌, ◌⊎◌, inl, inr, refl, str_eq, arith,
}
use gpu_telemetry_pipeline.Config.{Config, Readers, load, get_env_as, validate, not_positive}

-- A number from 1 up to a bound.
abbrev pub Between : ℕ → ℤ → Type 0
Between bound n = (k : ℕ) × (n ≡ pos k) × (1 ≤ k) × (k ≤ bound)

-- A positive number.
abbrev pub Positive : ℤ → Type 0
Positive n = (k : ℕ) × (n ≡ pos k) × (1 ≤ k)

not_positive_iff : (n : ℤ) → (not_positive n ≡ false) ↔ Positive n
not_positive_iff (pos k) = (λ h. (k, refl, ground (arith, h)), λ a. ground (arith, a.1, a.2))
not_positive_iff (negsuc k) = (λ h. absurd (ground (arith, h)), λ a. absurd (ground (arith, a.1)))

-- A configuration passes exactly when its port is from 1 to 65535 and its buffer size and batch size
-- are positive.
pub validate_iff :
    (c : Config)
    → (validate c ≡ none)
      ↔ (Between 65535 c.server.port × Positive c.buffer_size × Positive c.batch_size)
unfolding validate
validate_iff c =
    let buffer = not_positive_iff c.buffer_size in
    let batch = not_positive_iff c.batch_size in
    let port = not_positive_iff c.server.port in
    (
      λ h.
          let (k, e, low) = port.0 (ground (arith, h)) in
          (
            (k, e, low, ground (arith, h, e)),
            buffer.0 (ground (arith, h)),
            batch.0 (ground (arith, h)),
          ),
      λ a.
          let fine = port.1 (a.0.0, a.0.1, a.0.2) in
          ground (arith, fine, a.0.1, a.0.3, buffer.1 a.1, batch.1 a.2),
    )

-- A variable that is empty or is no number.
abbrev pub IsUnread : ⦃X : Readers⦄ → (String → String) → String → Type 0
IsUnread ⦃X⦄ env key = (str_eq (env key) "" ≡ true) ⊎ (X.atoi (env key) ≡ none)

get_env_as-IsUnread :
    ⦃X : Readers⦄ (env : String → String) (key : String) (default : ℤ)
    → IsUnread env key
    → get_env_as X.atoi env key default ≡ default
unfolding get_env_as
get_env_as-IsUnread env key default (inl e) = ground (arith, e)
get_env_as-IsUnread env key default (inr e) = ground (arith, e)

-- An environment whose port, buffer size and batch size are each empty or no number loads a
-- configuration that passes, whatever else it holds.
pub validate-load :
    ⦃X : Readers⦄ (env : String → String)
    → IsUnread env "SERVER_PORT"
    → IsUnread env "QUEUE_BUFFER_SIZE"
    → IsUnread env "BATCH_SIZE"
    → validate (load env) ≡ none
unfolding validate load
validate-load env port buffer batch = ground (
  arith,
  get_env_as-IsUnread env "SERVER_PORT" (pos 8080) port,
  get_env_as-IsUnread env "QUEUE_BUFFER_SIZE" (pos 1000) buffer,
  get_env_as-IsUnread env "BATCH_SIZE" (pos 100) batch,
)
