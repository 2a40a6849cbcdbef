-- ===== src/Commands.antt =====
-- The commands of cmd/: what each `main` opens and closes, and how it ends. A program is what it does to
-- its log and its deferred calls; os.Exit drops the deferred calls. What the calls of a command come to
-- is the record `World`.
pub mod Settings
pub mod Mains
pub mod Tidy
pub mod Exits
pub mod Tests
use gpu_telemetry_pipeline.Base.{
  ℕ, ℤ, String, Bool, true, false, Option, none, some, List, [], ◌∷◌, ◌++◌, if◌then◌else◌,
}
use gpu_telemetry_pipeline.HttpClient.{HttpQueueClient}

pub data Resource : Type 0 where
  telemetry_repository gpu_repository batch_lock redis_queue : Resource

-- What a command does; `cancels` is the call of `cancel` on a signal.
pub data Act : Type 0 where
  creates_client : HttpQueueClient → Act
  starts_client : Act
  opens : Resource → String → Act
  closes : Resource → Act
  runs : Act
  serves : String → Act
  serves_port : ℤ → Act
  cancels shuts_down reports : Act

-- What a process has done, and what it has deferred, the last first.
pub record Process : Type 0 where
  pub log : List Act
  pub deferred : List Act

-- A program goes on, has called os.Exit, or waits for ever.
pub data Outcome {ℓ} (A : Type ℓ) : Type ℓ where
  goes : A → Process → Outcome A
  exits : ℕ → List Act → Outcome A
  hangs : Outcome A

abbrev pub Program : Type 0 → Type 0
Program A = Process → Outcome A

abbrev pub and_then : {A B : Type 0} → Outcome A → (A → Program B) → Outcome B
and_then (goes a p) f = f a p
and_then (exits code log) f = exits code log
and_then hangs f = hangs

infixl 5 ◌>>=◌ ◌>>◌
abbrev pub ◌>>=◌ : {A B : Type 0} → Program A → (A → Program B) → Program B
◌>>=◌ m f p = and_then (m p) f

abbrev pub ◌>>◌ : {B : Type 0} → Program (Unit {0}) → Program B → Program B
m >> k = m >>= λ _. k

abbrev pub act : Act → Program (Unit {0})
act a p = goes tt (record p { log = p.log ++ a ∷ [] })

abbrev pub defer : Act → Program (Unit {0})
defer a p = goes tt (record p { deferred = a ∷ p.deferred })

abbrev pub exit : ℕ → Program (Unit {0})
exit code p = exits code p.log

abbrev pub hang : Program (Unit {0})
hang p = hangs

abbrev pub skip : Program (Unit {0})
skip p = goes tt p

-- `if err := …; err != nil { os.Exit(1) }`.
abbrev pub require : Bool → Act → Program (Unit {0})
require true a = act a
require false a = exit 1

-- How a process ends, with all that it has done: `main` returns and its deferred calls run, or it has
-- called os.Exit; `none` is that it never ends.
abbrev pub finish : Outcome (Unit {0}) → Option (ℕ × List Act)
finish (goes u p) = some (0, p.log ++ p.deferred)
finish (exits code log) = some (code, log)
finish hangs = none

unfoldable pub start : Program (Unit {0}) → Option (ℕ × List Act)
start m = finish (m (record { log = []; deferred = [] }))
