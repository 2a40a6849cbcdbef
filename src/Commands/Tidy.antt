-- ===== src/Commands/Tidy.antt =====
-- A program that defers the closing of all that it opens, step by step.
use gpu_telemetry_pipeline.Base.{
  ℤ, String, Bool, true, false, List, [], ◌∷◌, ◌++◌, ◌≡◌, refl, sym, ap, ◌∙◌, append_nil,
  if◌then◌else◌,
}
use gpu_telemetry_pipeline.HttpClient.{HttpQueueClient}
use gpu_telemetry_pipeline.Commands.{
  Act, creates_client, starts_client, opens, closes, runs, serves, serves_port, cancels, shuts_down,
  reports, Resource, Outcome, goes, exits, hangs, Process, Program, and_then, ◌>>◌, act, defer,
  exit, hang, skip, require,
}

abbrev pub opened : List Act → List Resource
opened [] = []
opened (opens r address ∷ more) = r ∷ opened more
opened (_ ∷ more) = opened more

abbrev pub closed : List Act → List Resource
closed [] = []
closed (closes r ∷ more) = r ∷ closed more
closed (_ ∷ more) = closed more

abbrev pub backwards : List Resource → List Resource
backwards [] = []
backwards (r ∷ rs) = backwards rs ++ r ∷ []

-- What has been opened and deferred, while a program runs.
pub record IsTidy (p : Process) : Type 0 where
  pub deferred_all : closed p.deferred ≡ backwards (opened p.log)
  pub none_closed : closed p.log ≡ []
  pub opens_none : opened p.deferred ≡ []

pub data Ends : Outcome (Unit {0}) → Type 0 where
  going : (u : Unit {0}) (p : Process) → IsTidy p → Ends (goes u p)
  exited : (log : List Act) → closed log ≡ [] → Ends (exits 1 log)
  stuck : Ends hangs

pub record Tidies (m : Program (Unit {0})) : Type 0 where
  pub at : (p : Process) → IsTidy p → Ends (m p)

opened-append : (xs ys : List Act) → opened (xs ++ ys) ≡ opened xs ++ opened ys
opened-append [] ys = refl
opened-append (opens r address ∷ xs) ys = ap (λ rs. r ∷ rs) (opened-append xs ys)
opened-append (creates_client c ∷ xs) ys = opened-append xs ys
opened-append (starts_client ∷ xs) ys = opened-append xs ys
opened-append (closes r ∷ xs) ys = opened-append xs ys
opened-append (runs ∷ xs) ys = opened-append xs ys
opened-append (serves s ∷ xs) ys = opened-append xs ys
opened-append (serves_port k ∷ xs) ys = opened-append xs ys
opened-append (cancels ∷ xs) ys = opened-append xs ys
opened-append (shuts_down ∷ xs) ys = opened-append xs ys
opened-append (reports ∷ xs) ys = opened-append xs ys

closed-append : (xs ys : List Act) → closed (xs ++ ys) ≡ closed xs ++ closed ys
closed-append [] ys = refl
closed-append (closes r ∷ xs) ys = ap (λ rs. r ∷ rs) (closed-append xs ys)
closed-append (creates_client c ∷ xs) ys = closed-append xs ys
closed-append (starts_client ∷ xs) ys = closed-append xs ys
closed-append (opens r address ∷ xs) ys = closed-append xs ys
closed-append (runs ∷ xs) ys = closed-append xs ys
closed-append (serves s ∷ xs) ys = closed-append xs ys
closed-append (serves_port k ∷ xs) ys = closed-append xs ys
closed-append (cancels ∷ xs) ys = closed-append xs ys
closed-append (shuts_down ∷ xs) ys = closed-append xs ys
closed-append (reports ∷ xs) ys = closed-append xs ys

backwards-concat : (rs : List Resource) (r : Resource) → backwards (rs ++ r ∷ []) ≡ r ∷ backwards rs
backwards-concat [] r = refl
backwards-concat (x ∷ rs) r = ap (λ l. l ++ x ∷ []) (backwards-concat rs r)

-- The deferred calls close all that was opened.
pub all_closed :
    (p : Process)
    → IsTidy p
    → closed (p.log ++ p.deferred) ≡ backwards (opened (p.log ++ p.deferred))
all_closed p t =
    let opened_all : opened (p.log ++ p.deferred) ≡ opened p.log =
      opened-append p.log p.deferred
      ∙ ap (λ rs. opened p.log ++ rs) t.opens_none
      ∙ append_nil (opened p.log) in
    let closed_all : closed (p.log ++ p.deferred) ≡ closed p.deferred =
      closed-append p.log p.deferred ∙ ap (λ rs. rs ++ closed p.deferred) t.none_closed in
    closed_all ∙ t.deferred_all ∙ ap backwards (sym opened_all)

-- Neither opens nor closes.
abbrev IsOther : Act → Type 0
IsOther a = (opened (a ∷ []) ≡ []) × (closed (a ∷ []) ≡ [])

logged-IsTidy :
    (a : Act) → IsOther a → (p : Process) → IsTidy p → IsTidy (record p { log = p.log ++ a ∷ [] })
logged-IsTidy a o p t = record {
  deferred_all =
      t.deferred_all
      ∙ ap backwards (
          sym (append_nil (opened p.log))
          ∙ ap (λ rs. opened p.log ++ rs) (sym o.0)
          ∙ sym (opened-append p.log (a ∷ [])));
  none_closed = closed-append p.log (a ∷ []) ∙ rw (t.none_closed) o.1;
  opens_none = t.opens_none;
}

pub Tidies-act : (a : Act) → IsOther a → Tidies (act a)
Tidies-act a o = record { at = λ p t. going tt _ (logged-IsTidy a o p t) }

pub Tidies-require : (b : Bool) (a : Act) → IsOther a → Tidies (require b a)
Tidies-require true a o = Tidies-act a o
Tidies-require false a o = record { at = λ p t. exited p.log t.none_closed }

pub Tidies-defer_cancels : Tidies (defer cancels)
Tidies-defer_cancels = record {
  at = λ p t. going tt _ (record {
    deferred_all = t.deferred_all;
    none_closed = t.none_closed;
    opens_none = t.opens_none;
  });
}

pub Tidies-exit : Tidies (exit 1)
Tidies-exit = record { at = λ p t. exited p.log t.none_closed }

pub Tidies-hang : Tidies hang
Tidies-hang = record { at = λ p t. stuck }

pub Tidies-skip : Tidies skip
Tidies-skip = record { at = λ p t. going tt p t }

pub Tidies->> : (m k : Program (Unit {0})) → Tidies m → Tidies k → Tidies (m >> k)
Tidies->> m k tm tk = record { at = λ p t. go (m p) (tm.at p t) }
  where
    go : (r : Outcome (Unit {0})) → Ends r → Ends (and_then r (λ u. k))
    go r (going u p t) = tk.at p t
    go r (exited log h) = exited log h
    go r stuck = stuck

pub Tidies-if :
    (b : Bool) (m k : Program (Unit {0})) → Tidies m → Tidies k → Tidies (if b then m else k)
Tidies-if true m k tm tk = tm
Tidies-if false m k tm tk = tk

-- A resource that is opened is closed by a deferred call.
pub Tidies-open :
    (b : Bool) (r : Resource) (address : String)
    → Tidies (require b (opens r address) >> defer (closes r))
Tidies-open false r address = record { at = λ p t. exited p.log t.none_closed }
Tidies-open true r address = record {
  at = λ p t. going tt _ (record {
    deferred_all =
        ap (λ rs. r ∷ rs) t.deferred_all
        ∙ sym (backwards-concat (opened p.log) r)
        ∙ ap backwards (sym (opened-append p.log (opens r address ∷ [])));
    none_closed = closed-append p.log (opens r address ∷ []) ∙ rw (t.none_closed) refl;
    opens_none = t.opens_none;
  });
}

pub Tidies-creates_client : (c : HttpQueueClient) → Tidies (act (creates_client c))
Tidies-creates_client c = Tidies-act (creates_client c) (refl, refl)

pub Tidies-starts_client : (b : Bool) → Tidies (require b starts_client)
Tidies-starts_client b = Tidies-require b starts_client (refl, refl)

pub Tidies-runs : Tidies (act runs)
Tidies-runs = Tidies-act runs (refl, refl)

pub Tidies-serves : (address : String) → Tidies (act (serves address))
Tidies-serves address = Tidies-act (serves address) (refl, refl)

pub Tidies-serves_port : (port : ℤ) → Tidies (act (serves_port port))
Tidies-serves_port port = Tidies-act (serves_port port) (refl, refl)

pub Tidies-reports : Tidies (act reports)
Tidies-reports = Tidies-act reports (refl, refl)

pub ruleset tidy_rules = (
  Tidies->>, Tidies-if, Tidies-open, Tidies-creates_client, Tidies-starts_client, Tidies-runs,
  Tidies-serves, Tidies-serves_port, Tidies-reports, Tidies-defer_cancels, Tidies-exit,
)
