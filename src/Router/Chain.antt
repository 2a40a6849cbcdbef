-- ===== src/Router/Chain.antt =====
-- What comes through the middleware.
use gpu_telemetry_pipeline.Base.{
  ℕ, String, Option, none, some, List, [], ◌∷◌, ◌≡◌, ◌≢◌, refl, ap, ◌∙◌,
}
use gpu_telemetry_pipeline.Router.{
  empty, Written, Context, Ran, finished, panicked, Handler, report_error, after_next,
  error_handler_middleware, status_of, log_status, logging_middleware, chain,
}

-- What is written when a panic has been caught.
abbrev pub or_500 : Option Written → Written
or_500 none = record { status = 500; body = empty }
or_500 (some w) = w

-- gin's Recovery: a handler that returns is left as it is; one that panics has returned, with the
-- status 500 if it had written nothing.
pub record Recovers (recovery : Handler → Handler) : Type 0 where
  pub returns : (h : Handler) (c c' : Context) → h c ≡ finished c' → recovery h c ≡ finished c'
  pub catches :
      (h : Handler) (c c' : Context)
      → h c ≡ panicked c'
      → recovery h c ≡ finished (record c' { written = some (or_500 c'.written) })

-- What is sent for a handler that ended so.
pub data Sends : Ran → Option Written → Type 0 where
  written : (c : Context) (w : Written) → c.written ≡ some w → Sends (finished c) (some w)
  nothing : (c : Context) → c.errors ≡ [] → c.written ≡ none → Sends (finished c) none
  reported :
      (c : Context) (w : Written)
      → c.errors ≢ []
      → c.written ≡ none
      → w.status ≡ 500
      → Sends (finished c) (some w)
  caught : (c : Context) → Sends (panicked c) (some (or_500 c.written))

-- The request is over without a panic, and the log says the status that was sent.
pub record Contains (r : Ran) (out : Ran × Option ℕ) : Type 0 where
  pub context : Context
  pub is_over : out.0 ≡ finished context
  pub is_logged : out.1 ≡ some (status_of context.written)
  pub sends : Sends r context.written

reported-Sends :
    (es : List String) (o : Option Written)
    → Sends (finished (record { errors = es; written = o })) (report_error es o)
unfolding report_error
reported-Sends [] none = nothing _ refl refl
reported-Sends [] (some w) = written _ w refl
reported-Sends (e ∷ es) none = reported _ _ (λ h. cc) refl refl
reported-Sends (e ∷ es) (some w) = written _ w refl

report_error-some : (es : List String) (w : Written) → report_error es (some w) ≡ some w
unfolding report_error
report_error-some [] w = refl
report_error-some (e ∷ es) w = refl

module _ (recovery : Handler → Handler) (L : Recovers recovery) where
  ended :
      (h : Handler) (c c' : Context)
      → h c ≡ panicked c'
      → after_next (recovery h c) ≡ finished (record c' { written = some (or_500 c'.written) })
  ended h c c' e =
      ap after_next (L.catches h c c' e)
      ∙ ap (λ o. finished (record c' { written = o }))
          (report_error-some c'.errors (or_500 c'.written))

  -- Behind the middleware no panic of a handler gets out. What the handler wrote is sent; if it wrote
  -- nothing, the status is 500 when it panicked or recorded an error, and else nothing is written. The log
  -- has the status that was sent.
  pub chain-Contains : (h : Handler) (c : Context) → Contains (h c) (chain recovery h c)
  unfolding chain logging_middleware error_handler_middleware report_error
  chain-Contains h c = through (h c) refl
    where
      through : (r : Ran) → h c ≡ r → Contains r (chain recovery h c)
      through (finished c') e = record {
        context = record c' { written = report_error c'.errors c'.written };
        is_over = ap after_next (L.returns h c c' e);
        is_logged = ap (λ x. log_status (after_next x)) (L.returns h c c' e);
        sends = reported-Sends c'.errors c'.written;
      }
      through (panicked c') e = record {
        context = record c' { written = some (or_500 c'.written) };
        is_over = ended h c c' e;
        is_logged = ap log_status (ended h c c' e);
        sends = caught c';
      }
