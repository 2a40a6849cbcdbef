-- ===== src/Router/Answers.antt =====
-- What the gateway answers, by method and path.
use gpu_telemetry_pipeline.Base.{
  ℕ, String, Option, none, some, [], ◌∷◌, ◌≡◌, ◌≢◌, lookup, ap, Dict, All,
}
use gpu_telemetry_pipeline.Storage.{Storage}
use gpu_telemetry_pipeline.Api.{
  Parsers, Response, okay, failed, list_gpus, get_gpu, get_gpu_telemetry,
}
use gpu_telemetry_pipeline.Router.{
  Body, empty, healthy, page, gpu_list, gpu, telemetry, error, get_or_empty, query_of, respond,
  Written, Context, Ran, finished, Handler, report_error, after_next, error_handler_middleware,
  log_status, logging_middleware, chain,
}
use gpu_telemetry_pipeline.Router.Chain.{Recovers}

abbrev pub blank : Context
blank = record { errors = []; written = none }

abbrev pub sent : Written → Ran
sent w = finished (record { errors = []; written = some w })

-- What is sent for the answer of a handler.
abbrev pub written_of : {A : Type 0} → (A → Body) → Response A → Written
written_of body (okay a) = record { status = 200; body = body a }
written_of body (failed status e) = record { status = status; body = error e }

through :
    (recovery : Handler → Handler) (h : Handler) (w : Written)
    → Recovers recovery
    → h blank ≡ sent w
    → chain recovery h blank ≡ (sent w, some w.status)
unfolding chain logging_middleware error_handler_middleware report_error
through recovery h w L e =
    ap (λ x. (after_next x, log_status (after_next x))) (L.returns h blank _ e)

module _ ⦃P : Parsers⦄ {D : Type 0} ⦃R : Storage D⦄
    (matches : String → String → Option (Dict String)) (redirect : String → String → Option ℕ)
    (d : D) (method path : String) (query : Dict String) where
  -- No endpoint has the request's method and path.
  pub data IsFree : Type 0 where
    other_method : method ≢ "GET" → IsFree
    other_path :
        All
          (λ p. matches p path ≡ none)
          ("/health" ∷ "/swagger/*any" ∷ "/api/v1/gpus" ∷ "/api/v1/gpus/:uuid"
            ∷ "/api/v1/gpus/:uuid/telemetry" ∷ [])
        → IsFree

  -- The answers of the gateway, and the status in its log.
  pub data IsAnswer : Written → Option ℕ → Type 0 where
    is_healthy :
        (params : Dict String)
        → method ≡ "GET"
        → matches "/health" path ≡ some params
        → IsAnswer (record { status = 200; body = healthy }) (some 200)
    documented :
        (params : Dict String)
        → method ≡ "GET"
        → matches "/swagger/*any" path ≡ some params
        → IsAnswer (record { status = 200; body = page }) (some 200)
    lists_gpus :
        (params : Dict String) (w : Written)
        → method ≡ "GET"
        → matches "/api/v1/gpus" path ≡ some params
        → w ≡ written_of gpu_list (list_gpus d)
        → IsAnswer w (some w.status)
    gives_gpu :
        (params : Dict String) (w : Written)
        → method ≡ "GET"
        → matches "/api/v1/gpus/:uuid" path ≡ some params
        → w ≡ written_of gpu (get_gpu (get_or_empty (lookup "uuid" params)) d)
        → IsAnswer w (some w.status)
    gives_telemetry :
        (params : Dict String) (w : Written)
        → method ≡ "GET"
        → matches "/api/v1/gpus/:uuid/telemetry" path ≡ some params
        → w
          ≡ written_of telemetry
              (get_gpu_telemetry (get_or_empty (lookup "uuid" params)) (query_of query) d)
        → IsAnswer w (some w.status)
    redirected :
        (status : ℕ)
        → IsFree
        → redirect method path ≡ some status
        → IsAnswer (record { status = status; body = empty }) none
    not_found :
        IsFree
        → redirect method path ≡ none
        → IsAnswer (record { status = 404; body = empty }) (some 404)

  -- What is served, whether or not there was a handler.
  pub record Served (out : Ran × Option ℕ) : Type 0 where
    pub written : Written
    pub logged : Option ℕ
    pub is_answer : IsAnswer written logged
    pub is_served : out ≡ (sent written, logged)

  module _ (recovery : Handler → Handler) (L : Recovers recovery) where
    handled :
        (o : Option Handler) (h : Handler) (w : Written)
        → o ≡ some h
        → h blank ≡ sent w
        → IsAnswer w (some w.status)
        → Served (respond recovery (redirect method path) o)
    handled o h w e s a = record {
      written = w;
      logged = some w.status;
      is_answer = a;
      is_served = rw e (through recovery h w L s);
    }
