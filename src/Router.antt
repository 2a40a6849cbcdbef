-- ===== src/Router.antt =====
-- internal/api/router.go and internal/api/middleware: the gateway's routes, and the middleware around
-- every handler. How gin compares a path with a pattern is a parameter, and so are its Recovery and its
-- redirections.
pub mod Chain
pub mod Answers
pub mod Tests
use gpu_telemetry_pipeline.Base.{
  ℕ, String, Bool, true, false, ◌&&◌, not, Option, none, some, List, [], ◌∷◌, ◌++◌, str_eq,
  if◌then◌else◌, concat, Dict, lookup,
}
use gpu_telemetry_pipeline.Storage.{Storage}
use gpu_telemetry_pipeline.Api.{
  GpuResponse, GpuListResponse, TelemetryListResponse, ErrorResponse, Response, okay, failed,
  refuse, Parsers, Query, list_gpus, get_gpu, get_gpu_telemetry,
}

pub data Endpoint : Type 0 where
  health swagger gpus gpu_by_uuid gpu_telemetry : Endpoint

pub record Route : Type 0 where
  pub method : String
  pub path : String
  pub endpoint : Endpoint

abbrev get_route : String → Endpoint → Route
get_route path endpoint = record { method = "GET"; path = path; endpoint = endpoint }

-- The groups of `setupRoutes`: the prefix of the API, and that of the GPUs in it.
unfoldable pub routes : List Route
routes =
    let v1 : String = "/api/v1" in
    let in_gpus : String → String = λ path. concat (v1 ∷ "/gpus" ∷ path ∷ []) in
    get_route "/health" health
    ∷ get_route "/swagger/*any" swagger
    ∷ get_route (in_gpus "") gpus
    ∷ get_route (in_gpus "/:uuid") gpu_by_uuid
    ∷ get_route (in_gpus "/:uuid/telemetry") gpu_telemetry
    ∷ []

pub data Body : Type 0 where
  gpu_list : GpuListResponse → Body
  gpu : GpuResponse → Body
  telemetry : TelemetryListResponse → Body
  error : ErrorResponse → Body
  healthy page empty : Body

-- What a handler has written.
pub record Written : Type 0 where
  pub status : ℕ
  pub body : Body

-- A request's context: the errors that were recorded, and what was written.
pub record Context : Type 0 where
  pub errors : List String
  pub written : Option Written

-- A handler returns, or it panics.
pub data Ran : Type 0 where
  finished panicked : Context → Ran

abbrev pub Handler : Type 0
Handler = Context → Ran

-- `c.JSON(status, body)`.
abbrev pub json : ℕ → Body → Handler
json status body c =
    finished (record c { written = some (record { status = status; body = body }) })

abbrev pub answer : {A : Type 0} → (A → Body) → Response A → Handler
answer body (okay a) = json 200 (body a)
answer body (failed status e) = json status (error e)

abbrev pub last_or : String → List String → String
last_or message [] = message
last_or message (e ∷ es) = last_or e es

-- The end of `ErrorHandlerMiddleware`: the last error, where nothing has been written.
unfoldable pub report_error : List String → Option Written → Option Written
report_error [] written = written
report_error (e ∷ es) (some w) = some w
report_error (e ∷ es) none =
    some (record { status = 500; body = error (refuse "Internal Server Error" (last_or e es)) })

abbrev pub after_next : Ran → Ran
after_next (panicked c) = panicked c
after_next (finished c) = finished (record c { written = report_error c.errors c.written })

unfoldable pub error_handler_middleware : Handler → Handler
error_handler_middleware next c = after_next (next c)

-- `c.Writer.Status()`.
abbrev pub status_of : Option Written → ℕ
status_of none = 200
status_of (some w) = w.status

-- What the log says of a request, if its handlers return.
abbrev pub log_status : Ran → Option ℕ
log_status (finished c) = some (status_of c.written)
log_status (panicked c) = none

unfoldable pub logging_middleware : Handler → Context → Ran × Option ℕ
logging_middleware next c = let out = next c in (out, log_status out)

-- `Router`, with gin's own middleware: `setupMiddleware` registers the log first and Recovery last.
unfoldable pub chain : (Handler → Handler) → Handler → Context → Ran × Option ℕ
chain recovery handler = logging_middleware (error_handler_middleware (recovery handler))

abbrev pub get_or_empty : Option String → String
get_or_empty none = ""
get_or_empty (some s) = s

abbrev pub query_of : Dict String → Query
query_of q = record {
  start_time = get_or_empty (lookup "start_time" q);
  end_time = get_or_empty (lookup "end_time" q);
  limit = get_or_empty (lookup "limit" q);
}

-- Where there is no route, gin redirects or lets the middleware answer 404; a redirection does not
-- go through the middleware.
abbrev pub respond : (Handler → Handler) → Option ℕ → Option Handler → Ran × Option ℕ
respond recovery redirection (some handler) =
    chain recovery handler (record { errors = []; written = none })
respond recovery none none =
    chain recovery (json 404 empty) (record { errors = []; written = none })
respond recovery (some status) none = (
  finished (record { errors = []; written = some (record { status = status; body = empty }) }),
  none,
)

module _ ⦃P : Parsers⦄ {D : Type 0} ⦃R : Storage D⦄ where
  -- The handler of an endpoint; the pages of Swagger come from a library.
  unfoldable pub handle : D → Endpoint → Dict String → Dict String → Handler
  handle d health params query = json 200 healthy
  handle d swagger params query = json 200 page
  handle d gpus params query = answer gpu_list (list_gpus d)
  handle d gpu_by_uuid params query = answer gpu (get_gpu (get_or_empty (lookup "uuid" params)) d)
  handle d gpu_telemetry params query =
      answer telemetry (get_gpu_telemetry (get_or_empty (lookup "uuid" params)) (query_of query) d)

  -- The handler of a request, with what `matches` reads from the path, where there is a route.
  unfoldable pub dispatch :
      (String → String → Option (Dict String))
      → D
      → List Route
      → String
      → String
      → Dict String
      → Option Handler
  dispatch matches d [] method path query = none
  dispatch matches d (r ∷ rs) method path query = elim (matches r.path path) [
    | none ↦ dispatch matches d rs method path query
    | some params ↦
        if str_eq r.method method
        then some (handle d r.endpoint params query)
        else dispatch matches d rs method path query
  ]

  -- A request to the gateway; `redirect` is gin's redirection of a path that no route has, as by the
  -- option RedirectTrailingSlash, with its status.
  unfoldable pub serve :
      (Handler → Handler)
      → (String → String → Option (Dict String))
      → (String → String → Option ℕ)
      → D
      → String
      → String
      → Dict String
      → Ran × Option ℕ
  serve recovery matches redirect d method path query =
      respond recovery (redirect method path) (dispatch matches d routes method path query)
