-- ===== src/Router/Tests.antt =====
-- A request for a GPU, over a database with one, and handlers that panic.
use gpu_telemetry_pipeline.Base.{
  ℕ, String, Option, none, some, [], ◌∷◌, ◌≡◌, refl, str_eq, if◌then◌else◌, Dict, lookup,
}
use gpu_telemetry_pipeline.Domain.{Gpu}
use gpu_telemetry_pipeline.Storage.Memory.{Tables, empty_tables, tables, find_gpu}
use gpu_telemetry_pipeline.Api.{Parsers, get_gpu, to_gpu_response}
use gpu_telemetry_pipeline.Router.{
  gpu, Ran, finished, panicked, Handler, chain, dispatch, handle, routes, serve, logging_middleware,
  error_handler_middleware, report_error,
}
use gpu_telemetry_pipeline.Router.Chain.{or_500, Recovers, Contains, chain-Contains}
use gpu_telemetry_pipeline.Router.Answers.{sent}

instance abbrev parsers : Parsers
parsers = record { parse_time = λ s. none; atoi = λ s. none }

abbrev caught : Ran → Ran
caught (finished c) = finished c
caught (panicked c) = finished (record c { written = some (or_500 c.written) })

abbrev recovery : Handler → Handler
recovery h c = caught (h c)

recovery-Recovers : Recovers recovery
recovery-Recovers = record { returns = λ h c c' e. rw e refl; catches = λ h c c' e. rw e refl }

abbrev h100 : Gpu
h100 = record {
  uuid = "GPU-1";
  device_id = "nvidia0";
  gpu_index = "0";
  model_name = "H100";
  hostname = "host";
  container = "";
  pod = "";
  namespace = "";
}

abbrev database : Tables
database = record empty_tables { gpus = h100 ∷ [] }

abbrev matches : String → String → Option (Dict String)
matches pattern_text path =
    if str_eq pattern_text "/api/v1/gpus/:uuid" then some (("uuid", "GPU-1") ∷ []) else none

-- A slash too many is gin's to redirect.
abbrev redirect : String → String → Option ℕ
redirect method path = if str_eq path "/api/v1/gpus/" then some 301 else none

served :
    serve recovery matches redirect database "GET" "/api/v1/gpus/GPU-1" []
    ≡ (sent (record { status = 200; body = gpu (to_gpu_response h100) }), some 200)
unfolding serve chain logging_middleware error_handler_middleware report_error dispatch handle
    routes lookup get_gpu find_gpu
served = refl

abbrev panics : Handler
panics c = panicked (record c { errors = "first" ∷ [] })

chain-Contains_example :
    Contains
      (panicked (record { errors = "first" ∷ []; written = none }))
      (chain recovery panics (record { errors = []; written = none }))
chain-Contains_example =
    chain-Contains recovery recovery-Recovers panics (record { errors = []; written = none })
