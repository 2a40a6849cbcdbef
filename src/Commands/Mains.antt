-- ===== src/Commands/Mains.antt =====
-- The four programs: cmd/collector, cmd/streamer, cmd/api-gateway and cmd/queueservice (main.go of each).
use gpu_telemetry_pipeline.Base.{
  ℤ, String, Bool, true, false, Option, [], ◌∷◌, str_eq, concat, if◌then◌else◌,
}
use gpu_telemetry_pipeline.Config.{Readers}
use gpu_telemetry_pipeline.Environment.{default_api_port, get_env}
use gpu_telemetry_pipeline.HttpClient.{new_http_queue_client}
use gpu_telemetry_pipeline.Commands.{
  Act, Resource, creates_client, starts_client, opens, closes, runs, serves, serves_port, cancels,
  shuts_down, reports, telemetry_repository, gpu_repository, batch_lock, redis_queue, Program, ◌>>◌,
  act, defer, exit, hang, skip, require,
}
use gpu_telemetry_pipeline.Commands.Settings.{
  Flags, load_collector_config, load_streamer_config, queue_service_settings,
}

-- How the goroutine that runs the component ends: a signal comes, and then it returns or not, or it
-- returns by itself, with an error that is not the context's or without.
pub data RunEnd : Type 0 where
  signalled returned : Bool → RunEnd

-- How a server ends: it fails, or a signal comes and its shutdown succeeds or not.
pub data ServerEnd : Type 0 where
  failed : ServerEnd
  interrupted : Bool → ServerEnd

-- How flag.Parse ends: the command line has been read, it asks for help, or it cannot be read.
pub data FlagEnd : Type 0 where
  parsed helped misread : FlagEnd

-- Which calls succeed, and how the process comes to its end.
pub record World : Type 0 where
  pub environment : String → String
  pub flag_end : FlagEnd
  pub flags : Flags
  pub scan_int : String → Option ℤ
  pub succeeds : Act → Bool
  pub run_end : RunEnd
  pub server_end : ServerEnd

pub data Command : Type 0 where
  collector streamer api_gateway queueservice : Command

-- `flag.Parse`, and the rest of a command.
abbrev pub parse_flags : FlagEnd → Program (Unit {0}) → Program (Unit {0})
parse_flags parsed rest = rest
parse_flags helped rest = exit 0
parse_flags misread rest = exit 2

module _ ⦃X : Readers⦄ (w : World) where
  open w use {environment, flag_end, flags, scan_int, succeeds, run_end, server_end}

  -- A connection that must be made.
  abbrev pub require_step : Act → Program (Unit {0})
  require_step a = require (succeeds a) a

  -- The `select` at the end of the collector and the streamer; the context is cancelled on a signal, and
  -- the component's return is awaited.
  abbrev pub await_run : RunEnd → Program (Unit {0})
  await_run (signalled true) = act cancels
  await_run (signalled false) = do act cancels; hang
  await_run (returned true) = exit 1
  await_run (returned false) = skip

  abbrev pub await_server : ServerEnd → Program (Unit {0})
  await_server failed = exit 1
  await_server (interrupted stopped) = do defer cancels; require stopped shuts_down

  abbrev pub queue_service_url : String
  queue_service_url = get_env environment "QUEUE_SERVICE_URL" "http://queue-service:8080"

  -- Without an address the process exits.
  abbrev pub require_mongo : (String → Program (Unit {0})) → Program (Unit {0})
  require_mongo next =
      if str_eq (environment "MONGODB_URI") "" then exit 1 else next (environment "MONGODB_URI")

  abbrev pub open_until_end : Resource → String → Program (Unit {0})
  open_until_end r address = do require_step (opens r address); defer (closes r)

  unfoldable pub collector_main : Program (Unit {0})
  collector_main = parse_flags flag_end do
    defer cancels
    act (
        creates_client (
          new_http_queue_client queue_service_url "collectors"
            (load_collector_config environment flags).instance_id))
    require_step starts_client
    require_mongo
        (λ uri. open_until_end telemetry_repository uri >> open_until_end gpu_repository uri)
    act runs
    await_run run_end
    act reports

  unfoldable pub streamer_main : Program (Unit {0})
  streamer_main = parse_flags flag_end do
    defer cancels
    act (
        creates_client (
          new_http_queue_client queue_service_url "streamers"
            (load_streamer_config environment flags).instance_id))
    open_until_end batch_lock (get_env environment "REDIS_URL" "redis://redis:6379")
    act runs
    await_run run_end
    act reports

  unfoldable pub api_gateway_main : Program (Unit {0})
  api_gateway_main = do
    require_mongo
        (λ uri. open_until_end gpu_repository uri >> open_until_end telemetry_repository uri)
    act (serves (concat (":" ∷ get_env environment "PORT" default_api_port ∷ [])))
    await_server server_end

  unfoldable pub queueservice_main : Program (Unit {0})
  queueservice_main = parse_flags flag_end do
    open_until_end redis_queue (queue_service_settings environment flags scan_int).redis_url
    act (serves_port (queue_service_settings environment flags scan_int).port)
    await_server server_end

  unfoldable pub main : Command → Program (Unit {0})
  main collector = collector_main
  main streamer = streamer_main
  main api_gateway = api_gateway_main
  main queueservice = queueservice_main
