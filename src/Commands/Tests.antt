-- ===== src/Commands/Tests.antt =====
-- The commands where all goes well, and where a connection fails.
use gpu_telemetry_pipeline.Base.{
  pos, true, false, none, some, [], ◌∷◌, ◌≡◌, refl, str_eq, if◌then◌else◌,
}
use gpu_telemetry_pipeline.Config.{Readers}
use gpu_telemetry_pipeline.Commands.{
  opens, closes, serves, serves_port, cancels, shuts_down, gpu_repository, telemetry_repository,
  redis_queue, start,
}
use gpu_telemetry_pipeline.Environment.{get_env, get_env_int, get_env_duration}
use gpu_telemetry_pipeline.Commands.Settings.{Flags, queue_service_settings}
use gpu_telemetry_pipeline.Commands.Mains.{
  World, parsed, signalled, interrupted, collector, api_gateway, queueservice, main,
  api_gateway_main, queueservice_main,
}
use gpu_telemetry_pipeline.Commands.Exits.{Leaves, main-Leaves}

instance abbrev readers : Readers
readers = record { atoi = λ s. none; parse_bool = λ s. none; parse_duration = λ s. none }

abbrev flags : Flags
flags = record {
  string_var = λ name. none;
  int_var = λ name. none;
  duration_var = λ name. none;
  bool_var = λ name. none;
}

abbrev works : World
works = record {
  environment = λ key. if str_eq key "MONGODB_URI" then "mongodb://db" else "";
  flag_end = parsed;
  flags = flags;
  scan_int = λ s. none;
  succeeds = λ a. true;
  run_end = signalled true;
  server_end = interrupted true;
}

gateway_stops :
    start (main works api_gateway)
    ≡ some (
      0,
      opens gpu_repository "mongodb://db"
          ∷ opens telemetry_repository "mongodb://db"
          ∷ serves ":8080"
          ∷ shuts_down
          ∷ cancels
          ∷ closes telemetry_repository
          ∷ closes gpu_repository
          ∷ [],
    )
unfolding start main api_gateway_main get_env
gateway_stops = refl

-- A shutdown that does not succeed leaves the queue open.
queueservice_forced :
    start (main (record works { server_end = interrupted false }) queueservice)
    ≡ some (1, opens redis_queue "redis://localhost:6379" ∷ serves_port (pos 8080) ∷ [])
unfolding start main queueservice_main get_env get_env_int get_env_duration queue_service_settings
queueservice_forced = refl

main-Leaves_example : Leaves (start (main works collector))
main-Leaves_example = main-Leaves works collector
