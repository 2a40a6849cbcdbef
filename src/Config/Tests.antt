-- ===== src/Config/Tests.antt =====
-- An empty environment but for a port that is no number.
use gpu_telemetry_pipeline.Base.{pos, String, none, ◌≡◌, refl, str_eq, if◌then◌else◌}
use gpu_telemetry_pipeline.Config.{Readers, load, get_env_as}

instance abbrev readers : Readers
readers = record { atoi = λ s. none; parse_bool = λ s. none; parse_duration = λ s. none }

abbrev environment : String → String
environment key = if str_eq key "SERVER_PORT" then "http" else ""

port : (load environment).server.port ≡ pos 8080
unfolding load get_env_as
port = refl
