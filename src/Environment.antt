-- ===== src/Environment.antt =====
-- internal/config/env.go and internal/config/defaults.go: the settings of the commands, from the
-- environment, with a default where a variable is empty or cannot be read. `strconv` and
-- `time.ParseDuration` are the record `Readers`; a duration is in nanoseconds.
use gpu_telemetry_pipeline.Base.{
  ℤ, pos, String, Bool, true, Option, none, some, str_eq, if◌then◌else◌,
}
use gpu_telemetry_pipeline.Config.{Readers}

-- A variable that is set, read.
abbrev pub read_or {ℓ} : {A : Type ℓ} → Option A → A → A
read_or none default = default
read_or (some a) default = a

module _ (environment : String → String) where
  unfoldable pub get_env : String → String → String
  get_env key default = if str_eq (environment key) "" then default else environment key

  module _ ⦃X : Readers⦄ where
    unfoldable pub get_env_int : String → ℤ → ℤ
    get_env_int key default =
        if str_eq (environment key) "" then default else read_or (X.atoi (environment key)) default

    unfoldable pub get_env_duration : String → ℤ → ℤ
    get_env_duration key default =
        if str_eq (environment key) ""
        then default
        else read_or (X.parse_duration (environment key)) default

    unfoldable pub get_env_bool : String → Bool → Bool
    get_env_bool key default =
        if str_eq (environment key) ""
        then default
        else read_or (X.parse_bool (environment key)) default

-- The defaults that the commands use.
abbrev pub default_api_port : String
default_api_port = "8080"

abbrev pub default_queue_buffer_size : ℤ
default_queue_buffer_size = pos 1000

abbrev pub default_queue_workers : ℤ
default_queue_workers = pos 10

abbrev pub default_collector_batch_size : ℤ
default_collector_batch_size = pos 1

abbrev pub default_max_concurrent_handlers : ℤ
default_max_concurrent_handlers = pos 10

abbrev pub default_collector_instance_id : String
default_collector_instance_id = "collector-1"

abbrev pub default_streamer_csv_path : String
default_streamer_csv_path = "/app/data/metrics.csv"

abbrev pub default_stream_interval : ℤ
default_stream_interval = pos 100000000

abbrev pub default_streamer_instance_id : String
default_streamer_instance_id = "streamer-1"

abbrev pub default_streamer_loop_mode : Bool
default_streamer_loop_mode = true
