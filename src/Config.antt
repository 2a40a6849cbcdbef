-- ===== src/Config.antt =====
-- internal/config/config.go: settings from the environment, with a default where a variable is empty
-- or cannot be read. `strconv` and `time.ParseDuration` are the record `Readers`; a duration is in
-- nanoseconds.
pub mod Valid
pub mod Tests
use gpu_telemetry_pipeline.Base.{
  ℕ, ℤ, pos, negsuc, String, Bool, true, false, ◌||◌, Option, none, some, str_eq, ltb, ◌==◌,
  if◌then◌else◌,
}

pub record ServerConfig : Type 0 where
  pub host : String
  pub port : ℤ
  pub read_timeout : ℤ
  pub write_timeout : ℤ

-- The groups of fields after the server's are written out in one record.
pub record Config : Type 0 where
  pub server : ServerConfig
  pub queue_type : String
  pub buffer_size : ℤ
  pub storage_type : String
  pub csv_path : String
  pub poll_interval : ℤ
  pub batch_size : ℤ
  pub telemetry_enabled : Bool
  pub telemetry_topic : String

pub record Readers : Type 0 where
  pub atoi : String → Option ℤ
  pub parse_bool : String → Option Bool
  pub parse_duration : String → Option ℤ

pub data ConfigError : Type 0 where
  invalid_port invalid_buffer_size invalid_batch_size : ConfigError

unfoldable pub get_env : (String → String) → String → String → String
get_env environment key default = if str_eq (environment key) "" then default else environment key

-- `getEnvAsInt`, `getEnvAsBool` and `getEnvAsDuration` differ in what reads the text.
unfoldable pub get_env_as {ℓ} :
    {A : Type ℓ} → (String → Option A) → (String → String) → String → A → A
get_env_as read environment key default =
    if str_eq (environment key) ""
    then default
    else elim (read (environment key)) [ none ↦ default | some a ↦ a ]

unfoldable pub load : ⦃X : Readers⦄ → (String → String) → Config
load ⦃X⦄ env = record {
  server = record {
    host = get_env env "SERVER_HOST" "0.0.0.0";
    port = get_env_as X.atoi env "SERVER_PORT" (pos 8080);
    read_timeout = get_env_as X.parse_duration env "SERVER_READ_TIMEOUT" (pos 10000000000);
    write_timeout = get_env_as X.parse_duration env "SERVER_WRITE_TIMEOUT" (pos 10000000000);
  };
  queue_type = get_env env "QUEUE_TYPE" "inmemory";
  buffer_size = get_env_as X.atoi env "QUEUE_BUFFER_SIZE" (pos 1000);
  storage_type = get_env env "STORAGE_TYPE" "inmemory";
  csv_path = get_env env "CSV_PATH" "data/metrics.csv";
  poll_interval = get_env_as X.parse_duration env "POLL_INTERVAL" (pos 5000000000);
  batch_size = get_env_as X.atoi env "BATCH_SIZE" (pos 100);
  telemetry_enabled = get_env_as X.parse_bool env "TELEMETRY_ENABLED" true;
  telemetry_topic = get_env env "TELEMETRY_TOPIC" "gpu.metrics";
}

-- `n <= 0`.
abbrev pub not_positive : ℤ → Bool
not_positive (negsuc n) = true
not_positive (pos n) = n == 0

-- `n > bound`.
abbrev pub exceeds : ℕ → ℤ → Bool
exceeds bound (negsuc n) = false
exceeds bound (pos n) = ltb bound n

unfoldable pub validate : Config → Option ConfigError
validate c =
    if not_positive c.server.port || exceeds 65535 c.server.port
    then some invalid_port
    else if not_positive c.buffer_size
    then some invalid_buffer_size
    else if not_positive c.batch_size
    then some invalid_batch_size
    else none
