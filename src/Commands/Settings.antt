-- ===== src/Commands/Settings.antt =====
-- The settings of the commands: internal/collector/config.go, internal/streamer/config.go and the head of
-- cmd/queueservice/main.go. The package flag is the record `Flags`: what the command line gives, once
-- it has been read; a command line that cannot be read ends the process before.
use gpu_telemetry_pipeline.Base.{ℤ, pos, String, Bool, Option, str_eq, if◌then◌else◌}
use gpu_telemetry_pipeline.Config.{Readers}
use gpu_telemetry_pipeline.Environment.{
  read_or, get_env, get_env_int, get_env_duration, get_env_bool, default_queue_buffer_size,
  default_queue_workers, default_collector_batch_size, default_max_concurrent_handlers,
  default_collector_instance_id, default_streamer_csv_path, default_stream_interval,
  default_streamer_instance_id, default_streamer_loop_mode,
}

pub record Flags : Type 0 where
  pub string_var : String → Option String
  pub int_var : String → Option ℤ
  pub duration_var : String → Option ℤ
  pub bool_var : String → Option Bool

pub record CollectorConfig : Type 0 where
  pub instance_id : String
  pub batch_size : ℤ
  pub max_concurrent_handlers : ℤ
  pub queue_buffer_size : ℤ
  pub queue_workers : ℤ

pub record StreamerConfig : Type 0 where
  pub csv_path : String
  pub stream_interval : ℤ
  pub instance_id : String
  pub queue_buffer_size : ℤ
  pub queue_workers : ℤ
  pub loop_mode : Bool

pub record QueueServiceSettings : Type 0 where
  pub port : ℤ
  pub redis_url : String
  pub visibility_timeout : ℤ
  pub max_retries : ℤ
  pub log_level : String

module _ ⦃X : Readers⦄ (env : String → String) (f : Flags) where
  unfoldable pub load_collector_config : CollectorConfig
  load_collector_config = record {
    instance_id =
        read_or (f.string_var "instance-id")
          (get_env env "INSTANCE_ID" default_collector_instance_id);
    batch_size =
        read_or (f.int_var "batch-size")
          (get_env_int env "BATCH_SIZE" default_collector_batch_size);
    max_concurrent_handlers =
        read_or (f.int_var "max-concurrent")
          (get_env_int env "MAX_CONCURRENT_HANDLERS" default_max_concurrent_handlers);
    queue_buffer_size =
        read_or (f.int_var "queue-buffer")
          (get_env_int env "QUEUE_BUFFER_SIZE" default_queue_buffer_size);
    queue_workers =
        read_or (f.int_var "queue-workers") (get_env_int env "QUEUE_WORKERS" default_queue_workers);
  }

  unfoldable pub load_streamer_config : StreamerConfig
  load_streamer_config = record {
    csv_path = read_or (f.string_var "csv-path") (get_env env "CSV_PATH" default_streamer_csv_path);
    stream_interval =
        read_or (f.duration_var "interval")
          (get_env_duration env "STREAM_INTERVAL" default_stream_interval);
    instance_id =
        read_or (f.string_var "instance-id")
          (get_env env "INSTANCE_ID" default_streamer_instance_id);
    queue_buffer_size =
        read_or (f.int_var "queue-buffer")
          (get_env_int env "QUEUE_BUFFER_SIZE" default_queue_buffer_size);
    queue_workers =
        read_or (f.int_var "queue-workers") (get_env_int env "QUEUE_WORKERS" default_queue_workers);
    loop_mode =
        read_or (f.bool_var "loop") (get_env_bool env "LOOP_MODE" default_streamer_loop_mode);
  }

  -- `scan_int` is `fmt.Sscanf` with `%d`; where it reads no number the setting stays. Here a variable
  -- goes before a flag.
  unfoldable pub queue_service_settings : (String → Option ℤ) → QueueServiceSettings
  queue_service_settings scan_int =
      let port : ℤ = read_or (f.int_var "port") (pos 8080) in
      let max_retries : ℤ = read_or (f.int_var "max-retries") (pos 3) in
      let timeout : ℤ = read_or (f.duration_var "visibility-timeout") (pos 300000000000) in
      record {
        port = if str_eq (env "PORT") "" then port else read_or (scan_int (env "PORT")) port;
        redis_url =
            get_env env "REDIS_URL" (read_or (f.string_var "redis-url") "redis://localhost:6379");
        visibility_timeout = get_env_duration env "VISIBILITY_TIMEOUT" timeout;
        max_retries =
            if str_eq (env "MAX_RETRIES") ""
            then max_retries
            else read_or (scan_int (env "MAX_RETRIES")) max_retries;
        log_level = get_env env "LOG_LEVEL" (read_or (f.string_var "log-level") "info");
      }
