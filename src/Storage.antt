-- ===== src/Storage.antt =====
-- internal/storage/repository.go: the two repositories in one record. A database is a parameter: each operation takes its contents and gives an error or none, and the contents after.
pub mod Memory
pub mod Mock
use gpu_telemetry_pipeline.Base.{ℕ, String, Option, List, ◌⊎◌}
use gpu_telemetry_pipeline.Domain.{TelemetryPoint, Gpu, DomainError}

pub data RepositoryError : Type 0 where
  known : DomainError → RepositoryError
  driver_failed : RepositoryError

pub record TimeFilter : Type 0 where
  pub start_time : Option ℕ
  pub end_time : Option ℕ
  pub limit : Option ℕ

-- The operations on a database with contents `D`.
pub record Storage (D : Type 0) : Type 0 where
  pub store_telemetry : TelemetryPoint → D → Option RepositoryError × D
  pub bulk_store_telemetry : List TelemetryPoint → D → Option RepositoryError × D
  pub count_telemetry : D → ℕ
  pub store_gpu : Gpu → D → Option RepositoryError × D
  pub bulk_store_gpus : List Gpu → D → Option RepositoryError × D
  pub count_gpus : D → ℕ
  pub get_by_gpu : String → TimeFilter → D → RepositoryError ⊎ List TelemetryPoint
  pub get_by_uuid : String → D → RepositoryError ⊎ Gpu
  pub list_gpus : D → RepositoryError ⊎ List Gpu
