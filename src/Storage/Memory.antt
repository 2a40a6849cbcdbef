-- ===== src/Storage/Memory.antt =====
-- A database in memory, one list of points and one of GPUs, that takes all and finds by UUID.
use gpu_telemetry_pipeline.Base.{
  String, none, List, [], ◌∷◌, ◌++◌, length, ◌⊎◌, inl, inr, str_eq, if◌then◌else◌, select,
}
use gpu_telemetry_pipeline.Domain.{TelemetryPoint, Gpu, gpu_not_found}
use gpu_telemetry_pipeline.Storage.{Storage, RepositoryError, known}

pub record Tables : Type 0 where
  pub points : List TelemetryPoint
  pub gpus : List Gpu

abbrev pub empty_tables : Tables
empty_tables = record { points = []; gpus = [] }

unfoldable pub find_gpu : String → List Gpu → RepositoryError ⊎ Gpu
find_gpu uuid [] = inl (known gpu_not_found)
find_gpu uuid (g ∷ gs) = if str_eq g.uuid uuid then inr g else find_gpu uuid gs

instance abbrev pub tables : Storage Tables
tables = record {
  store_telemetry = λ t d. (none, record d { points = d.points ++ t ∷ [] });
  bulk_store_telemetry = λ ts d. (none, record d { points = d.points ++ ts });
  count_telemetry = λ d. length d.points;
  bulk_store_gpus = λ gs d. (none, record d { gpus = d.gpus ++ gs });
  count_gpus = λ d. length d.gpus;
  store_gpu = λ g d. (none, record d { gpus = d.gpus ++ g ∷ [] });
  get_by_gpu = λ uuid f d. inr (select (λ t. str_eq t.gpu_uuid uuid) d.points);
  get_by_uuid = λ uuid d. find_gpu uuid d.gpus;
  list_gpus = λ d. inr d.gpus;
}
