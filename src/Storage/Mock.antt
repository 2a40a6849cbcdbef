-- ===== src/Storage/Mock.antt =====
-- internal/api/handlers/handler_test_helpers.go: the repositories of the handlers' tests, with a function
-- for each operation or none. They keep no state but that of their functions.
use gpu_telemetry_pipeline.Base.{ℕ, String, Option, none, some, List, [], ◌⊎◌, inl, inr, ◌≡◌, refl}
use gpu_telemetry_pipeline.Domain.{TelemetryPoint, Gpu, gpu_not_found}
use gpu_telemetry_pipeline.Storage.{Storage, TimeFilter, RepositoryError, known}
use gpu_telemetry_pipeline.Api.{
  failed, get_gpu, list_gpus, okay, to_gpu_list_response, not_found_response,
}

pub record MockGpuRepository (D : Type 0) : Type 0 where
  pub list_func : Option (D → RepositoryError ⊎ List Gpu)
  pub get_by_uuid_func : Option (String → D → RepositoryError ⊎ Gpu)
  pub store_func : Option (Gpu → D → Option RepositoryError × D)
  pub bulk_store_func : Option (List Gpu → D → Option RepositoryError × D)
  pub count_func : Option (D → ℕ)

pub record MockTelemetryRepository (D : Type 0) : Type 0 where
  pub get_by_gpu_func : Option (String → TimeFilter → D → RepositoryError ⊎ List TelemetryPoint)
  pub store_func : Option (TelemetryPoint → D → Option RepositoryError × D)
  pub bulk_store_func : Option (List TelemetryPoint → D → Option RepositoryError × D)
  pub count_func : Option (D → ℕ)

-- `if m.F != nil { return m.F(…) }`.
abbrev pub or_else {ℓ} : {A : Type ℓ} → Option A → A → A
or_else none default = default
or_else (some f) default = f

module _ {D : Type 0} where
  abbrev pub does_nothing : {A : Type 0} → A → D → Option RepositoryError × D
  does_nothing a d = (none, d)

  module _ (g : MockGpuRepository D) where
    unfoldable pub mock_list : D → RepositoryError ⊎ List Gpu
    mock_list = or_else g.list_func (λ d. inr [])

    unfoldable pub mock_get_by_uuid : String → D → RepositoryError ⊎ Gpu
    mock_get_by_uuid = or_else g.get_by_uuid_func (λ uuid d. inl (known gpu_not_found))

    unfoldable pub mock_store_gpu : Gpu → D → Option RepositoryError × D
    mock_store_gpu = or_else g.store_func does_nothing

    unfoldable pub mock_bulk_store_gpus : List Gpu → D → Option RepositoryError × D
    mock_bulk_store_gpus = or_else g.bulk_store_func does_nothing

    unfoldable pub mock_count_gpus : D → ℕ
    mock_count_gpus = or_else g.count_func (λ d. 0)

  module _ (t : MockTelemetryRepository D) where
    unfoldable pub mock_get_by_gpu : String → TimeFilter → D → RepositoryError ⊎ List TelemetryPoint
    mock_get_by_gpu = or_else t.get_by_gpu_func (λ uuid f d. inr [])

    unfoldable pub mock_store_telemetry : TelemetryPoint → D → Option RepositoryError × D
    mock_store_telemetry = or_else t.store_func does_nothing

    unfoldable pub mock_bulk_store_telemetry : List TelemetryPoint → D → Option RepositoryError × D
    mock_bulk_store_telemetry = or_else t.bulk_store_func does_nothing

    unfoldable pub mock_count_telemetry : D → ℕ
    mock_count_telemetry = or_else t.count_func (λ d. 0)

  abbrev pub mock_storage : MockTelemetryRepository D → MockGpuRepository D → Storage D
  mock_storage t g = record {
    store_telemetry = mock_store_telemetry t;
    bulk_store_telemetry = mock_bulk_store_telemetry t;
    count_telemetry = mock_count_telemetry t;
    store_gpu = mock_store_gpu g;
    bulk_store_gpus = mock_bulk_store_gpus g;
    count_gpus = mock_count_gpus g;
    get_by_gpu = mock_get_by_gpu t;
    get_by_uuid = mock_get_by_uuid g;
    list_gpus = mock_list g;
  }

abbrev no_functions : MockGpuRepository (Unit {0})
no_functions = record {
  list_func = none;
  get_by_uuid_func = none;
  store_func = none;
  bulk_store_func = none;
  count_func = none;
}

abbrev no_telemetry_functions : MockTelemetryRepository (Unit {0})
no_telemetry_functions = record {
  get_by_gpu_func = none;
  store_func = none;
  bulk_store_func = none;
  count_func = none;
}

-- Without functions no GPU is found, and none is listed.
without_functions :
    let R = mock_storage no_telemetry_functions no_functions in
    (get_gpu ⦃R = R⦄ "GPU-1" tt ≡ failed 404 (not_found_response "GPU-1"))
    × (list_gpus ⦃R = R⦄ tt ≡ okay (record { gpus = []; total = 0 }))
unfolding get_gpu list_gpus mock_get_by_uuid mock_list to_gpu_list_response
without_functions = (refl, refl)
