-- ===== src/MongoRepository.antt =====
-- internal/storage/mongodb: the repositories of GPUs and of telemetry over MongoDB. A point becomes a
-- document by the `bson` tags of internal/domain/telemetry.go; a GPU has no such tags, so its fields
-- take their lower-case names.
pub mod Query
pub mod Upsert
pub mod Tests
use gpu_telemetry_pipeline.Base.{
  ℕ, zero, suc, ◌*◌, ◌/◌, String, Bool, true, false, ◌&&◌, Option, none, some, List, [], ◌∷◌, map,
  ◌⊎◌, inl, inr, str_eq, if◌then◌else◌, Dict, lookup, insert, length,
}
use gpu_telemetry_pipeline.Domain.{TelemetryPoint, Gpu, gpu_not_found}
use gpu_telemetry_pipeline.Storage.{Storage, TimeFilter, RepositoryError, known, driver_failed}
use gpu_telemetry_pipeline.Mongo.{
  Value, text, date, operators, Document, Collection, Reply, done, failed, FindReply, found,
  no_documents, find_failed, ManyReply, all_done, duplicate_key, many_failed, Update, Mongo,
}

-- BSON keeps milliseconds.
abbrev pub to_date : ℕ → ℕ
to_date t = t / 1000000

abbrev pub of_date : ℕ → ℕ
of_date d = d * 1000000

-- `omitempty`.
abbrev pub unless_empty : String → String → Document → Document
unless_empty key s doc = if str_eq s "" then doc else (key, text s) ∷ doc

unfoldable pub encode_point : TelemetryPoint → Document
encode_point t =
    ("gpu_uuid", text t.gpu_uuid)
    ∷ ("metric_name", text t.metric_name)
    ∷ ("value", text t.value)
    ∷ ("timestamp", date (to_date t.timestamp))
    ∷ unless_empty "batch_id" t.batch_id (unless_empty "labels_raw" t.labels_raw [])

abbrev pub text_of : Option Value → String
text_of (some (text s)) = s
text_of _ = ""

abbrev pub time_of : Option Value → ℕ
time_of (some (date d)) = of_date d
time_of _ = 0

-- A field that is not there leaves the zero value.
unfoldable pub decode_point : Document → TelemetryPoint
decode_point doc = record {
  gpu_uuid = text_of (lookup "gpu_uuid" doc);
  metric_name = text_of (lookup "metric_name" doc);
  value = text_of (lookup "value" doc);
  timestamp = time_of (lookup "timestamp" doc);
  batch_id = text_of (lookup "batch_id" doc);
  labels_raw = text_of (lookup "labels_raw" doc);
}

unfoldable pub encode_gpu : Gpu → Document
encode_gpu g =
    ("uuid", text g.uuid)
    ∷ ("deviceid", text g.device_id)
    ∷ ("gpuindex", text g.gpu_index)
    ∷ ("modelname", text g.model_name)
    ∷ ("hostname", text g.hostname)
    ∷ ("container", text g.container)
    ∷ ("pod", text g.pod)
    ∷ ("namespace", text g.namespace)
    ∷ []

unfoldable pub decode_gpu : Document → Gpu
decode_gpu doc = record {
  uuid = text_of (lookup "uuid" doc);
  device_id = text_of (lookup "deviceid" doc);
  gpu_index = text_of (lookup "gpuindex" doc);
  model_name = text_of (lookup "modelname" doc);
  hostname = text_of (lookup "hostname" doc);
  container = text_of (lookup "container" doc);
  pod = text_of (lookup "pod" doc);
  namespace = text_of (lookup "namespace" doc);
}

abbrev pub add_bound : String → Option ℕ → Dict ℕ → Dict ℕ
add_bound name none os = os
add_bound name (some t) os = insert name (to_date t) os

-- `queryFilter` of `GetByGPU`.
unfoldable pub query_filter : String → TimeFilter → Document
query_filter uuid f =
    let base = insert "gpu_uuid" (text uuid) [] in
    let bounds = add_bound "$lte" f.end_time (add_bound "$gte" f.start_time []) in
    elim f.start_time [
      | some s ↦ insert "timestamp" (operators bounds) base
      | none ↦ elim f.end_time [ some e ↦ insert "timestamp" (operators bounds) base | none ↦ base ]
    ]

-- `bson.M{"uuid": uuid}`.
unfoldable pub uuid_filter : String → Document
uuid_filter uuid = insert "uuid" (text uuid) []

-- The upsert of a GPU by its UUID.
unfoldable pub gpu_update : Gpu → Update
gpu_update g = record { filter = uuid_filter g.uuid; set = encode_gpu g; upsert = true }

abbrev pub error_of : Reply (Unit {0}) → Option RepositoryError
error_of (done a) = none
error_of failed = some driver_failed

-- A duplicate key is an error too, with another text.
abbrev pub many_error_of : ManyReply → Option RepositoryError
many_error_of all_done = none
many_error_of duplicate_key = some driver_failed
many_error_of many_failed = some driver_failed

abbrev pub list_of {ℓ} :
    {A : Type ℓ} → (Document → A) → Reply (List Document) → RepositoryError ⊎ List A
list_of decode (done docs) = inr (map decode docs)
list_of decode failed = inl driver_failed

abbrev pub gpu_of : FindReply → RepositoryError ⊎ Gpu
gpu_of (found doc) = inr (decode_gpu doc)
gpu_of no_documents = inl (known gpu_not_found)
gpu_of find_failed = inl driver_failed

-- An error of a count counts nothing.
abbrev pub number_of : Reply ℕ → ℕ
number_of (done n) = n
number_of failed = 0

module _ ⦃M : Mongo⦄ where
  open M use {Database}

  unfoldable pub store_telemetry :
      Collection → TelemetryPoint → Database → Option RepositoryError × Database
  store_telemetry c t d = let out = M.insert_one c (encode_point t) d in (error_of out.0, out.1)

  unfoldable pub bulk_store_telemetry :
      Collection → List TelemetryPoint → Database → Option RepositoryError × Database
  bulk_store_telemetry c [] d = (none, d)
  bulk_store_telemetry c (t ∷ ts) d =
      let out = M.insert_many c (map encode_point (t ∷ ts)) d in (many_error_of out.0, out.1)

  unfoldable pub get_by_gpu :
      Collection → String → TimeFilter → Database → RepositoryError ⊎ List TelemetryPoint
  get_by_gpu c uuid f d =
      list_of decode_point (M.find_newest c (query_filter uuid f) "timestamp" f.limit d)

  unfoldable pub count_telemetry : Collection → Database → ℕ
  count_telemetry c d = number_of (M.count_documents c [] d)

  unfoldable pub store_gpu : Collection → Gpu → Database → Option RepositoryError × Database
  store_gpu c g d = let out = M.update_one c (gpu_update g) d in (error_of out.0, out.1)

  unfoldable pub bulk_store_gpus :
      Collection → List Gpu → Database → Option RepositoryError × Database
  bulk_store_gpus c [] d = (none, d)
  bulk_store_gpus c (g ∷ gs) d =
      let out = M.bulk_write c (map gpu_update (g ∷ gs)) d in (error_of out.0, out.1)

  unfoldable pub get_by_uuid : Collection → String → Database → RepositoryError ⊎ Gpu
  get_by_uuid c uuid d = gpu_of (M.find_one c (uuid_filter uuid) d)

  unfoldable pub list_gpus : Collection → Database → RepositoryError ⊎ List Gpu
  list_gpus c d = list_of decode_gpu (M.find c [] d)

  unfoldable pub count_gpus : Collection → Database → ℕ
  count_gpus c d = number_of (M.count_documents c [] d)

  -- The two repositories, in one database or in two collections of it, as the clients see them.
  abbrev pub mongo_storage : Collection → Collection → Storage Database
  mongo_storage points gpus = record {
    store_telemetry = store_telemetry points;
    bulk_store_telemetry = bulk_store_telemetry points;
    count_telemetry = count_telemetry points;
    store_gpu = store_gpu gpus;
    bulk_store_gpus = bulk_store_gpus gpus;
    count_gpus = count_gpus gpus;
    get_by_gpu = get_by_gpu points;
    get_by_uuid = get_by_uuid gpus;
    list_gpus = list_gpus gpus;
  }
