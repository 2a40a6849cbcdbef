-- ===== src/MongoRepository/Tests.antt =====
-- The repositories over the database in memory, with two points and a GPU in it.
use gpu_telemetry_pipeline.Base.{
  none, some, List, [], ◌∷◌, map, inr, ◌≡◌, refl, str_eq, if◌then◌else◌, lookup, insert, arith,
}
use gpu_telemetry_pipeline.Domain.{TelemetryPoint, Gpu}
use gpu_telemetry_pipeline.Storage.{TimeFilter}
use gpu_telemetry_pipeline.Mongo.{Collection, meets, value_holds, operators_hold, operator_holds}
use gpu_telemetry_pipeline.Mongo.Memory.{Tables, mongo, mongo-MongoLaws, rank, put_newest}
use gpu_telemetry_pipeline.MongoRepository.{
  encode_point, decode_point, query_filter, get_by_gpu, get_by_uuid, store_gpu, encode_gpu,
}
use gpu_telemetry_pipeline.MongoRepository.Query.{Reads, get_by_gpu-Reads}
use gpu_telemetry_pipeline.MongoRepository.Upsert.{
  IsKeyed, Puts, store_gpu-Puts, Gives, get_by_uuid-Gives,
}

abbrev points : Collection
points = record { database = "telemetry"; collection = "metrics" }

abbrev gpus : Collection
gpus = record { database = "telemetry"; collection = "gpus" }

abbrev early : TelemetryPoint
early = record {
  gpu_uuid = "GPU-1";
  metric_name = "UTIL";
  value = "85";
  timestamp = 5000001;
  batch_id = "b";
  labels_raw = "";
}

abbrev late : TelemetryPoint
late = record early { value = "90"; timestamp = 7000000 }

abbrev gpu : Gpu
gpu = record {
  uuid = "GPU-1";
  device_id = "nvidia0";
  gpu_index = "0";
  model_name = "H100";
  hostname = "host";
  container = "";
  pod = "";
  namespace = "";
}

abbrev moved : Gpu
moved = record gpu { hostname = "other" }

abbrev tables : Tables
tables c =
    if str_eq c.collection "metrics"
    then map encode_point (early ∷ late ∷ [])
    else map encode_gpu (gpu ∷ [])

abbrev newest : TimeFilter
newest = record { start_time = some 5000000; end_time = some 9000000; limit = some 1 }

read_newest : get_by_gpu points "GPU-1" newest tables ≡ inr (late ∷ [])
unfolding get_by_gpu rank put_newest meets query_filter encode_point decode_point value_holds
    operators_hold operator_holds lookup insert
read_newest = refl

get_by_gpu-Reads_example : Reads "GPU-1" newest (early ∷ late ∷ []) (late ∷ [])
get_by_gpu-Reads_example =
    get_by_gpu-Reads mongo-MongoLaws points "GPU-1" newest tables (early ∷ late ∷ []) (late ∷ [])
      refl read_newest

one-IsKeyed : IsKeyed (gpu ∷ [])
one-IsKeyed uuid = ground arith

stored_without_error : (store_gpu gpus moved tables).0 ≡ none
unfolding store_gpu
stored_without_error = refl

store_gpu-Puts_example :
    (gs : List Gpu) × (mongo-MongoLaws.docs_of (store_gpu gpus moved tables).1 gpus
      ≡ map encode_gpu gs)
    × Puts moved (gpu ∷ []) gs
store_gpu-Puts_example =
    store_gpu-Puts mongo-MongoLaws gpus moved (gpu ∷ []) tables one-IsKeyed refl
      stored_without_error

get_by_uuid-Gives_example : Gives "GPU-1" (gpu ∷ []) (get_by_uuid gpus "GPU-1" tables)
get_by_uuid-Gives_example =
    get_by_uuid-Gives mongo-MongoLaws gpus "GPU-1" (gpu ∷ []) tables one-IsKeyed refl
