-- ===== src/Runtime/Diagnostics.antt =====
-- crates/lemnos-runtime/src/{error,diagnostics}.rs and src/runtime/failures.rs: the errors of the
-- runtime and the record that it keeps of the failures of each device.
use lemnos.Prelude.{
  Map, Option, Result, Text, add_u64, err, insert, lookup, none, ok, or_else, remove, some,
  text_ord, ℕ,
}
use lemnos.Core.Error.{CoreError}
use lemnos.Core.Ids.{DeviceId}
use lemnos.Core.Interface.{interface_ord}
use lemnos.Core.State.{TimestampMs}
use lemnos.Discovery.Inventory.{DiscoveryError}
use lemnos.Registry.Defs.{RegistryError}
use lemnos.Sdk.Error.{DriverError}

pub data RuntimeError : Type 0 where
  not_running : RuntimeError
  unknown_device : DeviceId → RuntimeError
  device_not_bound : DeviceId → RuntimeError
  invalid_request : DeviceId → CoreError → RuntimeError
  driver : DeviceId → DriverError → RuntimeError
  discovery : DiscoveryError → RuntimeError
  registry : RegistryError → RuntimeError

abbrev pub RuntimeResult : Type 0 → Type 0
RuntimeResult A = Result RuntimeError A

pub data RuntimeFailureOperation : Type 0 where
  bind rebind request refresh_state : RuntimeFailureOperation

pub data RuntimeFailureCategory : Type 0 where
  runtime unknown_device invalid_request registry driver : RuntimeFailureCategory

pub record RuntimeFailureRecord : Type 0 where
  pub device_id : DeviceId
  pub operation : RuntimeFailureOperation
  pub category : RuntimeFailureCategory
  pub driver_id : Option Text
  pub message : Text
  pub occurrence_count : ℕ
  pub first_occurred_at : Option TimestampMs
  pub last_occurred_at : Option TimestampMs

abbrev pub Failures : Type 0
Failures = Map DeviceId RuntimeFailureRecord

-- `RuntimeFailureRecord::new`.
unfoldable pub new_failure :
    DeviceId
    → RuntimeFailureOperation
    → RuntimeFailureCategory
    → Option Text
    → Text
    → Option TimestampMs
    → RuntimeFailureRecord
new_failure device_id operation category driver_id message occurred_at = record {
  device_id = device_id;
  operation = operation;
  category = category;
  driver_id = driver_id;
  message = message;
  occurrence_count = 1;
  first_occurred_at = occurred_at;
  last_occurred_at = occurred_at;
}

-- `RuntimeFailureRecord::record_repeat`.
unfoldable pub record_repeat :
    RuntimeFailureRecord
    → RuntimeFailureOperation
    → RuntimeFailureCategory
    → Option Text
    → Text
    → Option TimestampMs
    → RuntimeFailureRecord
record_repeat failure operation category driver_id message occurred_at = record failure {
  operation = operation;
  category = category;
  driver_id = driver_id;
  message = message;
  occurrence_count = add_u64 failure.occurrence_count 1;
  first_occurred_at = or_else failure.first_occurred_at occurred_at;
  last_occurred_at = occurred_at;
}

unfoldable pub classify_failure : RuntimeError → RuntimeFailureCategory
classify_failure RuntimeError.not_running = RuntimeFailureCategory.runtime
classify_failure (RuntimeError.device_not_bound _) = RuntimeFailureCategory.runtime
classify_failure (RuntimeError.unknown_device _) = RuntimeFailureCategory.unknown_device
classify_failure (RuntimeError.invalid_request _ _) = RuntimeFailureCategory.invalid_request
classify_failure (RuntimeError.discovery _) = RuntimeFailureCategory.registry
classify_failure (RuntimeError.registry _) = RuntimeFailureCategory.registry
classify_failure (RuntimeError.driver _ _) = RuntimeFailureCategory.driver

unfoldable pub driver_id_from_driver_error : DriverError → Text
driver_id_from_driver_error (DriverError.missing_backend id _) = id
driver_id_from_driver_error (DriverError.bind_rejected id _ _) = id
driver_id_from_driver_error (DriverError.bind_failed id _ _) = id
driver_id_from_driver_error (DriverError.invalid_request id _ _) = id
driver_id_from_driver_error (DriverError.transport id _ _) = id
driver_id_from_driver_error (DriverError.host_io id _ _ _) = id
driver_id_from_driver_error (DriverError.invariant_violation id _ _) = id
driver_id_from_driver_error (DriverError.unsupported_action id _ _) = id
driver_id_from_driver_error (DriverError.not_implemented id _) = id

unfoldable pub driver_id_from_error : RuntimeError → Option Text
unfolding driver_id_from_driver_error
driver_id_from_error (RuntimeError.driver _ source) = some (driver_id_from_driver_error source)
driver_id_from_error _ = none

-- What the records take from outside: how errors are printed, which a derive macro writes, and the
-- time at which the operation on a device ends.
pub record FailureEnv : Type 0 where
  pub to_string : RuntimeError → Text
  pub current_timestamp_ms : DeviceId → Option TimestampMs

module _ (env : FailureEnv) where
  unfoldable pub next_failure :
      Option RuntimeFailureRecord
      → DeviceId
      → RuntimeFailureOperation
      → RuntimeError
      → RuntimeFailureRecord
  unfolding new_failure record_repeat classify_failure driver_id_from_error
  next_failure none device_id operation e =
      new_failure device_id operation (classify_failure e) (driver_id_from_error e)
        (env.to_string e) (env.current_timestamp_ms device_id)
  next_failure (some failure) device_id operation e =
      record_repeat failure operation (classify_failure e) (driver_id_from_error e)
        (env.to_string e) (env.current_timestamp_ms device_id)

  -- `complete_operation`, on the map that it changes.
  unfoldable pub complete_operation {ℓ} :
      {A : Type ℓ}
      → DeviceId
      → RuntimeFailureOperation
      → Result RuntimeError A
      → Failures
      → Failures
  unfolding next_failure
  complete_operation device_id operation (ok _) failures = remove device_id failures
  complete_operation device_id operation (err e) failures =
      insert device_id (next_failure (lookup device_id failures) device_id operation e) failures
