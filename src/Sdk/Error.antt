-- ===== src/Sdk/Error.antt =====
-- crates/lemnos-driver-sdk/src/error.rs. The standard
-- library's `io::Error` inside `HostIo` is the text that it prints.
use lemnos.Prelude.{Result, Text, text_ord}
use lemnos.Bus.Error.{BusError}
use lemnos.Core.Error.{CoreError}
use lemnos.Core.Ids.{DeviceId}
use lemnos.Core.Interface.{InterfaceKind, interface_ord}

-- The first field of each variant is the driver's identifier.
pub data DriverError : Type 0 where
  missing_backend : Text → InterfaceKind → DriverError
  bind_rejected : Text → DeviceId → Text → DriverError
  bind_failed : Text → DeviceId → Text → DriverError
  invalid_request : Text → DeviceId → CoreError → DriverError
  transport : Text → DeviceId → BusError → DriverError
  host_io : Text → DeviceId → Text → Text → DriverError
  invariant_violation : Text → DeviceId → Text → DriverError
  unsupported_action : Text → DeviceId → Text → DriverError
  not_implemented : Text → Text → DriverError

abbrev pub DriverResult : Type 0 → Type 0
DriverResult A = Result DriverError A
