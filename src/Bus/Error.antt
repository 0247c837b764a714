-- ===== src/Bus/Error.antt =====
-- crates/lemnos-bus/src/error.rs.
use lemnos.Prelude.{Result, Text, text_ord}
use lemnos.Core.Ids.{DeviceId}
use lemnos.Core.Interface.{InterfaceKind, interface_ord}

pub data BusError : Type 0 where
  unsupported_interface : Text → InterfaceKind → BusError
  unsupported_device : Text → DeviceId → BusError
  access_conflict : DeviceId → Text → BusError
  session_unavailable : DeviceId → Text → BusError
  transport_failure : DeviceId → Text → Text → BusError
  timeout : DeviceId → Text → BusError
  disconnected : DeviceId → BusError
  invalid_request : DeviceId → Text → Text → BusError
  invalid_configuration : DeviceId → Text → BusError
  permission_denied : DeviceId → Text → Text → BusError

abbrev pub BusResult : Type 0 → Type 0
BusResult A = Result BusError A
