-- ===== src/Sdk/Bind.antt =====
-- crates/lemnos-driver-sdk/src/context.rs and device/{model,macros}.rs: binding a generic driver.
use lemnos.Prelude.{
  List, Option, Text, any, codes, ensure, err, map_err, none, ok, some, text_ord, ◌++◌, ◌>>=◌, ◌>>◌,
}
use lemnos.Bus.Error.{BusResult}
use lemnos.Bus.Session.{SessionAccess}
use lemnos.Core.Descriptor.{DeviceDescriptor}
use lemnos.Core.Interface.{InterfaceKind, interface_ord}
use lemnos.Core.Kinds.{DeviceKind, display_kind, same_kind}
use lemnos.Sdk.Error.{DriverError, DriverResult}
use lemnos.Sdk.Session.{SessionDevice, transport_error}

-- One backend of `DriverBindContext`: the method that opens its sessions.
abbrev pub Backend : Type 0 → Type 0
Backend S = DeviceDescriptor → SessionAccess → BusResult S

-- `DriverBindContext::open_gpio` and its like.
unfoldable pub open_session :
    {S : Type 0}
    → Option (Backend S)
    → Text
    → InterfaceKind
    → DeviceDescriptor
    → SessionAccess
    → DriverResult S
open_session none driver_id interface device access =
    err (DriverError.missing_backend driver_id interface)
open_session (some backend) driver_id interface device access =
    map_err (transport_error driver_id device.id) (backend device access)

-- `bind_rejected_expected`.
abbrev pub bind_rejected_expected : Text → DeviceDescriptor → Text → DriverError
bind_rejected_expected driver_id device expected =
    DriverError.bind_rejected driver_id device.id
      (codes "expected " ++ (expected ++ (codes ", found " ++ display_kind device.kind)))

-- `ensure_device_kind` and `ensure_device_kinds`.
unfoldable pub ensure_device_kinds :
    Text → DeviceDescriptor → List DeviceKind → Text → DriverResult (Unit {0})
unfolding same_kind display_kind
ensure_device_kinds driver_id device kinds expected =
    ensure (any (λ k. same_kind k device.kind) kinds)
      (bind_rejected_expected driver_id device expected)

-- What `define_session_driver` fixes for one generic driver.
pub record SessionDriver (T : Type 0) : Type 0 where
  pub id : Text
  pub interface : InterfaceKind
  pub kinds : List DeviceKind
  pub expected : Text
  pub access : SessionAccess
  pub stats : T

-- `bind_session_for_kind`, `bind_session_for_kinds` and `bind_with_session`.
unfoldable pub bind_session :
    {S T : Type 0}
    → SessionDriver T
    → DeviceDescriptor
    → Option (Backend S)
    → DriverResult (SessionDevice S T)
unfolding open_session ensure_device_kinds
bind_session driver device backend = do
  ensure_device_kinds driver.id device driver.kinds driver.expected
  session ← open_session backend driver.id driver.interface device driver.access
  ok (record { driver_id = driver.id; session = session; stats = driver.stats })
