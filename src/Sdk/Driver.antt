-- ===== src/Sdk/Driver.antt =====
-- The traits `Driver` and `BoundDevice` of crates/lemnos-driver-sdk/src/device/model.rs as records
-- of their methods: the runtime calls drivers through trait objects and knows no more of them.
use lemnos.Prelude.{Option, Text, text_ord}
use lemnos.Core.Descriptor.{DeviceDescriptor}
use lemnos.Core.Interface.{InterfaceKind, interface_ord}
use lemnos.Core.Request.Kinds.{InteractionRequest}
use lemnos.Core.Request.Responses.{InteractionResponse}
use lemnos.Core.State.{DeviceStateSnapshot}
use lemnos.Manifest.Driver.{DriverManifest, match_device}
use lemnos.Sdk.Error.{DriverResult}
use lemnos.Sdk.Matching.{DriverMatch, from_manifest_match}

-- A driver, where `C` is what `bind` reads of the backends and `B` the devices that it binds.
pub record Driver (C B : Type 0) : Type 0 where
  pub id : Text
  pub interface : InterfaceKind
  pub manifest : DriverManifest
  pub matches : DeviceDescriptor → DriverMatch
  pub bind : DeviceDescriptor → C → DriverResult B

-- The default method `Driver::matches`.
unfoldable pub default_matches : DriverManifest → DeviceDescriptor → DriverMatch
default_matches m d = from_manifest_match (match_device m d)

-- The methods of a bound device. Those that take `&mut self` return the device that they leave.
pub record BoundDevice (B : Type 0) : Type 0 where
  pub driver_id : B → Text
  pub close : B → B × DriverResult (Unit {0})
  pub state : B → B × DriverResult (Option DeviceStateSnapshot)
  pub execute : B → InteractionRequest → B × DriverResult InteractionResponse
