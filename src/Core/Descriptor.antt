-- ===== src/Core/Descriptor.antt =====
-- crates/lemnos-core/src/descriptor/model.rs: the descriptor of a device and its check.
use lemnos.Prelude.{
  Bool, List, Map, Option, Text, [], codes, decide, decide_iff, ensure, none, ok, same, some,
  text_ord, true, ℕ_discrete, ◌>>=◌, ◌>>◌, ◌≡◌,
}
use lemnos.Core.Error.{CoreError, CoreResult}
use lemnos.Core.Ids.{DeviceId, validate_identifier}
use lemnos.Core.Interface.{InterfaceKind, interface_ord}
use lemnos.Core.Kinds.{
  DeviceAddress, DeviceAddress-discrete, DeviceKind, DeviceKind-discrete, address_interface,
  kind_interface,
}
use lemnos.Core.Metadata.{CapabilityDescriptor, DeviceControlSurface, DeviceLink, MatchHints}
use lemnos.Core.State.{DeviceHealth}
use lemnos.Core.Value.{ValueMap, ValueMap-discrete}

pub record DeviceDescriptor : Type 0 where
  pub id : DeviceId
  pub local_id : Option Text
  pub interface : InterfaceKind
  pub kind : DeviceKind
  pub display_name : Option Text
  pub summary : Option Text
  pub address : Option DeviceAddress
  pub labels : Map Text Text
  pub properties : ValueMap
  pub control_surface : Option DeviceControlSurface
  pub capabilities : List CapabilityDescriptor
  pub links : List DeviceLink
  pub health : DeviceHealth
  pub match_hints : MatchHints

abbrev pub default_hints : MatchHints
default_hints = record {
  driver_hint = none;
  modalias = none;
  compatible = [];
  vendor = none;
  model = none;
  revision = none;
  serial_number = none;
  hardware_ids = [];
}

-- The descriptor that `DeviceDescriptor::new` fills in behind the checked identifier.
abbrev pub bare_descriptor : DeviceId → InterfaceKind → DeviceDescriptor
bare_descriptor id interface = record {
  id = id;
  local_id = none;
  interface = interface;
  kind = DeviceKind.unspecified interface;
  display_name = none;
  summary = none;
  address = none;
  labels = [];
  properties = ValueMap.empty;
  control_surface = none;
  capabilities = [];
  links = [];
  health = DeviceHealth.healthy;
  match_hints = default_hints;
}

-- `DeviceDescriptor::new`.
unfoldable pub new_descriptor : Text → InterfaceKind → CoreResult DeviceDescriptor
new_descriptor id interface = do
  validate_identifier (codes "device id") id
  ok (bare_descriptor id interface)

-- `DeviceDescriptor::for_kind`.
unfoldable pub for_kind : Text → DeviceKind → CoreResult DeviceDescriptor
unfolding new_descriptor
for_kind id kind = do
  descriptor ← new_descriptor id (kind_interface kind)
  ok (record descriptor { kind = kind })

-- The second check of `validate`: an address, if there is one, belongs to the interface.
unfoldable pub validate_address : Option DeviceAddress → InterfaceKind → CoreResult (Unit {0})
validate_address none interface = ok tt
validate_address (some address) interface =
    ensure (same (address_interface address) interface)
      (CoreError.address_interface_mismatch address interface)

-- `DeviceDescriptor::validate`.
unfoldable pub validate_descriptor : DeviceDescriptor → CoreResult (Unit {0})
unfolding validate_address
validate_descriptor d = do
  ensure (same (kind_interface d.kind) d.interface)
      (CoreError.kind_interface_mismatch d.kind d.interface)
  validate_address d.address d.interface

unfoldable pub ControlSurface-discrete : Discrete DeviceControlSurface
unfolding ℕ_discrete
ControlSurface-discrete = hlevel ℕ_discrete

unfoldable pub Descriptor-discrete : Discrete DeviceDescriptor
unfolding ℕ_discrete DeviceAddress-discrete DeviceKind-discrete ValueMap-discrete
    ControlSurface-discrete
Descriptor-discrete =
    hlevel (ℕ_discrete, DeviceAddress-discrete, DeviceKind-discrete, ValueMap-discrete)

-- `==` on descriptors, as derived.
unfoldable pub same_descriptor : DeviceDescriptor → DeviceDescriptor → Bool
unfolding Descriptor-discrete decide
same_descriptor a b = decide (Descriptor-discrete a b)

pub same_descriptor-eq : (a b : DeviceDescriptor) → same_descriptor a b ≡ true → a ≡ b
unfolding same_descriptor
same_descriptor-eq a b h = (decide_iff (Descriptor-discrete a b)).0 h

-- `!=` on two fields of descriptors reads these.
unfoldable pub Address-discrete : Discrete (Option DeviceAddress)
unfolding ℕ_discrete DeviceAddress-discrete
Address-discrete = hlevel (ℕ_discrete, DeviceAddress-discrete)

unfoldable pub same_address : Option DeviceAddress → Option DeviceAddress → Bool
unfolding Address-discrete decide
same_address a b = decide (Address-discrete a b)

unfoldable pub Surface-discrete : Discrete (Option DeviceControlSurface)
unfolding ℕ_discrete ControlSurface-discrete
Surface-discrete = hlevel (ℕ_discrete, ControlSurface-discrete)

unfoldable pub same_surface : Option DeviceControlSurface → Option DeviceControlSurface → Bool
unfolding Surface-discrete decide
same_surface a b = decide (Surface-discrete a b)
