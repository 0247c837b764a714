-- ===== src/Runtime/Bytes.antt =====
-- crates/lemnos-runtime/src/runtime/retention.rs: the estimated size of a retained event. The sizes
-- that `size_of` gives are the compiler's: they are a parameter.
-- `size_of` of each type that the estimates name.
use lemnos.Prelude.{
  List, Map, Option, Text, [], if◌then◌else◌, length, ltb, none, some, sum_by, text_ord, ℕ, ◌*◌,
  ◌+◌, ◌∷◌,
}
use lemnos.Core.Descriptor.{DeviceDescriptor}
use lemnos.Core.Event.{InventoryEvent, LemnosEvent, StateEvent}
use lemnos.Core.Interface.{InterfaceKind, interface_ord}
use lemnos.Core.Kinds.{DeviceAddress}
use lemnos.Core.Metadata.{CapabilityDescriptor, DeviceLink, DeviceRelation, MatchHints}
use lemnos.Core.State.{DeviceIssue, DeviceStateSnapshot, OperationRecord}
use lemnos.Core.Value.{Value, ValueMap, Values}

pub record Sizes : Type 0 where
  pub device_event : ℕ
  pub state_event : ℕ
  pub device_descriptor : ℕ
  pub capability : ℕ
  pub link : ℕ
  pub string : ℕ
  pub issue : ℕ
  pub value : ℕ

-- The bytes that UTF-8 needs for a scalar value, and for a text: `str::len`.
abbrev utf8_len : ℕ → ℕ
utf8_len c = if ltb c 128 then 1 else if ltb c 2048 then 2 else if ltb c 65536 then 3 else 4

unfoldable pub text_len : Text → ℕ
text_len [] = 0
text_len (c ∷ s) = utf8_len c + text_len s

unfoldable pub option_bytes {ℓ} : {A : Type ℓ} → (A → ℕ) → Option A → ℕ
option_bytes f none = 0
option_bytes f (some a) = f a

-- `vec_bytes`, with the size of an item.
unfoldable pub vec_bytes {ℓ} : {A : Type ℓ} → ℕ → (A → ℕ) → List A → ℕ
vec_bytes size f xs = length xs * size + sum_by f xs

-- `string_map_bytes`.
abbrev pub string_map_bytes : Map Text Text → ℕ
string_map_bytes m = sum_by (λ e. text_len e.0 + text_len e.1) m

unfoldable pub address_bytes : DeviceAddress → ℕ
unfolding text_len option_bytes
address_bytes (DeviceAddress.gpio_chip chip _) = text_len chip
address_bytes (DeviceAddress.gpio_line chip _) = text_len chip
address_bytes (DeviceAddress.pwm_chip chip) = text_len chip
address_bytes (DeviceAddress.pwm_channel chip _) = text_len chip
address_bytes (DeviceAddress.i2c_bus _) = 0
address_bytes (DeviceAddress.i2c_device _ _) = 0
address_bytes (DeviceAddress.spi_bus _) = 0
address_bytes (DeviceAddress.spi_device _ _) = 0
address_bytes (DeviceAddress.uart_port port) = text_len port
address_bytes (DeviceAddress.uart_device port unit_name) =
    text_len port + option_bytes text_len unit_name
address_bytes (DeviceAddress.usb_bus _) = 0
address_bytes (DeviceAddress.usb_device _ ports _ _) = length ports
address_bytes (DeviceAddress.usb_interface _ ports _ _ _) = length ports
address_bytes (DeviceAddress.custom interface scheme value) =
    interface_bytes interface + text_len scheme + text_len value
  where
    interface_bytes : InterfaceKind → ℕ
    interface_bytes InterfaceKind.gpio = 4
    interface_bytes InterfaceKind.pwm = 3
    interface_bytes InterfaceKind.i2c = 3
    interface_bytes InterfaceKind.spi = 3
    interface_bytes InterfaceKind.uart = 4
    interface_bytes InterfaceKind.usb = 3

unfoldable pub relation_bytes : DeviceRelation → ℕ
unfolding text_len
relation_bytes DeviceRelation.parent = 6
relation_bytes DeviceRelation.controller = 10
relation_bytes DeviceRelation.bus = 3
relation_bytes DeviceRelation.transport = 9
relation_bytes DeviceRelation.interface = 9
relation_bytes DeviceRelation.channel = 7
relation_bytes DeviceRelation.dependency = 10
relation_bytes DeviceRelation.peer = 4
relation_bytes DeviceRelation.consumer = 8
relation_bytes DeviceRelation.provider = 8
relation_bytes (DeviceRelation.custom value) = text_len value

module _ (sizes : Sizes) where
  unfoldable mutual
    unfolding text_len

    -- `value_bytes`, with the items of a list counted as `vec_bytes` counts them.
    pub value_bytes : Value → ℕ
    value_bytes Value.null = 0
    value_bytes (Value.bool _) = 0
    value_bytes (Value.i64 _) = 0
    value_bytes (Value.u64 _) = 0
    value_bytes (Value.f64 _) = 0
    value_bytes (Value.string s) = text_len s
    value_bytes (Value.bytes bs) = length bs
    value_bytes (Value.list vs) = values_bytes vs
    value_bytes (Value.map_of m) = value_map_bytes m

    values_bytes : Values → ℕ
    values_bytes Values.nil = 0
    values_bytes (Values.cons v vs) = sizes.value + value_bytes v + values_bytes vs

    pub value_map_bytes : ValueMap → ℕ
    value_map_bytes ValueMap.empty = 0
    value_map_bytes (ValueMap.entry k v m) = text_len k + value_bytes v + value_map_bytes m

  unfoldable pub capability_bytes : CapabilityDescriptor → ℕ
  unfolding option_bytes
  capability_bytes c =
      text_len c.id + option_bytes text_len c.summary + value_map_bytes c.properties

  unfoldable pub link_bytes : DeviceLink → ℕ
  unfolding relation_bytes
  link_bytes l = text_len l.target + relation_bytes l.relation + value_map_bytes l.attributes

  unfoldable pub match_hints_bytes : MatchHints → ℕ
  unfolding option_bytes vec_bytes
  match_hints_bytes h =
      option_bytes text_len h.driver_hint
      + option_bytes text_len h.modalias
      + vec_bytes sizes.string text_len h.compatible
      + option_bytes text_len h.vendor
      + option_bytes text_len h.model
      + option_bytes text_len h.revision
      + option_bytes text_len h.serial_number
      + string_map_bytes h.hardware_ids

  unfoldable pub descriptor_bytes : DeviceDescriptor → ℕ
  unfolding option_bytes vec_bytes address_bytes match_hints_bytes
  descriptor_bytes d =
      text_len d.id
      + option_bytes text_len d.local_id
      + option_bytes text_len d.display_name
      + option_bytes text_len d.summary
      + option_bytes address_bytes d.address
      + string_map_bytes d.labels
      + value_map_bytes d.properties
      + vec_bytes sizes.capability capability_bytes d.capabilities
      + vec_bytes sizes.link link_bytes d.links
      + match_hints_bytes d.match_hints

  unfoldable pub issue_bytes : DeviceIssue → ℕ
  issue_bytes i = text_len i.code + text_len i.message + value_map_bytes i.attributes

  unfoldable pub operation_record_bytes : OperationRecord → ℕ
  unfolding option_bytes
  operation_record_bytes r =
      text_len r.interaction + option_bytes text_len r.summary + option_bytes value_bytes r.output

  unfoldable pub state_snapshot_bytes : DeviceStateSnapshot → ℕ
  unfolding option_bytes vec_bytes operation_record_bytes
  state_snapshot_bytes s =
      text_len s.device_id
      + vec_bytes sizes.issue issue_bytes s.issues
      + value_map_bytes s.realized_config
      + value_map_bytes s.telemetry
      + option_bytes operation_record_bytes s.last_operation

  unfoldable pub inventory_event_bytes : InventoryEvent → ℕ
  unfolding descriptor_bytes
  inventory_event_bytes (InventoryEvent.added d) = sizes.device_descriptor + descriptor_bytes d
  inventory_event_bytes (InventoryEvent.changed previous current) =
      sizes.device_descriptor
      + descriptor_bytes previous
      + sizes.device_descriptor
      + descriptor_bytes current
  inventory_event_bytes (InventoryEvent.removed device_id) = text_len device_id

  unfoldable pub state_event_bytes : StateEvent → ℕ
  unfolding state_snapshot_bytes vec_bytes
  state_event_bytes (StateEvent.snapshot s) = state_snapshot_bytes s
  state_event_bytes (StateEvent.health_changed device_id _ _ _) = text_len device_id
  state_event_bytes (StateEvent.lifecycle_changed device_id _ _ _) = text_len device_id
  state_event_bytes (StateEvent.issues_changed device_id issues _) =
      text_len device_id + vec_bytes sizes.issue issue_bytes issues

  unfoldable pub estimated_retained_event_bytes : LemnosEvent → ℕ
  unfolding inventory_event_bytes state_event_bytes
  estimated_retained_event_bytes (LemnosEvent.inventory e) =
      sizes.device_event + inventory_event_bytes e
  estimated_retained_event_bytes (LemnosEvent.state e) = sizes.state_event + state_event_bytes e
