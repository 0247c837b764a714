-- ===== src/Core/Event.antt =====
-- crates/lemnos-core/src/event.rs. The boxes and the shared pointer hold the value itself.
use lemnos.Prelude.{List, Option, text_ord}
use lemnos.Core.Descriptor.{DeviceDescriptor}
use lemnos.Core.Ids.{DeviceId}
use lemnos.Core.Interface.{interface_ord}
use lemnos.Core.State.{
  DeviceHealth, DeviceIssue, DeviceLifecycleState, DeviceStateSnapshot, TimestampMs,
}

pub data InventoryEvent : Type 0 where
  added : DeviceDescriptor → InventoryEvent
  changed : DeviceDescriptor → DeviceDescriptor → InventoryEvent
  removed : DeviceId → InventoryEvent

pub data StateEvent : Type 0 where
  snapshot : DeviceStateSnapshot → StateEvent
  health_changed : DeviceId → DeviceHealth → DeviceHealth → Option TimestampMs → StateEvent
  lifecycle_changed :
      DeviceId → DeviceLifecycleState → DeviceLifecycleState → Option TimestampMs → StateEvent
  issues_changed : DeviceId → List DeviceIssue → Option TimestampMs → StateEvent

pub data LemnosEvent : Type 0 where
  inventory : InventoryEvent → LemnosEvent
  state : StateEvent → LemnosEvent
