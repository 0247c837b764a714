-- ===== src/Discovery/Watch.antt =====
-- crates/lemnos-discovery/src/probe.rs: watchers of the inventory and the events they report.
use lemnos.Prelude.{Bool, List, Text, any, same, text_ord}
use lemnos.Core.Interface.{InterfaceKind, interface_ord}
use lemnos.Discovery.Inventory.{DiscoveryResult}

pub record InventoryWatchEvent : Type 0 where
  pub watcher : Text
  pub interfaces : List InterfaceKind
  pub paths : List Text

-- `InventoryWatchEvent::touches`.
abbrev pub touches : InterfaceKind → InventoryWatchEvent → Bool
touches interface event = any (λ i. same i interface) event.interfaces

-- The trait `InventoryWatcher`, over the state `W` of the watcher.
pub record InventoryWatcher (W : Type 0) : Type 0 where
  pub name : W → Text
  pub poll : W → W × DiscoveryResult (List InventoryWatchEvent)
