-- ===== src/Discovery/Inventory.antt =====
-- crates/lemnos-discovery/src/{inventory,error}.rs: snapshots and what changed between two.
use lemnos.Prelude.{
  Bool, List, Map, Option, Result, Text, [], codes, ensure, filter, find, if◌then◌else◌, insert,
  is_some, length, lookup, map, map_err, none, not, ok, same, some, text_ord, ℕ, ◌++◌, ◌>>◌, ◌∷◌,
}
use lemnos.Core.Descriptor.{DeviceDescriptor, same_descriptor, validate_descriptor}
use lemnos.Core.Error.{CoreError}
use lemnos.Core.Event.{InventoryEvent}
use lemnos.Core.Ids.{DeviceId}
use lemnos.Core.Interface.{InterfaceKind, interface_ord}
use lemnos.Core.State.{TimestampMs}

pub data DiscoveryError : Type 0 where
  probe_failed : Text → Text → DiscoveryError
  watch_failed : Text → Text → DiscoveryError
  invalid_descriptor : Text → DeviceId → CoreError → DiscoveryError
  duplicate_device_id : DeviceId → DiscoveryError

abbrev pub DiscoveryResult : Type 0 → Type 0
DiscoveryResult A = Result DiscoveryError A

pub record InventorySnapshot : Type 0 where
  pub observed_at : Option TimestampMs
  pub devices : List DeviceDescriptor

abbrev pub empty_snapshot : InventorySnapshot
empty_snapshot = record { observed_at = none; devices = [] }

-- The loop of `validate_devices`, with the identifiers that it has seen.
unfoldable pub check_devices :
    Map DeviceId (Unit {0}) → List DeviceDescriptor → DiscoveryResult (Unit {0})
check_devices seen [] = ok tt
check_devices seen (d ∷ ds) = do
  map_err (DiscoveryError.invalid_descriptor (codes "snapshot") d.id) (validate_descriptor d)
  ensure (not (is_some (lookup d.id seen))) (DiscoveryError.duplicate_device_id d.id)
  check_devices (insert d.id tt seen) ds

-- `InventorySnapshot::with_observed_at`.
unfoldable pub with_observed_at :
    List DeviceDescriptor → Option TimestampMs → DiscoveryResult InventorySnapshot
unfolding check_devices
with_observed_at devices observed_at = do
  check_devices [] devices
  ok (record { observed_at = observed_at; devices = devices })

-- `InventorySnapshot::get`.
unfoldable pub get : InventorySnapshot → DeviceId → Option DeviceDescriptor
get s device_id = find (λ d. same d.id device_id) s.devices

-- `InventorySnapshot::contains`.
unfoldable pub contains : InventorySnapshot → DeviceId → Bool
unfolding get
contains s device_id = is_some (get s device_id)

-- `InventorySnapshot::by_interface`, and `count_for`.
abbrev pub by_interface : InventorySnapshot → InterfaceKind → List DeviceDescriptor
by_interface s interface = filter (λ d. same d.interface interface) s.devices

abbrev pub count_for : InventorySnapshot → InterfaceKind → ℕ
count_for s interface = length (by_interface s interface)

pub record ChangedDevice : Type 0 where
  pub previous : DeviceDescriptor
  pub current : DeviceDescriptor

pub record InventoryDiff : Type 0 where
  pub added : List DeviceDescriptor
  pub changed : List ChangedDevice
  pub removed : List DeviceId

-- The devices collected into a `BTreeMap` by their identifiers.
unfoldable pub collect_by_id :
    Map DeviceId DeviceDescriptor → List DeviceDescriptor → Map DeviceId DeviceDescriptor
collect_by_id m [] = m
collect_by_id m (d ∷ ds) = collect_by_id (insert d.id d m) ds

-- What the first loop of `diff` pushes to `added`, over the entries of `updated`.
unfoldable pub added_from :
    Map DeviceId DeviceDescriptor → Map DeviceId DeviceDescriptor → List DeviceDescriptor
added_from current [] = []
added_from current ((id, d) ∷ updated) =
    if is_some (lookup id current)
    then added_from current updated
    else d ∷ added_from current updated

push_changed : Option DeviceDescriptor → DeviceDescriptor → List ChangedDevice → List ChangedDevice
push_changed none d rest = rest
push_changed (some previous) d rest =
    if same_descriptor previous d then rest else record { previous = previous; current = d } ∷ rest

-- What it pushes to `changed`.
unfoldable pub changed_from :
    Map DeviceId DeviceDescriptor → Map DeviceId DeviceDescriptor → List ChangedDevice
unfolding push_changed
changed_from current [] = []
changed_from current ((id, d) ∷ updated) =
    push_changed (lookup id current) d (changed_from current updated)

-- What the second loop pushes to `removed`, over the entries of `current`.
unfoldable pub removed_from :
    Map DeviceId DeviceDescriptor → Map DeviceId DeviceDescriptor → List DeviceId
removed_from updated [] = []
removed_from updated ((id, d) ∷ current) =
    if is_some (lookup id updated)
    then removed_from updated current
    else id ∷ removed_from updated current

-- `InventorySnapshot::diff`.
unfoldable pub diff : InventorySnapshot → InventorySnapshot → InventoryDiff
unfolding collect_by_id added_from changed_from removed_from
diff s next =
    let current = collect_by_id [] s.devices in
    let updated = collect_by_id [] next.devices in
    record {
      added = added_from current updated;
      changed = changed_from current updated;
      removed = removed_from updated current;
    }

-- `InventoryDiff::events`.
unfoldable pub events : InventoryDiff → List InventoryEvent
events d =
    map InventoryEvent.added d.added
    ++ (map (λ c. InventoryEvent.changed c.previous c.current) d.changed
        ++ map InventoryEvent.removed d.removed)
