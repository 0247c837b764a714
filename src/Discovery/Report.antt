-- ===== src/Discovery/Report.antt =====
-- crates/lemnos-discovery/src/report.rs: reports of a run, and which probe found which device.
use lemnos.Prelude.{
  Bool, List, Map, Option, Text, [], any, false, filter, if◌then◌else◌, insert, is_some, keys,
  length, lookup, none, not, or_else, same, some, text_ord, ℕ, ◌&&◌, ◌++◌, ◌∷◌,
}
use lemnos.Core.Descriptor.{DeviceDescriptor}
use lemnos.Core.Ids.{DeviceId}
use lemnos.Core.Interface.{InterfaceKind, interface_ord}
use lemnos.Discovery.Inventory.{DiscoveryResult, InventorySnapshot, with_observed_at}

pub record ProbeReport : Type 0 where
  pub probe : Text
  pub interfaces : List InterfaceKind
  pub refreshed_interfaces : List InterfaceKind
  pub discovered_devices : ℕ
  pub discovered_device_ids : List DeviceId
  pub notes : List Text
  pub error : Option Text

-- `ProbeReport::success` and `ProbeReport::failure`.
abbrev pub probe_success :
    Text → List InterfaceKind → List InterfaceKind → ℕ → List DeviceId → List Text → ProbeReport
probe_success probe interfaces refreshed discovered ids notes = record {
  probe = probe;
  interfaces = interfaces;
  refreshed_interfaces = refreshed;
  discovered_devices = discovered;
  discovered_device_ids = ids;
  notes = notes;
  error = none;
}

abbrev pub probe_failure : Text → List InterfaceKind → List InterfaceKind → Text → ProbeReport
probe_failure probe interfaces refreshed error = record {
  probe = probe;
  interfaces = interfaces;
  refreshed_interfaces = refreshed;
  discovered_devices = 0;
  discovered_device_ids = [];
  notes = [];
  error = some error;
}

-- `ProbeReport::succeeded`.
abbrev pub probe_succeeded : ProbeReport → Bool
probe_succeeded r = not (is_some r.error)

pub record EnrichmentReport : Type 0 where
  pub enricher : Text
  pub interfaces : List InterfaceKind
  pub refreshed_interfaces : List InterfaceKind
  pub notes : List Text
  pub error : Option Text

abbrev pub enrichment_succeeded : EnrichmentReport → Bool
enrichment_succeeded r = not (is_some r.error)

pub record DiscoveryRunReport : Type 0 where
  pub snapshot : InventorySnapshot
  pub probe_reports : List ProbeReport
  pub enrichment_reports : List EnrichmentReport

-- `has_probe_failures`, `probe_failure_count` and their like for enrichments.
abbrev pub has_probe_failures : DiscoveryRunReport → Bool
has_probe_failures run = any (λ r. not (probe_succeeded r)) run.probe_reports

abbrev pub probe_failure_count : DiscoveryRunReport → ℕ
probe_failure_count run = length (filter (λ r. not (probe_succeeded r)) run.probe_reports)

abbrev pub has_enrichment_failures : DiscoveryRunReport → Bool
has_enrichment_failures run = any (λ r. not (enrichment_succeeded r)) run.enrichment_reports

abbrev pub enrichment_failure_count : DiscoveryRunReport → ℕ
enrichment_failure_count run =
    length (filter (λ r. not (enrichment_succeeded r)) run.enrichment_reports)

-- The devices that a probe found on an interface.
abbrev pub IdSet : Type 0
IdSet = Map DeviceId (Unit {0})

abbrev pub ProbeEntry : Type 0
ProbeEntry = Map InterfaceKind IdSet

abbrev pub ProbeInventoryIndex : Type 0
ProbeInventoryIndex = Map Text ProbeEntry

-- `Option::unwrap_or_default` of a map.
abbrev pub or_default {ℓ κ} : {K : Type ℓ} {V : Type κ} → Option (Map K V) → Map K V
or_default none = []
or_default (some m) = m

-- The interface of each device of a snapshot.
unfoldable pub interfaces_by_id :
    Map DeviceId InterfaceKind → List DeviceDescriptor → Map DeviceId InterfaceKind
interfaces_by_id m [] = m
interfaces_by_id m (d ∷ ds) = interfaces_by_id (insert d.id d.interface m) ds

unfoldable pub clear_interfaces : List InterfaceKind → ProbeEntry → ProbeEntry
clear_interfaces [] entry = entry
clear_interfaces (i ∷ is) entry = clear_interfaces is (insert i [] entry)

add_id : Option InterfaceKind → DeviceId → ProbeEntry → ProbeEntry
add_id none id entry = entry
add_id (some i) id entry = insert i (insert id tt (or_default (lookup i entry))) entry

unfoldable pub add_ids : Map DeviceId InterfaceKind → List DeviceId → ProbeEntry → ProbeEntry
unfolding add_id
add_ids devices [] entry = entry
add_ids devices (id ∷ ids) entry = add_ids devices ids (add_id (lookup id devices) id entry)

unfoldable pub record_report :
    Map DeviceId InterfaceKind → ProbeReport → ProbeInventoryIndex → ProbeInventoryIndex
unfolding clear_interfaces add_ids
record_report devices report index =
    if not (probe_succeeded report)
    then index
    else insert report.probe
        (add_ids devices report.discovered_device_ids
          (clear_interfaces report.refreshed_interfaces (or_default (lookup report.probe index))))
        index

unfoldable pub record_reports :
    Map DeviceId InterfaceKind → List ProbeReport → ProbeInventoryIndex → ProbeInventoryIndex
unfolding record_report
record_reports devices [] index = index
record_reports devices (r ∷ rs) index = record_reports devices rs (record_report devices r index)

-- `ProbeInventoryIndex::record_run`.
unfoldable pub record_run : ProbeInventoryIndex → DiscoveryRunReport → ProbeInventoryIndex
unfolding interfaces_by_id record_reports
record_run index run =
    record_reports (interfaces_by_id [] run.snapshot.devices) run.probe_reports index

-- `ProbeInventoryIndex::from_run`.
unfoldable pub from_run : DiscoveryRunReport → ProbeInventoryIndex
unfolding record_run
from_run run = record_run [] run

-- `ProbeInventoryIndex::ids_for_probe_interface`.
unfoldable pub ids_for_probe_interface : ProbeInventoryIndex → Text → InterfaceKind → Option IdSet
ids_for_probe_interface index probe interface = elim (lookup probe index) [
  | none ↦ none
  | some entry ↦ lookup interface entry
]

-- Whether the set is there and has an element that is the identifier.
abbrev pub holds_id : Option IdSet → DeviceId → Bool
holds_id none device_id = false
holds_id (some ids) device_id = any (λ id. same id device_id) (keys ids)

-- `ProbeInventoryIndex::was_replaced_by_run`.
unfoldable pub was_replaced_by_run :
    ProbeInventoryIndex → DeviceId → InterfaceKind → DiscoveryRunReport → Bool
unfolding ids_for_probe_interface
was_replaced_by_run index device_id interface run =
    any
      (λ report.
        probe_succeeded report
        && any (λ i. same i interface) report.refreshed_interfaces
        && holds_id (ids_for_probe_interface index report.probe interface) device_id)
      run.probe_reports

-- `ProbeInventoryIndex::merge_snapshot`.
unfoldable pub merge_snapshot :
    ProbeInventoryIndex → InventorySnapshot → DiscoveryRunReport → DiscoveryResult InventorySnapshot
merge_snapshot index current run =
    with_observed_at
      (filter (λ d. not (was_replaced_by_run index d.id d.interface run)) current.devices
        ++ run.snapshot.devices)
      (or_else run.snapshot.observed_at current.observed_at)
