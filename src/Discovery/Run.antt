-- ===== src/Discovery/Run.antt =====
-- crates/lemnos-discovery/src/{run,probe,context}.rs: running the probes of a refresh.
use lemnos.Prelude.{
  Bool, List, Map, Option, Ordering, Text, [], compare, err, filter, if◌then◌else◌, is_empty,
  is_some, leb, length, lookup, map, map_err, max, min, none, ok, some, sort_by, suc, text_ord,
  zero, ℕ, ◌%◌, ◌++◌, ◌>>=◌, ◌>>◌, ◌||◌, ◌∷◌,
}
use lemnos.Core.Descriptor.{DeviceDescriptor, validate_descriptor}
use lemnos.Core.Interface.{InterfaceKind, interface_ord}
use lemnos.Core.State.{TimestampMs}
use lemnos.Core.Value.{ValueMap}
use lemnos.Discovery.Inventory.{DiscoveryError, DiscoveryResult, with_observed_at}
use lemnos.Discovery.Report.{DiscoveryRunReport, ProbeReport, probe_failure, probe_success}

pub record DiscoveryContext : Type 0 where
  pub observed_at : Option TimestampMs
  pub requested_interfaces : Map InterfaceKind (Unit {0})
  pub inline_probe_threshold : Option ℕ
  pub max_parallel_probe_workers : Option ℕ
  pub properties : ValueMap

-- `DiscoveryContext::wants`.
abbrev pub wants : DiscoveryContext → InterfaceKind → Bool
wants c i = is_empty c.requested_interfaces || is_some (lookup i c.requested_interfaces)

pub record ProbeDiscovery : Type 0 where
  pub devices : List DeviceDescriptor
  pub notes : List Text

-- The trait `DiscoveryProbe`: a probe answers from what it finds on the host.
pub record DiscoveryProbe : Type 0 where
  pub name : Text
  pub interfaces : List InterfaceKind
  pub discover : DiscoveryContext → DiscoveryResult ProbeDiscovery

-- What a run takes from outside the repository: how errors are printed, which a derive macro
-- writes, and the number of processors, which the system reports.
pub record Host : Type 0 where
  pub to_string : DiscoveryError → Text
  pub available_parallelism : ℕ

pub record SelectedProbe : Type 0 where
  pub probe : DiscoveryProbe
  pub interfaces : List InterfaceKind
  pub refreshed_interfaces : List InterfaceKind

-- `selected_interfaces`.
unfoldable pub selected_interfaces : DiscoveryContext → List InterfaceKind → List InterfaceKind
selected_interfaces c interfaces =
    if is_empty c.requested_interfaces then interfaces else filter (λ i. wants c i) interfaces

-- `select_probes`.
unfoldable pub select_probes : DiscoveryContext → List DiscoveryProbe → List SelectedProbe
unfolding selected_interfaces
select_probes c [] = []
select_probes c (p ∷ ps) =
    let refreshed = selected_interfaces c p.interfaces in
    if is_empty refreshed
    then select_probes c ps
    else record { probe = p; interfaces = p.interfaces; refreshed_interfaces = refreshed }
      ∷ select_probes c ps

abbrev pub or_number : Option ℕ → ℕ → ℕ
or_number none d = d
or_number (some n) d = n

-- `DEFAULT_INLINE_PROBE_THRESHOLD` and `DEFAULT_MAX_PARALLEL_PROBE_WORKERS`.
abbrev pub default_inline_probe_threshold : ℕ
default_inline_probe_threshold = 2

abbrev pub default_max_parallel_probe_workers : ℕ
default_max_parallel_probe_workers = 4

-- `parallel_worker_count`.
unfoldable pub parallel_worker_count : ℕ → DiscoveryContext → ℕ → ℕ
parallel_worker_count available c count =
    if leb count (or_number c.inline_probe_threshold default_inline_probe_threshold)
    then 1
    else min (min count available)
        (max (or_number c.max_parallel_probe_workers default_max_parallel_probe_workers) 1)

-- A probe with its index, and the result of running it.
pub record IndexedSelectedProbe : Type 0 where
  pub index : ℕ
  pub selected_probe : SelectedProbe

abbrev pub ProbeRunResult : Type 0
ProbeRunResult = ℕ × SelectedProbe × DiscoveryResult ProbeDiscovery

abbrev pub run_indexed : DiscoveryContext → IndexedSelectedProbe → ProbeRunResult
run_indexed c p = (p.index, p.selected_probe, p.selected_probe.probe.discover c)

-- `enumerate`, from an index on.
abbrev pub enumerate_from : ℕ → List SelectedProbe → List IndexedSelectedProbe
enumerate_from index [] = []
enumerate_from index (p ∷ ps) =
    record { index = index; selected_probe = p } ∷ enumerate_from (suc index) ps

-- The inline branch of `run_selected_probes`.
unfoldable pub run_inline : DiscoveryContext → List SelectedProbe → List ProbeRunResult
run_inline c ps = map (run_indexed c) (enumerate_from 0 ps)

abbrev pub empty_batches : ℕ → List (List IndexedSelectedProbe)
empty_batches zero = []
empty_batches (suc n) = [] ∷ empty_batches n

-- `batches[k].push(p)`.
abbrev pub push_at :
    ℕ → IndexedSelectedProbe → List (List IndexedSelectedProbe) → List (List IndexedSelectedProbe)
push_at k p [] = []
push_at zero p (b ∷ bs) = (b ++ p ∷ []) ∷ bs
push_at (suc k) p (b ∷ bs) = b ∷ push_at k p bs

-- The loop of `build_probe_batches`, from an index on.
unfoldable pub distribute :
    ℕ → ℕ → List SelectedProbe → List (List IndexedSelectedProbe) → List (List IndexedSelectedProbe)
distribute workers index [] batches = batches
distribute workers index (p ∷ ps) batches =
    distribute workers (suc index) ps
      (push_at (index % workers) (record { index = index; selected_probe = p }) batches)

-- `build_probe_batches`.
unfoldable pub build_probe_batches : List SelectedProbe → ℕ → List (List IndexedSelectedProbe)
unfolding distribute
build_probe_batches ps workers = distribute workers 0 ps (empty_batches workers)

-- `run_probe_batch` for each batch, with the results joined in the order of the threads' handles.
unfoldable pub run_batches :
    DiscoveryContext → List (List IndexedSelectedProbe) → List ProbeRunResult
run_batches c [] = []
run_batches c (b ∷ bs) = map (run_indexed c) b ++ run_batches c bs

abbrev pub compare_index : ProbeRunResult → ProbeRunResult → Ordering
compare_index a b = compare a.0 b.0

-- `run_selected_probes_parallel`.
unfoldable pub run_parallel : DiscoveryContext → List SelectedProbe → ℕ → List ProbeRunResult
unfolding build_probe_batches run_batches
run_parallel c ps workers = sort_by compare_index (run_batches c (build_probe_batches ps workers))

-- `run_selected_probes`.
unfoldable pub run_selected_probes :
    Host → DiscoveryContext → List SelectedProbe → List ProbeRunResult
unfolding run_inline run_parallel parallel_worker_count
run_selected_probes host c ps =
    let workers = parallel_worker_count host.available_parallelism c (length ps) in
    if leb workers 1 then run_inline c ps else run_parallel c ps workers

-- The check of `process_probe_result` on the devices of one probe.
unfoldable pub check_found : Text → List DeviceDescriptor → DiscoveryResult (Unit {0})
check_found probe [] = ok tt
check_found probe (d ∷ ds) = do
  map_err (DiscoveryError.invalid_descriptor probe d.id) (validate_descriptor d)
  check_found probe ds

abbrev pub Gathered : Type 0
Gathered = List DeviceDescriptor × List ProbeReport

unfoldable pub process_discovery :
    Host → SelectedProbe → DiscoveryResult ProbeDiscovery → Gathered → DiscoveryResult Gathered
unfolding check_found
process_discovery host p (ok found) (devices, reports) = do
  check_found p.probe.name found.devices
  ok (
    devices ++ found.devices,
    reports
        ++ probe_success p.probe.name p.interfaces p.refreshed_interfaces (length found.devices)
            (map (λ d. d.id) found.devices) found.notes
          ∷ [],
  )
process_discovery host p (err e) (devices, reports) = ok (
  devices,
  reports ++ probe_failure p.probe.name p.interfaces p.refreshed_interfaces (host.to_string e) ∷ [],
)

-- `process_probe_result`, with the two vectors that it extends.
unfoldable pub process_probe_result : Host → ProbeRunResult → Gathered → DiscoveryResult Gathered
unfolding process_discovery
process_probe_result host (index, p, discovery) gathered =
    process_discovery host p discovery gathered

unfoldable pub process_results : Host → List ProbeRunResult → Gathered → DiscoveryResult Gathered
unfolding process_probe_result
process_results host [] gathered = ok gathered
process_results host (r ∷ rs) gathered = do
  next ← process_probe_result host r gathered
  process_results host rs next

-- `run_probes`.
unfoldable pub run_probes :
    Host → DiscoveryContext → List DiscoveryProbe → DiscoveryResult DiscoveryRunReport
unfolding select_probes run_selected_probes process_results
run_probes host c probes = do
  gathered ← process_results host (run_selected_probes host c (select_probes c probes)) ([], [])
  snapshot ← with_observed_at gathered.0 c.observed_at
  ok (record { snapshot = snapshot; probe_reports = gathered.1; enrichment_reports = [] })
