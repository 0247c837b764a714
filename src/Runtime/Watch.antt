-- ===== src/Runtime/Watch.antt =====
-- crates/lemnos-runtime/src/runtime/watch.rs: refreshes that the events of a watcher trigger.
use lemnos.Prelude.{
  Bool, List, Map, Option, [], any, err, false, filter, if◌then◌else◌, insert, is_empty, is_some,
  lookup, none, ok, some, text_ord, true, ◌>>=◌, ◌∷◌,
}
use lemnos.Core.Interface.{InterfaceKind, interface_ord}
use lemnos.Discovery.Inventory.{DiscoveryResult, events}
use lemnos.Discovery.Run.{DiscoveryContext, DiscoveryProbe, Host, run_probes}
use lemnos.Discovery.Watch.{InventoryWatchEvent, InventoryWatcher}
use lemnos.Runtime.Defs.{Env, Runtime}
use lemnos.Runtime.Diagnostics.{RuntimeError, RuntimeResult}
use lemnos.Runtime.EventLog.{RuntimeConfig, RuntimeWatchRefreshMode}
use lemnos.Runtime.Refresh.{RefreshMode, RuntimeRefreshReport, refresh_run}

-- The interfaces of an event, and of all events, inserted into a `BTreeSet`.
unfoldable pub collect_interfaces :
    List InterfaceKind → Map InterfaceKind (Unit {0}) → Map InterfaceKind (Unit {0})
collect_interfaces [] set = set
collect_interfaces (i ∷ is) set = collect_interfaces is (insert i tt set)

unfoldable pub touched_interfaces :
    List InventoryWatchEvent → Map InterfaceKind (Unit {0}) → Map InterfaceKind (Unit {0})
unfolding collect_interfaces
touched_interfaces [] set = set
touched_interfaces (e ∷ es) set = touched_interfaces es (collect_interfaces e.interfaces set)

-- `BTreeSet::intersection`.
abbrev pub intersection :
    Map InterfaceKind (Unit {0}) → Map InterfaceKind (Unit {0}) → Map InterfaceKind (Unit {0})
intersection a b = filter (λ e. is_some (lookup e.0 b)) a

abbrev pub WatchScope : Type 0
WatchScope = DiscoveryContext × List DiscoveryProbe

-- The answer of `watch_refresh_scope` where no interface is left.
abbrev pub without_scope :
    RuntimeWatchRefreshMode → DiscoveryContext → List DiscoveryProbe → Option WatchScope
without_scope RuntimeWatchRefreshMode.strict_scoped c probes = none
without_scope RuntimeWatchRefreshMode.fallback_to_full c probes = some (c, probes)
without_scope RuntimeWatchRefreshMode.full c probes = some (c, probes)

abbrev pub is_full : RuntimeWatchRefreshMode → Bool
is_full RuntimeWatchRefreshMode.full = true
is_full _ = false

-- The part of `watch_refresh_scope` after the intersection.
unfoldable pub scope_for :
    RuntimeWatchRefreshMode
    → DiscoveryContext
    → List DiscoveryProbe
    → Map InterfaceKind (Unit {0})
    → Option WatchScope
scope_for mode c probes requested =
    let scoped = filter (λ p. any (λ i. is_some (lookup i requested)) p.interfaces) probes in
    if is_empty requested
    then without_scope mode c probes
    else if is_empty scoped
    then without_scope mode c probes
    else some (record c { requested_interfaces = requested }, scoped)

-- `watch_refresh_scope`.
unfoldable pub watch_refresh_scope :
    RuntimeConfig
    → DiscoveryContext
    → List DiscoveryProbe
    → List InventoryWatchEvent
    → Option WatchScope
unfolding touched_interfaces scope_for
watch_refresh_scope config c probes events =
    let mode = config.watch_refresh_mode in
    let touched = touched_interfaces events [] in
    if is_full mode
    then some (c, probes)
    else if is_empty touched
    then without_scope mode c probes
    else scope_for mode c probes (
        if is_empty c.requested_interfaces
        then touched
        else intersection c.requested_interfaces touched)

-- What `PreparedWatchRefresh` hands on; its other fields are only logged.
pub record PreparedWatchRefresh : Type 0 where
  pub watch_events : List InventoryWatchEvent
  pub scoped_context : DiscoveryContext
  pub scoped_probes : List DiscoveryProbe
  pub mode : RefreshMode

unfoldable pub prepared_scope :
    List InventoryWatchEvent → RefreshMode → Option WatchScope → Option PreparedWatchRefresh
prepared_scope events mode none = none
prepared_scope events mode (some (c, probes)) =
    some (record { watch_events = events; scoped_context = c; scoped_probes = probes; mode = mode })

-- `prepare_watch_refresh`. `WatchedRefreshMode` has the variants of `RefreshMode` and maps to them.
unfoldable pub prepare_watch_refresh :
    RuntimeConfig
    → DiscoveryContext
    → List DiscoveryProbe
    → List InventoryWatchEvent
    → RefreshMode
    → Option PreparedWatchRefresh
unfolding watch_refresh_scope prepared_scope
prepare_watch_refresh config c probes events mode =
    if is_empty events
    then none
    else prepared_scope events mode (watch_refresh_scope config c probes events)

pub record RuntimeWatchedRefreshReport : Type 0 where
  pub watch_events : List InventoryWatchEvent
  pub refresh : RuntimeRefreshReport

unfoldable pub watched_report :
    List InventoryWatchEvent
    → RuntimeResult RuntimeRefreshReport
    → RuntimeResult (Option RuntimeWatchedRefreshReport)
watched_report events result = do
  refresh ← result
  ok (some (record { watch_events = events; refresh = refresh }))

module _ {C B : Type 0} where
  -- `PreparedWatchRefresh::run` and `CompletedWatchRefresh::finish`.
  unfoldable pub run_prepared :
      Env B
      → Host
      → Option PreparedWatchRefresh
      → Runtime C B
      → Runtime C B × RuntimeResult (Option RuntimeWatchedRefreshReport)
  unfolding refresh_run run_probes watched_report
  run_prepared env host none rt = (rt, ok none)
  run_prepared env host (some p) rt =
      let (left, result) =
        refresh_run env p.mode (run_probes host p.scoped_context p.scoped_probes) rt in
      (left, watched_report p.watch_events result)

  -- `handle_watch_events_and_refresh_with_mode`, on what polling the watcher returned.
  unfoldable pub handle_watch_events :
      Env B
      → Host
      → RefreshMode
      → DiscoveryContext
      → List DiscoveryProbe
      → DiscoveryResult (List InventoryWatchEvent)
      → Runtime C B
      → Runtime C B × RuntimeResult (Option RuntimeWatchedRefreshReport)
  unfolding run_prepared prepare_watch_refresh
  handle_watch_events env host mode c probes (err e) rt = (rt, err (RuntimeError.discovery e))
  handle_watch_events env host mode c probes (ok events) rt =
      run_prepared env host (prepare_watch_refresh rt.config c probes events mode) rt

  -- `poll_watcher_and_refresh` and `poll_watcher_and_refresh_incremental`, by their modes.
  unfoldable pub poll_watcher_and_refresh :
      {W : Type 0}
      → Env B
      → Host
      → InventoryWatcher W
      → RefreshMode
      → DiscoveryContext
      → List DiscoveryProbe
      → W × Runtime C B
      → (W × Runtime C B) × RuntimeResult (Option RuntimeWatchedRefreshReport)
  unfolding handle_watch_events
  poll_watcher_and_refresh env host watcher mode c probes (w, rt) =
      let (polled, events) = watcher.poll w in
      let (left, result) = handle_watch_events env host mode c probes events rt in
      ((polled, left), result)
