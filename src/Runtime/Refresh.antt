-- ===== src/Runtime/Refresh.antt =====
-- crates/lemnos-runtime/src/runtime/refresh.rs: refreshing the inventory from a run of the probes.
use lemnos.Prelude.{
  Bool, List, Option, Text, [], err, false, filter, if◌then◌else◌, insert, is_ok, is_some, keys,
  lookup, map, map_err, none, not, ok, remove, same, some, text_ord, true, ◌&&◌, ◌++◌, ◌||◌, ◌∷◌,
}
use lemnos.Core.Descriptor.{same_address, same_surface}
use lemnos.Core.Ids.{DeviceId}
use lemnos.Core.Interface.{interface_ord}
use lemnos.Core.Kinds.{same_kind}
use lemnos.Discovery.Inventory.{
  ChangedDevice, DiscoveryResult, InventoryDiff, InventorySnapshot, diff,
}
use lemnos.Discovery.Report.{
  DiscoveryRunReport, IdSet, ProbeInventoryIndex, from_run, has_probe_failures, merge_snapshot,
  record_run,
}
use lemnos.Discovery.Run.{DiscoveryContext, DiscoveryProbe, Host, run_probes}
use lemnos.Registry.Defs.{DriverCandidate, RegistryResult, resolve}
use lemnos.Runtime.Defs.{Env, Runtime, completed, is_bound, wants_binding}
use lemnos.Runtime.Diagnostics.{
  RuntimeError, RuntimeFailureOperation, RuntimeResult, complete_operation,
}
use lemnos.Runtime.EventLog.{record_inventory_events}
use lemnos.Runtime.Operations.{DetachedBoundDevice, bind_device_by_id, take_bound_device}

pub data RefreshMode : Type 0 where
  full incremental : RefreshMode

pub record RuntimeRebindReport : Type 0 where
  pub attempted : List DeviceId
  pub rebound : List DeviceId
  pub failed : List DeviceId

pub record RuntimeRefreshReport : Type 0 where
  pub discovery : DiscoveryRunReport
  pub diff : InventoryDiff
  pub rebinds : RuntimeRebindReport

-- What `PreparedRefreshCommit` hands on; its other fields are only logged.
pub record PreparedRefreshCommit (B : Type 0) : Type 0 where
  pub discovery : DiscoveryRunReport
  pub diff : InventoryDiff
  pub detached : List (DetachedBoundDevice B)
  pub rebind_targets : List DeviceId
  pub snapshot : InventorySnapshot

collect_ids : List DeviceId → IdSet → IdSet
collect_ids [] ids = ids
collect_ids (id ∷ rest) ids = collect_ids rest (insert id tt ids)

abbrev next_index : RefreshMode → ProbeInventoryIndex → DiscoveryRunReport → ProbeInventoryIndex
next_index RefreshMode.full index run = from_run run
next_index RefreshMode.incremental index run = record_run index run

abbrev pub empty_rebinds : RuntimeRebindReport
empty_rebinds = record { attempted = []; rebound = []; failed = [] }

module _ {C B : Type 0} where
  -- `materialize_refresh_inventory`, and what an incremental refresh does in its place.
  unfoldable pub next_inventory :
      RefreshMode → DiscoveryRunReport → Runtime C B → RuntimeResult InventorySnapshot
  unfolding merge_snapshot
  next_inventory RefreshMode.full run rt =
      if has_probe_failures run
      then map_err RuntimeError.discovery (merge_snapshot rt.probe_inventory rt.inventory run)
      else ok run.snapshot
  next_inventory RefreshMode.incremental run rt =
      map_err RuntimeError.discovery (merge_snapshot rt.probe_inventory rt.inventory run)

  resolves_elsewhere : Text → RegistryResult (DriverCandidate C B) → Bool
  resolves_elsewhere bound_driver_id (err _) = true
  resolves_elsewhere bound_driver_id (ok candidate) = not (same candidate.driver_id bound_driver_id)

  unfoldable pub bound_requires_rebind : Env B → Runtime C B → ChangedDevice → Option B → Bool
  unfolding resolves_elsewhere resolve same_address same_surface same_kind
  bound_requires_rebind env rt changed none = false
  bound_requires_rebind env rt changed (some bound) =
      not (same changed.previous.interface changed.current.interface)
      || not (same_kind changed.previous.kind changed.current.kind)
      || not (same_address changed.previous.address changed.current.address)
      || not (same_surface changed.previous.control_surface changed.current.control_surface)
      || resolves_elsewhere (env.device.driver_id bound) (resolve rt.registry changed.current)

  -- `binding_requires_rebind`.
  unfoldable pub binding_requires_rebind : Env B → Runtime C B → ChangedDevice → Bool
  unfolding bound_requires_rebind
  binding_requires_rebind env rt changed =
      bound_requires_rebind env rt changed (lookup changed.current.id rt.bindings)

  unfoldable pub collect_invalidated_bindings : Env B → Runtime C B → InventoryDiff → IdSet
  unfolding binding_requires_rebind collect_ids
  collect_invalidated_bindings env rt d =
      collect_ids
        (map (λ c. c.current.id) (filter (λ c. binding_requires_rebind env rt c) d.changed)) []

  unfoldable pub collect_rebind_targets : Runtime C B → InventoryDiff → IdSet → List DeviceId
  unfolding collect_ids
  collect_rebind_targets rt d invalidated =
      if not rt.config.auto_rebind_on_refresh
      then []
      else keys (
          collect_ids
            (filter (λ id. wants_binding rt id) (map (λ device. device.id) d.added)
              ++ filter
                  (λ id.
                    wants_binding rt id
                    && (is_some (lookup id invalidated) || not (is_bound rt id)))
                  (map (λ c. c.current.id) d.changed))
            [])

  -- One step of `detach_invalidated_bindings`.
  detach_one :
      DeviceId
      → Runtime C B × List (DetachedBoundDevice B)
      → Runtime C B × List (DetachedBoundDevice B)
  unfolding take_bound_device
  detach_one id (rt, detached) =
      let (taken, binding) = take_bound_device id rt in
      (
        record taken { states = remove id taken.states; failures = remove id taken.failures },
        detached ++ binding,
      )

  detach_all :
      List DeviceId
      → Runtime C B × List (DetachedBoundDevice B)
      → Runtime C B × List (DetachedBoundDevice B)
  unfolding detach_one
  detach_all [] acc = acc
  detach_all (id ∷ ids) acc = detach_all ids (detach_one id acc)

  unfoldable pub detach_invalidated_bindings :
      InventoryDiff → IdSet → Runtime C B → Runtime C B × List (DetachedBoundDevice B)
  unfolding detach_all
  detach_invalidated_bindings d invalidated rt =
      detach_all
        (d.removed
          ++ filter (λ id. is_some (lookup id invalidated)) (map (λ c. c.current.id) d.changed))
        (rt, [])

  commit :
      Env B
      → RefreshMode
      → DiscoveryRunReport
      → InventorySnapshot
      → Runtime C B
      → Runtime C B × PreparedRefreshCommit B
  unfolding diff collect_invalidated_bindings collect_rebind_targets detach_invalidated_bindings
      record_inventory_events
  commit env mode run next rt =
      let d = diff rt.inventory next in
      let invalidated = collect_invalidated_bindings env rt d in
      let targets = collect_rebind_targets rt d invalidated in
      let recorded : Runtime C B = record rt {
        log = record_inventory_events env.sizes rt.config d rt.log;
      } in
      let (left, detached) = detach_invalidated_bindings d invalidated recorded in
      (
        record left {
          inventory = next;
          probe_inventory = next_index mode left.probe_inventory run;
        },
        record {
          discovery = run;
          diff = d;
          detached = detached;
          rebind_targets = targets;
          snapshot = next;
        },
      )

  unfoldable pub commit_found :
      Env B
      → RefreshMode
      → DiscoveryRunReport
      → RuntimeResult InventorySnapshot
      → Runtime C B
      → Runtime C B × RuntimeResult (PreparedRefreshCommit B)
  unfolding commit
  commit_found env mode run (err e) rt = (rt, err e)
  commit_found env mode run (ok next) rt =
      let (left, prepared) = commit env mode run next rt in (left, ok prepared)

  unfoldable pub prepare_refresh_commit :
      Env B
      → RefreshMode
      → DiscoveryRunReport
      → Runtime C B
      → Runtime C B × RuntimeResult (PreparedRefreshCommit B)
  unfolding commit_found next_inventory
  prepare_refresh_commit env mode run rt =
      if not rt.running
      then (rt, err RuntimeError.not_running)
      else commit_found env mode run (next_inventory mode run rt) rt

  -- `rebind_tracked_devices`, from the report made so far.
  unfoldable pub rebind_tracked_devices :
      Env B → List DeviceId → Runtime C B × RuntimeRebindReport → Runtime C B × RuntimeRebindReport
  unfolding bind_device_by_id complete_operation
  rebind_tracked_devices env [] acc = acc
  rebind_tracked_devices env (id ∷ ids) (rt, report) =
      let (bound, result) = bind_device_by_id env id rt in
      rebind_tracked_devices env ids (
        completed env id RuntimeFailureOperation.rebind result bound,
        record {
          attempted = report.attempted ++ id ∷ [];
          rebound = report.rebound ++ (if is_ok result then id ∷ [] else []);
          failed = report.failed ++ (if is_ok result then [] else id ∷ []);
        },
      )

  unfoldable pub finish :
      Env B
      → Runtime C B × RuntimeResult (PreparedRefreshCommit B)
      → Runtime C B × RuntimeResult RuntimeRefreshReport
  unfolding rebind_tracked_devices
  finish env (rt, err e) = (rt, err e)
  finish env (rt, ok prepared) =
      let (left, rebinds) =
        rebind_tracked_devices env prepared.rebind_targets (rt, empty_rebinds) in
      (
        left,
        ok (record {
          discovery = record prepared.discovery { snapshot = prepared.snapshot };
          diff = prepared.diff;
          rebinds = rebinds;
        }),
      )

  -- `finish_refresh`. Closing the detached devices changes nothing that the runtime holds.
  unfoldable pub finish_refresh :
      Env B
      → RefreshMode
      → DiscoveryRunReport
      → Runtime C B
      → Runtime C B × RuntimeResult RuntimeRefreshReport
  unfolding finish prepare_refresh_commit
  finish_refresh env mode run rt = finish env (prepare_refresh_commit env mode run rt)

  unfoldable pub refresh_run :
      Env B
      → RefreshMode
      → DiscoveryResult DiscoveryRunReport
      → Runtime C B
      → Runtime C B × RuntimeResult RuntimeRefreshReport
  unfolding finish_refresh
  refresh_run env mode (err e) rt = (rt, err (RuntimeError.discovery e))
  refresh_run env mode (ok run) rt = finish_refresh env mode run rt

  -- `refresh_with_mode`, which `refresh` and `refresh_incremental` call.
  unfoldable pub refresh_with_mode :
      Env B
      → Host
      → RefreshMode
      → DiscoveryContext
      → List DiscoveryProbe
      → Runtime C B
      → Runtime C B × RuntimeResult RuntimeRefreshReport
  unfolding refresh_run run_probes
  refresh_with_mode env host mode context probes rt =
      if not rt.running
      then (rt, err RuntimeError.not_running)
      else refresh_run env mode (run_probes host context probes) rt
