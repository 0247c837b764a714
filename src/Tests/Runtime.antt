-- ===== src/Tests/Runtime.antt =====
-- The runtime's theorems at concrete inputs.
use lemnos.Prelude.{
  All, List, [], arith, codes, drop, err, false, is_ok, length, lookup, none, ok, refl, some,
  sort_by, text_ord, true, ℕ, ◌++◌, ◌<◌, ◌↔◌, ◌∷◌, ◌≡◌, ◌≤◌, ◌⊎◌,
}
use lemnos.Core.Descriptor.{validate_descriptor}
use lemnos.Core.Interface.{interface_ord}
use lemnos.Discovery.Inventory.{DiscoveryError, with_observed_at}
use lemnos.Discovery.Run.{DiscoveryProbe}
use lemnos.Drivers.UsbStats.{number_ord}
use lemnos.Runtime.Atomic.{refresh_with_mode-err}
use lemnos.Runtime.Binding.{bind-outcome}
use lemnos.Runtime.Bytes.{estimated_retained_event_bytes, value_map_bytes}
use lemnos.Runtime.Cursors.{poll_events_with_status-history, record_state-wakes}
use lemnos.Runtime.Defs.{has_failure, is_bound, wants_binding}
use lemnos.Runtime.Diagnostics.{RuntimeError, RuntimeFailureOperation, complete_operation}
use lemnos.Runtime.EventLog.{
  empty_log, enforce_event_retention, poll_events_with_status, poll_with_status, record_state,
  take_events,
}
use lemnos.Runtime.Failures.{complete_operation-lookup}
use lemnos.Runtime.Lifecycle.{shutdown-refuses}
use lemnos.Runtime.Limits.{enforce_event_retention-bounds, enforce_event_retention-over}
use lemnos.Runtime.Notifier.{changed_after}
use lemnos.Runtime.Operations.{bind, shutdown}
use lemnos.Runtime.Reachable.{Reachable, Reachable-IsLog}
use lemnos.Runtime.Rebinds.{Settled, rebind_tracked_devices-Settled}
use lemnos.Runtime.Refresh.{RefreshMode, empty_rebinds, rebind_tracked_devices, refresh_with_mode}
use lemnos.Runtime.Requests.{request}
use lemnos.Runtime.Retention.{IsLog, total}
use lemnos.Tests.Samples.{
  bare_state, chip, chip_id, context, env, failure_env, history, host, log, read_request,
  removed_event, sample_probe, sample_runtime, sample_sizes, small_config, state_event,
}

log-IsLog : IsLog sample_sizes history log
unfolding IsLog estimated_retained_event_bytes value_map_bytes
log-IsLog = (ground arith, refl, refl, ground arith)

complete_operation-lookup_example :
    lookup chip_id
      (complete_operation {0} failure_env chip_id RuntimeFailureOperation.bind (ok tt) [])
    ≡ none
complete_operation-lookup_example =
    (complete_operation-lookup failure_env chip_id (codes "port1") RuntimeFailureOperation.bind
        (ok tt) []).1
      refl

poll_events_with_status-history_example :
    ((poll_events_with_status log 0).1.events ≡ drop 1 history)
    × ((poll_events_with_status log 0).0 ≡ 3)
    × ((poll_events_with_status log 0).1.was_truncated ≡ true ↔ 0 < 1)
poll_events_with_status-history_example =
    poll_events_with_status-history sample_sizes history log 0 log-IsLog

record_state-wakes_example :
    changed_after
      (record_state sample_sizes small_config bare_state log).event_notifier
      (poll_with_status (record { cursor = 1; observed_version = 0 }) log).0.observed_version
    ≡ true
record_state-wakes_example =
    record_state-wakes sample_sizes small_config bare_state history log
      (record { cursor = 1; observed_version = 0 }) log-IsLog (omega arith)

enforce_event_retention-bounds_example :
    (length (enforce_event_retention sample_sizes small_config log).events ≤ 1)
    × ((limit : ℕ)
        → some 20 ≡ some limit
        → (enforce_event_retention sample_sizes small_config log).retained_event_bytes ≤ limit)
enforce_event_retention-bounds_example =
    enforce_event_retention-bounds sample_sizes small_config history log log-IsLog

state_event-fits : total sample_sizes (state_event ∷ []) ≤ 20
unfolding estimated_retained_event_bytes value_map_bytes
state_event-fits = ground arith

enforce_event_retention-over_example :
    length (enforce_event_retention sample_sizes small_config log).events < 1
enforce_event_retention-over_example =
    enforce_event_retention-over sample_sizes small_config 20 log (removed_event ∷ [])
      (state_event ∷ []) refl refl refl (omega arith) state_event-fits (omega arith)

bind-outcome_example :
    ((is_ok (bind env chip_id sample_runtime).1 ≡ true)
      × (is_bound (bind env chip_id sample_runtime).0 chip_id ≡ true)
      × (wants_binding (bind env chip_id sample_runtime).0 chip_id ≡ true)
      × (has_failure (bind env chip_id sample_runtime).0 chip_id ≡ false))
    ⊎ ((is_ok (bind env chip_id sample_runtime).1 ≡ false)
        × (has_failure (bind env chip_id sample_runtime).0 chip_id ≡ true)
        × ((bind env chip_id sample_runtime).0.bindings ≡ [])
        × ((bind env chip_id sample_runtime).0.desired_bindings ≡ [])
        × ((bind env chip_id sample_runtime).0.states ≡ [])
        × ((bind env chip_id sample_runtime).0.log ≡ empty_log))
bind-outcome_example = bind-outcome env chip_id sample_runtime

shutdown-refuses_example :
    (request env read_request (shutdown env sample_runtime).0).1 ≡ err RuntimeError.not_running
shutdown-refuses_example =
    (shutdown-refuses env host sample_runtime chip_id read_request RefreshMode.full context []).7

rebind_tracked_devices-Settled_example :
    All
      (Settled
        (rebind_tracked_devices env
          (chip_id ∷ codes "port1" ∷ [])
          (sample_runtime, empty_rebinds)).0)
      (chip_id ∷ codes "port1" ∷ [])
rebind_tracked_devices-Settled_example =
    (rebind_tracked_devices-Settled env (chip_id ∷ codes "port1" ∷ []) sample_runtime
      ((refl, tt), (tt, tt))).3

Reachable-IsLog_example :
    IsLog sample_sizes
      ([] ++ state_event ∷ [])
      (take_events (record_state sample_sizes small_config bare_state empty_log)).0
Reachable-IsLog_example =
    Reachable-IsLog sample_sizes ([] ++ state_event ∷ [])
      (take_events (record_state sample_sizes small_config bare_state empty_log)).0
      (Reachable.taken ([] ++ state_event ∷ [])
        (record_state sample_sizes small_config bare_state empty_log)
        (Reachable.cached small_config bare_state [] empty_log Reachable.started))

-- Two probes that find one device, whose identifier is then there twice.
abbrev twice : List DiscoveryProbe
twice = sample_probe (codes "a") (chip ∷ []) ∷ sample_probe (codes "b") (chip ∷ []) ∷ []

twice-refused :
    (refresh_with_mode env host RefreshMode.full context twice sample_runtime).1
    ≡ err (RuntimeError.discovery (DiscoveryError.duplicate_device_id chip_id))
unfolding refresh_with_mode sort_by validate_descriptor with_observed_at
twice-refused = refl

refresh_with_mode-err_example :
    (refresh_with_mode env host RefreshMode.full context twice sample_runtime).0 ≡ sample_runtime
refresh_with_mode-err_example =
    refresh_with_mode-err env host RefreshMode.full context twice sample_runtime
      (RuntimeError.discovery (DiscoveryError.duplicate_device_id chip_id)) twice-refused
