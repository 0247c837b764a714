-- ===== src/Runtime/Operations.antt =====
-- crates/lemnos-runtime/src/runtime/operations.rs: binding, unbinding, state and shutdown. An
-- operation returns the runtime that it leaves with its result.
use lemnos.Prelude.{
  Bool, List, Option, [], err, false, if◌then◌else◌, insert, is_ok, is_some, lookup, map, map_err,
  none, not, ok, remove, some, text_ord, true, ◌>>=◌, ◌||◌, ◌∷◌,
}
use lemnos.Core.Descriptor.{DeviceDescriptor}
use lemnos.Core.Ids.{DeviceId}
use lemnos.Core.Interface.{interface_ord}
use lemnos.Core.State.{DeviceStateSnapshot}
use lemnos.Discovery.Inventory.{get}
use lemnos.Registry.Defs.{resolve}
use lemnos.Runtime.Defs.{
  Env, Runtime, cache_option, cache_state, completed, has_failure, is_bound, wants_binding,
}
use lemnos.Runtime.Diagnostics.{
  RuntimeError, RuntimeFailureOperation, RuntimeResult, complete_operation,
}
use lemnos.Runtime.Notifier.{notify_changed}

-- `PreparedBindingOutput`.
pub record PreparedBindingOutput (B : Type 0) : Type 0 where
  pub bound : B
  pub initial_state : Option DeviceStateSnapshot

-- `DetachedBoundDevice`: a device with its identifier.
abbrev pub DetachedBoundDevice : Type 0 → Type 0
DetachedBoundDevice B = DeviceId × B

module _ {B : Type 0} (env : Env B) where
  -- The initial state of `PreparedBinding::bind`.
  unfoldable pub first_state : DeviceId → Bool → B → RuntimeResult (PreparedBindingOutput B)
  first_state device_id false bound = ok (record { bound = bound; initial_state = none })
  first_state device_id true bound = do
    state ← map_err (RuntimeError.driver device_id) (env.device.state bound).1
    ok (record { bound = (env.device.state bound).0; initial_state = state })

  -- `close_detached_bindings`: the devices that closing leaves. Errors are only logged.
  abbrev pub close_detached_bindings : List (DetachedBoundDevice B) → List (DetachedBoundDevice B)
  close_detached_bindings detached = map (λ d. (d.0, (env.device.close d.1).0)) detached

module _ {C B : Type 0} where
  -- `take_bound_device`.
  unfoldable pub take_bound_device :
      DeviceId → Runtime C B → Runtime C B × List (DetachedBoundDevice B)
  take_bound_device device_id rt = (
    record rt { bindings = remove device_id rt.bindings },
    elim (lookup device_id rt.bindings) [ none ↦ [] | some b ↦ (device_id, b) ∷ [] ],
  )

module _ {C B : Type 0} (env : Env B) where
  -- `prepare_binding` and `PreparedBinding::bind`.
  unfoldable pub prepare_and_bind :
      Runtime C B → DeviceDescriptor → RuntimeResult (PreparedBindingOutput B)
  unfolding resolve first_state
  prepare_and_bind rt d = do
    candidate ← map_err RuntimeError.registry (resolve rt.registry d)
    bound ← map_err (RuntimeError.driver d.id) (candidate.driver.bind d rt.backends)
    first_state env d.id rt.config.cache_state_on_bind bound

  unfoldable pub store_bound_device : DeviceId → PreparedBindingOutput B → Runtime C B → Runtime C B
  unfolding cache_state
  store_bound_device device_id output rt =
      let cached = cache_option env output.initial_state rt in
      record cached { bindings = insert device_id output.bound cached.bindings }

  unfoldable pub store_result :
      DeviceId
      → RuntimeResult (PreparedBindingOutput B)
      → Runtime C B
      → Runtime C B × RuntimeResult (Unit {0})
  unfolding store_bound_device
  store_result device_id (ok output) rt = (store_bound_device device_id output rt, ok tt)
  store_result device_id (err e) rt = (rt, err e)

  unfoldable pub bind_discovered_device :
      DeviceDescriptor → Runtime C B → Runtime C B × RuntimeResult (Unit {0})
  unfolding store_result prepare_and_bind
  bind_discovered_device d rt =
      if not rt.running
      then (rt, err RuntimeError.not_running)
      else if is_bound rt d.id
      then (rt, ok tt)
      else store_result d.id (prepare_and_bind rt d) rt

  unfoldable pub bind_found :
      DeviceId → Option DeviceDescriptor → Runtime C B → Runtime C B × RuntimeResult (Unit {0})
  unfolding bind_discovered_device
  bind_found device_id none rt = (rt, err (RuntimeError.unknown_device device_id))
  bind_found device_id (some d) rt = bind_discovered_device d rt

  unfoldable pub bind_device_by_id : DeviceId → Runtime C B → Runtime C B × RuntimeResult (Unit {0})
  unfolding bind_found get
  bind_device_by_id device_id rt =
      if not rt.running
      then (rt, err RuntimeError.not_running)
      else if is_bound rt device_id
      then (rt, ok tt)
      else bind_found device_id (get rt.inventory device_id) rt

  unfoldable pub bind : DeviceId → Runtime C B → Runtime C B × RuntimeResult (Unit {0})
  unfolding bind_device_by_id complete_operation
  bind device_id rt =
      let (bound, result) = bind_device_by_id device_id rt in
      let done = completed env device_id RuntimeFailureOperation.bind result bound in
      (
        if is_ok result
            then record done { desired_bindings = insert device_id tt done.desired_bindings }
            else done,
        result,
      )

  -- `unbind` and `unbind_detached`, with the devices that it closes.
  unfoldable pub unbind : DeviceId → Runtime C B → Runtime C B × Bool × List (DetachedBoundDevice B)
  unfolding take_bound_device
  unbind device_id rt =
      let (taken, detached) = take_bound_device device_id rt in
      (
        record taken {
          desired_bindings = remove device_id taken.desired_bindings;
          states = remove device_id taken.states;
          failures = remove device_id taken.failures;
        },
        is_bound rt device_id
            || wants_binding rt device_id
            || is_some (lookup device_id rt.states)
            || has_failure rt device_id,
        close_detached_bindings env detached,
      )

  refreshed :
      DeviceId
      → RuntimeResult (Option DeviceStateSnapshot)
      → Runtime C B
      → Runtime C B × RuntimeResult (Option DeviceStateSnapshot)
  unfolding cache_state
  refreshed device_id (err e) rt = (rt, err e)
  refreshed device_id (ok snapshot) rt =
      let cached = cache_option env snapshot rt in (cached, ok (lookup device_id cached.states))

  refresh_bound :
      DeviceId → Option B → Runtime C B → Runtime C B × RuntimeResult (Option DeviceStateSnapshot)
  unfolding refreshed complete_operation
  refresh_bound device_id none rt =
      (record rt { failures = remove device_id rt.failures }, ok (lookup device_id rt.states))
  refresh_bound device_id (some bound) rt =
      let (left, answer) = env.device.state bound in
      let snapshot = map_err (RuntimeError.driver device_id) answer in
      refreshed device_id snapshot (
        completed env device_id RuntimeFailureOperation.refresh_state snapshot
          (record rt { bindings = insert device_id left rt.bindings }))

  -- `refresh_state_shared`; `refresh_state` is its result.
  unfoldable pub refresh_state :
      DeviceId → Runtime C B → Runtime C B × RuntimeResult (Option DeviceStateSnapshot)
  unfolding refresh_bound
  refresh_state device_id rt =
      if not rt.running
      then (rt, err RuntimeError.not_running)
      else refresh_bound device_id (lookup device_id rt.bindings) rt

  -- `shutdown` with `shutdown_detached`, and the devices that it closes.
  unfoldable pub shutdown : Runtime C B → Runtime C B × List (DetachedBoundDevice B)
  unfolding notify_changed
  shutdown rt = (
    record rt {
      running = false;
      bindings = [];
      probe_inventory = [];
      desired_bindings = [];
      states = [];
      failures = [];
      log = record rt.log { event_notifier = notify_changed rt.log.event_notifier };
    },
    close_detached_bindings env rt.bindings,
  )
