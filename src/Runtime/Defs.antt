-- ===== src/Runtime/Defs.antt =====
-- crates/lemnos-runtime/src/runtime/mod.rs and lifecycle.rs: the runtime's state. `C` is what `bind`
-- reads of the backends, `B` a bound device. An `Arc<Mutex<..>>` is the device that it holds: the
-- synchronous runtime alone locks it, and writes back the device that a call leaves.
use lemnos.Prelude.{
  Bool, Map, Option, [], err, if◌then◌else◌, insert, is_some, lookup, map_err, none, ok, some,
  text_ord, true, ◌>>=◌,
}
use lemnos.Core.Ids.{DeviceId}
use lemnos.Core.Interface.{interface_ord}
use lemnos.Core.State.{DeviceStateSnapshot}
use lemnos.Discovery.Inventory.{InventorySnapshot, empty_snapshot}
use lemnos.Discovery.Report.{IdSet, ProbeInventoryIndex}
use lemnos.Registry.Defs.{DriverRegistry, register}
use lemnos.Runtime.Bytes.{Sizes}
use lemnos.Runtime.Diagnostics.{
  FailureEnv, Failures, RuntimeError, RuntimeFailureOperation, RuntimeResult, complete_operation,
}
use lemnos.Runtime.EventLog.{
  EventLog, RuntimeConfig, empty_log, enforce_event_retention, record_state,
}
use lemnos.Sdk.Driver.{BoundDevice, Driver}

pub record Runtime (C B : Type 0) : Type 0 where
  pub config : RuntimeConfig
  pub running : Bool
  pub inventory : InventorySnapshot
  pub registry : DriverRegistry C B
  pub states : Map DeviceId DeviceStateSnapshot
  pub bindings : Map DeviceId B
  pub probe_inventory : ProbeInventoryIndex
  pub desired_bindings : IdSet
  pub failures : Failures
  pub backends : C
  pub log : EventLog

-- What the runtime takes from outside: the methods of bound devices, the sizes that the compiler
-- gives types, and what its failure records read.
pub record Env (B : Type 0) : Type 0 where
  pub device : BoundDevice B
  pub sizes : Sizes
  pub failure : FailureEnv

module _ {C B : Type 0} where
  -- `Runtime::with_config`, with the backends that it starts with.
  unfoldable pub with_config : RuntimeConfig → C → Runtime C B
  with_config config backends = record {
    config = config;
    running = true;
    inventory = empty_snapshot;
    registry = record { drivers = []; preferred_drivers = [] };
    states = [];
    bindings = [];
    probe_inventory = [];
    desired_bindings = [];
    failures = [];
    backends = backends;
    log = empty_log;
  }

  unfoldable pub set_config : Env B → RuntimeConfig → Runtime C B → Runtime C B
  unfolding enforce_event_retention
  set_config env config rt = record rt {
    config = config;
    log = enforce_event_retention env.sizes config rt.log;
  }

  abbrev pub start : Runtime C B → Runtime C B
  start rt = record rt { running = true }

  unfoldable pub ensure_running : Runtime C B → RuntimeResult (Unit {0})
  ensure_running rt = if rt.running then ok tt else err RuntimeError.not_running

  -- `register_driver`, with the result that `?` returns.
  unfoldable pub register_driver : Runtime C B → Driver C B → RuntimeResult (Runtime C B)
  unfolding register
  register_driver rt driver = do
    registry ← map_err RuntimeError.registry (register rt.registry driver)
    ok (record rt { registry = registry })

  -- `state`, `is_bound`, `wants_binding` and `has_failure`.
  abbrev pub state_of : Runtime C B → DeviceId → Option DeviceStateSnapshot
  state_of rt device_id = lookup device_id rt.states

  abbrev pub is_bound : Runtime C B → DeviceId → Bool
  is_bound rt device_id = is_some (lookup device_id rt.bindings)

  abbrev pub wants_binding : Runtime C B → DeviceId → Bool
  wants_binding rt device_id = is_some (lookup device_id rt.desired_bindings)

  abbrev pub has_failure : Runtime C B → DeviceId → Bool
  has_failure rt device_id = is_some (lookup device_id rt.failures)

  -- `cache_state`.
  unfoldable pub cache_state : Env B → DeviceStateSnapshot → Runtime C B → Runtime C B
  unfolding record_state
  cache_state env state rt = record rt {
    log = record_state env.sizes rt.config state rt.log;
    states = insert state.device_id state rt.states;
  }

  abbrev pub cache_option : Env B → Option DeviceStateSnapshot → Runtime C B → Runtime C B
  cache_option env none rt = rt
  cache_option env (some state) rt = cache_state env state rt

  -- `complete_operation` of an operation of the runtime.
  abbrev pub completed :
      {A : Type 0}
      → Env B
      → DeviceId
      → RuntimeFailureOperation
      → RuntimeResult A
      → Runtime C B
      → Runtime C B
  completed env device_id operation result rt = record rt {
    failures = complete_operation env.failure device_id operation result rt.failures;
  }
