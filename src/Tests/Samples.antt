-- ===== src/Tests/Samples.antt =====
-- Devices, drivers and a runtime that the tests share.
use lemnos.Prelude.{List, Text, [], codes, none, ok, some, suc, text_ord, true, ℕ, ◌∷◌}
use lemnos.Core.Descriptor.{DeviceDescriptor, bare_descriptor}
use lemnos.Core.Event.{InventoryEvent, LemnosEvent, StateEvent}
use lemnos.Core.Ids.{DeviceId}
use lemnos.Core.Interface.{InterfaceKind, interface_ord}
use lemnos.Core.Kinds.{DeviceKind}
use lemnos.Core.Request.Kinds.{DeviceRequest, GpioRequest, InteractionRequest, StandardRequest}
use lemnos.Core.Request.Responses.{GpioResponse, InteractionResponse, StandardResponse}
use lemnos.Core.State.{Availability, DeviceHealth, DeviceLifecycleState, DeviceStateSnapshot}
use lemnos.Core.Value.{ValueMap}
use lemnos.Discovery.Inventory.{InventorySnapshot}
use lemnos.Discovery.Run.{DiscoveryContext, DiscoveryProbe, Host, SelectedProbe}
use lemnos.Drivers.UsbStats.{number_ord}
use lemnos.Manifest.Driver.{DriverManifest, DriverPriority}
use lemnos.Manifest.Rules.{MatchCondition, MatchRule}
use lemnos.Registry.Defs.{DriverRegistry}
use lemnos.Runtime.Bytes.{Sizes}
use lemnos.Runtime.Defs.{Env, Runtime}
use lemnos.Runtime.Diagnostics.{FailureEnv}
use lemnos.Runtime.EventLog.{EventLog, RuntimeConfig, default_config, empty_log}
use lemnos.Sdk.Driver.{Driver}
use lemnos.Sdk.Matching.{DriverMatch, DriverMatchLevel}

abbrev pub chip_id : DeviceId
chip_id = codes "chip0"

abbrev pub chip : DeviceDescriptor
chip = record (bare_descriptor chip_id InterfaceKind.gpio) { kind = DeviceKind.gpio_chip }

abbrev pub port : DeviceDescriptor
port = record (bare_descriptor (codes "port1") InterfaceKind.uart) { kind = DeviceKind.uart_port }

abbrev pub chip_rule : MatchRule
chip_rule = record {
  description = none;
  score = 40;
  all_of = MatchCondition.kind DeviceKind.gpio_chip ∷ [];
  any_of = [];
  none_of = [];
}

abbrev bare_manifest : Text → DriverPriority → List MatchRule → DriverManifest
bare_manifest id priority rules = record {
  id = id;
  version = record { major = 0; minor = 1; patch = 0 };
  summary = codes "driver";
  description = none;
  interfaces = InterfaceKind.gpio ∷ [];
  kinds = [];
  priority = priority;
  standard_interactions = [];
  custom_interactions = [];
  rules = rules;
  tags = [];
}

abbrev pub chip_manifest : DriverManifest
chip_manifest = bare_manifest (codes "gpio") DriverPriority.preferred (chip_rule ∷ [])

abbrev pub matched : ℕ → DriverMatch
matched score = record {
  level = DriverMatchLevel.generic;
  score = score;
  reasons = [];
  matched_rule = none;
}

-- A device counts the calls that it has seen.
abbrev pub sample_driver : Text → ℕ → Driver (Unit {0}) ℕ
sample_driver id score = record {
  id = id;
  interface = InterfaceKind.gpio;
  manifest = bare_manifest id DriverPriority.generic [];
  matches = λ _. matched score;
  bind = λ _ _. ok 0;
}

abbrev pub registry_of : List (Driver (Unit {0}) ℕ) → DriverRegistry (Unit {0}) ℕ
registry_of drivers = record { drivers = drivers; preferred_drivers = [] }

abbrev pub sample_sizes : Sizes
sample_sizes = record {
  device_event = 8;
  state_event = 8;
  device_descriptor = 8;
  capability = 8;
  link = 8;
  string = 8;
  issue = 8;
  value = 8;
}

abbrev pub bare_state : DeviceStateSnapshot
bare_state = record {
  device_id = chip_id;
  lifecycle = DeviceLifecycleState.bound;
  health = DeviceHealth.healthy;
  availability = Availability.present;
  observed_at = none;
  updated_at = none;
  issues = [];
  realized_config = ValueMap.empty;
  telemetry = ValueMap.empty;
  last_operation = none;
}

abbrev pub answer : InteractionResponse
answer = InteractionResponse.standard (StandardResponse.gpio GpioResponse.applied)

abbrev pub failure_env : FailureEnv
failure_env = record { to_string = λ _. codes "failed"; current_timestamp_ms = λ _. some 5 }

abbrev pub env : Env ℕ
env = record {
  device = record {
    driver_id = λ _. codes "gpio";
    close = λ b. (suc b, ok tt);
    state = λ b. (suc b, ok (some bare_state));
    execute = λ b _. (suc b, ok answer);
  };
  sizes = sample_sizes;
  failure = failure_env;
}

abbrev pub snapshot_of : List DeviceDescriptor → InventorySnapshot
snapshot_of devices = record { observed_at = some 3; devices = devices }

abbrev pub sample_runtime : Runtime (Unit {0}) ℕ
sample_runtime = record {
  config = default_config;
  running = true;
  inventory = snapshot_of (chip ∷ []);
  registry = registry_of (sample_driver (codes "gpio") 100 ∷ []);
  states = [];
  bindings = [];
  probe_inventory = [];
  desired_bindings = [];
  failures = [];
  backends = tt;
  log = empty_log;
}

abbrev pub read_request : DeviceRequest
read_request = record {
  device_id = chip_id;
  interaction = InteractionRequest.standard (StandardRequest.gpio GpioRequest.read);
}

abbrev pub context : DiscoveryContext
context = record {
  observed_at = some 3;
  requested_interfaces = [];
  inline_probe_threshold = some 1;
  max_parallel_probe_workers = some 2;
  properties = ValueMap.empty;
}

abbrev pub sample_probe : Text → List DeviceDescriptor → DiscoveryProbe
sample_probe name devices = record {
  name = name;
  interfaces = InterfaceKind.gpio ∷ [];
  discover = λ _. ok (record { devices = devices; notes = [] });
}

abbrev pub selected : Text → SelectedProbe
selected name = record {
  probe = sample_probe name (chip ∷ []);
  interfaces = InterfaceKind.gpio ∷ [];
  refreshed_interfaces = InterfaceKind.gpio ∷ [];
}

abbrev pub host : Host
host = record { to_string = λ _. codes "failed"; available_parallelism = 8 }

abbrev pub small_config : RuntimeConfig
small_config = record default_config { max_retained_events = 1; max_retained_event_bytes = some 20 }

abbrev pub state_event : LemnosEvent
state_event = LemnosEvent.state (StateEvent.snapshot bare_state)

abbrev pub removed_event : LemnosEvent
removed_event = LemnosEvent.inventory (InventoryEvent.removed chip_id)

abbrev pub log : EventLog
log = record {
  event_base_index = 1;
  retained_event_bytes = 26;
  events = removed_event ∷ state_event ∷ [];
  event_notifier = record { tail_index = 3; version = 2 };
}

abbrev pub history : List LemnosEvent
history = removed_event ∷ removed_event ∷ state_event ∷ []
