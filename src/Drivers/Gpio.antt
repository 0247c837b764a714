-- ===== src/Drivers/Gpio.antt =====
-- crates/lemnos-drivers-gpio/src/{bound,stats,values,driver}.rs.
use lemnos.Prelude.Calls.{◌>>=◌, ◌>>◌, done, gets}
use lemnos.Prelude.{Option, Text, [], add_u64, codes, none, some, text_ord, ℕ, ◌++◌, ◌∷◌}
use lemnos.Bus.Session.{SessionAccess}
use lemnos.Bus.Traits.{GpioSession}
use lemnos.Core.Ids.{DeviceId}
use lemnos.Core.Interface.{InterfaceKind, interface_ord}
use lemnos.Core.Kinds.{DeviceKind}
use lemnos.Core.Request.Kinds.{
  GpioBias, GpioDirection, GpioDrive, GpioEdge, GpioLevel, GpioLineConfiguration, GpioRequest,
  InteractionRequest, StandardRequest,
}
use lemnos.Core.Request.Responses.{GpioResponse, InteractionResponse, StandardResponse}
use lemnos.Core.State.{
  DeviceLifecycleState, DeviceStateSnapshot, OperationRecord, new_state, with_config_entry,
  with_lifecycle, with_telemetry,
}
use lemnos.Core.Value.{Value}
use lemnos.Runtime.Requests.{request}
use lemnos.Sdk.Bind.{SessionDriver}
use lemnos.Sdk.Operation.{succeeded_operation, succeeded_operation_with_output, with_last_operation}
use lemnos.Sdk.Session.{DeviceCall, SessionDevice, execute_standard, on_session, record_stats}

pub record GpioStats : Type 0 where
  pub read_ops : ℕ
  pub write_ops : ℕ
  pub configure_ops : ℕ
  pub last_operation : Option OperationRecord

abbrev pub gpio_stats : GpioStats
gpio_stats = record { read_ops = 0; write_ops = 0; configure_ops = 0; last_operation = none }

-- `GpioStats::record_read`, `record_write` and `record_configure`.
unfoldable pub record_read : Text → Text → GpioStats → GpioStats
record_read summary level s = record s {
  read_ops = add_u64 s.read_ops 1;
  last_operation =
      some (succeeded_operation_with_output (codes "gpio.read") summary (Value.string level));
}

unfoldable pub record_write : Text → Text → GpioStats → GpioStats
record_write summary level s = record s {
  write_ops = add_u64 s.write_ops 1;
  last_operation =
      some (succeeded_operation_with_output (codes "gpio.write") summary (Value.string level));
}

unfoldable pub record_configure : Text → GpioStats → GpioStats
record_configure summary s = record s {
  configure_ops = add_u64 s.configure_ops 1;
  last_operation = some (succeeded_operation (codes "gpio.configure") summary);
}

-- The names of values.rs; `level_label` of bound.rs has those of `level_name`.
abbrev pub direction_name : GpioDirection → Text
direction_name GpioDirection.input = codes "input"
direction_name GpioDirection.output = codes "output"

abbrev pub level_name : GpioLevel → Text
level_name GpioLevel.low = codes "low"
level_name GpioLevel.high = codes "high"

abbrev pub bias_name : GpioBias → Text
bias_name GpioBias.disabled = codes "disabled"
bias_name GpioBias.pull_up = codes "pull-up"
bias_name GpioBias.pull_down = codes "pull-down"

abbrev pub drive_name : GpioDrive → Text
drive_name GpioDrive.push_pull = codes "push-pull"
drive_name GpioDrive.open_drain = codes "open-drain"
drive_name GpioDrive.open_source = codes "open-source"

abbrev pub edge_name : GpioEdge → Text
edge_name GpioEdge.rising = codes "rising"
edge_name GpioEdge.falling = codes "falling"
edge_name GpioEdge.both = codes "both"

-- `if let Some(v) = field { state = state.with_config(key, name(v)) }`.
unfoldable pub config_if_some :
    {A : Type 0} → Text → (A → Value) → Option A → DeviceStateSnapshot → DeviceStateSnapshot
unfolding with_config_entry
config_if_some key value none state = state
config_if_some key value (some a) state = with_config_entry key (value a) state

abbrev pub GpioBoundDevice : Type 0 → Type 0
GpioBoundDevice S = SessionDevice S GpioStats

-- What `snapshot_state` builds from its two answers.
unfoldable pub gpio_state :
    DeviceId → GpioStats → GpioLineConfiguration → GpioLevel → DeviceStateSnapshot
unfolding new_state with_config_entry with_telemetry config_if_some
gpio_state id stats c level =
    config_if_some (codes "initial_level") (λ l. Value.string (level_name l)) c.initial_level
      (config_if_some (codes "debounce_us") Value.u64 c.debounce_us (
        config_if_some (codes "edge") (λ e. Value.string (edge_name e)) c.edge
          (config_if_some (codes "drive") (λ d. Value.string (drive_name d)) c.drive
            (config_if_some (codes "bias") (λ b. Value.string (bias_name b)) c.bias
              (with_last_operation stats.last_operation (
                with_telemetry (codes "level") (Value.string (level_name level)) (
                  with_telemetry (codes "configure_ops") (Value.u64 stats.configure_ops) (
                    with_telemetry (codes "write_ops") (Value.u64 stats.write_ops) (
                      with_telemetry (codes "read_ops") (Value.u64 stats.read_ops) (
                        with_config_entry (codes "active_low") (Value.bool c.active_low) (
                          with_config_entry (codes "direction")
                            (Value.string (direction_name c.direction))
                            (with_lifecycle DeviceLifecycleState.idle (new_state id)))))))))))))

module _ {S : Type 0} (session : GpioSession S) where
  -- `snapshot_state`, and the method `state` that returns it.
  unfoldable pub gpio_snapshot_state : DeviceCall S GpioStats (Option DeviceStateSnapshot)
  unfolding on_session gpio_state
  gpio_snapshot_state = do
    configuration ← on_session session.bus session.configuration
    level ← on_session session.bus session.read_level
    gets λ b. some (gpio_state (session.bus.device b.session).id b.stats configuration level)

  -- The `match` of `execute` on a GPIO request.
  unfoldable pub gpio_request : GpioRequest → DeviceCall S GpioStats GpioResponse
  unfolding on_session record_read record_write record_configure
  gpio_request GpioRequest.read = do
    level ← on_session session.bus session.read_level
    record_stats (record_read (codes "read GPIO level " ++ level_name level) (level_name level))
    done (GpioResponse.level level)
  gpio_request (GpioRequest.write level) = do
    on_session session.bus (session.write_level level)
    record_stats (record_write (codes "wrote GPIO level " ++ level_name level) (level_name level))
    done GpioResponse.applied
  gpio_request (GpioRequest.configure configuration) = do
    on_session session.bus (session.configure_line configuration)
    record_stats (record_configure (codes "configured GPIO line"))
    done GpioResponse.applied
  gpio_request GpioRequest.get_configuration = do
    configuration ← on_session session.bus session.configuration
    done (GpioResponse.configuration configuration)

  unfoldable pub gpio_handle : InteractionRequest → Option (DeviceCall S GpioStats StandardResponse)
  unfolding gpio_request
  gpio_handle (InteractionRequest.standard (StandardRequest.gpio request)) =
      some (gpio_request request >>= λ r. done (StandardResponse.gpio r))
  gpio_handle _ = none

  -- `GpioBoundDevice::execute`.
  unfoldable pub gpio_execute : InteractionRequest → DeviceCall S GpioStats InteractionResponse
  unfolding execute_standard gpio_handle
  gpio_execute request = execute_standard session.bus gpio_handle request

-- `GpioDriver`.
abbrev pub gpio_driver : SessionDriver GpioStats
gpio_driver = record {
  id = codes "lemnos.gpio.generic";
  interface = InterfaceKind.gpio;
  kinds = DeviceKind.gpio_line ∷ [];
  expected = codes "gpio-line device";
  access = SessionAccess.shared;
  stats = gpio_stats;
}
