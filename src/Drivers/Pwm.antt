-- ===== src/Drivers/Pwm.antt =====
-- crates/lemnos-drivers-pwm/src/{bound,stats,values,driver}.rs.
use lemnos.Prelude.Calls.{◌>>=◌, ◌>>◌, done, gets}
use lemnos.Prelude.{
  Bool, Option, Text, [], add_u64, codes, decimal, false, if◌then◌else◌, none, some, text_ord, true,
  ℕ, ◌++◌, ◌==◌, ◌∷◌,
}
use lemnos.Bus.Session.{SessionAccess}
use lemnos.Bus.Traits.{PwmSession}
use lemnos.Core.Descriptor.{DeviceDescriptor}
use lemnos.Core.Interface.{InterfaceKind, interface_ord}
use lemnos.Core.Kinds.{DeviceAddress, DeviceKind}
use lemnos.Core.Request.Kinds.{
  InteractionRequest, PwmConfiguration, PwmPolarity, PwmRequest, StandardRequest,
}
use lemnos.Core.Request.Responses.{InteractionResponse, PwmResponse, StandardResponse}
use lemnos.Core.State.{
  DeviceLifecycleState, DeviceStateSnapshot, OperationRecord, new_state, with_config_entry,
  with_lifecycle, with_telemetry,
}
use lemnos.Core.Value.{Value}
use lemnos.Runtime.Requests.{request}
use lemnos.Sdk.Bind.{SessionDriver}
use lemnos.Sdk.Operation.{succeeded_operation_with_output, with_last_operation}
use lemnos.Sdk.Session.{DeviceCall, SessionDevice, execute_standard, on_session, record_stats}

pub record PwmStats : Type 0 where
  pub enable_ops : ℕ
  pub configure_ops : ℕ
  pub set_period_ops : ℕ
  pub set_duty_cycle_ops : ℕ
  pub last_operation : Option OperationRecord

abbrev pub pwm_stats : PwmStats
pwm_stats = record {
  enable_ops = 0;
  configure_ops = 0;
  set_period_ops = 0;
  set_duty_cycle_ops = 0;
  last_operation = none;
}

abbrev pub display_bool : Bool → Text
display_bool true = codes "true"
display_bool false = codes "false"

-- The methods of `PwmStats`.
unfoldable pub record_enable : Bool → Text → PwmStats → PwmStats
record_enable enabled summary s = record s {
  enable_ops = add_u64 s.enable_ops 1;
  last_operation =
      some (succeeded_operation_with_output (codes "pwm.enable") summary (Value.bool enabled));
}

unfoldable pub record_configure_pwm : ℕ → ℕ → Text → PwmStats → PwmStats
record_configure_pwm period_ns duty_cycle_ns summary s = record s {
  configure_ops = add_u64 s.configure_ops 1;
  last_operation = some (
      succeeded_operation_with_output (codes "pwm.configure") summary
        (Value.string (decimal period_ns ++ (codes ":" ++ decimal duty_cycle_ns))));
}

unfoldable pub record_set_period : ℕ → Text → PwmStats → PwmStats
record_set_period period_ns summary s = record s {
  set_period_ops = add_u64 s.set_period_ops 1;
  last_operation =
      some (succeeded_operation_with_output (codes "pwm.set_period") summary (Value.u64 period_ns));
}

unfoldable pub record_set_duty_cycle : ℕ → Text → PwmStats → PwmStats
record_set_duty_cycle duty_cycle_ns summary s = record s {
  set_duty_cycle_ops = add_u64 s.set_duty_cycle_ops 1;
  last_operation = some (
      succeeded_operation_with_output (codes "pwm.set_duty_cycle") summary
        (Value.u64 duty_cycle_ns));
}

abbrev pub polarity_name : PwmPolarity → Text
polarity_name PwmPolarity.normal = codes "normal"
polarity_name PwmPolarity.inversed = codes "inversed"

abbrev pub PwmBoundDevice : Type 0 → Type 0
PwmBoundDevice S = SessionDevice S PwmStats

-- The floats of the telemetry: the ratio of two `u64`s, and the product of a ratio with 100.
pub record Ratios : Type 0 where
  pub ratio : ℕ → ℕ → ℕ
  pub zero_ratio : ℕ
  pub percent : ℕ → ℕ

abbrev duty_cycle_ratio : Ratios → PwmConfiguration → ℕ
duty_cycle_ratio floats c =
    if c.period_ns == 0 then floats.zero_ratio else floats.ratio c.duty_cycle_ns c.period_ns

with_channel : Option DeviceAddress → DeviceStateSnapshot → DeviceStateSnapshot
unfolding with_config_entry
with_channel (some (DeviceAddress.pwm_channel chip_name channel)) state =
    with_config_entry (codes "channel") (Value.u64 channel)
      (with_config_entry (codes "chip_name") (Value.string chip_name) state)
with_channel _ state = state

-- What `snapshot_state` builds from the configuration.
unfoldable pub pwm_state :
    Ratios → DeviceDescriptor → PwmStats → PwmConfiguration → DeviceStateSnapshot
unfolding new_state with_config_entry with_telemetry with_channel
pwm_state floats device stats c =
    with_telemetry (codes "duty_cycle_percent")
      (Value.f64 (floats.percent (duty_cycle_ratio floats c)))
      (with_telemetry (codes "duty_cycle_ratio") (Value.f64 (duty_cycle_ratio floats c)) (
        with_channel device.address (
          with_last_operation stats.last_operation (
            with_config_entry (codes "polarity") (Value.string (polarity_name c.polarity)) (
              with_telemetry (codes "set_duty_cycle_ops") (Value.u64 stats.set_duty_cycle_ops) (
                with_telemetry (codes "set_period_ops") (Value.u64 stats.set_period_ops) (
                  with_telemetry (codes "configure_ops") (Value.u64 stats.configure_ops) (
                    with_telemetry (codes "enable_ops") (Value.u64 stats.enable_ops) (
                      with_config_entry (codes "enabled") (Value.bool c.enabled) (
                        with_config_entry (codes "duty_cycle_ns") (Value.u64 c.duty_cycle_ns) (
                          with_config_entry (codes "period_ns") (Value.u64 c.period_ns) (
                            with_lifecycle DeviceLifecycleState.idle
                              (new_state device.id)))))))))))))

module _ {S : Type 0} (session : PwmSession S) where
  -- `snapshot_state`, and the method `state` that returns it.
  unfoldable pub pwm_snapshot_state : Ratios → DeviceCall S PwmStats (Option DeviceStateSnapshot)
  unfolding on_session pwm_state
  pwm_snapshot_state floats = do
    configuration ← on_session session.bus session.configuration
    gets λ b. some (pwm_state floats (session.bus.device b.session) b.stats configuration)

  -- The `match` of `execute` on a PWM request.
  unfoldable pub pwm_request : PwmRequest → DeviceCall S PwmStats PwmResponse
  unfolding on_session record_enable record_configure_pwm record_set_period record_set_duty_cycle
  pwm_request (PwmRequest.enable enabled) = do
    on_session session.bus (session.set_enabled enabled)
    record_stats (record_enable enabled (codes "set PWM enabled to " ++ display_bool enabled))
    done PwmResponse.applied
  pwm_request (PwmRequest.configure c) = do
    on_session session.bus (session.configure c)
    record_stats (record_configure_pwm c.period_ns c.duty_cycle_ns (codes "configured PWM channel"))
    done PwmResponse.applied
  pwm_request (PwmRequest.set_period period_ns) = do
    on_session session.bus (session.set_period_ns period_ns)
    record_stats (
        record_set_period period_ns
          (codes "set PWM period to " ++ (decimal period_ns ++ codes " ns")))
    done PwmResponse.applied
  pwm_request (PwmRequest.set_duty_cycle duty_cycle_ns) = do
    on_session session.bus (session.set_duty_cycle_ns duty_cycle_ns)
    record_stats (
        record_set_duty_cycle duty_cycle_ns
          (codes "set PWM duty cycle to " ++ (decimal duty_cycle_ns ++ codes " ns")))
    done PwmResponse.applied
  pwm_request PwmRequest.get_configuration = do
    configuration ← on_session session.bus session.configuration
    done (PwmResponse.configuration configuration)

  unfoldable pub pwm_handle : InteractionRequest → Option (DeviceCall S PwmStats StandardResponse)
  unfolding pwm_request
  pwm_handle (InteractionRequest.standard (StandardRequest.pwm request)) =
      some (pwm_request request >>= λ r. done (StandardResponse.pwm r))
  pwm_handle _ = none

  -- `PwmBoundDevice::execute`.
  unfoldable pub pwm_execute : InteractionRequest → DeviceCall S PwmStats InteractionResponse
  unfolding execute_standard pwm_handle
  pwm_execute request = execute_standard session.bus pwm_handle request

-- `PwmDriver`.
abbrev pub pwm_driver : SessionDriver PwmStats
pwm_driver = record {
  id = codes "lemnos.pwm.generic";
  interface = InterfaceKind.pwm;
  kinds = DeviceKind.pwm_channel ∷ [];
  expected = codes "pwm-channel device";
  access = SessionAccess.shared;
  stats = pwm_stats;
}
