-- ===== src/Mock/Pwm.antt =====
-- crates/lemnos-mock/src/pwm.rs: the sessions on simulated channels.
use lemnos.Prelude.Calls.{◌>>=◌, ◌>>◌, done, modify}
use lemnos.Prelude.{Bool, Text, codes, insert, leb, not, text_ord, ℕ, ◌==◌}
use lemnos.Bus.Traits.{PwmSession}
use lemnos.Core.Interface.{interface_ord}
use lemnos.Core.Request.Kinds.{PwmConfiguration}
use lemnos.Drivers.UsbStats.{number_ord}
use lemnos.Mock.Hardware.{
  Clock, MockCall, MockPwmChannelState, MockWorld, device_id, entry_of, misconfigured, mock_bus,
  require, require_write, run_call, take_injected_error,
}

abbrev pwm_channel : MockCall MockPwmChannelState
pwm_channel = entry_of (λ hw. hw.pwm_channels)

unfoldable pub set_channel : MockPwmChannelState → PwmConfiguration → MockCall (Unit {0})
set_channel channel c = modify λ w. record w {
  hardware = record w.hardware {
    pwm_channels =
        insert (device_id w) (record channel { configuration = c }) w.hardware.pwm_channels;
  };
}

abbrev pub zero_period : MockCall (Unit {0})
zero_period = misconfigured (codes "PWM period must be greater than zero")

abbrev pub long_duty : MockCall (Unit {0})
long_duty = misconfigured (codes "PWM duty cycle must not exceed the period")

-- `validate_configuration`.
unfoldable pub validate_pwm_configuration : PwmConfiguration → MockCall (Unit {0})
validate_pwm_configuration c = do
  require (not (c.period_ns == 0)) zero_period
  require (leb c.duty_cycle_ns c.period_ns) long_duty

-- What the methods do with the channel that they find.
unfoldable pub enable_channel : Bool → MockPwmChannelState → MockCall (Unit {0})
unfolding set_channel
enable_channel enabled channel =
    set_channel channel (record channel.configuration { enabled = enabled })

unfoldable pub period_channel : ℕ → MockPwmChannelState → MockCall (Unit {0})
unfolding set_channel
period_channel period_ns channel = do
  require (leb channel.configuration.duty_cycle_ns period_ns) long_duty
  set_channel channel (record channel.configuration { period_ns = period_ns })

unfoldable pub duty_channel : ℕ → MockPwmChannelState → MockCall (Unit {0})
unfolding set_channel
duty_channel duty_cycle_ns channel = do
  require (leb duty_cycle_ns channel.configuration.period_ns) long_duty
  set_channel channel (record channel.configuration { duty_cycle_ns = duty_cycle_ns })

unfoldable pub configure_channel : PwmConfiguration → MockPwmChannelState → MockCall (Unit {0})
unfolding set_channel
configure_channel c channel = set_channel channel c

-- What `run_call` runs: a queued error, or the channel and what is done with it.
unfoldable pub on_channel : {A : Type 0} → Text → (MockPwmChannelState → MockCall A) → MockCall A
unfolding take_injected_error
on_channel operation next = do take_injected_error operation; channel ← pwm_channel; next channel

-- The methods of `MockPwmSession`.
unfoldable pub mock_set_enabled : Clock → Bool → MockCall (Unit {0})
unfolding run_call on_channel enable_channel
mock_set_enabled clock enabled = do
  require_write (codes "pwm.enable") (codes "session access is read-only")
  run_call clock (on_channel (codes "pwm.enable") (enable_channel enabled))

unfoldable pub mock_set_period_ns : Clock → ℕ → MockCall (Unit {0})
unfolding run_call on_channel period_channel
mock_set_period_ns clock period_ns = do
  require_write (codes "pwm.set_period") (codes "session access is read-only")
  require (not (period_ns == 0)) zero_period
  run_call clock (on_channel (codes "pwm.set_period") (period_channel period_ns))

unfoldable pub mock_set_duty_cycle_ns : Clock → ℕ → MockCall (Unit {0})
unfolding run_call on_channel duty_channel
mock_set_duty_cycle_ns clock duty_cycle_ns = do
  require_write (codes "pwm.set_duty_cycle") (codes "session access is read-only")
  run_call clock (on_channel (codes "pwm.set_duty_cycle") (duty_channel duty_cycle_ns))

unfoldable pub mock_configure_pwm : Clock → PwmConfiguration → MockCall (Unit {0})
unfolding run_call on_channel configure_channel validate_pwm_configuration
mock_configure_pwm clock c = do
  require_write (codes "pwm.configure")
      (codes "session access does not allow configuration changes")
  validate_pwm_configuration c
  run_call clock (on_channel (codes "pwm.configure") (configure_channel c))

unfoldable pub mock_pwm_configuration : MockCall PwmConfiguration
unfolding on_channel
mock_pwm_configuration =
    on_channel (codes "pwm.get_configuration") (λ channel. done channel.configuration)

unfoldable pub mock_pwm_session : Clock → PwmSession MockWorld
unfolding mock_bus mock_set_enabled mock_set_period_ns mock_set_duty_cycle_ns mock_configure_pwm
    mock_pwm_configuration
mock_pwm_session clock = record {
  bus = mock_bus clock;
  set_enabled = mock_set_enabled clock;
  set_period_ns = mock_set_period_ns clock;
  set_duty_cycle_ns = mock_set_duty_cycle_ns clock;
  configure = mock_configure_pwm clock;
  configuration = mock_pwm_configuration;
}
