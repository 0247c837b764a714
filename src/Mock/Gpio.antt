-- ===== src/Mock/Gpio.antt =====
-- crates/lemnos-mock/src/gpio.rs: the sessions on simulated lines.
use lemnos.Prelude.Calls.{◌>>=◌, ◌>>◌, done, modify}
use lemnos.Prelude.{
  Bool, Option, codes, false, insert, is_some, none, not, some, text_ord, true, ◌||◌,
}
use lemnos.Bus.Traits.{GpioSession}
use lemnos.Core.Interface.{interface_ord}
use lemnos.Core.Request.Kinds.{GpioDirection, GpioLevel, GpioLineConfiguration}
use lemnos.Drivers.UsbStats.{number_ord}
use lemnos.Mock.Hardware.{
  Clock, MockCall, MockGpioLineState, MockWorld, denied, device_id, entry_of, misconfigured,
  mock_bus, require, run_call, take_injected_error,
}

abbrev pub is_output : GpioDirection → Bool
is_output GpioDirection.input = false
is_output GpioDirection.output = true

abbrev pub level_or : Option GpioLevel → GpioLevel → GpioLevel
level_or none level = level
level_or (some l) level = l

-- `MockGpioLine::with_level` and `with_configuration`.
abbrev pub with_level : GpioLevel → MockGpioLineState → MockGpioLineState
with_level level line = record line { level = level }

unfoldable pub with_configuration : GpioLineConfiguration → MockGpioLineState → MockGpioLineState
with_configuration c line = record line {
  configuration = c;
  level = level_or c.initial_level line.level;
}

abbrev pub gpio_line : MockCall MockGpioLineState
gpio_line = entry_of (λ hw. hw.gpio_lines)

unfoldable pub set_line : MockGpioLineState → MockCall (Unit {0})
set_line line = modify λ w. record w {
  hardware = record w.hardware { gpio_lines = insert (device_id w) line w.hardware.gpio_lines };
}

-- The bodies that `run_call` runs.
unfoldable pub read_body : MockCall GpioLevel
unfolding take_injected_error
read_body = do take_injected_error (codes "gpio.read"); line ← gpio_line; done line.level

unfoldable pub write_body : GpioLevel → MockCall (Unit {0})
unfolding take_injected_error set_line
write_body level = do
  take_injected_error (codes "gpio.write")
  line ← gpio_line
  require (is_output line.configuration.direction)
      (denied (codes "gpio.write") (codes "line is not configured for output"))
  set_line (with_level level line)

unfoldable pub configure_body : GpioLineConfiguration → MockCall (Unit {0})
unfolding take_injected_error set_line with_configuration
configure_body c = do
  take_injected_error (codes "gpio.configure")
  line ← gpio_line
  set_line (with_configuration c line)

-- `read_level`, `write_level`, `configure_line` and `configuration` of `MockGpioSession`.
unfoldable pub mock_read_level : Clock → MockCall GpioLevel
unfolding run_call read_body
mock_read_level clock = run_call clock read_body

unfoldable pub mock_write_level : Clock → GpioLevel → MockCall (Unit {0})
unfolding run_call write_body
mock_write_level clock level = run_call clock (write_body level)

unfoldable pub mock_configure_line : Clock → GpioLineConfiguration → MockCall (Unit {0})
unfolding run_call configure_body
mock_configure_line clock c = do
  require (is_output c.direction || not (is_some c.initial_level))
      (misconfigured (codes "input lines cannot set an initial level"))
  run_call clock (configure_body c)

unfoldable pub mock_line_configuration : MockCall GpioLineConfiguration
unfolding take_injected_error
mock_line_configuration = do
  take_injected_error (codes "gpio.get_configuration")
  line ← gpio_line
  done line.configuration

unfoldable pub mock_gpio_session : Clock → GpioSession MockWorld
unfolding mock_bus mock_read_level mock_write_level mock_configure_line mock_line_configuration
mock_gpio_session clock = record {
  bus = mock_bus clock;
  read_level = mock_read_level clock;
  write_level = mock_write_level clock;
  configure_line = mock_configure_line clock;
  configuration = mock_line_configuration;
}
