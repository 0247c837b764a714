-- ===== src/Mock/Open.antt =====
-- crates/lemnos-mock/src/hardware/{inventory,backends}.rs: attaching devices, queueing errors and
-- opening sessions.
use lemnos.Prelude.{Option, Text, codes, err, insert, none, ok, some, text_ord}
use lemnos.Bus.Error.{BusError, BusResult}
use lemnos.Bus.Session.{SessionAccess, SessionState, new_metadata}
use lemnos.Core.Descriptor.{DeviceDescriptor}
use lemnos.Core.Ids.{DeviceId}
use lemnos.Core.Interface.{interface_ord}
use lemnos.Core.State.{TimestampMs}
use lemnos.Drivers.UsbStats.{number_ord}
use lemnos.Mock.Faults.{push, take}
use lemnos.Mock.Hardware.{
  MockGpioLineState, MockHardwareState, MockI2cDeviceState, MockPwmChannelState, MockSession,
  MockSpiDeviceState, MockUartPortState,
}

-- `attach_gpio_line` and its like, and `queue_error`.
abbrev pub attach_gpio_line : MockGpioLineState → MockHardwareState → MockHardwareState
attach_gpio_line line hw = record hw { gpio_lines = insert line.descriptor.id line hw.gpio_lines }

abbrev pub attach_pwm_channel : MockPwmChannelState → MockHardwareState → MockHardwareState
attach_pwm_channel channel hw = record hw {
  pwm_channels = insert channel.descriptor.id channel hw.pwm_channels;
}

abbrev pub attach_i2c_device : MockI2cDeviceState → MockHardwareState → MockHardwareState
attach_i2c_device device hw = record hw {
  i2c_devices = insert device.descriptor.id device hw.i2c_devices;
}

abbrev pub attach_spi_device : MockSpiDeviceState → MockHardwareState → MockHardwareState
attach_spi_device device hw = record hw {
  spi_devices = insert device.descriptor.id device hw.spi_devices;
}

abbrev pub attach_uart_port : MockUartPortState → MockHardwareState → MockHardwareState
attach_uart_port port hw = record hw { uart_ports = insert port.descriptor.id port hw.uart_ports }

unfoldable pub queue_error : DeviceId → Text → BusError → MockHardwareState → MockHardwareState
unfolding push
queue_error id operation error hw = record hw { faults = push id operation error hw.faults }

-- The constructors of the sessions.
unfoldable pub new_mock_session : TimestampMs → DeviceDescriptor → SessionAccess → MockSession
unfolding new_metadata
new_mock_session now device access = record {
  device = device;
  metadata = record (new_metadata now (codes "mock-hardware") access) { state = SessionState.idle };
}

opened : TimestampMs → DeviceId → SessionAccess → Option DeviceDescriptor → BusResult MockSession
unfolding new_mock_session
opened now id access none = err (BusError.unsupported_device (codes "mock-hardware") id)
opened now id access (some descriptor) = ok (new_mock_session now descriptor access)

-- `open_gpio`, `open_pwm`, `open_i2c`, `open_spi` and `open_uart`, by the descriptor that the hardware has for
-- the device.
unfoldable pub open_mock :
    (DeviceId → MockHardwareState → Option DeviceDescriptor)
    → TimestampMs
    → DeviceDescriptor
    → SessionAccess
    → MockHardwareState
    → MockHardwareState × BusResult MockSession
unfolding take opened
open_mock find_descriptor now device access hw =
    let (taken, faults) = take device.id (codes "open") hw.faults in
    let left : MockHardwareState = record hw { faults = faults } in
    elim taken [
      | some e ↦ (left, err e)
      | none ↦ (left, opened now device.id access (find_descriptor device.id left))
    ]
