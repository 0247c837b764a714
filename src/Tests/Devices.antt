-- ===== src/Tests/Devices.antt =====
-- The theorems on drivers and simulated devices at concrete inputs.
use lemnos.Prelude.{
  List, [], arith, codes, false, if◌then◌else◌, is_ok, map, none, ok, refl, same, some, text_ord,
  true, ◌&&◌, ◌++◌, ◌∷◌, ◌≡◌,
}
use lemnos.Bus.Buffers.{controller_write_read_into}
use lemnos.Bus.Error.{BusError}
use lemnos.Bus.Session.{SessionAccess, SessionState}
use lemnos.Bus.Traits.{I2cSession}
use lemnos.Core.Descriptor.{DeviceDescriptor, bare_descriptor}
use lemnos.Core.Ids.{DeviceId}
use lemnos.Core.Interface.{InterfaceKind, interface_ord}
use lemnos.Core.Kinds.{DeviceAddress, DeviceKind}
use lemnos.Core.Request.Kinds.{
  GpioDirection, GpioLevel, GpioLineConfiguration, GpioRequest, I2cOperation, I2cRequest,
  InteractionRequest, PwmConfiguration, PwmPolarity, PwmRequest, StandardRequest, UartConfiguration,
  UartDataBits, UartFlowControl, UartParity, UartStopBits,
}
use lemnos.Core.Request.Responses.{GpioResponse, I2cResponse, I2cTransactionResult}
use lemnos.Drivers.Gpio.{GpioBoundDevice, gpio_request, gpio_stats}
use lemnos.Drivers.I2c.{I2cBoundDevice, i2c_execute, i2c_request, i2c_stats}
use lemnos.Drivers.I2cLaws.{
  FailsUncounted, Transaction, i2c_execute-FailsUncounted, i2c_request-Transaction,
}
use lemnos.Drivers.Pwm.{PwmBoundDevice, pwm_execute, pwm_stats}
use lemnos.Drivers.UsbStats.{number_ord}
use lemnos.Mock.Faults.{MockFaultRegistry, push, take}
use lemnos.Mock.Gpio.{mock_gpio_session}
use lemnos.Mock.GpioLoop.{gpio_request-loop}
use lemnos.Mock.Hardware.{Clock, MockHardwareState, MockI2cDeviceState, MockWorld, device_id}
use lemnos.Mock.I2c.{write_read_state, write_to_state}
use lemnos.Mock.I2cController.{controller_write, mock_i2c_controller_session}
use lemnos.Mock.I2cMemory.{write_to_state-write_read_state}
use lemnos.Mock.Pwm.{mock_pwm_session}
use lemnos.Mock.PwmSafety.{AllSafe, pwm_execute-AllSafe}
use lemnos.Mock.Queues.{Taken, queue_of, queue_of-push, take-Taken}
use lemnos.Mock.Uart.{mock_uart_read}
use lemnos.Mock.UartLoop.{Drained, mock_uart_read-Drained}

abbrev clock : Clock
clock n = n

abbrev line_id : DeviceId
line_id = codes "line3"

abbrev line : DeviceDescriptor
line = record (bare_descriptor line_id InterfaceKind.gpio) { kind = DeviceKind.gpio_line }

abbrev output_line : GpioLineConfiguration
output_line = record {
  direction = GpioDirection.output;
  active_low = false;
  bias = none;
  drive = none;
  edge = none;
  debounce_us = none;
  initial_level = none;
}

abbrev pwm_configuration : PwmConfiguration
pwm_configuration = record {
  period_ns = 100;
  duty_cycle_ns = 40;
  enabled = false;
  polarity = PwmPolarity.normal;
}

abbrev uart_configuration : UartConfiguration
uart_configuration = record {
  baud_rate = 9600;
  data_bits = UartDataBits.eight;
  parity = UartParity.unparitied;
  stop_bits = UartStopBits.one;
  flow_control = UartFlowControl.uncontrolled;
}

-- Hardware with a line, a channel and a port of the same identifier.
abbrev hardware : MockHardwareState
hardware = record {
  gpio_lines =
      (line_id, record { descriptor = line; level = GpioLevel.low; configuration = output_line })
      ∷ [];
  pwm_channels = (line_id, record { descriptor = line; configuration = pwm_configuration }) ∷ [];
  i2c_devices = [];
  spi_devices = [];
  uart_ports =
      (
        line_id,
        record {
          descriptor = line;
          configuration = uart_configuration;
          rx_buffer = 7 ∷ 8 ∷ 9 ∷ [];
          tx_buffer = [];
        },
      )
      ∷ [];
  faults = [];
}

abbrev world : MockWorld
world = record {
  hardware = hardware;
  session = record {
    device = line;
    metadata = record {
      backend_name = codes "mock-hardware";
      access = SessionAccess.shared;
      state = SessionState.idle;
      opened_at = some 0;
      last_active_at = some 0;
    };
  };
  clock_reads = 1;
}

abbrev gpio_bound : GpioBoundDevice MockWorld
gpio_bound = record { driver_id = codes "gpio"; session = world; stats = gpio_stats }

abbrev pwm_bound : PwmBoundDevice MockWorld
pwm_bound = record { driver_id = codes "pwm"; session = world; stats = pwm_stats }

abbrev written : GpioBoundDevice MockWorld
written = (gpio_request (mock_gpio_session clock) (GpioRequest.write GpioLevel.high) gpio_bound).0

wrote :
    is_ok (gpio_request (mock_gpio_session clock) (GpioRequest.write GpioLevel.high) gpio_bound).1
    ≡ true
unfolding gpio_request mock_gpio_session
wrote = refl

unqueued : queue_of written.session.hardware.faults line_id (codes "gpio.read") ≡ []
unfolding gpio_request mock_gpio_session
unqueued = refl

same_line : device_id written.session ≡ device_id gpio_bound.session
unfolding gpio_request mock_gpio_session
same_line = refl

gpio_request-loop_example :
    (gpio_request (mock_gpio_session clock) GpioRequest.read written).1
    ≡ ok (GpioResponse.level GpioLevel.high)
gpio_request-loop_example =
    gpio_request-loop clock GpioLevel.high gpio_bound written wrote refl same_line unqueued

abbrev short_period : InteractionRequest
short_period = InteractionRequest.standard (StandardRequest.pwm (PwmRequest.set_period 30))

hardware-AllSafe : AllSafe hardware
hardware-AllSafe = ((omega arith, omega arith), tt)

pwm_execute-AllSafe_example :
    AllSafe (pwm_execute (mock_pwm_session clock) short_period pwm_bound).0.session.hardware
pwm_execute-AllSafe_example = pwm_execute-AllSafe clock short_period pwm_bound hardware-AllSafe

abbrev late : BusError
late = BusError.timeout line_id (codes "gpio.read")

queue_of-push_example :
    queue_of (push line_id (codes "gpio.read") late []) line_id (codes "gpio.read") ≡ (
      if same line_id line_id && same (codes "gpio.read") (codes "gpio.read")
      then queue_of [] line_id (codes "gpio.read") ++ late ∷ []
      else queue_of [] line_id (codes "gpio.read"))
queue_of-push_example =
    queue_of-push line_id line_id (codes "gpio.read") (codes "gpio.read") late []

abbrev queued : MockFaultRegistry
queued = (line_id, (codes "gpio.read", late ∷ []) ∷ []) ∷ []

take-Taken_example :
    Taken line_id (codes "gpio.read") queued (take line_id (codes "gpio.read") queued)
take-Taken_example = take-Taken line_id (codes "gpio.read") queued

read_two : (mock_uart_read clock 2 world).1 ≡ ok (7 ∷ 8 ∷ [])
unfolding mock_uart_read
read_two = refl

mock_uart_read-Drained_example :
    Drained 2 line_id hardware.uart_ports
      (7 ∷ 8 ∷ [])
      (mock_uart_read clock 2 world).0.hardware.uart_ports
mock_uart_read-Drained_example = mock_uart_read-Drained clock 2 world read_two

-- A session that answers each operation with two bytes.
abbrev i2c_session : I2cSession (Unit {0})
i2c_session = record {
  bus = record {
    device = λ _. line;
    metadata = λ _. world.session.metadata;
    close = λ s. (s, ok tt);
  };
  read = λ n s. (s, ok (1 ∷ 2 ∷ []));
  write = λ bytes s. (s, ok tt);
  write_read = λ bytes n s. (s, ok (1 ∷ 2 ∷ []));
  transaction = λ ops s. (s, ok (map (λ _. 1 ∷ 2 ∷ []) ops));
}

abbrev i2c_bound : I2cBoundDevice (Unit {0})
i2c_bound = record { driver_id = codes "i2c"; session = tt; stats = i2c_stats }

abbrev operations : List I2cOperation
operations = I2cOperation.read 2 ∷ I2cOperation.write (5 ∷ 6 ∷ 7 ∷ []) ∷ []

abbrev transacted : I2cResponse
transacted =
    I2cResponse.transaction
      (I2cTransactionResult.read (1 ∷ 2 ∷ []) ∷ I2cTransactionResult.write 3 ∷ [])

transaction_run :
    (i2c_request i2c_session (I2cRequest.transaction operations) i2c_bound).1 ≡ ok transacted
unfolding i2c_request
transaction_run = refl

i2c_request-Transaction_example :
    Transaction operations i2c_stats transacted
      (i2c_request i2c_session (I2cRequest.transaction operations) i2c_bound).0
i2c_request-Transaction_example =
    i2c_request-Transaction i2c_session operations i2c_bound transaction_run

abbrev transaction_request : InteractionRequest
transaction_request =
    InteractionRequest.standard (StandardRequest.i2c (I2cRequest.transaction operations))

i2c_execute-FailsUncounted_example :
    FailsUncounted i2c_bound (i2c_execute i2c_session transaction_request i2c_bound)
i2c_execute-FailsUncounted_example =
    i2c_execute-FailsUncounted i2c_session transaction_request i2c_bound

abbrev memory_device : MockI2cDeviceState
memory_device = record { descriptor = line; memory = []; pointer = 0 }

write_to_state-write_read_state_example :
    (write_read_state line_id
      (2 ∷ [])
      2
      (write_to_state line_id (2 ∷ 7 ∷ 8 ∷ []) memory_device).0).1
    ≡ ok (7 ∷ 8 ∷ [])
write_to_state-write_read_state_example =
    write_to_state-write_read_state line_id 2 7 (8 ∷ []) memory_device (omega arith)

abbrev i2c_world : MockWorld
i2c_world = record world {
  hardware = record hardware {
    i2c_devices =
        (
          codes "i2c5",
          record memory_device {
            descriptor = record line { address = some (DeviceAddress.i2c_device 1 5) };
          },
        )
        ∷ [];
  };
}

-- A controller reaches the device at an address of its bus, and reads the zeros behind a write.
controller_filled :
    (controller_write_read_into
      (mock_i2c_controller_session clock 1)
      5
      (2 ∷ [])
      3
      (controller_write clock 1 5 (2 ∷ 7 ∷ 8 ∷ []) i2c_world).0).1
    ≡ ok (7 ∷ 8 ∷ 0 ∷ [])
unfolding controller_write_read_into mock_i2c_controller_session controller_write
controller_filled = refl

unaddressed : is_ok (controller_write clock 1 6 (2 ∷ []) i2c_world).1 ≡ false
unfolding controller_write
unaddressed = refl
