-- ===== src/Mock/Hardware.antt =====
-- crates/lemnos-mock/src/hardware/{mod,inventory,backends}.rs and the parts that the sessions of the
-- mock share. The hardware is behind an `Arc<Mutex<..>>` that every session shares: a session acts on
-- the hardware and on its own fields. The maps of USB devices are left out.
use lemnos.Prelude.Calls.{done}
use lemnos.Prelude.{
  Bool, List, Map, Option, Text, err, if◌then◌else◌, lookup, none, ok, ok_or, some, text_ord, ℕ,
  ◌+◌,
}
use lemnos.Bus.Error.{BusError, BusResult}
use lemnos.Bus.Session.{SessionMetadata, SessionState, begin_call, can_write, finish_call, mark}
use lemnos.Bus.Traits.{BusCall, BusSession}
use lemnos.Core.Descriptor.{DeviceDescriptor}
use lemnos.Core.Ids.{DeviceId}
use lemnos.Core.Interface.{interface_ord}
use lemnos.Core.Request.Kinds.{
  GpioLevel, GpioLineConfiguration, PwmConfiguration, SpiConfiguration, UartConfiguration,
}
use lemnos.Core.State.{TimestampMs}
use lemnos.Drivers.UsbStats.{number_ord}
use lemnos.Mock.Faults.{MockFaultRegistry, take}

pub record MockGpioLineState : Type 0 where
  pub descriptor : DeviceDescriptor
  pub level : GpioLevel
  pub configuration : GpioLineConfiguration

pub record MockPwmChannelState : Type 0 where
  pub descriptor : DeviceDescriptor
  pub configuration : PwmConfiguration

pub record MockSpiDeviceState : Type 0 where
  pub descriptor : DeviceDescriptor
  pub configuration : SpiConfiguration
  pub transfer_responses : Map (List ℕ) (List ℕ)
  pub last_write : List ℕ

pub record MockUartPortState : Type 0 where
  pub descriptor : DeviceDescriptor
  pub configuration : UartConfiguration
  pub rx_buffer : List ℕ
  pub tx_buffer : List ℕ

pub record MockI2cDeviceState : Type 0 where
  pub descriptor : DeviceDescriptor
  pub memory : List ℕ
  pub pointer : ℕ

pub record MockHardwareState : Type 0 where
  pub gpio_lines : Map DeviceId MockGpioLineState
  pub pwm_channels : Map DeviceId MockPwmChannelState
  pub i2c_devices : Map DeviceId MockI2cDeviceState
  pub spi_devices : Map DeviceId MockSpiDeviceState
  pub uart_ports : Map DeviceId MockUartPortState
  pub faults : MockFaultRegistry

-- The fields of `MockGpioSession` and its like besides the hardware.
pub record MockSession : Type 0 where
  pub device : DeviceDescriptor
  pub metadata : SessionMetadata

-- The hardware, one session on it, and how often the system's clock was read.
pub record MockWorld : Type 0 where
  pub hardware : MockHardwareState
  pub session : MockSession
  pub clock_reads : ℕ

-- The readings of the clock, by their number.
abbrev pub Clock : Type 0
Clock = ℕ → TimestampMs

abbrev pub MockCall : Type 0 → Type 0
MockCall A = BusCall MockWorld A

abbrev pub device_id : MockWorld → DeviceId
device_id w = w.session.device.id

unfoldable pub injected : Option BusError → MockCall (Unit {0})
injected none w = (w, ok tt)
injected (some e) w = (w, err e)

-- `take_injected_error`.
unfoldable pub take_injected_error : Text → MockCall (Unit {0})
unfolding take injected
take_injected_error operation w =
    let (taken, faults) = take (device_id w) operation w.hardware.faults in
    injected taken (record w { hardware = record w.hardware { faults = faults } })

-- `permission_denied`, `invalid_request` and the two other errors that the sessions build.
abbrev pub denied : {A : Type 0} → Text → Text → MockCall A
denied operation reason w = (w, err (BusError.permission_denied (device_id w) operation reason))

abbrev pub invalid : {A : Type 0} → Text → Text → MockCall A
invalid operation reason w = (w, err (BusError.invalid_request (device_id w) operation reason))

abbrev pub misconfigured : {A : Type 0} → Text → MockCall A
misconfigured reason w = (w, err (BusError.invalid_configuration (device_id w) reason))

-- Returns the error where the test fails.
abbrev pub require : Bool → MockCall (Unit {0}) → MockCall (Unit {0})
require test otherwise = if test then done tt else otherwise

abbrev pub require_write : Text → Text → MockCall (Unit {0})
require_write operation reason w =
    require (can_write w.session.metadata.access) (denied operation reason) w

-- An entry of one of the maps of the hardware, or `Disconnected`.
abbrev pub entry_of : {A : Type 0} → (MockHardwareState → Map DeviceId A) → MockCall A
entry_of entries w =
    (w, ok_or (lookup (device_id w) (entries w.hardware)) (BusError.disconnected (device_id w)))

unfoldable pub with_metadata : (SessionMetadata → SessionMetadata) → MockWorld → MockWorld
with_metadata f w = record w { session = record w.session { metadata = f w.session.metadata } }

-- The three statements of `run_call`.
unfoldable pub begin : Clock → MockWorld → MockWorld
unfolding with_metadata begin_call
begin clock w =
    record (with_metadata (begin_call (clock w.clock_reads) (clock (w.clock_reads + 1))) w) {
      clock_reads = w.clock_reads + 2;
    }

unfoldable pub finish_with :
    {A : Type 0} → Clock → MockWorld × BusResult A → MockWorld × BusResult A
unfolding with_metadata finish_call
finish_with clock (w, r) = (
  record (with_metadata (finish_call (clock w.clock_reads) r) w) {
    clock_reads = w.clock_reads + 1;
  },
  r,
)

-- `run_call`.
unfoldable pub run_call : {A : Type 0} → Clock → MockCall A → MockCall A
unfolding begin finish_with
run_call clock call w = finish_with clock (call (begin clock w))

-- `close`.
unfoldable pub close_mock : Clock → MockCall (Unit {0})
unfolding with_metadata mark
close_mock clock w = (
  record (with_metadata (mark SessionState.closed (clock w.clock_reads)) w) {
    clock_reads = w.clock_reads + 1;
  },
  ok tt,
)

-- The methods of `BusSession` of every mock session.
unfoldable pub mock_bus : Clock → BusSession MockWorld
unfolding close_mock
mock_bus clock = record {
  device = λ w. w.session.device;
  metadata = λ w. w.session.metadata;
  close = close_mock clock;
}
