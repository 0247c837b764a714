-- ===== src/Bus/Traits.antt =====
-- crates/lemnos-bus/src/{session,gpio,pwm,spi,uart,i2c,usb}.rs: the traits of sessions as records of
-- their methods, over the state `S` that a session has. A method with `&self` can lock what the
-- session shares with others, so that it returns a state too.
use lemnos.Prelude.Calls.{Call}
use lemnos.Prelude.{Bool, List, Option, text_ord, ℕ}
use lemnos.Bus.Error.{BusError}
use lemnos.Bus.Session.{SessionMetadata}
use lemnos.Core.Descriptor.{DeviceDescriptor}
use lemnos.Core.Interface.{interface_ord}
use lemnos.Core.Request.Kinds.{
  GpioLevel, GpioLineConfiguration, I2cOperation, PwmConfiguration, SpiConfiguration,
  UartConfiguration, UsbControlTransfer, UsbInterruptTransfer,
}

abbrev pub BusCall : Type 0 → Type 0 → Type 0
BusCall S A = Call S BusError A

-- The trait `BusSession`.
pub record BusSession (S : Type 0) : Type 0 where
  pub device : S → DeviceDescriptor
  pub metadata : S → SessionMetadata
  pub close : BusCall S (Unit {0})

pub record GpioSession (S : Type 0) : Type 0 where
  pub bus : BusSession S
  pub read_level : BusCall S GpioLevel
  pub write_level : GpioLevel → BusCall S (Unit {0})
  pub configure_line : GpioLineConfiguration → BusCall S (Unit {0})
  pub configuration : BusCall S GpioLineConfiguration

pub record PwmSession (S : Type 0) : Type 0 where
  pub bus : BusSession S
  pub set_enabled : Bool → BusCall S (Unit {0})
  pub set_period_ns : ℕ → BusCall S (Unit {0})
  pub set_duty_cycle_ns : ℕ → BusCall S (Unit {0})
  pub configure : PwmConfiguration → BusCall S (Unit {0})
  pub configuration : BusCall S PwmConfiguration

pub record SpiSession (S : Type 0) : Type 0 where
  pub bus : BusSession S
  pub transfer : List ℕ → BusCall S (List ℕ)
  pub write : List ℕ → BusCall S (Unit {0})
  pub configure : SpiConfiguration → BusCall S (Unit {0})
  pub configuration : BusCall S SpiConfiguration

pub record UartSession (S : Type 0) : Type 0 where
  pub bus : BusSession S
  pub read : ℕ → BusCall S (List ℕ)
  pub write : List ℕ → BusCall S (Unit {0})
  pub flush : BusCall S (Unit {0})
  pub configure : UartConfiguration → BusCall S (Unit {0})
  pub configuration : BusCall S UartConfiguration

pub record I2cSession (S : Type 0) : Type 0 where
  pub bus : BusSession S
  pub read : ℕ → BusCall S (List ℕ)
  pub write : List ℕ → BusCall S (Unit {0})
  pub write_read : List ℕ → ℕ → BusCall S (List ℕ)
  pub transaction : List I2cOperation → BusCall S (List (List ℕ))

-- A call names the address of the device on the bus.
pub record I2cControllerSession (S : Type 0) : Type 0 where
  pub session : BusSession S
  pub bus : ℕ
  pub read : ℕ → ℕ → BusCall S (List ℕ)
  pub write : ℕ → List ℕ → BusCall S (Unit {0})
  pub write_read : ℕ → List ℕ → ℕ → BusCall S (List ℕ)
  pub transaction : ℕ → List I2cOperation → BusCall S (List (List ℕ))

pub record UsbSession (S : Type 0) : Type 0 where
  pub bus : BusSession S
  pub control_transfer : UsbControlTransfer → BusCall S (List ℕ)
  pub bulk_read : ℕ → ℕ → Option ℕ → BusCall S (List ℕ)
  pub bulk_write : ℕ → List ℕ → Option ℕ → BusCall S (Unit {0})
  pub interrupt_read : ℕ → ℕ → Option ℕ → BusCall S (List ℕ)
  pub interrupt_write : UsbInterruptTransfer → BusCall S (Unit {0})
  pub claim_interface : ℕ → Option ℕ → BusCall S (Unit {0})
  pub release_interface : ℕ → BusCall S (Unit {0})
