-- ===== src/Core/Request/Kinds.antt =====
-- crates/lemnos-core/src/request/{gpio,pwm,i2c,spi,uart,usb}.rs and the enums of mod.rs.
-- Unsigned integers are numbers, payloads are lists of bytes.
use lemnos.Prelude.{Bool, List, Option, Text, text_ord, ℕ}
use lemnos.Core.Ids.{DeviceId}
use lemnos.Core.Interface.{interface_ord}
use lemnos.Core.Value.{Value}

pub data GpioLevel : Type 0 where
  low high : GpioLevel

pub data GpioDirection : Type 0 where
  input output : GpioDirection

pub data GpioBias : Type 0 where
  disabled pull_up pull_down : GpioBias

pub data GpioDrive : Type 0 where
  push_pull open_drain open_source : GpioDrive

pub data GpioEdge : Type 0 where
  rising falling both : GpioEdge

pub record GpioLineConfiguration : Type 0 where
  pub direction : GpioDirection
  pub active_low : Bool
  pub bias : Option GpioBias
  pub drive : Option GpioDrive
  pub edge : Option GpioEdge
  pub debounce_us : Option ℕ
  pub initial_level : Option GpioLevel

pub data GpioRequest : Type 0 where
  read : GpioRequest
  write : GpioLevel → GpioRequest
  configure : GpioLineConfiguration → GpioRequest
  get_configuration : GpioRequest

pub data PwmPolarity : Type 0 where
  normal inversed : PwmPolarity

pub record PwmConfiguration : Type 0 where
  pub period_ns : ℕ
  pub duty_cycle_ns : ℕ
  pub enabled : Bool
  pub polarity : PwmPolarity

pub data PwmRequest : Type 0 where
  enable : Bool → PwmRequest
  configure : PwmConfiguration → PwmRequest
  set_period : ℕ → PwmRequest
  set_duty_cycle : ℕ → PwmRequest
  get_configuration : PwmRequest

pub data I2cOperation : Type 0 where
  read : ℕ → I2cOperation
  write : List ℕ → I2cOperation

pub data I2cRequest : Type 0 where
  read : ℕ → I2cRequest
  write : List ℕ → I2cRequest
  write_read : List ℕ → ℕ → I2cRequest
  transaction : List I2cOperation → I2cRequest

pub data SpiMode : Type 0 where
  mode0 mode1 mode2 mode3 : SpiMode

pub data SpiBitOrder : Type 0 where
  msb_first lsb_first : SpiBitOrder

pub record SpiConfiguration : Type 0 where
  pub mode : SpiMode
  pub max_frequency_hz : Option ℕ
  pub bits_per_word : Option ℕ
  pub bit_order : SpiBitOrder

pub data SpiRequest : Type 0 where
  transfer : List ℕ → SpiRequest
  write : List ℕ → SpiRequest
  configure : SpiConfiguration → SpiRequest
  get_configuration : SpiRequest

pub data UartParity : Type 0 where
  unparitied even odd : UartParity

pub data UartStopBits : Type 0 where
  one two : UartStopBits

pub data UartDataBits : Type 0 where
  five six seven eight : UartDataBits

pub data UartFlowControl : Type 0 where
  uncontrolled software hardware : UartFlowControl

pub record UartConfiguration : Type 0 where
  pub baud_rate : ℕ
  pub data_bits : UartDataBits
  pub parity : UartParity
  pub stop_bits : UartStopBits
  pub flow_control : UartFlowControl

pub data UartRequest : Type 0 where
  read : ℕ → UartRequest
  write : List ℕ → UartRequest
  configure : UartConfiguration → UartRequest
  flush : UartRequest
  get_configuration : UartRequest

pub data UsbDirection : Type 0 where
  inward outward : UsbDirection

pub data UsbRequestType : Type 0 where
  standard class vendor reserved : UsbRequestType

pub data UsbRecipient : Type 0 where
  device interface endpoint other : UsbRecipient

pub record UsbControlSetup : Type 0 where
  pub direction : UsbDirection
  pub request_type : UsbRequestType
  pub recipient : UsbRecipient
  pub request : ℕ
  pub value : ℕ
  pub index : ℕ

pub record UsbControlTransfer : Type 0 where
  pub setup : UsbControlSetup
  pub payload : List ℕ
  pub timeout_ms : Option ℕ

pub record UsbInterruptTransfer : Type 0 where
  pub endpoint : ℕ
  pub bytes : List ℕ
  pub timeout_ms : Option ℕ

-- The fields of a variant in the order of the source.
pub data UsbRequest : Type 0 where
  control : UsbControlTransfer → UsbRequest
  bulk_read : ℕ → ℕ → Option ℕ → UsbRequest
  bulk_write : ℕ → List ℕ → Option ℕ → UsbRequest
  interrupt_read : ℕ → ℕ → Option ℕ → UsbRequest
  interrupt_write : UsbInterruptTransfer → UsbRequest
  claim_interface : ℕ → Option ℕ → UsbRequest
  release_interface : ℕ → UsbRequest

pub data StandardRequest : Type 0 where
  gpio : GpioRequest → StandardRequest
  pwm : PwmRequest → StandardRequest
  i2c : I2cRequest → StandardRequest
  spi : SpiRequest → StandardRequest
  uart : UartRequest → StandardRequest
  usb : UsbRequest → StandardRequest

pub record CustomInteractionRequest : Type 0 where
  pub id : Text
  pub input : Option Value

pub data InteractionRequest : Type 0 where
  standard : StandardRequest → InteractionRequest
  custom : CustomInteractionRequest → InteractionRequest

pub record DeviceRequest : Type 0 where
  pub device_id : DeviceId
  pub interaction : InteractionRequest
