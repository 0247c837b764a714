-- ===== src/Core/Request/Responses.antt =====
-- crates/lemnos-core/src/request: the responses.
use lemnos.Prelude.{List, Option, Text, text_ord, ℕ}
use lemnos.Core.Ids.{DeviceId}
use lemnos.Core.Interface.{interface_ord}
use lemnos.Core.Request.Kinds.{
  GpioLevel, GpioLineConfiguration, PwmConfiguration, SpiConfiguration, UartConfiguration,
}
use lemnos.Core.Value.{Value}

pub data GpioResponse : Type 0 where
  level : GpioLevel → GpioResponse
  configuration : GpioLineConfiguration → GpioResponse
  applied : GpioResponse

pub data PwmResponse : Type 0 where
  configuration : PwmConfiguration → PwmResponse
  applied : PwmResponse

pub data I2cTransactionResult : Type 0 where
  read : List ℕ → I2cTransactionResult
  write : ℕ → I2cTransactionResult

pub data I2cResponse : Type 0 where
  bytes : List ℕ → I2cResponse
  transaction : List I2cTransactionResult → I2cResponse
  applied : I2cResponse

pub data SpiResponse : Type 0 where
  bytes : List ℕ → SpiResponse
  configuration : SpiConfiguration → SpiResponse
  applied : SpiResponse

pub data UartResponse : Type 0 where
  bytes : List ℕ → UartResponse
  configuration : UartConfiguration → UartResponse
  applied : UartResponse

pub data UsbResponse : Type 0 where
  bytes : List ℕ → UsbResponse
  interface_claimed : ℕ → Option ℕ → UsbResponse
  interface_released : ℕ → UsbResponse
  applied : UsbResponse

pub data StandardResponse : Type 0 where
  gpio : GpioResponse → StandardResponse
  pwm : PwmResponse → StandardResponse
  i2c : I2cResponse → StandardResponse
  spi : SpiResponse → StandardResponse
  uart : UartResponse → StandardResponse
  usb : UsbResponse → StandardResponse

pub record CustomInteractionResponse : Type 0 where
  pub id : Text
  pub output : Option Value

pub data InteractionResponse : Type 0 where
  standard : StandardResponse → InteractionResponse
  custom : CustomInteractionResponse → InteractionResponse

pub record DeviceResponse : Type 0 where
  pub device_id : DeviceId
  pub interaction : InteractionResponse
