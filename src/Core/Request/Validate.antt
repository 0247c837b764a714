-- ===== src/Core/Request/Validate.antt =====
-- crates/lemnos-core/src/request: `interface`, `name`, `validate` and `validate_for`.
-- `StandardRequest::interface`.
use lemnos.Prelude.{
  Bool, Option, Text, codes, ensure, err, false, if◌then◌else◌, is_empty, length, ltb, none, ok,
  same, some, text_ord, true, ℕ, ◌&&◌, ◌==◌, ◌>>◌,
}
use lemnos.Core.Descriptor.{DeviceDescriptor}
use lemnos.Core.Error.{CoreError, CoreResult}
use lemnos.Core.Interface.{InterfaceKind, interface_ord}
use lemnos.Core.Request.Kinds.{
  DeviceRequest, GpioRequest, I2cRequest, InteractionRequest, PwmRequest, SpiRequest,
  StandardRequest, UartRequest, UsbDirection, UsbRequest,
}

abbrev pub request_interface : StandardRequest → InterfaceKind
request_interface (StandardRequest.gpio _) = InterfaceKind.gpio
request_interface (StandardRequest.pwm _) = InterfaceKind.pwm
request_interface (StandardRequest.i2c _) = InterfaceKind.i2c
request_interface (StandardRequest.spi _) = InterfaceKind.spi
request_interface (StandardRequest.uart _) = InterfaceKind.uart
request_interface (StandardRequest.usb _) = InterfaceKind.usb

gpio_name : GpioRequest → Text
gpio_name GpioRequest.read = codes "gpio.read"
gpio_name (GpioRequest.write _) = codes "gpio.write"
gpio_name (GpioRequest.configure _) = codes "gpio.configure"
gpio_name GpioRequest.get_configuration = codes "gpio.get_configuration"

pwm_name : PwmRequest → Text
pwm_name (PwmRequest.enable _) = codes "pwm.enable"
pwm_name (PwmRequest.configure _) = codes "pwm.configure"
pwm_name (PwmRequest.set_period _) = codes "pwm.set_period"
pwm_name (PwmRequest.set_duty_cycle _) = codes "pwm.set_duty_cycle"
pwm_name PwmRequest.get_configuration = codes "pwm.get_configuration"

i2c_name : I2cRequest → Text
i2c_name (I2cRequest.read _) = codes "i2c.read"
i2c_name (I2cRequest.write _) = codes "i2c.write"
i2c_name (I2cRequest.write_read _ _) = codes "i2c.write_read"
i2c_name (I2cRequest.transaction _) = codes "i2c.transaction"

spi_name : SpiRequest → Text
spi_name (SpiRequest.transfer _) = codes "spi.transfer"
spi_name (SpiRequest.write _) = codes "spi.write"
spi_name (SpiRequest.configure _) = codes "spi.configure"
spi_name SpiRequest.get_configuration = codes "spi.get_configuration"

uart_name : UartRequest → Text
uart_name (UartRequest.read _) = codes "uart.read"
uart_name (UartRequest.write _) = codes "uart.write"
uart_name (UartRequest.configure _) = codes "uart.configure"
uart_name UartRequest.flush = codes "uart.flush"
uart_name UartRequest.get_configuration = codes "uart.get_configuration"

usb_name : UsbRequest → Text
usb_name (UsbRequest.control _) = codes "usb.control_transfer"
usb_name (UsbRequest.bulk_read _ _ _) = codes "usb.bulk_read"
usb_name (UsbRequest.bulk_write _ _ _) = codes "usb.bulk_write"
usb_name (UsbRequest.interrupt_read _ _ _) = codes "usb.interrupt_read"
usb_name (UsbRequest.interrupt_write _) = codes "usb.interrupt_write"
usb_name (UsbRequest.claim_interface _ _) = codes "usb.claim_interface"
usb_name (UsbRequest.release_interface _) = codes "usb.release_interface"

-- `StandardRequest::name`.
unfoldable pub request_name : StandardRequest → Text
unfolding gpio_name pwm_name i2c_name spi_name uart_name usb_name
request_name (StandardRequest.gpio request) = gpio_name request
request_name (StandardRequest.pwm request) = pwm_name request
request_name (StandardRequest.i2c request) = i2c_name request
request_name (StandardRequest.spi request) = spi_name request
request_name (StandardRequest.uart request) = uart_name request
request_name (StandardRequest.usb request) = usb_name request

abbrev is_zero : Option ℕ → Bool
is_zero none = false
is_zero (some n) = n == 0

abbrev is_inward : UsbDirection → Bool
is_inward UsbDirection.inward = true
is_inward UsbDirection.outward = false

-- The first guard of `StandardRequest::validate` that holds, with its reason.
validate_pwm : PwmRequest → Option Text
validate_pwm (PwmRequest.configure c) =
    if c.period_ns == 0
    then some (codes "PWM period must be greater than zero")
    else if ltb c.period_ns c.duty_cycle_ns
    then some (codes "PWM duty cycle must not exceed the period")
    else none
validate_pwm (PwmRequest.set_period period_ns) =
    if period_ns == 0 then some (codes "PWM period must be greater than zero") else none
validate_pwm _ = none

validate_i2c : I2cRequest → Option Text
validate_i2c (I2cRequest.read length) =
    if length == 0 then some (codes "read length must be greater than zero") else none
validate_i2c (I2cRequest.write bytes) =
    if is_empty bytes then some (codes "write payload must not be empty") else none
validate_i2c (I2cRequest.write_read _ read_length) =
    if read_length == 0 then some (codes "read length must be greater than zero") else none
validate_i2c (I2cRequest.transaction operations) =
    if is_empty operations then some (codes "transaction operations must not be empty") else none

validate_spi : SpiRequest → Option Text
validate_spi (SpiRequest.transfer write) =
    if is_empty write then some (codes "transfer payload must not be empty") else none
validate_spi (SpiRequest.configure c) =
    if is_zero c.max_frequency_hz
    then some (codes "SPI max frequency must be greater than zero")
    else if is_zero c.bits_per_word
    then some (codes "SPI bits per word must be greater than zero")
    else none
validate_spi (SpiRequest.write bytes) =
    if is_empty bytes then some (codes "write payload must not be empty") else none
validate_spi SpiRequest.get_configuration = none

validate_uart : UartRequest → Option Text
validate_uart (UartRequest.read max_bytes) =
    if max_bytes == 0 then some (codes "max_bytes must be greater than zero") else none
validate_uart (UartRequest.configure c) =
    if c.baud_rate == 0 then some (codes "UART baud rate must be greater than zero") else none
validate_uart (UartRequest.write bytes) =
    if is_empty bytes then some (codes "write payload must not be empty") else none
validate_uart _ = none

validate_usb : UsbRequest → Option Text
validate_usb (UsbRequest.bulk_read endpoint length _) =
    if length == 0
    then some (codes "bulk read length must be greater than zero")
    else if endpoint == 0
    then some (codes "bulk read endpoint must be greater than zero")
    else none
validate_usb (UsbRequest.bulk_write endpoint bytes _) =
    if is_empty bytes
    then some (codes "bulk write payload must not be empty")
    else if endpoint == 0
    then some (codes "bulk write endpoint must be greater than zero")
    else none
validate_usb (UsbRequest.interrupt_read endpoint length _) =
    if length == 0
    then some (codes "interrupt read length must be greater than zero")
    else if endpoint == 0
    then some (codes "interrupt read endpoint must be greater than zero")
    else none
validate_usb (UsbRequest.interrupt_write t) =
    if is_empty t.bytes
    then some (codes "interrupt write payload must not be empty")
    else if t.endpoint == 0
    then some (codes "interrupt write endpoint must be greater than zero")
    else none
validate_usb (UsbRequest.control t) =
    if is_inward t.setup.direction && is_empty t.payload
    then some (codes "control read buffer must not be empty")
    else none
validate_usb _ = none

guard_reason : StandardRequest → Option Text
unfolding validate_pwm validate_i2c validate_spi validate_uart validate_usb
guard_reason (StandardRequest.gpio _) = none
guard_reason (StandardRequest.pwm request) = validate_pwm request
guard_reason (StandardRequest.i2c request) = validate_i2c request
guard_reason (StandardRequest.spi request) = validate_spi request
guard_reason (StandardRequest.uart request) = validate_uart request
guard_reason (StandardRequest.usb request) = validate_usb request

-- `StandardRequest::validate`.
unfoldable pub validate_standard : StandardRequest → CoreResult (Unit {0})
unfolding guard_reason
validate_standard request = elim (guard_reason request) [
  | none ↦ ok tt
  | some reason ↦ err (CoreError.invalid_request (request_name request) reason)
]

-- `InteractionRequest::validate`, which `DeviceRequest::validate` calls.
unfoldable pub validate_interaction : InteractionRequest → CoreResult (Unit {0})
unfolding validate_standard
validate_interaction (InteractionRequest.standard request) = validate_standard request
validate_interaction (InteractionRequest.custom _) = ok tt

-- The check of `validate_for` behind the request's own.
match_interface : InteractionRequest → DeviceDescriptor → CoreResult (Unit {0})
match_interface (InteractionRequest.standard request) device =
    ensure (same (request_interface request) device.interface)
      (CoreError.request_interface_mismatch (request_name request) device.interface)
match_interface (InteractionRequest.custom _) device = ok tt

-- `DeviceRequest::validate_for`.
unfoldable pub validate_for : DeviceRequest → DeviceDescriptor → CoreResult (Unit {0})
unfolding validate_interaction match_interface
validate_for request device = do
  validate_interaction request.interaction
  match_interface request.interaction device
