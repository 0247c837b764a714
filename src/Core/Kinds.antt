-- ===== src/Core/Kinds.antt =====
-- crates/lemnos-core/src/descriptor/kinds.rs: kinds and addresses of devices.
use lemnos.Prelude.{Bool, List, Option, Text, codes, decide, text_ord, ℕ, ℕ_discrete, ◌++◌}
use lemnos.Core.Interface.{InterfaceKind, as_str, interface_ord}

pub data DeviceKind : Type 0 where
  unspecified : InterfaceKind → DeviceKind
  gpio_chip gpio_line pwm_chip pwm_channel i2c_bus i2c_device spi_bus spi_device : DeviceKind
  uart_port uart_device usb_bus usb_device usb_interface : DeviceKind

-- `DeviceKind::interface`.
abbrev pub kind_interface : DeviceKind → InterfaceKind
kind_interface (DeviceKind.unspecified interface) = interface
kind_interface DeviceKind.gpio_chip = InterfaceKind.gpio
kind_interface DeviceKind.gpio_line = InterfaceKind.gpio
kind_interface DeviceKind.pwm_chip = InterfaceKind.pwm
kind_interface DeviceKind.pwm_channel = InterfaceKind.pwm
kind_interface DeviceKind.i2c_bus = InterfaceKind.i2c
kind_interface DeviceKind.i2c_device = InterfaceKind.i2c
kind_interface DeviceKind.spi_bus = InterfaceKind.spi
kind_interface DeviceKind.spi_device = InterfaceKind.spi
kind_interface DeviceKind.uart_port = InterfaceKind.uart
kind_interface DeviceKind.uart_device = InterfaceKind.uart
kind_interface DeviceKind.usb_bus = InterfaceKind.usb
kind_interface DeviceKind.usb_device = InterfaceKind.usb
kind_interface DeviceKind.usb_interface = InterfaceKind.usb

-- The fields of each variant in the order of the source; numbers stand for the unsigned integers.
pub data DeviceAddress : Type 0 where
  gpio_chip : Text → Option ℕ → DeviceAddress
  gpio_line : Text → ℕ → DeviceAddress
  pwm_chip : Text → DeviceAddress
  pwm_channel : Text → ℕ → DeviceAddress
  i2c_bus : ℕ → DeviceAddress
  i2c_device : ℕ → ℕ → DeviceAddress
  spi_bus : ℕ → DeviceAddress
  spi_device : ℕ → ℕ → DeviceAddress
  uart_port : Text → DeviceAddress
  uart_device : Text → Option Text → DeviceAddress
  usb_bus : ℕ → DeviceAddress
  usb_device : ℕ → List ℕ → Option ℕ → Option ℕ → DeviceAddress
  usb_interface : ℕ → List ℕ → ℕ → Option ℕ → Option ℕ → DeviceAddress
  custom : InterfaceKind → Text → Text → DeviceAddress

-- `DeviceAddress::interface`.
abbrev pub address_interface : DeviceAddress → InterfaceKind
address_interface (DeviceAddress.gpio_chip _ _) = InterfaceKind.gpio
address_interface (DeviceAddress.gpio_line _ _) = InterfaceKind.gpio
address_interface (DeviceAddress.pwm_chip _) = InterfaceKind.pwm
address_interface (DeviceAddress.pwm_channel _ _) = InterfaceKind.pwm
address_interface (DeviceAddress.i2c_bus _) = InterfaceKind.i2c
address_interface (DeviceAddress.i2c_device _ _) = InterfaceKind.i2c
address_interface (DeviceAddress.spi_bus _) = InterfaceKind.spi
address_interface (DeviceAddress.spi_device _ _) = InterfaceKind.spi
address_interface (DeviceAddress.uart_port _) = InterfaceKind.uart
address_interface (DeviceAddress.uart_device _ _) = InterfaceKind.uart
address_interface (DeviceAddress.usb_bus _) = InterfaceKind.usb
address_interface (DeviceAddress.usb_device _ _ _ _) = InterfaceKind.usb
address_interface (DeviceAddress.usb_interface _ _ _ _ _) = InterfaceKind.usb
address_interface (DeviceAddress.custom interface _ _) = interface

unfoldable pub DeviceKind-discrete : Discrete DeviceKind
DeviceKind-discrete = hlevel

unfoldable pub DeviceAddress-discrete : Discrete DeviceAddress
unfolding ℕ_discrete
DeviceAddress-discrete = hlevel ℕ_discrete

-- `Display` of `DeviceKind`.
unfoldable pub display_kind : DeviceKind → Text
display_kind (DeviceKind.unspecified interface) =
    codes "unspecified(" ++ as_str interface ++ codes ")"
display_kind DeviceKind.gpio_chip = codes "gpio-chip"
display_kind DeviceKind.gpio_line = codes "gpio-line"
display_kind DeviceKind.pwm_chip = codes "pwm-chip"
display_kind DeviceKind.pwm_channel = codes "pwm-channel"
display_kind DeviceKind.i2c_bus = codes "i2c-bus"
display_kind DeviceKind.i2c_device = codes "i2c-device"
display_kind DeviceKind.spi_bus = codes "spi-bus"
display_kind DeviceKind.spi_device = codes "spi-device"
display_kind DeviceKind.uart_port = codes "uart-port"
display_kind DeviceKind.uart_device = codes "uart-device"
display_kind DeviceKind.usb_bus = codes "usb-bus"
display_kind DeviceKind.usb_device = codes "usb-device"
display_kind DeviceKind.usb_interface = codes "usb-interface"

-- `==` on kinds, as derived.
unfoldable pub same_kind : DeviceKind → DeviceKind → Bool
unfolding DeviceKind-discrete decide
same_kind a b = decide (DeviceKind-discrete a b)
