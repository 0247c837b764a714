-- ===== src/Core/Interface.antt =====
-- crates/lemnos-core/src/interface.rs: the six kinds of interface.
use lemnos.Prelude.{Ord, Text, arith, codes, ord_by_rank, text_ord, ℕ, ◌≡◌}

pub data InterfaceKind : Type 0 where
  gpio pwm i2c spi uart usb : InterfaceKind

-- The place of a variant in the declaration, by which the derived `Ord` compares.
abbrev pub interface_rank : InterfaceKind → ℕ
interface_rank InterfaceKind.gpio = 0
interface_rank InterfaceKind.pwm = 1
interface_rank InterfaceKind.i2c = 2
interface_rank InterfaceKind.spi = 3
interface_rank InterfaceKind.uart = 4
interface_rank InterfaceKind.usb = 5

pub interface_rank-injective : (a b : InterfaceKind) → interface_rank a ≡ interface_rank b → a ≡ b
interface_rank-injective a b h = ground arith

instance abbrev pub interface_ord : Ord InterfaceKind
interface_ord = ord_by_rank interface_rank interface_rank-injective

abbrev pub as_str : InterfaceKind → Text
as_str InterfaceKind.gpio = codes "gpio"
as_str InterfaceKind.pwm = codes "pwm"
as_str InterfaceKind.i2c = codes "i2c"
as_str InterfaceKind.spi = codes "spi"
as_str InterfaceKind.uart = codes "uart"
as_str InterfaceKind.usb = codes "usb"
