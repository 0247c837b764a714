-- ===== src/Drivers.antt =====
-- crates/lemnos-drivers-*: the generic drivers, each over any session of its interface.
pub mod Gpio
pub mod Pwm
pub mod Spi
pub mod Uart
pub mod I2c
pub mod Kept
pub mod PwmKept
pub mod First
pub mod Counted
pub mod I2cLaws
pub mod UsbStats
pub mod Usb
pub mod UsbLaws
