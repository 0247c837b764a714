-- ===== src/Mock.antt =====
-- crates/lemnos-mock: simulated hardware behind the sessions of the bus.
pub mod Faults
pub mod Hardware
pub mod Gpio
pub mod Pwm
pub mod Spi
pub mod I2c
pub mod I2cController
pub mod Uart
pub mod Open
pub mod Queues
pub mod Steps
pub mod PwmSafety
pub mod GpioLoop
pub mod UartLoop
pub mod I2cMemory
