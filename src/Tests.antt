-- ===== src/Tests.antt =====
-- The theorems at concrete inputs.
pub mod Samples
pub mod Matching
pub mod Discovery
pub mod Runtime
pub mod Watch
pub mod Devices
pub mod Usb
