-- ===== src/Mock/Spi.antt =====
-- crates/lemnos-mock/src/spi.rs: the sessions on simulated SPI devices.
use lemnos.Prelude.Calls.{◌>>=◌, ◌>>◌, done, modify}
use lemnos.Prelude.{
  Bool, List, Map, Option, [], codes, false, insert, is_empty, length, lookup, none, not, some, suc,
  text_ord, zero, ℕ, ◌==◌, ◌∷◌,
}
use lemnos.Bus.Traits.{SpiSession}
use lemnos.Core.Interface.{interface_ord}
use lemnos.Core.Request.Kinds.{SpiConfiguration}
use lemnos.Drivers.UsbStats.{number_ord}
use lemnos.Mock.Hardware.{
  Clock, MockCall, MockSpiDeviceState, MockWorld, device_id, entry_of, invalid, misconfigured,
  mock_bus, require, require_write, run_call, take_injected_error,
}

abbrev spi_device : MockCall MockSpiDeviceState
spi_device = entry_of (λ hw. hw.spi_devices)

set_device : MockSpiDeviceState → MockCall (Unit {0})
set_device device = modify λ w. record w {
  hardware = record w.hardware { spi_devices = insert (device_id w) device w.hardware.spi_devices };
}

-- `vec![0; n]`.
abbrev pub zeros : ℕ → List ℕ
zeros zero = []
zeros (suc n) = 0 ∷ zeros n

-- `.get(write).cloned().unwrap_or_else(|| vec![0; write.len()])`.
abbrev pub response_to : List ℕ → Map (List ℕ) (List ℕ) → List ℕ
response_to write responses = elim (lookup write responses) [
  | none ↦ zeros (length write)
  | some bytes ↦ bytes
]

abbrev is_zero : Option ℕ → Bool
is_zero none = false
is_zero (some n) = n == 0

-- `validate_configuration`.
unfoldable pub validate_spi_configuration : SpiConfiguration → MockCall (Unit {0})
validate_spi_configuration c = do
  require (not (is_zero c.max_frequency_hz))
      (misconfigured (codes "SPI max frequency must be greater than zero"))
  require (not (is_zero c.bits_per_word))
      (misconfigured (codes "SPI bits per word must be greater than zero"))

-- The bodies that `run_call` runs.
unfoldable pub transfer_body : List ℕ → MockCall (List ℕ)
unfolding take_injected_error set_device
transfer_body write = do
  take_injected_error (codes "spi.transfer")
  device ← spi_device
  set_device (record device { last_write = write })
  done (response_to write device.transfer_responses)

unfoldable pub spi_write_body : List ℕ → MockCall (Unit {0})
unfolding take_injected_error set_device
spi_write_body bytes = do
  take_injected_error (codes "spi.write")
  device ← spi_device
  set_device (record device { last_write = bytes })

unfoldable pub spi_configure_body : SpiConfiguration → MockCall (Unit {0})
unfolding take_injected_error set_device
spi_configure_body c = do
  take_injected_error (codes "spi.configure")
  device ← spi_device
  set_device (record device { configuration = c })

-- The methods of `MockSpiSession`.
unfoldable pub mock_transfer : Clock → List ℕ → MockCall (List ℕ)
unfolding run_call transfer_body
mock_transfer clock write = do
  require_write (codes "spi.transfer") (codes "session access is read-only")
  require (not (is_empty write))
      (invalid (codes "spi.transfer") (codes "transfer payload must not be empty"))
  run_call clock (transfer_body write)

unfoldable pub mock_spi_write : Clock → List ℕ → MockCall (Unit {0})
unfolding run_call spi_write_body
mock_spi_write clock bytes = do
  require_write (codes "spi.write") (codes "session access is read-only")
  require (not (is_empty bytes))
      (invalid (codes "spi.write") (codes "write payload must not be empty"))
  run_call clock (spi_write_body bytes)

unfoldable pub mock_configure_spi : Clock → SpiConfiguration → MockCall (Unit {0})
unfolding run_call spi_configure_body validate_spi_configuration
mock_configure_spi clock c = do
  require_write (codes "spi.configure")
      (codes "session access does not allow configuration changes")
  validate_spi_configuration c
  run_call clock (spi_configure_body c)

unfoldable pub mock_spi_configuration : MockCall SpiConfiguration
unfolding take_injected_error
mock_spi_configuration = do
  take_injected_error (codes "spi.get_configuration")
  device ← spi_device
  done device.configuration

unfoldable pub mock_spi_session : Clock → SpiSession MockWorld
unfolding mock_bus mock_transfer mock_spi_write mock_configure_spi mock_spi_configuration
mock_spi_session clock = record {
  bus = mock_bus clock;
  transfer = mock_transfer clock;
  write = mock_spi_write clock;
  configure = mock_configure_spi clock;
  configuration = mock_spi_configuration;
}
