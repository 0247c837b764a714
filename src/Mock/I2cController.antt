-- ===== src/Mock/I2cController.antt =====
-- crates/lemnos-mock/src/i2c.rs: sessions on a simulated I2C bus, whose calls name the address of the
-- device that they are for. The session's own device is the owner of the bus.
use lemnos.Prelude.Calls.{◌>>◌}
use lemnos.Prelude.{
  Bool, List, Option, [], codes, decimal, err, false, if◌then◌else◌, insert, is_empty, none, not,
  some, text_ord, ℕ, ◌&&◌, ◌++◌, ◌==◌, ◌∷◌,
}
use lemnos.Bus.Error.{BusError}
use lemnos.Bus.Traits.{I2cControllerSession}
use lemnos.Core.Ids.{DeviceId}
use lemnos.Core.Interface.{interface_ord}
use lemnos.Core.Kinds.{DeviceAddress}
use lemnos.Core.Request.Kinds.{I2cOperation}
use lemnos.Drivers.UsbStats.{number_ord}
use lemnos.Mock.Hardware.{
  Clock, MockCall, MockI2cDeviceState, MockWorld, device_id, invalid, mock_bus, require, run_call,
  take_injected_error,
}
use lemnos.Mock.I2c.{I2cCall, read_from_state, transaction_state, write_read_state, write_to_state}
use lemnos.Sdk.Operation.{hex}

is_addressed : ℕ → ℕ → Option DeviceAddress → Bool
is_addressed bus address (some (DeviceAddress.i2c_device candidate_bus candidate)) =
    candidate_bus == bus && candidate == address
is_addressed bus address _ = false

-- The search of `with_target_device_state_mut`, in the order of the map's keys.
unfoldable pub target_device :
    ℕ → ℕ → List (DeviceId × MockI2cDeviceState) → Option (DeviceId × MockI2cDeviceState)
unfolding is_addressed
target_device bus address [] = none
target_device bus address ((id, device) ∷ devices) =
    if is_addressed bus address device.descriptor.address
    then some (id, device)
    else target_device bus address devices

update_target :
    {A : Type 0} → ℕ → ℕ → I2cCall A → Option (DeviceId × MockI2cDeviceState) → MockCall A
unfolding hex
update_target bus address update none w = (
  w,
  err (
      BusError.session_unavailable (device_id w) (
        codes "mock I2C address 0x"
        ++ (hex 2 address ++ (codes " is not available on bus " ++ decimal bus)))),
)
update_target bus address update (some (id, device)) w =
    let (left, r) = update device in
    (
      record w {
        hardware = record w.hardware { i2c_devices = insert id left w.hardware.i2c_devices };
      },
      r,
    )

-- `with_target_device_state_mut`, on the bus of the session.
unfoldable pub with_target_device_state_mut : {A : Type 0} → ℕ → ℕ → I2cCall A → MockCall A
unfolding update_target target_device
with_target_device_state_mut bus address update w =
    update_target bus address update (target_device bus address w.hardware.i2c_devices) w

-- The methods of `MockI2cControllerSession`.
unfoldable pub controller_read : Clock → ℕ → ℕ → ℕ → MockCall (List ℕ)
unfolding run_call take_injected_error with_target_device_state_mut read_from_state
controller_read clock bus address n = do
  require (not (n == 0))
      (invalid (codes "i2c.read") (codes "read length must be greater than zero"))
  run_call clock (
      take_injected_error (codes "i2c.read")
      >> with_target_device_state_mut bus address (read_from_state n))

unfoldable pub controller_write : Clock → ℕ → ℕ → List ℕ → MockCall (Unit {0})
unfolding run_call take_injected_error with_target_device_state_mut write_to_state
controller_write clock bus address bytes = run_call clock (
    take_injected_error (codes "i2c.write") >> λ w.
    with_target_device_state_mut bus address (write_to_state (device_id w) bytes) w)

unfoldable pub controller_write_read : Clock → ℕ → ℕ → List ℕ → ℕ → MockCall (List ℕ)
unfolding run_call take_injected_error with_target_device_state_mut write_read_state
controller_write_read clock bus address write n = do
  require (not (n == 0))
      (invalid (codes "i2c.write_read") (codes "read length must be greater than zero"))
  run_call clock (
      take_injected_error (codes "i2c.write_read") >> λ w.
      with_target_device_state_mut bus address (write_read_state (device_id w) write n) w)

unfoldable pub controller_transaction : Clock → ℕ → ℕ → List I2cOperation → MockCall (List (List ℕ))
unfolding run_call take_injected_error with_target_device_state_mut transaction_state
controller_transaction clock bus address operations = do
  require (not (is_empty operations))
      (invalid (codes "i2c.transaction") (codes "transaction operations must not be empty"))
  run_call clock (
      take_injected_error (codes "i2c.transaction") >> λ w.
      with_target_device_state_mut bus address (transaction_state (device_id w) operations) w)

unfoldable pub mock_i2c_controller_session : Clock → ℕ → I2cControllerSession MockWorld
unfolding mock_bus controller_read controller_write controller_write_read controller_transaction
mock_i2c_controller_session clock bus = record {
  session = mock_bus clock;
  bus = bus;
  read = controller_read clock bus;
  write = controller_write clock bus;
  write_read = controller_write_read clock bus;
  transaction = controller_transaction clock bus;
}
