-- ===== src/Mock/I2c.antt =====
-- crates/lemnos-mock/src/i2c.rs: simulated I2C devices, a memory of bytes and a pointer into it, and
-- the sessions on them. Indices are `usize`s of a 64-bit target.
use lemnos.Prelude.Calls.{Call, ◌>>=◌, ◌>>◌, done, modify}
use lemnos.Prelude.{
  List, Option, [], codes, drop, err, get_elem?, if◌then◌else◌, insert, is_empty, length, lookup,
  ltb, none, not, ok, saturating_add, some, suc, text_ord, zero, ℕ, ◌%◌, ◌++◌, ◌+◌, ◌-◌, ◌==◌, ◌^◌,
  ◌∷◌,
}
use lemnos.Bus.Error.{BusError}
use lemnos.Bus.Traits.{I2cSession}
use lemnos.Core.Ids.{DeviceId}
use lemnos.Core.Interface.{interface_ord}
use lemnos.Core.Request.Kinds.{I2cOperation}
use lemnos.Drivers.UsbStats.{number_ord}
use lemnos.Mock.Hardware.{
  Clock, MockCall, MockI2cDeviceState, MockWorld, device_id, invalid, mock_bus, require, run_call,
  take_injected_error,
}
use lemnos.Mock.Spi.{zeros}
use lemnos.Runtime.Defs.{start}
use lemnos.Sdk.Operation.{first_bytes}

abbrev pub I2cCall : Type 0 → Type 0
I2cCall A = Call MockI2cDeviceState BusError A

abbrev pub byte_or_zero : Option ℕ → ℕ
byte_or_zero none = 0
byte_or_zero (some b) = b

-- The loop of `read_from_state`, from an index on.
unfoldable pub read_bytes : List ℕ → ℕ → ℕ → ℕ → List ℕ
read_bytes memory start index zero = []
read_bytes memory start index (suc n) =
    byte_or_zero (get_elem? memory ((start + index) % 2 ^ 64))
    ∷ read_bytes memory start (suc index) n

-- `read_from_state`.
unfoldable pub read_from_state : ℕ → I2cCall (List ℕ)
unfolding read_bytes
read_from_state n device = (
  record device { pointer = saturating_add device.pointer n },
  ok (read_bytes device.memory device.pointer 0 n),
)

-- `resize(n, 0)` where the memory is shorter.
unfoldable pub grow : ℕ → List ℕ → List ℕ
grow n memory = if ltb (length memory) n then memory ++ zeros (n - length memory) else memory

-- `memory[offset..offset + n].copy_from_slice(bytes)`.
unfoldable pub overwrite : ℕ → List ℕ → List ℕ → List ℕ
overwrite offset bytes memory =
    first_bytes offset memory ++ (bytes ++ drop (offset + length bytes) memory)

-- `write_to_state`.
unfoldable pub write_to_state : DeviceId → List ℕ → I2cCall (Unit {0})
unfolding grow overwrite
write_to_state id [] device = (
  device,
  err (BusError.invalid_request id (codes "i2c.write") (codes "write payload must not be empty")),
)
write_to_state id (offset ∷ []) device = (record device { pointer = offset }, ok tt)
write_to_state id (offset ∷ b ∷ bytes) device = (
  record device {
    memory = overwrite offset (b ∷ bytes) (grow (offset + length (b ∷ bytes)) device.memory);
    pointer = offset + length (b ∷ bytes);
  },
  ok tt,
)

abbrev pub first_or_zero : List ℕ → ℕ
first_or_zero [] = 0
first_or_zero (b ∷ bytes) = b

abbrev set_pointer : ℕ → I2cCall (Unit {0})
set_pointer pointer = modify λ device. record device { pointer = pointer }

-- The update of `write_read`.
unfoldable pub write_read_state : DeviceId → List ℕ → ℕ → I2cCall (List ℕ)
unfolding write_to_state read_from_state
write_read_state id write n =
    if length write == 1
    then (set_pointer (first_or_zero write) >> read_from_state n)
    else (write_to_state id write >> (set_pointer (first_or_zero write) >> read_from_state n))

-- The loop of `transaction`.
unfoldable pub transaction_state : DeviceId → List I2cOperation → I2cCall (List (List ℕ))
unfolding write_to_state read_from_state
transaction_state id [] = done []
transaction_state id (I2cOperation.read n ∷ ops) = do
  bytes ← read_from_state n
  results ← transaction_state id ops
  done (bytes ∷ results)
transaction_state id (I2cOperation.write bytes ∷ ops) = do
  write_to_state id bytes
  results ← transaction_state id ops
  done ([] ∷ results)

update_device : {A : Type 0} → I2cCall A → Option MockI2cDeviceState → MockCall A
update_device update none w = (w, err (BusError.disconnected (device_id w)))
update_device update (some device) w =
    let (left, r) = update device in
    (
      record w {
        hardware = record w.hardware {
          i2c_devices = insert (device_id w) left w.hardware.i2c_devices;
        };
      },
      r,
    )

-- `with_device_state_mut`: what the update changed stays changed when it fails.
unfoldable pub with_device_state_mut : {A : Type 0} → I2cCall A → MockCall A
unfolding update_device
with_device_state_mut update w =
    update_device update (lookup (device_id w) w.hardware.i2c_devices) w

-- The methods of `MockI2cSession`.
unfoldable pub mock_i2c_read : Clock → ℕ → MockCall (List ℕ)
unfolding run_call take_injected_error with_device_state_mut read_from_state
mock_i2c_read clock n = do
  require (not (n == 0))
      (invalid (codes "i2c.read") (codes "read length must be greater than zero"))
  run_call clock
      (take_injected_error (codes "i2c.read") >> with_device_state_mut (read_from_state n))

unfoldable pub mock_i2c_write : Clock → List ℕ → MockCall (Unit {0})
unfolding run_call take_injected_error with_device_state_mut write_to_state
mock_i2c_write clock bytes = run_call clock (
    take_injected_error (codes "i2c.write") >> λ w.
    with_device_state_mut (write_to_state (device_id w) bytes) w)

unfoldable pub mock_write_read : Clock → List ℕ → ℕ → MockCall (List ℕ)
unfolding run_call take_injected_error with_device_state_mut write_read_state
mock_write_read clock write n = do
  require (not (n == 0))
      (invalid (codes "i2c.write_read") (codes "read length must be greater than zero"))
  run_call clock (
      take_injected_error (codes "i2c.write_read") >> λ w.
      with_device_state_mut (write_read_state (device_id w) write n) w)

unfoldable pub mock_transaction : Clock → List I2cOperation → MockCall (List (List ℕ))
unfolding run_call take_injected_error with_device_state_mut transaction_state
mock_transaction clock operations = do
  require (not (is_empty operations))
      (invalid (codes "i2c.transaction") (codes "transaction operations must not be empty"))
  run_call clock (
      take_injected_error (codes "i2c.transaction") >> λ w.
      with_device_state_mut (transaction_state (device_id w) operations) w)

unfoldable pub mock_i2c_session : Clock → I2cSession MockWorld
unfolding mock_bus mock_i2c_read mock_i2c_write mock_write_read mock_transaction
mock_i2c_session clock = record {
  bus = mock_bus clock;
  read = mock_i2c_read clock;
  write = mock_i2c_write clock;
  write_read = mock_write_read clock;
  transaction = mock_transaction clock;
}
