-- ===== src/Mock/I2cMemory.antt =====
-- What was written to a simulated I2C device is read back: crates/lemnos-mock/src/i2c.rs.
use lemnos.Prelude.{
  List, [], ap, append_assoc, arith, drop, get_elem?, if-cases, length, length-append, ltb, ok,
  refl, some, subst, suc, sym, text_ord, zero, ℕ, ◌%◌, ◌++◌, ◌+◌, ◌-◌, ◌<◌, ◌^◌, ◌∙◌, ◌∷◌, ◌≡◌, ◌≤◌,
}
use lemnos.Core.Ids.{DeviceId}
use lemnos.Core.Interface.{interface_ord}
use lemnos.Drivers.UsbStats.{number_ord}
use lemnos.Mock.Hardware.{MockI2cDeviceState}
use lemnos.Mock.I2c.{
  byte_or_zero, grow, overwrite, read_bytes, read_from_state, write_read_state, write_to_state,
}
use lemnos.Mock.Spi.{zeros}
use lemnos.Mock.UartLoop.{length-first_bytes}
use lemnos.Runtime.Defs.{start}
use lemnos.Sdk.Operation.{first_bytes}

at_length : (xs : List ℕ) (b : ℕ) (ys : List ℕ) → get_elem? (xs ++ b ∷ ys) (length xs) ≡ some b
at_length [] b ys = refl
at_length (x ∷ xs) b ys = at_length xs b ys

no_wrap : (n : ℕ) → n < 2 ^ 64 → n % 2 ^ 64 ≡ n
no_wrap n h = omega arith

-- Reading the bytes that stand behind others.
read_bytes-append :
    (before bytes after : List ℕ) (start index : ℕ)
    → length before ≡ start + index
    → start + index + length bytes < 2 ^ 64
    → read_bytes (before ++ (bytes ++ after)) start index (length bytes) ≡ bytes
unfolding read_bytes
read_bytes-append before [] after start index h small = refl
read_bytes-append before (b ∷ bytes) after start index h small =
    let wrap : (start + index) % 2 ^ 64 ≡ length before =
      no_wrap (start + index) (omega arith) ∙ sym h in
    let next : length (before ++ b ∷ []) ≡ start + suc index =
      omega (arith, length-append before (b ∷ [])) in
    let rest =
      read_bytes-append (before ++ b ∷ []) bytes after start (suc index) next (omega arith) in
    let moved : (before ++ b ∷ []) ++ (bytes ++ after) ≡ before ++ (b ∷ (bytes ++ after)) =
      append_assoc before (b ∷ []) (bytes ++ after) in
    let tail : read_bytes (before ++ (b ∷ (bytes ++ after))) start (suc index) (length bytes)
        ≡ bytes =
      subst (λ m. read_bytes m start (suc index) (length bytes) ≡ bytes) moved rest in
    let head : byte_or_zero
          (get_elem? (before ++ (b ∷ (bytes ++ after))) ((start + index) % 2 ^ 64))
        ≡ b =
      ap (λ i. byte_or_zero (get_elem? (before ++ (b ∷ (bytes ++ after))) i)) wrap
      ∙ ap byte_or_zero (at_length before b (bytes ++ after)) in
    rw (head, tail) refl

length-zeros : (n : ℕ) → length (zeros n) ≡ n
length-zeros zero = refl
length-zeros (suc n) = omega (arith, length-zeros n)

grow-length : (n : ℕ) (memory : List ℕ) → n ≤ length (grow n memory)
unfolding grow
grow-length n memory =
    if-cases (λ m. n ≤ length m) (ltb (length memory) n) _ memory
      (λ _.
        let size = length-append memory (zeros (n - length memory)) in
        omega (arith, size, length-zeros (n - length memory)))
      (λ e. ground arith)

-- The bytes that a write puts behind an offset of the memory are what a combined write and read at
-- that offset returns, while the addresses stay below the largest index.
pub write_to_state-write_read_state :
    (id : DeviceId) (offset b : ℕ) (bytes : List ℕ) (device : MockI2cDeviceState)
    → offset + length (b ∷ bytes) < 2 ^ 64
    → (write_read_state id
        (offset ∷ [])
        (length (b ∷ bytes))
        (write_to_state id (offset ∷ b ∷ bytes) device).0).1
      ≡ ok (b ∷ bytes)
unfolding write_read_state write_to_state read_from_state overwrite
write_to_state-write_read_state id offset b bytes device small =
    let grown = grow (offset + length (b ∷ bytes)) device.memory in
    let enough = grow-length (offset + length (b ∷ bytes)) device.memory in
    let size : length (first_bytes offset grown) ≡ offset + 0 =
      omega (arith, length-first_bytes offset grown, enough) in
    ap ok (
      read_bytes-append (first_bytes offset grown) (b ∷ bytes)
        (drop (offset + length (b ∷ bytes)) grown) offset 0 size (omega arith))
