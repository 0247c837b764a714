-- ===== src/Bus/Buffers.antt =====
-- crates/lemnos-bus/src/i2c.rs: the methods of `I2cSession` and `I2cControllerSession` that read into a
-- buffer of the caller. The buffer is given by its length, which is cast to a `u32` for the request;
-- the result is what the buffer holds after a success.
use lemnos.Prelude.Calls.{◌>>=◌}
use lemnos.Prelude.{
  List, Text, codes, decimal, err, if◌then◌else◌, length, ok, text_ord, ℕ, ◌%◌, ◌++◌, ◌==◌, ◌^◌,
}
use lemnos.Bus.Error.{BusError}
use lemnos.Bus.Traits.{BusCall, BusSession, I2cControllerSession, I2cSession}
use lemnos.Core.Interface.{interface_ord}

-- The check of the four methods after their read.
unfoldable pub fill : {S : Type 0} → BusSession S → Text → Text → ℕ → List ℕ → BusCall S (List ℕ)
fill bus operation call n bytes s = if length bytes == n then (s, ok bytes) else (
  s,
  err (
      BusError.transport_failure (bus.device s).id operation (
        codes "expected "
        ++ (decimal n
            ++ (codes " bytes from I2C "
                ++ (call ++ (codes ", received " ++ decimal (length bytes))))))),
)

unfoldable pub read_into : {S : Type 0} → I2cSession S → ℕ → BusCall S (List ℕ)
unfolding fill
read_into session n =
    session.read (n % 2 ^ 32) >>= fill session.bus (codes "i2c.read") (codes "read") n

unfoldable pub write_read_into : {S : Type 0} → I2cSession S → List ℕ → ℕ → BusCall S (List ℕ)
unfolding fill
write_read_into session write n =
    session.write_read write (n % 2 ^ 32)
    >>= fill session.bus (codes "i2c.write_read") (codes "write_read") n

unfoldable pub controller_read_into :
    {S : Type 0} → I2cControllerSession S → ℕ → ℕ → BusCall S (List ℕ)
unfolding fill
controller_read_into controller address n =
    controller.read address (n % 2 ^ 32)
    >>= fill controller.session (codes "i2c.read") (codes "controller read") n

unfoldable pub controller_write_read_into :
    {S : Type 0} → I2cControllerSession S → ℕ → List ℕ → ℕ → BusCall S (List ℕ)
unfolding fill
controller_write_read_into controller address write n =
    controller.write_read address write (n % 2 ^ 32)
    >>= fill controller.session (codes "i2c.write_read") (codes "controller write_read") n
