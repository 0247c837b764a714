-- ===== src/Drivers/I2c.antt =====
-- crates/lemnos-drivers-i2c/src/{bound,stats,driver}.rs.
use lemnos.Prelude.Calls.{◌>>=◌, ◌>>◌, done, gets}
use lemnos.Prelude.{
  List, Option, Text, [], add_u64, codes, decimal, ensure, length, none, some, text_ord, ℕ, ◌%◌,
  ◌++◌, ◌+◌, ◌==◌, ◌^◌, ◌∷◌,
}
use lemnos.Bus.Session.{SessionAccess}
use lemnos.Bus.Traits.{I2cSession}
use lemnos.Core.Descriptor.{DeviceDescriptor}
use lemnos.Core.Interface.{InterfaceKind, interface_ord}
use lemnos.Core.Kinds.{DeviceAddress, DeviceKind}
use lemnos.Core.Request.Kinds.{I2cOperation, I2cRequest, InteractionRequest, StandardRequest}
use lemnos.Core.Request.Responses.{
  I2cResponse, I2cTransactionResult, InteractionResponse, StandardResponse,
}
use lemnos.Core.State.{
  DeviceLifecycleState, DeviceStateSnapshot, OperationRecord, new_state, with_config_entry,
  with_lifecycle, with_telemetry,
}
use lemnos.Core.Value.{Value}
use lemnos.Runtime.Requests.{request}
use lemnos.Sdk.Bind.{SessionDriver}
use lemnos.Sdk.Error.{DriverError}
use lemnos.Sdk.Operation.{
  bounded_bytes_output, count_bytes, hex, succeeded_operation_with_output, with_byte_telemetry,
  with_last_operation,
}
use lemnos.Sdk.Session.{DeviceCall, SessionDevice, execute_standard, on_session, record_stats}

pub record I2cStats : Type 0 where
  pub read_ops : ℕ
  pub write_ops : ℕ
  pub write_read_ops : ℕ
  pub transaction_ops : ℕ
  pub bytes_read : ℕ
  pub bytes_written : ℕ
  pub last_operation : Option OperationRecord

abbrev pub i2c_stats : I2cStats
i2c_stats = record {
  read_ops = 0;
  write_ops = 0;
  write_read_ops = 0;
  transaction_ops = 0;
  bytes_read = 0;
  bytes_written = 0;
  last_operation = none;
}

-- The methods of `I2cStats`.
unfoldable pub record_i2c_read : List ℕ → Text → I2cStats → I2cStats
unfolding bounded_bytes_output
record_i2c_read bytes summary s = record s {
  read_ops = add_u64 s.read_ops 1;
  bytes_read = add_u64 s.bytes_read (length bytes);
  last_operation =
      some
        (succeeded_operation_with_output (codes "i2c.read") summary (bounded_bytes_output bytes));
}

unfoldable pub record_i2c_write : ℕ → Text → I2cStats → I2cStats
record_i2c_write count summary s = record s {
  write_ops = add_u64 s.write_ops 1;
  bytes_written = add_u64 s.bytes_written count;
  last_operation =
      some (succeeded_operation_with_output (codes "i2c.write") summary (Value.u64 count));
}

unfoldable pub record_write_read : ℕ → List ℕ → Text → I2cStats → I2cStats
unfolding bounded_bytes_output
record_write_read count read summary s = record s {
  write_read_ops = add_u64 s.write_read_ops 1;
  bytes_read = add_u64 s.bytes_read (length read);
  bytes_written = add_u64 s.bytes_written count;
  last_operation = some (
      succeeded_operation_with_output (codes "i2c.write_read") summary (bounded_bytes_output read));
}

unfoldable pub record_transaction : ℕ → ℕ → ℕ → Text → I2cStats → I2cStats
record_transaction operations written read summary s = record s {
  transaction_ops = add_u64 s.transaction_ops 1;
  bytes_read = add_u64 s.bytes_read read;
  bytes_written = add_u64 s.bytes_written written;
  last_operation =
      some
        (succeeded_operation_with_output (codes "i2c.transaction") summary (Value.u64 operations));
}

abbrev pub I2cBoundDevice : Type 0 → Type 0
I2cBoundDevice S = SessionDevice S I2cStats

with_i2c_address : Option DeviceAddress → DeviceStateSnapshot → DeviceStateSnapshot
unfolding with_config_entry
with_i2c_address (some (DeviceAddress.i2c_device bus address)) state =
    with_config_entry (codes "address_hex") (Value.string (codes "0x" ++ hex 2 address)) (
      with_config_entry (codes "address") (Value.u64 address)
        (with_config_entry (codes "bus") (Value.u64 bus) state))
with_i2c_address _ state = state

-- `snapshot_state`, which asks the session for nothing.
unfoldable pub i2c_state : DeviceDescriptor → I2cStats → DeviceStateSnapshot
unfolding new_state with_telemetry with_byte_telemetry with_i2c_address
i2c_state device stats = with_i2c_address device.address (
    with_last_operation stats.last_operation (
      with_byte_telemetry stats.bytes_read stats.bytes_written (
        with_telemetry (codes "transaction_ops") (Value.u64 stats.transaction_ops) (
          with_telemetry (codes "write_read_ops") (Value.u64 stats.write_read_ops) (
            with_telemetry (codes "write_ops") (Value.u64 stats.write_ops) (
              with_telemetry (codes "read_ops") (Value.u64 stats.read_ops)
                (with_lifecycle DeviceLifecycleState.idle (new_state device.id))))))))

-- What the loop over a transaction has gathered: results, bytes written and bytes read. The bytes of
-- a result are cast to `u32`.
pub record Transacted : Type 0 where
  pub results : List I2cTransactionResult
  pub bytes_written : ℕ
  pub bytes_read : ℕ

unfoldable pub transact_one : I2cOperation → List ℕ → Transacted → Transacted
transact_one (I2cOperation.read length_) raw t = record t {
  results = t.results ++ I2cTransactionResult.read raw ∷ [];
  bytes_read = t.bytes_read + length raw;
}
transact_one (I2cOperation.write bytes) raw t = record t {
  results = t.results ++ I2cTransactionResult.write (length bytes % 2 ^ 32) ∷ [];
  bytes_written = t.bytes_written + length bytes;
}

-- The loop over `operations.iter().zip(raw_results)`.
unfoldable pub transact : List I2cOperation → List (List ℕ) → Transacted → Transacted
unfolding transact_one
transact [] raws t = t
transact (op ∷ ops) [] t = t
transact (op ∷ ops) (raw ∷ raws) t = transact ops raws (transact_one op raw t)

module _ {S : Type 0} (session : I2cSession S) where
  -- The method `state`.
  unfoldable pub i2c_snapshot_state : DeviceCall S I2cStats (Option DeviceStateSnapshot)
  unfolding i2c_state
  i2c_snapshot_state = gets λ b. some (i2c_state (session.bus.device b.session) b.stats)

  unfoldable pub mismatch : ℕ → ℕ → DeviceCall S I2cStats (Unit {0})
  mismatch results operations b = (
    b,
    ensure (results == operations) (
        DriverError.invariant_violation b.driver_id (session.bus.device b.session).id (
          codes "backend returned "
          ++ (decimal results
              ++ (codes " results for " ++ (decimal operations ++ codes " operations"))))),
  )

  -- `execute_i2c_request`.
  unfoldable pub i2c_request : I2cRequest → DeviceCall S I2cStats I2cResponse
  unfolding on_session record_i2c_read record_i2c_write record_write_read record_transaction
      transact mismatch
  i2c_request (I2cRequest.read length_) = do
    bytes ← on_session session.bus (session.read length_)
    record_stats (record_i2c_read bytes (count_bytes (codes "read ") bytes))
    done (I2cResponse.bytes bytes)
  i2c_request (I2cRequest.write bytes) = do
    on_session session.bus (session.write bytes)
    record_stats (record_i2c_write (length bytes) (count_bytes (codes "wrote ") bytes))
    done I2cResponse.applied
  i2c_request (I2cRequest.write_read write read_length) = do
    bytes ← on_session session.bus (session.write_read write read_length)
    record_stats (
        record_write_read (length write) bytes
          (count_bytes (codes "wrote ") write ++ count_bytes (codes " and read ") bytes))
    done (I2cResponse.bytes bytes)
  i2c_request (I2cRequest.transaction operations) = do
    raws ← on_session session.bus (session.transaction operations)
    mismatch (length raws) (length operations)
    let t = transact operations raws (record { results = []; bytes_written = 0; bytes_read = 0 })
    record_stats (
        record_transaction (length operations) t.bytes_written t.bytes_read (
          codes "executed "
          ++ (decimal (length operations)
              ++ (codes " transaction operations ("
                  ++ (decimal t.bytes_written
                      ++ (codes " bytes written, "
                          ++ (decimal t.bytes_read ++ codes " bytes read)")))))))
    done (I2cResponse.transaction t.results)

  unfoldable pub i2c_handle : InteractionRequest → Option (DeviceCall S I2cStats StandardResponse)
  unfolding i2c_request
  i2c_handle (InteractionRequest.standard (StandardRequest.i2c request)) =
      some (i2c_request request >>= λ r. done (StandardResponse.i2c r))
  i2c_handle _ = none

  -- `I2cBoundDevice::execute`.
  unfoldable pub i2c_execute : InteractionRequest → DeviceCall S I2cStats InteractionResponse
  unfolding execute_standard i2c_handle
  i2c_execute request = execute_standard session.bus i2c_handle request

-- `I2cDriver`.
abbrev pub i2c_driver : SessionDriver I2cStats
i2c_driver = record {
  id = codes "lemnos.i2c.generic";
  interface = InterfaceKind.i2c;
  kinds = DeviceKind.i2c_device ∷ [];
  expected = codes "i2c-device";
  access = SessionAccess.shared;
  stats = i2c_stats;
}
