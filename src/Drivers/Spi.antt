-- ===== src/Drivers/Spi.antt =====
-- crates/lemnos-drivers-spi/src/{bound,stats,values,driver}.rs.
use lemnos.Prelude.Calls.{◌>>=◌, ◌>>◌, done, gets}
use lemnos.Prelude.{List, Option, Text, [], add_u64, codes, length, none, some, text_ord, ℕ, ◌∷◌}
use lemnos.Bus.Session.{SessionAccess}
use lemnos.Bus.Traits.{SpiSession}
use lemnos.Core.Descriptor.{DeviceDescriptor}
use lemnos.Core.Interface.{InterfaceKind, interface_ord}
use lemnos.Core.Kinds.{DeviceAddress, DeviceKind}
use lemnos.Core.Request.Kinds.{
  InteractionRequest, SpiBitOrder, SpiConfiguration, SpiMode, SpiRequest, StandardRequest,
}
use lemnos.Core.Request.Responses.{InteractionResponse, SpiResponse, StandardResponse}
use lemnos.Core.State.{
  DeviceLifecycleState, DeviceStateSnapshot, OperationRecord, new_state, with_config_entry,
  with_lifecycle, with_telemetry,
}
use lemnos.Core.Value.{Value}
use lemnos.Drivers.Gpio.{config_if_some}
use lemnos.Runtime.Requests.{request}
use lemnos.Sdk.Bind.{SessionDriver}
use lemnos.Sdk.Operation.{
  bounded_bytes_output, count_bytes, succeeded_operation_with_output, with_byte_telemetry,
  with_last_operation,
}
use lemnos.Sdk.Session.{DeviceCall, SessionDevice, execute_standard, on_session, record_stats}

pub record SpiStats : Type 0 where
  pub transfer_ops : ℕ
  pub write_ops : ℕ
  pub bytes_read : ℕ
  pub bytes_written : ℕ
  pub last_operation : Option OperationRecord

abbrev pub spi_stats : SpiStats
spi_stats = record {
  transfer_ops = 0;
  write_ops = 0;
  bytes_read = 0;
  bytes_written = 0;
  last_operation = none;
}

-- `SpiStats::record_transfer` and `SpiStats::record_write`.
unfoldable pub record_transfer : List ℕ → List ℕ → Text → SpiStats → SpiStats
unfolding bounded_bytes_output
record_transfer written read summary s = record s {
  transfer_ops = add_u64 s.transfer_ops 1;
  bytes_read = add_u64 s.bytes_read (length read);
  bytes_written = add_u64 s.bytes_written (length written);
  last_operation =
      some (
        succeeded_operation_with_output (codes "spi.transfer") summary (bounded_bytes_output read));
}

unfoldable pub record_spi_write : List ℕ → Text → SpiStats → SpiStats
record_spi_write bytes summary s = record s {
  write_ops = add_u64 s.write_ops 1;
  bytes_written = add_u64 s.bytes_written (length bytes);
  last_operation =
      some (succeeded_operation_with_output (codes "spi.write") summary (Value.u64 (length bytes)));
}

abbrev pub mode_name : SpiMode → Text
mode_name SpiMode.mode0 = codes "mode0"
mode_name SpiMode.mode1 = codes "mode1"
mode_name SpiMode.mode2 = codes "mode2"
mode_name SpiMode.mode3 = codes "mode3"

abbrev pub bit_order_name : SpiBitOrder → Text
bit_order_name SpiBitOrder.msb_first = codes "msb-first"
bit_order_name SpiBitOrder.lsb_first = codes "lsb-first"

abbrev pub SpiBoundDevice : Type 0 → Type 0
SpiBoundDevice S = SessionDevice S SpiStats

with_chip_select : Option DeviceAddress → DeviceStateSnapshot → DeviceStateSnapshot
unfolding with_config_entry
with_chip_select (some (DeviceAddress.spi_device bus chip_select)) state =
    with_config_entry (codes "chip_select") (Value.u64 chip_select)
      (with_config_entry (codes "bus") (Value.u64 bus) state)
with_chip_select _ state = state

-- What `snapshot_state` builds from the configuration.
unfoldable pub spi_state : DeviceDescriptor → SpiStats → SpiConfiguration → DeviceStateSnapshot
unfolding new_state with_config_entry with_telemetry with_byte_telemetry config_if_some
    with_chip_select
spi_state device stats c = with_chip_select device.address (
    with_last_operation stats.last_operation (
      config_if_some (codes "bits_per_word") Value.u64 c.bits_per_word (
        config_if_some (codes "max_frequency_hz") Value.u64 c.max_frequency_hz (
          with_byte_telemetry stats.bytes_read stats.bytes_written (
            with_telemetry (codes "write_ops") (Value.u64 stats.write_ops) (
              with_telemetry (codes "transfer_ops") (Value.u64 stats.transfer_ops) (
                with_config_entry (codes "bit_order") (Value.string (bit_order_name c.bit_order)) (
                  with_config_entry (codes "mode") (Value.string (mode_name c.mode))
                    (with_lifecycle DeviceLifecycleState.idle (new_state device.id))))))))))

module _ {S : Type 0} (session : SpiSession S) where
  -- `snapshot_state`, and the method `state` that returns it.
  unfoldable pub spi_snapshot_state : DeviceCall S SpiStats (Option DeviceStateSnapshot)
  unfolding on_session spi_state
  spi_snapshot_state = do
    configuration ← on_session session.bus session.configuration
    gets λ b. some (spi_state (session.bus.device b.session) b.stats configuration)

  -- `execute_spi_request`.
  unfoldable pub spi_request : SpiRequest → DeviceCall S SpiStats SpiResponse
  unfolding on_session record_transfer record_spi_write
  spi_request (SpiRequest.transfer write) = do
    bytes ← on_session session.bus (session.transfer write)
    record_stats (record_transfer write bytes (count_bytes (codes "transferred ") write))
    done (SpiResponse.bytes bytes)
  spi_request (SpiRequest.write bytes) = do
    on_session session.bus (session.write bytes)
    record_stats (record_spi_write bytes (count_bytes (codes "wrote ") bytes))
    done SpiResponse.applied
  spi_request (SpiRequest.configure configuration) = do
    on_session session.bus (session.configure configuration)
    done SpiResponse.applied
  spi_request SpiRequest.get_configuration = do
    configuration ← on_session session.bus session.configuration
    done (SpiResponse.configuration configuration)

  unfoldable pub spi_handle : InteractionRequest → Option (DeviceCall S SpiStats StandardResponse)
  unfolding spi_request
  spi_handle (InteractionRequest.standard (StandardRequest.spi request)) =
      some (spi_request request >>= λ r. done (StandardResponse.spi r))
  spi_handle _ = none

  -- `SpiBoundDevice::execute`.
  unfoldable pub spi_execute : InteractionRequest → DeviceCall S SpiStats InteractionResponse
  unfolding execute_standard spi_handle
  spi_execute request = execute_standard session.bus spi_handle request

-- `SpiDriver`.
abbrev pub spi_driver : SessionDriver SpiStats
spi_driver = record {
  id = codes "lemnos.spi.generic";
  interface = InterfaceKind.spi;
  kinds = DeviceKind.spi_device ∷ [];
  expected = codes "spi-device";
  access = SessionAccess.shared;
  stats = spi_stats;
}
