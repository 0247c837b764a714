-- ===== src/Drivers/Uart.antt =====
-- crates/lemnos-drivers-uart/src/{bound,stats,values,driver}.rs.
use lemnos.Prelude.Calls.{◌>>=◌, ◌>>◌, done, gets}
use lemnos.Prelude.{List, Option, Text, [], add_u64, codes, length, none, some, text_ord, ℕ, ◌∷◌}
use lemnos.Bus.Session.{SessionAccess}
use lemnos.Bus.Traits.{UartSession}
use lemnos.Core.Descriptor.{DeviceDescriptor}
use lemnos.Core.Interface.{InterfaceKind, interface_ord}
use lemnos.Core.Kinds.{DeviceAddress, DeviceKind}
use lemnos.Core.Request.Kinds.{
  InteractionRequest, StandardRequest, UartConfiguration, UartDataBits, UartFlowControl, UartParity,
  UartRequest, UartStopBits,
}
use lemnos.Core.Request.Responses.{InteractionResponse, StandardResponse, UartResponse}
use lemnos.Core.State.{
  DeviceLifecycleState, DeviceStateSnapshot, OperationRecord, new_state, with_config_entry,
  with_lifecycle, with_telemetry,
}
use lemnos.Core.Value.{Value}
use lemnos.Runtime.Requests.{request}
use lemnos.Sdk.Bind.{SessionDriver}
use lemnos.Sdk.Operation.{
  bounded_bytes_output, count_bytes, succeeded_operation, succeeded_operation_with_output,
  with_byte_telemetry, with_last_operation,
}
use lemnos.Sdk.Session.{DeviceCall, SessionDevice, execute_standard, on_session, record_stats}

pub record UartStats : Type 0 where
  pub read_ops : ℕ
  pub write_ops : ℕ
  pub flush_ops : ℕ
  pub bytes_read : ℕ
  pub bytes_written : ℕ
  pub last_operation : Option OperationRecord

abbrev pub uart_stats : UartStats
uart_stats = record {
  read_ops = 0;
  write_ops = 0;
  flush_ops = 0;
  bytes_read = 0;
  bytes_written = 0;
  last_operation = none;
}

-- The methods of `UartStats`.
unfoldable pub record_uart_read : List ℕ → Text → UartStats → UartStats
unfolding bounded_bytes_output
record_uart_read bytes summary s = record s {
  read_ops = add_u64 s.read_ops 1;
  bytes_read = add_u64 s.bytes_read (length bytes);
  last_operation =
      some
        (succeeded_operation_with_output (codes "uart.read") summary (bounded_bytes_output bytes));
}

unfoldable pub record_uart_write : List ℕ → Text → UartStats → UartStats
record_uart_write bytes summary s = record s {
  write_ops = add_u64 s.write_ops 1;
  bytes_written = add_u64 s.bytes_written (length bytes);
  last_operation =
      some
        (succeeded_operation_with_output (codes "uart.write") summary (Value.u64 (length bytes)));
}

unfoldable pub record_flush : Text → UartStats → UartStats
record_flush summary s = record s {
  flush_ops = add_u64 s.flush_ops 1;
  last_operation = some (succeeded_operation (codes "uart.flush") summary);
}

abbrev pub data_bits_name : UartDataBits → Text
data_bits_name UartDataBits.five = codes "5"
data_bits_name UartDataBits.six = codes "6"
data_bits_name UartDataBits.seven = codes "7"
data_bits_name UartDataBits.eight = codes "8"

abbrev pub parity_name : UartParity → Text
parity_name UartParity.unparitied = codes "none"
parity_name UartParity.even = codes "even"
parity_name UartParity.odd = codes "odd"

abbrev pub stop_bits_name : UartStopBits → Text
stop_bits_name UartStopBits.one = codes "1"
stop_bits_name UartStopBits.two = codes "2"

abbrev pub flow_control_name : UartFlowControl → Text
flow_control_name UartFlowControl.uncontrolled = codes "none"
flow_control_name UartFlowControl.software = codes "software"
flow_control_name UartFlowControl.hardware = codes "hardware"

abbrev pub UartBoundDevice : Type 0 → Type 0
UartBoundDevice S = SessionDevice S UartStats

with_port : Option DeviceAddress → DeviceStateSnapshot → DeviceStateSnapshot
unfolding with_config_entry
with_port (some (DeviceAddress.uart_port port)) state =
    with_config_entry (codes "port") (Value.string port) state
with_port _ state = state

-- What `snapshot_state` builds from the configuration.
unfoldable pub uart_state : DeviceDescriptor → UartStats → UartConfiguration → DeviceStateSnapshot
unfolding new_state with_config_entry with_telemetry with_byte_telemetry with_port
uart_state device stats c = with_port device.address (
    with_last_operation stats.last_operation (
      with_byte_telemetry stats.bytes_read stats.bytes_written (
        with_telemetry (codes "flush_ops") (Value.u64 stats.flush_ops) (
          with_telemetry (codes "write_ops") (Value.u64 stats.write_ops) (
            with_telemetry (codes "read_ops") (Value.u64 stats.read_ops) (
              with_config_entry (codes "flow_control")
                (Value.string (flow_control_name c.flow_control))
                (with_config_entry (codes "stop_bits") (Value.string (stop_bits_name c.stop_bits)) (
                  with_config_entry (codes "parity") (Value.string (parity_name c.parity)) (
                    with_config_entry (codes "data_bits")
                      (Value.string (data_bits_name c.data_bits))
                      (with_config_entry (codes "baud_rate") (Value.u64 c.baud_rate)
                        (with_lifecycle DeviceLifecycleState.idle (new_state device.id))))))))))))

module _ {S : Type 0} (session : UartSession S) where
  -- `snapshot_state`, and the method `state` that returns it.
  unfoldable pub uart_snapshot_state : DeviceCall S UartStats (Option DeviceStateSnapshot)
  unfolding on_session uart_state
  uart_snapshot_state = do
    configuration ← on_session session.bus session.configuration
    gets λ b. some (uart_state (session.bus.device b.session) b.stats configuration)

  -- `execute_uart_request`.
  unfoldable pub uart_request : UartRequest → DeviceCall S UartStats UartResponse
  unfolding on_session record_uart_read record_uart_write record_flush
  uart_request (UartRequest.read max_bytes) = do
    bytes ← on_session session.bus (session.read max_bytes)
    record_stats (record_uart_read bytes (count_bytes (codes "read ") bytes))
    done (UartResponse.bytes bytes)
  uart_request (UartRequest.write bytes) = do
    on_session session.bus (session.write bytes)
    record_stats (record_uart_write bytes (count_bytes (codes "wrote ") bytes))
    done UartResponse.applied
  uart_request (UartRequest.configure configuration) = do
    on_session session.bus (session.configure configuration)
    done UartResponse.applied
  uart_request UartRequest.flush = do
    on_session session.bus session.flush
    record_stats (record_flush (codes "flushed UART port"))
    done UartResponse.applied
  uart_request UartRequest.get_configuration = do
    configuration ← on_session session.bus session.configuration
    done (UartResponse.configuration configuration)

  unfoldable pub uart_handle : InteractionRequest → Option (DeviceCall S UartStats StandardResponse)
  unfolding uart_request
  uart_handle (InteractionRequest.standard (StandardRequest.uart request)) =
      some (uart_request request >>= λ r. done (StandardResponse.uart r))
  uart_handle _ = none

  -- `UartBoundDevice::execute`.
  unfoldable pub uart_execute : InteractionRequest → DeviceCall S UartStats InteractionResponse
  unfolding execute_standard uart_handle
  uart_execute request = execute_standard session.bus uart_handle request

-- `UartDriver`.
abbrev pub uart_driver : SessionDriver UartStats
uart_driver = record {
  id = codes "lemnos.uart.generic";
  interface = InterfaceKind.uart;
  kinds = DeviceKind.uart_port ∷ [];
  expected = codes "uart-port";
  access = SessionAccess.shared;
  stats = uart_stats;
}
