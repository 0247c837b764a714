-- ===== src/Mock/Uart.antt =====
-- crates/lemnos-mock/src/uart.rs: the sessions on simulated ports.
use lemnos.Prelude.Calls.{◌>>=◌, ◌>>◌, done, modify}
use lemnos.Prelude.{List, codes, drop, insert, is_empty, length, min, not, text_ord, ℕ, ◌++◌, ◌==◌}
use lemnos.Bus.Traits.{UartSession}
use lemnos.Core.Interface.{interface_ord}
use lemnos.Core.Request.Kinds.{UartConfiguration}
use lemnos.Drivers.UsbStats.{number_ord}
use lemnos.Mock.Hardware.{
  Clock, MockCall, MockUartPortState, MockWorld, device_id, entry_of, invalid, misconfigured,
  mock_bus, require, require_write, run_call, take_injected_error,
}
use lemnos.Sdk.Operation.{first_bytes}

unfoldable pub uart_port : MockCall MockUartPortState
uart_port = entry_of (λ hw. hw.uart_ports)

unfoldable pub set_port : MockUartPortState → MockCall (Unit {0})
set_port port = modify λ w. record w {
  hardware = record w.hardware { uart_ports = insert (device_id w) port w.hardware.uart_ports };
}

-- `validate_configuration`.
unfoldable pub validate_uart_configuration : UartConfiguration → MockCall (Unit {0})
validate_uart_configuration c =
    require (not (c.baud_rate == 0))
      (misconfigured (codes "UART baud rate must be greater than zero"))

-- `drain(..count)`, which takes the first bytes off the buffer.
unfoldable pub drain : ℕ → MockUartPortState → MockCall (List ℕ)
unfolding set_port
drain count port = do
  set_port (record port { rx_buffer = drop count port.rx_buffer })
  done (first_bytes count port.rx_buffer)

-- The bodies that `run_call` runs.
unfoldable pub uart_read_body : ℕ → MockCall (List ℕ)
unfolding take_injected_error drain uart_port
uart_read_body max_bytes = do
  take_injected_error (codes "uart.read")
  port ← uart_port
  drain (min max_bytes (length port.rx_buffer)) port

unfoldable pub uart_write_body : List ℕ → MockCall (Unit {0})
unfolding take_injected_error set_port uart_port
uart_write_body bytes = do
  take_injected_error (codes "uart.write")
  port ← uart_port
  set_port (record port { tx_buffer = port.tx_buffer ++ bytes })

unfoldable pub uart_configure_body : UartConfiguration → MockCall (Unit {0})
unfolding take_injected_error set_port uart_port
uart_configure_body c = do
  take_injected_error (codes "uart.configure")
  port ← uart_port
  set_port (record port { configuration = c })

-- The methods of `MockUartSession`.
unfoldable pub mock_uart_read : Clock → ℕ → MockCall (List ℕ)
unfolding run_call uart_read_body
mock_uart_read clock max_bytes = do
  require (not (max_bytes == 0))
      (invalid (codes "uart.read") (codes "max_bytes must be greater than zero"))
  run_call clock (uart_read_body max_bytes)

unfoldable pub mock_uart_write : Clock → List ℕ → MockCall (Unit {0})
unfolding run_call uart_write_body
mock_uart_write clock bytes = do
  require_write (codes "uart.write") (codes "session access is read-only")
  require (not (is_empty bytes))
      (invalid (codes "uart.write") (codes "write payload must not be empty"))
  run_call clock (uart_write_body bytes)

unfoldable pub mock_flush : Clock → MockCall (Unit {0})
unfolding run_call take_injected_error
mock_flush clock = do
  require_write (codes "uart.flush") (codes "session access is read-only")
  run_call clock (take_injected_error (codes "uart.flush"))

unfoldable pub mock_configure_uart : Clock → UartConfiguration → MockCall (Unit {0})
unfolding run_call uart_configure_body validate_uart_configuration
mock_configure_uart clock c = do
  require_write (codes "uart.configure")
      (codes "session access does not allow configuration changes")
  validate_uart_configuration c
  run_call clock (uart_configure_body c)

unfoldable pub mock_uart_configuration : MockCall UartConfiguration
unfolding take_injected_error uart_port
mock_uart_configuration = do
  take_injected_error (codes "uart.get_configuration")
  port ← uart_port
  done port.configuration

unfoldable pub mock_uart_session : Clock → UartSession MockWorld
unfolding mock_bus mock_uart_read mock_uart_write mock_flush mock_configure_uart
    mock_uart_configuration
mock_uart_session clock = record {
  bus = mock_bus clock;
  read = mock_uart_read clock;
  write = mock_uart_write clock;
  flush = mock_flush clock;
  configure = mock_configure_uart clock;
  configuration = mock_uart_configuration;
}
