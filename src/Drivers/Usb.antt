-- ===== src/Drivers/Usb.antt =====
-- crates/lemnos-drivers-usb/src/{bound,values,driver}.rs.
use lemnos.Prelude.Calls.{◌>>=◌, ◌>>◌, done, gets}
use lemnos.Prelude.{
  List, Option, Text, [], codes, decimal, length, none, some, text_ord, ℕ, ◌++◌, ◌∷◌,
}
use lemnos.Bus.Session.{SessionAccess}
use lemnos.Bus.Traits.{UsbSession}
use lemnos.Core.Descriptor.{DeviceDescriptor}
use lemnos.Core.Interface.{InterfaceKind, interface_ord}
use lemnos.Core.Kinds.{DeviceAddress, DeviceKind}
use lemnos.Core.Request.Kinds.{
  InteractionRequest, StandardRequest, UsbControlTransfer, UsbDirection, UsbRequest,
}
use lemnos.Core.Request.Responses.{InteractionResponse, StandardResponse, UsbResponse}
use lemnos.Core.State.{
  DeviceLifecycleState, DeviceStateSnapshot, new_state, with_config_entry, with_lifecycle,
  with_telemetry,
}
use lemnos.Core.Value.{Value}
use lemnos.Drivers.Gpio.{config_if_some}
use lemnos.Drivers.UsbStats.{
  UsbStats, number_ord, record_bulk_read, record_bulk_write, record_claim, record_control_read,
  record_control_write, record_interrupt_read, record_interrupt_write, record_release, usb_stats,
}
use lemnos.Runtime.Requests.{request}
use lemnos.Sdk.Bind.{SessionDriver}
use lemnos.Sdk.Operation.{hex, with_byte_telemetry, with_last_operation}
use lemnos.Sdk.Session.{DeviceCall, SessionDevice, execute_standard, on_session, record_stats}

-- `ports_name`: the ports with dots between them.
abbrev pub ports_name : List ℕ → Text
ports_name [] = []
ports_name (p ∷ []) = decimal p
ports_name (p ∷ q ∷ ps) = decimal p ++ (codes "." ++ ports_name (q ∷ ps))

abbrev pub hex_u16 : ℕ → Text
hex_u16 value = hex 4 value

abbrev pub UsbBoundDevice : Type 0 → Type 0
UsbBoundDevice S = SessionDevice S UsbStats

with_ids : Option ℕ → Option ℕ → DeviceStateSnapshot → DeviceStateSnapshot
unfolding config_if_some
with_ids vendor_id product_id state =
    config_if_some (codes "product_id") (λ n. Value.string (hex_u16 n)) product_id
      (config_if_some (codes "vendor_id") (λ n. Value.string (hex_u16 n)) vendor_id state)

-- The `match` of `snapshot_state` on the address.
unfoldable pub with_usb_address : Option DeviceAddress → DeviceStateSnapshot → DeviceStateSnapshot
unfolding with_config_entry with_ids
with_usb_address (some (DeviceAddress.usb_device bus ports vendor_id product_id)) state =
    with_ids vendor_id product_id (
      with_config_entry (codes "ports") (Value.string (ports_name ports))
        (with_config_entry (codes "bus") (Value.u64 bus) state))
with_usb_address (some (DeviceAddress.usb_interface bus ports number vendor_id product_id)) state =
    with_ids vendor_id product_id (
      with_config_entry (codes "interface_number") (Value.u64 number) (
        with_config_entry (codes "ports") (Value.string (ports_name ports))
          (with_config_entry (codes "bus") (Value.u64 bus) state)))
with_usb_address _ state = state

-- `snapshot_state`, which asks the session for nothing.
unfoldable pub usb_state : DeviceDescriptor → UsbStats → DeviceStateSnapshot
unfolding new_state with_telemetry with_byte_telemetry with_usb_address
usb_state device s = with_usb_address device.address (
    with_last_operation s.last_operation (
      with_byte_telemetry s.bytes_read s.bytes_written (
        with_telemetry (codes "claimed_interface_count") (Value.u64 (length s.claimed_interfaces)) (
          with_telemetry (codes "release_ops") (Value.u64 s.release_ops) (
            with_telemetry (codes "claim_ops") (Value.u64 s.claim_ops) (
              with_telemetry (codes "interrupt_write_ops") (Value.u64 s.interrupt_write_ops) (
                with_telemetry (codes "interrupt_read_ops") (Value.u64 s.interrupt_read_ops) (
                  with_telemetry (codes "bulk_write_ops") (Value.u64 s.bulk_write_ops) (
                    with_telemetry (codes "bulk_read_ops") (Value.u64 s.bulk_read_ops) (
                      with_telemetry (codes "control_ops") (Value.u64 s.control_ops)
                        (with_lifecycle DeviceLifecycleState.idle (new_state device.id))))))))))))

-- The `match` on the direction of a control transfer.
unfoldable pub record_control : UsbControlTransfer → List ℕ → UsbDirection → UsbStats → UsbStats
unfolding record_control_read record_control_write
record_control transfer bytes UsbDirection.inward s =
    record_control_read bytes
      (codes "read " ++ (decimal (length bytes) ++ codes " bytes from control endpoint")) s
record_control transfer bytes UsbDirection.outward s =
    record_control_write transfer.payload
      (codes "wrote " ++ (decimal (length transfer.payload) ++ codes " bytes in control transfer"))
      s

-- The summaries of the transfers on an endpoint.
abbrev at_endpoint : Text → List ℕ → Text → ℕ → Text
at_endpoint verb bytes kind endpoint = verb ++ (decimal (length bytes) ++ (kind ++ hex 2 endpoint))

module _ {S : Type 0} (session : UsbSession S) where
  -- The method `state`.
  unfoldable pub usb_snapshot_state : DeviceCall S UsbStats (Option DeviceStateSnapshot)
  unfolding usb_state
  usb_snapshot_state = gets λ b. some (usb_state (session.bus.device b.session) b.stats)

  -- `execute_usb_request`.
  unfoldable pub usb_request : UsbRequest → DeviceCall S UsbStats UsbResponse
  unfolding on_session record_control record_bulk_read record_bulk_write record_interrupt_read
      record_interrupt_write record_claim record_release
  usb_request (UsbRequest.control transfer) = do
    bytes ← on_session session.bus (session.control_transfer transfer)
    record_stats (record_control transfer bytes transfer.setup.direction)
    done (UsbResponse.bytes bytes)
  usb_request (UsbRequest.bulk_read endpoint length_ timeout_ms) = do
    bytes ← on_session session.bus (session.bulk_read endpoint length_ timeout_ms)
    record_stats (
        record_bulk_read bytes
          (at_endpoint (codes "read ") bytes (codes " bytes from bulk endpoint 0x") endpoint))
    done (UsbResponse.bytes bytes)
  usb_request (UsbRequest.bulk_write endpoint bytes timeout_ms) = do
    on_session session.bus (session.bulk_write endpoint bytes timeout_ms)
    record_stats (
        record_bulk_write bytes
          (at_endpoint (codes "wrote ") bytes (codes " bytes to bulk endpoint 0x") endpoint))
    done UsbResponse.applied
  usb_request (UsbRequest.interrupt_read endpoint length_ timeout_ms) = do
    bytes ← on_session session.bus (session.interrupt_read endpoint length_ timeout_ms)
    record_stats (
        record_interrupt_read bytes
          (at_endpoint (codes "read ") bytes (codes " bytes from interrupt endpoint 0x") endpoint))
    done (UsbResponse.bytes bytes)
  usb_request (UsbRequest.interrupt_write transfer) = do
    on_session session.bus (session.interrupt_write transfer)
    record_stats (
        record_interrupt_write transfer.bytes (
          at_endpoint (codes "wrote ") transfer.bytes (codes " bytes to interrupt endpoint 0x")
            transfer.endpoint))
    done UsbResponse.applied
  usb_request (UsbRequest.claim_interface number alternate_setting) = do
    on_session session.bus (session.claim_interface number alternate_setting)
    record_stats
        (record_claim number alternate_setting (codes "claimed interface " ++ decimal number))
    done (UsbResponse.interface_claimed number alternate_setting)
  usb_request (UsbRequest.release_interface number) = do
    on_session session.bus (session.release_interface number)
    record_stats (record_release number (codes "released interface " ++ decimal number))
    done (UsbResponse.interface_released number)

  unfoldable pub usb_handle : InteractionRequest → Option (DeviceCall S UsbStats StandardResponse)
  unfolding usb_request
  usb_handle (InteractionRequest.standard (StandardRequest.usb request)) =
      some (usb_request request >>= λ r. done (StandardResponse.usb r))
  usb_handle _ = none

  -- `UsbBoundDevice::execute`.
  unfoldable pub usb_execute : InteractionRequest → DeviceCall S UsbStats InteractionResponse
  unfolding execute_standard usb_handle
  usb_execute request = execute_standard session.bus usb_handle request

-- `UsbDriver`.
abbrev pub usb_driver : SessionDriver UsbStats
usb_driver = record {
  id = codes "lemnos.usb.generic";
  interface = InterfaceKind.usb;
  kinds = DeviceKind.usb_device ∷ DeviceKind.usb_interface ∷ [];
  expected = codes "usb-device or usb-interface";
  access = SessionAccess.exclusive_controller;
  stats = usb_stats;
}
