-- ===== src/Drivers/UsbStats.antt =====
-- crates/lemnos-drivers-usb/src/stats.rs: what a USB device counts, and the interfaces it claimed.
use lemnos.Prelude.{
  List, Map, Option, Ord, Text, [], add_u64, codes, insert, length, none, ord_by_rank, remove, some,
  text_ord, ℕ,
}
use lemnos.Core.Interface.{interface_ord}
use lemnos.Core.State.{OperationRecord}
use lemnos.Core.Value.{Value}
use lemnos.Sdk.Operation.{bounded_bytes_output, succeeded_operation_with_output}

-- The order of the numbers of interfaces.
instance abbrev pub number_ord : Ord ℕ
number_ord = ord_by_rank (λ n. n) (λ a b h. h)

pub record UsbStats : Type 0 where
  pub control_ops : ℕ
  pub bulk_read_ops : ℕ
  pub bulk_write_ops : ℕ
  pub interrupt_read_ops : ℕ
  pub interrupt_write_ops : ℕ
  pub claim_ops : ℕ
  pub release_ops : ℕ
  pub bytes_read : ℕ
  pub bytes_written : ℕ
  pub claimed_interfaces : Map ℕ (Option ℕ)
  pub last_operation : Option OperationRecord

abbrev pub usb_stats : UsbStats
usb_stats = record {
  control_ops = 0;
  bulk_read_ops = 0;
  bulk_write_ops = 0;
  interrupt_read_ops = 0;
  interrupt_write_ops = 0;
  claim_ops = 0;
  release_ops = 0;
  bytes_read = 0;
  bytes_written = 0;
  claimed_interfaces = [];
  last_operation = none;
}

-- The methods of `UsbStats`.
unfoldable pub record_control_read : List ℕ → Text → UsbStats → UsbStats
unfolding bounded_bytes_output
record_control_read bytes summary s = record s {
  control_ops = add_u64 s.control_ops 1;
  bytes_read = add_u64 s.bytes_read (length bytes);
  last_operation = some (
      succeeded_operation_with_output (codes "usb.control_transfer") summary
        (bounded_bytes_output bytes));
}

unfoldable pub record_control_write : List ℕ → Text → UsbStats → UsbStats
record_control_write bytes summary s = record s {
  control_ops = add_u64 s.control_ops 1;
  bytes_written = add_u64 s.bytes_written (length bytes);
  last_operation = some (
      succeeded_operation_with_output (codes "usb.control_transfer") summary
        (Value.u64 (length bytes)));
}

unfoldable pub record_bulk_read : List ℕ → Text → UsbStats → UsbStats
unfolding bounded_bytes_output
record_bulk_read bytes summary s = record s {
  bulk_read_ops = add_u64 s.bulk_read_ops 1;
  bytes_read = add_u64 s.bytes_read (length bytes);
  last_operation = some (
      succeeded_operation_with_output (codes "usb.bulk_read") summary (bounded_bytes_output bytes));
}

unfoldable pub record_bulk_write : List ℕ → Text → UsbStats → UsbStats
record_bulk_write bytes summary s = record s {
  bulk_write_ops = add_u64 s.bulk_write_ops 1;
  bytes_written = add_u64 s.bytes_written (length bytes);
  last_operation =
      some (
        succeeded_operation_with_output (codes "usb.bulk_write") summary
          (Value.u64 (length bytes)));
}

unfoldable pub record_interrupt_read : List ℕ → Text → UsbStats → UsbStats
unfolding bounded_bytes_output
record_interrupt_read bytes summary s = record s {
  interrupt_read_ops = add_u64 s.interrupt_read_ops 1;
  bytes_read = add_u64 s.bytes_read (length bytes);
  last_operation = some (
      succeeded_operation_with_output (codes "usb.interrupt_read") summary
        (bounded_bytes_output bytes));
}

unfoldable pub record_interrupt_write : List ℕ → Text → UsbStats → UsbStats
record_interrupt_write bytes summary s = record s {
  interrupt_write_ops = add_u64 s.interrupt_write_ops 1;
  bytes_written = add_u64 s.bytes_written (length bytes);
  last_operation = some (
      succeeded_operation_with_output (codes "usb.interrupt_write") summary
        (Value.u64 (length bytes)));
}

unfoldable pub record_claim : ℕ → Option ℕ → Text → UsbStats → UsbStats
record_claim interface_number alternate_setting summary s = record s {
  claim_ops = add_u64 s.claim_ops 1;
  claimed_interfaces = insert interface_number alternate_setting s.claimed_interfaces;
  last_operation = some (
      succeeded_operation_with_output (codes "usb.claim_interface") summary
        (Value.u64 interface_number));
}

unfoldable pub record_release : ℕ → Text → UsbStats → UsbStats
record_release interface_number summary s = record s {
  release_ops = add_u64 s.release_ops 1;
  claimed_interfaces = remove interface_number s.claimed_interfaces;
  last_operation = some (
      succeeded_operation_with_output (codes "usb.release_interface") summary
        (Value.u64 interface_number));
}
