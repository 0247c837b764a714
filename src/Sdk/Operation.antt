-- ===== src/Sdk/Operation.antt =====
-- crates/lemnos-driver-sdk/src/{operation,output,stats_helpers,state_helpers,state_keys}.rs: what a
-- bound device records of its last operation. A counter is a `u64`, which wraps in a release build.
use lemnos.Prelude.{
  List, Option, Text, [], codes, decimal, if◌then◌else◌, leb, length, ltb, none, some, suc,
  text_ord, true, zero, ℕ, ◌%◌, ◌++◌, ◌+◌, ◌-◌, ◌/◌, ◌∷◌,
}
use lemnos.Core.Interface.{interface_ord}
use lemnos.Core.State.{DeviceStateSnapshot, OperationRecord, OperationStatus, with_telemetry}
use lemnos.Core.Value.{Value, ValueMap, set_value}

-- `succeeded_operation` and `succeeded_operation_with_output`.
abbrev pub succeeded_operation : Text → Text → OperationRecord
succeeded_operation interaction summary = record {
  interaction = interaction;
  status = OperationStatus.succeeded;
  observed_at = none;
  summary = some summary;
  output = none;
}

abbrev pub succeeded_operation_with_output : Text → Text → Value → OperationRecord
succeeded_operation_with_output interaction summary output =
    record (succeeded_operation interaction summary) { output = some output }

-- `with_last_operation`.
abbrev pub with_last_operation : Option OperationRecord → DeviceStateSnapshot → DeviceStateSnapshot
with_last_operation none state = state
with_last_operation (some operation) state = record state { last_operation = some operation }

abbrev pub max_retained_output_bytes : ℕ
max_retained_output_bytes = 64

abbrev pub first_bytes : ℕ → List ℕ → List ℕ
first_bytes zero bytes = []
first_bytes (suc n) [] = []
first_bytes (suc n) (b ∷ bytes) = b ∷ first_bytes n bytes

-- `bounded_bytes_output`.
unfoldable pub bounded_bytes_output : List ℕ → Value
unfolding set_value
bounded_bytes_output bytes =
    if leb (length bytes) max_retained_output_bytes
    then Value.bytes bytes
    else Value.map_of (
        set_value (codes "preview") (Value.bytes (first_bytes max_retained_output_bytes bytes)) (
          set_value (codes "truncated") (Value.bool true) (
            set_value (codes "retained_len") (Value.u64 max_retained_output_bytes) (
              set_value (codes "len") (Value.u64 (length bytes))
                (set_value (codes "kind") (Value.string (codes "bytes-preview")) ValueMap.empty)))))

-- `with_byte_telemetry`.
unfoldable pub with_byte_telemetry : ℕ → ℕ → DeviceStateSnapshot → DeviceStateSnapshot
unfolding with_telemetry
with_byte_telemetry bytes_read bytes_written state =
    with_telemetry (codes "bytes_written") (Value.u64 bytes_written)
      (with_telemetry (codes "bytes_read") (Value.u64 bytes_read) state)

-- The summaries that the byte drivers print.
abbrev pub count_bytes : Text → List ℕ → Text
count_bytes verb bytes = verb ++ (decimal (length bytes) ++ codes " bytes")

-- `{:02x}` and `{:04x}`: lower-case hexadecimal digits, with zeros in front up to a width.
abbrev pub hex_digit : ℕ → ℕ
hex_digit d = if ltb d 10 then b'0' + d else b'a' + (d - 10)

abbrev pub hex_from : ℕ → ℕ → Text → Text
hex_from zero n rest = rest
hex_from (suc fuel) n rest =
    let more = hex_from fuel (n / 16) (hex_digit (n % 16) ∷ rest) in
    if ltb n 16 then hex_digit n ∷ rest else more

abbrev pub pad_zeros : ℕ → Text → Text
pad_zeros zero text = text
pad_zeros (suc n) text = b'0' ∷ pad_zeros n text

unfoldable pub hex : ℕ → ℕ → Text
hex width n = let digits = hex_from (suc n) n [] in pad_zeros (width - length digits) digits
