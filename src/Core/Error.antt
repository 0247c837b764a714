-- ===== src/Core/Error.antt =====
-- crates/lemnos-core/src/error.rs. The noun that an error names (`&'static str`) is a text.
use lemnos.Prelude.{Result, Text, text_ord, ℕ}
use lemnos.Core.Interface.{InterfaceKind, interface_ord}
use lemnos.Core.Kinds.{DeviceAddress, DeviceKind}

pub data CoreError : Type 0 where
  empty_identifier : Text → CoreError
  invalid_identifier_character : Text → Text → ℕ → CoreError
  invalid_identifier_start : Text → Text → CoreError
  kind_interface_mismatch : DeviceKind → InterfaceKind → CoreError
  address_interface_mismatch : DeviceAddress → InterfaceKind → CoreError
  request_interface_mismatch : Text → InterfaceKind → CoreError
  invalid_request : Text → Text → CoreError

abbrev pub CoreResult : Type 0 → Type 0
CoreResult A = Result CoreError A
