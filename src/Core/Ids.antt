-- ===== src/Core/Ids.antt =====
-- crates/lemnos-core/src/ids.rs: identifiers are texts that passed `validate_identifier`.
use lemnos.Prelude.{
  Bool, Text, [], any, codes, err, if◌then◌else◌, leb, ok, text_ord, ℕ, ◌&&◌, ◌==◌, ◌||◌, ◌∷◌,
}
use lemnos.Core.Error.{CoreError, CoreResult}
use lemnos.Core.Interface.{interface_ord}

abbrev pub DeviceId : Type 0
DeviceId = Text

abbrev pub is_ascii_alphanumeric : ℕ → Bool
is_ascii_alphanumeric c =
    (leb b'0' c && leb c b'9') || (leb b'A' c && leb c b'Z') || (leb b'a' c && leb c b'z')

-- `.`, `_`, `-`, `:`, `/`, `+` and `#`.
abbrev pub extra_identifier_chars : Text
extra_identifier_chars = codes "._-:/+#"

-- The loop over the characters behind the first.
unfoldable pub check_rest : Text → Text → Text → CoreResult (Unit {0})
check_rest kind value [] = ok tt
check_rest kind value (ch ∷ chars) =
    if is_ascii_alphanumeric ch || any (λ c. c == ch) extra_identifier_chars
    then check_rest kind value chars
    else err (CoreError.invalid_identifier_character kind value ch)

unfoldable pub validate_identifier : Text → Text → CoreResult (Unit {0})
unfolding check_rest
validate_identifier kind [] = err (CoreError.empty_identifier kind)
validate_identifier kind (first ∷ chars) =
    if is_ascii_alphanumeric first
    then check_rest kind (first ∷ chars) chars
    else err (CoreError.invalid_identifier_start kind (first ∷ chars))
