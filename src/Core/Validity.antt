-- ===== src/Core/Validity.antt =====
-- Which identifiers and descriptors the checks of the data model accept.
use lemnos.Prelude.{
  All, Bool-cases, Text, [], any, codes, err-ne-ok, inl, inr, ok, refl, same_refl, sym, text_ord,
  true, true≢false, ℕ, ◌==◌, ◌||◌, ◌↔◌, ◌∙◌, ◌∷◌, ◌≡◌,
}
use lemnos.Core.Descriptor.{
  DeviceDescriptor, bare_descriptor, for_kind, new_descriptor, validate_address,
  validate_descriptor,
}
use lemnos.Core.Ids.{check_rest, extra_identifier_chars, is_ascii_alphanumeric, validate_identifier}
use lemnos.Core.Interface.{interface_ord}
use lemnos.Core.Kinds.{DeviceKind, kind_interface}

-- A character that an identifier may have behind its first.
abbrev pub IsIdentifierChar : ℕ → Type 0
IsIdentifierChar ch = (is_ascii_alphanumeric ch || any (λ c. c == ch) extra_identifier_chars) ≡ true

abbrev pub IsIdentifier : Text → Type 0
IsIdentifier [] = ⊥
IsIdentifier (first ∷ chars) = (is_ascii_alphanumeric first ≡ true) × All IsIdentifierChar chars

check_rest-ok :
    (kind value chars : Text) → check_rest kind value chars ≡ ok tt ↔ All IsIdentifierChar chars
unfolding check_rest
check_rest-ok kind value [] = (λ _. tt, λ _. refl)
check_rest-ok kind value (ch ∷ chars) =
    let (to, from) = check_rest-ok kind value chars in
    elim (Bool-cases (is_ascii_alphanumeric ch || any (λ c. c == ch) extra_identifier_chars)) [
      | inl t ↦ (λ h. (t, to (rw t at h)), λ all. rw t (from all.1))
      | inr f ↦ (λ h. absurd (err-ne-ok (rw f at h)), λ all. absurd (true≢false (sym all.0 ∙ f)))
    ]

-- An identifier is accepted exactly when it has a first character, that character is an ASCII letter
-- or digit, and each further one is an ASCII letter or digit or one of `._-:/+#`.
pub validate_identifier-ok :
    (kind value : Text) → validate_identifier kind value ≡ ok tt ↔ IsIdentifier value
unfolding validate_identifier
validate_identifier-ok kind [] = (λ h. err-ne-ok h, λ h. absurd h)
validate_identifier-ok kind (first ∷ chars) =
    let (to, from) = check_rest-ok kind (first ∷ chars) chars in
    elim (Bool-cases (is_ascii_alphanumeric first)) [
      | inl t ↦ (λ h. (t, to (rw t at h)), λ all. rw t (from all.1))
      | inr f ↦ (λ h. absurd (err-ne-ok (rw f at h)), λ all. absurd (true≢false (sym all.0 ∙ f)))
    ]

-- A descriptor made for a kind from an accepted identifier has that identifier and that kind, and
-- passes the check of descriptors.
pub for_kind-valid :
    (id : Text) (kind : DeviceKind)
    → validate_identifier (codes "device id") id ≡ ok tt
    → (d : DeviceDescriptor) × (for_kind id kind ≡ ok d)
      × (d.id ≡ id)
      × (d.kind ≡ kind)
      × (validate_descriptor d ≡ ok tt)
unfolding for_kind new_descriptor validate_descriptor validate_address
for_kind-valid id kind h = (
  record (bare_descriptor id (kind_interface kind)) { kind = kind },
  rw h refl,
  refl,
  refl,
  rw (same_refl (kind_interface kind)) refl,
)
