-- ===== src/Manifest/Rules.antt =====
-- crates/lemnos-driver-manifest/src/{matching,error,validation}.rs: conditions and rules.
use lemnos.Prelude.{
  Bool, List, Option, Result, Text, [], all, any, codes, err, false, if◌then◌else◌, is_empty,
  lookup, map_err, none, not, ok, same, some, text_ord, ℕ, ◌&&◌, ◌++◌, ◌==◌, ◌>>◌, ◌||◌, ◌∷◌,
}
use lemnos.Core.Descriptor.{DeviceDescriptor}
use lemnos.Core.Error.{CoreError}
use lemnos.Core.Ids.{is_ascii_alphanumeric, validate_identifier}
use lemnos.Core.Interface.{InterfaceKind, interface_ord}
use lemnos.Core.Kinds.{DeviceKind, same_kind}
use lemnos.Core.Value.{Value, get_value, same_value}

pub data ManifestError : Type 0 where
  empty_driver_id : ManifestError
  invalid_driver_id : Text → ℕ → ManifestError
  missing_interfaces : Text → ManifestError
  invalid_standard_interaction : Text → Text → CoreError → ManifestError
  invalid_custom_interaction : Text → Text → CoreError → ManifestError
  invalid_capability : Text → Text → CoreError → ManifestError

abbrev pub ManifestResult : Type 0 → Type 0
ManifestResult A = Result ManifestError A

pub data MatchCondition : Type 0 where
  interface : InterfaceKind → MatchCondition
  kind : DeviceKind → MatchCondition
  vendor : Text → MatchCondition
  model : Text → MatchCondition
  revision : Text → MatchCondition
  modalias : Text → MatchCondition
  compatible : Text → MatchCondition
  capability : Text → MatchCondition
  label_eq : Text → Text → MatchCondition
  property_eq : Text → Value → MatchCondition
  hardware_id_eq : Text → Text → MatchCondition

-- `x.as_deref() == Some(t)`.
abbrev pub is_text : Option Text → Text → Bool
is_text none t = false
is_text (some s) t = same s t

abbrev is_value : Option Value → Value → Bool
is_value none v = false
is_value (some w) v = same_value w v

-- `MatchCondition::matches`.
unfoldable pub condition_matches : MatchCondition → DeviceDescriptor → Bool
condition_matches (MatchCondition.interface i) d = same d.interface i
condition_matches (MatchCondition.kind k) d = same_kind d.kind k
condition_matches (MatchCondition.vendor t) d = is_text d.match_hints.vendor t
condition_matches (MatchCondition.model t) d = is_text d.match_hints.model t
condition_matches (MatchCondition.revision t) d = is_text d.match_hints.revision t
condition_matches (MatchCondition.modalias t) d = is_text d.match_hints.modalias t
condition_matches (MatchCondition.compatible t) d = any (λ s. same s t) d.match_hints.compatible
condition_matches (MatchCondition.capability t) d = any (λ c. same c.id t) d.capabilities
condition_matches (MatchCondition.label_eq k t) d = is_text (lookup k d.labels) t
condition_matches (MatchCondition.property_eq k v) d = is_value (get_value k d.properties) v
condition_matches (MatchCondition.hardware_id_eq k t) d =
    is_text (lookup k d.match_hints.hardware_ids) t

-- `MatchCondition::validate`.
unfoldable pub validate_condition : MatchCondition → Text → ManifestResult (Unit {0})
validate_condition (MatchCondition.capability c) driver_id =
    map_err (ManifestError.invalid_capability driver_id c)
      (validate_identifier (codes "capability id") c)
validate_condition _ driver_id = ok tt

pub record MatchRule : Type 0 where
  pub description : Option Text
  pub score : ℕ
  pub all_of : List MatchCondition
  pub any_of : List MatchCondition
  pub none_of : List MatchCondition

-- `MatchRule::matches`.
unfoldable pub rule_matches : MatchRule → DeviceDescriptor → Bool
rule_matches rule d =
    all (λ c. condition_matches c d) rule.all_of
    && (is_empty rule.any_of || any (λ c. condition_matches c d) rule.any_of)
    && all (λ c. not (condition_matches c d)) rule.none_of

unfoldable pub validate_conditions : List MatchCondition → Text → ManifestResult (Unit {0})
validate_conditions [] driver_id = ok tt
validate_conditions (c ∷ cs) driver_id = do
  validate_condition c driver_id
  validate_conditions cs driver_id

-- `MatchRule::validate`.
unfoldable pub validate_rule : MatchRule → Text → ManifestResult (Unit {0})
unfolding validate_conditions
validate_rule rule driver_id =
    validate_conditions (rule.all_of ++ (rule.any_of ++ rule.none_of)) driver_id

-- `.`, `_`, `-`, `:` and `/`.
abbrev pub driver_id_chars : Text
driver_id_chars = codes "._-:/"

check_driver_id : Text → Text → ManifestResult (Unit {0})
check_driver_id id [] = ok tt
check_driver_id id (ch ∷ chars) =
    if is_ascii_alphanumeric ch || any (λ c. c == ch) driver_id_chars
    then check_driver_id id chars
    else err (ManifestError.invalid_driver_id id ch)

-- `validate_driver_id`.
unfoldable pub validate_driver_id : Text → ManifestResult (Unit {0})
unfolding check_driver_id
validate_driver_id id =
    if is_empty id then err ManifestError.empty_driver_id else check_driver_id id id
