-- ===== src/Manifest/Driver.antt =====
-- crates/lemnos-driver-manifest/src/{manifest,interaction,version}.rs, and the result type of
-- matching.rs. Scores are `u32`.
use lemnos.Prelude.{
  Bool, List, Option, Text, [], add_u32, any, codes, decimal, ensure, false, if◌then◌else◌,
  is_empty, is_some, ltb, map_err, none, not, ok, same, some, suc, text_ord, true, ℕ, ◌&&◌, ◌++◌,
  ◌>>◌, ◌||◌, ◌∷◌,
}
use lemnos.Core.Descriptor.{DeviceDescriptor}
use lemnos.Core.Error.{CoreError}
use lemnos.Core.Ids.{validate_identifier}
use lemnos.Core.Interface.{InterfaceKind, as_str, interface_ord}
use lemnos.Core.Kinds.{DeviceKind, display_kind, same_kind}
use lemnos.Core.Value.{ValueMap}
use lemnos.Manifest.Rules.{
  ManifestError, ManifestResult, MatchRule, rule_matches, validate_driver_id, validate_rule,
}

pub data DriverPriority : Type 0 where
  fallback generic preferred exact : DriverPriority

-- `DriverPriority::base_score`.
abbrev pub base_score : DriverPriority → ℕ
base_score DriverPriority.fallback = 25
base_score DriverPriority.generic = 100
base_score DriverPriority.preferred = 200
base_score DriverPriority.exact = 300

pub data InteractionKind : Type 0 where
  standard custom : InteractionKind

pub record InteractionManifest : Type 0 where
  pub id : Text
  pub summary : Text
  pub kind : InteractionKind
  pub attributes : ValueMap

interaction_error : InteractionKind → Text → Text → CoreError → ManifestError
interaction_error InteractionKind.standard = ManifestError.invalid_standard_interaction
interaction_error InteractionKind.custom = ManifestError.invalid_custom_interaction

-- `InteractionManifest::validate`.
unfoldable pub validate_interaction_manifest :
    InteractionManifest → Text → ManifestResult (Unit {0})
unfolding interaction_error
validate_interaction_manifest i driver_id =
    map_err (interaction_error i.kind driver_id i.id)
      (validate_identifier (codes "interaction id") i.id)

pub record DriverVersion : Type 0 where
  pub major : ℕ
  pub minor : ℕ
  pub patch : ℕ

pub record DriverManifest : Type 0 where
  pub id : Text
  pub version : DriverVersion
  pub summary : Text
  pub description : Option Text
  pub interfaces : List InterfaceKind
  pub kinds : List DeviceKind
  pub priority : DriverPriority
  pub standard_interactions : List InteractionManifest
  pub custom_interactions : List InteractionManifest
  pub rules : List MatchRule
  pub tags : List Text

-- `DriverManifest::new`.
unfoldable pub new_manifest : Text → Text → List InterfaceKind → DriverManifest
new_manifest id summary interfaces = record {
  id = id;
  version = record { major = 0; minor = 1; patch = 0 };
  summary = summary;
  description = none;
  interfaces = interfaces;
  kinds = [];
  priority = DriverPriority.generic;
  standard_interactions = [];
  custom_interactions = [];
  rules = [];
  tags = [];
}

validate_interactions : List InteractionManifest → Text → ManifestResult (Unit {0})
validate_interactions [] id = ok tt
validate_interactions (i ∷ is) id = do
  validate_interaction_manifest i id
  validate_interactions is id

validate_rules : List MatchRule → Text → ManifestResult (Unit {0})
validate_rules [] id = ok tt
validate_rules (r ∷ rs) id = do validate_rule r id; validate_rules rs id

-- `DriverManifest::validate`.
unfoldable pub validate_manifest : DriverManifest → ManifestResult (Unit {0})
unfolding validate_interactions validate_rules
validate_manifest m = do
  validate_driver_id m.id
  ensure (not (is_empty m.interfaces)) (ManifestError.missing_interfaces m.id)
  validate_interactions (m.standard_interactions ++ m.custom_interactions) m.id
  validate_rules m.rules m.id

pub record ManifestMatch : Type 0 where
  pub matched : Bool
  pub priority : DriverPriority
  pub score : ℕ
  pub reasons : List Text
  pub matched_rule : Option ℕ

-- `ManifestMatch::unsupported_match`.
abbrev pub unsupported_match : Text → ManifestMatch
unsupported_match reason = record {
  matched = false;
  priority = DriverPriority.fallback;
  score = 0;
  reasons = reason ∷ [];
  matched_rule = none;
}

-- `DriverManifest::supports_interface`.
abbrev pub supports_interface : DriverManifest → InterfaceKind → Bool
supports_interface m i = any (λ j. same j i) m.interfaces

-- The loop of `match_device` over the rules from the one with index `index`: the best rule so
-- far, with its index (in place of the later read of `self.rules[index]`), and its score.
unfoldable pub best_rule_from :
    DeviceDescriptor → ℕ → List MatchRule → Option (ℕ × MatchRule) → ℕ → Option (ℕ × MatchRule)
best_rule_from d index [] best score = best
best_rule_from d index (rule ∷ rules) best score =
    let taken = rule_matches rule d && (not (is_some best) || ltb score rule.score) in
    best_rule_from d (suc index) rules (if taken then some (index, rule) else best)
      (if taken then rule.score else score)

abbrev or_text : Option Text → Text → Text
or_text none t = t
or_text (some s) t = s

-- The part of `match_device` behind the loop.
unfoldable pub conclude :
    DriverManifest → DeviceDescriptor → List Text → ℕ → Option (ℕ × MatchRule) → ManifestMatch
conclude m d reasons score none =
    unsupported_match (codes "no manifest rules matched device '" ++ (d.id ++ codes "'"))
conclude m d reasons score (some (index, rule)) = record {
  matched = true;
  priority = m.priority;
  score = add_u32 score rule.score;
  reasons =
      reasons
      ++ or_text rule.description (codes "match rule #" ++ (decimal index ++ codes " matched"))
        ∷ [];
  matched_rule = some index;
}

unfoldable pub match_rules : DriverManifest → DeviceDescriptor → List Text → ℕ → ManifestMatch
unfolding best_rule_from conclude
match_rules m d reasons score =
    if is_empty m.rules
    then record {
      matched = true;
      priority = m.priority;
      score = score;
      reasons = reasons;
      matched_rule = none;
    }
    else conclude m d reasons score (best_rule_from d 0 m.rules none 0)

interface_reason : InterfaceKind → Text
interface_reason i = codes "interface '" ++ (as_str i ++ codes "' matched")

kind_reason : DeviceKind → Text
kind_reason k = codes "device kind '" ++ (display_kind k ++ codes "' matched")

refused : Text → Text → Text → ManifestMatch
refused what value id =
    unsupported_match
      (what ++ (value ++ (codes "' not supported by manifest '" ++ (id ++ codes "'"))))

-- `DriverManifest::match_device`.
unfoldable pub match_device : DriverManifest → DeviceDescriptor → ManifestMatch
unfolding match_rules interface_reason kind_reason refused
match_device m d =
    if not (supports_interface m d.interface)
    then refused (codes "interface '") (as_str d.interface) m.id
    else if is_empty m.kinds
    then match_rules m d (interface_reason d.interface ∷ []) (base_score m.priority)
    else if not (any (λ k. same_kind k d.kind) m.kinds)
    then refused (codes "device kind '") (display_kind d.kind) m.id
    else match_rules m d (interface_reason d.interface ∷ kind_reason d.kind ∷ [])
        (add_u32 (base_score m.priority) 25)
