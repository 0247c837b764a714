-- ===== src/Tests/Matching.antt =====
-- The theorems on the data model, the manifests and the registry at concrete inputs.
use lemnos.Prelude.{
  All, In, Ordered, [], add_u32, any, codes, err, false, lookup, none, ok, refl, some, sort_by,
  text_ord, true, ℕ, ◌&&◌, ◌||◌, ◌↔◌, ◌∷◌, ◌≡◌, ◌≢◌, ◌⊎◌,
}
use lemnos.Core.Descriptor.{DeviceDescriptor, for_kind, validate_descriptor}
use lemnos.Core.Ids.{validate_identifier}
use lemnos.Core.Interface.{InterfaceKind, interface_ord}
use lemnos.Core.Kinds.{DeviceKind, same_kind}
use lemnos.Core.Validity.{IsIdentifier, for_kind-valid, validate_identifier-ok}
use lemnos.Drivers.UsbStats.{number_ord}
use lemnos.Manifest.Driver.{match_device, supports_interface, validate_manifest}
use lemnos.Manifest.Matching.{IsBest, ground_score, match_device-IsBest, match_device-matched}
use lemnos.Manifest.Rules.{MatchRule, condition_matches, rule_matches, validate_driver_id}
use lemnos.Registry.Defs.{
  DriverRegistry, RegistryError, candidates_for, prefer_driver_for_device, ranked_candidates,
  register, resolve, to_candidate,
}
use lemnos.Registry.Invariant.{IsRegistry, prefer-IsRegistry, register-IsRegistry}
use lemnos.Registry.Ranking.{CandidateLeads, ranked_candidates-Ordered}
use lemnos.Registry.Resolve.{
  Conflict, Wins, resolve-Wins, resolve-err, resolve-preferred, resolve-preferred_err,
}
use lemnos.Sdk.Driver.{Driver}
use lemnos.Sdk.Matching.{DriverMatchLevel, is_supported}
use lemnos.Tests.Samples.{chip, chip_id, chip_manifest, chip_rule, registry_of, sample_driver}

validate_identifier-ok_example :
    validate_identifier (codes "device id") chip_id ≡ ok tt ↔ IsIdentifier chip_id
validate_identifier-ok_example = validate_identifier-ok (codes "device id") chip_id

chip_id-valid : validate_identifier (codes "device id") chip_id ≡ ok tt
unfolding validate_identifier
chip_id-valid = refl

for_kind-valid_example :
    (d : DeviceDescriptor) × (for_kind chip_id DeviceKind.gpio_chip ≡ ok d)
    × (d.id ≡ chip_id)
    × (d.kind ≡ DeviceKind.gpio_chip)
    × (validate_descriptor d ≡ ok tt)
for_kind-valid_example = for_kind-valid chip_id DeviceKind.gpio_chip chip_id-valid

match_device-matched_example : (match_device chip_manifest chip).matched ≡ (
    supports_interface chip_manifest InterfaceKind.gpio
    && (true || any (λ k. same_kind k DeviceKind.gpio_chip) [])
    && (false || any (λ r. rule_matches r chip) (chip_rule ∷ [])))
match_device-matched_example = match_device-matched chip_manifest chip

chip-matched_rule : (match_device chip_manifest chip).matched_rule ≡ some 0
unfolding match_device rule_matches condition_matches same_kind
chip-matched_rule = refl

match_device-IsBest_example :
    (r : MatchRule) × IsBest chip_manifest chip 0 r
    × ((match_device chip_manifest chip).score ≡ add_u32 (ground_score chip_manifest) r.score)
match_device-IsBest_example = match_device-IsBest chip_manifest chip chip-matched_rule

abbrev low : Driver (Unit {0}) ℕ
low = sample_driver (codes "low") 10

abbrev high : Driver (Unit {0}) ℕ
high = sample_driver (codes "high") 20

abbrev refusing : Driver (Unit {0}) ℕ
refusing = record low {
  matches = λ _. record {
    level = DriverMatchLevel.unsupported;
    score = 0;
    reasons = [];
    matched_rule = none;
  };
}

abbrev two : DriverRegistry (Unit {0}) ℕ
two = registry_of (low ∷ high ∷ [])

ranked_candidates-Ordered_example : Ordered CandidateLeads (ranked_candidates two chip)
ranked_candidates-Ordered_example = ranked_candidates-Ordered two chip

high-wins : resolve two chip ≡ ok (to_candidate chip high)
unfolding resolve sort_by
high-wins = refl

resolve-Wins_example : Wins chip (to_candidate chip high) (low ∷ high ∷ [])
resolve-Wins_example = (resolve-Wins two chip refl high-wins).3

none-resolves :
    resolve (registry_of (refusing ∷ [])) chip ≡ err (RegistryError.no_matching_driver chip_id)
unfolding resolve sort_by
none-resolves = refl

abbrev tying : DriverRegistry (Unit {0}) ℕ
tying = registry_of (low ∷ sample_driver (codes "other") 10 ∷ [])

abbrev tie_error : RegistryError
tie_error = RegistryError.conflicting_matches chip_id (codes "low" ∷ codes "other" ∷ [])

tying-conflicts : resolve tying chip ≡ err tie_error
unfolding resolve sort_by
tying-conflicts = refl

resolve-err_example :
    (All (λ d. is_supported (d.matches chip) ≡ false) tying.drivers
      × (tie_error ≡ RegistryError.no_matching_driver chip_id))
    ⊎ (Conflict chip_id (candidates_for tying chip) tie_error
        × All
            (λ c. In c.driver tying.drivers × (to_candidate chip c.driver ≡ c))
            (candidates_for tying chip))
resolve-err_example = resolve-err tying chip refl tying-conflicts

abbrev prefers_low : DriverRegistry (Unit {0}) ℕ
prefers_low = record two { preferred_drivers = (chip_id, codes "low") ∷ [] }

low-preferred : resolve prefers_low chip ≡ ok (to_candidate chip low)
unfolding resolve sort_by
low-preferred = refl

resolve-preferred_example : In low prefers_low.drivers
unfolding to_candidate
resolve-preferred_example = (resolve-preferred prefers_low chip refl low-preferred).0

abbrev prefers_refusing : DriverRegistry (Unit {0}) ℕ
prefers_refusing = record {
  drivers = refusing ∷ high ∷ [];
  preferred_drivers = (chip_id, codes "low") ∷ [];
}

refusing-preferred :
    resolve prefers_refusing chip
    ≡ err (RegistryError.preferred_driver_did_not_match chip_id (codes "low"))
unfolding resolve sort_by
refusing-preferred = refl

resolve-preferred_err_example :
    All (λ d. is_supported (d.matches chip) ≡ true → d.id ≢ codes "low") (refusing ∷ high ∷ [])
resolve-preferred_err_example =
    (resolve-preferred_err prefers_refusing chip refl refusing-preferred).1

one-IsRegistry : IsRegistry (registry_of (low ∷ []))
unfolding validate_manifest validate_driver_id
one-IsRegistry = record { distinct = (tt, tt); valid = (refl, tt); preferred = tt }

two-registered : register (registry_of (low ∷ [])) high ≡ ok two
unfolding register validate_manifest validate_driver_id
two-registered = refl

register-IsRegistry_example : IsRegistry two
register-IsRegistry_example = register-IsRegistry high two-registered one-IsRegistry

low-chosen : prefer_driver_for_device two chip_id (codes "low") ≡ ok prefers_low
unfolding prefer_driver_for_device
low-chosen = refl

prefer-IsRegistry_example :
    IsRegistry prefers_low × (lookup chip_id prefers_low.preferred_drivers ≡ some (codes "low"))
prefer-IsRegistry_example =
    prefer-IsRegistry chip_id (codes "low") low-chosen
      (register-IsRegistry high two-registered one-IsRegistry)
