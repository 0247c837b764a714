-- ===== src/Sdk/Matching.antt =====
-- crates/lemnos-driver-sdk/src/matching.rs: how well a driver fits a device.
use lemnos.Prelude.{
  Bool, List, Option, Ordering, Text, compare, if◌then◌else◌, not, text_ord, then_with, ℕ, ◌==◌,
}
use lemnos.Core.Interface.{interface_ord}
use lemnos.Manifest.Driver.{DriverPriority, ManifestMatch}

pub data DriverMatchLevel : Type 0 where
  unsupported fallback generic preferred exact : DriverMatchLevel

-- The place of a variant in the declaration, by which the derived `Ord` compares.
abbrev pub level_rank : DriverMatchLevel → ℕ
level_rank DriverMatchLevel.unsupported = 0
level_rank DriverMatchLevel.fallback = 1
level_rank DriverMatchLevel.generic = 2
level_rank DriverMatchLevel.preferred = 3
level_rank DriverMatchLevel.exact = 4

-- `From<DriverPriority>`.
abbrev pub priority_level : DriverPriority → DriverMatchLevel
priority_level DriverPriority.fallback = DriverMatchLevel.fallback
priority_level DriverPriority.generic = DriverMatchLevel.generic
priority_level DriverPriority.preferred = DriverMatchLevel.preferred
priority_level DriverPriority.exact = DriverMatchLevel.exact

pub record DriverMatch : Type 0 where
  pub level : DriverMatchLevel
  pub score : ℕ
  pub reasons : List Text
  pub matched_rule : Option ℕ

-- `DriverMatch::is_supported`.
abbrev pub is_supported : DriverMatch → Bool
is_supported m = not (level_rank m.level == 0)

-- `DriverMatch::compare_rank`.
abbrev pub compare_rank : DriverMatch → DriverMatch → Ordering
compare_rank a b =
    then_with (compare a.score b.score) (compare (level_rank a.level) (level_rank b.level))

-- `From<ManifestMatch>`.
unfoldable pub from_manifest_match : ManifestMatch → DriverMatch
from_manifest_match v =
    if not v.matched
    then record {
      level = DriverMatchLevel.unsupported;
      score = 0;
      reasons = v.reasons;
      matched_rule = v.matched_rule;
    }
    else record {
      level = priority_level v.priority;
      score = v.score;
      reasons = v.reasons;
      matched_rule = v.matched_rule;
    }
