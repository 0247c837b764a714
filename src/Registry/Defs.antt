-- ===== src/Registry/Defs.antt =====
-- crates/lemnos-registry/src/{registry,report,candidate,error,driver_id}.rs. A `DriverId` is its
-- text.
use lemnos.Prelude.{
  Bool, List, Map, Option, Ordering, Result, Text, [], any, compare_text, ensure, err, false,
  filter, find, if◌then◌else◌, insert, is_empty, is_some, lookup, map, map_err, none, not, ok,
  ok_or, remove, same, some, sort_by, take_while, text_ord, then_with, true, ℕ, ◌&&◌, ◌++◌, ◌==◌,
  ◌>>◌, ◌∷◌,
}
use lemnos.Core.Descriptor.{DeviceDescriptor}
use lemnos.Core.Ids.{DeviceId}
use lemnos.Core.Interface.{interface_ord}
use lemnos.Manifest.Driver.{DriverManifest, DriverPriority, validate_manifest}
use lemnos.Manifest.Rules.{ManifestError}
use lemnos.Sdk.Driver.{Driver}
use lemnos.Sdk.Matching.{DriverMatch, DriverMatchLevel, compare_rank, is_supported, level_rank}

pub data RegistryError : Type 0 where
  duplicate_driver_id : Text → RegistryError
  invalid_manifest : Text → ManifestError → RegistryError
  unknown_preferred_driver : Text → RegistryError
  no_matching_driver : DeviceId → RegistryError
  preferred_driver_did_not_match : DeviceId → Text → RegistryError
  conflicting_matches : DeviceId → List Text → RegistryError

abbrev pub RegistryResult : Type 0 → Type 0
RegistryResult A = Result RegistryError A

pub record DriverRegistry (C B : Type 0) : Type 0 where
  pub drivers : List (Driver C B)
  pub preferred_drivers : Map DeviceId Text

-- `RankedDriver`, and the `DriverCandidate` that it becomes: its `driver_id` is the driver's `id`.
pub record DriverCandidate (C B : Type 0) : Type 0 where
  pub driver : Driver C B
  pub driver_id : Text
  pub manifest : DriverManifest
  pub match_result : DriverMatch

pub record DriverCandidateSummary : Type 0 where
  pub driver_id : Text
  pub driver_summary : Text
  pub supported : Bool
  pub priority : DriverPriority
  pub level : DriverMatchLevel
  pub score : ℕ
  pub reasons : List Text
  pub matched_rule : Option ℕ

pub record DriverMatchReport : Type 0 where
  pub device_id : DeviceId
  pub preferred_driver_id : Option Text
  pub supported : List DriverCandidateSummary
  pub rejected : List DriverCandidateSummary

-- `bool::cmp`.
abbrev pub compare_bool : Bool → Bool → Ordering
compare_bool false false = Ordering.eq
compare_bool false true = Ordering.lt
compare_bool true false = Ordering.gt
compare_bool true true = Ordering.eq

-- The test of `resolve` and of `conflicting_top_matches` for a tie.
abbrev pub ties : DriverMatch → DriverMatch → Bool
ties a b = (a.score == b.score) && (level_rank a.level == level_rank b.level)

module _ {C B : Type 0} where
  -- `DriverRegistry::driver`.
  unfoldable pub find_driver : DriverRegistry C B → Text → Option (Driver C B)
  find_driver registry id = find (λ d. same d.id id) registry.drivers

  -- `DriverRegistry::register_boxed`, which `register` calls.
  unfoldable pub register : DriverRegistry C B → Driver C B → RegistryResult (DriverRegistry C B)
  register registry new = do
    ensure (not (any (λ d. same d.id new.id) registry.drivers))
        (RegistryError.duplicate_driver_id new.id)
    map_err (RegistryError.invalid_manifest new.id) (validate_manifest new.manifest)
    ok (record registry { drivers = registry.drivers ++ new ∷ [] })

  -- `DriverRegistry::prefer_driver_for_device`.
  unfoldable pub prefer_driver_for_device :
      DriverRegistry C B → DeviceId → Text → RegistryResult (DriverRegistry C B)
  unfolding find_driver
  prefer_driver_for_device registry device_id driver_id = do
    ensure (is_some (find_driver registry driver_id))
        (RegistryError.unknown_preferred_driver driver_id)
    ok (record registry {
      preferred_drivers = insert device_id driver_id registry.preferred_drivers;
    })

  -- `DriverRegistry::clear_preferred_driver_for_device`.
  unfoldable pub clear_preferred_driver_for_device :
      DriverRegistry C B → DeviceId → DriverRegistry C B × Option Text
  clear_preferred_driver_for_device registry device_id = (
    record registry { preferred_drivers = remove device_id registry.preferred_drivers },
    lookup device_id registry.preferred_drivers,
  )

  unfoldable pub to_candidate : DeviceDescriptor → Driver C B → DriverCandidate C B
  to_candidate device d = record {
    driver = d;
    driver_id = d.id;
    manifest = d.manifest;
    match_result = d.matches device;
  }

  abbrev pub candidate_supported : DriverCandidate C B → Bool
  candidate_supported c = is_supported c.match_result

  -- The comparison in `ranked_candidates`: supported ones first, then by falling rank, then by id.
  abbrev pub compare_candidates : DriverCandidate C B → DriverCandidate C B → Ordering
  compare_candidates left right =
      then_with (compare_bool (candidate_supported right) (candidate_supported left)) (
        then_with (compare_rank right.match_result left.match_result)
          (compare_text left.driver_id right.driver_id))

  -- `DriverRegistry::ranked_candidates`.
  unfoldable pub ranked_candidates :
      DriverRegistry C B → DeviceDescriptor → List (DriverCandidate C B)
  unfolding to_candidate
  ranked_candidates registry device =
      sort_by compare_candidates (map (to_candidate device) registry.drivers)

  -- `DriverRegistry::candidates_for`.
  unfoldable pub candidates_for : DriverRegistry C B → DeviceDescriptor → List (DriverCandidate C B)
  unfolding ranked_candidates
  candidates_for registry device = filter candidate_supported (ranked_candidates registry device)

  -- `DriverRegistry::best_match`.
  unfoldable pub best_match : DriverRegistry C B → DeviceDescriptor → Option (DriverCandidate C B)
  unfolding ranked_candidates
  best_match registry device = find candidate_supported (ranked_candidates registry device)

  -- `resolve` without a preferred driver, on the supported candidates.
  unfoldable pub resolve_best :
      DeviceId → List (DriverCandidate C B) → RegistryResult (DriverCandidate C B)
  resolve_best device_id [] = err (RegistryError.no_matching_driver device_id)
  resolve_best device_id (best ∷ rest) =
      let conflicts =
        map (λ c. c.driver_id) (take_while (λ c. ties c.match_result best.match_result) rest) in
      if is_empty conflicts
      then ok best
      else err (RegistryError.conflicting_matches device_id (best.driver_id ∷ conflicts))

  -- `resolve` with a preferred driver: `position` and `nth` find the first of that identifier.
  unfoldable pub resolve_preferred :
      DeviceId → Text → List (DriverCandidate C B) → RegistryResult (DriverCandidate C B)
  resolve_preferred device_id preferred candidates =
      ok_or (find (λ c. same c.driver_id preferred) candidates)
        (RegistryError.preferred_driver_did_not_match device_id preferred)

  unfoldable pub resolve_with :
      Option Text → DeviceId → List (DriverCandidate C B) → RegistryResult (DriverCandidate C B)
  unfolding resolve_best resolve_preferred
  resolve_with none device_id candidates = resolve_best device_id candidates
  resolve_with (some preferred) device_id candidates =
      resolve_preferred device_id preferred candidates

  -- `DriverRegistry::resolve`.
  unfoldable pub resolve :
      DriverRegistry C B → DeviceDescriptor → RegistryResult (DriverCandidate C B)
  unfolding resolve_with candidates_for
  resolve registry device =
      resolve_with (lookup device.id registry.preferred_drivers) device.id
        (candidates_for registry device)

  -- `DriverCandidateSummary::from_candidate`.
  unfoldable pub summarise : DriverCandidate C B → DriverCandidateSummary
  summarise c = record {
    driver_id = c.driver_id;
    driver_summary = c.manifest.summary;
    supported = candidate_supported c;
    priority = c.manifest.priority;
    level = c.match_result.level;
    score = c.match_result.score;
    reasons = c.match_result.reasons;
    matched_rule = c.match_result.matched_rule;
  }

  -- The loop of `DriverMatchReport::from_ranked_candidates`.
  unfoldable pub split_candidates :
      List (DriverCandidate C B) → DriverMatchReport → DriverMatchReport
  unfolding summarise
  split_candidates [] report = report
  split_candidates (c ∷ cs) report =
      let summary = summarise c in
      split_candidates cs (
        if summary.supported
        then record report { supported = report.supported ++ summary ∷ [] }
        else record report { rejected = report.rejected ++ summary ∷ [] })

  -- `DriverRegistry::match_report`.
  unfoldable pub match_report : DriverRegistry C B → DeviceDescriptor → DriverMatchReport
  unfolding ranked_candidates split_candidates
  match_report registry device = split_candidates (ranked_candidates registry device) (record {
    device_id = device.id;
    preferred_driver_id = lookup device.id registry.preferred_drivers;
    supported = [];
    rejected = [];
  })

-- `DriverMatchReport::conflicting_top_matches`.
conflicting_from : List DriverCandidateSummary → List DriverCandidateSummary
conflicting_from [] = []
conflicting_from (best ∷ rest) =
    take_while (λ c. (c.score == best.score) && (level_rank c.level == level_rank best.level))
      (best ∷ rest)

unfoldable pub conflicting_top_matches : DriverMatchReport → List DriverCandidateSummary
unfolding conflicting_from
conflicting_top_matches report = conflicting_from report.supported

find_preferred : Option Text → List DriverCandidateSummary → Option DriverCandidateSummary
find_preferred none summaries = none
find_preferred (some id) summaries = find (λ c. same c.driver_id id) summaries

-- `DriverMatchReport::preferred`.
unfoldable pub preferred_summary : DriverMatchReport → Option DriverCandidateSummary
unfolding find_preferred
preferred_summary report =
    find_preferred report.preferred_driver_id (report.supported ++ report.rejected)
