-- ===== src/Registry/Ranking.antt =====
-- The order in which `ranked_candidates` lists the drivers.
use lemnos.Prelude.{
  Ordered, Ordering, arith, false, sort_by-Ordered, text_ord, true, ◌<◌, ◌≡◌, ◌≢◌, ◌≤◌, ◌⊎◌,
}
use lemnos.Core.Descriptor.{DeviceDescriptor}
use lemnos.Core.Interface.{interface_ord}
use lemnos.Registry.Defs.{DriverCandidate, DriverRegistry, compare_candidates, ranked_candidates}
use lemnos.Sdk.Matching.{DriverMatch, is_supported, level_rank}

-- `b` scores less than `a`, or as much on a lower level.
abbrev pub Below : DriverMatch → DriverMatch → Type 0
Below b a = (b.score < a.score) ⊎ ((b.score ≡ a.score) × (level_rank b.level < level_rank a.level))

-- `a` stands before `b`: it is supported and `b` is not, or it ranks at least as high.
abbrev pub Leads : DriverMatch → DriverMatch → Type 0
Leads a b =
    ((is_supported a ≡ true) × (is_supported b ≡ false))
    ⊎ ((is_supported a ≡ is_supported b)
        × ((b.score < a.score) ⊎ ((b.score ≡ a.score) × (level_rank b.level ≤ level_rank a.level))))

Leads-trans : (a b c : DriverMatch) → Leads a b → Leads b c → Leads a c
Leads-trans a b c h k = ground arith

module _ {C B : Type 0} where
  abbrev pub CandidateLeads : DriverCandidate C B → DriverCandidate C B → Type 0
  CandidateLeads x y = Leads x.match_result y.match_result

  compare-not_gt :
      (x y : DriverCandidate C B) → compare_candidates x y ≢ Ordering.gt → CandidateLeads x y
  compare-not_gt x y h = ground arith

  compare-gt :
      (x y : DriverCandidate C B) → compare_candidates x y ≡ Ordering.gt → CandidateLeads y x
  compare-gt x y h = ground arith

  -- Each candidate leads all that follow it in the list of `ranked_candidates`: the supported ones
  -- stand first, then the score and then the level falls.
  pub ranked_candidates-Ordered :
      (registry : DriverRegistry C B) (device : DeviceDescriptor)
      → Ordered CandidateLeads (ranked_candidates registry device)
  unfolding ranked_candidates
  ranked_candidates-Ordered registry device =
      sort_by-Ordered compare_candidates CandidateLeads
        (λ x y z. Leads-trans x.match_result y.match_result z.match_result) compare-not_gt
        compare-gt _
