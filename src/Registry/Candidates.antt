-- ===== src/Registry/Candidates.antt =====
-- The supported candidates that `DriverRegistry::resolve` chooses from: crates/lemnos-registry/src.
use lemnos.Prelude.{
  All, All-In, All-at, All-filter, All-filter_inv, All-map, All-map_inv, All-map_of, All-of_at,
  Bool-cases, In, List, Ordered, Ordered-filter, [], ap, arith, false, filter-All, inl, inr,
  is_empty, le_refl, map, refl, sort_by-All, sort_by-All_inv, subst, sym, take_while, text_ord,
  true, true≢false, ◌++◌, ◌∙◌, ◌∷◌, ◌≡◌,
}
use lemnos.Core.Descriptor.{DeviceDescriptor}
use lemnos.Core.Interface.{interface_ord}
use lemnos.Registry.Defs.{
  DriverCandidate, DriverRegistry, candidate_supported, candidates_for, compare_candidates,
  ranked_candidates, ties, to_candidate,
}
use lemnos.Registry.Ranking.{Below, CandidateLeads, ranked_candidates-Ordered}
use lemnos.Sdk.Matching.{is_supported}

module _ {C B : Type 0} where
  -- A property of the supported candidates, in the order of their ranks, is one of the drivers.
  pub from_candidates :
      (P : DriverCandidate C B → Type 0) (registry : DriverRegistry C B) (device : DeviceDescriptor)
      → All P (candidates_for registry device)
      → All
          (λ d. is_supported (d.matches device) ≡ true → P (to_candidate device d))
          registry.drivers
  unfolding candidates_for to_candidate
  from_candidates P registry device h =
      All-map_inv _ (to_candidate device) registry.drivers
        (sort_by-All_inv compare_candidates _ _ (All-filter_inv P candidate_supported _ h))

  -- And back.
  to_candidates :
      (P : DriverCandidate C B → Type 0) (registry : DriverRegistry C B) (device : DeviceDescriptor)
      → All (λ d. P (to_candidate device d)) registry.drivers
      → All P (candidates_for registry device)
  unfolding candidates_for
  to_candidates P registry device h =
      All-filter P candidate_supported _
        (sort_by-All compare_candidates P _ (All-map_of P (to_candidate device) registry.drivers h))

  pub candidates_for-supported :
      (registry : DriverRegistry C B) (device : DeviceDescriptor)
      → All (λ c. candidate_supported c ≡ true) (candidates_for registry device)
  unfolding candidates_for
  candidates_for-supported registry device =
      filter-All candidate_supported (ranked_candidates registry device)

  pub candidates_for-Ordered :
      (registry : DriverRegistry C B) (device : DeviceDescriptor)
      → Ordered CandidateLeads (candidates_for registry device)
  unfolding candidates_for
  candidates_for-Ordered registry device =
      Ordered-filter CandidateLeads candidate_supported _
        (ranked_candidates-Ordered registry device)

  -- Each candidate stands for a registered driver.
  pub candidates_for-registered :
      (registry : DriverRegistry C B) (device : DeviceDescriptor)
      → All
          (λ c. In c.driver registry.drivers × (to_candidate device c.driver ≡ c))
          (candidates_for registry device)
  unfolding to_candidate
  candidates_for-registered registry device =
      to_candidates _ registry device
        (All-map registry.drivers (λ d m. (m, refl)) (All-In registry.drivers))

  Below-of_leads :
      (best y z : DriverCandidate C B)
      → candidate_supported y ≡ true
      → candidate_supported z ≡ true
      → ties y.match_result best.match_result ≡ false
      → CandidateLeads best y
      → CandidateLeads y z
      → Below z.match_result best.match_result
  Below-of_leads best y z sy sz t h k = ground arith

  -- The candidates behind the best one: those that tie with it, and then those below it.
  pub split_ties :
      (best : DriverCandidate C B) (rest : List (DriverCandidate C B))
      → All (λ c. candidate_supported c ≡ true) rest
      → All (CandidateLeads best) rest
      → Ordered CandidateLeads rest
      → (others : List (DriverCandidate C B)) × (rest
          ≡ take_while (λ c. ties c.match_result best.match_result) rest ++ others)
        × All
            (λ c. ties c.match_result best.match_result ≡ true)
            (take_while (λ c. ties c.match_result best.match_result) rest)
        × All (λ c. Below c.match_result best.match_result) others
  split_ties best [] s l o = ([], refl, tt, tt)
  split_ties best (y ∷ ys) s l o = elim (Bool-cases (ties y.match_result best.match_result)) [
    | inl t ↦
        let (others, whole, tied, below) = split_ties best ys s.1 l.1 o.1 in
        (others, rw t (ap (λ zs. y ∷ zs) whole), rw t (t, tied), below)
    | inr t ↦ (
      y ∷ ys,
      rw t refl,
      rw t tt,
      (
        Below-of_leads best y y s.0 s.0 t l.0 (inr (refl, inr (refl, le_refl _))),
        All-of_at _ ys
            λ z m. Below-of_leads best y z s.0 (All-at _ ys z s.1 m) t l.0 (All-at _ ys z o.0 m),
      ),
    )
  ]

  pub untied :
      (best : DriverCandidate C B) (rest : List (DriverCandidate C B))
      → All (λ c. candidate_supported c ≡ true) rest
      → All (CandidateLeads best) rest
      → Ordered CandidateLeads rest
      → is_empty
          (map (λ c. c.driver_id) (take_while (λ c. ties c.match_result best.match_result) rest))
        ≡ true
      → All (λ c. Below c.match_result best.match_result) rest
  untied best [] s l o e = tt
  untied best (y ∷ ys) s l o e = elim (Bool-cases (ties y.match_result best.match_result)) [
    | inl t ↦ absurd (true≢false (sym (rw t at e)))
    | inr t ↦
        let (others, whole, tied, below) = split_ties best (y ∷ ys) s l o in
        let all : y ∷ ys ≡ others = whole ∙ rw t refl in
        subst (All (λ c. Below c.match_result best.match_result)) (sym all) below
  ]
