-- ===== src/Registry/Resolve.antt =====
-- What `DriverRegistry::resolve` decides.
use lemnos.Prelude.{
  All, All-at, All-map, Bool-cases, In, In-find, List, Ordered, Text, [], ap, arith, err,
  err-injective, err-ne-ok, false, find, find-none, inl, inr, is_empty, lookup, map, none, ok,
  ok-injective, ok-ne-err, ok_or-eq-err, ok_or-eq-ok, refl, same, same-eq, same_refl, some, subst,
  sym, take_while, text_ord, true, true≢false, ◌++◌, ◌∙◌, ◌∷◌, ◌≡◌, ◌≢◌, ◌⊎◌,
}
use lemnos.Core.Descriptor.{DeviceDescriptor}
use lemnos.Core.Ids.{DeviceId}
use lemnos.Core.Interface.{interface_ord}
use lemnos.Registry.Candidates.{
  candidates_for-Ordered, candidates_for-registered, candidates_for-supported, from_candidates,
  split_ties, untied,
}
use lemnos.Registry.Defs.{
  DriverCandidate, DriverRegistry, RegistryError, candidate_supported, candidates_for, resolve,
  resolve_best, resolve_preferred, resolve_with, ties, to_candidate,
}
use lemnos.Registry.Ranking.{Below, CandidateLeads}
use lemnos.Sdk.Driver.{Driver}
use lemnos.Sdk.Matching.{is_supported}

module _ {C B : Type 0} where
  -- Every other supported driver of the list ranks strictly below the candidate.
  abbrev pub Wins : DeviceDescriptor → DriverCandidate C B → List (Driver C B) → Type 0
  Wins device c = All λ d.
      is_supported (d.matches device) ≡ true
      → (to_candidate device d ≡ c) ⊎ Below (d.matches device) c.match_result

  resolve_best-wins :
      (id : DeviceId) (cs : List (DriverCandidate C B)) {c : DriverCandidate C B}
      → All (λ c. candidate_supported c ≡ true) cs
      → Ordered CandidateLeads cs
      → resolve_best id cs ≡ ok c
      → In c cs × All (λ x. (x ≡ c) ⊎ Below x.match_result c.match_result) cs
  unfolding resolve_best
  resolve_best-wins id [] s o h = cc
  resolve_best-wins id (best ∷ rest) {c} s o h =
      elim (Bool-cases (
        is_empty (
          map (λ x. x.driver_id) (take_while (λ x. ties x.match_result best.match_result) rest)))) [
            | inr e ↦ absurd (err-ne-ok (rw e at h))
            | inl e ↦
                let same_best : best ≡ c = ok-injective (rw e at h) in
                (
                  inl same_best,
                  (
                    inl same_best,
                    All-map rest
                        (λ x b. inr (subst (λ k. Below x.match_result k.match_result) same_best b))
                        (untied best rest s.1 o.0 o.1 e),
                  ),
                )
          ]

  -- Without a preferred driver, the candidate that `resolve` returns is a registered driver that
  -- supports the device, and every other registered driver that supports it ranks strictly below.
  pub resolve-Wins :
      (registry : DriverRegistry C B) (device : DeviceDescriptor) {c : DriverCandidate C B}
      → lookup device.id registry.preferred_drivers ≡ none
      → resolve registry device ≡ ok c
      → (candidate_supported c ≡ true)
        × In c.driver registry.drivers
        × (to_candidate device c.driver ≡ c)
        × Wins device c registry.drivers
  unfolding resolve resolve_with
  resolve-Wins registry device {c} none_preferred h =
      let cs = candidates_for registry device in
      let (member, wins) =
        resolve_best-wins device.id cs (candidates_for-supported registry device)
          (candidates_for-Ordered registry device) (rw none_preferred at h) in
      let (registered, made) = All-at _ cs c (candidates_for-registered registry device) member in
      (
        All-at _ cs c (candidates_for-supported registry device) member,
        registered,
        made,
        from_candidates (λ x. (x ≡ c) ⊎ Below x.match_result c.match_result) registry device wins,
      )

  -- A conflict over a device: the first candidate ties with one or more that follow it, the error
  -- lists their drivers in order, and the candidates after them rank strictly below.
  abbrev pub Conflict : DeviceId → List (DriverCandidate C B) → RegistryError → Type 0
  Conflict id cs e =
      (best : DriverCandidate C B) × (second : DriverCandidate C B) × (tied : List
        (DriverCandidate C B))
      × (others : List (DriverCandidate C B)) × (cs ≡ best ∷ second ∷ (tied ++ others))
      × All (λ x. ties x.match_result best.match_result ≡ true) (second ∷ tied)
      × All (λ x. Below x.match_result best.match_result) others
      × (e ≡ RegistryError.conflicting_matches id (map (λ x. x.driver_id) (best ∷ second ∷ tied)))

  resolve_best-err :
      (id : DeviceId) (cs : List (DriverCandidate C B)) {e : RegistryError}
      → All (λ c. candidate_supported c ≡ true) cs
      → Ordered CandidateLeads cs
      → resolve_best id cs ≡ err e
      → ((cs ≡ []) × (e ≡ RegistryError.no_matching_driver id)) ⊎ Conflict id cs e
  unfolding resolve_best
  resolve_best-err id [] s o h = inl (refl, ground arith)
  resolve_best-err id (best ∷ []) s o h = absurd (ok-ne-err h)
  resolve_best-err id (best ∷ y ∷ ys) s o h =
      elim (Bool-cases (ties y.match_result best.match_result)) [
        | inr t ↦ absurd (ok-ne-err (rw t at h))
        | inl t ↦
            let (others, whole, tied, below) = split_ties best ys s.1.1 o.0.1 o.1.1 in
            let same_error = err-injective (rw t at h) in
            inr (
              best,
              y,
              take_while (λ x. ties x.match_result best.match_result) ys,
              others,
              ap (λ zs. best ∷ y ∷ zs) whole,
              (t, tied),
              below,
              sym same_error,
            )
      ]

  -- Without a preferred driver, `resolve` fails for one of two reasons. No registered driver
  -- supports the device, and the error says so; or the first candidate ties in score and level with
  -- one or more after it, all others rank strictly below, and the error lists those that tie, which
  -- are candidates of registered drivers.
  pub resolve-err :
      (registry : DriverRegistry C B) (device : DeviceDescriptor) {e : RegistryError}
      → lookup device.id registry.preferred_drivers ≡ none
      → resolve registry device ≡ err e
      → (All (λ d. is_supported (d.matches device) ≡ false) registry.drivers
          × (e ≡ RegistryError.no_matching_driver device.id))
        ⊎ (Conflict device.id (candidates_for registry device) e
            × All
                (λ c. In c.driver registry.drivers × (to_candidate device c.driver ≡ c))
                (candidates_for registry device))
  unfolding resolve resolve_with to_candidate
  resolve-err registry device none_preferred h =
      elim (resolve_best-err device.id (candidates_for registry device)
        (candidates_for-supported registry device) (candidates_for-Ordered registry device)
        (rw none_preferred at h)) [
          | inl (e, e') ↦ inl (
            All-map registry.drivers
                (λ d f. elim (Bool-cases (is_supported (d.matches device))) [
                  | inl t ↦ absurd (f t)
                  | inr t ↦ t
                ])
                (from_candidates (λ _. ⊥) registry device (subst (All (λ _. ⊥)) (sym e) tt)),
            e',
          )
          | inr r ↦ inr (r, candidates_for-registered registry device)
        ]

  -- When a preferred driver is set and `resolve` returns a candidate, its driver is registered, has
  -- that identifier and supports the device, and the candidate is the one of this driver.
  pub resolve-preferred :
      (registry : DriverRegistry C B) (device : DeviceDescriptor) {id : Text}
      {c : DriverCandidate C B}
      → lookup device.id registry.preferred_drivers ≡ some id
      → resolve registry device ≡ ok c
      → In c.driver registry.drivers
        × (c.driver.id ≡ id)
        × (is_supported (c.driver.matches device) ≡ true)
        × (to_candidate device c.driver ≡ c)
        × (c.driver_id ≡ id)
        × (candidate_supported c ≡ true)
  unfolding resolve resolve_with resolve_preferred to_candidate
  resolve-preferred registry device {id} {c} p h =
      let cs = candidates_for registry device in
      let found : find (λ x. same x.driver_id id) cs ≡ some c = ok_or-eq-ok _ _ (rw p at h) in
      let (member, named) = In-find (λ x. same x.driver_id id) cs c found in
      let (registered, made) = All-at _ cs c (candidates_for-registered registry device) member in
      let supported = All-at _ cs c (candidates_for-supported registry device) member in
      let identified : c.driver_id ≡ id = same-eq c.driver_id id named in
      (
        registered,
        ap (λ x. x.driver_id) made ∙ identified,
        ap candidate_supported made ∙ supported,
        made,
        identified,
        supported,
      )

  -- When a preferred driver is set and `resolve` fails, the error says that this driver did not
  -- match, and no registered driver of that identifier supports the device.
  pub resolve-preferred_err :
      (registry : DriverRegistry C B) (device : DeviceDescriptor) {id : Text} {e : RegistryError}
      → lookup device.id registry.preferred_drivers ≡ some id
      → resolve registry device ≡ err e
      → (e ≡ RegistryError.preferred_driver_did_not_match device.id id)
        × All (λ d. is_supported (d.matches device) ≡ true → d.id ≢ id) registry.drivers
  unfolding resolve resolve_with resolve_preferred to_candidate
  resolve-preferred_err registry device {id} {e} p h =
      let cs = candidates_for registry device in
      let (missing, e') = ok_or-eq-err (find (λ x. same x.driver_id id) cs) (rw p at h) in
      (
        e',
        from_candidates (λ c. c.driver_id ≢ id) registry device
            (All-map cs
              (λ c f q. true≢false (sym (subst (λ k. same k id ≡ true) (sym q) (same_refl id)) ∙ f))
              (find-none (λ x. same x.driver_id id) cs missing)),
      )
