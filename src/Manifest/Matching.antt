-- ===== src/Manifest/Matching.antt =====
-- What `match_device` decides (crates/lemnos-driver-manifest/src/manifest.rs).
-- `r` is the element with index `i` of the list whose first element has the index `index`.
use lemnos.Prelude.{
  All, Bool-cases, List, Option, Option-cases, Text, [], add_u32, any, ap, arith, false, get_elem?,
  if◌then◌else◌, inl, inr, is_empty, is_some, ltb, ltb→lt, none, refl, some, suc, sym, text_ord,
  true, zero, ℕ, ◌&&◌, ◌+◌, ◌<◌, ◌||◌, ◌∙◌, ◌∷◌, ◌≡◌, ◌≢◌, ◌≤◌, ◌⊎◌,
}
use lemnos.Core.Descriptor.{DeviceDescriptor}
use lemnos.Core.Interface.{interface_ord}
use lemnos.Core.Kinds.{same_kind}
use lemnos.Manifest.Driver.{
  DriverManifest, DriverPriority, base_score, best_rule_from, conclude, match_device, match_rules,
  supports_interface,
}
use lemnos.Manifest.Rules.{MatchRule, rule_matches}

abbrev At : ℕ → List MatchRule → ℕ → MatchRule → Type 0
At index [] i r = ⊥
At index (x ∷ xs) i r = ((i ≡ index) × (x ≡ r)) ⊎ At (suc index) xs i r

-- The rule of index `i` scores no less than any rule that matches, and more than those before it.
abbrev Dominates : DeviceDescriptor → ℕ → MatchRule → ℕ → List MatchRule → Type 0
Dominates d i r index [] = Unit
Dominates d i r index (x ∷ xs) =
    (rule_matches x d ≡ true → (x.score ≤ r.score) × (index < i → x.score < r.score))
    × Dominates d i r (suc index) xs

-- What the loop returns when it starts with the rule `s`, of index `b`, as the best so far.
record Improves (d : DeviceDescriptor) (b : ℕ) (s : MatchRule) (index : ℕ) (xs : List MatchRule)
    (i : ℕ) (r : MatchRule) : Type 0 where
  origin :
      ((i ≡ b) × (r ≡ s))
      ⊎ ((index ≤ i) × At index xs i r × (rule_matches r d ≡ true) × (s.score < r.score))
  dominates : Dominates d i r index xs

Improves-score :
    {d : DeviceDescriptor} {b : ℕ} {s : MatchRule} {index : ℕ} {xs : List MatchRule} {i : ℕ}
    {r : MatchRule}
    → Improves d b s index xs i r
    → b < index
    → (s.score ≤ r.score) × (index ≤ i → s.score < r.score)
Improves-score h lt = elim h.origin [
  | inl (e, e') ↦ (rw e' (omega arith), λ le. absurd (omega arith))
  | inr (_, _, _, better) ↦ (omega arith, λ _. better)
]

module _ {d : DeviceDescriptor} {b : ℕ} {s x : MatchRule} {index : ℕ} {xs : List MatchRule} {i : ℕ}
    {r : MatchRule} (lt : b < index) where
  Improves-keep :
      (rule_matches x d ≡ true → x.score ≤ s.score)
      → Improves d b s (suc index) xs i r
      → Improves d b s index (x ∷ xs) i r
  Improves-keep worse h =
      let up = Improves-score h (omega arith) in
      record {
        origin = elim h.origin [
          | inl e ↦ inl e
          | inr (le, at, m, better) ↦ inr (omega arith, inr at, m, better)
        ];
        dominates =
            (λ m. (omega (arith, worse m, up.0), λ l. omega (arith, worse m, up.1 l)), h.dominates);
      }

  Improves-take :
      rule_matches x d ≡ true
      → s.score < x.score
      → Improves d index x (suc index) xs i r
      → Improves d b s index (x ∷ xs) i r
  Improves-take m better h =
      let up = Improves-score h (omega arith) in
      record {
        origin = elim h.origin [
          | inl (e, e') ↦ inr (omega arith, inl (e, sym e'), rw e' m, rw e' better)
          | inr (le, at, m', better') ↦ inr (omega arith, inr at, m', omega arith)
        ];
        dominates = (λ _. (up.0, λ l. up.1 l), h.dominates);
      }

best_from_some :
    (d : DeviceDescriptor) (index : ℕ) (xs : List MatchRule) (b : ℕ) (s : MatchRule) {i : ℕ}
    {r : MatchRule}
    → b < index
    → best_rule_from d index xs (some (b, s)) s.score ≡ some (i, r)
    → Improves d b s index xs i r
unfolding best_rule_from
best_from_some d index [] b s lt h = record { origin = inl (cc, cc); dominates = tt }
best_from_some d index (x ∷ xs) b s {i} {r} lt h = elim (Bool-cases (rule_matches x d)) [
  | inl m ↦ elim (Bool-cases (ltb s.score x.score)) [
    | inl better ↦
        Improves-take lt m (ltb→lt _ _ better)
          (best_from_some d (suc index) xs index x (omega arith) (rw (m, better) at h))
    | inr worse ↦
        Improves-keep lt (λ _. ground arith)
          (best_from_some d (suc index) xs b s (omega arith) (rw (m, worse) at h))
  ]
  | inr m ↦
      Improves-keep lt (λ m'. cc) (best_from_some d (suc index) xs b s (omega arith) (rw m at h))
]

-- With a rule in hand the loop never ends with none.
best_from_some-ne-none :
    (d : DeviceDescriptor) (index : ℕ) (xs : List MatchRule) (b : ℕ × MatchRule) (score : ℕ)
    → best_rule_from d index xs (some b) score ≢ none
unfolding best_rule_from
best_from_some-ne-none d index [] b score h = cc
best_from_some-ne-none d index (x ∷ xs) b score h =
    elim (Bool-cases (rule_matches x d && ltb score x.score)) [
      | inl e ↦ best_from_some-ne-none d (suc index) xs (index, x) x.score (rw e at h)
      | inr e ↦ best_from_some-ne-none d (suc index) xs b score (rw e at h)
    ]

-- What the loop returns when it starts with no rule.
best_from_none :
    (d : DeviceDescriptor) (index : ℕ) (xs : List MatchRule) {i : ℕ} {r : MatchRule}
    → best_rule_from d index xs none 0 ≡ some (i, r)
    → (index ≤ i) × At index xs i r × (rule_matches r d ≡ true) × Dominates d i r index xs
unfolding best_rule_from
best_from_none d index [] {i = i} {r = r} h = cc
best_from_none d index (x ∷ xs) {i = i} {r = r} h = elim (Bool-cases (rule_matches x d)) [
  | inl m ↦ from_first m (best_from_some d (suc index) xs index x (omega arith) (rw m at h))
  | inr m ↦
      let (le, at, m', dom) = best_from_none d (suc index) xs (rw m at h) in
      (omega arith, inr at, m', (λ t. cc, dom))
]
  where
    from_first :
        rule_matches x d ≡ true
        → Improves d index x (suc index) xs i r
        → (index ≤ i)
          × At index (x ∷ xs) i r
          × (rule_matches r d ≡ true)
          × Dominates d i r index (x ∷ xs)
    from_first m g =
        let up = Improves-score g (omega arith) in
        elim g.origin [
          | inl (e, e') ↦ (omega arith, inl (e, sym e'), rw e' m, (λ _. up, g.dominates))
          | inr (le, at, m', _) ↦ (omega arith, inr at, m', (λ _. up, g.dominates))
        ]

best_from-none :
    (d : DeviceDescriptor) (index : ℕ) (xs : List MatchRule)
    → best_rule_from d index xs none 0 ≡ none
    → All (λ x. rule_matches x d ≡ false) xs
unfolding best_rule_from
best_from-none d index [] h = tt
best_from-none d index (x ∷ xs) h = elim (Bool-cases (rule_matches x d)) [
  | inl m ↦ absurd (best_from_some-ne-none d (suc index) xs (index, x) x.score (rw m at h))
  | inr m ↦ (m, best_from-none d (suc index) xs (rw m at h))
]

-- The loop finds a rule exactly if one matches.
is_some-best_rule_from :
    (d : DeviceDescriptor) (index : ℕ) (xs : List MatchRule)
    → is_some (best_rule_from d index xs none 0) ≡ any (λ x. rule_matches x d) xs
unfolding best_rule_from
is_some-best_rule_from d index [] = refl
is_some-best_rule_from d index (x ∷ xs) = elim (Bool-cases (rule_matches x d)) [
  | inl m ↦ rw m (elim (Option-cases (best_rule_from d (suc index) xs (some (index, x)) x.score)) [
    | inl e ↦ absurd (best_from_some-ne-none d (suc index) xs (index, x) x.score e)
    | inr (_, e) ↦ rw e
  ])
  | inr m ↦ rw m (is_some-best_rule_from d (suc index) xs)
]

At-le : (index : ℕ) (xs : List MatchRule) (i : ℕ) (r : MatchRule) → At index xs i r → index ≤ i
At-le index [] i r at = absurd at
At-le index (x ∷ xs) i r at = elim at [
  | inl (e, _) ↦ omega arith
  | inr at' ↦ omega (arith, At-le (suc index) xs _ _ at')
]

At-get_elem? :
    (index : ℕ) (xs : List MatchRule) (k : ℕ) {i : ℕ} {r : MatchRule}
    → At index xs i r
    → i ≡ index + k
    → get_elem? xs k ≡ some r
At-get_elem? index [] k at e = absurd at
At-get_elem? index (x ∷ xs) zero at e = elim at [
  | inl (_, e') ↦ ap some e'
  | inr at' ↦ absurd (omega (arith, At-le (suc index) xs _ _ at'))
]
At-get_elem? index (x ∷ xs) (suc k) at e = elim at [
  | inl (e', _) ↦ absurd (omega arith)
  | inr at' ↦ At-get_elem? (suc index) xs k at' (omega arith)
]

Dominates-at :
    (d : DeviceDescriptor) (i : ℕ) (r : MatchRule) (index : ℕ) (xs : List MatchRule)
    → Dominates d i r index xs
    → (j : ℕ) (s : MatchRule) → get_elem? xs j ≡ some s
    → rule_matches s d ≡ true
    → (s.score ≤ r.score) × (index + j < i → s.score < r.score)
Dominates-at d i r index [] h j s e m = cc
Dominates-at d i r index (x ∷ xs) h zero s e m =
    let e' : x ≡ s = cc in
    let (le, lt) = h.0 (rw e' m) in (rw (← e') le, λ l. rw (← e') (lt (omega arith)))
Dominates-at d i r index (x ∷ xs) h (suc j) s e m =
    let (le, lt) = Dominates-at d i r (suc index) xs h.1 j s e m in (le, λ l. lt (omega arith))

-- The rule of index `i` matches, no matching rule scores more, and no earlier one as much.
pub record IsBest (m : DriverManifest) (d : DeviceDescriptor) (i : ℕ) (r : MatchRule) : Type 0 where
  pub here : get_elem? m.rules i ≡ some r
  pub fits : rule_matches r d ≡ true
  pub highest :
      (j : ℕ) (s : MatchRule)
      → get_elem? m.rules j ≡ some s
      → rule_matches s d ≡ true
      → (s.score ≤ r.score) × (j < i → s.score < r.score)

best_rule_from-IsBest :
    (m : DriverManifest) (d : DeviceDescriptor) {i : ℕ} {r : MatchRule}
    → best_rule_from d 0 m.rules none 0 ≡ some (i, r)
    → IsBest m d i r
best_rule_from-IsBest m d {i} {r} h =
    let (_, at, fits, dom) = best_from_none d 0 m.rules h in
    record {
      here = At-get_elem? 0 m.rules i at (omega arith);
      fits = fits;
      highest = λ j s e t.
          let (le, lt) = Dominates-at d i r 0 m.rules dom j s e t in (le, λ l. lt (omega arith));
    }

-- The score that a manifest gives before its rules: the priority's, and 25 for a listed kind.
abbrev pub ground_score : DriverManifest → ℕ
ground_score m = if is_empty m.kinds then base_score m.priority else base_score m.priority + 25

base_score-le : (p : DriverPriority) → base_score p ≤ 300
base_score-le DriverPriority.fallback = omega arith
base_score-le _ = omega arith

module _ (m : DriverManifest) (d : DeviceDescriptor) where
  match_rules-IsBest :
      (reasons : List Text) (score : ℕ) {i : ℕ}
      → (match_rules m d reasons score).matched_rule ≡ some i
      → (r : MatchRule) × IsBest m d i r
        × ((match_rules m d reasons score).score ≡ add_u32 score r.score)
  unfolding match_rules conclude
  match_rules-IsBest reasons score {i} h = elim (Bool-cases (is_empty m.rules)) [
    | inl e ↦ let bad : ◌≡◌ {A = Option ℕ} none (some i) = rw e at h in cc
    | inr e ↦ elim (Option-cases (best_rule_from d 0 m.rules none 0)) [
      | inl b ↦ let bad : ◌≡◌ {A = Option ℕ} none (some i) = rw (e, b) at h in cc
      | inr (p, b) ↦
          let same_index : p.0 ≡ i = let k : some p.0 ≡ some i = rw (e, b) at h in cc in
          (p.1, best_rule_from-IsBest m d (b ∙ ap (λ k. some (k, p.1)) same_index), rw (e, b))
    ]
  ]

  match_rules-matched :
      (reasons : List Text) (score : ℕ)
      → (match_rules m d reasons score).matched
        ≡ (is_empty m.rules || any (λ x. rule_matches x d) m.rules)
  unfolding match_rules conclude
  match_rules-matched reasons score = elim (Bool-cases (is_empty m.rules)) [
    | inl e ↦ rw e
    | inr e ↦
        rw (e, ← is_some-best_rule_from d 0 m.rules)
          (elim (Option-cases (best_rule_from d 0 m.rules none 0)) [
            | inl b ↦ rw b
            | inr (p, b) ↦ rw b
          ])
  ]

  -- A manifest fits a device exactly if it lists the device's interface, its kind (or no kind),
  -- and has a rule that matches (or no rule).
  pub match_device-matched : (match_device m d).matched ≡ (
      supports_interface m d.interface
      && (is_empty m.kinds || any (λ k. same_kind k d.kind) m.kinds)
      && (is_empty m.rules || any (λ r. rule_matches r d) m.rules))
  unfolding match_device
  match_device-matched = elim (Bool-cases (supports_interface m d.interface)) [
    | inr s ↦ rw s
    | inl s ↦ elim (Bool-cases (is_empty m.kinds)) [
      | inl e ↦ rw (s, e) (match_rules-matched _ _)
      | inr e ↦ elim (Bool-cases (any (λ k. same_kind k d.kind) m.kinds)) [
        | inl k ↦ rw (s, e, k) (match_rules-matched _ _)
        | inr k ↦ rw (s, e, k)
      ]
    ]
  ]

  -- The rule that a match reports is the best one: it matches the device, no other matching rule
  -- scores more, and no earlier one as much. The score is the sum, in 32 bits, of the base score
  -- and the rule's.
  pub match_device-IsBest :
      {i : ℕ}
      → (match_device m d).matched_rule ≡ some i
      → (r : MatchRule) × IsBest m d i r
        × ((match_device m d).score ≡ add_u32 (ground_score m) r.score)
  unfolding match_device
  match_device-IsBest {i} h = elim (Bool-cases (supports_interface m d.interface)) [
    | inr s ↦ let bad : ◌≡◌ {A = Option ℕ} none (some i) = rw s at h in cc
    | inl s ↦ elim (Bool-cases (is_empty m.kinds)) [
      | inl e ↦ rw (s, e) (match_rules-IsBest _ _ (rw (s, e) at h))
      | inr e ↦ elim (Bool-cases (any (λ k. same_kind k d.kind) m.kinds)) [
        | inl k ↦
            let (r, best, score) = match_rules-IsBest _ _ (rw (s, e, k) at h) in
            rw (s, e, k) (r, best, score ∙ omega (arith, base_score-le m.priority))
        | inr k ↦ let bad : ◌≡◌ {A = Option ℕ} none (some i) = rw (s, e, k) at h in cc
      ]
    ]
  ]
