-- ===== src/Prelude/Sorting.antt =====
-- `slice::sort_by`: a stable sort, here by insertion, and `Ordering::then`.
use Prim.Native.Nat.{Ordering}
use mathlib.Core.Path.{◌≡◌, sym, subst}
use mathlib.Core.Logic.{◌⊎◌, inl, inr, ◌≢◌}
use mathlib.Core.List.{List, [], ◌∷◌}
use native.Mathlib.Omega.{arith}
use mathlib.Core.Bool.{Bool}
use lemnos.Prelude.Lists.{All, All-map, All-filter, filter}
use lemnos.Prelude.Keys.{Ordering-cases}

abbrev pub then_with : Ordering → Ordering → Ordering
then_with Ordering.lt r = Ordering.lt
then_with Ordering.eq r = r
then_with Ordering.gt r = Ordering.gt

module _ {ℓ} {A : Type ℓ} (cmp : A → A → Ordering) where
  abbrev pub insert_sorted : A → List A → List A
  insert_sorted x [] = x ∷ []
  insert_sorted x (y ∷ ys) = elim (cmp x y) [
    | Ordering.gt ↦ y ∷ insert_sorted x ys
    | _ ↦ x ∷ y ∷ ys
  ]

  unfoldable pub sort_by : List A → List A
  sort_by [] = []
  sort_by (x ∷ xs) = insert_sorted x (sort_by xs)

  -- The two ways in which an element is put before or behind the head.
  insert_sorted_cases :
      (x y : A) (ys : List A)
      → ((cmp x y ≢ Ordering.gt) × (insert_sorted x (y ∷ ys) ≡ x ∷ y ∷ ys))
        ⊎ ((cmp x y ≡ Ordering.gt) × (insert_sorted x (y ∷ ys) ≡ y ∷ insert_sorted x ys))
  insert_sorted_cases x y ys = elim (Ordering-cases (cmp x y)) [
    | inl e ↦ inl (λ g. cc, rw (e, insert_sorted))
    | inr (inl e) ↦ inl (λ g. cc, rw (e, insert_sorted))
    | inr (inr e) ↦ inr (e, rw (e, insert_sorted))
  ]

  insert_sorted-All {κ} :
      (P : A → Type κ) (x : A) (ys : List A) → P x → All P ys → All P (insert_sorted x ys)
  insert_sorted-All P x [] p h = (p, tt)
  insert_sorted-All P x (y ∷ ys) p h = elim (insert_sorted_cases x y ys) [
    | inl (_, e) ↦ subst (All P) (sym e) (p, h)
    | inr (_, e) ↦ subst (All P) (sym e) (h.0, insert_sorted-All P x ys p h.1)
  ]

  -- What holds of every element holds of every element of the sorted list.
  pub sort_by-All {κ} : (P : A → Type κ) (xs : List A) → All P xs → All P (sort_by xs)
  unfolding sort_by
  sort_by-All P [] h = tt
  sort_by-All P (x ∷ xs) h = insert_sorted-All P x (sort_by xs) h.0 (sort_by-All P xs h.1)

  insert_sorted-All_inv {κ} :
      (P : A → Type κ) (x : A) (ys : List A) → All P (insert_sorted x ys) → P x × All P ys
  insert_sorted-All_inv P x [] h = h
  insert_sorted-All_inv P x (y ∷ ys) h = elim (insert_sorted_cases x y ys) [
    | inl (_, e) ↦ subst (All P) e h
    | inr (_, e) ↦
        let h' : P y × All P (insert_sorted x ys) = subst (All P) e h in
        let r = insert_sorted-All_inv P x ys h'.1 in (r.0, (h'.0, r.1))
  ]

  -- And back.
  pub sort_by-All_inv {κ} : (P : A → Type κ) (xs : List A) → All P (sort_by xs) → All P xs
  unfolding sort_by
  sort_by-All_inv P [] h = tt
  sort_by-All_inv P (x ∷ xs) h =
      let r = insert_sorted-All_inv P x (sort_by xs) h in (r.0, sort_by-All_inv P xs r.1)

-- Each element stands in `R` to every later one.
abbrev pub Ordered {ℓ κ} : {A : Type ℓ} → (A → A → Type κ) → List A → Type κ
Ordered R [] = Unit
Ordered R (x ∷ xs) = All (R x) xs × Ordered R xs

-- A sort orders its result by any preorder that the comparison respects.
module _ {ℓ κ} {A : Type ℓ} (cmp : A → A → Ordering) (R : A → A → Type κ)
    (R-trans : (x y z : A) → R x y → R y z → R x z)
    (before : (x y : A) → cmp x y ≢ Ordering.gt → R x y)
    (behind : (x y : A) → cmp x y ≡ Ordering.gt → R y x) where
  insert_sorted-Ordered : (x : A) (ys : List A) → Ordered R ys → Ordered R (insert_sorted cmp x ys)
  insert_sorted-Ordered x [] h = (tt, tt)
  insert_sorted-Ordered x (y ∷ ys) h = elim (insert_sorted_cases cmp x y ys) [
    | inl (g, e) ↦
        subst (Ordered R) (sym e)
          ((before x y g, All-map ys (λ z t. R-trans x y z (before x y g) t) h.0), h)
    | inr (g, e) ↦
        subst (Ordered R) (sym e)
          (insert_sorted-All cmp (R y) x ys (behind x y g) h.0, insert_sorted-Ordered x ys h.1)
  ]

  pub sort_by-Ordered : (xs : List A) → Ordered R (sort_by cmp xs)
  unfolding sort_by
  sort_by-Ordered [] = tt
  sort_by-Ordered (x ∷ xs) = insert_sorted-Ordered x (sort_by cmp xs) (sort_by-Ordered xs)

pub Ordered-filter {ℓ κ} :
    {A : Type ℓ} (R : A → A → Type κ) (p : A → Bool) (xs : List A)
    → Ordered R xs
    → Ordered R (filter p xs)
Ordered-filter R p [] h = tt
Ordered-filter R p (x ∷ xs) h = ground (arith, Ordered-filter R p xs h.1, All-filter (R x) p xs h.0)
