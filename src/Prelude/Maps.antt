-- ===== src/Prelude/Maps.antt =====
-- `BTreeMap` and `BTreeSet` as association lists in ascending order of their keys. A set is a
-- map into the unit type, as in Rust's standard library.
use Prim.Native.Nat.{Ordering}
use mathlib.Core.Path.{◌≡◌, refl, sym, subst, ap₂}
use mathlib.Core.Bool.{false}
use mathlib.Core.Logic.{◌⊎◌, inl, inr}
use mathlib.Core.Option.{Option, none, some}
use mathlib.Core.List.{List, [], ◌∷◌, map}
use native.Mathlib.Omega.{arith}
use lemnos.Prelude.Tests.{if◌then◌else◌, Bool-cases}
use lemnos.Prelude.Lists.{All, All-map}
use lemnos.Prelude.Keys.{Ord, same, same_refl, same-eq, Ordering-cases}

abbrev pub Map {ℓ κ} : Type ℓ → Type κ → Type (ℓ ⊔ κ)
Map K V = List (K × V)

module _ {ℓ κ} {K : Type ℓ} {V : Type κ} ⦃o : Ord K⦄ where
  abbrev pub lookup : K → Map K V → Option V
  lookup k [] = none
  lookup k ((j, v) ∷ m) = if same k j then some v else lookup k m

  abbrev pub insert : K → V → Map K V → Map K V
  insert k v [] = (k, v) ∷ []
  insert k v ((j, w) ∷ m) = elim (o.cmp k j) [
    | Ordering.lt ↦ (k, v) ∷ (j, w) ∷ m
    | Ordering.eq ↦ (k, v) ∷ m
    | Ordering.gt ↦ (j, w) ∷ insert k v m
  ]

  abbrev pub remove : K → Map K V → Map K V
  remove k [] = []
  remove k ((j, w) ∷ m) = if same k j then remove k m else (j, w) ∷ remove k m

  abbrev pub keys : Map K V → List K
  keys = map (λ e. e.0)

  -- Every key of the map is greater than `k`.
  abbrev pub Above : K → Map K V → Type 0
  Above k = All (λ e. o.cmp k e.0 ≡ Ordering.lt)

  abbrev pub IsSorted : Map K V → Type 0
  IsSorted [] = Unit
  IsSorted ((k, v) ∷ m) = Above k m × IsSorted m

  pub lookup-insert_self : (k : K) (v : V) (m : Map K V) → lookup k (insert k v m) ≡ some v
  lookup-insert_self k v [] = ground (arith, same_refl k)
  lookup-insert_self k v ((j, w) ∷ m) = ground (arith, same_refl k, lookup-insert_self k v m)

  pub lookup-insert_ne :
      (k j : K) (v : V) (m : Map K V) → same j k ≡ false → lookup j (insert k v m) ≡ lookup j m
  lookup-insert_ne k j v [] h = ground arith
  lookup-insert_ne k j v ((i, w) ∷ m) h = ground (arith, lookup-insert_ne k j v m h, o.cmp-eq k i)

  pub lookup-insert :
      (k j : K) (v : V) (m : Map K V)
      → lookup j (insert k v m) ≡ (if same j k then some v else lookup j m)
  lookup-insert k j v m = elim (Bool-cases (same j k)) [
    | inl e ↦ rw (e, same-eq j k e) (lookup-insert_self k v m)
    | inr e ↦ rw e (lookup-insert_ne k j v m e)
  ]

  pub lookup-remove :
      (k j : K) (m : Map K V) → lookup j (remove k m) ≡ (if same j k then none else lookup j m)
  lookup-remove k j [] = ground arith
  lookup-remove k j ((i, w) ∷ m) = ground (
    arith,
    lookup-remove k j m,
    o.cmp-eq k i,
    o.cmp-eq j i,
    o.cmp-eq j k,
    o.cmp-refl k,
    o.cmp-refl i,
  )

  insert_cases :
      (k j : K) (v w : V) (m : Map K V)
      → (insert k v ((j, w) ∷ m) ≡ (k, v) ∷ (j, w) ∷ m)
        ⊎ ((insert k v ((j, w) ∷ m) ≡ (k, v) ∷ m)
            ⊎ (insert k v ((j, w) ∷ m) ≡ (j, w) ∷ insert k v m))
  insert_cases k j v w m = elim (Ordering-cases (o.cmp k j)) [
    | inl e ↦ inl (rw (insert, e))
    | inr (inl e) ↦ inr (inl (rw (insert, e)))
    | inr (inr e) ↦ inr (inr (rw (insert, e)))
  ]

  pub insert-All {κ'} :
      (P : K × V → Type κ') (k : K) (v : V) (m : Map K V)
      → P (k, v)
      → All P m
      → All P (insert k v m)
  insert-All P k v [] p h = (p, tt)
  insert-All P k v ((j, w) ∷ m) p h = elim (insert_cases k j v w m) [
    | inl e ↦ subst (All P) (sym e) (p, h)
    | inr (inl e) ↦ subst (All P) (sym e) (p, h.1)
    | inr (inr e) ↦ subst (All P) (sym e) (h.0, insert-All P k v m p h.1)
  ]

  Above-lt : (k j : K) (m : Map K V) → o.cmp k j ≡ Ordering.lt → Above j m → Above k m
  Above-lt k j m h a = All-map m (λ e l. o.cmp-trans k j e.0 h l) a

  pub insert-IsSorted : (k : K) (v : V) (m : Map K V) → IsSorted m → IsSorted (insert k v m)
  insert-IsSorted k v [] h = (tt, tt)
  insert-IsSorted k v ((j, w) ∷ m) h = elim (Ordering-cases (o.cmp k j)) [
    | inl e ↦
        let made : insert k v ((j, w) ∷ m) ≡ (k, v) ∷ (j, w) ∷ m = rw (insert, e) in
        subst IsSorted (sym made) ((e, Above-lt k j m e h.0), h)
    | inr (inl e) ↦
        let made : insert k v ((j, w) ∷ m) ≡ (k, v) ∷ m = rw (insert, e) in
        subst IsSorted (sym made) (subst (λ i. Above i m) (sym (o.cmp-eq k j e)) h.0, h.1)
    | inr (inr e) ↦
        let made : insert k v ((j, w) ∷ m) ≡ (j, w) ∷ insert k v m = rw (insert, e) in
        subst IsSorted (sym made) (
          insert-All (λ i. o.cmp j i.0 ≡ Ordering.lt) k v m (o.cmp_flip k j e) h.0,
          insert-IsSorted k v m h.1,
        )
  ]

  pub remove-All {κ'} : (P : K × V → Type κ') (k : K) (m : Map K V) → All P m → All P (remove k m)
  remove-All P k [] h = tt
  remove-All P k ((j, w) ∷ m) h = elim (Bool-cases (same k j)) [
    | inl e ↦
        let made : remove k ((j, w) ∷ m) ≡ remove k m = rw (remove, e) in
        subst (All P) (sym made) (remove-All P k m h.1)
    | inr e ↦
        let made : remove k ((j, w) ∷ m) ≡ (j, w) ∷ remove k m = rw (remove, e) in
        subst (All P) (sym made) (h.0, remove-All P k m h.1)
  ]

  pub remove-IsSorted : (k : K) (m : Map K V) → IsSorted m → IsSorted (remove k m)
  remove-IsSorted k [] h = tt
  remove-IsSorted k ((j, w) ∷ m) h = elim (Bool-cases (same k j)) [
    | inl e ↦
        let made : remove k ((j, w) ∷ m) ≡ remove k m = rw (remove, e) in
        subst IsSorted (sym made) (remove-IsSorted k m h.1)
    | inr e ↦
        let made : remove k ((j, w) ∷ m) ≡ (j, w) ∷ remove k m = rw (remove, e) in
        subst IsSorted (sym made)
          (remove-All (λ i. o.cmp j i.0 ≡ Ordering.lt) k m h.0, remove-IsSorted k m h.1)
  ]

  -- A key below all others is not in the map.
  pub lookup-Above : (k : K) (m : Map K V) → Above k m → lookup k m ≡ none
  lookup-Above k [] h = refl
  lookup-Above k ((j, w) ∷ m) h = ground (arith, lookup-Above k m h.1)

  pub lookup-All {κ'} :
      (P : K × V → Type κ') (k : K) (m : Map K V) {v : V} → All P m → lookup k m ≡ some v → P (k, v)
  lookup-All P k [] h e = cc
  lookup-All P k ((j, w) ∷ m) {v} h e = elim (Bool-cases (same k j)) [
    | inl s ↦
        let e' : some w ≡ some v = rw (lookup, s) at e in
        let e'' : w ≡ v = cc in
        let p : ◌≡◌ {A = K × V} (j, w) (k, v) = ap₂ (λ a b. (a, b)) (sym (same-eq k j s)) e'' in
        subst P p h.0
    | inr s ↦ lookup-All P k m h.1 (rw (lookup, s) at e)
  ]
