-- ===== src/Prelude/Keys.antt =====
-- Ordered keys (Rust's `Ord`), and text as its sequence of code points.
use Prim.Native.Char.{code}
use Prim.Native.Nat.{ℕ, zero, suc, ◌+◌, ◌/◌, ◌%◌, compare, Ordering}
use Prim.Native.String.{String}
use mathlib.Core.Path.{◌≡◌, refl, sym, subst, ◌∙◌}
use mathlib.Core.Bool.{Bool, true, false}
use mathlib.Core.List.{List, [], ◌∷◌}
use mathlib.Core.Logic.{◌↔◌, ◌⊎◌, inl, inr}
use native.Mathlib.Omega.{arith}
use lemnos.Prelude.Tests.{ltb, if◌then◌else◌, Bool-cases, true≢false}

-- `lt` is a strict order, and two keys that compare as `eq` are one.
pub record Ord {ℓ} (A : Type ℓ) : Type ℓ where
  pub cmp : A → A → Ordering
  pub cmp-eq : (a b : A) → cmp a b ≡ Ordering.eq → a ≡ b
  pub cmp-refl : (a : A) → cmp a a ≡ Ordering.eq
  pub cmp-trans :
      (a b c : A) → cmp a b ≡ Ordering.lt → cmp b c ≡ Ordering.lt → cmp a c ≡ Ordering.lt
  pub cmp_flip : (a b : A) → cmp a b ≡ Ordering.gt → cmp b a ≡ Ordering.lt

abbrev pub same {ℓ} : {A : Type ℓ} ⦃o : Ord A⦄ → A → A → Bool
same ⦃o⦄ a b = elim (o.cmp a b) [ Ordering.eq ↦ true | _ ↦ false ]

pub Ordering-cases : (r : Ordering) → (r ≡ Ordering.lt) ⊎ ((r ≡ Ordering.eq) ⊎ (r ≡ Ordering.gt))
Ordering-cases Ordering.lt = inl refl
Ordering-cases Ordering.eq = inr (inl refl)
Ordering-cases Ordering.gt = inr (inr refl)

module _ {ℓ} {A : Type ℓ} ⦃o : Ord A⦄ where
  pub same_refl : (a : A) → same a a ≡ true
  same_refl a = rw (same, o.cmp-refl a)

  pub same-eq : (a b : A) → same a b ≡ true → a ≡ b
  same-eq a b h = ground (arith, o.cmp-eq a b)

  pub same_iff : (a b : A) → (same a b ≡ true) ↔ (a ≡ b)
  same_iff a b = (same-eq a b, λ e. rw e (same_refl b))

-- A text is the list of its Unicode scalar values; `str::cmp` agrees with their order.
abbrev pub Text : Type 0
Text = List ℕ

abbrev pub codes : String → Text
codes String.[] = []
codes (String.◌∷◌ c s) = code c ∷ codes s

abbrev pub compare_text : Text → Text → Ordering
compare_text [] [] = Ordering.eq
compare_text [] (b ∷ t) = Ordering.lt
compare_text (a ∷ s) [] = Ordering.gt
compare_text (a ∷ s) (b ∷ t) = elim (compare a b) [
  | Ordering.lt ↦ Ordering.lt
  | Ordering.eq ↦ compare_text s t
  | Ordering.gt ↦ Ordering.gt
]

pub compare_text-eq : (s t : Text) → compare_text s t ≡ Ordering.eq → s ≡ t
compare_text-eq [] [] h = refl
compare_text-eq [] (b ∷ t) h = cc
compare_text-eq (a ∷ s) [] h = cc
compare_text-eq (a ∷ s) (b ∷ t) h = ground (arith, compare_text-eq s t)

pub compare_text_refl : (s : Text) → compare_text s s ≡ Ordering.eq
compare_text_refl [] = refl
compare_text_refl (a ∷ s) = ground (arith, compare_text_refl s)

pub compare_text_trans :
    (s t u : Text)
    → compare_text s t ≡ Ordering.lt
    → compare_text t u ≡ Ordering.lt
    → compare_text s u ≡ Ordering.lt
compare_text_trans [] [] u h k = cc
compare_text_trans [] (b ∷ t) [] h k = cc
compare_text_trans [] (b ∷ t) (c ∷ u) h k = refl
compare_text_trans (a ∷ s) [] u h k = cc
compare_text_trans (a ∷ s) (b ∷ t) [] h k = cc
compare_text_trans (a ∷ s) (b ∷ t) (c ∷ u) h k = ground (arith, compare_text_trans s t u)

pub compare_text_flip :
    (s t : Text) → compare_text s t ≡ Ordering.gt → compare_text t s ≡ Ordering.lt
compare_text_flip [] [] h = cc
compare_text_flip [] (b ∷ t) h = cc
compare_text_flip (a ∷ s) [] h = refl
compare_text_flip (a ∷ s) (b ∷ t) h = ground (arith, compare_text_flip s t)

instance abbrev pub text_ord : Ord Text
text_ord = record {
  cmp = compare_text;
  cmp-eq = compare_text-eq;
  cmp-refl = compare_text_refl;
  cmp-trans = compare_text_trans;
  cmp_flip = compare_text_flip;
}

module _ {A : Type 0} (rank : A → ℕ) (rank-injective : (a b : A) → rank a ≡ rank b → a ≡ b) where
  pub by_rank-eq : (a b : A) → compare (rank a) (rank b) ≡ Ordering.eq → a ≡ b
  by_rank-eq a b h = rank-injective a b (ground arith)

  pub by_rank_refl : (a : A) → compare (rank a) (rank a) ≡ Ordering.eq
  by_rank_refl a = ground arith

  pub by_rank_trans :
      (a b c : A)
      → compare (rank a) (rank b) ≡ Ordering.lt
      → compare (rank b) (rank c) ≡ Ordering.lt
      → compare (rank a) (rank c) ≡ Ordering.lt
  by_rank_trans a b c h k = ground arith

  pub by_rank_flip :
      (a b : A) → compare (rank a) (rank b) ≡ Ordering.gt → compare (rank b) (rank a) ≡ Ordering.lt
  by_rank_flip a b h = ground arith

  -- The derived `Ord` of an enum without fields: its variants in the order of declaration.
  abbrev pub ord_by_rank : Ord A
  ord_by_rank = record {
    cmp = λ a b. compare (rank a) (rank b);
    cmp-eq = by_rank-eq;
    cmp-refl = by_rank_refl;
    cmp-trans = by_rank_trans;
    cmp_flip = by_rank_flip;
  }

-- The decimal digits of a number, most significant first, in front of `rest`.
digits_from : ℕ → ℕ → Text → Text
digits_from zero n rest = rest
digits_from (suc fuel) n rest =
    let more = digits_from fuel (n / 10) ((b'0' + n % 10) ∷ rest) in
    if ltb n 10 then (b'0' + n) ∷ rest else more

-- `Display` of an unsigned integer: n + 1 rounds are more than it has digits.
unfoldable pub decimal : ℕ → Text
unfolding digits_from
decimal n = digits_from (suc n) n []

module _ {ℓ} {A : Type ℓ} ⦃o : Ord A⦄ where
  same_flip : (a b : A) → same a b ≡ true → same b a ≡ true
  same_flip a b h = subst (λ k. same k a ≡ true) (same-eq a b h) (same_refl a)

  pub same_sym : (a b : A) → same a b ≡ same b a
  same_sym a b = elim (Bool-cases (same a b)) [
    | inl e ↦ e ∙ sym (same_flip a b e)
    | inr e ↦ elim (Bool-cases (same b a)) [
      | inl e' ↦ absurd (true≢false (sym (same_flip b a e') ∙ e))
      | inr e' ↦ e ∙ sym e'
    ]
  ]
