-- ===== src/Prelude/Calls.antt =====
-- A method with `&mut self` that returns a `Result`: what it changes stays changed when it fails.
use mathlib.Core.Path.{◌≡◌, refl, subst}
use mathlib.Core.Bool.{Bool, true, false}
use lemnos.Prelude.Results.{Result, ok, err, ensure, ok-injective, err-ne-ok}

abbrev pub Call : Type 0 → Type 0 → Type 0 → Type 0
Call S E A = S → S × Result E A

module _ {S E : Type 0} where
  -- Goes on where the call returned a value.
  abbrev pub proceed : {A B : Type 0} → S × Result E A → (A → Call S E B) → S × Result E B
  proceed (s, ok a) next = next a s
  proceed (s, err e) next = (s, err e)

  -- The `?` operator.
  infixl 5 ◌>>=◌
  abbrev pub ◌>>=◌ : {A B : Type 0} → Call S E A → (A → Call S E B) → Call S E B
  first >>= next = λ s. proceed (first s) next

  infixl 5 ◌>>◌
  abbrev pub ◌>>◌ : {B : Type 0} → Call S E (Unit {0}) → Call S E B → Call S E B
  first >> next = first >>= λ _. next

  abbrev pub done : {A : Type 0} → A → Call S E A
  done a = λ s. (s, ok a)

  abbrev pub fails : {A : Type 0} → E → Call S E A
  fails e = λ s. (s, err e)

  -- A result that does not depend on the state, and an early return where a test fails.
  abbrev pub result : {A : Type 0} → Result E A → Call S E A
  result r = λ s. (s, r)

  -- A statement that changes the state, and one that reads it.
  abbrev pub modify : (S → S) → Call S E (Unit {0})
  modify f = λ s. (f s, ok tt)

  abbrev pub gets : {A : Type 0} → (S → A) → Call S E A
  gets f = λ s. (s, ok (f s))

-- What holds of the state behind a call: `inv` where it failed, and `post` of the value it returned.
abbrev pub Holds : {S E A : Type 0} → (S → Type 0) → (A → S → Type 0) → S × Result E A → Type 0
Holds inv post (s, ok a) = post a s
Holds inv post (s, err e) = inv s

-- The call keeps the property, whether it fails or not.
abbrev pub Keeps : {S E A : Type 0} → (S → Type 0) → Call S E A → Type 0
Keeps {S = S} inv call = (s : S) → inv s → Holds inv (λ _. inv) (call s)

module _ {S E : Type 0} (inv : S → Type 0) where
  pub Holds-proceed :
      {A B : Type 0} (mid : A → S → Type 0) (post : B → S → Type 0) (out : S × Result E A)
      (next : A → Call S E B)
      → Holds inv mid out
      → ((a : A) (s : S) → mid a s → Holds inv post (next a s))
      → Holds inv post (proceed out next)
  Holds-proceed mid post (s, ok a) next h k = k a s h
  Holds-proceed mid post (s, err e) next h k = h

  pub Keeps-proceed :
      {A B : Type 0} (first : Call S E A) (next : A → Call S E B)
      → Keeps inv first
      → ((a : A) → Keeps inv (next a))
      → Keeps inv (λ s. proceed (first s) next)
  Keeps-proceed first next h k s i = Holds-proceed (λ _. inv) (λ _. inv) (first s) next (h s i) k

  -- A guard in front of a call gives it what was tested.
  pub Holds-ensure :
      {B : Type 0} (post : B → S → Type 0) (test : Bool) (e : E) (next : Call S E B) (s : S)
      → inv s
      → (test ≡ true → Holds inv post (next s))
      → Holds inv post (proceed (s, ensure test e) (λ _. next))
  Holds-ensure post true e next s i k = k refl
  Holds-ensure post false e next s i k = i

  pub Holds_state : {A : Type 0} (out : S × Result E A) → Holds inv (λ _. inv) out → inv out.0
  Holds_state (s, ok a) h = h
  Holds_state (s, err e) h = h

  pub state_Holds : {A : Type 0} (out : S × Result E A) → inv out.0 → Holds inv (λ _. inv) out
  state_Holds (s, ok a) h = h
  state_Holds (s, err e) h = h

  pub Holds_ok :
      {A : Type 0} (post : A → S → Type 0) (out : S × Result E A) {a : A}
      → out.1 ≡ ok a
      → Holds inv post out
      → post a out.0
  Holds_ok post (s, ok b) e h = subst (λ c. post c s) (ok-injective e) h
  Holds_ok post (s, err x) e h = absurd (err-ne-ok e)
