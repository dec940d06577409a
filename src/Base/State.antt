-- ===== src/Base/State.antt =====
-- Stateful code that may run into undefined behaviour: `none` is a crash, such as the read of a
-- null pointer or of an empty vector's `back()`.
use mathlib.Core.Path.{◌≡◌, refl}
use mathlib.Core.Option.{Option, none, some}
use native.Mathlib.Omega.{arith}

abbrev pub Stateful : Type 0 → Type 0 → Type 0
Stateful S A = S → Option (A × S)

module _ {S : Type 0} where
  abbrev pub pure : {A : Type 0} → A → Stateful S A
  pure a s = some (a, s)

  abbrev pub crash : {A : Type 0} → Stateful S A
  crash s = none

  infixl 5 ◌>>=◌ ◌>>◌
  abbrev pub ◌>>=◌ : {A B : Type 0} → Stateful S A → (A → Stateful S B) → Stateful S B
  ◌>>=◌ m f s = elim (m s) [ none ↦ none | some (a, s') ↦ f a s' ]

  abbrev pub ◌>>◌ : {B : Type 0} → Stateful S (Unit {0}) → Stateful S B → Stateful S B
  m >> k = m >>= λ _. k

  abbrev pub read : {A : Type 0} → (S → A) → Stateful S A
  read f s = some (f s, s)

  abbrev pub modify : (S → S) → Stateful S (Unit {0})
  modify f s = some (tt, f s)

  -- The value of a pointer or of an index that must be there.
  abbrev pub demand : {A : Type 0} → Option A → Stateful S A
  demand none s = none
  demand (some a) s = some (a, s)

  -- Inversion of a bind that returned.
  pub >>=-eq-some :
      {A B : Type 0} (m : Stateful S A) (f : A → Stateful S B) (s : S) {r : B × S}
      → (m >>= f) s ≡ some r
      → (a : A) × (t : S) × (m s ≡ some (a, t)) × (f a t ≡ some r)
  >>=-eq-some {A} {B} m f s {r} h = go (m s) refl h
    where
      go :
          (o : Option (A × S))
          → m s ≡ o
          → (elim o [ none ↦ none | some (a, s') ↦ f a s' ]) ≡ some r
          → (a : A) × (t : S) × (m s ≡ some (a, t)) × (f a t ≡ some r)
      go none e k = absurd (ground arith)
      go (some (a, t)) e k = (a, t, e, k)

  pub demand-eq-some :
      {A : Type 0} (o : Option A) (s t : S) (a : A)
      → demand o s ≡ some (a, t)
      → (o ≡ some a) × (s ≡ t)
  demand-eq-some none s t a h = absurd (ground arith)
  demand-eq-some (some b) s t a h = (ground (arith, h), ground (arith, h))
