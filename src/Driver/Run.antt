-- ===== src/Driver/Run.antt =====
-- The ways a call of the driver can end, and the chaining of such calls.
use th_lang.Base.{
  String, ◌≡◌, ◌≢◌, refl, Option, none, some, arith, Bool, true, false, if◌then◌else◌,
}

-- It returns, it throws an exception, it ends the process, or its behaviour is undefined.
pub data Outcome (S A : Type 0) : Type 0 where
  returns : A → S → Outcome S A
  throws : String → S → Outcome S A
  exits : S → Outcome S A
  undefined : Outcome S A

abbrev pub Run : Type 0 → Type 0 → Type 0
Run S A = S → Outcome S A

module _ {S : Type 0} where
  abbrev pub return : {A : Type 0} → A → Run S A
  return a s = returns a s

  abbrev pub throw : {A : Type 0} → String → Run S A
  throw e s = throws e s

  infixl 5 ◌>>=◌ ◌>>◌
  abbrev pub ◌>>=◌ : {A B : Type 0} → Run S A → (A → Run S B) → Run S B
  ◌>>=◌ m f s = elim (m s) [
    | returns a s' ↦ f a s'
    | throws e s' ↦ throws e s'
    | exits s' ↦ exits s'
    | undefined ↦ undefined
  ]

  abbrev pub ◌>>◌ : {B : Type 0} → Run S (Unit {0}) → Run S B → Run S B
  m >> k = m >>= λ _. k

  -- `try { m } catch (const std::exception& e) { handler }`
  abbrev pub catch : {A : Type 0} → Run S A → (String → Run S A) → Run S A
  catch m handler s = elim (m s) [
    | returns a s' ↦ returns a s'
    | throws e s' ↦ handler e s'
    | exits s' ↦ exits s'
    | undefined ↦ undefined
  ]

  -- Inversion of a chain that returned.
  pub >>=-eq-returns :
      {A B : Type 0} (m : Run S A) (f : A → Run S B) (s : S) {b : B} {s' : S}
      → (m >>= f) s ≡ returns b s'
      → (a : A) × (t : S) × (m s ≡ returns a t) × (f a t ≡ returns b s')
  >>=-eq-returns {A} {B} m f s {b} {s'} h = go (m s) refl h
    where
      go :
          (o : Outcome S A)
          → m s ≡ o
          → (elim o [
            | returns a t ↦ f a t
            | throws e t ↦ throws e t
            | exits t ↦ exits t
            | undefined ↦ undefined
          ])
            ≡ returns b s'
          → (a : A) × (t : S) × (m s ≡ returns a t) × (f a t ≡ returns b s')
      go (returns a t) e k = (a, t, e, k)
      go (throws x t) e k = absurd (ground (arith, k))
      go (exits t) e k = absurd (ground (arith, k))
      go undefined e k = absurd (ground (arith, k))

  -- The same for a step that may give up with the answer `d`, where the answer is another.
  pub step-eq-returns :
      {A B : Type 0} (m : Run S (Option A)) (d : B) (f : A → Run S B) (s : S) {b : B} {s' : S}
      → b ≢ d
      → (m >>= λ o. elim o [ none ↦ return d | some a ↦ f a ]) s ≡ returns b s'
      → (a : A) × (t : S) × (m s ≡ returns (some a) t) × (f a t ≡ returns b s')
  step-eq-returns {A} {B} m d f s {b} {s'} differs h =
      let (o, t, first, rest) =
        >>=-eq-returns m (λ o. elim o [ none ↦ return d | some a ↦ f a ]) s h in
      go o t first rest
    where
      go :
          (o : Option A) (t : S)
          → m s ≡ returns o t
          → (elim o as (λ _. Run S B) [ none ↦ return d | some a ↦ f a ]) t ≡ returns b s'
          → (a : A) × (t : S) × (m s ≡ returns (some a) t) × (f a t ≡ returns b s')
      go none t first rest = absurd (differs (ground (arith, rest)))
      go (some a) t first rest = (a, t, first, rest)

  -- The same for a step that may give up in a way that cannot give the answer.
  pub some-eq-returns :
      {A B : Type 0} (m : Run S (Option A)) (g : Run S B) (f : A → Run S B) (s : S) {b : B} {s' : S}
      → ((t : S) → g t ≢ returns b s')
      → (m >>= λ o. elim o [ none ↦ g | some a ↦ f a ]) s ≡ returns b s'
      → (a : A) × (t : S) × (m s ≡ returns (some a) t) × (f a t ≡ returns b s')
  some-eq-returns {A} {B} m g f s {b} {s'} never h =
      let (o, t, first, rest) = >>=-eq-returns m (λ o. elim o [ none ↦ g | some a ↦ f a ]) s h in
      go o t first rest
    where
      go :
          (o : Option A) (t : S)
          → m s ≡ returns o t
          → (elim o as (λ _. Run S B) [ none ↦ g | some a ↦ f a ]) t ≡ returns b s'
          → (a : A) × (t : S) × (m s ≡ returns (some a) t) × (f a t ≡ returns b s')
      go none t first rest = absurd (never t rest)
      go (some a) t first rest = (a, t, first, rest)

  -- The same for a test.
  pub if-eq-returns :
      {B : Type 0} (m : Run S Bool) (f g : Run S B) (s : S) {b : B} {s' : S}
      → ((t : S) → g t ≢ returns b s')
      → (m >>= λ x. if x then f else g) s ≡ returns b s'
      → (t : S) × (m s ≡ returns true t) × (f t ≡ returns b s')
  if-eq-returns {B} m f g s {b} {s'} never h =
      let (x, t, first, rest) = >>=-eq-returns m (λ x. if x then f else g) s h in go x t first rest
    where
      go :
          (x : Bool) (t : S)
          → m s ≡ returns x t
          → (if x then f else g) t ≡ returns b s'
          → (t : S) × (m s ≡ returns true t) × (f t ≡ returns b s')
      go true t first rest = (t, first, rest)
      go false t first rest = absurd (never t rest)

  -- A call under a catch block whose handler cannot give the answer.
  pub catch-eq-returns :
      {A : Type 0} (m : Run S A) (handler : String → Run S A) (s : S) {a : A} {s' : S}
      → ((e : String) (t : S) → handler e t ≢ returns a s')
      → catch m handler s ≡ returns a s'
      → m s ≡ returns a s'
  catch-eq-returns {A} m handler s {a} {s'} never h = go (m s) h
    where
      go :
          (o : Outcome S A)
          → (elim o [
            | returns b t ↦ returns b t
            | throws e t ↦ handler e t
            | exits t ↦ exits t
            | undefined ↦ undefined
          ])
            ≡ returns a s'
          → o ≡ returns a s'
      go (returns b t) k = k
      go (throws e t) k = absurd (never e t k)
      go (exits t) k = absurd (ground (arith, k))
      go undefined k = absurd (ground (arith, k))
