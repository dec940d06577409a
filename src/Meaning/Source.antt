-- ===== src/Meaning/Source.antt =====
-- An interpreter of straight-line programs over 32-bit integers, on the parse tree.
use th_lang.Base.{
  some-injective, ℕ, String, ◌≡◌, refl, arith, List, [], ◌∷◌, ◌++◌, Option, none, some,
}
use th_lang.Base.Int.{ℤ}
use th_lang.Base.Dict.{Dict, lookup, insert}
use th_lang.Parser.Tree.{
  Op, shl, shr, Arith, mod_, mul, div, plus, minus, minus_sign, plus_sign, token_int, Expr, num,
  variable, parens, by_op, by_arith, signed, assigned, FuncArgs, no_params, one_param, more_params,
  VarDecl, declared, initialised, Stmts, one_stmt, more_stmts, semicolon, semicolon_stmt, Stmt,
  declaration, evaluation, return_value,
}
use th_lang.Parser.Actions.{CLibrary}
use th_lang.Meaning.Words.{
  word_of, negate, sum, difference, product, divide, shift_left, shift_right,
}

-- The variables in scope; a variable without a value has not been given one yet.
abbrev pub Store : Type 0
Store = Dict (Option ℕ)

-- `%` has no instruction.
unfoldable pub compute : Arith → ℕ → ℕ → Option ℕ
unfolding sum difference product divide
compute plus a b = some (sum a b)
compute minus a b = some (difference a b)
compute mul a b = some (product a b)
compute div a b = divide a b
compute mod_ a b = none

-- The shifts; a comparison is no 32-bit word.
unfoldable pub compute_op : Op → ℕ → ℕ → Option ℕ
unfolding shift_left shift_right
compute_op shl a b = shift_left a b
compute_op shr a b = shift_right a b
compute_op op a b = none

-- The value of a literal that is in range.
unfoldable pub literal : Option ℤ → Option ℕ
unfolding word_of negate
literal (some n) = some (word_of n)
literal none = none

abbrev pub with_both : (ℕ → ℕ → Option ℕ) → Option ℕ → Option ℕ → Option ℕ
with_both f (some a) (some b) = f a b
with_both f a b = none

abbrev pub with_value {ℓ} : {A : Type ℓ} → (ℕ → Option A) → Option ℕ → Option A
with_value f (some a) = f a
with_value f none = none

unfoldable pub value_of : Option (Option ℕ) → Option ℕ
value_of (some (some a)) = some a
value_of o = none

-- An assignment needs a variable that has been declared.
unfoldable pub assign_to : Store → String → Option (Option ℕ) → Option ℕ → Option Store
assign_to σ s (some old) (some a) = some (insert s (some a) σ)
assign_to σ s old a = none

abbrev pub with_store : (Store → Option ℕ) → Option Store → Option ℕ
with_store f none = none
with_store f (some σ) = f σ

abbrev pub and_then : (Store → Option Store) → Option Store → Option Store
and_then f none = none
and_then f (some σ) = f σ

abbrev pub and_name : String → Option (List String) → Option (List String)
and_name s none = none
and_name s (some names) = some (names ++ s ∷ [])

-- The names of the parameters of a function on integers.
unfoldable pub params : FuncArgs → Option (List String)
params no_params = some []
params (one_param (declared token_int s)) = some (s ∷ [])
params (more_params args (declared token_int s)) = and_name s (params args)
params args = none

-- The variables with which a call begins.
unfoldable pub bind_args : List String → List ℕ → Store → Option Store
bind_args [] [] σ = some σ
bind_args (s ∷ names) (a ∷ args) σ = bind_args names args (insert s (some a) (insert s none σ))
bind_args names args σ = none

-- What a result shows of the parts.
pub with_store-eq-some :
    (f : Store → Option ℕ) (o : Option Store) (a : ℕ)
    → with_store f o ≡ some a
    → (σ : Store) × (o ≡ some σ) × (f σ ≡ some a)
with_store-eq-some f (some σ) a h = (σ, refl, h)
with_store-eq-some f none a h = absurd (ground arith)

pub and_then-eq-some :
    (f : Store → Option Store) (o : Option Store) (τ : Store)
    → and_then f o ≡ some τ
    → (σ : Store) × (o ≡ some σ) × (f σ ≡ some τ)
and_then-eq-some f (some σ) τ h = (σ, refl, h)
and_then-eq-some f none τ h = absurd (ground arith)

pub literal-eq-some :
    (o : Option ℤ) (a : ℕ) → literal o ≡ some a → (n : ℤ) × (o ≡ some n) × (word_of n ≡ a)
unfolding literal
literal-eq-some (some n) a h = (n, refl, some-injective h)
literal-eq-some none a h = absurd (ground arith)

pub with_both-eq-some :
    (f : ℕ → ℕ → Option ℕ) (o o' : Option ℕ) (a : ℕ)
    → with_both f o o' ≡ some a
    → (x : ℕ) × (y : ℕ) × (o ≡ some x) × (o' ≡ some y) × (f x y ≡ some a)
with_both-eq-some f (some x) (some y) a h = (x, y, refl, refl, h)
with_both-eq-some f none o' a h = absurd (ground arith)
with_both-eq-some f (some x) none a h = absurd (ground arith)

pub with_value-eq-some {ℓ} :
    {A : Type ℓ} (f : ℕ → Option A) (o : Option ℕ) (a : A)
    → with_value f o ≡ some a
    → (x : ℕ) × (o ≡ some x) × (f x ≡ some a)
with_value-eq-some f (some x) a h = (x, refl, h)
with_value-eq-some f none a h = cc

pub value_of-eq-some : (o : Option (Option ℕ)) (a : ℕ) → value_of o ≡ some a → o ≡ some (some a)
unfolding value_of
value_of-eq-some (some (some b)) a h = cc
value_of-eq-some (some none) a h = cc
value_of-eq-some none a h = cc

module _ (lib : CLibrary) where
  -- An expression of literals, variables, `+`, `-`, `*`, `/`, shifts and signs.
  unfoldable pub eval : Store → Expr → Option ℕ
  unfolding compute compute_op value_of literal
  eval σ (num s) = literal (lib.atol s)
  eval σ (variable s) = value_of (lookup s σ)
  eval σ (parens e) = eval σ e
  eval σ (by_arith l op r) = with_both (compute op) (eval σ l) (eval σ r)
  eval σ (by_op l op r) = with_both (compute_op op) (eval σ l) (eval σ r)
  eval σ (signed minus_sign e) = with_value (λ a. some (negate a)) (eval σ e)
  eval σ (signed plus_sign e) = eval σ e
  eval σ e = none

  unfoldable pub perform : Store → Expr → Option Store
  unfolding eval assign_to
  perform σ (assigned s e) = assign_to σ s (lookup s σ) (eval σ e)
  perform σ e = with_value (λ a. some σ) (eval σ e)

  -- A declaration is in force in its own initial value.
  unfoldable pub declare : Store → VarDecl → Option Store
  unfolding eval
  declare σ (declared token_int s) = some (insert s none σ)
  declare σ (initialised token_int s e) =
      with_value (λ a. some (insert s (some a) (insert s none σ))) (eval (insert s none σ) e)
  declare σ v = none

  unfoldable pub exec : Store → Stmt → Option Store
  unfolding perform declare
  exec σ (declaration v) = declare σ v
  exec σ (evaluation e) = perform σ e
  exec σ s = none

  unfoldable pub run : Store → Stmts → Option Store
  unfolding exec
  run σ (one_stmt s) = exec σ s
  run σ (more_stmts ss s) = and_then (λ τ. exec τ s) (run σ ss)
  run σ (semicolon ss) = run σ ss
  run σ (semicolon_stmt ss s) = and_then (λ τ. exec τ s) (run σ ss)

  -- What the body of a function returns.
  unfoldable pub result : Store → Stmts → Option ℕ
  unfolding run eval
  result σ (one_stmt (return_value e)) = eval σ e
  result σ (more_stmts ss (return_value e)) = with_store (λ τ. eval τ e) (run σ ss)
  result σ (semicolon_stmt ss (return_value e)) = with_store (λ τ. eval τ e) (run σ ss)
  result σ (semicolon ss) = result σ ss
  result σ ss = none
