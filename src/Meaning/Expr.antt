-- ===== src/Meaning/Expr.antt =====
-- The code of an expression.
use th_lang.Base.{
  ℕ, String, ◌≡◌, refl, subst, some-injective, ◌∙◌, pure, Option, some, List, arith, ◌>>=◌,
}
use th_lang.Base.Dict.{lookup}
use th_lang.Llvm.{Llvm}
use th_lang.TypeSystem.{Ptr, ThType}
use th_lang.Codegen.Context.{Context}
use th_lang.Codegen.Expr.{int_code, unop_code}
use th_lang.Parser.Tree.{
  minus_sign, plus_sign, Expr, num, variable, parens, by_op, by_arith, signed,
}
use th_lang.Ast.{Node, int, name, unop, binop}
use th_lang.Codegen.Gen.{codegen}
use th_lang.Parser.Actions.{op_text, arith_text, sign_text, CLibrary, ParseState, build_expr}
use th_lang.Meaning.Words.{negate}
use th_lang.Meaning.Source.{
  literal-eq-some, Store, compute, compute_op, eval, with_both-eq-some, with_value-eq-some,
  value_of-eq-some,
}
use th_lang.Meaning.Semantics.{Semantics}
use th_lang.Meaning.Represents.{IsIntType, Represents, evolved-Represents}
use th_lang.Meaning.Value.{
  IsComputed, compute-instruction, compute_op-instruction, Computes, int_code-Computes,
  name_code-Computes, binop_code-Computes, unop_code-Computes_minus, unop_code-Computes_plus,
}

module _ {L : Llvm} (S : Semantics L) (objects : List ThType) (int_ptr : Ptr)
    (typed : IsIntType S objects int_ptr) (lib : CLibrary) where
  -- The parse of the expression makes a node, whose code computes the word.
  abbrev pub Compiles : Store → Expr → ℕ → Type 0
  Compiles σ e a =
      (n : Node) × ((st : ParseState) → build_expr lib e st ≡ some (n, st))
      × ((c : Context L) → Represents S objects int_ptr c σ → Computes S (codegen L n) c a)

  -- Two operands and an operator.
  both_Compiles :
      (σ : Store) (op : String) (f : ℕ → ℕ → Option ℕ) (l r : Expr) (x y a : ℕ) (e : Expr)
      → IsComputed op f
      → f x y ≡ some a
      → Compiles σ l x
      → Compiles σ r y
      → ((st : ParseState)
          → build_expr lib e st
            ≡ (build_expr lib l >>= λ m. build_expr lib r >>= λ n. pure (binop op m n)) st)
      → Compiles σ e a
  unfolding codegen
  both_Compiles σ op f l r x y a e computed k (m, built, code) (n, built', code') builds = (
    binop op m n,
    λ st. builds st ∙ rw (built st, ◌>>=◌) (rw (built' st, ◌>>=◌) refl),
    λ c rep.
        binop_code-Computes S op f (codegen L m) (codegen L n) c x y a computed (code c rep)
          (λ w k'.
            code' (record c { world = w }) (evolved-Represents S objects int_ptr c σ w rep k'))
          k,
  )

  -- What the interpreter computes of an expression is what its code computes.
  pub build_expr-Compiles : (σ : Store) (e : Expr) (a : ℕ) → eval lib σ e ≡ some a → Compiles σ e a
  unfolding build_expr codegen eval arith_text sign_text
  build_expr-Compiles σ (num s) a h =
      let (n, in_range, same) = literal-eq-some (lib.atol s) a h in
      (
        int n,
        λ st. rw (in_range, ◌>>=◌) refl,
        λ c r. subst (Computes S (int_code L n) c) same (int_code-Computes S n c),
      )
  build_expr-Compiles σ (variable s) a h = (
    name s,
    λ st. refl,
    λ c r.
        name_code-Computes S objects int_ptr s c a typed r.same_objects
          (r.slots s (some a) (value_of-eq-some (lookup s σ) a h)),
  )
  build_expr-Compiles σ (parens e) a h = build_expr-Compiles σ e a h
  build_expr-Compiles σ (by_arith l op r) a h =
      let (x, y, left, right, k) =
        with_both-eq-some (compute op) (eval lib σ l) (eval lib σ r) a h in
      both_Compiles σ (arith_text op) (compute op) l r x y a (by_arith l op r)
        (compute-instruction op) k (build_expr-Compiles σ l x left)
        (build_expr-Compiles σ r y right) (λ st. refl)
  build_expr-Compiles σ (by_op l op r) a h =
      let (x, y, left, right, k) =
        with_both-eq-some (compute_op op) (eval lib σ l) (eval lib σ r) a h in
      both_Compiles σ (op_text op) (compute_op op) l r x y a (by_op l op r)
        (compute_op-instruction op) k (build_expr-Compiles σ l x left)
        (build_expr-Compiles σ r y right) (λ st. refl)
  build_expr-Compiles σ (signed minus_sign e) a h =
      let (x, inner, k) = with_value-eq-some (λ x. some (negate x)) (eval lib σ e) a h in
      let (n, built, code) = build_expr-Compiles σ e x inner in
      (
        unop "-" n,
        λ st. rw (built st, ◌>>=◌) refl,
        λ c rep.
            subst (Computes S (unop_code L "-" (codegen L n)) c) (some-injective k)
              (unop_code-Computes_minus S (codegen L n) c x (code c rep)),
      )
  build_expr-Compiles σ (signed plus_sign e) a h =
      let (n, built, code) = build_expr-Compiles σ e a h in
      (
        unop "+" n,
        λ st. rw (built st, ◌>>=◌) refl,
        λ c rep. unop_code-Computes_plus S (codegen L n) c a (code c rep),
      )
  build_expr-Compiles σ _ a h = absurd (ground arith)
