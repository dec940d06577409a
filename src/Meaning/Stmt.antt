-- ===== src/Meaning/Stmt.antt =====
-- The code of assignments, declarations and statements.
use th_lang.Base.{
  ℕ, String, ◌≡◌, refl, subst, some-injective, Option, none, some, List, arith, ◌>>=◌,
}
use th_lang.Base.Dict.{lookup, insert, lookup-insert_self}
use th_lang.Llvm.{Llvm, store, alloca}
use th_lang.TypeSystem.{Ptr, ThType, get_type}
use th_lang.Ast.{Node, name, assign, expr_stmt, var_stmt, null, just}
use th_lang.Codegen.Context.{Context, Code}
use th_lang.Codegen.Context.Laws.{find_value-bind_local_self}
use th_lang.Codegen.Expr.{assign_code}
use th_lang.Codegen.Stmt.{MaybeCode, plain_var_code, var_code}
use th_lang.Codegen.Gen.{codegen}
use th_lang.Parser.Tree.{
  token_int, Expr, assigned, VarDecl, declared, initialised, Stmt, declaration, evaluation,
}
use th_lang.Parser.Actions.{
  CLibrary, ParseState, build_types, build_expr, build_var_decl, build_stmt,
}
use th_lang.Meaning.Source.{
  Store, eval, assign_to, perform, declare, exec, with_value, with_value-eq-some,
}
use th_lang.Meaning.Semantics.{Semantics}
use th_lang.Meaning.Represents.{
  IsIntType, Represents, evolved-Represents, object_at-int, lower_type-int,
}
use th_lang.Meaning.Memory.{stored-Represents, allocated-Represents, with_cell}
use th_lang.Meaning.Expr.{build_expr-Compiles}
use th_lang.Meaning.Value.{Computes}

assign_to-eq-some :
    (σ : Store) (s : String) (o : Option (Option ℕ)) (v : Option ℕ) (τ : Store)
    → assign_to σ s o v ≡ some τ
    → (old : Option ℕ) × (a : ℕ) × (o ≡ some old) × (v ≡ some a) × (insert s (some a) σ ≡ τ)
unfolding assign_to
assign_to-eq-some σ s (some old) (some a) τ h = (old, a, refl, refl, some-injective h)
assign_to-eq-some σ s none v τ h = absurd (ground arith)
assign_to-eq-some σ s (some old) none τ h = absurd (ground arith)

module _ {L : Llvm} (S : Semantics L) (objects : List ThType) (int_ptr : Ptr)
    (typed : IsIntType S objects int_ptr) where
  -- The code returns a value, reports no error, and leads from one store to the other.
  abbrev pub Executes : Code L → Context L → Store → Type 0
  Executes m c τ =
      (v : L.Value) × (c' : Context L) × (m c ≡ some (some v, c'))
      × Represents S objects int_ptr c' τ
      × (c'.errors ≡ c.errors)

  pub assign_code-Executes :
      (m : Code L) (c : Context L) (σ : Store) (s : String) (old : Option ℕ) (a : ℕ)
      → Represents S objects int_ptr c σ
      → lookup s σ ≡ some old
      → Computes S m c a
      → Executes (assign_code L (name s) m) c (insert s (some a) σ)
  unfolding assign_code
  assign_code-Executes m c σ s old a r h (x, w, e, (_, word), k) =
      let (dst, found, cell, holds) = r.slots s old h in
      (
        dst,
        record c { world = (L.create (store x dst) w).1 },
        rw (found, ◌>>=◌) (rw (e, ◌>>=◌) refl),
        stored-Represents S objects int_ptr (record c { world = w }) σ s old dst x a
            (evolved-Represents S objects int_ptr c σ w r k) h found (k.cells dst cell) word,
        refl,
      )

  -- A new cell, and its initial value.
  pub plain_var_code-Executes_declared :
      (c : Context L) (σ : Store) (s : String)
      → Represents S objects int_ptr c σ
      → Executes (plain_var_code L int_ptr s none) c (insert s none σ)
  unfolding plain_var_code
  plain_var_code-Executes_declared c σ s r =
      let (b, bs, blocks) = r.inside in
      (
        (L.create (alloca (L.int_ty 32) "") c.world).0,
        with_cell S objects int_ptr c "" s b bs,
        rw (lower_type-int S objects int_ptr typed c r.same_objects, ◌>>=◌) (rw blocks refl),
        allocated-Represents S objects int_ptr c σ "" s b bs r blocks,
        refl,
      )

  pub plain_var_code-Executes_initialised :
      (m : Code L) (c : Context L) (σ : Store) (s : String) (a : ℕ)
      → Represents S objects int_ptr c σ
      → ((c' : Context L) → Represents S objects int_ptr c' (insert s none σ) → Computes S m c' a)
      → Executes (plain_var_code L int_ptr s (some m)) c (insert s (some a) (insert s none σ))
  unfolding plain_var_code
  plain_var_code-Executes_initialised m c σ s a r init =
      let (b, bs, blocks) = r.inside in
      let c' = with_cell S objects int_ptr c "" s b bs in
      let r' = allocated-Represents S objects int_ptr c σ "" s b bs r blocks in
      let (x, w, e, (_, word), k) = init c' r' in
      let dst = (L.create (alloca (L.int_ty 32) "") c.world).0 in
      (
        dst,
        record c' { world = (L.create (store x dst) w).1 },
        rw (lower_type-int S objects int_ptr typed c r.same_objects, ◌>>=◌)
            (rw blocks (rw (e, ◌>>=◌) refl)),
        stored-Represents S objects int_ptr (record c' { world = w }) (insert s none σ) s none dst x
            a (evolved-Represents S objects int_ptr c' (insert s none σ) w r' k)
            (lookup-insert_self s none σ) (find_value-bind_local_self L s (int_ptr, dst) b bs)
            (k.cells dst (S.allocates "" c.world)) word,
        refl,
      )

  pub var_code-eq-plain_var_code :
      (c : Context L) (s : String) (init : MaybeCode L)
      → c.objects ≡ objects
      → var_code L int_ptr (name s) init c ≡ plain_var_code L int_ptr s init c
  unfolding var_code
  var_code-eq-plain_var_code c s init same =
      rw (object_at-int S objects int_ptr typed c same, ◌>>=◌) refl

module _ {L : Llvm} (S : Semantics L) (objects : List ThType) (int_ptr : Ptr)
    (typed : IsIntType S objects int_ptr) (lib : CLibrary) where
  -- The parse of the statement makes a node, whose code leads from one store to the other.
  abbrev pub CompilesStmt : Store → Stmt → Store → Type 0
  CompilesStmt σ s τ =
      (n : Node) × ((st : ParseState)
        → get_type "整数型" st.types ≡ int_ptr
        → build_stmt lib s st ≡ some (n, st))
      × ((c : Context L)
          → Represents S objects int_ptr c σ
          → Executes S objects int_ptr typed (codegen L n) c τ)

  declare-CompilesStmt :
      (σ : Store) (d : VarDecl) (τ : Store)
      → declare lib σ d ≡ some τ
      → CompilesStmt σ (declaration d) τ
  unfolding build_stmt build_var_decl build_types codegen declare
  declare-CompilesStmt σ (declared token_int s) τ h = (
    var_stmt int_ptr (name s) null,
    λ st int. rw int refl,
    λ c r. rw (var_code-eq-plain_var_code S objects int_ptr typed c s none r.same_objects) (
        subst (Executes S objects int_ptr typed (plain_var_code L int_ptr s none) c)
          (some-injective h) (plain_var_code-Executes_declared S objects int_ptr typed c σ s r)),
  )
  declare-CompilesStmt σ (initialised token_int s e) τ h =
      let (a, inner, k) =
        with_value-eq-some (λ a. some (insert s (some a) (insert s none σ)))
          (eval lib (insert s none σ) e) τ h in
      let (n, built, code) =
        build_expr-Compiles S objects int_ptr typed lib (insert s none σ) e a inner in
      (
        var_stmt int_ptr (name s) (just n),
        λ st int. rw (built st, ◌>>=◌) (rw int refl),
        λ c r.
            rw
              (var_code-eq-plain_var_code S objects int_ptr typed c s (some (codegen L n))
                r.same_objects)
              (subst
                (Executes S objects int_ptr typed (plain_var_code L int_ptr s (some (codegen L n)))
                  c)
                (some-injective k)
                (plain_var_code-Executes_initialised S objects int_ptr typed (codegen L n) c σ s a r
                  code)),
      )
  declare-CompilesStmt σ _ τ h = absurd (ground arith)

  value-CompilesStmt :
      (σ : Store) (e : Expr) (τ : Store)
      → with_value (λ a. some σ) (eval lib σ e) ≡ some τ
      → CompilesStmt σ (evaluation e) τ
  unfolding build_stmt codegen
  value-CompilesStmt σ e τ h =
      let (a, inner, k) = with_value-eq-some (λ a. some σ) (eval lib σ e) τ h in
      let (n, built, code) = build_expr-Compiles S objects int_ptr typed lib σ e a inner in
      (
        expr_stmt n,
        λ st int. rw (built st, ◌>>=◌) refl,
        λ c r.
            let (v, w, e', _, k') = code c r in
            (
              v,
              record c { world = w },
              e',
              subst (Represents S objects int_ptr (record c { world = w })) (some-injective k)
                  (evolved-Represents S objects int_ptr c σ w r k'),
              refl,
            ),
      )

  perform-CompilesStmt :
      (σ : Store) (e : Expr) (τ : Store)
      → perform lib σ e ≡ some τ
      → CompilesStmt σ (evaluation e) τ
  unfolding build_stmt codegen perform
  perform-CompilesStmt σ (assigned s e) τ h =
      let (old, a, there, inner, k) = assign_to-eq-some σ s (lookup s σ) (eval lib σ e) τ h in
      let (n, built, code) = build_expr-Compiles S objects int_ptr typed lib σ e a inner in
      (
        expr_stmt (assign (name s) n),
        λ st int. unfold build_expr in rw (built st, ◌>>=◌) refl,
        λ c r. subst (Executes S objects int_ptr typed (assign_code L (name s) (codegen L n)) c) k (
            assign_code-Executes S objects int_ptr typed (codegen L n) c σ s old a r there
              (code c r)),
      )
  perform-CompilesStmt σ e τ h = value-CompilesStmt σ e τ h

  -- What the interpreter does at a statement is what its code does.
  pub exec-CompilesStmt :
      (σ : Store) (s : Stmt) (τ : Store) → exec lib σ s ≡ some τ → CompilesStmt σ s τ
  unfolding exec
  exec-CompilesStmt σ (declaration d) τ h = declare-CompilesStmt σ d τ h
  exec-CompilesStmt σ (evaluation e) τ h = perform-CompilesStmt σ e τ h
  exec-CompilesStmt σ _ τ h = absurd (ground arith)
