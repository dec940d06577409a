-- ===== src/Meaning/Body.antt =====
-- The code of a body that ends with `return`.
use th_lang.Base.{arith, ℕ, ◌≡◌, refl, ◌∙◌, Option, some, List, ◌∷◌, ◌>>=◌}
use th_lang.Llvm.{Llvm, ret}
use th_lang.TypeSystem.{Ptr, ThType, get_type}
use th_lang.Ast.{Nodes, nil, cons, return_stmt, just}
use th_lang.Codegen.Context.{CodegenBlock, Context}
use th_lang.Codegen.Stmt.{return_code}
use th_lang.Codegen.Gen.{codegen, codegen_block}
use th_lang.Parser.Tree.{Stmts, one_stmt, more_stmts, semicolon, semicolon_stmt, return_value, Expr}
use th_lang.Parser.Actions.{CLibrary, ParseState, push_node, build_stmts}
use th_lang.Meaning.Source.{Store, run, result, with_store, with_store-eq-some, eval}
use th_lang.Meaning.Semantics.{Semantics}
use th_lang.Meaning.Represents.{IsIntType, Represents}
use th_lang.Meaning.Expr.{build_expr-Compiles}
use th_lang.Meaning.Value.{IsWord}
use th_lang.Meaning.Program.{codegen_block-push_node, codegen_block-run}

module _ {L : Llvm} (S : Semantics L) (objects : List ThType) (int_ptr : Ptr)
    (typed : IsIntType S objects int_ptr) (lib : CLibrary) where
  -- A body that has been read, and whose code returns the word.
  abbrev pub Returns : ParseState → Context L → Option L.Value → Stmts → ℕ → Type 0
  Returns st c last body a =
      (ns : Nodes) × (build_stmts lib body st ≡ some (ns, st))
      × ((v : L.Value) × (c' : Context L) × (codegen_block L ns last c
            ≡ some (some v, record c' { world = (L.create (ret (some v)) c'.world).1 }))
          × IsWord S c'.world v a
          × (c'.errors ≡ c.errors)
          × ((b : CodegenBlock L) × (bs : List (CodegenBlock L)) × (c'.blocks ≡ b ∷ bs)))

  one-Returns :
      (e : Expr) (σ : Store) (a : ℕ) (st : ParseState) (c : Context L) (last : Option L.Value)
      → Represents S objects int_ptr c σ
      → eval lib σ e ≡ some a
      → Returns st c last (one_stmt (return_value e)) a
  unfolding build_stmts return_code codegen
  one-Returns e σ a st c last r k =
      let (n, built, code) = build_expr-Compiles S objects int_ptr typed lib σ e a k in
      let (v, w, made, word, _) = code c r in
      (
        cons (return_stmt (just n)) nil,
        rw (built st, ◌>>=◌) refl,
        (v, record c { world = w }, rw (made, ◌>>=◌) refl, word, refl, r.inside),
      )

  more-Returns :
      (ss : Stmts) (e : Expr) (σ : Store) (a : ℕ) (st : ParseState) (c : Context L)
      (last : Option L.Value)
      → get_type "整数型" st.types ≡ int_ptr
      → Represents S objects int_ptr c σ
      → with_store (λ τ. eval lib τ e) (run lib σ ss) ≡ some a
      → Returns st c last (more_stmts ss (return_value e)) a
  unfolding build_stmts return_code codegen
  more-Returns ss e σ a st c last int r h =
      let (τ, before, k) = with_store-eq-some (λ τ. eval lib τ e) (run lib σ ss) a h in
      let (ns, built, (_, c₁, code, r₁, same)) =
        codegen_block-run S objects int_ptr typed lib ss σ τ st c last int r before in
      let (n, built', code') = build_expr-Compiles S objects int_ptr typed lib τ e a k in
      let (v, w, made, word, _) = code' c₁ r₁ in
      (
        push_node ns (return_stmt (just n)),
        rw (built, ◌>>=◌) (rw (built' st, ◌>>=◌) refl),
        (
          v,
          record c₁ { world = w },
          codegen_block-push_node L ns (return_stmt (just n)) last c
              ∙ rw (code, ◌>>=◌) (rw (made, ◌>>=◌) refl),
          word,
          same,
          r₁.inside,
        ),
      )

  pub result-Returns :
      (body : Stmts) (σ : Store) (a : ℕ) (st : ParseState) (c : Context L) (last : Option L.Value)
      → get_type "整数型" st.types ≡ int_ptr
      → Represents S objects int_ptr c σ
      → result lib σ body ≡ some a
      → Returns st c last body a
  unfolding result build_stmts
  result-Returns (one_stmt (return_value e)) σ a st c last int r h = one-Returns e σ a st c last r h
  result-Returns (more_stmts ss (return_value e)) σ a st c last int r h =
      more-Returns ss e σ a st c last int r h
  result-Returns (semicolon_stmt ss (return_value e)) σ a st c last int r h =
      more-Returns ss e σ a st c last int r h
  result-Returns (semicolon ss) σ a st c last int r h = result-Returns ss σ a st c last int r h
  result-Returns _ σ a st c last int r h = absurd (ground arith)
