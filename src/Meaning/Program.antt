-- ===== src/Meaning/Program.antt =====
-- The code of a sequence of statements, and of a function that returns a value.
use th_lang.Base.{◌≡◌, refl, fun_ext, ◌∙◌, Option, some, List, arith, ◌>>=◌}
use th_lang.Llvm.{Llvm}
use th_lang.TypeSystem.{Ptr, ThType, get_type}
use th_lang.Ast.{Node, Nodes, nil, cons}
use th_lang.Codegen.Context.{Context}
use th_lang.Codegen.Gen.{codegen, codegen_block}
use th_lang.Parser.Tree.{Stmt, Stmts, one_stmt, more_stmts, semicolon, semicolon_stmt}
use th_lang.Parser.Actions.{CLibrary, ParseState, push_node, build_stmts}
use th_lang.Meaning.Source.{Store, exec, run, and_then-eq-some}
use th_lang.Meaning.Semantics.{Semantics}
use th_lang.Meaning.Represents.{IsIntType, Represents}
use th_lang.Meaning.Stmt.{Executes, CompilesStmt, exec-CompilesStmt}

-- The node that is pushed comes last.
pub codegen_block-push_node :
    (L : Llvm) (ns : Nodes) (n : Node) (last : Option L.Value) (c : Context L)
    → codegen_block L (push_node ns n) last c ≡ (codegen_block L ns last >>= λ v. codegen L n) c
unfolding codegen_block push_node
codegen_block-push_node L nil n last c = ground arith
codegen_block-push_node L (cons m ns) n last c =
    let rest : codegen_block L (push_node ns n) ≡ (λ v. codegen_block L ns v >>= λ u. codegen L n) =
      fun_ext λ v. fun_ext λ c'. codegen_block-push_node L ns n v c' in
    rw rest (ground arith)

module _ {L : Llvm} (S : Semantics L) (objects : List ThType) (int_ptr : Ptr)
    (typed : IsIntType S objects int_ptr) (lib : CLibrary) where
  abbrev pub CompilesStmts : Store → Stmts → Store → Type 0
  CompilesStmts σ ss τ =
      (ns : Nodes) × ((st : ParseState)
        → get_type "整数型" st.types ≡ int_ptr
        → build_stmts lib ss st ≡ some (ns, st))
      × ((c : Context L) (last : Option L.Value)
          → Represents S objects int_ptr c σ
          → Executes S objects int_ptr typed (codegen_block L ns last) c τ)

  one-CompilesStmts :
      (σ τ : Store) (s : Stmt)
      → CompilesStmt S objects int_ptr typed lib σ s τ
      → CompilesStmts σ (one_stmt s) τ
  unfolding build_stmts codegen_block
  one-CompilesStmts σ τ s (n, built, code) = (
    cons n nil,
    λ st int. rw (built st int, ◌>>=◌) refl,
    λ c last r. let (v, c', e, r', same) = code c r in (v, c', rw (e, ◌>>=◌) refl, r', same),
  )

  push-CompilesStmts :
      (σ ρ τ : Store) (ss : Stmts) (s : Stmt)
      → CompilesStmts σ ss ρ
      → CompilesStmt S objects int_ptr typed lib ρ s τ
      → CompilesStmts σ (more_stmts ss s) τ
  unfolding build_stmts
  push-CompilesStmts σ ρ τ ss s (ns, built, code) (n, built', code') = (
    push_node ns n,
    λ st int. rw (built st int, ◌>>=◌) (rw (built' st int, ◌>>=◌) refl),
    λ c last r.
        let (v, c', e, r', same) = code c last r in
        let (v', c'', e', r'', same') = code' c' r' in
        (v', c'', codegen_block-push_node L ns n last c ∙ rw (e, ◌>>=◌) e', r'', same' ∙ same),
  )

  run-CompilesStmts :
      (σ : Store) (ss : Stmts) (τ : Store) → run lib σ ss ≡ some τ → CompilesStmts σ ss τ
  unfolding run build_stmts
  run-CompilesStmts σ (one_stmt s) τ h =
      one-CompilesStmts σ τ s (exec-CompilesStmt S objects int_ptr typed lib σ s τ h)
  run-CompilesStmts σ (more_stmts ss s) τ h =
      let (ρ, first, then') = and_then-eq-some (λ ρ. exec lib ρ s) (run lib σ ss) τ h in
      push-CompilesStmts σ ρ τ ss s (run-CompilesStmts σ ss ρ first)
        (exec-CompilesStmt S objects int_ptr typed lib ρ s τ then')
  run-CompilesStmts σ (semicolon ss) τ h = run-CompilesStmts σ ss τ h
  run-CompilesStmts σ (semicolon_stmt ss s) τ h =
      let (ρ, first, then') = and_then-eq-some (λ ρ. exec lib ρ s) (run lib σ ss) τ h in
      push-CompilesStmts σ ρ τ ss s (run-CompilesStmts σ ss ρ first)
        (exec-CompilesStmt S objects int_ptr typed lib ρ s τ then')

  -- Over an LLVM with arithmetic and memory as its manual has them, and with one type object of
  -- 整数型 for the parser and the generator, take statements that the interpreter runs from one store
  -- of variables to another. The actions make nodes and change nothing; and from a state that stands
  -- for the first store, their code returns a value, reports no error, and leads to a state that
  -- stands for the second.
  pub codegen_block-run :
      (ss : Stmts) (σ τ : Store) (st : ParseState) (c : Context L) (last : Option L.Value)
      → get_type "整数型" st.types ≡ int_ptr
      → Represents S objects int_ptr c σ
      → run lib σ ss ≡ some τ
      → (ns : Nodes) × (build_stmts lib ss st ≡ some (ns, st))
        × ((v : L.Value) × (c' : Context L) × (codegen_block L ns last c ≡ some (some v, c'))
            × Represents S objects int_ptr c' τ
            × (c'.errors ≡ c.errors))
  codegen_block-run ss σ τ st c last int r h =
      let (ns, built, code) = run-CompilesStmts σ ss τ h in (ns, built st int, code c last r)
