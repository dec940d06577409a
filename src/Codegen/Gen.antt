-- ===== src/Codegen/Gen.antt =====
-- The dispatch of `codegen` on the node, and `NBlock::codegen`.
pub mod Null
pub mod Frame
pub mod Balance
pub mod Leak
pub mod Loop
pub mod Text
use th_lang.Base.{ℕ, suc, Option, none, some, List, [], ◌∷◌, pure, ◌>>=◌}
use th_lang.Llvm.{Llvm}
use th_lang.Ast.{
  Node, int, float, string, bool, name, unop, binop, assign, call, expr_stmt, var_stmt, if_stmt,
  for_stmt, while_stmt, return_stmt, function_stmt, block, Nodes, nil, cons, MaybeNode, null, just,
}
use th_lang.Codegen.Context.{Context, Gen, Code}
use th_lang.Codegen.Expr.{
  int_code, float_code, string_code, bool_code, name_code, unop_code, binop_code, assign_code,
  call_code,
}
use th_lang.Codegen.Stmt.{MaybeCode, var_code, if_code, for_code, while_code, return_code}
use th_lang.Codegen.Func.{function_code}

-- `args->size()`
unfoldable pub count : Nodes → ℕ
count nil = 0
count (cons n ns) = suc (count ns)

module _ (L : Llvm) where
  -- A round of the loop over the arguments: the first null value ends it.
  unfoldable pub args_code : Code L → Gen L (Option (List L.Value)) → Gen L (Option (List L.Value))
  args_code first rest = do
    v ← first
    elim v [
      | none ↦ pure none
      | some x ↦ do xs ← rest; elim xs [ none ↦ pure none | some vs ↦ pure (some (x ∷ vs)) ]
    ]

  unfoldable mutual
    pub codegen : Node → Code L
    codegen (int n) = int_code L n
    codegen (float bits) = float_code L bits
    codegen (string p) = string_code L p
    codegen (bool b) = bool_code L b
    codegen (name s) = name_code L s
    codegen (unop op e) = unop_code L op (codegen e)
    codegen (binop op l r) = binop_code L op (codegen l) (codegen r)
    codegen (assign target e) = assign_code L target (codegen e)
    codegen (call target args) = call_code L target (count args) (codegen_args args)
    codegen (expr_stmt e) = codegen e
    codegen (var_stmt p target init) = var_code L p target (codegen_maybe init)
    codegen (if_stmt c t e) = if_code L (codegen c) (codegen t) (codegen_maybe e)
    codegen (for_stmt i c s b) =
        for_code L (codegen_maybe i) (codegen c) (codegen_maybe s) (codegen b)
    codegen (while_stmt c b) = while_code L (codegen c) (codegen b)
    codegen (return_stmt e) = return_code L (codegen_maybe e)
    codegen (function_stmt ret target vars body ext) =
        function_code L ret target vars (codegen_maybe body) ext
    codegen (block stmts) = codegen_block stmts L.indeterminate

    -- The loop of `NBlock::codegen` over its statements; `last` starts uninitialised.
    pub codegen_block : Nodes → Option L.Value → Code L
    codegen_block nil last = pure last
    codegen_block (cons n ns) last = codegen n >>= λ v. codegen_block ns v

    -- The loop of `CallExprAst::codegen` over its arguments.
    pub codegen_args : Nodes → Gen L (Option (List L.Value))
    codegen_args nil = pure (some [])
    codegen_args (cons n ns) = args_code (codegen n) (codegen_args ns)

    pub codegen_maybe : MaybeNode → MaybeCode L
    codegen_maybe null = none
    codegen_maybe (just n) = some (codegen n)
