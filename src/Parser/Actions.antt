-- ===== src/Parser/Actions.antt =====
-- The actions, by nonterminal. The result is `none` where `std::stod` throws or `std::atol` is
-- undefined.
use th_lang.Base.{
  ℕ, String, ◌<>◌, ◌==◌, str_eq, true, false, not, ◌&&◌, Option, some, List, [], ◌∷◌, ◌++◌, length,
  if◌then◌else◌, Stateful, pure, demand, ◌>>=◌, read,
}
use th_lang.Base.Int.{ℤ}
use th_lang.TypeSystem.{Ptr, function, TypeSystem, create, get_type}
use th_lang.Ast.{
  Node, int, float, string, name, unop, binop, assign, call, expr_stmt, var_stmt, if_stmt, for_stmt,
  while_stmt, return_stmt, function_stmt, block, Nodes, nil, cons, MaybeNode, null, just, Vars,
  no_vars, var,
}
use th_lang.Parser.Tree.{
  Op, equal, ceq, nel, nlt, nle, ngt, nge, xor, shl, shr, and, or, Arith, mod_, mul, div, plus,
  minus, Sign, minus_sign, plus_sign, not_sign, Types, token_int, type_id, func_none, func_list,
  TypeList, one_type, more_types, Expr, num, text, real, assigned, variable, parens, by_op,
  by_arith, signed, called, CallArgs, no_args, one_arg, more_args, VarDecl, declared, initialised,
  FuncArgs, no_params, one_param, more_params, Block, braces, empty_braces, Stmts, one_stmt,
  more_stmts, semicolon, semicolon_stmt, Stmt, conditional, while_loop, for_loop, declaration,
  definition, external, return_nothing, return_value, evaluation, IfStmt, if_then, if_else,
  if_else_if,
}

-- What the actions use of the C++ library: the bytes of a text, `atol`, which is
-- undefined where the number is out of range, and `stod`, whose result is a double's bit pattern and
-- which may throw.
pub record CLibrary : Type 0 where
  pub utf8 : String → List ℕ
  pub atol : String → Option ℤ
  pub stod : String → Option ℕ

-- `texts` are the values of the `StringAst`s made so far, `errors` what `LogError` has written.
pub record ParseState : Type 0 where
  pub types : TypeSystem
  pub texts : List (List ℕ)
  pub errors : List String

abbrev pub Build : Type 0 → Type 0
Build A = Stateful ParseState A

-- `push_back`
unfoldable pub push_node : Nodes → Node → Nodes
push_node nil n = cons n nil
push_node (cons m ns) n = cons m (push_node ns n)

unfoldable pub push_var : Vars → Vars → Vars
push_var no_vars v = v
push_var (var p t i vars) v = var p t i (push_var vars v)

unfoldable pub op_text : Op → String
op_text equal = "="
op_text ceq = "=="
op_text nel = "!="
op_text nlt = "<"
op_text nle = "<="
op_text ngt = ">"
op_text nge = ">="
op_text xor = "^"
op_text shl = "<<"
op_text shr = ">>"
op_text and = "&&"
op_text or = "||"

unfoldable pub arith_text : Arith → String
arith_text mod_ = "%"
arith_text mul = "*"
arith_text div = "/"
arith_text plus = "+"
arith_text minus = "-"

unfoldable pub sign_text : Sign → String
sign_text minus_sign = "-"
sign_text plus_sign = "+"
sign_text not_sign = "!"

-- `type_id`: the warning for an unknown name compares the pointer with that of "空类型".
unfoldable pub type_id_action : String → Build Ptr
type_id_action s st =
    let t = get_type s st.types in
    let unknown = not (str_eq s "空类型") && (t == get_type "空类型" st.types) in
    some (t, if unknown then record st { errors = st.errors ++ ("未知的数据类型" <> s) ∷ [] } else st)

-- `new FunctionType`
unfoldable pub new_function_type : Ptr → List Ptr → Build Ptr
new_function_type ret args st =
    let (p, types) = create (function ret args) st.types in some (p, record st { types = types })

unfoldable mutual
  unfolding type_id_action new_function_type

  pub build_types : Types → Build Ptr
  build_types token_int = read (λ st. get_type "整数型" st.types)
  build_types (type_id s) = type_id_action s
  build_types (func_none ret) = build_types ret >>= λ r. new_function_type r []
  build_types (func_list ret args) =
      build_types ret >>= λ r. build_type_list args >>= λ ps. new_function_type r ps

  pub build_type_list : TypeList → Build (List Ptr)
  build_type_list (one_type t) = build_types t >>= λ p. pure (p ∷ [])
  build_type_list (more_types ts t) =
      build_type_list ts >>= λ ps. build_types t >>= λ p. pure (ps ++ p ∷ [])

module _ (lib : CLibrary) where
  -- `new StringAst`
  unfoldable pub new_text : String → Build Node
  new_text s st = some (string (length st.texts), record st { texts = st.texts ++ lib.utf8 s ∷ [] })

  unfoldable mutual
    unfolding op_text arith_text sign_text new_text push_node

    pub build_expr : Expr → Build Node
    build_expr (num s) = demand (lib.atol s) >>= λ n. pure (int n)
    build_expr (text s) = new_text s
    build_expr (real s) = demand (lib.stod s) >>= λ bits. pure (float bits)
    build_expr (assigned s e) = build_expr e >>= λ n. pure (assign (name s) n)
    build_expr (variable s) = pure (name s)
    build_expr (parens e) = build_expr e
    build_expr (by_op l op r) =
        build_expr l >>= λ m. build_expr r >>= λ n. pure (binop (op_text op) m n)
    build_expr (by_arith l op r) =
        build_expr l >>= λ m. build_expr r >>= λ n. pure (binop (arith_text op) m n)
    build_expr (signed op e) = build_expr e >>= λ n. pure (unop (sign_text op) n)
    build_expr (called s args) = build_call_args args >>= λ ns. pure (call (name s) ns)

    pub build_call_args : CallArgs → Build Nodes
    build_call_args no_args = pure nil
    build_call_args (one_arg e) = build_expr e >>= λ n. pure (cons n nil)
    build_call_args (more_args args e) =
        build_call_args args >>= λ ns. build_expr e >>= λ n. pure (push_node ns n)

  -- `var_decl`, as the fields of its `VarStmtAst`: the one item of the result.
  unfoldable pub build_var_decl : VarDecl → Build (Ptr × Node × MaybeNode)
  build_var_decl (declared t s) = do p ← build_types t; pure (p, name s, null)
  build_var_decl (initialised t s e) = do
    p ← build_types t
    n ← build_expr e
    pure (p, name s, just n)

  unfoldable pub build_func_args : FuncArgs → Build Vars
  unfolding push_var
  build_func_args no_params = pure no_vars
  build_func_args (one_param v) = do d ← build_var_decl v; pure (var d.0 d.1 d.2 no_vars)
  build_func_args (more_params args v) = do
    vars ← build_func_args args
    d ← build_var_decl v
    pure (push_var vars (var d.0 d.1 d.2 no_vars))

  unfoldable mutual
    unfolding push_node

    pub build_block : Block → Build Node
    build_block (braces ss) = build_stmts ss >>= λ ns. pure (block ns)
    build_block empty_braces = pure (block nil)

    pub build_stmts : Stmts → Build Nodes
    build_stmts (one_stmt s) = build_stmt s >>= λ n. pure (cons n nil)
    build_stmts (more_stmts ss s) =
        build_stmts ss >>= λ ns. build_stmt s >>= λ n. pure (push_node ns n)
    build_stmts (semicolon ss) = build_stmts ss
    build_stmts (semicolon_stmt ss s) =
        build_stmts ss >>= λ ns. build_stmt s >>= λ n. pure (push_node ns n)

    pub build_stmt : Stmt → Build Node
    build_stmt (conditional i) = build_if i
    build_stmt (while_loop e b) = build_expr e >>= λ c. build_block b >>= λ n. pure (while_stmt c n)
    build_stmt (for_loop i c s b) = build_expr i >>= λ x. build_expr c >>= λ y.
        build_expr s >>= λ z. build_block b >>= λ n. pure (for_stmt (just x) y (just z) n)
    build_stmt (declaration v) = build_var_decl v >>= λ d. pure (var_stmt d.0 d.1 d.2)
    build_stmt (definition t s args b) = build_types t >>= λ p. build_func_args args >>= λ vars.
        build_block b >>= λ n. pure (function_stmt p (name s) vars (just n) false)
    build_stmt (external t s args) = build_types t >>= λ p.
        build_func_args args >>= λ vars. pure (function_stmt p (name s) vars null true)
    build_stmt return_nothing = pure (return_stmt null)
    build_stmt (return_value e) = build_expr e >>= λ n. pure (return_stmt (just n))
    build_stmt (evaluation e) = build_expr e >>= λ n. pure (expr_stmt n)

    pub build_if : IfStmt → Build Node
    build_if (if_then e b) = build_expr e >>= λ c. build_block b >>= λ t. pure (if_stmt c t null)
    build_if (if_else e b b') = build_expr e >>= λ c.
        build_block b >>= λ t. build_block b' >>= λ f. pure (if_stmt c t (just f))
    build_if (if_else_if e b i) = build_expr e >>= λ c.
        build_block b >>= λ t. build_if i >>= λ f. pure (if_stmt c t (just (block (cons f nil))))

  -- `program`: the root module's block.
  unfoldable pub build_program : Stmts → Build Node
  build_program ss = do ns ← build_stmts ss; pure (block ns)
