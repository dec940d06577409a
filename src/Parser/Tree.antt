-- ===== src/Parser/Tree.antt =====
-- Parse trees: a data type for each nonterminal of the grammar and a constructor for each rule.
-- A token that carries a text is that text.
use th_lang.Base.{String}

-- The rules of `op`.
pub data Op : Type 0 where
  equal ceq nel nlt nle ngt nge xor shl shr and or : Op

-- `expr TOKEN_MOD expr` and the other four rules of that form.
pub data Arith : Type 0 where
  mod_ mul div plus minus : Arith

-- `TOKEN_MINUS expr`, `TOKEN_PLUS expr`, `TOKEN_NOT expr`.
pub data Sign : Type 0 where
  minus_sign plus_sign not_sign : Sign

-- `types`, `func_type` and `type_list`.
mutual
  pub data Types : Type 0 where
    token_int : Types
    type_id : String → Types
    func_none : Types → Types
    func_list : Types → TypeList → Types

  pub data TypeList : Type 0 where
    one_type : Types → TypeList
    more_types : TypeList → Types → TypeList

mutual
  -- `expr` and `assign`; `var_id` is the text of its token.
  pub data Expr : Type 0 where
    num : String → Expr
    text : String → Expr
    real : String → Expr
    assigned : String → Expr → Expr
    variable : String → Expr
    parens : Expr → Expr
    by_op : Expr → Op → Expr → Expr
    by_arith : Expr → Arith → Expr → Expr
    signed : Sign → Expr → Expr
    called : String → CallArgs → Expr

  pub data CallArgs : Type 0 where
    no_args : CallArgs
    one_arg : Expr → CallArgs
    more_args : CallArgs → Expr → CallArgs

pub data VarDecl : Type 0 where
  declared : Types → String → VarDecl
  initialised : Types → String → Expr → VarDecl

pub data FuncArgs : Type 0 where
  no_params : FuncArgs
  one_param : VarDecl → FuncArgs
  more_params : FuncArgs → VarDecl → FuncArgs

mutual
  -- `block`, `stmts`, `stmt` with `while_stmt`, `for_stmt` and `func_decl`, and `if_stmt`.
  pub data Block : Type 0 where
    braces : Stmts → Block
    empty_braces : Block

  pub data Stmts : Type 0 where
    one_stmt : Stmt → Stmts
    more_stmts : Stmts → Stmt → Stmts
    semicolon : Stmts → Stmts
    semicolon_stmt : Stmts → Stmt → Stmts

  pub data Stmt : Type 0 where
    conditional : IfStmt → Stmt
    while_loop : Expr → Block → Stmt
    for_loop : Expr → Expr → Expr → Block → Stmt
    declaration : VarDecl → Stmt
    definition : Types → String → FuncArgs → Block → Stmt
    external : Types → String → FuncArgs → Stmt
    return_nothing : Stmt
    return_value : Expr → Stmt
    evaluation : Expr → Stmt

  pub data IfStmt : Type 0 where
    if_then : Expr → Block → IfStmt
    if_else : Expr → Block → Block → IfStmt
    if_else_if : Expr → Block → IfStmt → IfStmt
