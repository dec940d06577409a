-- ===== src/Ast.antt =====
-- include/thlang/node.h: the syntax tree. `Node*` children that may be null are `MaybeNode`.
-- A `StringAst` changes its own `value` when code is generated for it, so it is a cell of a store:
-- `string p` is the object whose `value` is cell `p`. A `FloatAst` holds its double's bit pattern.
use th_lang.Base.{ℕ, String, Bool}
use th_lang.Base.Int.{ℤ}
use th_lang.TypeSystem.{Ptr}

mutual
  pub data Node : Type 0 where
    int : ℤ → Node
    float : ℕ → Node
    string : ℕ → Node
    bool : Bool → Node
    name : String → Node
    unop : String → Node → Node
    binop : String → Node → Node → Node
    assign : Node → Node → Node
    call : Node → Nodes → Node
    expr_stmt : Node → Node
    var_stmt : Ptr → Node → MaybeNode → Node
    if_stmt : Node → Node → MaybeNode → Node
    for_stmt : MaybeNode → Node → MaybeNode → Node → Node
    while_stmt : Node → Node → Node
    return_stmt : MaybeNode → Node
    function_stmt : Ptr → Node → Vars → MaybeNode → Bool → Node
    block : Nodes → Node

  -- `std::vector<std::unique_ptr<Node>>`, and `ExprList`.
  pub data Nodes : Type 0 where
    nil : Nodes
    cons : Node → Nodes → Nodes

  pub data MaybeNode : Type 0 where
    null : MaybeNode
    just : Node → MaybeNode

  -- `VarList`: the `VarStmtAst`s of a parameter list, by their fields.
  pub data Vars : Type 0 where
    no_vars : Vars
    var : Ptr → Node → MaybeNode → Vars → Vars
