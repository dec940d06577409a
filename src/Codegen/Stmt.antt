-- ===== src/Codegen/Stmt.antt =====
-- The `codegen` methods of the statements, over the code of their parts.
use th_lang.Base.{
  String, Bool, true, false, Option, none, some, get_elem?, if◌then◌else◌, pure, crash, demand,
  ◌>>=◌, ◌>>◌, read,
}
use th_lang.Base.Int.{pos}
use th_lang.Llvm.{Llvm, icmp_ne, alloca, store, binary, int_cast, br, cond_br, ret, ret_void}
use th_lang.TypeSystem.{Ptr, ThType, function, base, class}
use th_lang.Ast.{Node}
use th_lang.Codegen.Context.{
  Gen, Code, log_error, setvalue, push_block, pop_block, create, on_world, create_block,
  current_function, is_terminated, lower_type,
}
use th_lang.Codegen.Expr.{as_name}

-- `dynamic_cast<FunctionType*>(type)`, as a test.
unfoldable pub is_function_type : ThType → Bool
is_function_type (function result args) = true
is_function_type (base name copy size) = false
is_function_type (class name copy size members) = false

module _ (L : Llvm) where
  -- The code of a child that may be absent; `none` is a null child.
  abbrev pub MaybeCode : Type 0
  MaybeCode = Option (Code L)

  -- A child that the code calls with no null test.
  unfoldable pub required : MaybeCode → Code L
  required none = crash
  required (some m) = m

  -- A child that is generated if it is there, its value ignored.
  unfoldable pub optional : MaybeCode → Gen L (Unit {0})
  optional none = pure tt
  optional (some m) = do v ← m; pure tt

  -- `VarStmtAst::codegen`, for a variable of a function type: the name stands for the value itself.
  unfoldable pub function_var_code : Ptr → String → MaybeCode → Code L
  unfolding log_error setvalue
  function_var_code p s none = log_error L "函数指针必须初始化"
  function_var_code p s (some init) = do
    v ← init
    elim v [ none ↦ pure none | some f ↦ do setvalue L s (p, f); pure (some f) ]

  -- The store of `VarStmtAst::codegen`'s initial value; a value that is missing makes it null.
  unfoldable pub store_initial : L.Value → MaybeCode → Code L
  unfolding create
  store_initial inst none = pure (some inst)
  store_initial inst (some init) = do
    v ← init
    elim v [ none ↦ pure none | some x ↦ do stored ← create L (store x inst); pure (some inst) ]

  -- `VarStmtAst::codegen`, for any other variable.
  unfoldable pub plain_var_code : Ptr → String → MaybeCode → Code L
  unfolding lower_type create setvalue store_initial
  plain_var_code p s init = do
    τ ← lower_type L p
    inst ← create L (alloca τ "")
    setvalue L s (p, inst)
    store_initial inst init

  -- `VarStmtAst::codegen`
  unfoldable pub var_code : Ptr → Node → MaybeCode → Code L
  unfolding as_name is_function_type function_var_code plain_var_code
  var_code p target init = do
    s ← demand (as_name target)
    object ← read (λ c. get_elem? c.objects p)
    t ← demand object
    if is_function_type t then function_var_code p s init else plain_var_code p s init

  -- The branch to `next` where the current block has no terminator yet.
  unfoldable pub branch_on : L.Block → Gen L (Unit {0})
  unfolding is_terminated create
  branch_on next = do
    terminated ← is_terminated L
    if terminated then pure tt else (do b ← create L (br next); pure tt)

  -- The condition of an `if`, as an `i1`.
  unfoldable pub if_condition : L.Value → Gen L L.Value
  unfolding create
  if_condition v =
      if L.same_type (L.type_of v) (L.int_ty 1)
      then pure v
      else create L (binary icmp_ne v (L.const_int (L.type_of v) (pos 0) true) "ifcond")

  -- `IfStmtAst::codegen` from its else block on. The else branch may be absent.
  unfoldable pub else_code : L.Block → L.Block → Option L.Func → MaybeCode → Code L
  unfolding on_world branch_on
  else_code else_block merge_block current otherwise = do
    f ← demand current
    on_world L (L.insert_into else_block f)
    on_world L (L.set_insert_point else_block)
    failed ← elim otherwise [
      | none ↦ pure false
      | some m ↦ do v ← m; elim v [ none ↦ pure true | some x ↦ pure false ]
    ]
    if failed then pure none else (do
      branch_on merge_block
      on_world L (L.insert_into merge_block f)
      on_world L (L.set_insert_point merge_block)
      pure none)

  -- `IfStmtAst::codegen`
  unfoldable pub if_code : Code L → Code L → MaybeCode → Code L
  unfolding if_condition current_function create_block create on_world branch_on else_code
  if_code condition then_ otherwise = do
    cond ← condition
    elim cond [
      | none ↦ pure none
      | some v ↦ do
        test ← if_condition v
        current ← current_function L
        then_block ← create_block L "then" current
        else_block ← create_block L "else" none
        merge_block ← create_block L "ifcont" none
        b ← create L (cond_br test then_block else_block)
        on_world L (L.set_insert_point then_block)
        done ← then_
        elim done [
          | none ↦ pure none
          | some x ↦ do branch_on merge_block; else_code else_block merge_block current otherwise
        ]
    ]

  -- The condition of a loop: cast to `i1` and compared with 0.
  unfoldable pub loop_condition : L.Value → Gen L L.Value
  unfolding create
  loop_condition v = do
    bit ← create L (int_cast v (L.int_ty 1) true)
    create L (binary icmp_ne bit (L.const_int (L.int_ty 1) (pos 0) true) "")

  -- The end of both loops: the block behind the loop returns, unless it is terminated already.
  unfoldable pub finish_loop : L.Block → Code L
  unfolding on_world create
  finish_loop after = do
    on_world L (L.set_insert_point after)
    terminated ← read (λ c. L.has_terminator after c.world)
    if terminated then pure none else (do r ← create L ret_void; pure none)

  -- The body, the increment and the block behind a `for`.
  unfoldable pub for_body : L.Block → L.Block → L.Block → L.Block → MaybeCode → Code L → Code L
  unfolding on_world push_block pop_block create optional
  for_body cond_block body_block iter_block after increment body = do
    on_world L (L.set_insert_point body_block)
    push_block L body_block
    v ← body
    terminated ← read (λ c. L.has_terminator body_block c.world)
    if terminated then pure tt else (create L (br iter_block) >>= λ b. pure tt)
    pop_block L
    on_world L (L.set_insert_point iter_block)
    optional increment
    b ← create L (br cond_block)
    finish_loop after

  -- `ForStmtAst::codegen`
  unfoldable pub for_code : MaybeCode → Code L → MaybeCode → Code L → Code L
  unfolding current_function create_block create on_world optional loop_condition
  for_code init condition increment body = do
    f ← current_function L
    init_block ← create_block L "forinit" f
    cond_block ← create_block L "forcond" f
    body_block ← create_block L "forbody" f
    iter_block ← create_block L "foriter" f
    after ← create_block L "forcont" f
    entry ← read (λ c. L.insert_block c.world)
    entry_block ← demand entry
    on_world L (L.set_insert_point entry_block)
    b ← create L (br init_block)
    on_world L (L.set_insert_point init_block)
    optional init
    b' ← create L (br cond_block)
    on_world L (L.set_insert_point cond_block)
    cond ← condition
    elim cond [
      | none ↦ pure none
      | some v ↦ do
        test ← loop_condition v
        b'' ← create L (cond_br test body_block after)
        for_body cond_block body_block iter_block after increment body
    ]

  -- `WhileStmtAst::codegen` behind the first test. The condition is generated a second time, and
  -- its value is used with no null test.
  unfoldable pub while_body : L.Block → L.Block → Option L.Func → Code L → Code L → Code L
  unfolding on_world push_block pop_block create loop_condition
  while_body block after f condition body = do
    on_world L (L.set_insert_point block)
    push_block L block
    x ← body
    pop_block L
    again ← condition
    v ← demand again
    test ← loop_condition v
    b ← create L (cond_br test block after)
    current ← demand f
    on_world L (L.insert_into after current)
    finish_loop after

  -- `WhileStmtAst::codegen`
  unfoldable pub while_code : Code L → Code L → Code L
  unfolding current_function create_block create loop_condition
  while_code condition body = do
    f ← current_function L
    block ← create_block L "whileloop" f
    after ← create_block L "whilecont" none
    cond ← condition
    elim cond [
      | none ↦ pure none
      | some v ↦ do
        test ← loop_condition v
        b ← create L (cond_br test block after)
        while_body block after f condition body
    ]

  -- `ReturnStmtAst::codegen`
  unfoldable pub return_code : MaybeCode → Code L
  unfolding create
  return_code none = do r ← create L ret_void; pure none
  return_code (some expr) = do v ← expr; r ← create L (ret v); pure v
