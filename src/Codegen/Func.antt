-- ===== src/Codegen/Func.antt =====
-- `FunctionStmtAst::codegen`, over the code of the function's block.
use th_lang.Base.{
  String, ◌<>◌, str_eq, Bool, ◌||◌, some, List, [], ◌∷◌, if◌then◌else◌, pure, crash, demand, ◌>>=◌,
  ◌>>◌, read,
}
use th_lang.Llvm.{Llvm, alloca, store}
use th_lang.TypeSystem.{Ptr, function}
use th_lang.Ast.{Node, Vars, no_vars, var}
use th_lang.Codegen.Context.{
  Gen, Code, setvalue, setglobal, push_block, create, on_world, create_block, lower_type,
  new_object,
}
use th_lang.Codegen.Expr.{as_name}
use th_lang.Codegen.Stmt.{MaybeCode, required}

-- The types of the parameters.
unfoldable pub var_types : Vars → List Ptr
var_types no_vars = []
var_types (var p target init vars) = p ∷ var_types vars

-- `fname`
unfoldable pub ir_name : String → String
ir_name s = if str_eq s "入口" then "main" else s

module _ (L : Llvm) where
  unfoldable pub lower_types : List Ptr → Gen L (List L.LType)
  unfolding lower_type
  lower_types [] = pure []
  lower_types (p ∷ ps) = do τ ← lower_type L p; τs ← lower_types ps; pure (τ ∷ τs)

  -- One round of the loop over `function->args()`.
  unfoldable pub declare_arg : L.Value → Ptr → Node → Gen L (Unit {0})
  unfolding as_name lower_type on_world create setvalue
  declare_arg ir_arg p target = do
    s ← demand (as_name target)
    τ ← lower_type L p
    on_world L (L.set_name ir_arg s)
    given ← read (λ c. L.get_name ir_arg c.world)
    address ← create L (alloca τ (given <> ".addr"))
    stored ← create L (store ir_arg address)
    setvalue L s (p, address)

  -- The loop: it reads a parameter for each argument, past the end of the parameters too.
  unfoldable pub declare_args : List L.Value → Vars → Gen L (Unit {0})
  unfolding declare_arg
  declare_args [] vars = pure tt
  declare_args (a ∷ args) no_vars = crash
  declare_args (a ∷ args) (var p target init vars) = do
    declare_arg a p target
    declare_args args vars

  -- The body of a function that is not external. Its scope is pushed and never popped.
  unfoldable pub define_function : L.Func → Vars → MaybeCode L → Gen L (Unit {0})
  unfolding create_block push_block declare_args required
  define_function f vars body = do
    entry ← create_block L "entry" (some f)
    push_block L entry
    declare_args (L.function_args f) vars
    v ← required L body
    pure tt

  -- Every function but the program's entry becomes a global name with a `FunctionType` of its own.
  unfoldable pub publish_function : String → Ptr → Vars → L.Func → Gen L (Unit {0})
  unfolding new_object var_types setglobal
  publish_function s ret vars f = if str_eq s "入口" || str_eq s "main" then pure tt else (do
    t ← new_object L (function ret (var_types vars))
    setglobal L s (t, L.function_value f))

  -- `FunctionStmtAst::codegen` up to `Function::Create`: the source's name, and the function.
  unfoldable pub declare_function : Ptr → Node → Vars → Gen L (String × L.Func)
  unfolding lower_types lower_type as_name ir_name
  declare_function ret target vars = do
    arg_types ← lower_types (var_types vars)
    ret_type ← lower_type L ret
    s ← demand (as_name target)
    f ← λ c.
        let (f, w) = L.create_function (L.function_ty ret_type arg_types) (ir_name s) c.world in
        some (f, record c { world = w })
    pure (s, f)

  -- The rest of it.
  unfoldable pub complete_function : Ptr → Vars → MaybeCode L → Bool → String → L.Func → Code L
  complete_function ret vars body is_extern s f = do
    if is_extern then pure tt else define_function f vars body
    publish_function s ret vars f
    pure (some (L.function_value f))

  -- `FunctionStmtAst::codegen`
  unfoldable pub function_code : Ptr → Node → Vars → MaybeCode L → Bool → Code L
  function_code ret target vars body is_extern = do
    declared ← declare_function ret target vars
    complete_function ret vars body is_extern declared.0 declared.1
