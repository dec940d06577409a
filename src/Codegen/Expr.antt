-- ===== src/Codegen/Expr.antt =====
-- The `codegen` methods of the expressions, over the code of their operands.
use th_lang.Base.{
  ℕ, String, ◌<>◌, ◌==◌, str_eq, Bool, true, false, ◌||◌, Option, none, some, List, [], ◌∷◌,
  get_elem?, set, if◌then◌else◌, pure, crash, demand, ◌>>=◌, ◌>>◌, read, modify,
}
use th_lang.Base.Int.{ℤ, pos}
use th_lang.Llvm.{
  Llvm, Binary, add, fadd, sub, fsub, mul, fmul, sdiv, fdiv, and_, or_, xor_, shl, ashr, icmp_ult,
  icmp_sle, icmp_sge, icmp_sgt, icmp_eq, icmp_ne, global_string, load, store, binary, call,
}
use th_lang.Ast.{Node, name}
use th_lang.Codegen.Context.{Gen, Code, log_error, getvalue, create, lower_type, type_name_at}

-- `static_cast<NameAst*>(node)->name`; the cast of any other node is undefined.
unfoldable pub as_name : Node → Option String
as_name (name s) = some s
as_name _ = none

-- `value.erase(0, 1)`
unfoldable pub erase_first : List ℕ → List ℕ
erase_first [] = []
erase_first (x ∷ xs) = xs

-- `value.pop_back()`, undefined for the empty string.
unfoldable pub pop_back : List ℕ → Option (List ℕ)
pop_back [] = none
pop_back (x ∷ []) = some []
pop_back (x ∷ y ∷ xs) = elim (pop_back (y ∷ xs)) [ some ys ↦ some (x ∷ ys) | none ↦ none ]

-- What a `StringAst` does to its own value.
unfoldable pub strip_quotes : List ℕ → Option (List ℕ)
unfolding erase_first pop_back
strip_quotes value = pop_back (erase_first value)

-- The instruction for an operator, given whether an operand is a floating-point value; `none` is
-- the last `else`.
unfoldable pub instruction : String → Bool → Option (Binary × String)
instruction op floating =
    if str_eq op "+"
    then some (if floating then fadd else add, "addtmp")
    else if str_eq op "-"
    then some (if floating then fsub else sub, "subtmp")
    else if str_eq op "*"
    then some (if floating then fmul else mul, "multmp")
    else if str_eq op "/"
    then some (if floating then fdiv else sdiv, "divtmp")
    else if str_eq op "&" || str_eq op "且"
    then some (and_, "andtmp")
    else if str_eq op "||" || str_eq op "或"
    then some (or_, "ortmp")
    else if str_eq op "^"
    then some (xor_, "xortmp")
    else if str_eq op "<<"
    then some (shl, "shltmp")
    else if str_eq op ">>"
    then some (ashr, "ashrtmp")
    else if str_eq op "<"
    then some (icmp_ult, "cmptmp")
    else if str_eq op "<="
    then some (icmp_sle, "cmptmp")
    else if str_eq op ">="
    then some (icmp_sge, "cmptmp")
    else if str_eq op ">"
    then some (icmp_sgt, "cmptmp")
    else if str_eq op "=="
    then some (icmp_eq, "cmptmp")
    else if str_eq op "!="
    then some (icmp_ne, "cmptmp")
    else none

module _ (L : Llvm) where
  -- `IntAst::codegen`
  unfoldable pub int_code : ℤ → Code L
  int_code n = pure (some (L.const_int (L.int_ty 32) n true))

  -- `FloatAst::codegen`
  unfoldable pub float_code : ℕ → Code L
  float_code bits = pure (some (L.const_fp L.double_ty bits))

  -- `StringAst::codegen`: strips its own value, then makes a global of what is left.
  unfoldable pub string_code : ℕ → Code L
  unfolding strip_quotes create
  string_code p = do
    value ← read (λ c. get_elem? c.texts p)
    text ← demand value
    stripped ← demand (strip_quotes text)
    modify (λ c. record c { texts = set c.texts p stripped })
    v ← create L (global_string stripped)
    pure (some v)

  -- `BoolAst::codegen`
  unfoldable pub bool_code : Bool → Code L
  bool_code b = pure none

  -- `NameAst::codegen`. For a name without a value it logs, and then reads the type through a null
  -- pointer.
  unfoldable pub name_code : String → Code L
  unfolding getvalue type_name_at lower_type create
  name_code s = do
    found ← getvalue L s
    elim found [
      | none ↦ crash
      | some (p, v) ↦ do
        t ← type_name_at L p
        if str_eq t "函数"
            then pure (some v)
            else (do τ ← lower_type L p; loaded ← create L (load τ v); pure (some loaded))
    ]

  -- A `Create…` call with two operands, whose types must be those that the instruction takes.
  unfoldable pub create_binary : Binary → L.Value → L.Value → String → Gen L L.Value
  unfolding create
  create_binary i l r temporary =
      if L.takes i (L.type_of l) (L.type_of r) then create L (binary i l r temporary) else crash

  -- `UnOpAst::codegen`; for any operator but `-` and `+` control flows off its end.
  unfoldable pub unop_code : String → Code L → Code L
  unfolding create_binary
  unop_code op operand = do
    e ← operand
    elim e [
      | none ↦ pure none
      | some v ↦
          if str_eq op "-"
          then (do
            r ← create_binary sub (L.const_int (L.int_ty 32) (pos 0) false) v "subtemp"
            pure (some r))
          else if str_eq op "+"
          then pure (some v)
          else crash
    ]

  -- The `Create…` call for an operator, or the error where there is none.
  unfoldable pub emit_binary : Option (Binary × String) → L.Value → L.Value → Code L
  unfolding create_binary log_error
  emit_binary (some (i, temporary)) l r = do v ← create_binary i l r temporary; pure (some v)
  emit_binary none l r = log_error L "符号不存在"

  -- The part of `BinOpAst::codegen` behind the operands.
  unfoldable pub operate : String → Option L.Value → Option L.Value → Code L
  operate op (some l) (some r) =
      emit_binary (instruction op (L.is_floating (L.type_of l) || L.is_floating (L.type_of r))) l r
  operate op none r = pure none
  operate op (some l) none = pure none

  -- `BinOpAst::codegen`: both operands are generated before either is looked at.
  unfoldable pub binop_code : String → Code L → Code L → Code L
  binop_code op left right = do l ← left; r ← right; operate op l r

  -- `AssignAst::codegen`
  unfoldable pub assign_code : Node → Code L → Code L
  unfolding as_name getvalue log_error create
  assign_code target expr = do
    s ← demand (as_name target)
    found ← getvalue L s
    elim found [
      | none ↦ log_error L ("未定义的标识符: " <> s)
      | some (p, dst) ↦ do
        e ← expr
        elim e [
          | none ↦ log_error L "表达式生成失败"
          | some v ↦ do stored ← create L (store v dst); pure (some dst)
        ]
    ]

  -- The callee of `CallExprAst::codegen`: the module's function of that name, or what the name is
  -- bound to, whose type is read before the null check. `none` after an error.
  unfoldable pub callee : String → Gen L (Option L.Func)
  unfolding getvalue type_name_at log_error
  callee s = do
    direct ← read (λ c. L.get_function s c.world)
    elim direct [
      | some f ↦ pure (some f)
      | none ↦ do
        found ← getvalue L s
        elim found [
          | none ↦ crash
          | some (p, v) ↦ do
            t ← type_name_at L p
            if str_eq t "函数"
                then elim (L.as_function v) [
                  | some f ↦ pure (some f)
                  | none ↦ do e ← log_error L ("符号 " <> s <> " 不是函数"); pure none
                ]
                else (do e ← log_error L "无法调用非函数类型的符号"; pure none)
        ]
    ]

  -- `CallExprAst::codegen`, given the number of arguments and their code, which is `none` from the
  -- first argument that has no value.
  unfoldable pub call_code : Node → ℕ → Gen L (Option (List L.Value)) → Code L
  unfolding as_name callee log_error create
  call_code target count arguments = do
    s ← demand (as_name target)
    found ← callee s
    elim found [
      | none ↦ pure none
      | some f ↦
          if L.arg_size f == count
          then (do
            args ← arguments
            elim args [
              | none ↦ pure none
              | some vs ↦ do v ← create L (call f vs "calltmp"); pure (some v)
            ])
          else log_error L "参数数量不匹配"
    ]
