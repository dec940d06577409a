-- ===== src/Codegen/Gen/Null.antt =====
-- Which nodes never give a value, and what `IfStmtAst::codegen` makes of that.
use th_lang.Base.{◌≡◌, refl, Bool, Option, none, some, arith, pure, ◌>>=◌, fun_ext}
use th_lang.Llvm.{Llvm}
use th_lang.Ast.{
  Node, bool, expr_stmt, if_stmt, for_stmt, while_stmt, return_stmt, block, Nodes, nil, cons,
  MaybeNode, null,
}
use th_lang.Codegen.Context.{Context, Gen, Code}
use th_lang.Codegen.Expr.{bool_code}
use th_lang.Codegen.Stmt.{
  MaybeCode, if_code, else_code, for_code, for_body, while_code, while_body, return_code,
  finish_loop,
}
use th_lang.Codegen.Gen.{codegen, codegen_block, codegen_maybe}

-- The node, or the last statement of the block, is one of those that return a null pointer.
mutual
  pub data EndsNull : Node → Type 0 where
    ends_if : (c t : Node) (e : MaybeNode) → EndsNull (if_stmt c t e)
    ends_for : (i : MaybeNode) (c : Node) (s : MaybeNode) (b : Node) → EndsNull (for_stmt i c s b)
    ends_while : (c b : Node) → EndsNull (while_stmt c b)
    ends_return : EndsNull (return_stmt null)
    ends_bool : (b : Bool) → EndsNull (bool b)
    ends_expr : {e : Node} → EndsNull e → EndsNull (expr_stmt e)
    ends_block : {ns : Nodes} → LastEndsNull ns → EndsNull (block ns)

  pub data LastEndsNull : Nodes → Type 0 where
    last : {n : Node} → EndsNull n → LastEndsNull (cons n nil)
    later : {n : Node} {ns : Nodes} → LastEndsNull ns → LastEndsNull (cons n ns)

module _ (L : Llvm) where
  -- A crash, or a null value.
  abbrev pub NullResult : Option (Option L.Value × Context L) → Type 0
  NullResult none = Unit
  NullResult (some (none, c)) = Unit
  NullResult (some (some v, c)) = ⊥

  abbrev pub IsNull : Code L → Type 0
  IsNull m = (c : Context L) → NullResult (m c)

  bind-NullResult :
      {A : Type 0} (o : Option (A × Context L)) (f : A → Code L)
      → ((a : A) → IsNull (f a))
      → NullResult (elim o [ none ↦ none | some (a, c) ↦ f a c ])
  bind-NullResult none f h = tt
  bind-NullResult (some (a, c)) f h = h a c

  -- What follows decides: if every continuation is null, the whole is.
  bind-IsNull :
      {A : Type 0} (m : Gen L A) (f : A → Code L) → ((a : A) → IsNull (f a)) → IsNull (m >>= f)
  bind-IsNull m f h c = bind-NullResult (m c) f h

  else_code-IsNull :
      (e m : L.Block) (f : Option L.Func) (otherwise : MaybeCode L)
      → IsNull (else_code L e m f otherwise)
  unfolding else_code
  else_code-IsNull e m f none c = ground arith
  else_code-IsNull e m f (some o) c = ground arith

  if_code-IsNull :
      (condition then_ : Code L) (otherwise : MaybeCode L)
      → IsNull (if_code L condition then_ otherwise)
  unfolding if_code
  if_code-IsNull condition then_ none c = ground arith
  if_code-IsNull condition then_ (some o) c = ground arith

  while_code-IsNull : (condition body : Code L) → IsNull (while_code L condition body)
  unfolding while_code while_body finish_loop
  while_code-IsNull condition body c = ground arith

  for_code-IsNull :
      (i : MaybeCode L) (condition : Code L) (s : MaybeCode L) (body : Code L)
      → IsNull (for_code L i condition s body)
  unfolding for_code for_body finish_loop
  for_code-IsNull none condition s body c = ground arith
  for_code-IsNull (some i) condition s body c = ground arith

  return_code-IsNull : IsNull (return_code L none)
  unfolding return_code
  return_code-IsNull c = ground arith

  bool_code-IsNull : (b : Bool) → IsNull (bool_code L b)
  unfolding bool_code
  bool_code-IsNull b c = tt

  mutual
    unfolding codegen

    -- A node that ends in an `if`, a loop or a bare `return` gives no value, whatever the state.
    pub codegen-IsNull : {n : Node} → EndsNull n → IsNull (codegen L n)
    codegen-IsNull (ends_if c t e) = if_code-IsNull (codegen L c) (codegen L t) (codegen_maybe L e)
    codegen-IsNull (ends_for i c s b) =
        for_code-IsNull (codegen_maybe L i) (codegen L c) (codegen_maybe L s) (codegen L b)
    codegen-IsNull (ends_while c b) = while_code-IsNull (codegen L c) (codegen L b)
    codegen-IsNull ends_return = return_code-IsNull
    codegen-IsNull (ends_bool b) = bool_code-IsNull b
    codegen-IsNull (ends_expr e) = codegen-IsNull e
    codegen-IsNull (ends_block ns) = codegen_block-IsNull ns L.indeterminate

    codegen_block-IsNull :
        {ns : Nodes} → LastEndsNull ns → (v : Option L.Value) → IsNull (codegen_block L ns v)
    codegen_block-IsNull (last {n} e) v c = ground (arith, codegen-IsNull e c)
    codegen_block-IsNull (later {n} {ns} e) v c =
        bind-IsNull (codegen L n) (codegen_block L ns) (λ w. codegen_block-IsNull e w) c

  -- Code without a value is code that answers null.
  discard :
      (o : Option (Option L.Value × Context L))
      → NullResult o
      → o ≡ (elim o [ none ↦ none | some (v, c) ↦ some (none, c) ])
  discard none h = refl
  discard (some (none, c)) h = refl
  discard (some (some v, c)) h = absurd h

  discard_code : (m : Code L) → IsNull m → m ≡ (m >>= λ v. pure none)
  discard_code m h = fun_ext λ c. discard (m c) (h c)

  if_code-discard :
      (condition then_ : Code L) (e e' : MaybeCode L) (c : Context L)
      → if_code L condition (then_ >>= λ v. pure none) e c
        ≡ if_code L condition (then_ >>= λ v. pure none) e' c
  unfolding if_code
  if_code-discard condition then_ e e' c = ground arith

  -- If the then part ends in a node without a value, the code of an `if` does not depend on its
  -- else part, which is never generated.
  pub codegen-else_ignored :
      (c t : Node) (e e' : MaybeNode) (s : Context L)
      → EndsNull t
      → codegen L (if_stmt c t e) s ≡ codegen L (if_stmt c t e') s
  unfolding codegen
  codegen-else_ignored c t e e' s h =
      rw (discard_code (codegen L t) (codegen-IsNull h))
        (if_code-discard (codegen L c) (codegen L t) (codegen_maybe L e) (codegen_maybe L e') s)
