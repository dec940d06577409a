-- ===== src/Codegen/Gen/Balance.antt =====
-- The stack of blocks around the code of a node without a function definition.
pub mod Rules
use th_lang.Base.{
  ℕ, String, ◌≡◌, refl, sym, subst, ap, Bool, Option, none, some, [], arith, pure, ◌>>=◌, fun_ext,
}
use th_lang.Base.Int.{ℤ}
use th_lang.Llvm.{Llvm}
use th_lang.TypeSystem.{Ptr}
use th_lang.Ast.{
  Node, int, float, string, bool, name, unop, binop, assign, call, expr_stmt, var_stmt, if_stmt,
  for_stmt, while_stmt, return_stmt, block, Nodes, nil, cons, MaybeNode, null, just,
}
use th_lang.Codegen.Context.{Context, Gen, Code}
use th_lang.Codegen.Expr.{unop_code, binop_code, assign_code, call_code}
use th_lang.Codegen.Stmt.{MaybeCode, var_code, if_code, for_code, while_code, return_code}
use th_lang.Codegen.Gen.{codegen, codegen_block, codegen_args, args_code, codegen_maybe, count}
use Rules.{
  innermost, with_innermost, settle, Settled, settle_maybe, unop_code-settle, string_code-settle,
  if_code-settle, while_code-settle, var_code-settle, name_code-settle, binop_code-settle,
  assign_code-settle, call_code-settle, args_code-settle, for_code-settle, return_code-settle,
  then_code-settle, int_code-settle, float_code-settle, bool_code-settle,
}

-- No function is defined inside the node.
mutual
  pub data IsPlain : Node → Type 0 where
    plain_int : (n : ℤ) → IsPlain (int n)
    plain_float : (bits : ℕ) → IsPlain (float bits)
    plain_string : (p : ℕ) → IsPlain (string p)
    plain_bool : (b : Bool) → IsPlain (bool b)
    plain_name : (s : String) → IsPlain (name s)
    plain_unop : (op : String) {e : Node} → IsPlain e → IsPlain (unop op e)
    plain_binop : (op : String) {l r : Node} → IsPlain l → IsPlain r → IsPlain (binop op l r)
    plain_assign : (target : Node) {e : Node} → IsPlain e → IsPlain (assign target e)
    plain_call : (target : Node) {args : Nodes} → ArePlain args → IsPlain (call target args)
    plain_expr : {e : Node} → IsPlain e → IsPlain (expr_stmt e)
    plain_var :
        (p : Ptr) (target : Node) {init : MaybeNode}
        → IsPlainMaybe init
        → IsPlain (var_stmt p target init)
    plain_if :
        {c t : Node} {e : MaybeNode}
        → IsPlain c
        → IsPlain t
        → IsPlainMaybe e
        → IsPlain (if_stmt c t e)
    plain_for :
        {i : MaybeNode} {c : Node} {s : MaybeNode} {b : Node}
        → IsPlainMaybe i
        → IsPlain c
        → IsPlainMaybe s
        → IsPlain b
        → IsPlain (for_stmt i c s b)
    plain_while : {c b : Node} → IsPlain c → IsPlain b → IsPlain (while_stmt c b)
    plain_return : {e : MaybeNode} → IsPlainMaybe e → IsPlain (return_stmt e)
    plain_block : {ns : Nodes} → ArePlain ns → IsPlain (block ns)

  pub data ArePlain : Nodes → Type 0 where
    plain_nil : ArePlain nil
    plain_cons : {n : Node} {ns : Nodes} → IsPlain n → ArePlain ns → ArePlain (cons n ns)

  pub data IsPlainMaybe : MaybeNode → Type 0 where
    plain_null : IsPlainMaybe null
    plain_just : {n : Node} → IsPlain n → IsPlainMaybe (just n)

module _ (L : Llvm) where
  abbrev SettledMaybe : MaybeCode L → Type 0
  SettledMaybe m = m ≡ settle_maybe L m

  -- What is built by `f` is settled if its parts are.
  lift :
      {A B : Type 0} (f : Gen L A → Gen L B) {m : Gen L A}
      → ((n : Gen L A) (c : Context L) → f (settle L n) c ≡ settle L (f (settle L n)) c)
      → Settled L m
      → Settled L (f m)
  lift f {m} h e = subst (λ n. Settled L (f n)) (sym e) (fun_ext λ c. h m c)

  lift_maybe :
      {B : Type 0} (f : MaybeCode L → Gen L B) {m : MaybeCode L}
      → ((n : MaybeCode L) (c : Context L)
          → f (settle_maybe L n) c ≡ settle L (f (settle_maybe L n)) c)
      → SettledMaybe m
      → Settled L (f m)
  lift_maybe f {m} h e = subst (λ n. Settled L (f n)) (sym e) (fun_ext λ c. h m c)

  lift₂ :
      {A B C : Type 0} (f : Gen L A → Gen L B → Gen L C) {m : Gen L A} {n : Gen L B}
      → ((m' : Gen L A) (n' : Gen L B) (c : Context L)
          → f (settle L m') (settle L n') c ≡ settle L (f (settle L m') (settle L n')) c)
      → Settled L m
      → Settled L n
      → Settled L (f m n)
  lift₂ f {m} {n} h e e' =
      subst (λ k. Settled L (f k n)) (sym e)
        (subst (λ k. Settled L (f (settle L m) k)) (sym e') (fun_ext λ c. h m n c))

  if_code-Settled :
      {x y : Code L} {z : MaybeCode L}
      → Settled L x
      → Settled L y
      → SettledMaybe z
      → Settled L (if_code L x y z)
  if_code-Settled {x} {y} {z} hx hy hz =
      subst (λ k. Settled L (if_code L x y k)) (sym hz)
        (lift₂ (λ m n. if_code L m n (settle_maybe L z)) (λ m n. if_code-settle L m n z) hx hy)

  for_code-Settled :
      {i : MaybeCode L} {x : Code L} {s : MaybeCode L} {b : Code L}
      → SettledMaybe i
      → Settled L x
      → SettledMaybe s
      → Settled L b
      → Settled L (for_code L i x s b)
  for_code-Settled {i} {x} {s} {b} hi hx hs hb =
      subst (λ k. Settled L (for_code L k x s b)) (sym hi)
        (subst (λ k. Settled L (for_code L (settle_maybe L i) x k b)) (sym hs)
          (lift₂ (λ m n. for_code L (settle_maybe L i) m (settle_maybe L s) n)
            (λ m n. for_code-settle L i m s n) hx hb))

  pure-settle :
      {A : Type 0} (a : A) (c : Context L) → pure {S = Context L} a c ≡ settle L (pure a) c
  pure-settle a c = ground arith

  then_code-Settled :
      (m : Code L) (f : Option L.Value → Code L)
      → Settled L m
      → ((v : Option L.Value) → Settled L (f v))
      → Settled L (m >>= f)
  then_code-Settled m f e h =
      subst (λ k. Settled L (m >>= k)) (sym (fun_ext h))
        (subst (λ k. Settled L (k >>= λ v. settle L (f v))) (sym e)
          (fun_ext λ c. then_code-settle L m f c))

  -- A settled code that returned has changed at most the innermost names.
  pub Settled-result :
      {A : Type 0} (m : Gen L A) (c c' : Context L) (a : A)
      → Settled L m
      → m c ≡ some (a, c')
      → (c'.blocks ≡ with_innermost L (innermost L c'.blocks) c.blocks) × (c'.objects ≡ c.objects)
  Settled-result m c c' a h e = let at : m c ≡ settle L m c = λ i. h i c in ground (arith, e, at)

  mutual
    unfolding codegen

    pub codegen-Settled : {n : Node} → IsPlain n → Settled L (codegen L n)
    codegen-Settled (plain_int n) = fun_ext λ c. int_code-settle L n c
    codegen-Settled (plain_float b) = fun_ext λ c. float_code-settle L b c
    codegen-Settled (plain_string p) = fun_ext λ c. string_code-settle L p c
    codegen-Settled (plain_bool b) = fun_ext λ c. bool_code-settle L b c
    codegen-Settled (plain_name s) = fun_ext λ c. name_code-settle L s c
    codegen-Settled (plain_unop op e) =
        lift (unop_code L op) (unop_code-settle L op) (codegen-Settled e)
    codegen-Settled (plain_binop op l r) =
        lift₂ (binop_code L op) (binop_code-settle L op) (codegen-Settled l) (codegen-Settled r)
    codegen-Settled (plain_assign t e) =
        lift (assign_code L t) (assign_code-settle L t) (codegen-Settled e)
    codegen-Settled (plain_call t {args} h) =
        lift (call_code L t (count args)) (call_code-settle L t (count args))
          (codegen_args-Settled h)
    codegen-Settled (plain_expr e) = codegen-Settled e
    codegen-Settled (plain_var p t h) =
        lift_maybe (var_code L p t) (var_code-settle L p t) (codegen_maybe-Settled h)
    codegen-Settled (plain_if c t e) =
        if_code-Settled (codegen-Settled c) (codegen-Settled t) (codegen_maybe-Settled e)
    codegen-Settled (plain_for i c s b) =
        for_code-Settled (codegen_maybe-Settled i) (codegen-Settled c) (codegen_maybe-Settled s)
          (codegen-Settled b)
    codegen-Settled (plain_while c b) =
        lift₂ (while_code L) (while_code-settle L) (codegen-Settled c) (codegen-Settled b)
    codegen-Settled (plain_return e) =
        lift_maybe (return_code L) (return_code-settle L) (codegen_maybe-Settled e)
    codegen-Settled (plain_block ns) = codegen_block-Settled ns L.indeterminate

    codegen_block-Settled :
        {ns : Nodes} → ArePlain ns → (v : Option L.Value) → Settled L (codegen_block L ns v)
    codegen_block-Settled plain_nil v = fun_ext λ c. pure-settle v c
    codegen_block-Settled (plain_cons {n} {ns} h hs) v =
        then_code-Settled (codegen L n) (codegen_block L ns) (codegen-Settled h)
          (codegen_block-Settled hs)

    codegen_args-Settled : {ns : Nodes} → ArePlain ns → Settled L (codegen_args L ns)
    codegen_args-Settled plain_nil = fun_ext λ c. pure-settle (some []) c
    codegen_args-Settled (plain_cons h hs) =
        lift₂ (args_code L) (args_code-settle L) (codegen-Settled h) (codegen_args-Settled hs)

    codegen_maybe-Settled : {m : MaybeNode} → IsPlainMaybe m → SettledMaybe (codegen_maybe L m)
    codegen_maybe-Settled plain_null = refl
    codegen_maybe-Settled (plain_just h) = ap some (codegen-Settled h)

  -- Code for a node in which no function is defined, if it returns, has changed the stack of
  -- blocks at most in the names of its innermost block, and made no type object.
  pub codegen-balanced :
      {n : Node} (c c' : Context L) (v : Option L.Value)
      → IsPlain n
      → codegen L n c ≡ some (v, c')
      → (c'.blocks ≡ with_innermost L (innermost L c'.blocks) c.blocks) × (c'.objects ≡ c.objects)
  codegen-balanced {n} c c' v h e = Settled-result (codegen L n) c c' v (codegen-Settled h) e
