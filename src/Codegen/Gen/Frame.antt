-- ===== src/Codegen/Gen/Frame.antt =====
-- What the code of expressions does to the stack of blocks and the store of types.
use th_lang.Base.{ℕ, String, ◌≡◌, refl, sym, subst, Bool, Option, none, some, List, arith, fun_ext}
use th_lang.Base.Int.{ℤ}
use th_lang.Llvm.{Llvm, Binary}
use th_lang.Ast.{
  Node, int, float, string, bool, name, unop, binop, assign, call, expr_stmt, Nodes, nil, cons,
}
use th_lang.Codegen.Context.{Context, Gen, Code}
use th_lang.Codegen.Expr.{
  int_code, float_code, string_code, bool_code, name_code, unop_code, emit_binary, operate,
  binop_code, assign_code, call_code,
}
use th_lang.Codegen.Gen.{codegen, codegen_args, args_code, count}

-- The expressions, and the statements that are expressions.
mutual
  pub data IsExpr : Node → Type 0 where
    expr_int : (n : ℤ) → IsExpr (int n)
    expr_float : (bits : ℕ) → IsExpr (float bits)
    expr_string : (p : ℕ) → IsExpr (string p)
    expr_bool : (b : Bool) → IsExpr (bool b)
    expr_name : (s : String) → IsExpr (name s)
    expr_unop : (op : String) {e : Node} → IsExpr e → IsExpr (unop op e)
    expr_binop : (op : String) {l r : Node} → IsExpr l → IsExpr r → IsExpr (binop op l r)
    expr_assign : (target : Node) {e : Node} → IsExpr e → IsExpr (assign target e)
    expr_call : (target : Node) {args : Nodes} → AreExprs args → IsExpr (call target args)
    expr_stmt_ : {e : Node} → IsExpr e → IsExpr (expr_stmt e)

  pub data AreExprs : Nodes → Type 0 where
    no_exprs : AreExprs nil
    more_exprs : {n : Node} {ns : Nodes} → IsExpr n → AreExprs ns → AreExprs (cons n ns)

module _ (L : Llvm) where
  -- The code `m`, made to leave the blocks and the type objects as they were.
  abbrev pub frame : {A : Type 0} → Gen L A → Gen L A
  frame m c = elim (m c) [
    | none ↦ none
    | some (a, c') ↦ some (a, record c' { blocks = c.blocks; objects = c.objects })
  ]

  -- `m` does so by itself.
  abbrev pub Framed : {A : Type 0} → Gen L A → Type 0
  Framed m = m ≡ frame m

  frame-result :
      {A : Type 0} (m : Gen L A) (c c' : Context L) (a : A)
      → Framed m
      → m c ≡ some (a, c')
      → (c'.blocks ≡ c.blocks) × (c'.objects ≡ c.objects)
  frame-result m c c' a h e = let at : m c ≡ frame m c = λ i. h i c in ground (arith, e, at)

  int_code-frame : (n : ℤ) (c : Context L) → int_code L n c ≡ frame (int_code L n) c
  unfolding int_code
  int_code-frame n c = refl

  float_code-frame : (b : ℕ) (c : Context L) → float_code L b c ≡ frame (float_code L b) c
  unfolding float_code
  float_code-frame n c = refl

  bool_code-frame : (b : Bool) (c : Context L) → bool_code L b c ≡ frame (bool_code L b) c
  unfolding bool_code
  bool_code-frame n c = refl

  unop_code-frame :
      (op : String) (m : Code L) (c : Context L)
      → unop_code L op (frame m) c ≡ frame (unop_code L op (frame m)) c
  unfolding unop_code
  unop_code-frame op m c = ground arith

  string_code-frame : (p : ℕ) (c : Context L) → string_code L p c ≡ frame (string_code L p) c
  unfolding string_code
  string_code-frame p c = ground arith

  name_code-frame : (p : String) (c : Context L) → name_code L p c ≡ frame (name_code L p) c
  unfolding name_code
  name_code-frame p c = ground arith

  emit_binary-frame :
      (i : Option (Binary × String)) (l r : L.Value) (c : Context L)
      → emit_binary L i l r c ≡ frame (emit_binary L i l r) c
  unfolding emit_binary
  emit_binary-frame none l r c = refl
  emit_binary-frame (some (i, temporary)) l r c = ground arith

  operate-frame :
      (op : String) (l r : Option L.Value) (c : Context L)
      → operate L op l r c ≡ frame (operate L op l r) c
  unfolding operate
  operate-frame op none r c = refl
  operate-frame op (some l) none c = refl
  operate-frame op (some l) (some r) c = emit_binary-frame _ l r c

  operate-Framed : (op : String) → operate L op ≡ (λ l r. frame (operate L op l r))
  operate-Framed op = fun_ext λ l. fun_ext λ r. fun_ext λ c. operate-frame op l r c

  binop_code-frame :
      (op : String) (m n : Code L) (c : Context L)
      → binop_code L op (frame m) (frame n) c ≡ frame (binop_code L op (frame m) (frame n)) c
  unfolding binop_code
  binop_code-frame op m n c = rw (operate-Framed op) (ground arith)

  assign_code-frame :
      (t : Node) (m : Code L) (c : Context L)
      → assign_code L t (frame m) c ≡ frame (assign_code L t (frame m)) c
  unfolding assign_code
  assign_code-frame op m c = ground arith

  call_code-frame :
      (t : Node) (k : ℕ) (m : Gen L (Option (List L.Value))) (c : Context L)
      → call_code L t k (frame m) c ≡ frame (call_code L t k (frame m)) c
  unfolding call_code
  call_code-frame t k m c = ground arith

  args_code-frame :
      (m : Code L) (n : Gen L (Option (List L.Value))) (c : Context L)
      → args_code L (frame m) (frame n) c ≡ frame (args_code L (frame m) (frame n)) c
  unfolding args_code
  args_code-frame m n c = ground arith

  -- A clause of the proofs below: the parts are framed, and so is what is built of them.
  lift_frame :
      {A B : Type 0} (f : Gen L A → Gen L B) {m : Gen L A}
      → ((n : Gen L A) (c : Context L) → f (frame n) c ≡ frame (f (frame n)) c)
      → Framed m
      → Framed (f m)
  lift_frame f {m} h e = subst (λ n. Framed (f n)) (sym e) (fun_ext λ c. h m c)

  lift_frame₂ :
      {A B C : Type 0} (f : Gen L A → Gen L B → Gen L C) {m : Gen L A} {n : Gen L B}
      → ((m' : Gen L A) (n' : Gen L B) (c : Context L)
          → f (frame m') (frame n') c ≡ frame (f (frame m') (frame n')) c)
      → Framed m
      → Framed n
      → Framed (f m n)
  lift_frame₂ f {m} {n} h e e' =
      subst (λ k. Framed (f k n)) (sym e)
        (subst (λ k. Framed (f (frame m) k)) (sym e') (fun_ext λ c. h m n c))

  mutual
    unfolding codegen

    codegen-Framed : {n : Node} → IsExpr n → Framed (codegen L n)
    codegen-Framed (expr_int n) = fun_ext λ c. int_code-frame n c
    codegen-Framed (expr_float b) = fun_ext λ c. float_code-frame b c
    codegen-Framed (expr_string p) = fun_ext λ c. string_code-frame p c
    codegen-Framed (expr_bool b) = fun_ext λ c. bool_code-frame b c
    codegen-Framed (expr_name s) = fun_ext λ c. name_code-frame s c
    codegen-Framed (expr_unop op e) =
        lift_frame (unop_code L op) (unop_code-frame op) (codegen-Framed e)
    codegen-Framed (expr_binop op l r) =
        lift_frame₂ (binop_code L op) (binop_code-frame op) (codegen-Framed l) (codegen-Framed r)
    codegen-Framed (expr_assign t e) =
        lift_frame (assign_code L t) (assign_code-frame t) (codegen-Framed e)
    codegen-Framed (expr_call t {args} h) =
        lift_frame (call_code L t (count args)) (call_code-frame t (count args))
          (codegen_args-Framed h)
    codegen-Framed (expr_stmt_ e) = codegen-Framed e

    codegen_args-Framed : {ns : Nodes} → AreExprs ns → Framed (codegen_args L ns)
    codegen_args-Framed no_exprs = refl
    codegen_args-Framed (more_exprs h hs) =
        lift_frame₂ (args_code L) args_code-frame (codegen-Framed h) (codegen_args-Framed hs)

  -- Code for an expression that is returned leaves the blocks, their names and the type objects
  -- exactly as they were.
  pub codegen-frame :
      {n : Node} (c c' : Context L) (v : Option L.Value)
      → IsExpr n
      → codegen L n c ≡ some (v, c')
      → (c'.blocks ≡ c.blocks) × (c'.objects ≡ c.objects)
  codegen-frame {n} c c' v h e = frame-result (codegen L n) c c' v (codegen-Framed h) e
