-- ===== src/Parser/Shape.antt =====
-- What the actions build from an expression.
use th_lang.Base.{String, ◌≡◌, subst, length, Option, some, arith, pure, demand, ◌>>=◌, >>=-eq-some}
use th_lang.Llvm.{Llvm}
use th_lang.Ast.{int, Node, float, string, name, unop, binop, assign, call, Nodes, nil, cons}
use th_lang.Codegen.Context.{Context}
use th_lang.Codegen.Gen.{codegen}
use th_lang.Codegen.Gen.Frame.{
  IsExpr, expr_int, expr_float, expr_string, expr_name, expr_unop, expr_binop, expr_assign,
  expr_call, AreExprs, no_exprs, more_exprs, codegen-frame,
}
use th_lang.Parser.Tree.{
  Expr, num, text, real, assigned, variable, parens, by_op, by_arith, signed, called, CallArgs,
  no_args, one_arg, more_args,
}
use th_lang.Parser.Actions.{
  CLibrary, ParseState, Build, build_expr, build_call_args, push_node, new_text, op_text,
  arith_text, sign_text,
}

push_node-AreExprs : {ns : Nodes} {n : Node} → AreExprs ns → IsExpr n → AreExprs (push_node ns n)
unfolding push_node
push_node-AreExprs no_exprs h = more_exprs h no_exprs
push_node-AreExprs (more_exprs g gs) h = more_exprs g (push_node-AreExprs gs h)

module _ (lib : CLibrary) where
  -- A result, if there is one, satisfies `P`.
  abbrev Ensures : {A : Type 0} → (A → Type 0) → Build A → Type 0
  Ensures {A} P m = (st : ParseState) (a : A) (st' : ParseState) → m st ≡ some (a, st') → P a

  map-Ensures :
      {A B : Type 0} (P : A → Type 0) (Q : B → Type 0) (m : Build A) (g : A → B)
      → Ensures P m
      → ((a : A) → P a → Q (g a))
      → Ensures Q (m >>= λ a. pure (g a))
  map-Ensures P Q m g hm hg st b st' e =
      let (a, d, first, rest) = >>=-eq-some m (λ a. pure (g a)) st e in
      let same : g a ≡ b = ground (arith, rest) in subst Q same (hg a (hm st a d first))

  map₂-Ensures :
      {A B C : Type 0} (P : A → Type 0) (R : B → Type 0) (Q : C → Type 0)
      → (m : Build A) (n : Build B) (g : A → B → C) → Ensures P m
      → Ensures R n
      → ((a : A) (b : B) → P a → R b → Q (g a b))
      → Ensures Q (m >>= λ a. n >>= λ b. pure (g a b))
  map₂-Ensures P R Q m n g hm hn hg st c st' e =
      let (a, d, first, rest) = >>=-eq-some m (λ a. n >>= λ b. pure (g a b)) st e in
      map-Ensures R Q n (g a) hn (λ b h. hg a b (hm st a d first) h) d c st' rest

  pure-Ensures : {A : Type 0} (P : A → Type 0) (a : A) → P a → Ensures P (pure a)
  pure-Ensures P a h st b st' e = let same : a ≡ b = ground arith in subst P same h

  new_text-Ensures : (s : String) → Ensures IsExpr (new_text lib s)
  unfolding new_text
  new_text-Ensures s st b st' e =
      let same : string (length st.texts) ≡ b = ground arith in
      subst IsExpr same (expr_string (length st.texts))

  mutual
    unfolding build_expr

    build_expr-Ensures : (e : Expr) → Ensures IsExpr (build_expr lib e)
    build_expr-Ensures (num s) =
        map-Ensures (λ _. Unit {0}) IsExpr (demand (lib.atol s)) int (λ _ _ _ _. tt)
          (λ n _. expr_int n)
    build_expr-Ensures (text s) = new_text-Ensures s
    build_expr-Ensures (real s) =
        map-Ensures (λ _. Unit {0}) IsExpr (demand (lib.stod s)) float (λ _ _ _ _. tt)
          (λ b _. expr_float b)
    build_expr-Ensures (assigned s e) =
        map-Ensures IsExpr IsExpr (build_expr lib e) (assign (name s)) (build_expr-Ensures e)
          (λ n h. expr_assign (name s) h)
    build_expr-Ensures (variable s) = pure-Ensures IsExpr _ (expr_name s)
    build_expr-Ensures (parens e) = build_expr-Ensures e
    build_expr-Ensures (by_op l op r) =
        map₂-Ensures IsExpr IsExpr IsExpr (build_expr lib l) (build_expr lib r) (binop (op_text op))
          (build_expr-Ensures l) (build_expr-Ensures r) (λ m n hm hn. expr_binop _ hm hn)
    build_expr-Ensures (by_arith l op r) =
        map₂-Ensures IsExpr IsExpr IsExpr (build_expr lib l) (build_expr lib r)
          (binop (arith_text op)) (build_expr-Ensures l) (build_expr-Ensures r)
          (λ m n hm hn. expr_binop _ hm hn)
    build_expr-Ensures (signed op e) =
        map-Ensures IsExpr IsExpr (build_expr lib e) (unop (sign_text op)) (build_expr-Ensures e)
          (λ n h. expr_unop _ h)
    build_expr-Ensures (called s args) =
        map-Ensures AreExprs IsExpr (build_call_args lib args) (call (name s))
          (build_call_args-Ensures args) (λ ns h. expr_call (name s) h)

    build_call_args-Ensures : (args : CallArgs) → Ensures AreExprs (build_call_args lib args)
    build_call_args-Ensures no_args = pure-Ensures AreExprs _ no_exprs
    build_call_args-Ensures (one_arg e) =
        map-Ensures IsExpr AreExprs (build_expr lib e) (λ n. cons n nil) (build_expr-Ensures e)
          (λ n h. more_exprs h no_exprs)
    build_call_args-Ensures (more_args args e) =
        map₂-Ensures AreExprs IsExpr AreExprs (build_call_args lib args) (build_expr lib e)
          push_node (build_call_args-Ensures args) (build_expr-Ensures e)
          (λ ns n. push_node-AreExprs)

  -- Whatever expression is parsed, its code, if it returns, leaves the blocks with their names and
  -- the type objects as they were: the actions build expressions out of expressions alone.
  pub codegen-build_expr :
      (L : Llvm) (e : Expr) (st st' : ParseState) (n : Node) (c c' : Context L)
      → (v : Option L.Value) → build_expr lib e st ≡ some (n, st')
      → codegen L n c ≡ some (v, c')
      → (c'.blocks ≡ c.blocks) × (c'.objects ≡ c.objects)
  codegen-build_expr L e st st' n c c' v built made =
      codegen-frame L c c' v (build_expr-Ensures e st n st' built) made
