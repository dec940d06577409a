-- ===== src/Codegen/Gen/Balance/Rules.antt =====
-- The `codegen` methods, but that of functions, against the innermost block alone.
use th_lang.Base.{ℕ, String, ◌≡◌, Bool, Option, none, some, List, [], ◌∷◌, arith, ◌>>=◌, fun_ext}
use th_lang.Base.Dict.{Dict}
use th_lang.Base.Int.{ℤ}
use th_lang.Llvm.{Llvm, Binary}
use th_lang.TypeSystem.{Ptr}
use th_lang.Ast.{Node}
use th_lang.Codegen.Context.{Context, CodegenBlock, Gen, Code}
use th_lang.Codegen.Expr.{
  int_code, float_code, string_code, bool_code, name_code, unop_code, emit_binary, operate,
  binop_code, assign_code, call_code,
}
use th_lang.Codegen.Stmt.{
  MaybeCode, var_code, if_code, for_code, for_body, while_code, while_body, return_code,
  finish_loop,
}
use th_lang.Codegen.Gen.{args_code}

module _ (L : Llvm) where
  abbrev pub innermost : List (CodegenBlock L) → Dict (Ptr × L.Value)
  innermost [] = []
  innermost (b ∷ blocks) = b.locals

  abbrev pub with_innermost : Dict (Ptr × L.Value) → List (CodegenBlock L) → List (CodegenBlock L)
  with_innermost locals [] = []
  with_innermost locals (b ∷ blocks) = record b { locals = locals } ∷ blocks

  -- The code `m`, made to change at most the names of the innermost block.
  abbrev pub settle : {A : Type 0} → Gen L A → Gen L A
  settle m c = elim (m c) [
    | none ↦ none
    | some (a, c') ↦ some (
      a,
      record c' { blocks = with_innermost (innermost c'.blocks) c.blocks; objects = c.objects },
    )
  ]

  abbrev pub Settled : {A : Type 0} → Gen L A → Type 0
  Settled m = m ≡ settle m

  abbrev pub settle_maybe : MaybeCode L → MaybeCode L
  settle_maybe none = none
  settle_maybe (some m) = some (settle m)

  pub unop_code-settle :
      (op : String) (m : Code L) (c : Context L)
      → unop_code L op (settle m) c ≡ settle (unop_code L op (settle m)) c
  unfolding unop_code
  unop_code-settle op m c = ground arith

  pub string_code-settle : (p : ℕ) (c : Context L) → string_code L p c ≡ settle (string_code L p) c
  unfolding string_code
  string_code-settle p c = ground arith

  pub if_code-settle :
      (x y : Code L) (z : MaybeCode L) (c : Context L)
      → if_code L (settle x) (settle y) (settle_maybe z) c
        ≡ settle (if_code L (settle x) (settle y) (settle_maybe z)) c
  unfolding if_code
  if_code-settle x y none c = ground arith
  if_code-settle x y (some z) c = ground arith

  pub while_code-settle :
      (x y : Code L) (c : Context L)
      → while_code L (settle x) (settle y) c ≡ settle (while_code L (settle x) (settle y)) c
  unfolding while_code while_body finish_loop
  while_code-settle x y c = ground arith

  pub var_code-settle :
      (p : Ptr) (t : Node) (z : MaybeCode L) (c : Context L)
      → var_code L p t (settle_maybe z) c ≡ settle (var_code L p t (settle_maybe z)) c
  unfolding var_code
  var_code-settle x y none c = ground arith
  var_code-settle x y (some z) c = ground arith

  pub name_code-settle : (s : String) (c : Context L) → name_code L s c ≡ settle (name_code L s) c
  unfolding name_code
  name_code-settle s c = ground arith

  pub emit_binary-settle :
      (i : Option (Binary × String)) (l r : L.Value) (c : Context L)
      → emit_binary L i l r c ≡ settle (emit_binary L i l r) c
  unfolding emit_binary
  emit_binary-settle none l r c = ground arith
  emit_binary-settle (some i) l r c = ground arith

  pub operate-settle :
      (op : String) (l r : Option L.Value) (c : Context L)
      → operate L op l r c ≡ settle (operate L op l r) c
  unfolding operate
  operate-settle op none r c = ground arith
  operate-settle op (some l) none c = ground arith
  operate-settle op (some l) (some r) c = emit_binary-settle _ l r c

  operate-Settled : (op : String) → operate L op ≡ (λ l r. settle (operate L op l r))
  operate-Settled op = fun_ext λ l. fun_ext λ r. fun_ext λ c. operate-settle op l r c

  pub binop_code-settle :
      (op : String) (m n : Code L) (c : Context L)
      → binop_code L op (settle m) (settle n) c ≡ settle (binop_code L op (settle m) (settle n)) c
  unfolding binop_code
  binop_code-settle op m n c = rw (operate-Settled op) (ground arith)

  pub assign_code-settle :
      (t : Node) (m : Code L) (c : Context L)
      → assign_code L t (settle m) c ≡ settle (assign_code L t (settle m)) c
  unfolding assign_code
  assign_code-settle op m c = ground arith

  pub call_code-settle :
      (t : Node) (k : ℕ) (m : Gen L (Option (List L.Value))) (c : Context L)
      → call_code L t k (settle m) c ≡ settle (call_code L t k (settle m)) c
  unfolding call_code
  call_code-settle t k m c = ground arith

  pub args_code-settle :
      (m : Code L) (n : Gen L (Option (List L.Value))) (c : Context L)
      → args_code L (settle m) (settle n) c ≡ settle (args_code L (settle m) (settle n)) c
  unfolding args_code
  args_code-settle m n c = ground arith

  pub for_code-settle :
      (i : MaybeCode L) (x : Code L) (s : MaybeCode L) (b : Code L) (c : Context L)
      → for_code L (settle_maybe i) (settle x) (settle_maybe s) (settle b) c
        ≡ settle (for_code L (settle_maybe i) (settle x) (settle_maybe s) (settle b)) c
  unfolding for_code for_body finish_loop
  for_code-settle none x none b c = ground arith
  for_code-settle none x (some s) b c = ground arith
  for_code-settle (some i) x none b c = ground arith
  for_code-settle (some i) x (some s) b c = ground arith

  pub return_code-settle :
      (z : MaybeCode L) (c : Context L)
      → return_code L (settle_maybe z) c ≡ settle (return_code L (settle_maybe z)) c
  unfolding return_code
  return_code-settle none c = ground arith
  return_code-settle (some z) c = ground arith

  pub then_code-settle :
      (m : Code L) (n : Option L.Value → Code L) (c : Context L)
      → (settle m >>= λ v. settle (n v)) c ≡ settle (settle m >>= λ v. settle (n v)) c
  then_code-settle m n c = ground arith

  pub int_code-settle : (n : ℤ) (c : Context L) → int_code L n c ≡ settle (int_code L n) c
  unfolding int_code
  int_code-settle n c = ground arith

  pub float_code-settle : (b : ℕ) (c : Context L) → float_code L b c ≡ settle (float_code L b) c
  unfolding float_code
  float_code-settle n c = ground arith

  pub bool_code-settle : (b : Bool) (c : Context L) → bool_code L b c ≡ settle (bool_code L b) c
  unfolding bool_code
  bool_code-settle n c = ground arith
