-- ===== src/Codegen/Gen/Loop.antt =====
-- Where the builder stands behind a loop.
use th_lang.Base.{◌≡◌, ◌≢◌, Bool, true, false, Option, none, some, arith}
use th_lang.Llvm.{Llvm, Inst, ret_void}
use th_lang.Ast.{Node, MaybeNode, for_stmt, while_stmt}
use th_lang.Codegen.Context.{Context, Code}
use th_lang.Codegen.Stmt.{MaybeCode, finish_loop, for_body, for_code, while_body, while_code}
use th_lang.Codegen.Gen.{codegen, codegen_maybe}

-- What the loops rely on of LLVM's builder, as it is documented: `SetInsertPoint` sets the block
-- that `GetInsertBlock` answers, a created instruction is appended to that block, and `ret void`
-- is a terminator.
pub record IsBuilder (L : Llvm) : Type 0 where
  pub insert_block-set :
      (b : L.Block) (w : L.World) → L.insert_block (L.set_insert_point b w) ≡ some b
  pub insert_block-create :
      (i : Inst L.Value L.LType L.Block L.Func) (w : L.World)
      → L.insert_block (L.create i w).1 ≡ L.insert_block w
  pub terminator-ret_void :
      (b : L.Block) (w : L.World)
      → L.insert_block w ≡ some b
      → L.has_terminator b (L.create ret_void w).1 ≡ true

module _ (L : Llvm) where
  -- The builder stands in a block that ends in a terminator already.
  unfoldable pub is_closed : L.World → Bool
  is_closed w = elim (L.insert_block w) [ none ↦ false | some b ↦ L.has_terminator b w ]

module _ (L : Llvm) (laws : IsBuilder L) where
  finish_loop-closed :
      (after : L.Block) (c : Context L) (r : Option L.Value × Context L)
      → finish_loop L after c ≡ some r
      → is_closed L r.1.world ≡ true
  unfolding finish_loop is_closed
  finish_loop-closed after c r h =
      let w = L.set_insert_point after c.world in
      ground (
        arith,
        laws.insert_block-set after c.world,
        laws.insert_block-create ret_void w,
        laws.terminator-ret_void after w,
      )

  for_body-closed :
      (cond_block body_block iter_block after : L.Block) (increment : MaybeCode L) (body : Code L)
      → (c : Context L) (r : Option L.Value × Context L)
      → for_body L cond_block body_block iter_block after increment body c ≡ some r
      → is_closed L r.1.world ≡ true
  unfolding for_body
  for_body-closed x y z after none b c r h = grind (arith, finish_loop-closed)
  for_body-closed x y z after (some i) b c r h = grind (arith, finish_loop-closed)

  while_body-closed :
      (block after : L.Block) (f : Option L.Func) (condition body : Code L)
      → (c : Context L) (r : Option L.Value × Context L)
      → while_body L block after f condition body c ≡ some r
      → is_closed L r.1.world ≡ true
  unfolding while_body
  while_body-closed x y f condition body c r h = grind (arith, finish_loop-closed)

  for_code-closed :
      (init : MaybeCode L) (condition : Code L) (increment : MaybeCode L) (body : Code L)
      → ((c c' : Context L) → condition c ≢ some (none, c'))
      → (c : Context L) (r : Option L.Value × Context L)
      → for_code L init condition increment body c ≡ some r
      → is_closed L r.1.world ≡ true
  unfolding for_code
  for_code-closed none x i b has_value c r h = grind (arith, for_body-closed)
  for_code-closed (some n) x i b has_value c r h = grind (arith, for_body-closed)

  while_code-closed :
      (condition body : Code L)
      → ((c c' : Context L) → condition c ≢ some (none, c'))
      → (c : Context L) (r : Option L.Value × Context L) → while_code L condition body c ≡ some r
      → is_closed L r.1.world ≡ true
  unfolding while_code
  while_code-closed x b has_value c r h = grind (arith, while_body-closed)

-- The node is a loop with this condition.
pub data IsLoop (condition : Node) : Node → Type 0 where
  is_for : (i s : MaybeNode) (b : Node) → IsLoop condition (for_stmt i condition s b)
  is_while : (b : Node) → IsLoop condition (while_stmt condition b)

module _ (L : Llvm) (laws : IsBuilder L) where
  -- After the code of a loop whose condition never comes out null, the builder stands in a block
  -- that is already terminated, where whatever follows the loop is going to be appended.
  pub codegen-loop_closed :
      (condition n : Node) (c c' : Context L) (v : Option L.Value)
      → IsLoop condition n
      → ((d d' : Context L) → codegen L condition d ≢ some (none, d'))
      → codegen L n c ≡ some (v, c')
      → is_closed L c'.world ≡ true
  unfolding codegen
  codegen-loop_closed x n c c' v (is_for i s b) has_value h =
      for_code-closed L laws (codegen_maybe L i) (codegen L x) (codegen_maybe L s) (codegen L b)
        has_value c (v, c') h
  codegen-loop_closed x n c c' v (is_while b) has_value h =
      while_code-closed L laws (codegen L x) (codegen L b) has_value c (v, c') h
