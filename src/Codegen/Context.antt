-- ===== src/Codegen/Context.antt =====
-- `CodeGenContext`: the stack of `CodeGenBlock`s with their names, and the actions on it.
pub mod Laws
use th_lang.Base.{
  ℕ, String, Bool, true, false, Option, none, some, List, [], ◌∷◌, ◌++◌, get_elem?, length,
  Stateful, pure, crash, demand, ◌>>=◌, ◌>>◌, read, modify,
}
use th_lang.Base.Dict.{Dict, lookup, insert}
use th_lang.Llvm.{Llvm, Inst}
use th_lang.TypeSystem.{Ptr, ThType, type_name}
use th_lang.TypeSystem.Lowering.{get_llvm_type}

module _ (L : Llvm) where
  -- `_Symbol`
  abbrev pub NamedValue : Type 0
  NamedValue = Ptr × L.Value

  -- A `CodeGenBlock`; nothing reads its `returnValue` or `isFuncArg`.
  pub record CodegenBlock : Type 0 where
    pub block : L.Block
    pub locals : Dict (Ptr × L.Value)

  -- `blocks` has the innermost (`blocks.back()`) first. `texts` are the bytes of the `StringAst`s'
  -- values, `objects` the type objects made so far, and `errors` what `LogError` has written.
  pub record Context : Type 0 where
    pub world : L.World
    pub blocks : List CodegenBlock
    pub objects : List ThType
    pub texts : List (List ℕ)
    pub errors : List String

  abbrev pub Gen : Type 0 → Type 0
  Gen A = Stateful Context A

  -- The result of a `codegen`: an `llvm::Value*`, which may be null.
  abbrev pub Code : Type 0
  Code = Gen (Option L.Value)

  -- `LogError`
  unfoldable pub log_error : String → Code
  log_error text c = some (none, record c { errors = c.errors ++ text ∷ [] })

  -- `getvalue`: from the innermost block outwards; `none` is the pair of null pointers.
  unfoldable pub find_value : String → List CodegenBlock → Option NamedValue
  find_value name [] = none
  find_value name (b ∷ blocks) = elim (lookup name b.locals) [
    | some v ↦ some v
    | none ↦ find_value name blocks
  ]

  unfoldable pub getvalue : String → Gen (Option NamedValue)
  getvalue name = read (λ c. find_value name c.blocks)

  unfoldable pub bind_local : String → NamedValue → CodegenBlock → CodegenBlock
  bind_local name v b = record b { locals = insert name v b.locals }

  -- `setvalue`: into `blocks.back()`, which must be there.
  unfoldable pub set_innermost :
      String → NamedValue → List CodegenBlock → Option (List CodegenBlock)
  unfolding bind_local
  set_innermost name v [] = none
  set_innermost name v (b ∷ blocks) = some (bind_local name v b ∷ blocks)

  unfoldable pub setvalue : String → NamedValue → Gen (Unit {0})
  unfolding set_innermost
  setvalue name v c = elim (set_innermost name v c.blocks) [
    | some blocks ↦ some (tt, record c { blocks = blocks })
    | none ↦ none
  ]

  -- `setglobal`: into `blocks[0]`, the outermost, which must be there.
  unfoldable pub set_outermost :
      String → NamedValue → List CodegenBlock → Option (List CodegenBlock)
  unfolding bind_local
  set_outermost name v [] = none
  set_outermost name v (b ∷ []) = some (bind_local name v b ∷ [])
  set_outermost name v (b ∷ b' ∷ blocks) = elim (set_outermost name v (b' ∷ blocks)) [
    | some rest ↦ some (b ∷ rest)
    | none ↦ none
  ]

  unfoldable pub setglobal : String → NamedValue → Gen (Unit {0})
  unfolding set_outermost
  setglobal name v c = elim (set_outermost name v c.blocks) [
    | some blocks ↦ some (tt, record c { blocks = blocks })
    | none ↦ none
  ]

  -- `pushBlock` and `popBlock`
  unfoldable pub push_block : L.Block → Gen (Unit {0})
  push_block b c = some (
    tt,
    record c {
      blocks = record { block = b; locals = [] } ∷ c.blocks;
      world = L.set_insert_point b c.world;
    },
  )

  unfoldable pub drop_block : List CodegenBlock → Option (List CodegenBlock)
  drop_block [] = none
  drop_block (b ∷ blocks) = some blocks

  unfoldable pub pop_block : Gen (Unit {0})
  unfolding drop_block
  pop_block c = elim (drop_block c.blocks) [
    | some blocks ↦ some (tt, record c { blocks = blocks })
    | none ↦ none
  ]

  -- Calls into LLVM.
  unfoldable pub create : Inst L.Value L.LType L.Block L.Func → Gen L.Value
  create i c = let (v, w) = L.create i c.world in some (v, record c { world = w })

  unfoldable pub on_world : (L.World → L.World) → Gen (Unit {0})
  on_world f = modify (λ c. record c { world = f c.world })

  unfoldable pub create_block : String → Option L.Func → Gen L.Block
  create_block name f c =
      let (b, w) = L.create_block name f c.world in some (b, record c { world = w })

  -- `builder.GetInsertBlock()->getParent()`
  unfoldable pub current_function : Gen (Option L.Func)
  current_function c = elim (L.insert_block c.world) [
    | some b ↦ some (L.parent b c.world, c)
    | none ↦ none
  ]

  -- `builder.GetInsertBlock()->getTerminator()`, as a test.
  unfoldable pub is_terminated : Gen Bool
  is_terminated c = elim (L.insert_block c.world) [
    | some b ↦ some (L.has_terminator b c.world, c)
    | none ↦ none
  ]

  -- `typeSystem.get_llvm_type(type)` where the caller needs a type that is not null.
  unfoldable pub lower_type : Ptr → Gen L.LType
  lower_type p c = elim (get_llvm_type L c.objects p c.world) [
    | some (some τ, w) ↦ some (τ, record c { world = w })
    | _ ↦ none
  ]

  -- `type->type_name`
  unfoldable pub type_name_at : Ptr → Gen String
  type_name_at p c = elim (get_elem? c.objects p) [ some t ↦ some (type_name t, c) | none ↦ none ]

  -- `new`, for a type object.
  unfoldable pub new_object : ThType → Gen Ptr
  new_object t c = some (length c.objects, record c { objects = c.objects ++ t ∷ [] })
