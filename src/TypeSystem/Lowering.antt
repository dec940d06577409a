-- ===== src/TypeSystem/Lowering.antt =====
-- `get_llvm_type`: the dispatch on a type object, down its pointers. The recursion takes fuel; a
-- pointer leads only to older objects, so an address bounds the depth.
pub mod Total
pub mod Ordered
use th_lang.Base.{
  ℕ, zero, suc, String, Option, none, some, List, [], ◌∷◌, get_elem?, str_eq, if◌then◌else◌,
  Stateful, ◌>>=◌, pure, crash, demand,
}
use th_lang.Llvm.{Llvm}
use th_lang.TypeSystem.{Ptr, ThType, base, function, class}

module _ (L : Llvm) where
  -- `Type::get_llvm_type`
  unfoldable pub base_llvm_type : String → Option L.LType
  base_llvm_type name =
      if str_eq name "整数型"
      then some (L.int_ty 32)
      else if str_eq name "长整数型"
      then some (L.int_ty 64)
      else if str_eq name "短整数型"
      then some (L.int_ty 16)
      else if str_eq name "小数型"
      then some L.float_ty
      else if str_eq name "双精度小数型"
      then some L.double_ty
      else if str_eq name "布尔型"
      then some (L.int_ty 1)
      else if str_eq name "文本型"
      then some (L.pointer_ty (L.int_ty 8))
      else if str_eq name "空类型"
      then some L.void_ty
      else none

  abbrev pub Lowering : Type 0 → Type 0
  Lowering A = Stateful L.World A

  -- The argument types of a `FunctionType`. LLVM's `FunctionType::get` takes no null pointer.
  pub lower_all : (Ptr → Lowering (Option L.LType)) → List Ptr → Lowering (List L.LType)
  lower_all lower [] = pure []
  lower_all lower (p ∷ ps) = do t ← lower p; τ ← demand t; τs ← lower_all lower ps; pure (τ ∷ τs)

  -- The members of a `ClassType`; null at the first member with no type.
  pub lower_members :
      (Ptr → Lowering (Option L.LType)) → List (Ptr × String) → Lowering (Option (List L.LType))
  lower_members lower [] = pure (some [])
  lower_members lower ((p, name) ∷ ps) = do
    t ← lower p
    elim t [
      | none ↦ pure none
      | some τ ↦ do
        rest ← lower_members lower ps
        elim rest [ none ↦ pure none | some τs ↦ pure (some (τ ∷ τs)) ]
    ]

  pub lower_object : (Ptr → Lowering (Option L.LType)) → ThType → Lowering (Option L.LType)
  unfolding lower_all lower_members
  lower_object lower (base name copy size) = pure (base_llvm_type name)
  lower_object lower (function ret args) = do
    arg_types ← lower_all lower args
    r ← lower ret
    ret_type ← demand r
    pure (some (L.pointer_ty (L.function_ty ret_type arg_types)))
  lower_object lower (class name copy size members) = do
    member_types ← lower_members lower members
    elim member_types [
      | none ↦ pure none
      | some τs ↦ λ w. let (τ, w') = L.create_struct name τs w in some (some τ, w')
    ]

  pub lower : ℕ → List ThType → Ptr → Lowering (Option L.LType)
  unfolding lower_object
  lower zero objects p = crash
  lower (suc fuel) objects p = do
    t ← demand (get_elem? objects p)
    lower_object (lower fuel objects) t

  -- `TypeSystem::get_llvm_type(Type*)`
  unfoldable pub get_llvm_type : List ThType → Ptr → Lowering (Option L.LType)
  unfolding lower
  get_llvm_type objects p = lower (suc p) objects p
