-- ===== src/Meaning/Represents.antt =====
-- How a state of the code generator stands for a store of the interpreter.
use th_lang.Base.{ℕ, String, ◌≡◌, ◌≢◌, refl, Bool, Option, some, List, ◌∷◌, get_elem?, arith, []}
use th_lang.Base.Dict.{lookup}
use th_lang.Llvm.{Llvm}
use th_lang.TypeSystem.{Ptr, ThType, base, type_name}
use th_lang.TypeSystem.Lowering.{base_llvm_type}
use th_lang.TypeSystem.Lowering.Total.{get_llvm_type-base}
use th_lang.Codegen.Context.{CodegenBlock, Context, find_value, lower_type, type_name_at}
use th_lang.Meaning.Source.{Store}
use th_lang.Meaning.Semantics.{Semantics, Evolves}

module _ {L : Llvm} (S : Semantics L) (objects : List ThType) (int_ptr : Ptr) where
  -- The type object of 整数型.
  abbrev pub IsIntType : Type 0
  IsIntType = (copy : Bool) × (size : ℕ) × (get_elem? objects int_ptr ≡ some (base "整数型" copy size))

  -- The name stands for a cell, which holds the value, if there is one.
  abbrev pub IsSlot : Context L → String → Option ℕ → Type 0
  IsSlot c s o =
      (v : L.Value) × (find_value L s c.blocks ≡ some (int_ptr, v))
      × S.IsCell c.world v
      × ((a : ℕ) → o ≡ some a → S.cell c.world v ≡ some a)

  -- There is a block, every variable has a slot, and no two variables have the same.
  pub record Represents (c : Context L) (σ : Store) : Type 0 where
    pub same_objects : c.objects ≡ objects
    pub inside : (b : CodegenBlock L) × (bs : List (CodegenBlock L)) × (c.blocks ≡ b ∷ bs)
    pub slots : (s : String) (o : Option ℕ) → lookup s σ ≡ some o → IsSlot c s o
    pub apart :
        (s s' : String) (o o' : Option ℕ) (v v' : L.Value)
        → lookup s σ ≡ some o
        → lookup s' σ ≡ some o'
        → s ≢ s'
        → find_value L s c.blocks ≡ some (int_ptr, v)
        → find_value L s' c.blocks ≡ some (int_ptr, v')
        → v ≢ v'

  -- Code that changes the world alone, and keeps values and memory, keeps the store.
  pub evolved-Represents :
      (c : Context L) (σ : Store) (w : L.World)
      → Represents c σ
      → Evolves S c.world w
      → Represents (record c { world = w }) σ
  evolved-Represents c σ w r e = record {
    same_objects = r.same_objects;
    inside = r.inside;
    slots = λ s o h.
        let (v, found, cell, holds) = r.slots s o h in
        (v, found, e.cells v cell, λ a k. e.memory v a cell (holds a k));
    apart = r.apart;
  }

  -- Where nothing is declared.
  pub empty-Represents :
      (c : Context L) (b : CodegenBlock L) (bs : List (CodegenBlock L))
      → c.objects ≡ objects
      → c.blocks ≡ b ∷ bs
      → Represents c []
  empty-Represents c b bs same blocks = record {
    same_objects = same;
    inside = (b, bs, blocks);
    slots = λ s o h. absurd (ground arith);
    apart = λ s s' o o' v v' h h'. absurd (ground arith);
  }

  module _ (int : IsIntType) (c : Context L) (same : c.objects ≡ objects) where
    pub object_at-int : get_elem? c.objects int_ptr ≡ some (base "整数型" int.0 int.1)
    object_at-int = rw same int.2

    pub type_name_at-int : type_name_at L int_ptr c ≡ some ("整数型", c)
    unfolding type_name_at type_name
    type_name_at-int = rw (object_at-int, type_name_at)

    pub lower_type-int : lower_type L int_ptr c ≡ some (L.int_ty 32, c)
    unfolding lower_type base_llvm_type
    lower_type-int =
        rw
          (
            get_llvm_type-base L c.objects int_ptr "整数型" int.0 int.1 c.world object_at-int,
            lower_type,
          )
          refl
