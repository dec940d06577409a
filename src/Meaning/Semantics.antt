-- ===== src/Meaning/Semantics.antt =====
-- What LLVM's reference manual says of the instructions on 32-bit integers and their memory.
use th_lang.Base.{true, ℕ, String, ◌≡◌, ◌≢◌, Bool, false, Option, some}
use th_lang.Base.Int.{ℤ}
use th_lang.Llvm.{Llvm, Inst, Binary, load, store, alloca, binary}
use th_lang.Meaning.Words.{word_of, apply}

-- `word w v` is what the value `v` holds, and `cell w v` what the memory at the address `v` holds,
-- when the code that stands in `w` has been run from its beginning to the place of insertion.
pub record Semantics (L : Llvm) : Type 1 where
  pub word : L.World → L.Value → Option ℕ
  pub cell : L.World → L.Value → Option ℕ
  pub IsCell : L.World → L.Value → Type 0
  pub int_is_no_float : L.is_floating (L.int_ty 32) ≡ false
  -- The instructions with a meaning on words take two of them.
  pub takes_words :
      (i : Binary) (a b d : ℕ) → apply i a b ≡ some d → L.takes i (L.int_ty 32) (L.int_ty 32) ≡ true
  pub constant :
      (n : ℤ) (s : Bool) (w : L.World)
      → (L.type_of (L.const_int (L.int_ty 32) n s) ≡ L.int_ty 32)
        × (word w (L.const_int (L.int_ty 32) n s) ≡ some (word_of n))
  -- The arithmetic instructions.
  pub computes :
      (i : Binary) (l r : L.Value) (s : String) (a b d : ℕ) (w : L.World)
      → L.type_of l ≡ L.int_ty 32
      → L.type_of r ≡ L.int_ty 32
      → word w l ≡ some a
      → word w r ≡ some b
      → apply i a b ≡ some d
      → (L.type_of (L.create (binary i l r s) w).0 ≡ L.int_ty 32)
        × (word (L.create (binary i l r s) w).1 (L.create (binary i l r s) w).0 ≡ some d)
  pub loads :
      (v : L.Value) (a : ℕ) (w : L.World)
      → IsCell w v
      → cell w v ≡ some a
      → (L.type_of (L.create (load (L.int_ty 32) v) w).0 ≡ L.int_ty 32)
        × (word (L.create (load (L.int_ty 32) v) w).1 (L.create (load (L.int_ty 32) v) w).0
            ≡ some a)
  -- An `alloca` makes a new cell.
  pub allocates :
      (s : String) (w : L.World)
      → IsCell (L.create (alloca (L.int_ty 32) s) w).1 (L.create (alloca (L.int_ty 32) s) w).0
  pub allocates_fresh :
      (s : String) (w : L.World) (v : L.Value)
      → IsCell w v
      → v ≢ (L.create (alloca (L.int_ty 32) s) w).0
  pub stores :
      (x v : L.Value) (a : ℕ) (w : L.World)
      → IsCell w v
      → word w x ≡ some a
      → cell (L.create (store x v) w).1 v ≡ some a
  -- What stays: values always, cells but for the one that is stored to.
  pub keeps_words :
      (i : Inst L.Value L.LType L.Block L.Func) (w : L.World) (v : L.Value) (a : ℕ)
      → word w v ≡ some a
      → word (L.create i w).1 v ≡ some a
  pub keeps_cells :
      (i : Inst L.Value L.LType L.Block L.Func) (w : L.World) (v : L.Value)
      → IsCell w v
      → IsCell (L.create i w).1 v
  pub binary_keeps :
      (i : Binary) (l r : L.Value) (s : String) (w : L.World) (v : L.Value) (a : ℕ)
      → cell w v ≡ some a
      → cell (L.create (binary i l r s) w).1 v ≡ some a
  pub load_keeps :
      (p : L.Value) (w : L.World) (v : L.Value) (a : ℕ)
      → cell w v ≡ some a
      → cell (L.create (load (L.int_ty 32) p) w).1 v ≡ some a
  pub alloca_keeps :
      (s : String) (w : L.World) (v : L.Value) (a : ℕ)
      → IsCell w v
      → cell w v ≡ some a
      → cell (L.create (alloca (L.int_ty 32) s) w).1 v ≡ some a
  pub store_keeps :
      (x p : L.Value) (w : L.World) (v : L.Value) (a : ℕ)
      → IsCell w v
      → v ≢ p
      → cell w v ≡ some a
      → cell (L.create (store x p) w).1 v ≡ some a
  -- A name is nothing but a name.
  pub named_keeps_words :
      (u : L.Value) (s : String) (w : L.World) (v : L.Value) (a : ℕ)
      → word w v ≡ some a
      → word (L.set_name u s w) v ≡ some a
  pub named_keeps_cells :
      (u : L.Value) (s : String) (w : L.World) (v : L.Value)
      → IsCell w v
      → IsCell (L.set_name u s w) v
  pub named_keeps_memory :
      (u : L.Value) (s : String) (w : L.World) (v : L.Value) (a : ℕ)
      → cell w v ≡ some a
      → cell (L.set_name u s w) v ≡ some a

module _ {L : Llvm} (S : Semantics L) where
  -- Values and memory are kept.
  pub record Evolves (w w' : L.World) : Type 0 where
    pub words : (v : L.Value) (a : ℕ) → S.word w v ≡ some a → S.word w' v ≡ some a
    pub cells : (v : L.Value) → S.IsCell w v → S.IsCell w' v
    pub memory : (v : L.Value) (a : ℕ) → S.IsCell w v → S.cell w v ≡ some a → S.cell w' v ≡ some a

  pub Evolves-refl : (w : L.World) → Evolves w w
  Evolves-refl w = record { words = λ v a h. h; cells = λ v h. h; memory = λ v a k h. h }

  pub Evolves-trans : {w w' w'' : L.World} → Evolves w w' → Evolves w' w'' → Evolves w w''
  Evolves-trans e f = record {
    words = λ v a h. f.words v a (e.words v a h);
    cells = λ v h. f.cells v (e.cells v h);
    memory = λ v a k h. f.memory v a (e.cells v k) (e.memory v a k h);
  }

  pub Evolves-binary :
      (i : Binary) (l r : L.Value) (s : String) (w : L.World)
      → Evolves w (L.create (binary i l r s) w).1
  Evolves-binary i l r s w = record {
    words = S.keeps_words (binary i l r s) w;
    cells = S.keeps_cells (binary i l r s) w;
    memory = λ v a k h. S.binary_keeps i l r s w v a h;
  }

  pub Evolves-load : (p : L.Value) (w : L.World) → Evolves w (L.create (load (L.int_ty 32) p) w).1
  Evolves-load p w = record {
    words = S.keeps_words (load (L.int_ty 32) p) w;
    cells = S.keeps_cells (load (L.int_ty 32) p) w;
    memory = λ v a k h. S.load_keeps p w v a h;
  }

  pub Evolves-alloca :
      (s : String) (w : L.World) → Evolves w (L.create (alloca (L.int_ty 32) s) w).1
  Evolves-alloca s w = record {
    words = S.keeps_words (alloca (L.int_ty 32) s) w;
    cells = S.keeps_cells (alloca (L.int_ty 32) s) w;
    memory = S.alloca_keeps s w;
  }

  pub Evolves-set_name : (u : L.Value) (s : String) (w : L.World) → Evolves w (L.set_name u s w)
  Evolves-set_name u s w = record {
    words = S.named_keeps_words u s w;
    cells = S.named_keeps_cells u s w;
    memory = λ v a k h. S.named_keeps_memory u s w v a h;
  }
