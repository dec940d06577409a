-- ===== src/Meaning/Value.antt =====
-- The code of an expression's node, over that of its operands.
use th_lang.Base.{ℕ, String, ◌≡◌, refl, ap, true, false, Option, some, List, arith, ◌>>=◌}
use th_lang.Base.Int.{ℤ, pos}
use th_lang.Llvm.{Llvm, Binary, add, sub, mul, sdiv, shl, ashr, load, binary}
use th_lang.TypeSystem.{Ptr, ThType}
use th_lang.Codegen.Context.{Context, Code}
use th_lang.Codegen.Expr.{
  create_binary, instruction, int_code, name_code, unop_code, emit_binary, operate, binop_code,
}
use th_lang.Parser.Tree.{Op, shr, Arith, plus, minus, mod_}
use th_lang.Parser.Actions.{op_text, arith_text}
use th_lang.Meaning.Words.{word_of, negate, difference, apply}
use th_lang.Meaning.Source.{compute, compute_op}
use th_lang.Meaning.Semantics.{
  Semantics, Evolves, Evolves-refl, Evolves-trans, Evolves-binary, Evolves-load,
}
use th_lang.Meaning.Represents.{IsIntType, type_name_at-int, lower_type-int, IsSlot}

-- An operator with a meaning has an instruction that computes it.
abbrev pub IsComputed : String → (ℕ → ℕ → Option ℕ) → Type 0
IsComputed op f =
    (a b d : ℕ)
    → f a b ≡ some d
    → (i : Binary) × (s : String) × (instruction op false ≡ some (i, s)) × (apply i a b ≡ some d)

pub compute-instruction : (op : Arith) → IsComputed (arith_text op) (compute op)
unfolding compute instruction arith_text apply
compute-instruction plus a b d h = (add, "addtmp", refl, h)
compute-instruction minus a b d h = (sub, "subtmp", refl, h)
compute-instruction Arith.mul a b d h = (mul, "multmp", refl, h)
compute-instruction Arith.div a b d h = (sdiv, "divtmp", refl, h)
compute-instruction mod_ a b d h = absurd (ground arith)

pub compute_op-instruction : (op : Op) → IsComputed (op_text op) (compute_op op)
unfolding compute_op instruction op_text apply
compute_op-instruction Op.shl a b d h = (shl, "shltmp", refl, h)
compute_op-instruction shr a b d h = (ashr, "ashrtmp", refl, h)
compute_op-instruction _ a b d h = absurd (ground arith)

difference-zero : (a : ℕ) → difference 0 a ≡ negate a
unfolding difference negate
difference-zero a = omega arith

module _ {L : Llvm} (S : Semantics L) where
  abbrev pub IsWord : L.World → L.Value → ℕ → Type 0
  IsWord w v a = (L.type_of v ≡ L.int_ty 32) × (S.word w v ≡ some a)

  -- The code returns a 32-bit value that holds the word. It only adds instructions, which keep
  -- what values and memory hold.
  abbrev pub Computes : Code L → Context L → ℕ → Type 0
  Computes m c a =
      (v : L.Value) × (w : L.World) × (m c ≡ some (some v, record c { world = w }))
      × IsWord w v a
      × Evolves S c.world w

  pub int_code-Computes : (n : ℤ) (c : Context L) → Computes (int_code L n) c (word_of n)
  unfolding int_code
  int_code-Computes n c = (
    L.const_int (L.int_ty 32) n true,
    c.world,
    refl,
    S.constant n true c.world,
    Evolves-refl S c.world,
  )

  -- One instruction on two values.
  create_binary-words :
      (i : Binary) (s : String) (l r : L.Value) (c : Context L) (a b d : ℕ)
      → L.type_of l ≡ L.int_ty 32
      → L.type_of r ≡ L.int_ty 32
      → apply i a b ≡ some d
      → create_binary L i l r s c
        ≡ some (
          (L.create (binary i l r s) c.world).0,
          record c { world = (L.create (binary i l r s) c.world).1 },
        )
  unfolding create_binary
  create_binary-words i s l r c a b d lt rt h = rw (lt, rt, S.takes_words i a b d h) refl

  pub emit_binary-Computes :
      (i : Binary) (s : String) (l r : L.Value) (c : Context L) (a b d : ℕ)
      → IsWord c.world l a
      → IsWord c.world r b
      → apply i a b ≡ some d
      → Computes (emit_binary L (some (i, s)) l r) c d
  unfolding emit_binary
  emit_binary-Computes i s l r c a b d (lt, lw) (rt, rw') h = (
    (L.create (binary i l r s) c.world).0,
    (L.create (binary i l r s) c.world).1,
    rw (create_binary-words i s l r c a b d lt rt h, ◌>>=◌) refl,
    S.computes i l r s a b d c.world lt rt lw rw' h,
    Evolves-binary S i l r s c.world,
  )

  operate-Computes :
      (op : String) (f : ℕ → ℕ → Option ℕ) (l r : L.Value) (c : Context L) (a b d : ℕ)
      → IsComputed op f
      → IsWord c.world l a
      → IsWord c.world r b
      → f a b ≡ some d
      → Computes (operate L op (some l) (some r)) c d
  unfolding operate
  operate-Computes op f l r c a b d computed (lt, lw) (rt, rw') h =
      let (i, s, e, k) = computed a b d h in
      rw (lt, rt, S.int_is_no_float, e) (emit_binary-Computes i s l r c a b d (lt, lw) (rt, rw') k)

  -- Both operands, then the instruction.
  pub binop_code-Computes :
      (op : String) (f : ℕ → ℕ → Option ℕ) (m n : Code L) (c : Context L) (a b d : ℕ)
      → IsComputed op f
      → Computes m c a
      → ((w : L.World) → Evolves S c.world w → Computes n (record c { world = w }) b)
      → f a b ≡ some d
      → Computes (binop_code L op m n) c d
  unfolding binop_code
  binop_code-Computes op f m n c a b d computed (l, w, e, (lt, lw), k) right h =
      let (r, w', e', word, k') = right w k in
      let (v, w'', e'', word', k'') =
        operate-Computes op f l r (record c { world = w' }) a b d computed (lt, k'.words l a lw)
          word h in
      (
        v,
        w'',
        rw (e, ◌>>=◌) (rw (e', ◌>>=◌) e''),
        word',
        Evolves-trans S k (Evolves-trans S k' k''),
      )

  -- A minus sign is a subtraction from 0.
  pub unop_code-Computes_minus :
      (m : Code L) (c : Context L) (a : ℕ)
      → Computes m c a
      → Computes (unop_code L "-" m) c (negate a)
  unfolding unop_code apply word_of
  unop_code-Computes_minus m c a (v, w, e, word, k) =
      let zero' = L.const_int (L.int_ty 32) (pos 0) false in
      let (zero_type, zero_word) = S.constant (pos 0) false w in
      (
        (L.create (binary sub zero' v "subtemp") w).0,
        (L.create (binary sub zero' v "subtemp") w).1,
        rw (e, ◌>>=◌)
            (rw
              (
                create_binary-words sub "subtemp" zero' v (record c { world = w }) 0 a
                    (difference 0 a) zero_type word.0 refl,
                ◌>>=◌,
              )
              refl),
        S.computes sub zero' v "subtemp" 0 a (negate a) w zero_type word.0 zero_word word.1
            (ap some (difference-zero a)),
        Evolves-trans S k (Evolves-binary S sub zero' v "subtemp" w),
      )

  pub unop_code-Computes_plus :
      (m : Code L) (c : Context L) (a : ℕ) → Computes m c a → Computes (unop_code L "+" m) c a
  unfolding unop_code
  unop_code-Computes_plus m c a (v, w, e, word, k) = (v, w, rw (e, ◌>>=◌) refl, word, k)

  -- A variable is a load of its cell.
  pub name_code-Computes :
      (objects : List ThType) (p : Ptr) (s : String) (c : Context L) (a : ℕ)
      → IsIntType S objects p
      → c.objects ≡ objects
      → IsSlot S objects p c s (some a)
      → Computes (name_code L s) c a
  unfolding name_code
  name_code-Computes objects p s c a typed same (v, found, cell, holds) = (
    (L.create (load (L.int_ty 32) v) c.world).0,
    (L.create (load (L.int_ty 32) v) c.world).1,
    rw (found, ◌>>=◌)
        (rw (type_name_at-int S objects p typed c same, ◌>>=◌)
          (rw (lower_type-int S objects p typed c same, ◌>>=◌) refl)),
    S.loads v a c.world cell (holds a refl),
    Evolves-load S v c.world,
  )
