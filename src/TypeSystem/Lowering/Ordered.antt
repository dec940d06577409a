-- ===== src/TypeSystem/Lowering/Ordered.antt =====
-- The type objects that the program makes, each of older ones and basic names.
use th_lang.Base.{
  ℕ, zero, suc, ◌+◌, ◌<◌, String, ◌≡◌, refl, sym, subst, ◌∙◌, ◌⊎◌, inl, inr, some, List, [], ◌∷◌,
  ◌++◌, arith, length, length-append, get_elem?, get_elem?-append_left, get_elem?-append_last,
  get_elem?-lt,
}
use th_lang.Llvm.{Llvm}
use th_lang.TypeSystem.{
  ThType, base, TypeSystem, create, register, statics, new_type_system, dynamic_size,
}
use th_lang.TypeSystem.Laws.{IsNamed, register-IsNamed, create-IsNamed, statics-IsNamed}
use th_lang.TypeSystem.Lowering.{base_llvm_type}
use th_lang.TypeSystem.Lowering.Total.{IsBasic, IsOlder, IsOrdered}

last_or_below : (p n : ℕ) → p < n + 1 → (p < n) ⊎ (p ≡ n)
last_or_below zero zero h = inr refl
last_or_below zero (suc n) h = inl (omega arith)
last_or_below (suc p) zero h = absurd (omega arith)
last_or_below (suc p) (suc n) h = elim (last_or_below p n (omega arith)) [
  | inl below ↦ inl (omega arith)
  | inr same ↦ inr (omega arith)
]

module _ (L : Llvm) where
  -- A new object made of those that are there keeps the store in order.
  pub append-IsOrdered :
      (objects : List ThType) (t : ThType)
      → IsOrdered L objects
      → IsOlder L (length objects) t
      → IsOrdered L (objects ++ t ∷ [])
  append-IsOrdered objects t ordered older p u h =
      elim (last_or_below p (length objects)
        (omega (arith, get_elem?-lt (objects ++ t ∷ []) p h, length-append objects (t ∷ [])))) [
          | inl below ↦ ordered p u (sym (get_elem?-append_left objects (t ∷ []) p below) ∙ h)
          | inr same ↦
              let at : get_elem? (objects ++ t ∷ []) p ≡ some t =
                subst (λ q. get_elem? (objects ++ t ∷ []) q ≡ some t) (sym same)
                  (get_elem?-append_last objects t) in
              let e : t ≡ u = ground (arith, sym at ∙ h) in
              subst (IsOlder L p) e (subst (λ q. IsOlder L q t) (sym same) older)
        ]

  -- The entries of the table are named after their objects, and these are made of older ones and
  -- basic names.
  pub record IsSound (ts : TypeSystem) : Type 0 where
    pub named : IsNamed ts
    pub ordered : IsOrdered L ts.objects

  register-IsSound :
      (name : String) (size : ℕ) (ts : TypeSystem)
      → IsBasic L name
      → IsSound ts
      → IsSound (register name size ts)
  unfolding register
  register-IsSound name size ts basic sound = record {
    named = register-IsNamed name size ts sound.named;
    ordered = append-IsOrdered ts.objects (base name _ size) sound.ordered basic;
  }

  pub create-IsSound :
      (t : ThType) (ts : TypeSystem)
      → IsOlder L (length ts.objects) t
      → IsSound ts
      → IsSound (create t ts).1
  unfolding create
  create-IsSound t ts older sound = record {
    named = create-IsNamed t ts sound.named;
    ordered = append-IsOrdered ts.objects t sound.ordered older;
  }

  statics-IsSound : IsSound statics
  unfolding base_llvm_type
  statics-IsSound = record {
    named = statics-IsNamed;
    ordered =
        append-IsOrdered [] (base "空类型" _ 0) (λ p t h. absurd (ground (arith, h)))
          (L.void_ty, refl);
  }

  -- The table that the constructor makes is so, whatever LLVM's types are.
  pub new_type_system-IsSound : IsSound new_type_system
  unfolding new_type_system base_llvm_type
  new_type_system-IsSound =
      register-IsSound "空类型" 0 _ (L.void_ty, refl)
        (register-IsSound "文本型" dynamic_size _ (L.pointer_ty (L.int_ty 8), refl)
          (register-IsSound "布尔型" 1 _ (L.int_ty 1, refl)
            (register-IsSound "双精度小数型" 8 _ (L.double_ty, refl)
              (register-IsSound "小数型" 4 _ (L.float_ty, refl)
                (register-IsSound "短整数型" 2 _ (L.int_ty 16, refl)
                  (register-IsSound "长整数型" 8 _ (L.int_ty 64, refl)
                    (register-IsSound "整数型" 4 _ (L.int_ty 32, refl) statics-IsSound)))))))
