-- ===== src/TypeSystem/Lowering/Total.antt =====
-- When the lowering of a type returns a type.
use th_lang.Base.{
  ℕ, zero, suc, ◌<◌, String, ◌≡◌, refl, Bool, Option, some, List, [], ◌∷◌, arith, length, get_elem?,
  get_elem?-some, ◌>>=◌,
}
use th_lang.Llvm.{Llvm}
use th_lang.TypeSystem.{Ptr, ThType, base, function, class}
use th_lang.TypeSystem.Lowering.{
  Lowering, base_llvm_type, lower_all, lower_members, lower_object, lower, get_llvm_type,
}

module _ (L : Llvm) where
  -- The basic types' names, as the constructor registers them.
  abbrev pub IsBasic : String → Type 0
  IsBasic name = (τ : L.LType) × (base_llvm_type L name ≡ some τ)

  abbrev pub AllBelow : ℕ → List Ptr → Type 0
  AllBelow n [] = Unit {0}
  AllBelow n (p ∷ ps) = (p < n) × AllBelow n ps

  abbrev pub MembersBelow : ℕ → List (Ptr × String) → Type 0
  MembersBelow n [] = Unit {0}
  MembersBelow n ((p, _) ∷ ps) = (p < n) × MembersBelow n ps

  -- An object at address `n` is made of older ones.
  abbrev pub IsOlder : ℕ → ThType → Type 0
  IsOlder n (base name copy size) = IsBasic name
  IsOlder n (function ret args) = (ret < n) × AllBelow n args
  IsOlder n (class name copy size members) = MembersBelow n members

  abbrev pub IsOrdered : List ThType → Type 0
  IsOrdered objects = (p : Ptr) (t : ThType) → get_elem? objects p ≡ some t → IsOlder p t

  -- The answer is an LLVM type, no null pointer and no crash.
  abbrev pub Lowers : Lowering L (Option L.LType) → Type 0
  Lowers m = (w : L.World) → (τ : L.LType) × (w' : L.World) × (m w ≡ some (some τ, w'))

  lower_all-returns :
      (f : Ptr → Lowering L (Option L.LType)) (n : ℕ)
      → ((p : Ptr) → p < n → Lowers (f p))
      → (ps : List Ptr) → AllBelow n ps
      → (w : L.World) → (τs : List L.LType) × (w' : L.World) × (lower_all L f ps w ≡ some (τs, w'))
  unfolding lower_all
  lower_all-returns f n ih [] b w = ([], w, refl)
  lower_all-returns f n ih (p ∷ ps) (h, b) w =
      let (τ, w₁, e) = ih p h w in
      let (τs, w₂, e') = lower_all-returns f n ih ps b w₁ in
      (τ ∷ τs, w₂, rw (e, ◌>>=◌) (rw (e', ◌>>=◌)))

  lower_members-returns :
      (f : Ptr → Lowering L (Option L.LType)) (n : ℕ)
      → ((p : Ptr) → p < n → Lowers (f p))
      → (ps : List (Ptr × String)) → MembersBelow n ps
      → (w : L.World)
      → (τs : List L.LType) × (w' : L.World) × (lower_members L f ps w ≡ some (some τs, w'))
  unfolding lower_members
  lower_members-returns f n ih [] b w = ([], w, refl)
  lower_members-returns f n ih ((p, name) ∷ ps) (h, b) w =
      let (τ, w₁, e) = ih p h w in
      let (τs, w₂, e') = lower_members-returns f n ih ps b w₁ in
      (τ ∷ τs, w₂, rw (e, ◌>>=◌) (rw (e', ◌>>=◌)))

  lower_object-Lowers :
      (f : Ptr → Lowering L (Option L.LType)) (n : ℕ)
      → ((p : Ptr) → p < n → Lowers (f p))
      → (t : ThType) → IsOlder n t
      → Lowers (lower_object L f t)
  unfolding lower_object
  lower_object-Lowers f n ih (base name copy size) (τ, e) w = (τ, w, rw e)
  lower_object-Lowers f n ih (function ret args) (h, b) w =
      let (τs, w₁, e) = lower_all-returns f n ih args b w in
      let (τ, w₂, e') = ih ret h w₁ in
      (L.pointer_ty (L.function_ty τ τs), w₂, rw (e, ◌>>=◌) (rw (e', ◌>>=◌)))
  lower_object-Lowers f n ih (class name copy size members) b w =
      let (τs, w₁, e) = lower_members-returns f n ih members b w in
      ((L.create_struct name τs w₁).0, (L.create_struct name τs w₁).1, rw (e, ◌>>=◌))

  lower-Lowers :
      (fuel : ℕ) (objects : List ThType) (p : Ptr)
      → IsOrdered objects
      → p < fuel
      → p < length objects
      → Lowers (lower L fuel objects p)
  unfolding lower
  lower-Lowers zero objects p o h live w = absurd (omega arith)
  lower-Lowers (suc fuel) objects p o h live w =
      let (t, found) = get_elem?-some objects p live in
      let smaller =
        λ (q : ℕ) (k : q < p). lower-Lowers fuel objects q o (omega arith) (omega arith) in
      let (τ, w', e) = lower_object-Lowers (lower L fuel objects) p smaller t (o p t found) w in
      (τ, w', rw (found, ◌>>=◌) (e))

  -- In a store where every object is made of older ones and every plain type has a basic name,
  -- `get_llvm_type` of a live pointer returns, and what it returns is an LLVM type, no null pointer.
  pub get_llvm_type-returns :
      (objects : List ThType) (p : Ptr) (w : L.World)
      → IsOrdered objects
      → p < length objects
      → (τ : L.LType) × (w' : L.World) × (get_llvm_type L objects p w ≡ some (some τ, w'))
  unfolding get_llvm_type
  get_llvm_type-returns objects p w o live = lower-Lowers (suc p) objects p o (omega arith) live w

  -- A plain type is looked up by its name.
  pub get_llvm_type-base :
      (objects : List ThType) (p : Ptr) (name : String) (copy : Bool) (size : ℕ) (w : L.World)
      → get_elem? objects p ≡ some (base name copy size)
      → get_llvm_type L objects p w ≡ some (base_llvm_type L name, w)
  unfolding get_llvm_type
  get_llvm_type-base objects p name copy size w h = rw (h, lower)
