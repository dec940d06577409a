-- ===== src/Parser/Lowered.antt =====
-- The types that the parser builds, through to LLVM.
use th_lang.Base.{
  ℕ, ◌≤◌, ◌<◌, String, ◌≡◌, refl, some, List, [], ◌∷◌, ◌++◌, arith, length, length-append,
  get_elem?-lt, ◌>>=◌, Bool-cases, inl, inr, not, str_eq, ◌&&◌, ◌==◌, ◌<>◌,
}
use th_lang.Llvm.{Llvm}
use th_lang.TypeSystem.{Ptr, function, TypeSystem, create, get_type}
use th_lang.TypeSystem.Laws.{IsNamed, get_type-live}
use th_lang.TypeSystem.Lowering.{get_llvm_type}
use th_lang.TypeSystem.Lowering.Total.{AllBelow, get_llvm_type-returns}
use th_lang.TypeSystem.Lowering.Ordered.{IsSound, create-IsSound}
use th_lang.Parser.Tree.{
  Types, token_int, type_id, func_none, func_list, TypeList, one_type, more_types,
}
use th_lang.Parser.Actions.{
  ParseState, Build, type_id_action, new_function_type, build_types, build_type_list,
}

module _ (L : Llvm) where
  AllBelow-≤ : (m n : ℕ) (ps : List Ptr) → m ≤ n → AllBelow L m ps → AllBelow L n ps
  AllBelow-≤ m n [] h b = tt
  AllBelow-≤ m n (p ∷ ps) h (below, b) = (omega arith, AllBelow-≤ m n ps h b)

  append-AllBelow :
      (n : ℕ) (ps : List Ptr) (p : Ptr) → AllBelow L n ps → p < n → AllBelow L n (ps ++ p ∷ [])
  append-AllBelow n [] p b h = (h, tt)
  append-AllBelow n (q ∷ ps) p (below, b) h = (below, append-AllBelow n ps p b h)

  -- A state that a part of the parse has led to: sound, and with every object that was there.
  abbrev After : ParseState → ParseState → Type 0
  After st st' = IsSound L st'.types × (length st.types.objects ≤ length st'.types.objects)

  abbrev BuildsType : Build Ptr → Type 0
  BuildsType m =
      (st : ParseState)
      → IsSound L st.types
      → (p : Ptr) × (st' : ParseState) × (m st ≡ some (p, st'))
        × After st st'
        × (p < length st'.types.objects)

  abbrev BuildsTypes : Build (List Ptr) → Type 0
  BuildsTypes m =
      (st : ParseState)
      → IsSound L st.types
      → (ps : List Ptr) × (st' : ParseState) × (m st ≡ some (ps, st'))
        × After st st'
        × AllBelow L (length st'.types.objects) ps

  get_type-lt : (s : String) (ts : TypeSystem) → IsNamed ts → get_type s ts < length ts.objects
  get_type-lt s ts v = let (t, live, _) = get_type-live ts s v in get_elem?-lt ts.objects _ live

  type_id_action-BuildsType : (s : String) → BuildsType (type_id_action s)
  unfolding type_id_action
  type_id_action-BuildsType s st sound =
      let below = get_type-lt s st.types sound.named in
      elim (Bool-cases (not (str_eq s "空类型") && (get_type s st.types == get_type "空类型" st.types))) [
        | inl unknown ↦ (
          get_type s st.types,
          record st { errors = st.errors ++ ("未知的数据类型" <> s) ∷ [] },
          rw unknown refl,
          (sound, omega arith),
          below,
        )
        | inr known ↦ (get_type s st.types, st, rw known refl, (sound, omega arith), below)
      ]

  new_function_type-BuildsType :
      (ret : Ptr) (args : List Ptr) (st : ParseState)
      → IsSound L st.types
      → ret < length st.types.objects
      → AllBelow L (length st.types.objects) args
      → (p : Ptr) × (st' : ParseState) × (new_function_type ret args st ≡ some (p, st'))
        × After st st'
        × (p < length st'.types.objects)
  unfolding new_function_type create
  new_function_type-BuildsType ret args st sound live below =
      let longer = length-append st.types.objects (function ret args ∷ []) in
      (
        length st.types.objects,
        record st { types = (create (function ret args) st.types).1 },
        refl,
        (create-IsSound L (function ret args) st.types (live, below) sound, omega (arith, longer)),
        omega (arith, longer),
      )

  mutual
    unfolding build_types

    build_types-BuildsType : (t : Types) → BuildsType (build_types t)
    build_types-BuildsType token_int st sound = (
      get_type "整数型" st.types,
      st,
      refl,
      (sound, omega arith),
      get_type-lt "整数型" st.types sound.named,
    )
    build_types-BuildsType (type_id s) st sound = type_id_action-BuildsType s st sound
    build_types-BuildsType (func_none ret) st sound =
        let (r, st₁, e, (sound₁, grown), live) = build_types-BuildsType ret st sound in
        let (p, st₂, e', (sound₂, grown'), live') =
          new_function_type-BuildsType r [] st₁ sound₁ live tt in
        (p, st₂, rw (e, ◌>>=◌) e', (sound₂, omega arith), live')
    build_types-BuildsType (func_list ret args) st sound =
        let (r, st₁, e, (sound₁, grown), live) = build_types-BuildsType ret st sound in
        let (ps, st₂, e', (sound₂, grown'), below) = build_type_list-BuildsTypes args st₁ sound₁ in
        let (p, st₃, e'', (sound₃, grown''), live'') =
          new_function_type-BuildsType r ps st₂ sound₂ (omega arith) below in
        (p, st₃, rw (e, ◌>>=◌) (rw (e', ◌>>=◌) e''), (sound₃, omega arith), live'')

    build_type_list-BuildsTypes : (ts : TypeList) → BuildsTypes (build_type_list ts)
    build_type_list-BuildsTypes (one_type t) st sound =
        let (p, st₁, e, after, live) = build_types-BuildsType t st sound in
        (p ∷ [], st₁, rw (e, ◌>>=◌) refl, after, (live, tt))
    build_type_list-BuildsTypes (more_types ts t) st sound =
        let (ps, st₁, e, (sound₁, grown), below) = build_type_list-BuildsTypes ts st sound in
        let (p, st₂, e', (sound₂, grown'), live) = build_types-BuildsType t st₁ sound₁ in
        let below' =
          AllBelow-≤ (length st₁.types.objects) (length st₂.types.objects) ps grown' below in
        (
          ps ++ p ∷ [],
          st₂,
          rw (e, ◌>>=◌) (rw (e', ◌>>=◌) refl),
          (sound₂, omega arith),
          append-AllBelow (length st₂.types.objects) ps p below' live,
        )

  -- Whatever type is parsed in a state with a sound table, the actions return a pointer, keep the
  -- table sound, and `get_llvm_type` of the pointer returns an LLVM type, no null pointer.
  pub build_types-get_llvm_type :
      (t : Types) (st : ParseState) (w : L.World)
      → IsSound L st.types
      → (p : Ptr) × (st' : ParseState) × (build_types t st ≡ some (p, st'))
        × IsSound L st'.types
        × ((τ : L.LType) × (w' : L.World) × (get_llvm_type L st'.types.objects p w
              ≡ some (some τ, w')))
  build_types-get_llvm_type t st w sound =
      let (p, st', e, (sound', grown), live) = build_types-BuildsType t st sound in
      (p, st', e, sound', get_llvm_type-returns L st'.types.objects p w sound'.ordered live)
