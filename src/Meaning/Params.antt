-- ===== src/Meaning/Params.antt =====
-- The parameters of a function on integers.
use th_lang.Base.{
  ℕ, String, ◌<>◌, ◌≡◌, refl, ap, subst, ◌∙◌, Option, none, some, List, [], ◌∷◌, ◌++◌, map, arith,
  ◌>>=◌, some-injective,
}
use th_lang.Base.Dict.{insert, lookup-insert_self}
use th_lang.Llvm.{Llvm, store, alloca}
use th_lang.TypeSystem.{Ptr, ThType, get_type}
use th_lang.Ast.{name, null, Vars, no_vars, var}
use th_lang.Codegen.Context.{Context}
use th_lang.Codegen.Context.Laws.{find_value-bind_local_self}
use th_lang.Codegen.Func.{var_types, lower_types, declare_arg, declare_args}
use th_lang.Parser.Tree.{FuncArgs, no_params, one_param, more_params, declared, token_int}
use th_lang.Parser.Actions.{
  CLibrary, ParseState, push_var, build_types, build_var_decl, build_func_args,
}
use th_lang.Meaning.Source.{Store, and_name, params, bind_args}
use th_lang.Meaning.Semantics.{Semantics, Evolves-set_name}
use th_lang.Meaning.Represents.{IsIntType, Represents, evolved-Represents, lower_type-int}
use th_lang.Meaning.Memory.{stored-Represents, allocated-Represents, with_cell}

-- The parameters as the parser's actions make them.
pub int_vars : Ptr → List String → Vars
int_vars p [] = no_vars
int_vars p (s ∷ names) = var p (name s) null (int_vars p names)

push_var-int_vars :
    (p : Ptr) (names : List String) (s : String)
    → push_var (int_vars p names) (var p (name s) null no_vars) ≡ int_vars p (names ++ s ∷ [])
unfolding push_var int_vars
push_var-int_vars p [] s = refl
push_var-int_vars p (t ∷ names) s = ap (var p (name t) null) (push_var-int_vars p names s)

and_name-eq-some :
    (s : String) (o : Option (List String)) (names : List String)
    → and_name s o ≡ some names
    → (ns : List String) × (o ≡ some ns) × (ns ++ s ∷ [] ≡ names)
and_name-eq-some s none names h = absurd (ground arith)
and_name-eq-some s (some ns) names h = (ns, refl, some-injective h)

params-more :
    (args : FuncArgs) (s : String) (names : List String)
    → params (more_params args (declared token_int s)) ≡ some names
    → (ns : List String) × (params args ≡ some ns) × (ns ++ s ∷ [] ≡ names)
unfolding params
params-more args s names h = and_name-eq-some s (params args) names h

module _ (lib : CLibrary) (int_ptr : Ptr) (st : ParseState)
    (typed : get_type "整数型" st.types ≡ int_ptr) where
  pub build_func_args-params :
      (args : FuncArgs) (names : List String)
      → params args ≡ some names
      → build_func_args lib args st ≡ some (int_vars int_ptr names, st)
  unfolding build_func_args build_var_decl build_types params int_vars
  build_func_args-params no_params names h =
      ap (λ ns. some (int_vars int_ptr ns, st)) (some-injective h)
  build_func_args-params (one_param (declared token_int s)) names h =
      rw typed (ap (λ ns. some (int_vars int_ptr ns, st)) (some-injective h))
  build_func_args-params (more_params args (declared token_int s)) names h =
      let (ns, inner, same) = params-more args s names h in
      rw (build_func_args-params args ns inner, ◌>>=◌)
        (rw typed (rw (push_var-int_vars int_ptr ns s) (rw same refl)))
  build_func_args-params _ names h = absurd (ground arith)

module _ {L : Llvm} (S : Semantics L) (objects : List ThType) (int_ptr : Ptr)
    (typed : IsIntType S objects int_ptr) where
  -- The arguments hold the words.
  abbrev pub Given : L.World → List L.Value → List ℕ → Type 0
  Given w [] [] = Unit {0}
  Given w (v ∷ vs) (a ∷ args) = (S.word w v ≡ some a) × Given w vs args
  Given w [] (a ∷ args) = ⊥
  Given w (v ∷ vs) [] = ⊥

  abbrev pub int_types : List String → List L.LType
  int_types names = map (λ s. L.int_ty 32) names

  pub lower_types-int :
      (names : List String) (c : Context L)
      → c.objects ≡ objects
      → lower_types L (var_types (int_vars int_ptr names)) c ≡ some (int_types names, c)
  unfolding lower_types var_types int_vars
  lower_types-int [] c same = refl
  lower_types-int (s ∷ names) c same =
      rw (lower_type-int S objects int_ptr typed c same, ◌>>=◌)
        (rw (lower_types-int names c same, ◌>>=◌) refl)

  Given-kept :
      (w w' : L.World) (vs : List L.Value) (args : List ℕ)
      → ((u : L.Value) (b : ℕ) → S.word w u ≡ some b → S.word w' u ≡ some b)
      → Given w vs args
      → Given w' vs args
  Given-kept w w' [] [] kept given = tt
  Given-kept w w' (v ∷ vs) (a ∷ args) kept (word, given) =
      (kept v a word, Given-kept w w' vs args kept given)
  Given-kept w w' [] (a ∷ args) kept given = given
  Given-kept w w' (v ∷ vs) [] kept given = given

  -- A state with one parameter more.
  abbrev Declares : Context L → Option (Unit {0} × Context L) → Store → Type 0
  Declares c o τ =
      (c' : Context L) × (o ≡ some (tt, c'))
      × Represents S objects int_ptr c' τ
      × (c'.errors ≡ c.errors)
      × ((u : L.Value) (b : ℕ) → S.word c.world u ≡ some b → S.word c'.world u ≡ some b)

  declare_arg-Declares :
      (c : Context L) (σ : Store) (v : L.Value) (s : String) (a : ℕ)
      → Represents S objects int_ptr c σ
      → S.word c.world v ≡ some a
      → Declares c (declare_arg L v int_ptr (name s) c) (insert s (some a) (insert s none σ))
  unfolding declare_arg
  declare_arg-Declares c σ v s a r word =
      let c₁ = record c { world = L.set_name v s c.world } in
      let named = Evolves-set_name S v s c.world in
      let temporary = L.get_name v c₁.world <> ".addr" in
      let (b, bs, blocks) = r.inside in
      let r₁ = evolved-Represents S objects int_ptr c σ c₁.world r named in
      let c₂ = with_cell S objects int_ptr c₁ temporary s b bs in
      let r₂ = allocated-Represents S objects int_ptr c₁ σ temporary s b bs r₁ blocks in
      let made = L.create (alloca (L.int_ty 32) temporary) c₁.world in
      let kept = λ (u : L.Value) (x : ℕ) (h : S.word c.world u ≡ some x).
        S.keeps_words (alloca (L.int_ty 32) temporary) c₁.world u x (named.words u x h) in
      (
        record c₂ { world = (L.create (store v made.0) made.1).1 },
        rw (lower_type-int S objects int_ptr typed c r.same_objects, ◌>>=◌) (rw blocks refl),
        stored-Represents S objects int_ptr c₂ (insert s none σ) s none made.0 v a r₂
            (lookup-insert_self s none σ) (find_value-bind_local_self L s (int_ptr, made.0) b bs)
            (S.allocates temporary c₁.world) (kept v a word),
        refl,
        λ u x h. S.keeps_words (store v made.0) made.1 u x (kept u x h),
      )

  pub declare_args-Declares :
      (names : List String) (args : List ℕ) (vs : List L.Value) (c : Context L) (σ τ : Store)
      → Represents S objects int_ptr c σ
      → Given c.world vs args
      → bind_args names args σ ≡ some τ
      → (c' : Context L) × (declare_args L vs (int_vars int_ptr names) c ≡ some (tt, c'))
        × Represents S objects int_ptr c' τ
        × (c'.errors ≡ c.errors)
  unfolding declare_args int_vars bind_args
  declare_args-Declares [] [] [] c σ τ r given h =
      (c, refl, subst (Represents S objects int_ptr c) (some-injective h) r, refl)
  declare_args-Declares (s ∷ names) (a ∷ args) (v ∷ vs) c σ τ r (word, given) h =
      let (c₁, e, r₁, same, kept) = declare_arg-Declares c σ v s a r word in
      let (c₂, e', r₂, same') =
        declare_args-Declares names args vs c₁ (insert s (some a) (insert s none σ)) τ r₁
          (Given-kept c.world c₁.world vs args kept given) h in
      (c₂, rw (e, ◌>>=◌) e', r₂, same' ∙ same)
  declare_args-Declares [] (a ∷ args) (v ∷ vs) c σ τ r given h = absurd (ground arith)
  declare_args-Declares (s ∷ names) [] [] c σ τ r given h = absurd (ground arith)
  declare_args-Declares names (a ∷ args) [] c σ τ r given h = absurd given
  declare_args-Declares names [] (v ∷ vs) c σ τ r given h = absurd given
