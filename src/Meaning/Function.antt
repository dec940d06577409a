-- ===== src/Meaning/Function.antt =====
-- The code of a function on integers that ends with `return`.
use th_lang.Base.{
  ℕ, String, ◌≡◌, refl, ◌∙◌, Option, some, List, [], ◌++◌, map, length, ◌∷◌, ◌>>=◌, false,
  Bool-cases, inl, inr, str_eq, ◌||◌,
}
use th_lang.Llvm.{Llvm, ret}
use th_lang.TypeSystem.{Ptr, function, ThType, get_type}
use th_lang.Ast.{Node, Nodes, name, function_stmt, block, just, Vars}
use th_lang.Codegen.Context.{CodegenBlock, NamedValue, Context, Code, set_outermost, setglobal}
use th_lang.Codegen.Func.{
  declare_function, define_function, declare_args, publish_function, complete_function,
  function_code, ir_name, var_types,
}
use th_lang.Codegen.Gen.{codegen, codegen_block}
use th_lang.Parser.Tree.{Stmts, definition, token_int, FuncArgs, braces}
use th_lang.Parser.Actions.{CLibrary, ParseState, build_types, build_stmts, build_stmt}
use th_lang.Meaning.Source.{Store, result, params, bind_args}
use th_lang.Meaning.Params.{
  int_vars, build_func_args-params, Given, lower_types-int, declare_args-Declares,
}
use th_lang.Meaning.Semantics.{Semantics}
use th_lang.Meaning.Represents.{IsIntType, empty-Represents, lower_type-int}
use th_lang.Meaning.Value.{IsWord}
use th_lang.Meaning.Body.{result-Returns}

-- The function that LLVM makes of it.
abbrev pub int_function : (L : Llvm) → String → List String → L.World → L.Func × L.World
int_function L s names =
    L.create_function (L.function_ty (L.int_ty 32) (map (λ t. L.int_ty 32) names)) (ir_name s)

set_outermost-some :
    (L : Llvm) (s : String) (v : NamedValue L) (b : CodegenBlock L) (bs : List (CodegenBlock L))
    → (bs' : List (CodegenBlock L)) × (set_outermost L s v (b ∷ bs) ≡ some bs')
unfolding set_outermost
set_outermost-some L s v b [] = (_, refl)
set_outermost-some L s v b (b' ∷ bs) =
    let (bs', e) = set_outermost-some L s v b' bs in (b ∷ bs', rw e refl)

-- The name of a function changes the blocks and the type objects only.
publish_function-keeps :
    (L : Llvm) (s : String) (p : Ptr) (vars : Vars) (f : L.Func) (c : Context L)
    (b : CodegenBlock L) (bs : List (CodegenBlock L))
    → c.blocks ≡ b ∷ bs
    → (c' : Context L) × (publish_function L s p vars f c ≡ some (tt, c'))
      × (c'.world ≡ c.world)
      × (c'.errors ≡ c.errors)
unfolding publish_function
publish_function-keeps L s p vars f c b bs blocks =
    elim (Bool-cases (str_eq s "入口" || str_eq s "main")) [
      | inl entry ↦ (c, rw entry refl, refl, refl)
      | inr other ↦
          let (bs', e) = set_outermost-some L s (length c.objects, L.function_value f) b bs in
          (
            record c { blocks = bs'; objects = c.objects ++ function p (var_types vars) ∷ [] },
            rw other (rw blocks (rw (e, setglobal) refl)),
            refl,
            refl,
          )
    ]

-- Where the code of the function's body goes.
abbrev pub entered : (L : Llvm) → L.Func → Context L → Context L
entered L f c =
    let (b, w) = L.create_block "entry" (some f) c.world in
    record c {
      world = L.set_insert_point b w;
      blocks = record { block = b; locals = [] } ∷ c.blocks;
    }

-- The function has been made, and code goes into it.
abbrev pub begun : (L : Llvm) → String → List String → Context L → Context L
begun L s names c =
    entered L (int_function L s names c.world).0
      (record c { world = (int_function L s names c.world).1 })

define_function-enter :
    (L : Llvm) (f : L.Func) (vars : Vars) (c c₁ : Context L) (body : Code L) (v : Option L.Value)
    (c' : Context L)
    → declare_args L (L.function_args f) vars (entered L f c) ≡ some (tt, c₁)
    → body c₁ ≡ some (v, c')
    → define_function L f vars (some body) c ≡ some (tt, c')
unfolding define_function
define_function-enter L f vars c c₁ body v c' given e = rw (given, ◌>>=◌) (rw (e, ◌>>=◌) refl)

module _ {L : Llvm} (S : Semantics L) (objects : List ThType) (int_ptr : Ptr)
    (typed : IsIntType S objects int_ptr) (lib : CLibrary) where
  declare_function-int :
      (s : String) (names : List String) (c : Context L)
      → c.objects ≡ objects
      → declare_function L int_ptr (name s) (int_vars int_ptr names) c
        ≡ some (
          (s, (int_function L s names c.world).0),
          record c { world = (int_function L s names c.world).1 },
        )
  unfolding declare_function
  declare_function-int s names c same =
      rw (lower_types-int S objects int_ptr typed names c same, ◌>>=◌)
        (rw (lower_type-int S objects int_ptr typed c same, ◌>>=◌) refl)

  definition-built :
      (s : String) (ps : FuncArgs) (names : List String) (ss : Stmts) (st : ParseState) (ns : Nodes)
      → get_type "整数型" st.types ≡ int_ptr
      → params ps ≡ some names
      → build_stmts lib ss st ≡ some (ns, st)
      → build_stmt lib (definition token_int s ps (braces ss)) st
        ≡ some (function_stmt int_ptr (name s) (int_vars int_ptr names) (just (block ns)) false, st)
  unfolding build_stmt build_types
  definition-built s ps names ss st ns int named built =
      rw (build_func_args-params lib int_ptr st int ps names named, ◌>>=◌)
        (rw (built, ◌>>=◌) (rw int refl))

  -- A body that runs in the function's own scope.
  function_code-runs :
      (s : String) (names : List String) (body : Code L) (c c₁ : Context L) (v : Option L.Value)
      (c' : Context L) (b : CodegenBlock L) (bs : List (CodegenBlock L))
      → c.objects ≡ objects
      → declare_args L
          (L.function_args (int_function L s names c.world).0)
          (int_vars int_ptr names)
          (begun L s names c)
        ≡ some (tt, c₁)
      → body c₁ ≡ some (v, c')
      → c'.blocks ≡ b ∷ bs
      → (c'' : Context L) × (function_code L int_ptr
            (name s)
            (int_vars int_ptr names)
            (some body)
            false
            c
          ≡ some (some (L.function_value (int_function L s names c.world).0), c''))
        × (c''.world ≡ c'.world)
        × (c''.errors ≡ c'.errors)
  unfolding function_code complete_function
  function_code-runs s names body c c₁ v c' b bs same given e blocks =
      let f = (int_function L s names c.world).0 in
      let vars = int_vars int_ptr names in
      let made = record c { world = (int_function L s names c.world).1 } in
      let (c'', published, world, errors) =
        publish_function-keeps L s int_ptr vars f c' b bs blocks in
      (
        c'',
        rw (declare_function-int s names c same, ◌>>=◌)
            (rw (define_function-enter L f vars made c₁ body v c' given e, ◌>>=◌)
              (rw (published, ◌>>=◌) refl)),
        world,
        errors,
      )

  -- Over an LLVM with arithmetic and memory as its manual has them, and with one type object of
  -- 整数型 for the parser and the generator, take a function on 整数型 whose body the interpreter
  -- runs, from the parameters with the values of the arguments, to the result `a`. The actions make
  -- a node and change nothing; and where the function's arguments hold these values when its code
  -- begins, the code of the node returns the new function and reports no error, and the last
  -- instruction made is a `ret` of a 32-bit value that holds `a`.
  pub function_code-returns :
      (s : String) (ps : FuncArgs) (names : List String) (args : List ℕ) (body : Stmts) (σ : Store)
      (a : ℕ) (st : ParseState) (c : Context L)
      → get_type "整数型" st.types ≡ int_ptr
      → c.objects ≡ objects
      → params ps ≡ some names
      → bind_args names args [] ≡ some σ
      → result lib σ body ≡ some a
      → Given S objects int_ptr typed
          (begun L s names c).world
          (L.function_args (int_function L s names c.world).0)
          args
      → (n : Node) × (build_stmt lib (definition token_int s ps (braces body)) st ≡ some (n, st))
        × ((v : L.Value) × (w : L.World) × (c' : Context L) × (codegen L n c
              ≡ some (some (L.function_value (int_function L s names c.world).0), c'))
            × (c'.world ≡ (L.create (ret (some v)) w).1)
            × IsWord S w v a
            × (c'.errors ≡ c.errors))
  unfolding codegen
  function_code-returns s ps names args body σ a st c int same named bound h given =
      let c₀ = begun L s names c in
      let r = empty-Represents S objects int_ptr c₀ _ _ same refl in
      let (c₁, declared, r₁, errors₁) =
        declare_args-Declares S objects int_ptr typed names args
          (L.function_args (int_function L s names c.world).0) c₀ [] σ r given bound in
      let (ns, built, (v, c', code, word, errors, (b, bs, blocks))) =
        result-Returns S objects int_ptr typed lib body σ a st c₁ L.indeterminate int r₁ h in
      let (c'', made, world, errors') =
        function_code-runs s names (codegen_block L ns L.indeterminate) c c₁ (some v)
          (record c' { world = (L.create (ret (some v)) c'.world).1 }) b bs same declared code
          blocks in
      (
        function_stmt int_ptr (name s) (int_vars int_ptr names) (just (block ns)) false,
        definition-built s ps names body st ns int named built,
        (v, c'.world, c'', made, world, word, errors' ∙ (errors ∙ errors₁)),
      )
