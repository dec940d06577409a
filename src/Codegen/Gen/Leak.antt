-- ===== src/Codegen/Gen/Leak.antt =====
-- The block that `FunctionStmtAst::codegen` pushes for the function's body.
use th_lang.Base.{
  suc, ◌+◌, String, ◌≡◌, refl, subst, ap, false, Option, none, some, List, [], ◌∷◌, arith, length,
  ◌∙◌, >>=-eq-some, pure, ◌>>◌, fun_ext,
}
use th_lang.Base.Dict.{Dict}
use th_lang.Llvm.{Llvm}
use th_lang.TypeSystem.{Ptr}
use th_lang.Ast.{Node, just, Vars, no_vars, var, function_stmt, block, Nodes, nil, cons}
use th_lang.Codegen.Context.{Context, CodegenBlock, Gen, Code}
use th_lang.Codegen.Context.Laws.{length-set_outermost}
use th_lang.Codegen.Func.{
  var_types, lower_types, declare_arg, declare_args, define_function, publish_function,
  declare_function, complete_function, function_code,
}
use th_lang.Codegen.Gen.{codegen, codegen_block, count}
use th_lang.Codegen.Gen.Balance.{IsPlain, codegen-Settled, Settled-result}
use th_lang.Codegen.Gen.Balance.Rules.{settle, Settled, innermost, with_innermost}

module _ (L : Llvm) where
  lower_types-settle :
      (ps : List Ptr) (c : Context L) → lower_types L ps c ≡ settle L (lower_types L ps) c
  unfolding lower_types
  lower_types-settle [] c = ground arith
  lower_types-settle (p ∷ ps) c = rw (fun_ext (lower_types-settle ps)) (ground arith)

  declare_arg-settle :
      (a : L.Value) (p : Ptr) (target : Node) (c : Context L)
      → declare_arg L a p target c ≡ settle L (declare_arg L a p target) c
  unfolding declare_arg
  declare_arg-settle a p target c = ground arith

  declare_args-settle :
      (args : List L.Value) (vars : Vars) (c : Context L)
      → declare_args L args vars c ≡ settle L (declare_args L args vars) c
  unfolding declare_args
  declare_args-settle [] vars c = ground arith
  declare_args-settle (a ∷ args) no_vars c = refl
  declare_args-settle (a ∷ args) (var p target init vars) c =
      rw (fun_ext (declare_arg-settle a p target), fun_ext (declare_args-settle args vars))
        (ground arith)

  -- The code `m`, made to push one block and to change no other.
  abbrev push_one : L.Block → Gen L (Unit {0}) → Gen L (Unit {0})
  push_one b m c = elim (m c) [
    | none ↦ none
    | some (a, d) ↦ some (
      a,
      record d {
        blocks = record { block = b; locals = innermost L d.blocks } ∷ c.blocks;
        objects = c.objects;
      },
    )
  ]

  define_function-push :
      (f : L.Func) (vars : Vars) (body : Code L) (c : Context L)
      → define_function L f vars (some (settle L body)) c
        ≡ push_one
            (L.create_block "entry" (some f) c.world).0
            (define_function L f vars (some (settle L body)))
            c
  unfolding define_function
  define_function-push f vars body c =
      rw (fun_ext (declare_args-settle (L.function_args f) vars)) (ground arith)

  -- `publish_function` binds a name in a block that is there.
  publish_function-length :
      (s : String) (ret : Ptr) (vars : Vars) (f : L.Func) (c : Context L)
      → (r : Unit {0} × Context L) → publish_function L s ret vars f c ≡ some r
      → length r.1.blocks ≡ length c.blocks
  unfolding publish_function
  publish_function-length s ret vars f c r h = grind (arith, length-set_outermost)

  declare_function-settle :
      (ret : Ptr) (target : Node) (vars : Vars) (c : Context L)
      → declare_function L ret target vars c ≡ settle L (declare_function L ret target vars) c
  unfolding declare_function
  declare_function-settle ret target vars c =
      rw (fun_ext (lower_types-settle (var_types vars))) (ground arith)

  complete_function-length :
      (ret : Ptr) (vars : Vars) (body : Code L) (s : String) (f : L.Func) (c c' : Context L)
      → (v : Option L.Value)
      → complete_function L ret vars (some (settle L body)) false s f c ≡ some (v, c')
      → length c'.blocks ≡ suc (length c.blocks)
  unfolding complete_function
  complete_function-length ret vars body s f c c' v h =
      let (u, d, defined, rest) =
        >>=-eq-some (define_function L f vars (some (settle L body)))
          (λ _. publish_function L s ret vars f >> pure (some (L.function_value f))) c h in
      let (u', e, published, end) =
        >>=-eq-some (publish_function L s ret vars f) (λ _. pure (some (L.function_value f))) d
          rest in
      let kept : length e.blocks ≡ length d.blocks =
        publish_function-length s ret vars f d (u', e) published in
      let pushed : length d.blocks ≡ suc (length c.blocks) =
        ground (arith, defined, define_function-push f vars body c) in
      let last : length c'.blocks ≡ length e.blocks = ground (arith, end) in last ∙ kept ∙ pushed

  length-with_innermost :
      (locals : Dict (Ptr × L.Value)) (blocks : List (CodegenBlock L))
      → length (with_innermost L locals blocks) ≡ length blocks
  length-with_innermost locals [] = refl
  length-with_innermost locals (b ∷ blocks) = refl

  function_code-length :
      (ret : Ptr) (target : Node) (vars : Vars) (body : Code L) (c c' : Context L)
      → (v : Option L.Value) → Settled L body
      → function_code L ret target vars (some body) false c ≡ some (v, c')
      → length c'.blocks ≡ suc (length c.blocks)
  unfolding function_code
  function_code-length ret target vars body c c' v settled h =
      let (declared, d, e, rest) =
        >>=-eq-some (declare_function L ret target vars)
          (λ x. complete_function L ret vars (some body) false x.0 x.1) c h in
      let (framed, _) =
        Settled-result L (declare_function L ret target vars) c d declared
          (fun_ext (declare_function-settle ret target vars)) e in
      let same : length d.blocks ≡ length c.blocks =
        ap length framed ∙ length-with_innermost (innermost L d.blocks) c.blocks in
      complete_function-length ret vars body declared.0 declared.1 d c' v (
        subst
          (λ k. complete_function L ret vars (some k) false declared.0 declared.1 d ≡ some (v, c'))
          settled rest)
      ∙ ap suc same

  -- Code for the definition of a function without inner functions, if it returns, leaves the
  -- function's block on the stack: there is one block more than before.
  pub codegen-function_leak :
      (ret : Ptr) (target body : Node) (vars : Vars) (c c' : Context L) (v : Option L.Value)
      → IsPlain body
      → codegen L (function_stmt ret target vars (just body) false) c ≡ some (v, c')
      → length c'.blocks ≡ suc (length c.blocks)
  unfolding codegen
  codegen-function_leak ret target body vars c c' v plain h =
      function_code-length ret target vars (codegen L body) c c' v (codegen-Settled L plain) h

-- The statements are definitions, with a body, of functions without inner functions.
pub data AreDefinitions : Nodes → Type 0 where
  no_definitions : AreDefinitions nil
  definition :
      (ret : Ptr) (target : Node) (vars : Vars) {body : Node} {ns : Nodes}
      → IsPlain body
      → AreDefinitions ns
      → AreDefinitions (cons (function_stmt ret target vars (just body) false) ns)

module _ (L : Llvm) where
  codegen_block-leak :
      {ns : Nodes}
      → AreDefinitions ns
      → (last v : Option L.Value) (c c' : Context L) → codegen_block L ns last c ≡ some (v, c')
      → length c'.blocks ≡ count ns + length c.blocks
  unfolding codegen count
  codegen_block-leak no_definitions last v c c' h = ground (arith, h)
  codegen_block-leak (definition ret target vars {body} {ns} plain more) last v c c' h =
      let (w, d, first, rest) =
        >>=-eq-some (codegen L (function_stmt ret target vars (just body) false))
          (codegen_block L ns) c h in
      omega (
        arith,
        codegen-function_leak L ret target body vars c d w plain first,
        codegen_block-leak more w v d c' rest,
      )

  -- Code for a program of such definitions, if it returns, leaves as many blocks on the stack as
  -- the program has functions: each function is generated with all earlier ones' names in scope.
  pub codegen-program_leak :
      {ns : Nodes} (c c' : Context L) (v : Option L.Value)
      → AreDefinitions ns
      → codegen L (block ns) c ≡ some (v, c')
      → length c'.blocks ≡ count ns + length c.blocks
  unfolding codegen
  codegen-program_leak c c' v h e = codegen_block-leak h L.indeterminate v c c' e
