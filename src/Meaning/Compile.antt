-- ===== src/Meaning/Compile.antt =====
-- `compile_toir` on the text of a function, from the source file to the module.
use th_lang.Base.{ℕ, String, ◌≡◌, refl, ap, ◌∙◌, Option, some, List, []}
use th_lang.Llvm.{ret}
use th_lang.TypeSystem.{get_type}
use th_lang.Ast.{Node, block, cons, nil}
use th_lang.Codegen.Context.{Context}
use th_lang.Codegen.Gen.{codegen}
use th_lang.Parser.Tree.{Stmts, Stmt, one_stmt, definition, token_int, FuncArgs, braces}
use th_lang.Parser.Actions.{ParseState, build_stmt}
use th_lang.Parser.Scanner.{lex}
use th_lang.Parser.Automaton.Machine.{accepted, parse}
use th_lang.Driver.Run.{returns, ◌>>=◌, ◌>>◌}
use th_lang.Driver.Compile.{
  Platform, DriverState, effect, act_on, finish_parse, generate, yyparse, compile_toir,
}
use th_lang.Meaning.Source.{Store, params, bind_args, result}
use th_lang.Meaning.Semantics.{Semantics}
use th_lang.Meaning.Represents.{IsIntType}
use th_lang.Meaning.Params.{Given}
use th_lang.Meaning.Value.{IsWord}
use th_lang.Meaning.Root.{build_program-one, codegen-one}
use th_lang.Meaning.Function.{function_code-returns, int_function, begun}

module _ (P : Platform) where
  abbrev pub fresh_context : DriverState P → Context P.llvm
  fresh_context s = record {
    world = P.new_world;
    blocks = [];
    objects = s.types.objects;
    texts = [];
    errors = s.errors;
  }

  abbrev parse_state : DriverState P → ParseState
  parse_state s = record { types = s.types; texts = []; errors = s.errors }

  generate-one :
      (n : Node) (s : DriverState P) (v : Option P.llvm.Value) (c : Context P.llvm)
      → codegen P.llvm n (fresh_context s) ≡ some (v, c)
      → generate P (block (cons n nil)) [] s
        ≡ returns
            (P.print_module c.world)
            (record s { types = record (s.types) { objects = c.objects }; errors = c.errors })
  unfolding generate
  generate-one n s v c e = rw (codegen-one P.llvm n v (fresh_context s) c e, generate) refl

  yyparse-one :
      (file : P.system.File) (d : Stmt) (s : DriverState P) (n : Node)
      → parse P.library (lex (P.system.scan file s.world).0) ≡ accepted (one_stmt d)
      → build_stmt P.library d (parse_state s) ≡ some (n, parse_state s)
      → yyparse P file s
        ≡ returns (block (cons n nil), []) (record s { world = (P.system.scan file s.world).1 })
  unfolding yyparse
  yyparse-one file d s n parsed built =
      rw (parsed, finish_parse)
        (rw (build_program-one P.library d (parse_state s) n built, act_on) refl)

  -- The source file, as the scanner finds it.
  abbrev pub source_world : String → P.system.File → P.system.World → P.system.World
  source_world code file w = P.system.rewind file (P.system.put_text code file w)

  compile_toir-generate :
      (code : String) (file : P.system.File) (w : P.system.World) (d : Stmt) (s : DriverState P)
      (n : Node)
      → P.system.tmpfile s.world ≡ (some file, w)
      → parse P.library (lex (P.system.scan file (source_world code file w)).0)
        ≡ accepted (one_stmt d)
      → build_stmt P.library d (parse_state s) ≡ some (n, parse_state s)
      → compile_toir P code s
        ≡ generate P (block (cons n nil)) [] (record s {
          world = P.system.close_file file (P.system.scan file (source_world code file w)).1;
        })
  unfolding compile_toir
  compile_toir-generate code file w d s n made parsed built =
      let read =
        yyparse-one file d (record s { world = source_world code file w }) n parsed built in
      rw (made, ◌>>=◌) (rw (read, ◌>>◌, ◌>>=◌, effect) refl)

  module _ (S : Semantics P.llvm) where
    -- Over an LLVM with arithmetic and memory as its manual has them, take a source that the scanner
    -- and the parser read as one function on 整数型, whose body the interpreter runs, from the
    -- parameters with the values of the arguments, to the result `a`. Where there is a temporary file
    -- and the type table has 整数型, `compile_toir` returns, reporting no error, and what it returns is
    -- the text of a module whose last instruction is a `ret` of a 32-bit value that holds `a`, if the
    -- function's arguments hold these values when its code begins.
    pub compile_toir-returns :
        (code : String) (file : P.system.File) (w : P.system.World) (s : DriverState P) (f : String)
        (ps : FuncArgs) (names : List String) (args : List ℕ) (body : Stmts) (σ : Store) (a : ℕ)
        (typed : IsIntType S s.types.objects (get_type "整数型" s.types))
        → P.system.tmpfile s.world ≡ (some file, w)
        → parse P.library (lex (P.system.scan file (source_world code file w)).0)
          ≡ accepted (one_stmt (definition token_int f ps (braces body)))
        → params ps ≡ some names
        → bind_args names args [] ≡ some σ
        → result P.library σ body ≡ some a
        → Given S s.types.objects
            (get_type "整数型" s.types)
            typed
            (begun P.llvm f names (fresh_context s)).world
            (P.llvm.function_args (int_function P.llvm f names P.new_world).0)
            args
        → (v : P.llvm.Value) × (u : P.llvm.World) × (s' : DriverState P) × (compile_toir P code s
            ≡ returns (P.print_module (P.llvm.create (ret (some v)) u).1) s')
          × IsWord S u v a
          × (s'.errors ≡ s.errors)
    compile_toir-returns code file w s f ps names args body σ a typed made parsed named bound h
          given =
        let (n, built, (v, u, c, generated, world, word, errors)) =
          function_code-returns S s.types.objects (get_type "整数型" s.types) typed P.library f ps
            names args body σ a (parse_state s) (fresh_context s) refl refl named bound h given in
        let s₁ = record s {
          world = P.system.close_file file (P.system.scan file (source_world code file w)).1;
        } in
        let s₂ = record s₁ {
          types = record (s.types) { objects = c.objects };
          errors = c.errors;
        } in
        (
          v,
          u,
          s₂,
          compile_toir-generate code file w _ s n made parsed built
              ∙ (generate-one n s₁ _ c generated ∙ ap (λ x. returns (P.print_module x) s₂) world),
          word,
          errors,
        )
