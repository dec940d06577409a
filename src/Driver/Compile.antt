-- ===== src/Driver/Compile.antt =====
-- `compile_toir`, `compile_toir_from_file`, `compile_fir_to_asm`, `compile_fir_to_obj`, and
-- `CodeGenContext`'s `asmgen` and `objgen`, which differ in the type of the file alone.
use th_lang.Base.{ℕ, String, ◌<>◌, Option, none, some, List, [], ◌∷◌, ◌++◌, if◌then◌else◌}
use th_lang.TypeSystem.{TypeSystem}
use th_lang.Llvm.{Llvm}
use th_lang.Ast.{Node}
use th_lang.Codegen.Gen.{codegen}
use th_lang.Parser.Actions.{CLibrary, build_program}
use th_lang.Parser.Tree.{Stmts}
use th_lang.Parser.Scanner.{lex}
use th_lang.Parser.Automaton.Machine.{
  Outcome, accepted, syntax_error, exhausted, refused, out_of_range, stuck, out_of_fuel, parse,
}
use th_lang.Driver.System.{System, FileType, assembly_file, object_file}
use th_lang.Driver.Run.{returns, throws, exits, undefined, Run, throw, ◌>>=◌, ◌>>◌}

-- The external components of a compiler: `print_module` is the text of the module that LLVM holds,
-- and `new_world` LLVM's state with a fresh module.
pub record Platform : Type 1 where
  pub llvm : Llvm
  pub new_world : llvm.World
  pub print_module : llvm.World → String
  pub library : CLibrary
  pub system : System

module _ (P : Platform) where
  -- The world, the global `type_System`, and what was written to standard error.
  pub record DriverState : Type 0 where
    pub world : P.system.World
    pub types : TypeSystem
    pub errors : List String

  abbrev pub Drive : Type 0 → Type 0
  Drive A = Run DriverState A

  -- An outside call with a result, and one without.
  unfoldable pub outside : {A : Type 0} → (P.system.World → A × P.system.World) → Drive A
  outside f s = let (a, w) = f s.world in returns a (record s { world = w })

  unfoldable pub effect : (P.system.World → P.system.World) → Drive (Unit {0})
  effect f s = returns tt (record s { world = f s.world })

  unfoldable pub report : String → Drive (Unit {0})
  report e s = returns tt (record s { errors = s.errors ++ e ∷ [] })

  -- The actions of an accepted parse. The new type objects stay in the global table; the tree comes
  -- with its string cells. A literal that `stod` refuses, or that is out of the range of `atol`, has
  -- ended the parse before; the actions alone do not see that.
  unfoldable pub act_on : Stmts → Drive (Node × List (List ℕ))
  act_on ss s =
      elim (build_program P.library ss
        (record { types = s.types; texts = []; errors = s.errors })) [
          | none ↦ undefined
          | some (n, st) ↦ returns (n, st.texts) (record s { types = st.types; errors = st.errors })
        ]

  -- A syntax error and a full stack end the process, and a number that `stod` refuses throws. After a
  -- throw nothing points to the type objects of the parse, and they are left out.
  unfoldable pub finish_parse : Outcome → Drive (Node × List (List ℕ))
  finish_parse (accepted ss) = act_on ss
  finish_parse syntax_error = exits
  finish_parse exhausted = exits
  finish_parse refused = throws "stod"
  finish_parse out_of_range = λ s. undefined
  finish_parse stuck = λ s. undefined
  finish_parse out_of_fuel = λ s. undefined

  unfoldable pub yyparse : P.system.File → Drive (Node × List (List ℕ))
  unfolding outside act_on finish_parse
  yyparse file = do
    matches ← outside (P.system.scan file)
    finish_parse (parse P.library (lex matches))

  -- `root_module.codegen(context)` and the printing of the module.
  unfoldable pub generate : Node → List (List ℕ) → Drive String
  generate n texts s =
      elim (codegen P.llvm n (record {
        world = P.new_world;
        blocks = [];
        objects = s.types.objects;
        texts = texts;
        errors = s.errors;
      })) [
        | none ↦ undefined
        | some (v, c) ↦
            returns (P.print_module c.world)
              (record s { types = record (s.types) { objects = c.objects }; errors = c.errors })
      ]

  unfoldable pub compile_toir : String → Drive String
  unfolding outside effect yyparse generate
  compile_toir code = do
    temp ← outside P.system.tmpfile
    elim temp [
      | none ↦ throw "Failed to create temporary file"
      | some file ↦ do
        effect (P.system.put_text code file)
        effect (P.system.rewind file)
        parsed ← yyparse file
        effect (P.system.close_file file)
        generate parsed.0 parsed.1
    ]

  unfoldable pub compile_toir_from_file : String → Drive String
  unfolding outside
  compile_toir_from_file path = do
    content ← outside (P.system.read_file path)
    elim content [ none ↦ throw ("Failed to open file: " <> path) | some code ↦ compile_toir code ]

  -- `asmgen` and `objgen`. Every failure is a message and a plain return.
  unfoldable pub emit : FileType → Option P.system.Module → P.system.File → Drive (Unit {0})
  unfolding outside effect report
  emit type none file = report "Error: Module is null"
  emit type (some module_) file = do
    effect P.system.initialize_targets
    target ← λ s. returns (P.system.lookup_target P.system.default_triple s.world) s
    elim target [
      | none ↦ report "Error: no target"
      | some t ↦ do
        let machine = P.system.create_machine t P.system.default_triple
        fd ← λ s. returns (P.system.fileno file s.world) s
        elim fd [
          | none ↦ report "Error getting file descriptor"
          | some n ↦ do
            unable ← outside (P.system.add_passes machine type n)
            if unable
                then report "TargetMachine can't emit a file of this type"
                else effect (
                    P.system.run_passes machine type n (
                      P.system.set_data_layout machine
                        (P.system.set_target_triple P.system.default_triple module_)))
        ]
    ]

  -- `parseIRFromString`, then the emission of whatever came of it.
  unfoldable pub compile_fir : FileType → String → P.system.File → Drive (Unit {0})
  unfolding outside
  compile_fir type ir file = do
    module_ ← outside (P.system.parse_assembly ir)
    emit type module_ file

  unfoldable pub compile_fir_to_asm : String → P.system.File → Drive (Unit {0})
  unfolding compile_fir
  compile_fir_to_asm ir file = compile_fir assembly_file ir file

  unfoldable pub compile_fir_to_obj : String → P.system.File → Drive (Unit {0})
  unfolding compile_fir
  compile_fir_to_obj ir file = compile_fir object_file ir file
