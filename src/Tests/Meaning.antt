-- ===== src/Tests/Meaning.antt =====
-- A program through the parser's actions and the code generator, over the evaluator.
use th_lang.Base.{◌≡◌, refl, true, none, some, [], ◌∷◌, str_eq, if◌then◌else◌}
use th_lang.Base.Int.{pos}
use th_lang.Llvm.{ret}
use th_lang.TypeSystem.{new_type_system, get_type}
use th_lang.Ast.{Node, Nodes}
use th_lang.Codegen.Context.{Context}
use th_lang.Codegen.Gen.{codegen, codegen_block}
use th_lang.Parser.Tree.{
  Expr, num, variable, parens, assigned, by_op, by_arith, signed, shl, div, mul, plus, minus,
  minus_sign, token_int, declared, initialised, declaration, evaluation, Stmts, one_stmt,
  more_stmts, definition, return_value, one_param, braces,
}
use th_lang.Parser.Tree.{semicolon_stmt}
use th_lang.Parser.Actions.{CLibrary, ParseState, build_stmts, build_stmt}
use th_lang.Meaning.Source.{Store, params, bind_args, result, run}
use th_lang.Meaning.Represents.{IsIntType, Represents, empty-Represents}
use th_lang.Meaning.Value.{IsWord}
use th_lang.Meaning.Program.{codegen_block-run}
use th_lang.Meaning.Function.{function_code-returns, int_function}
use th_lang.Tests.Evaluator.{word-fixed, evaluator, evaluator-Semantics}

-- The literals of the program.
abbrev library : CLibrary
library = record {
  utf8 = λ s. [];
  atol = λ s.
      some (
        pos
          (if str_eq s "2" then 2 else if str_eq s "3" then 3 else if str_eq s "4" then 4 else 5));
  stod = λ s. none;
}

-- 整数型 a = 3 + 4 * 2; 整数型 b; b = (a << 2) / 5;
abbrev statements : Stmts
statements =
    more_stmts
      (more_stmts
        (one_stmt (
          declaration (
            initialised token_int "a"
              (by_arith (num "3") plus (by_arith (num "4") mul (num "2"))))))
        (declaration (declared token_int "b")))
      (evaluation
        (assigned "b" (by_arith (parens (by_op (variable "a") shl (num "2"))) div (num "5"))))

-- return b - -x;
abbrev difference : Expr
difference = by_arith (variable "b") minus (signed minus_sign (variable "x"))

abbrev pub called_with : Store
called_with = ("x", some 7) ∷ []

abbrev body : Stmts
body = semicolon_stmt statements (return_value difference)

abbrev variables : Store
variables = ("a", some 11) ∷ ("b", some 8) ∷ []

abbrev parsed : ParseState
parsed = record { types = new_type_system; texts = []; errors = [] }

abbrev block_start : Context evaluator
block_start = record {
  world = record { temps = []; cells = []; returned = none };
  blocks = record { block = 0; locals = [] } ∷ [];
  objects = new_type_system.objects;
  texts = [];
  errors = [];
}

runs : run library [] statements ≡ some variables
unfolding run
runs = refl

returns_15 : result library called_with body ≡ some 15
unfolding result
returns_15 = refl

pub binds : bind_args ("x" ∷ []) (7 ∷ []) [] ≡ some called_with
unfolding bind_args
binds = refl

pub has_params : params (one_param (declared token_int "x")) ≡ some ("x" ∷ [])
unfolding params
has_params = refl

is_int : IsIntType evaluator-Semantics new_type_system.objects 1
unfolding new_type_system
is_int = (true, 4, refl)

int_type : get_type "整数型" new_type_system ≡ 1
unfolding get_type new_type_system
int_type = refl

codegen_block-run_example :
    (ns : Nodes) × (build_stmts library statements parsed ≡ some (ns, parsed))
    × ((v : evaluator.Value) × (c : Context evaluator) × (codegen_block evaluator ns none
            block_start
          ≡ some (some v, c))
        × Represents evaluator-Semantics new_type_system.objects 1 c variables
        × (c.errors ≡ []))
codegen_block-run_example =
    codegen_block-run evaluator-Semantics new_type_system.objects 1 is_int library statements []
      variables parsed block_start none int_type
      (empty-Represents evaluator-Semantics new_type_system.objects 1 block_start
        (record { block = 0; locals = [] }) [] refl refl)
      runs

-- 整数型 f(整数型 x) { … } with the argument 7.
function_code-returns_example :
    (n : Node) × (build_stmt library
        (definition token_int "f" (one_param (declared token_int "x")) (braces body))
        parsed
      ≡ some (n, parsed))
    × ((v : evaluator.Value) × (w : evaluator.World) × (c : Context evaluator) × (codegen evaluator
            n block_start
          ≡ some (
            some (
                evaluator.function_value
                  (int_function evaluator "f" ("x" ∷ []) block_start.world).0),
            c,
          ))
        × (c.world ≡ (evaluator.create (ret (some v)) w).1)
        × IsWord evaluator-Semantics w v 15
        × (c.errors ≡ []))
function_code-returns_example =
    function_code-returns evaluator-Semantics new_type_system.objects 1 is_int library "f"
      (one_param (declared token_int "x")) ("x" ∷ []) (7 ∷ []) body called_with 15 parsed
      block_start int_type refl has_params binds returns_15 (word-fixed _ 32 7, tt)
