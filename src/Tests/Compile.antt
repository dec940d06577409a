-- ===== src/Tests/Compile.antt =====
-- A source through the whole of `compile_toir`, over the evaluator.
use th_lang.Base.{◌==◌, if◌then◌else◌, ◌≡◌, refl, true, none, some, List, [], ◌∷◌}
use th_lang.Base.Int.{pos}
use th_lang.Llvm.{ret}
use th_lang.TypeSystem.{new_type_system, get_type}
use th_lang.Parser.Tree.{
  num, variable, by_arith, plus, mul, token_int, declared, initialised, declaration, Stmts,
  one_stmt, semicolon_stmt, definition, return_value, one_param, braces,
}
use th_lang.Parser.Actions.{CLibrary}
use th_lang.Parser.Token.{token_number, terminal_number, text_number}
use th_lang.Parser.Rules.{lhs, make}
use th_lang.Parser.Tables.{yypact, yydefact, yypgoto, yydefgoto, yyr1, yyr2}
use th_lang.Parser.Packed.{yytable, yycheck}
use th_lang.Parser.Scanner.{Match, lex, calls, yylex, scan_match, do_action}
use th_lang.Parser.Automaton.{
  action_at, default_action, entry, add_index, is_default, goto_at, as_state,
}
use th_lang.Parser.Automaton.Values.{
  rule_at, pop_values, pop_value, take, as_nonterminal, next_value, next_number, behind,
}
use th_lang.Parser.Automaton.Machine.{
  parse, run, step, act, accept, reduce_by, reduce_step, land, or_stuck, is_refused, pop_states,
  shift_step, accepted,
}
use th_lang.Driver.Compile.{Platform, DriverState, compile_toir}
use th_lang.Driver.Run.{returns}
use th_lang.Meaning.Source.{result}
use th_lang.Meaning.Represents.{IsIntType}
use th_lang.Meaning.Value.{IsWord}
use th_lang.Meaning.Compile.{compile_toir-returns}
use th_lang.Tests.Evaluator.{word-fixed, evaluator, evaluator-Semantics}
use th_lang.Tests.Driver.{toy_system}
use th_lang.Tests.Meaning.{called_with, binds, has_params}

-- 整数型 f(整数型 x) { 整数型 a = x + 2; return a * 2 }
abbrev matches : List Match
matches =
    record { rule = 34; text = "整数型" }
    ∷ record { rule = 37; text = "f" }
    ∷ record { rule = 4; text = "(" }
    ∷ record { rule = 34; text = "整数型" }
    ∷ record { rule = 37; text = "x" }
    ∷ record { rule = 5; text = ")" }
    ∷ record { rule = 8; text = "{" }
    ∷ record { rule = 34; text = "整数型" }
    ∷ record { rule = 37; text = "a" }
    ∷ record { rule = 15; text = "=" }
    ∷ record { rule = 37; text = "x" }
    ∷ record { rule = 10; text = "+" }
    ∷ record { rule = 33; text = "2" }
    ∷ record { rule = 2; text = ";" }
    ∷ record { rule = 35; text = "return" }
    ∷ record { rule = 37; text = "a" }
    ∷ record { rule = 12; text = "*" }
    ∷ record { rule = 33; text = "2" }
    ∷ record { rule = 9; text = "}" }
    ∷ []

abbrev body : Stmts
body =
    semicolon_stmt
      (one_stmt (declaration (initialised token_int "a" (by_arith (variable "x") plus (num "2")))))
      (return_value (by_arith (variable "a") mul (num "2")))

-- Every number is 2.
abbrev library : CLibrary
library = record { utf8 = λ s. []; atol = λ s. some (pos 2); stod = λ s. none }

abbrev platform : Platform
platform = record {
  llvm = evaluator;
  new_world = record { temps = []; cells = []; returned = none };
  print_module = λ w. elim w.returned [ some n ↦ if n == 18 then "18" else "other" | none ↦ "" ];
  library = library;
  system = record toy_system { scan = λ f w. (matches, w) };
}

abbrev ready : DriverState platform
ready = record { world = 0; types = new_type_system; errors = [] }

read :
    parse library (lex matches)
    ≡ accepted
        (one_stmt (definition token_int "f" (one_param (declared token_int "x")) (braces body)))
unfolding lex calls yylex scan_match do_action parse run step act accept action_at default_action
    entry add_index is_default goto_at as_state rule_at reduce_by reduce_step land or_stuck
    is_refused pop_values pop_value take as_nonterminal pop_states shift_step next_value next_number
    behind token_number terminal_number text_number lhs make yypact yydefact yypgoto yydefgoto yyr1
    yyr2 yytable yycheck
read = refl

returns_18 : result library called_with body ≡ some 18
unfolding result
returns_18 = refl

is_int : IsIntType evaluator-Semantics new_type_system.objects (get_type "整数型" new_type_system)
unfolding new_type_system get_type
is_int = (true, 4, refl)

compile_toir-returns_example :
    (v : platform.llvm.Value) × (w : platform.llvm.World) × (s : DriverState platform)
    × (compile_toir platform "" ready
        ≡ returns (platform.print_module (platform.llvm.create (ret (some v)) w).1) s)
    × IsWord evaluator-Semantics w v 18
    × (s.errors ≡ [])
compile_toir-returns_example =
    compile_toir-returns platform evaluator-Semantics "" 3 0 ready "f"
      (one_param (declared token_int "x")) ("x" ∷ []) (7 ∷ []) body called_with 18 is_int refl read
      has_params binds returns_18 (word-fixed _ 32 7, tt)
