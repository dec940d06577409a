-- ===== src/Tests/Scan.antt =====
-- The scanner, and the front end from the matches of a file to its nodes.
use th_lang.Base.{◌≡◌, refl, List, [], ◌∷◌}
use th_lang.Ast.{Node, block, cons, nil, binop, name, expr_stmt}
use th_lang.Parser.Tree.{Stmts, variable, by_arith, plus, num, more_stmts, one_stmt, evaluation}
use th_lang.Parser.Actions.{build_program, build_stmts, build_expr}
use th_lang.Parser.Token.{
  mark, word, id_text, token_plus, token_number, terminal_number, text_number,
}
use th_lang.Parser.Rules.{lhs, make}
use th_lang.Parser.Tables.{yypact, yydefact, yypgoto, yydefgoto, yyr1, yyr2}
use th_lang.Parser.Packed.{yytable, yycheck}
use th_lang.Parser.Scanner.{Match, lex, calls, yylex, scan_match, do_action}
use th_lang.Parser.Scanner.Laws.{kept}
use th_lang.Parser.Yield.{stmts_tokens}
use th_lang.Parser.Loops.{IsStraight, parse-lex-IsStraight}
use th_lang.Parser.Automaton.{
  action_at, default_action, entry, add_index, is_default, goto_at, as_state,
}
use th_lang.Parser.Automaton.Values.{
  rule_at, pop_values, pop_value, take, as_nonterminal, next_value, next_number, behind,
}
use th_lang.Parser.Automaton.Machine.{
  parse, run, step, act, accept, reduce_by, reduce_step, land, or_stuck, is_refused, pop_states,
  shift_step, accepted,
}
use th_lang.Driver.Compile.{Platform, DriverState, yyparse, act_on}
use th_lang.Driver.Run.{returns}
use th_lang.Driver.Parse.{yyparse-returns}
use th_lang.Tests.Driver.{toy, toy_system, idle}
use th_lang.Tests.Machine.{toy_library}

-- "a + b", with the space that the rule for all other characters takes.
abbrev sum_matches : List Match
sum_matches =
    record { rule = 37; text = "a" }
    ∷ record { rule = 38; text = " " }
    ∷ record { rule = 10; text = "+" }
    ∷ record { rule = 38; text = " " }
    ∷ record { rule = 37; text = "b" }
    ∷ []

abbrev sum : Stmts
sum = one_stmt (evaluation (by_arith (variable "a") plus (variable "b")))

sum_kept : kept sum_matches ≡ word id_text "a" ∷ mark token_plus ∷ word id_text "b" ∷ []
unfolding kept scan_match do_action
sum_kept = refl

sum_parses : parse toy_library (lex sum_matches) ≡ accepted sum
unfolding lex calls yylex scan_match do_action parse run step act accept action_at default_action
    entry add_index is_default goto_at as_state rule_at reduce_by reduce_step land or_stuck
    is_refused pop_values pop_value take as_nonterminal pop_states shift_step next_value next_number
    behind token_number terminal_number text_number lhs make yypact yydefact yypgoto yydefgoto yyr1
    yyr2 yytable yycheck
sum_parses = refl

parse-lex-IsStraight_example : IsStraight sum
parse-lex-IsStraight_example = parse-lex-IsStraight toy_library sum_matches sum sum_parses

-- "a -1" is two statements: the sign belongs to the number.
sign_is_taken :
    parse toy_library
      (lex (record { rule = 37; text = "a" } ∷ record { rule = 33; text = "-1" } ∷ []))
    ≡ accepted (more_stmts (one_stmt (evaluation (variable "a"))) (evaluation (num "-1")))
unfolding lex calls yylex scan_match do_action parse run step act accept action_at default_action
    entry add_index is_default goto_at as_state rule_at reduce_by reduce_step land or_stuck
    is_refused pop_values pop_value take as_nonterminal pop_states shift_step next_value next_number
    behind token_number terminal_number text_number lhs make yypact yydefact yypgoto yydefgoto yyr1
    yyr2 yytable yycheck
sign_is_taken = refl

-- Every file of this platform reads "a + b".
abbrev summing : Platform
summing = record toy { system = record toy_system { scan = λ f w. (sum_matches, w) } }

abbrev ready : DriverState summing
ready = record { world = 0; types = idle.types; errors = [] }

abbrev sum_node : Node
sum_node = block (cons (expr_stmt (binop "+" (name "a") (name "b"))) nil)

sum_is_read : yyparse summing 3 ready ≡ returns (sum_node, []) ready
unfolding yyparse act_on build_program build_stmts build_expr lex calls yylex scan_match do_action
    parse run step act accept action_at default_action entry add_index is_default goto_at as_state
    rule_at reduce_by reduce_step land or_stuck is_refused pop_values pop_value take as_nonterminal
    pop_states shift_step next_value next_number behind token_number terminal_number text_number lhs
    make yypact yydefact yypgoto yydefgoto yyr1 yyr2 yytable yycheck
sum_is_read = refl

yyparse-returns_example :
    (ss : Stmts) × (stmts_tokens ss ≡ kept sum_matches)
    × IsStraight ss
    × (act_on summing ss ready ≡ returns (sum_node, []) ready)
yyparse-returns_example = yyparse-returns summing 3 ready ready (sum_node, []) sum_is_read
