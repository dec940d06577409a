-- ===== src/Tests/Parse.antt =====
-- The parser's automaton on small inputs.
use th_lang.Base.{arith, true, false}
use th_lang.Parser.Automaton.Growth.{
  parse_growing, ended, parse_growing-parse, grow, doubled, room, no_memory,
}
use th_lang.Parser.Automaton.Machine.{exhausted}
use th_lang.Parser.Automaton.Depth.{parse-exhausted}
use th_lang.Base.{◌≡◌, refl, [], ◌∷◌, List}
use th_lang.Base.{◌≢◌}
use th_lang.Parser.Yield.{stmts_tokens}
use th_lang.Parser.Token.{token_nlt}
use th_lang.Parser.Tree.{by_op, nlt}
use th_lang.Parser.Automaton.Machine.{stuck, out_of_fuel}
use th_lang.Parser.Automaton.Sound.{parse-tokens}
use th_lang.Parser.Automaton.Decided.{parse-IsDecided}
use th_lang.Parser.Tree.{
  token_int, variable, num, by_arith, plus, mul, one_stmt, definition, no_params, braces,
  return_value, evaluation,
}
use th_lang.Parser.Token.{
  Token, mark, word, id_text, num_text, token_int_type, lparen, rparen, lbrace, rbrace,
  token_return, token_plus, token_mul,
}
use th_lang.Parser.Token.{token_number, terminal_number, text_number}
use th_lang.Parser.Rules.{lhs, make}
use th_lang.Parser.Tables.{yypact, yydefact, yypgoto, yydefgoto, yyr1, yyr2}
use th_lang.Parser.Packed.{yytable, yycheck}
use th_lang.Parser.Automaton.{
  action_at, default_action, entry, add_index, is_default, goto_at, as_state,
}
use th_lang.Parser.Automaton.Machine.{
  parse, run, step, act, accept, reduce_by, reduce_step, land, or_stuck, is_refused, pop_states,
  shift_step, accepted, syntax_error,
}
use th_lang.Parser.Automaton.Values.{
  rule_at, pop_values, pop_value, take, as_nonterminal, next_value, next_number, behind,
}
use th_lang.Tests.Machine.{toy_library}

abbrev entry_tokens : List Token
entry_tokens =
    mark token_int_type
    ∷ word id_text "f"
    ∷ mark lparen
    ∷ mark rparen
    ∷ mark lbrace
    ∷ mark token_return
    ∷ word num_text "0"
    ∷ mark rbrace
    ∷ []

entry_parses :
    parse toy_library entry_tokens
    ≡ accepted
        (one_stmt (definition token_int "f" no_params (braces (one_stmt (return_value (num "0"))))))
unfolding parse run step act accept action_at default_action entry add_index is_default goto_at
    as_state rule_at reduce_by reduce_step land or_stuck is_refused pop_values pop_value take
    as_nonterminal pop_states shift_step next_value next_number behind token_number terminal_number
    text_number lhs make yypact yydefact yypgoto yydefgoto yyr1 yyr2 yytable yycheck
entry_parses = refl

-- Precedence.
sum_parses :
    parse toy_library (
      word id_text "a"
      ∷ mark token_plus
      ∷ word num_text "2"
      ∷ mark token_mul
      ∷ word num_text "3"
      ∷ [])
    ≡ accepted
        (one_stmt (evaluation (by_arith (variable "a") plus (by_arith (num "2") mul (num "3")))))
unfolding parse run step act accept action_at default_action entry add_index is_default goto_at
    as_state rule_at reduce_by reduce_step land or_stuck is_refused pop_values pop_value take
    as_nonterminal pop_states shift_step next_value next_number behind token_number terminal_number
    text_number lhs make yypact yydefact yypgoto yydefgoto yyr1 yyr2 yytable yycheck
sum_parses = refl

open_brace_fails : parse toy_library (mark lbrace ∷ []) ≡ syntax_error
unfolding parse run step act accept action_at default_action entry add_index is_default goto_at
    as_state rule_at reduce_by reduce_step land or_stuck is_refused pop_values pop_value take
    as_nonterminal pop_states shift_step next_value next_number behind token_number terminal_number
    text_number lhs make yypact yydefact yypgoto yydefgoto yyr1 yyr2 yytable yycheck
open_brace_fails = refl

empty_fails : parse toy_library [] ≡ syntax_error
unfolding parse run step act accept action_at default_action entry add_index is_default goto_at
    as_state rule_at reduce_by reduce_step land or_stuck is_refused pop_values pop_value take
    as_nonterminal pop_states shift_step next_value next_number behind token_number terminal_number
    text_number lhs make yypact yydefact yypgoto yydefgoto yyr1 yyr2 yytable yycheck
empty_fails = refl

-- An operator of another kind has no rank: this is a + (1 < b).
rank_is_missing :
    parse toy_library (
      word id_text "a"
      ∷ mark token_plus
      ∷ word num_text "1"
      ∷ mark token_nlt
      ∷ word id_text "b"
      ∷ [])
    ≡ accepted
        (one_stmt (evaluation (by_arith (variable "a") plus (by_op (num "1") nlt (variable "b")))))
unfolding parse run step act accept action_at default_action entry add_index is_default goto_at
    as_state rule_at reduce_by reduce_step land or_stuck is_refused pop_values pop_value take
    as_nonterminal pop_states shift_step next_value next_number behind token_number terminal_number
    text_number lhs make yypact yydefact yypgoto yydefgoto yyr1 yyr2 yytable yycheck
rank_is_missing = refl

parse-tokens_example :
    stmts_tokens
      (one_stmt (definition token_int "f" no_params (braces (one_stmt (return_value (num "0"))))))
    ≡ entry_tokens
parse-tokens_example = parse-tokens toy_library entry_tokens _ entry_parses

parse-IsDecided_example :
    (parse toy_library (mark lbrace ∷ []) ≢ stuck)
    × (parse toy_library (mark lbrace ∷ []) ≢ out_of_fuel)
parse-IsDecided_example = parse-IsDecided toy_library (mark lbrace ∷ [])

parse-exhausted_example : parse toy_library entry_tokens ≢ exhausted
parse-exhausted_example = parse-exhausted toy_library entry_tokens (omega arith)

parse_growing-parse_example :
    parse_growing (λ n. true) toy_library entry_tokens ≡ ended (parse toy_library entry_tokens)
parse_growing-parse_example = parse_growing-parse (λ n. true) toy_library (λ n. refl) entry_tokens

-- A full stack is doubled, up to the greatest size.
growth :
    (grow (λ n. true) 199 200 ≡ room 200)
    × (grow (λ n. true) 200 200 ≡ room 400)
    × (grow (λ n. true) 6400 6400 ≡ room 10000)
    × (grow (λ n. true) 10000 10000 ≡ no_memory)
    × (grow (λ n. false) 200 200 ≡ no_memory)
unfolding grow doubled
growth = (refl, refl, refl, refl, refl)
