-- ===== src/Parser/Automaton/Values.antt =====
-- The values on the stack of `yyparse`, the rule behind a number, and the lookahead.
use th_lang.Base.{
  ℕ, zero, suc, ◌==◌, Option, none, some, List, [], ◌∷◌, get_elem?, if◌then◌else◌, Stateful, pure,
  demand, ◌>>=◌,
}
use th_lang.Parser.Token.{Token, mark, word, terminal_number, text_number, token_number}
use th_lang.Parser.Grammar.{
  Nonterminal, accept_nt, program_nt, block_nt, stmts_nt, stmt_nt, expr_nt, op_nt, assign_nt,
  for_nt, while_nt, if_nt, var_decl_nt, func_args_nt, func_decl_nt, call_args_nt, types_nt,
  func_type_nt, type_list_nt, type_id_nt, var_id_nt, Symbol, end_symbol, mark_symbol, word_symbol,
  nt, Semantic, Meaning, Meanings, Value,
}
use th_lang.Parser.Rules.{
  Rule, case_1, case_2, case_3, case_4, case_5, case_6, case_7, case_8, case_9, case_10, case_11,
  case_12, case_13, case_14, case_15, case_16, case_17, case_18, case_19, case_20, case_21, case_22,
  case_23, case_24, case_25, case_26, case_27, case_28, case_29, case_30, case_31, case_32, case_33,
  case_34, case_35, case_36, case_37, case_38, case_39, case_40, case_41, case_42, case_43, case_44,
  case_45, case_46, case_47, case_48, case_49, case_50, case_51, case_52, case_53, case_54, case_55,
  case_56, case_57, case_58, case_59, case_60, case_61, case_62, case_63, case_64, case_65, case_66,
  case_67, case_68, case_69,
}

-- The value as one of the symbol that the case reads.
unfoldable pub as_nonterminal : (a b : Nonterminal) → Semantic b → Option (Semantic a)
as_nonterminal accept_nt accept_nt v = some v
as_nonterminal program_nt program_nt v = some v
as_nonterminal block_nt block_nt v = some v
as_nonterminal stmts_nt stmts_nt v = some v
as_nonterminal stmt_nt stmt_nt v = some v
as_nonterminal expr_nt expr_nt v = some v
as_nonterminal op_nt op_nt v = some v
as_nonterminal assign_nt assign_nt v = some v
as_nonterminal for_nt for_nt v = some v
as_nonterminal while_nt while_nt v = some v
as_nonterminal if_nt if_nt v = some v
as_nonterminal var_decl_nt var_decl_nt v = some v
as_nonterminal func_args_nt func_args_nt v = some v
as_nonterminal func_decl_nt func_decl_nt v = some v
as_nonterminal call_args_nt call_args_nt v = some v
as_nonterminal types_nt types_nt v = some v
as_nonterminal func_type_nt func_type_nt v = some v
as_nonterminal type_list_nt type_list_nt v = some v
as_nonterminal type_id_nt type_id_nt v = some v
as_nonterminal var_id_nt var_id_nt v = some v
as_nonterminal a b v = none

unfoldable pub take : (x : Symbol) → Value → Option (Meaning x)
take end_symbol (end_symbol, u) = some tt
take (mark_symbol t) (mark_symbol t', u) =
    if terminal_number t == terminal_number t' then some tt else none
take (word_symbol k) (word_symbol k', s) = if text_number k == text_number k' then some s else none
take (nt a) (nt b, v) = as_nonterminal a b v
take x v = none

unfoldable pub pop_value : Stateful (List Value) Value
pop_value [] = none
pop_value (v ∷ vs) = some (v, vs)

-- The values of a right-hand side off the stack, whose top is its last symbol.
unfoldable pub pop_values : (xs : List Symbol) → Stateful (List Value) (Meanings xs)
pop_values [] = pure tt
pop_values (x ∷ xs) = do ms ← pop_values xs; v ← pop_value; m ← demand (take x v); pure (m, ms)

-- The cases by their numbers.
unfoldable pub rule_at : ℕ → Option Rule
rule_at zero = none
rule_at (suc n) = get_elem? cases n
  where
    cases : List Rule
    cases =
        case_1 ∷ case_2 ∷ case_3 ∷ case_4 ∷ case_5 ∷ case_6 ∷ case_7 ∷ case_8 ∷ case_9 ∷ case_10
        ∷ case_11 ∷ case_12 ∷ case_13 ∷ case_14 ∷ case_15 ∷ case_16 ∷ case_17 ∷ case_18 ∷ case_19
        ∷ case_20 ∷ case_21 ∷ case_22 ∷ case_23 ∷ case_24 ∷ case_25 ∷ case_26 ∷ case_27 ∷ case_28
        ∷ case_29 ∷ case_30 ∷ case_31 ∷ case_32 ∷ case_33 ∷ case_34 ∷ case_35 ∷ case_36 ∷ case_37
        ∷ case_38 ∷ case_39 ∷ case_40 ∷ case_41 ∷ case_42 ∷ case_43 ∷ case_44 ∷ case_45 ∷ case_46
        ∷ case_47 ∷ case_48 ∷ case_49 ∷ case_50 ∷ case_51 ∷ case_52 ∷ case_53 ∷ case_54 ∷ case_55
        ∷ case_56 ∷ case_57 ∷ case_58 ∷ case_59 ∷ case_60 ∷ case_61 ∷ case_62 ∷ case_63 ∷ case_64
        ∷ case_65 ∷ case_66 ∷ case_67 ∷ case_68 ∷ case_69 ∷ []

-- The lookahead: its number and its value, and the tokens behind it. The end is read again and again.
unfoldable pub next_number : List Token → ℕ
next_number [] = 0
next_number (t ∷ ts) = token_number t

unfoldable pub next_value : List Token → Value
next_value [] = (end_symbol, tt)
next_value (mark t ∷ ts) = (mark_symbol t, tt)
next_value (word k s ∷ ts) = (word_symbol k, s)

unfoldable pub behind : List Token → List Token
behind [] = []
behind (t ∷ ts) = ts
