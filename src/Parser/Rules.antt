-- ===== src/Parser/Rules.antt =====
-- The rules of the grammar, a rule for each case of `yyparse`'s switch: its two sides, and the value
-- that it makes.
use th_lang.Base.{List, [], ◌∷◌}
use th_lang.Parser.Tree.{
  equal, ceq, nel, nlt, nle, ngt, nge, xor, shl, shr, and, or, mod_, mul, div, plus, minus,
  minus_sign, plus_sign, not_sign, token_int, type_id, func_none, func_list, one_type, more_types,
  num, text, real, assigned, variable, parens, by_op, by_arith, signed, called, no_args, one_arg,
  more_args, declared, initialised, no_params, one_param, more_params, braces, empty_braces,
  one_stmt, more_stmts, semicolon, semicolon_stmt, conditional, while_loop, for_loop, declaration,
  definition, external, return_nothing, return_value, evaluation, if_then, if_else, if_else_if,
}
use th_lang.Parser.Token.{
  token_int_type, token_plus, token_minus, token_mul, token_div, lparen, rparen, lbrace, rbrace,
  token_return, token_if, token_else, token_while, token_for, token_extern, token_equal, token_ceq,
  token_nel, token_nlt, token_nle, token_ngt, token_nge, token_xor, token_mod, token_shl, token_shr,
  token_and, token_or, token_not, token_comma, token_semicolon, id_text, num_text, string_text,
  float_text,
}
use th_lang.Parser.Grammar.{
  Nonterminal, accept_nt, program_nt, block_nt, stmts_nt, stmt_nt, expr_nt, op_nt, assign_nt,
  for_nt, while_nt, if_nt, var_decl_nt, func_args_nt, func_decl_nt, call_args_nt, types_nt,
  func_type_nt, type_list_nt, type_id_nt, var_id_nt, Symbol, end_symbol, mark_symbol, word_symbol,
  nt, Semantic, Meanings,
}

-- The cases of the switch; the first is the rule for the whole input, which is never reduced.
pub data Rule : Type 0 where
  case_1 case_2 case_3 case_4 case_5 case_6 case_7 case_8 case_9 case_10 case_11 case_12 case_13
        case_14 case_15 case_16 case_17 case_18 case_19 case_20 case_21 case_22 case_23 case_24
        case_25 case_26 case_27 case_28 case_29 case_30 case_31 case_32 case_33 case_34 case_35
        case_36 case_37 case_38 case_39 case_40 case_41 case_42 case_43 case_44 case_45 case_46
        case_47 case_48 case_49 case_50 case_51 case_52 case_53 case_54 case_55 case_56 case_57
        case_58 case_59 case_60 case_61 case_62 case_63 case_64 case_65 case_66 case_67 case_68
        case_69 :
      Rule

unfoldable pub lhs : Rule → Nonterminal
lhs case_1 = accept_nt
lhs case_2 = program_nt
lhs case_3 = block_nt
lhs case_4 = block_nt
lhs case_5 = stmts_nt
lhs case_6 = stmts_nt
lhs case_7 = stmts_nt
lhs case_8 = stmts_nt
lhs case_9 = stmt_nt
lhs case_10 = stmt_nt
lhs case_11 = stmt_nt
lhs case_12 = stmt_nt
lhs case_13 = stmt_nt
lhs case_14 = stmt_nt
lhs case_15 = stmt_nt
lhs case_16 = stmt_nt
lhs case_17 = expr_nt
lhs case_18 = expr_nt
lhs case_19 = expr_nt
lhs case_20 = expr_nt
lhs case_21 = expr_nt
lhs case_22 = expr_nt
lhs case_23 = expr_nt
lhs case_24 = expr_nt
lhs case_25 = expr_nt
lhs case_26 = expr_nt
lhs case_27 = expr_nt
lhs case_28 = expr_nt
lhs case_29 = expr_nt
lhs case_30 = expr_nt
lhs case_31 = expr_nt
lhs case_32 = expr_nt
lhs case_33 = op_nt
lhs case_34 = op_nt
lhs case_35 = op_nt
lhs case_36 = op_nt
lhs case_37 = op_nt
lhs case_38 = op_nt
lhs case_39 = op_nt
lhs case_40 = op_nt
lhs case_41 = op_nt
lhs case_42 = op_nt
lhs case_43 = op_nt
lhs case_44 = op_nt
lhs case_45 = assign_nt
lhs case_46 = for_nt
lhs case_47 = while_nt
lhs case_48 = if_nt
lhs case_49 = if_nt
lhs case_50 = if_nt
lhs case_51 = var_decl_nt
lhs case_52 = var_decl_nt
lhs case_53 = func_args_nt
lhs case_54 = func_args_nt
lhs case_55 = func_args_nt
lhs case_56 = func_decl_nt
lhs case_57 = func_decl_nt
lhs case_58 = call_args_nt
lhs case_59 = call_args_nt
lhs case_60 = call_args_nt
lhs case_61 = types_nt
lhs case_62 = types_nt
lhs case_63 = types_nt
lhs case_64 = func_type_nt
lhs case_65 = func_type_nt
lhs case_66 = type_list_nt
lhs case_67 = type_list_nt
lhs case_68 = type_id_nt
lhs case_69 = var_id_nt

abbrev pub rhs : Rule → List Symbol
rhs case_1 = nt program_nt ∷ end_symbol ∷ []
rhs case_2 = nt stmts_nt ∷ []
rhs case_3 = mark_symbol lbrace ∷ nt stmts_nt ∷ mark_symbol rbrace ∷ []
rhs case_4 = mark_symbol lbrace ∷ mark_symbol rbrace ∷ []
rhs case_5 = nt stmts_nt ∷ nt stmt_nt ∷ []
rhs case_6 = nt stmts_nt ∷ mark_symbol token_semicolon ∷ []
rhs case_7 = nt stmts_nt ∷ mark_symbol token_semicolon ∷ nt stmt_nt ∷ []
rhs case_8 = nt stmt_nt ∷ []
rhs case_9 = nt if_nt ∷ []
rhs case_10 = nt while_nt ∷ []
rhs case_11 = nt for_nt ∷ []
rhs case_12 = nt var_decl_nt ∷ []
rhs case_13 = nt func_decl_nt ∷ []
rhs case_14 = mark_symbol token_return ∷ []
rhs case_15 = mark_symbol token_return ∷ nt expr_nt ∷ []
rhs case_16 = nt expr_nt ∷ []
rhs case_17 = word_symbol num_text ∷ []
rhs case_18 = word_symbol string_text ∷ []
rhs case_19 = word_symbol float_text ∷ []
rhs case_20 = nt assign_nt ∷ []
rhs case_21 = nt var_id_nt ∷ []
rhs case_22 = mark_symbol lparen ∷ nt expr_nt ∷ mark_symbol rparen ∷ []
rhs case_23 = nt expr_nt ∷ nt op_nt ∷ nt expr_nt ∷ []
rhs case_24 = nt expr_nt ∷ mark_symbol token_mod ∷ nt expr_nt ∷ []
rhs case_25 = nt expr_nt ∷ mark_symbol token_mul ∷ nt expr_nt ∷ []
rhs case_26 = nt expr_nt ∷ mark_symbol token_div ∷ nt expr_nt ∷ []
rhs case_27 = nt expr_nt ∷ mark_symbol token_plus ∷ nt expr_nt ∷ []
rhs case_28 = nt expr_nt ∷ mark_symbol token_minus ∷ nt expr_nt ∷ []
rhs case_29 = mark_symbol token_minus ∷ nt expr_nt ∷ []
rhs case_30 = mark_symbol token_plus ∷ nt expr_nt ∷ []
rhs case_31 = mark_symbol token_not ∷ nt expr_nt ∷ []
rhs case_32 = nt var_id_nt ∷ mark_symbol lparen ∷ nt call_args_nt ∷ mark_symbol rparen ∷ []
rhs case_33 = mark_symbol token_equal ∷ []
rhs case_34 = mark_symbol token_ceq ∷ []
rhs case_35 = mark_symbol token_nel ∷ []
rhs case_36 = mark_symbol token_nlt ∷ []
rhs case_37 = mark_symbol token_nle ∷ []
rhs case_38 = mark_symbol token_ngt ∷ []
rhs case_39 = mark_symbol token_nge ∷ []
rhs case_40 = mark_symbol token_xor ∷ []
rhs case_41 = mark_symbol token_shl ∷ []
rhs case_42 = mark_symbol token_shr ∷ []
rhs case_43 = mark_symbol token_and ∷ []
rhs case_44 = mark_symbol token_or ∷ []
rhs case_45 = nt var_id_nt ∷ mark_symbol token_equal ∷ nt expr_nt ∷ []
rhs case_46 =
    mark_symbol token_for
    ∷ mark_symbol lparen
    ∷ nt expr_nt
    ∷ mark_symbol token_semicolon
    ∷ nt expr_nt
    ∷ mark_symbol token_semicolon
    ∷ nt expr_nt
    ∷ mark_symbol rparen
    ∷ nt block_nt
    ∷ []
rhs case_47 =
    mark_symbol token_while
    ∷ mark_symbol lparen
    ∷ nt expr_nt
    ∷ mark_symbol rparen
    ∷ nt block_nt
    ∷ []
rhs case_48 =
    mark_symbol token_if ∷ mark_symbol lparen ∷ nt expr_nt ∷ mark_symbol rparen ∷ nt block_nt ∷ []
rhs case_49 =
    mark_symbol token_if
    ∷ mark_symbol lparen
    ∷ nt expr_nt
    ∷ mark_symbol rparen
    ∷ nt block_nt
    ∷ mark_symbol token_else
    ∷ nt block_nt
    ∷ []
rhs case_50 =
    mark_symbol token_if
    ∷ mark_symbol lparen
    ∷ nt expr_nt
    ∷ mark_symbol rparen
    ∷ nt block_nt
    ∷ mark_symbol token_else
    ∷ nt if_nt
    ∷ []
rhs case_51 = nt types_nt ∷ nt var_id_nt ∷ []
rhs case_52 = nt types_nt ∷ nt var_id_nt ∷ mark_symbol token_equal ∷ nt expr_nt ∷ []
rhs case_53 = []
rhs case_54 = nt var_decl_nt ∷ []
rhs case_55 = nt func_args_nt ∷ mark_symbol token_comma ∷ nt var_decl_nt ∷ []
rhs case_56 =
    nt types_nt
    ∷ nt var_id_nt
    ∷ mark_symbol lparen
    ∷ nt func_args_nt
    ∷ mark_symbol rparen
    ∷ nt block_nt
    ∷ []
rhs case_57 =
    mark_symbol token_extern
    ∷ nt types_nt
    ∷ nt var_id_nt
    ∷ mark_symbol lparen
    ∷ nt func_args_nt
    ∷ mark_symbol rparen
    ∷ []
rhs case_58 = []
rhs case_59 = nt expr_nt ∷ []
rhs case_60 = nt call_args_nt ∷ mark_symbol token_comma ∷ nt expr_nt ∷ []
rhs case_61 = mark_symbol token_int_type ∷ []
rhs case_62 = nt type_id_nt ∷ []
rhs case_63 = nt func_type_nt ∷ []
rhs case_64 =
    mark_symbol lparen
    ∷ nt types_nt
    ∷ mark_symbol rparen
    ∷ mark_symbol lparen
    ∷ mark_symbol rparen
    ∷ []
rhs case_65 =
    mark_symbol lparen
    ∷ nt types_nt
    ∷ mark_symbol rparen
    ∷ mark_symbol lparen
    ∷ nt type_list_nt
    ∷ mark_symbol rparen
    ∷ []
rhs case_66 = nt types_nt ∷ []
rhs case_67 = nt type_list_nt ∷ mark_symbol token_comma ∷ nt types_nt ∷ []
rhs case_68 = word_symbol id_text ∷ []
rhs case_69 = word_symbol id_text ∷ []

-- The value that a case makes of those of its right-hand side.
unfoldable pub make : (r : Rule) → Meanings (rhs r) → Semantic (lhs r)
unfolding lhs
make case_1 (p, (_, _)) = p
make case_2 (ss, _) = ss
make case_3 (_, (ss, (_, _))) = braces ss
make case_4 (_, (_, _)) = empty_braces
make case_5 (ss, (s, _)) = more_stmts ss s
make case_6 (ss, (_, _)) = semicolon ss
make case_7 (ss, (_, (s, _))) = semicolon_stmt ss s
make case_8 (s, _) = one_stmt s
make case_9 (i, _) = conditional i
make case_10 (s, _) = s
make case_11 (s, _) = s
make case_12 (v, _) = declaration v
make case_13 (s, _) = s
make case_14 (_, _) = return_nothing
make case_15 (_, (e, _)) = return_value e
make case_16 (e, _) = evaluation e
make case_17 (s, _) = num s
make case_18 (s, _) = text s
make case_19 (s, _) = real s
make case_20 (a, _) = a
make case_21 (x, _) = variable x
make case_22 (_, (e, (_, _))) = parens e
make case_23 (l, (o, (r, _))) = by_op l o r
make case_24 (l, (_, (r, _))) = by_arith l mod_ r
make case_25 (l, (_, (r, _))) = by_arith l mul r
make case_26 (l, (_, (r, _))) = by_arith l div r
make case_27 (l, (_, (r, _))) = by_arith l plus r
make case_28 (l, (_, (r, _))) = by_arith l minus r
make case_29 (_, (e, _)) = signed minus_sign e
make case_30 (_, (e, _)) = signed plus_sign e
make case_31 (_, (e, _)) = signed not_sign e
make case_32 (x, (_, (args, (_, _)))) = called x args
make case_33 (_, _) = equal
make case_34 (_, _) = ceq
make case_35 (_, _) = nel
make case_36 (_, _) = nlt
make case_37 (_, _) = nle
make case_38 (_, _) = ngt
make case_39 (_, _) = nge
make case_40 (_, _) = xor
make case_41 (_, _) = shl
make case_42 (_, _) = shr
make case_43 (_, _) = and
make case_44 (_, _) = or
make case_45 (x, (_, (e, _))) = assigned x e
make case_46 (_, (_, (a, (_, (b, (_, (c, (_, (d, _))))))))) = for_loop a b c d
make case_47 (_, (_, (c, (_, (b, _))))) = while_loop c b
make case_48 (_, (_, (c, (_, (t, _))))) = if_then c t
make case_49 (_, (_, (c, (_, (t, (_, (e, _))))))) = if_else c t e
make case_50 (_, (_, (c, (_, (t, (_, (e, _))))))) = if_else_if c t e
make case_51 (t, (x, _)) = declared t x
make case_52 (t, (x, (_, (e, _)))) = initialised t x e
make case_53 _ = no_params
make case_54 (v, _) = one_param v
make case_55 (vs, (_, (v, _))) = more_params vs v
make case_56 (t, (x, (_, (vs, (_, (b, _)))))) = definition t x vs b
make case_57 (_, (t, (x, (_, (vs, (_, _)))))) = external t x vs
make case_58 _ = no_args
make case_59 (e, _) = one_arg e
make case_60 (es, (_, (e, _))) = more_args es e
make case_61 (_, _) = token_int
make case_62 (t, _) = t
make case_63 (t, _) = t
make case_64 (_, (t, (_, (_, (_, _))))) = func_none t
make case_65 (_, (t, (_, (_, (ts, (_, _)))))) = func_list t ts
make case_66 (t, _) = one_type t
make case_67 (ts, (_, (t, _))) = more_types ts t
make case_68 (s, _) = type_id s
make case_69 (s, _) = s
