-- ===== src/Parser/Automaton/Symbols.antt =====
-- Symbols and their numbers, and the values that a symbol takes.
use th_lang.Base.{◌≡◌, refl, sym, ap, subst, ◌∙◌, List, [], ◌∷◌, some, get_elem?, arith, ==_iff}
use th_lang.Parser.Token.{
  token_int_type, lparen, rparen, lbracket, rbracket, lbrace, rbrace, token_plus, token_minus,
  token_mul, token_div, token_return, token_if, token_else, token_while, token_for, token_extern,
  token_equal, token_ceq, token_nel, token_nlt, token_nle, token_ngt, token_nge, token_xor,
  token_mod, token_shl, token_shr, token_and, token_or, token_not, token_comma, token_semicolon,
  token_dot, token_newline, id_text, num_text, string_text, float_text, terminal_number,
  text_number,
}
use th_lang.Parser.Grammar.{
  Nonterminal, accept_nt, program_nt, block_nt, stmts_nt, stmt_nt, expr_nt, op_nt, assign_nt,
  for_nt, while_nt, if_nt, var_decl_nt, func_args_nt, func_decl_nt, call_args_nt, types_nt,
  func_type_nt, type_list_nt, type_id_nt, var_id_nt, Symbol, end_symbol, mark_symbol, word_symbol,
  nt, nonterminal_number, number, Semantic, Meaning, Value,
}
use th_lang.Parser.Automaton.Values.{as_nonterminal, take}

-- The symbols by their numbers; four numbers are nobody's.
unfoldable symbols : List Symbol
symbols =
    end_symbol
    ∷ end_symbol
    ∷ end_symbol
    ∷ mark_symbol token_int_type
    ∷ mark_symbol token_plus
    ∷ mark_symbol token_minus
    ∷ mark_symbol token_mul
    ∷ mark_symbol token_div
    ∷ mark_symbol lparen
    ∷ mark_symbol rparen
    ∷ mark_symbol lbracket
    ∷ mark_symbol rbracket
    ∷ mark_symbol lbrace
    ∷ mark_symbol rbrace
    ∷ mark_symbol token_return
    ∷ mark_symbol token_if
    ∷ mark_symbol token_else
    ∷ mark_symbol token_while
    ∷ mark_symbol token_for
    ∷ mark_symbol token_extern
    ∷ mark_symbol token_equal
    ∷ mark_symbol token_ceq
    ∷ mark_symbol token_nel
    ∷ mark_symbol token_nlt
    ∷ mark_symbol token_nle
    ∷ mark_symbol token_ngt
    ∷ mark_symbol token_nge
    ∷ mark_symbol token_xor
    ∷ mark_symbol token_mod
    ∷ mark_symbol token_shl
    ∷ mark_symbol token_shr
    ∷ mark_symbol token_and
    ∷ mark_symbol token_or
    ∷ mark_symbol token_not
    ∷ mark_symbol token_comma
    ∷ mark_symbol token_semicolon
    ∷ mark_symbol token_dot
    ∷ mark_symbol token_newline
    ∷ word_symbol id_text
    ∷ word_symbol num_text
    ∷ word_symbol string_text
    ∷ word_symbol float_text
    ∷ end_symbol
    ∷ end_symbol
    ∷ end_symbol
    ∷ nt accept_nt
    ∷ nt program_nt
    ∷ nt block_nt
    ∷ nt stmts_nt
    ∷ nt stmt_nt
    ∷ nt expr_nt
    ∷ nt op_nt
    ∷ nt assign_nt
    ∷ nt for_nt
    ∷ nt while_nt
    ∷ nt if_nt
    ∷ nt var_decl_nt
    ∷ nt func_args_nt
    ∷ nt func_decl_nt
    ∷ nt call_args_nt
    ∷ nt types_nt
    ∷ nt func_type_nt
    ∷ nt type_list_nt
    ∷ nt type_id_nt
    ∷ nt var_id_nt
    ∷ []

symbols-number : (x : Symbol) → get_elem? symbols (number x) ≡ some x
unfolding symbols number terminal_number text_number nonterminal_number
symbols-number end_symbol = refl
symbols-number (mark_symbol token_int_type) = refl
symbols-number (mark_symbol _) = refl
symbols-number (word_symbol id_text) = refl
symbols-number (word_symbol _) = refl
symbols-number (nt accept_nt) = refl
symbols-number (nt _) = refl

-- No two symbols have the same number.
pub number-injective : (x y : Symbol) → number x ≡ number y → x ≡ y
number-injective x y h =
    let e : some x ≡ some y =
      sym (symbols-number x) ∙ ap (get_elem? symbols) h ∙ symbols-number y in
    ground (arith, e)

as_nonterminal_self : (a : Nonterminal) (v : Semantic a) → as_nonterminal a a v ≡ some v
unfolding as_nonterminal
as_nonterminal_self accept_nt v = refl
as_nonterminal_self _ v = refl

take_self : (x : Symbol) (m : Meaning x) → take x (x, m) ≡ some m
unfolding take
take_self end_symbol m = refl
take_self (mark_symbol t) m = ground (arith, ==_iff (terminal_number t) (terminal_number t))
take_self (word_symbol k) m = ground (arith, ==_iff (text_number k) (text_number k))
take_self (nt a) m = as_nonterminal_self a m

-- A symbol takes the values of its number.
pub take-returns :
    (x : Symbol) (v : Value) → number x ≡ number v.0 → (m : Meaning x) × (take x v ≡ some m)
take-returns x v h =
    subst (λ y. (m : Meaning y) → (m' : Meaning x) × (take x (y, m) ≡ some m'))
      (number-injective x v.0 h) (λ m. (m, take_self x m)) v.1
