-- ===== src/Parser/Scanner.antt =====
-- `yylex` of src/lex.yy.cpp, whose rules are those of src/lex.l. What RE/flex's matcher finds in the
-- text, a rule and the text that it matches, is given.
pub mod Laws
use th_lang.Base.{ℕ, zero, suc, String, Option, none, some, List, [], ◌∷◌, length, get_elem?}
use th_lang.Parser.Token.{
  Terminal, token_int_type, lparen, rparen, lbracket, rbracket, lbrace, rbrace, token_plus,
  token_minus, token_mul, token_div, token_return, token_if, token_else, token_extern, token_equal,
  token_ceq, token_nlt, token_nle, token_ngt, token_nge, token_xor, token_mod, token_shl, token_shr,
  token_and, token_or, token_not, token_comma, token_semicolon, token_dot, Text, id_text, num_text,
  string_text, float_text, Token, mark, word,
}

-- `matcher().scan()`, and `yytext`. The rule 0 is a character that no rule matches.
pub record Match : Type 0 where
  pub rule : ℕ
  pub text : String

-- What a case of the switch does: it goes on, returns `TOKEN(t)`, or saves the text.
pub data ScanAction : Type 0 where
  ignore : ScanAction
  give : Terminal → ScanAction
  save : Text → ScanAction

-- The cases by their numbers. The text of `TOKEN_INT` is saved too, and nobody reads it.
abbrev pub scan_actions : List ScanAction
scan_actions =
    ignore
    ∷ ignore
    ∷ give token_semicolon
    ∷ give token_comma
    ∷ give lparen
    ∷ give rparen
    ∷ give rbracket
    ∷ give lbracket
    ∷ give lbrace
    ∷ give rbrace
    ∷ give token_plus
    ∷ give token_minus
    ∷ give token_mul
    ∷ give token_div
    ∷ give token_ceq
    ∷ give token_equal
    ∷ give token_nlt
    ∷ give token_nlt
    ∷ give token_nle
    ∷ give token_ngt
    ∷ give token_nge
    ∷ give token_xor
    ∷ give token_mod
    ∷ give token_shl
    ∷ give token_shr
    ∷ give token_and
    ∷ give token_or
    ∷ give token_if
    ∷ give token_else
    ∷ give token_dot
    ∷ give token_not
    ∷ save string_text
    ∷ save float_text
    ∷ save num_text
    ∷ give token_int_type
    ∷ give token_return
    ∷ give token_extern
    ∷ save id_text
    ∷ ignore
    ∷ []

unfoldable pub do_action : Option ScanAction → String → Option Token
do_action none s = none
do_action (some ignore) s = none
do_action (some (give t)) s = some (mark t)
do_action (some (save k)) s = some (word k s)

unfoldable pub scan_match : Match → Option Token
scan_match m = do_action (get_elem? scan_actions m.rule) m.text

-- One call: the loop goes on until a case returns. `none` is the end.
unfoldable pub yylex : List Match → Option (Token × List Match)
yylex [] = none
yylex (m ∷ ms) = elim (scan_match m) [ some t ↦ some (t, ms) | none ↦ yylex ms ]

-- The calls that the parser makes, `fuel` at most.
unfoldable pub calls : ℕ → List Match → List Token
calls zero ms = []
calls (suc fuel) ms = elim (yylex ms) [ none ↦ [] | some (t, ms') ↦ t ∷ calls fuel ms' ]

-- The tokens of a text: a call for each match is enough.
unfoldable pub lex : List Match → List Token
lex ms = calls (length ms) ms
