-- ===== src/Parser/Token.antt =====
-- Tokens: the numbers of parser.hpp after `YYTRANSLATE`, and the texts that the scanner saves.
use th_lang.Base.{ℕ, ◌-◌, String, ◌≡◌, refl, sym, ap, ◌∙◌, List, [], ◌∷◌, some, get_elem?, arith}

-- The tokens without a text. The text of TOKEN_INT is never read.
pub data Terminal : Type 0 where
  token_int_type token_plus token_minus token_mul token_div lparen rparen lbracket rbracket lbrace
        rbrace token_return token_if token_else token_while token_for token_extern token_equal
        token_ceq token_nel token_nlt token_nle token_ngt token_nge token_xor token_mod token_shl
        token_shr token_and token_or token_not token_comma token_semicolon token_dot token_newline :
      Terminal

-- The tokens with a text.
pub data Text : Type 0 where
  id_text num_text string_text float_text : Text

pub data Token : Type 0 where
  mark : Terminal → Token
  word : Text → String → Token

-- The internal number of a token.
unfoldable pub terminal_number : Terminal → ℕ
terminal_number token_int_type = 3
terminal_number token_plus = 4
terminal_number token_minus = 5
terminal_number token_mul = 6
terminal_number token_div = 7
terminal_number lparen = 8
terminal_number rparen = 9
terminal_number lbracket = 10
terminal_number rbracket = 11
terminal_number lbrace = 12
terminal_number rbrace = 13
terminal_number token_return = 14
terminal_number token_if = 15
terminal_number token_else = 16
terminal_number token_while = 17
terminal_number token_for = 18
terminal_number token_extern = 19
terminal_number token_equal = 20
terminal_number token_ceq = 21
terminal_number token_nel = 22
terminal_number token_nlt = 23
terminal_number token_nle = 24
terminal_number token_ngt = 25
terminal_number token_nge = 26
terminal_number token_xor = 27
terminal_number token_mod = 28
terminal_number token_shl = 29
terminal_number token_shr = 30
terminal_number token_and = 31
terminal_number token_or = 32
terminal_number token_not = 33
terminal_number token_comma = 34
terminal_number token_semicolon = 35
terminal_number token_dot = 36
terminal_number token_newline = 37

unfoldable pub text_number : Text → ℕ
text_number id_text = 38
text_number num_text = 39
text_number string_text = 40
text_number float_text = 41

unfoldable pub token_number : Token → ℕ
unfolding terminal_number text_number
token_number (mark t) = terminal_number t
token_number (word k s) = text_number k

unfoldable terminals : List Terminal
terminals =
    token_int_type ∷ token_plus ∷ token_minus ∷ token_mul ∷ token_div ∷ lparen ∷ rparen ∷ lbracket
    ∷ rbracket ∷ lbrace ∷ rbrace ∷ token_return ∷ token_if ∷ token_else ∷ token_while ∷ token_for
    ∷ token_extern ∷ token_equal ∷ token_ceq ∷ token_nel ∷ token_nlt ∷ token_nle ∷ token_ngt
    ∷ token_nge ∷ token_xor ∷ token_mod ∷ token_shl ∷ token_shr ∷ token_and ∷ token_or ∷ token_not
    ∷ token_comma ∷ token_semicolon ∷ token_dot ∷ token_newline ∷ []

unfoldable texts : List Text
texts = id_text ∷ num_text ∷ string_text ∷ float_text ∷ []

terminals-number : (t : Terminal) → get_elem? terminals (terminal_number t - 3) ≡ some t
unfolding terminals terminal_number
terminals-number token_int_type = refl
terminals-number _ = refl

texts-number : (k : Text) → get_elem? texts (text_number k - 38) ≡ some k
unfolding texts text_number
texts-number id_text = refl
texts-number _ = refl

-- No two tokens have the same number.
pub terminal_number-injective : (t u : Terminal) → terminal_number t ≡ terminal_number u → t ≡ u
terminal_number-injective t u h =
    let e : some t ≡ some u =
      sym (terminals-number t) ∙ ap (λ n. get_elem? terminals (n - 3)) h ∙ terminals-number u in
    ground (arith, e)

pub text_number-injective : (k l : Text) → text_number k ≡ text_number l → k ≡ l
text_number-injective k l h =
    let e : some k ≡ some l =
      sym (texts-number k) ∙ ap (λ n. get_elem? texts (n - 38)) h ∙ texts-number l in
    ground (arith, e)
