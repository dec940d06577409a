-- ===== src/Parser/Scanner/Laws.antt =====
-- The scanner's tokens, match by match.
use th_lang.Base.{
  ℕ, zero, suc, ◌<◌, ◌≤◌, ◌≡◌, refl, ap, ◌∙◌, Option, none, some, List, [], ◌∷◌, length, arith,
  Option-cases, inl, inr,
}
use th_lang.Parser.Token.{Token}
use th_lang.Parser.Scanner.{Match, do_action, scan_match, yylex, calls, lex}

-- The tokens of the matches that have one, in order.
unfoldable pub kept : List Match → List Token
kept [] = []
kept (m ∷ ms) = elim (scan_match m) [ some t ↦ t ∷ kept ms | none ↦ kept ms ]

-- A call returns the first token kept and leaves the matches behind it.
yylex-kept :
    (ms : List Match) → (elim (yylex ms) [ none ↦ [] | some (t, ms') ↦ t ∷ kept ms' ]) ≡ kept ms
unfolding yylex kept scan_match do_action
yylex-kept [] = refl
yylex-kept (m ∷ ms) = elim (Option-cases (scan_match m)) [
  | inl missing ↦ rw missing (yylex-kept ms)
  | inr (t, found) ↦ rw found refl
]

yylex-length : (ms ms' : List Match) (t : Token) → yylex ms ≡ some (t, ms') → length ms' < length ms
unfolding yylex
yylex-length [] ms' t h = absurd (ground (arith, h))
yylex-length (m ∷ ms) ms' t h = elim (Option-cases (scan_match m)) [
  | inl missing ↦ omega (arith, yylex-length ms ms' t (ground (arith, h, missing)))
  | inr (u, found) ↦ let e : ms ≡ ms' = ground (arith, h, found) in omega (arith, ap length e)
]

calls-kept : (fuel : ℕ) (ms : List Match) → length ms ≤ fuel → calls fuel ms ≡ kept ms
unfolding calls kept
calls-kept zero [] enough = refl
calls-kept zero (m ∷ ms) enough = absurd (omega (arith, enough))
calls-kept (suc fuel) ms enough =
    go (yylex ms) refl (yylex-kept ms)
      (λ ms' less. calls-kept fuel ms' (omega (arith, less, enough)))
  where
    go :
        (o : Option (Token × List Match))
        → yylex ms ≡ o
        → (elim o [ none ↦ [] | some (t, ms') ↦ t ∷ kept ms' ]) ≡ kept ms
        → ((ms' : List Match) → length ms' < length ms → calls fuel ms' ≡ kept ms')
        → (elim o [ none ↦ [] | some (t, ms') ↦ t ∷ calls fuel ms' ]) ≡ kept ms
    go none e k ih = k
    go (some (t, ms')) e k ih = ap (λ ts. t ∷ ts) (ih ms' (yylex-length ms ms' t e)) ∙ k

-- Calling `yylex` until it says the end gives the token of each match that has one, in order; a call
-- for each match is enough.
pub lex-kept : (ms : List Match) → lex ms ≡ kept ms
unfolding lex
lex-kept ms = calls-kept (length ms) ms (omega arith)
