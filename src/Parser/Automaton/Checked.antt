-- ===== src/Parser/Automaton/Checked.antt =====
-- What the tables should be, as tests on their entries: each entry against the rules, the items and
-- the weights.
use th_lang.Base.{
  ℕ, zero, suc, ◌+◌, Bool, true, false, ◌==◌, leb, Option, none, some, List, [], ◌∷◌, length, rows,
  get_elem?, if◌then◌else◌, ◌&&◌, not,
}
use th_lang.Parser.Grammar.{Symbol, number, nonterminal_number}
use th_lang.Parser.Rules.{Rule, lhs, rhs}
use th_lang.Parser.Tables.{yyr1, yyr2}
use th_lang.Parser.Packed.{yystos}
use th_lang.Parser.Automaton.{Action, shift, reduce, fail}
use th_lang.Parser.Automaton.Values.{rule_at}
use th_lang.Parser.Automaton.Items.{underway, beginning}

-- By number: the weight of a symbol. The right-hand side of a rule weighs more than its left.
unfoldable pub weights : List ℕ
weights = rows (
    (20 ∷ 20 ∷ 20 ∷ 20 ∷ 20 ∷ 20 ∷ 20 ∷ 20 ∷ 20 ∷ 20 ∷ 20 ∷ 20 ∷ 20 ∷ 20 ∷ 20 ∷ 20 ∷ [])
    ∷ (20 ∷ 20 ∷ 20 ∷ 20 ∷ 20 ∷ 20 ∷ 20 ∷ 20 ∷ 20 ∷ 20 ∷ 20 ∷ 20 ∷ 20 ∷ 20 ∷ 20 ∷ 20 ∷ [])
    ∷ (20 ∷ 20 ∷ 20 ∷ 20 ∷ 20 ∷ 20 ∷ 20 ∷ 20 ∷ 20 ∷ 20 ∷ 20 ∷ 20 ∷ 20 ∷ 7 ∷ 8 ∷ 20 ∷ 9 ∷ [])
    ∷ (10 ∷ 17 ∷ 19 ∷ 18 ∷ 18 ∷ 18 ∷ 18 ∷ 18 ∷ 17 ∷ 18 ∷ 16 ∷ 17 ∷ 18 ∷ 16 ∷ 18 ∷ 19 ∷ [])
    ∷ [])

abbrev pub or_zero : Option ℕ → ℕ
or_zero none = 0
or_zero (some n) = n

unfoldable pub weight : ℕ → ℕ
unfolding weights
weight a = or_zero (get_elem? weights a)

-- The states before an empty right-hand side weigh something too.
unfoldable pub extra : ℕ → ℕ
extra s = if s == 65 then 18 else if s == 80 then 18 else if s == 89 then 18 else 0

unfoldable pub total : List Symbol → ℕ
total [] = 0
total (x ∷ xs) = weight (number x) + total xs

abbrev pub is_in : ℕ → ℕ → List (ℕ × ℕ) → Bool
is_in n d [] = false
is_in n d ((m, e) ∷ xs) = if n == m then (if d == e then true else is_in n d xs) else is_in n d xs

abbrev pub is_among : ℕ → List ℕ → Bool
is_among a [] = false
is_among a (b ∷ bs) = if a == b then true else is_among a bs

-- Whether the rule `n` is underway in the state, `d` of its symbols read.
unfoldable pub reads : ℕ → ℕ → ℕ → Bool
reads n d s = elim (get_elem? underway s) [ none ↦ false | some items ↦ is_in n d items ]

unfoldable pub begins : ℕ → ℕ → Bool
begins a s = elim (get_elem? beginning s) [ none ↦ false | some symbols ↦ is_among a symbols ]

unfoldable pub at : ℕ → ℕ → ℕ → Bool
at n zero s = elim (get_elem? yyr1 n) [ none ↦ false | some a ↦ begins a s ]
at n (suc d) s = reads n (suc d) s

abbrev pub precedes : ℕ → List (ℕ × ℕ) → Bool
precedes p [] = true
precedes p ((n, zero) ∷ xs) = false
precedes p ((n, suc d) ∷ xs) = if at n d p then precedes p xs else false

-- Whether the state `s` may stand on the state `p`.
unfoldable pub links : ℕ → ℕ → Bool
links p zero = false
links p (suc s) = elim (get_elem? underway (suc s)) [ none ↦ false | some items ↦ precedes p items ]

abbrev pub is_some : Option ℕ → ℕ → Bool
is_some none a = false
is_some (some b) a = b == a

unfoldable pub shifts : ℕ → ℕ → ℕ → Bool
shifts s t g =
    links s g
    && is_some (get_elem? yystos g) t
    && (if t == 0 then g == 43 else leb (suc (weight t + extra g)) 39)

unfoldable pub reduces : ℕ → ℕ → Option Rule → Bool
reduces s n none = false
reduces s n (some r) =
    at n (length (rhs r)) s
    && is_some (get_elem? yyr1 n) (nonterminal_number (lhs r))
    && is_some (get_elem? yyr2 n) (length (rhs r))
    && leb (suc (weight (nonterminal_number (lhs r)))) (total (rhs r) + extra s)

unfoldable pub decides : ℕ → ℕ → Option Action → Bool
decides s t none = false
decides s t (some fail) = true
decides s t (some (shift g)) = shifts s t g
decides s t (some (reduce n)) =
    if or_zero (get_elem? yyr1 n) == 45 then false else reduces s n (rule_at n)

unfoldable pub lands : ℕ → ℕ → Option ℕ → Bool
lands p a none = false
lands p a (some g) = links p g && is_some (get_elem? yystos g) a && extra g == 0 && not (g == 43)

-- Whether the symbol that the rule reads last is the state's own.
unfoldable pub enters : ℕ → Option Rule → ℕ → Bool
enters s none d = false
enters s (some r) d = elim (get_elem? (rhs r) d) [
  | none ↦ false
  | some x ↦ is_some (get_elem? yystos s) (number x)
]
