-- ===== src/Parser/Automaton/Verified.antt =====
-- The tests of Checked over all the states, and what they say of one entry.
use th_lang.Base.{
  ℕ, zero, suc, ◌<◌, ◌≡◌, refl, Bool, true, false, ◌==◌, none, some, List, [], ◌∷◌, length,
  get_elem?, if◌then◌else◌, arith, Bool-cases, subst, ◌⊎◌, ==_iff, get_elem?-lt, Option-cases, inl,
  inr, ◌≢◌,
}
use th_lang.Parser.Token.{terminal_number, text_number}
use th_lang.Parser.Grammar.{number, nonterminal_number}
use th_lang.Parser.Rules.{lhs}
use th_lang.Parser.Tables.{yypact, yydefact, yypgoto, yydefgoto, yyr1, yyr2}
use th_lang.Parser.Packed.{yytable, yycheck, yystos}
use th_lang.Parser.Automaton.{
  is_default, add_index, entry, default_action, action_at, as_state, goto_at,
}
use th_lang.Parser.Automaton.Values.{rule_at}
use th_lang.Parser.Automaton.Items.{underway, beginning}
use th_lang.Parser.Automaton.Checked.{
  is_in, is_among, precedes, weights, weight, extra, total, reads, begins, at, links, shifts,
  reduces, decides, lands, enters,
}

unfoldable all_below : (ℕ → Bool) → ℕ → Bool
all_below f zero = true
all_below f (suc k) = if f k then all_below f k else false

all_below-true : (f : ℕ → Bool) (k i : ℕ) → all_below f k ≡ true → i < k → f i ≡ true
unfolding all_below
all_below-true f zero i h lt = elim lt [ ]
all_below-true f (suc k) i h lt = ground (arith, all_below-true f k i)

abbrev decides_for : ℕ → Bool
decides_for s = if s == 43 then true else all_below (λ t. decides s t (action_at s t)) 42

actions_are_right : all_below decides_for 124 ≡ true
unfolding action_at all_below decides yypact is_default entry add_index yycheck default_action
    yydefact yytable shifts links underway at yyr1 begins beginning extra reads reduces total weight
    weights rule_at lhs nonterminal_number number yystos yyr2 terminal_number text_number
actions_are_right = refl

abbrev lands_at : ℕ → List ℕ → Bool
lands_at p [] = true
lands_at p (a ∷ bs) =
    if a == 45
    then (if p == 0 then lands_at p bs else false)
    else if lands p a (goto_at a p)
    then lands_at p bs
    else false

abbrev lands_from : ℕ → Bool
lands_from p = elim (get_elem? beginning p) [ none ↦ false | some bs ↦ lands_at p bs ]

gotos_are_right : all_below lands_from 124 ≡ true
unfolding all_below beginning lands goto_at yypgoto yydefgoto entry add_index as_state yycheck
    yytable links underway at reads begins yyr1 yystos extra
gotos_are_right = refl

abbrev enters_at : ℕ → List (ℕ × ℕ) → Bool
enters_at s [] = true
enters_at s ((n, zero) ∷ bs) = false
enters_at s ((n, suc d) ∷ bs) = if enters s (rule_at n) d then enters_at s bs else false

abbrev enters_from : ℕ → Bool
enters_from p = elim (get_elem? underway p) [ none ↦ false | some bs ↦ enters_at p bs ]

items_are_right : all_below enters_from 124 ≡ true
unfolding all_below underway enters rule_at yystos number nonterminal_number terminal_number
    text_number
items_are_right = refl

-- What the sweeps say of one entry.
pub action-decided : (s t : ℕ) → s < 124 → t < 42 → s ≢ 43 → decides s t (action_at s t) ≡ true
action-decided s t in_range token other =
    let row = all_below-true decides_for 124 s actions_are_right in_range in
    ground (arith, row, ==_iff s 43, all_below-true (λ t. decides s t (action_at s t)) 42 t, token)

lands_at-lands :
    (p a : ℕ) (bs : List ℕ)
    → a ≢ 45
    → lands_at p bs ≡ true
    → is_among a bs ≡ true
    → lands p a (goto_at a p) ≡ true
lands_at-lands p a [] other h among = absurd (ground (arith, among))
lands_at-lands p a (b ∷ bs) other h among = elim (Bool-cases (a == b)) [
  | inl same ↦
      let e : b ≡ a = ground (arith, same, ==_iff a b) in
      let k : lands_at p (a ∷ bs) ≡ true = subst (λ b. lands_at p (b ∷ bs) ≡ true) e h in
      ground (arith, k, other, ==_iff a 45)
  | inr apart ↦ lands_at-lands p a bs other (ground (arith, h)) (ground (arith, among, apart))
]

lands_at-start : (p : ℕ) (bs : List ℕ) → lands_at p bs ≡ true → is_among 45 bs ≡ true → p ≡ 0
lands_at-start p [] h among = absurd (ground (arith, among))
lands_at-start p (b ∷ bs) h among = elim (Bool-cases (45 == b)) [
  | inl same ↦
      let e : b ≡ 45 = ground (arith, same, ==_iff 45 b) in
      let k : lands_at p (45 ∷ bs) ≡ true = subst (λ b. lands_at p (b ∷ bs) ≡ true) e h in
      ground (arith, k, ==_iff p 0)
  | inr apart ↦ lands_at-start p bs (ground (arith, h)) (ground (arith, among, apart))
]

is_in-cons :
    (n d m e : ℕ) (xs : List (ℕ × ℕ))
    → is_in n d ((m, e) ∷ xs) ≡ true
    → ((m ≡ n) × (e ≡ d)) ⊎ (is_in n d xs ≡ true)
is_in-cons n d m e xs h = elim (Bool-cases (n == m)) [
  | inr apart ↦ inr (ground (arith, h, apart))
  | inl same ↦ elim (Bool-cases (d == e)) [
    | inl same' ↦ inl (ground (arith, same, ==_iff n m), ground (arith, same', ==_iff d e))
    | inr apart ↦ inr (ground (arith, h, same, apart))
  ]
]

precedes-at :
    (p n d : ℕ) (xs : List (ℕ × ℕ))
    → precedes p xs ≡ true
    → is_in n (suc d) xs ≡ true
    → at n d p ≡ true
precedes-at p n d [] h among = absurd (ground (arith, among))
precedes-at p n d ((m, zero) ∷ xs) h among = absurd (ground (arith, h))
precedes-at p n d ((m, suc e) ∷ xs) h among = elim (is_in-cons n (suc d) m (suc e) xs among) [
  | inl (same, same') ↦
      let k : at m e p ≡ true = ground (arith, h) in
      subst (λ i. at i d p ≡ true) same (subst (λ j. at m j p ≡ true) (omega (arith, same')) k)
  | inr among' ↦ precedes-at p n d xs (ground (arith, h)) among'
]

enters_at-enters :
    (s n d : ℕ) (xs : List (ℕ × ℕ))
    → enters_at s xs ≡ true
    → is_in n (suc d) xs ≡ true
    → enters s (rule_at n) d ≡ true
enters_at-enters s n d [] h among = absurd (ground (arith, among))
enters_at-enters s n d ((m, zero) ∷ xs) h among = absurd (ground (arith, h))
enters_at-enters s n d ((m, suc e) ∷ xs) h among = elim (is_in-cons n (suc d) m (suc e) xs among) [
  | inl (same, same') ↦
      let k : enters s (rule_at m) e ≡ true = ground (arith, h) in
      subst (λ i. enters s (rule_at i) d ≡ true) same
        (subst (λ j. enters s (rule_at m) j ≡ true) (omega (arith, same')) k)
  | inr among' ↦ enters_at-enters s n d xs (ground (arith, h)) among'
]

tables_are_long : (length underway ≡ 124) × (length beginning ≡ 124)
unfolding underway beginning
tables_are_long = (refl, refl)

begins-row :
    (a p : ℕ) → begins a p ≡ true → (bs : List ℕ) × (is_among a bs ≡ true) × (lands_at p bs ≡ true)
unfolding begins
begins-row a p h = elim (Option-cases (get_elem? beginning p)) [
  | inl missing ↦ absurd (ground (arith, missing, h))
  | inr (bs, found) ↦
      let row =
        all_below-true lands_from 124 p gotos_are_right
          (omega (arith, get_elem?-lt beginning p found, tables_are_long.1)) in
      (bs, ground (arith, found, h), ground (arith, found, row))
]

-- A symbol that may begin over a state leads on from there.
pub goto-lands : (a p : ℕ) → a ≢ 45 → begins a p ≡ true → lands p a (goto_at a p) ≡ true
goto-lands a p other h =
    let (bs, among, row) = begins-row a p h in lands_at-lands p a bs other row among

pub begins-start : (p : ℕ) → begins 45 p ≡ true → p ≡ 0
begins-start p h = let (bs, among, row) = begins-row 45 p h in lands_at-start p bs row among

-- The symbol read last is the state's.
pub reads-enters : (s n d : ℕ) → reads n (suc d) s ≡ true → enters s (rule_at n) d ≡ true
unfolding reads
reads-enters s n d h = elim (Option-cases (get_elem? underway s)) [
  | inl missing ↦ absurd (ground (arith, missing, h))
  | inr (xs, found) ↦
      let row =
        all_below-true enters_from 124 s items_are_right
          (omega (arith, get_elem?-lt underway s found, tables_are_long.0)) in
      enters_at-enters s n d xs (ground (arith, found, row)) (ground (arith, found, h))
]

-- One symbol back.
pub links-at : (p s n d : ℕ) → links p s ≡ true → reads n (suc d) s ≡ true → at n d p ≡ true
unfolding reads links
links-at p zero n d h among = absurd (ground (arith, h))
links-at p (suc s) n d h among = elim (Option-cases (get_elem? underway (suc s))) [
  | inl missing ↦ absurd (ground (arith, missing, h))
  | inr (xs, found) ↦ precedes-at p n d xs (ground (arith, found, h)) (ground (arith, found, among))
]

pub reads-nonzero : (s n d : ℕ) → reads n d s ≡ true → s ≢ 0
unfolding reads underway
reads-nonzero zero n d h e = absurd (ground (arith, h))
reads-nonzero (suc s) n d h e = omega (arith, e)
