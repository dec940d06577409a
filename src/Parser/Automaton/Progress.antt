-- ===== src/Parser/Automaton/Progress.antt =====
-- A measure of what is left to parse, and what a shift does to it.
use th_lang.Base.{
  ℕ, suc, ◌+◌, ◌*◌, ◌<◌, ◌≤◌, ◌≡◌, ◌≢◌, refl, ap, ◌∙◌, true, ◌==◌, some, List, [], ◌∷◌, length,
  get_elem?, arith, inl, inr, ◌⊎◌, Option-cases, Bool-cases, ==_iff, if◌then◌else◌, get_elem?-lt,
}
use th_lang.Parser.Token.{
  Terminal, token_int_type, Text, id_text, Token, mark, word, terminal_number, text_number,
  token_number,
}
use th_lang.Parser.Grammar.{number, Value}
use th_lang.Parser.Packed.{yystos}
use th_lang.Parser.Automaton.Machine.{Config, stuck, out_of_fuel, Step, next, done, shift_step}
use th_lang.Parser.Automaton.Values.{next_number, next_value, behind}
use th_lang.Parser.Automaton.Checked.{weight, extra, links, shifts}
use th_lang.Parser.Automaton.Stack.{IsChain, mass}

unfoldable pub measure : Config → ℕ
measure c = if c.state == 43 then 0 else mass c.values + extra c.state + 39 * suc (length c.input)

-- A step that is neither stuck nor away from the end.
abbrev pub Advances : Config → Step → Type 0
Advances c (done o) = (o ≢ stuck) × (o ≢ out_of_fuel)
Advances c (next c') = IsChain c'.state c'.below c'.values × measure c' < measure c

terminal_number-bounds : (t : Terminal) → (terminal_number t < 42)
unfolding terminal_number
terminal_number-bounds token_int_type = omega arith
terminal_number-bounds _ = omega arith

text_number-bounds : (k : Text) → text_number k < 42
unfolding text_number
text_number-bounds id_text = omega arith
text_number-bounds _ = omega arith

pub next_number-bounds : (ts : List Token) → next_number ts < 42
unfolding next_number token_number
next_number-bounds [] = omega arith
next_number-bounds (mark t ∷ ts) = terminal_number-bounds t
next_number-bounds (word k s ∷ ts) = text_number-bounds k

next_value-number : (ts : List Token) → number (next_value ts).0 ≡ next_number ts
unfolding next_value next_number token_number number
next_value-number [] = refl
next_value-number (mark t ∷ ts) = refl
next_value-number (word k s ∷ ts) = refl

behind-length : (ts : List Token) → (next_number ts ≡ 0) ⊎ (suc (length (behind ts)) ≡ length ts)
unfolding next_number behind
behind-length [] = inl refl
behind-length (t ∷ ts) = inr refl

length-yystos : length yystos ≡ 124
unfolding yystos
length-yystos = refl

-- A state on the stack is one of the automaton's.
pub state-bounds : (s : ℕ) (below : List ℕ) (values : List Value) → IsChain s below values → s < 124
state-bounds s [] [] chain = omega (arith, chain)
state-bounds s [] (v ∷ values) chain = absurd chain
state-bounds s (p ∷ below) [] chain = absurd chain
state-bounds s (p ∷ below) (v ∷ values) (linked, stored, chain) =
    omega (arith, get_elem?-lt yystos s stored, length-yystos)

pub measure-running :
    (c : Config)
    → c.state ≢ 43
    → measure c ≡ mass c.values + extra c.state + 39 * suc (length c.input)
unfolding measure
measure-running c other = ground (arith, other, ==_iff c.state 43)

pub measure-bounds :
    (c : Config) → measure c ≤ mass c.values + extra c.state + 39 * suc (length c.input)
unfolding measure
measure-bounds c = elim (Bool-cases (c.state == 43)) [
  | inl final ↦ ground (arith, final)
  | inr running ↦ ground (arith, running)
]

measure-final : (c : Config) → c.state ≡ 43 → measure c ≡ 0
unfolding measure
measure-final c final = ground (arith, final, ==_iff c.state 43)

-- The end is shifted into the final state, and nothing else is too heavy.
shifts-measure : (s t g : ℕ) → shifts s t g ≡ true → (g ≡ 43) ⊎ ((t ≢ 0) × weight t + extra g < 39)
unfolding shifts
shifts-measure s t g h = elim (Bool-cases (t == 0)) [
  | inl ended ↦ inl (ground (arith, h, ended, ==_iff g 43))
  | inr going ↦ inr (ground (arith, going, ==_iff t 0), ground (arith, h, going))
]

shift_step-measure :
    (c : Config) (g : ℕ)
    → c.state ≢ 43
    → shifts c.state (next_number c.input) g ≡ true
    → measure (shift_step g c) < measure c
unfolding shift_step
shift_step-measure c g other h =
    let running = measure-running c other in
    elim (shifts-measure c.state (next_number c.input) g h) [
      | inl final ↦ omega (arith, running, measure-final (shift_step g c) final)
      | inr (going, light) ↦ elim (behind-length c.input) [
        | inl ended ↦ absurd (going ended)
        | inr shorter ↦ omega (
          arith,
          running,
          light,
          shorter,
          measure-bounds (shift_step g c),
          ap weight (next_value-number c.input),
        )
      ]
    ]

pub shift_step-Advances :
    (c : Config) (g : ℕ)
    → IsChain c.state c.below c.values
    → c.state ≢ 43
    → shifts c.state (next_number c.input) g ≡ true
    → Advances c (next (shift_step g c))
unfolding shifts shift_step
shift_step-Advances c g chain other h =
    let same = next_value-number c.input in
    let linked : links c.state g ≡ true = ground (arith, h) in
    let stored : get_elem? yystos g ≡ some (number (next_value c.input).0) =
      elim (Option-cases (get_elem? yystos g)) [
        | inl missing ↦ absurd (ground (arith, h, missing))
        | inr (a, found) ↦
            found ∙ ap some (ground (arith, h, found, same, ==_iff a (next_number c.input)))
      ] in
    ((linked, stored, chain), shift_step-measure c g other h)
