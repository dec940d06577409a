-- ===== src/Parser/Automaton/Sound.antt =====
-- The tree that the automaton accepts against the tokens that it has read.
use mathlib.Core.List.{append_assoc, append-nil}
use th_lang.Base.{
  ℕ, zero, suc, ◌≡◌, ◌≢◌, refl, sym, ap, ◌∙◌, Option, none, some, List, [], ◌∷◌, ◌++◌, arith, subst,
  Option-cases, Bool-cases, inl, inr,
}
use th_lang.Parser.Tree.{Stmts}
use th_lang.Parser.Actions.{CLibrary}
use th_lang.Parser.Token.{Token, mark, word}
use th_lang.Parser.Grammar.{program_nt, end_symbol, nt, Meanings, Value}
use th_lang.Parser.Rules.{case_17, Rule, lhs, rhs, make}
use th_lang.Parser.Yield.{stmts_tokens, semantic_tokens, tokens}
use th_lang.Parser.Automaton.Machine.{
  Config, refusal, accepted, Step, next, done, land, or_stuck, is_refused, reduce_by, act,
  reduce_step, shift_step, accept, step, run, start, parse,
}
use th_lang.Parser.Automaton.Values.{pop_values, rule_at, next_number, next_value, behind}
use th_lang.Parser.Automaton.Stacked.{stack_tokens, make-tokens, pop_values-tokens}
use th_lang.Parser.Automaton.{Action, shift, reduce, fail, action_at}

-- The end is read only where no token is left.
abbrev AtEnd : List Value → List Token → Type 0
AtEnd ((end_symbol, _) ∷ vs) ts = ts ≡ []
AtEnd vs ts = Unit {0}

-- The stack and the input make up the tokens `ts`.
record IsReading (ts : List Token) (c : Config) : Type 0 where
  pub read_so_far : stack_tokens c.values ++ c.input ≡ ts
  pub ended : AtEnd c.values c.input

next_value-tokens : (ts : List Token) → tokens (next_value ts).0 (next_value ts).1 ++ behind ts ≡ ts
unfolding tokens next_value behind
next_value-tokens [] = refl
next_value-tokens (mark t ∷ ts) = refl
next_value-tokens (word k s ∷ ts) = refl

next_value-AtEnd : (ts : List Token) (vs : List Value) → AtEnd (next_value ts ∷ vs) (behind ts)
unfolding next_value behind
next_value-AtEnd [] vs = refl
next_value-AtEnd (mark t ∷ ts) vs = tt
next_value-AtEnd (word k s ∷ ts) vs = tt

shift_step-IsReading :
    (ts : List Token) (g : ℕ) (c : Config) → IsReading ts c → IsReading ts (shift_step g c)
unfolding shift_step stack_tokens
shift_step-IsReading ts g c reading = record {
  read_so_far =
      append_assoc (stack_tokens c.values) _ (behind c.input)
      ∙ ap (λ us. stack_tokens c.values ++ us) (next_value-tokens c.input)
      ∙ reading.read_so_far;
  ended = next_value-AtEnd c.input c.values;
}

land-values :
    (n : ℕ) (v : Value) (vs : List Value) (c c' : Config)
    → or_stuck (land n v vs c) ≡ next c'
    → (c'.values ≡ v ∷ vs) × (c'.input ≡ c.input)
unfolding or_stuck land
land-values n v vs c c' h = ground (arith, h)

pushed-IsReading :
    (ts : List Token) (r : Rule) (ms : Meanings (rhs r)) (vs : List Value) (c c' : Config)
    → IsReading ts c
    → pop_values (rhs r) c.values ≡ some (ms, vs)
    → c'.values ≡ (nt (lhs r), make r ms) ∷ vs
    → c'.input ≡ c.input
    → IsReading ts c'
unfolding stack_tokens tokens
pushed-IsReading ts r ms vs c c' reading popped values input = record {
  read_so_far =
      ap (λ us. stack_tokens us ++ c'.input) values
      ∙ ap (λ us. stack_tokens vs ++ us ++ c'.input) (make-tokens r ms)
      ∙ ap (λ us. us ++ c'.input) (sym (pop_values-tokens (rhs r) c.values vs ms popped))
      ∙ ap (λ us. stack_tokens c.values ++ us) input
      ∙ reading.read_so_far;
  ended = subst (λ us. AtEnd us c'.input) (sym values) tt;
}

reduce_step-IsReading :
    (lib : CLibrary) (ts : List Token) (n : ℕ) (r : Rule) (c c' : Config)
    → IsReading ts c
    → reduce_step lib n r c (pop_values (rhs r) c.values) ≡ next c'
    → IsReading ts c'
unfolding reduce_step
reduce_step-IsReading lib ts n r c c' reading h =
    elim (Option-cases (pop_values (rhs r) c.values)) [
      | inl missing ↦ absurd (ground (arith, ap (reduce_step lib n r c) (sym missing) ∙ h))
      | inr ((ms, vs), popped) ↦
          let h' : reduce_step lib n r c (some (ms, vs)) ≡ next c' =
            ap (reduce_step lib n r c) (sym popped) ∙ h in
          elim (Bool-cases (is_refused lib r ms)) [
            | inl refused_ ↦ absurd (ground (arith, h', refused_))
            | inr kept ↦
                let landed : or_stuck (land n (nt (lhs r), make r ms) vs c) ≡ next c' =
                  ground (arith, h', kept) in
                let (values, input) = land-values n (nt (lhs r), make r ms) vs c c' landed in
                pushed-IsReading ts r ms vs c c' reading popped values input
          ]
    ]

act-IsReading :
    (lib : CLibrary) (ts : List Token) (c c' : Config) (a : Option Action)
    → IsReading ts c
    → act lib c a ≡ next c'
    → IsReading ts c'
unfolding act reduce_by
act-IsReading lib ts c c' none reading h = absurd (ground (arith, h))
act-IsReading lib ts c c' (some fail) reading h = absurd (ground (arith, h))
act-IsReading lib ts c c' (some (shift g)) reading h =
    let e : shift_step g c ≡ c' = ground (arith, h) in
    subst (IsReading ts) e (shift_step-IsReading ts g c reading)
act-IsReading lib ts c c' (some (reduce n)) reading h = reduced (rule_at n) h
  where
    reduced : (o : Option Rule) → reduce_by lib n c o ≡ next c' → IsReading ts c'
    reduced none k = absurd (ground (arith, k))
    reduced (some r) k = reduce_step-IsReading lib ts n r c c' reading k

step-IsReading :
    (lib : CLibrary) (ts : List Token) (c c' : Config)
    → IsReading ts c
    → step lib c ≡ next c'
    → IsReading ts c'
unfolding step
step-IsReading lib ts c c' reading h =
    act-IsReading lib ts c c' (action_at c.state (next_number c.input)) reading (ground (arith, h))

accept-tokens :
    (ts us : List Token) (vs : List Value) (ss : Stmts)
    → accept vs ≡ accepted ss
    → AtEnd vs us
    → stack_tokens vs ++ us ≡ ts
    → stmts_tokens ss ≡ ts
unfolding accept stack_tokens tokens semantic_tokens
accept-tokens ts us ((end_symbol, _) ∷ (nt program_nt, ss') ∷ []) ss h ended e =
    let same : ss' ≡ ss = ground (arith, h) in
    let read = stmts_tokens ss' in
    ap stmts_tokens (sym same)
    ∙ sym (append-nil read)
    ∙ sym (append-nil (read ++ []))
    ∙ ap (λ us. read ++ [] ++ us) (sym ended)
    ∙ e
accept-tokens ts us vs ss h ended e = absurd (ground (arith, h))

refusal-accepted : (r : Rule) (ss : Stmts) → refusal r ≢ accepted ss
unfolding refusal
refusal-accepted case_17 ss h = ground (arith, h)
refusal-accepted _ ss h = ground (arith, h)

reduce_by-accepted :
    (lib : CLibrary) (n : ℕ) (c : Config) (o : Option Rule) (ss : Stmts)
    → reduce_by lib n c o ≢ done (accepted ss)
unfolding reduce_by reduce_step or_stuck
reduce_by-accepted lib n c none ss h = ground (arith, h)
reduce_by-accepted lib n c (some r) ss h = ground (arith, h, refusal-accepted r ss)

act-accepted :
    (lib : CLibrary) (c : Config) (a : Option Action) (ss : Stmts)
    → act lib c a ≢ done (accepted ss)
unfolding act
act-accepted lib c none ss h = ground (arith, h)
act-accepted lib c (some fail) ss h = ground (arith, h)
act-accepted lib c (some (shift g)) ss h = ground (arith, h)
act-accepted lib c (some (reduce n)) ss h = reduce_by-accepted lib n c (rule_at n) ss h

step-accepted :
    (lib : CLibrary) (ts : List Token) (c : Config) (ss : Stmts)
    → IsReading ts c
    → step lib c ≡ done (accepted ss)
    → stmts_tokens ss ≡ ts
unfolding step
step-accepted lib ts c ss reading h =
    let other = act-accepted lib c (action_at c.state (next_number c.input)) ss in
    let final : accept c.values ≡ accepted ss = ground (arith, h, other) in
    accept-tokens ts c.input c.values ss final reading.ended reading.read_so_far

run-tokens :
    (lib : CLibrary) (ts : List Token) (fuel : ℕ) (c : Config) (ss : Stmts)
    → IsReading ts c
    → run lib fuel c ≡ accepted ss
    → stmts_tokens ss ≡ ts
unfolding run
run-tokens lib ts zero c ss reading h = absurd (ground (arith, h))
run-tokens lib ts (suc fuel) c ss reading h =
    ended (step lib c) refl h (λ c' r k. run-tokens lib ts fuel c' ss r k)
  where
    ended :
        (s : Step)
        → step lib c ≡ s
        → (elim s [ done o ↦ o | next c' ↦ run lib fuel c' ]) ≡ accepted ss
        → ((c' : Config) → IsReading ts c' → run lib fuel c' ≡ accepted ss → stmts_tokens ss ≡ ts)
        → stmts_tokens ss ≡ ts
    ended (done o) e k ih = step-accepted lib ts c ss reading (e ∙ ap done k)
    ended (next c') e k ih = ih c' (step-IsReading lib ts c c' reading e) k

-- A text that is accepted is the text of its tree: the tokens of the tree, from left to right, are
-- those that were given.
pub parse-tokens :
    (lib : CLibrary) (ts : List Token) (ss : Stmts)
    → parse lib ts ≡ accepted ss
    → stmts_tokens ss ≡ ts
unfolding parse stack_tokens
parse-tokens lib ts ss h =
    run-tokens lib ts _ (start ts) ss (record { read_so_far = refl; ended = tt }) h
