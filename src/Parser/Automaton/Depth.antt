-- ===== src/Parser/Automaton/Depth.antt =====
-- How far the stacks grow.
use th_lang.Base.{
  ℕ, zero, suc, ◌*◌, ◌<◌, ◌≤◌, ◌≡◌, ◌≢◌, refl, sym, ap, subst, ◌∙◌, true, ◌==◌, Bool-cases, inl,
  inr, ==_iff, Option, none, some, List, [], ◌∷◌, length, arith,
}
use th_lang.Parser.Actions.{CLibrary}
use th_lang.Parser.Token.{token_int_type, id_text, Token, terminal_number, text_number}
use th_lang.Parser.Grammar.{
  accept_nt, program_nt, Symbol, end_symbol, mark_symbol, word_symbol, nt, number,
  nonterminal_number, Value,
}
use th_lang.Parser.Rules.{Rule, case_1, case_17}
use th_lang.Parser.Tables.{yymaxdepth}
use th_lang.Parser.Automaton.{Action, shift, reduce, fail, action_at}
use th_lang.Parser.Automaton.Values.{rule_at, next_number}
use th_lang.Parser.Automaton.Machine.{
  Config, refusal, exhausted, Step, next, done, pop_states, or_stuck, reduce_step, reduce_by,
  accept, act, step, run, start, parse,
}
use th_lang.Parser.Automaton.Checked.{weights, weight, extra, at}
use th_lang.Parser.Automaton.Verified.{begins-start}
use th_lang.Parser.Automaton.Stack.{IsChain, mass, pops-rule}
use th_lang.Parser.Automaton.Progress.{measure, measure-running, Advances}
use th_lang.Parser.Automaton.Decided.{nothing_below, final_item, step-Advances}

weight-bounds : (x : Symbol) → 7 ≤ weight (number x)
unfolding weight weights number terminal_number text_number nonterminal_number
weight-bounds end_symbol = omega arith
weight-bounds (mark_symbol token_int_type) = omega arith
weight-bounds (mark_symbol _) = omega arith
weight-bounds (word_symbol id_text) = omega arith
weight-bounds (word_symbol _) = omega arith
weight-bounds (nt accept_nt) = omega arith
weight-bounds (nt _) = omega arith

-- Each state but the first stands on a symbol, which weighs at least 7.
depth-mass :
    (s : ℕ) (below : List ℕ) (values : List Value)
    → IsChain s below values
    → 7 * length below ≤ mass values
depth-mass s [] [] chain = omega arith
depth-mass s [] (v ∷ values) chain = absurd chain
depth-mass s (p ∷ below) [] chain = absurd chain
depth-mass s (p ∷ below) (v ∷ values) (linked, stored, chain) =
    omega (arith, depth-mass p below values chain, weight-bounds v.0)

popped_two : (s p : ℕ) (below : List ℕ) → pop_states 2 s below ≡ some (p, []) → length below ≡ 2
unfolding pop_states
popped_two s p [] h = absurd (ground (arith, h))
popped_two s p (a ∷ []) h = absurd (ground (arith, h))
popped_two s p (a ∷ b ∷ []) h = omega arith
popped_two s p (a ∷ b ∷ c ∷ below) h = absurd (ground (arith, h))

-- In the final state nothing but the first rule is on the stacks.
final_depth : (c : Config) → c.state ≡ 43 → IsChain c.state c.below c.values → length c.below ≡ 2
unfolding at
final_depth c final chain =
    let (item, rule, symbol) = final_item in
    let p =
      pops-rule 1 case_1 c.state c.below c.values rule chain
        (subst (λ s. at 1 2 s ≡ true) (sym final) item) in
    let bottom : p.state ≡ 0 = begins-start p.state (ground (arith, p.item, symbol)) in
    let (alone, empty) =
      nothing_below p.under p.rest (subst (λ s. IsChain s p.under p.rest) bottom p.chain) in
    popped_two c.state p.state c.below (p.popped_states ∙ ap (λ us. some (p.state, us)) empty)

depth-bounds :
    (n : ℕ) (c : Config)
    → n < 1790
    → IsChain c.state c.below c.values
    → measure c ≤ 39 * suc n
    → suc (length c.below) < yymaxdepth
depth-bounds n c small chain light = elim (Bool-cases (c.state == 43)) [
  | inl final ↦ omega (arith, final_depth c (ground (arith, final, ==_iff c.state 43)) chain)
  | inr running ↦ omega (
    arith,
    small,
    light,
    depth-mass c.state c.below c.values chain,
    measure-running c (ground (arith, running, ==_iff c.state 43)),
  )
]

refusal-exhausted : (r : Rule) → refusal r ≢ exhausted
unfolding refusal
refusal-exhausted case_17 h = ground (arith, h)
refusal-exhausted _ h = ground (arith, h)

reduce_by-exhausted :
    (lib : CLibrary) (n : ℕ) (c : Config) (o : Option Rule) → reduce_by lib n c o ≢ done exhausted
unfolding reduce_by reduce_step or_stuck
reduce_by-exhausted lib n c none h = ground (arith, h)
reduce_by-exhausted lib n c (some r) h = ground (arith, h, refusal-exhausted r)

act-exhausted : (lib : CLibrary) (c : Config) (a : Option Action) → act lib c a ≢ done exhausted
unfolding act
act-exhausted lib c none h = ground (arith, h)
act-exhausted lib c (some fail) h = ground (arith, h)
act-exhausted lib c (some (shift g)) h = ground (arith, h)
act-exhausted lib c (some (reduce n)) h = reduce_by-exhausted lib n c (rule_at n) h

accept-exhausted : (values : List Value) → accept values ≢ exhausted
unfolding accept
accept-exhausted ((end_symbol, _) ∷ (nt program_nt, ss) ∷ []) h = ground (arith, h)
accept-exhausted _ h = ground (arith, h)

-- Only a full stack is exhausted.
step-exhausted :
    (lib : CLibrary) (c : Config) → suc (length c.below) < yymaxdepth → step lib c ≢ done exhausted
unfolding step
step-exhausted lib c room h =
    let others = act-exhausted lib c (action_at c.state (next_number c.input)) in
    let ended = accept-exhausted c.values in ground (arith, h, room, others, ended)

run-exhausted :
    (lib : CLibrary) (n fuel : ℕ) (c : Config)
    → n < 1790
    → IsChain c.state c.below c.values
    → measure c ≤ 39 * suc n
    → run lib fuel c ≢ exhausted
unfolding run
run-exhausted lib n zero c small chain light = λ h. ground (arith, h)
run-exhausted lib n (suc fuel) c small chain light =
    go (step lib c) (step-Advances lib c chain)
      (step-exhausted lib c (depth-bounds n c small chain light))
      (λ c' k m. run-exhausted lib n fuel c' small k (omega (arith, m, light)))
  where
    go :
        (s : Step)
        → Advances c s
        → s ≢ done exhausted
        → ((c' : Config)
            → IsChain c'.state c'.below c'.values
            → measure c' < measure c
            → run lib fuel c' ≢ exhausted)
        → (elim s [ done o ↦ o | next c' ↦ run lib fuel c' ]) ≢ exhausted
    go (done o) k full ih = λ h. full (ap done h)
    go (next c') (chain', less) full ih = ih c' chain' less

-- No text of fewer than 1790 tokens fills the stack of 10000 states.
pub parse-exhausted :
    (lib : CLibrary) (ts : List Token) → length ts < 1790 → parse lib ts ≢ exhausted
unfolding parse measure extra
parse-exhausted lib ts small =
    run-exhausted lib (length ts) (40 * suc (length ts)) (start ts) small refl (omega arith)
