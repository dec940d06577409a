-- ===== src/Parser/Automaton/Decided.antt =====
-- The accepting state, and a whole run.
use th_lang.Base.{
  ℕ, zero, suc, ◌*◌, ◌<◌, ◌≡◌, ◌≢◌, refl, sym, ap, subst, ◌∙◌, true, ◌==◌, leb, some, List, [], ◌∷◌,
  length, get_elem?, arith, inl, inr, Bool-cases, ==_iff,
}
use th_lang.Parser.Tree.{Stmts}
use th_lang.Parser.Actions.{CLibrary}
use th_lang.Parser.Token.{Token}
use th_lang.Parser.Grammar.{program_nt, end_symbol, nt, Meanings, Value}
use th_lang.Parser.Rules.{case_1, rhs}
use th_lang.Parser.Automaton.Reduced.{act-Advances}
use th_lang.Parser.Tables.{yyr1, yyfinal, yymaxdepth}
use th_lang.Parser.Automaton.{action_at}
use th_lang.Parser.Automaton.Machine.{
  Config, accepted, stuck, out_of_fuel, Step, next, done, accept, step, run, start, parse,
}
use th_lang.Parser.Automaton.Values.{
  as_nonterminal, take, pop_value, pop_values, rule_at, next_number,
}
use th_lang.Parser.Automaton.Items.{underway}
use th_lang.Parser.Automaton.Checked.{extra, at, reads, links}
use th_lang.Parser.Automaton.Verified.{action-decided, begins-start}
use th_lang.Parser.Automaton.Stack.{IsChain, pops-rule}
use th_lang.Parser.Automaton.Progress.{measure, Advances, next_number-bounds, state-bounds}

pub nothing_below :
    (under : List ℕ) (values : List Value) → IsChain 0 under values → (values ≡ []) × (under ≡ [])
unfolding links
nothing_below [] [] chain = (refl, refl)
nothing_below [] (v ∷ values) chain = absurd chain
nothing_below (p ∷ under) [] chain = absurd chain
nothing_below (p ∷ under) (v ∷ values) (linked, stored, rest) = absurd (ground (arith, linked))

-- A stack that holds the first rule's right-hand side, and nothing else, is accepted.
accept-Decided :
    (values : List Value) (ms : Meanings (rhs case_1))
    → pop_values (rhs case_1) values ≡ some (ms, [])
    → (ss : Stmts) × (accept values ≡ accepted ss)
unfolding pop_values pop_value take as_nonterminal accept
accept-Decided [] ms h = absurd (ground (arith, h))
accept-Decided ((end_symbol, u) ∷ []) ms h = absurd (ground (arith, h))
accept-Decided ((end_symbol, u) ∷ (nt program_nt, ss) ∷ []) ms h = (ss, refl)
accept-Decided ((end_symbol, u) ∷ (nt program_nt, ss) ∷ v ∷ vs) ms h = absurd (ground (arith, h))
accept-Decided ((end_symbol, u) ∷ (nt _, ss) ∷ vs) ms h = absurd (ground (arith, h))
accept-Decided ((end_symbol, u) ∷ (_, ss) ∷ vs) ms h = absurd (ground (arith, h))
accept-Decided ((_, u) ∷ vs) ms h = absurd (ground (arith, h))

pub final_item :
    (at 1 (length (rhs case_1)) 43 ≡ true)
    × (rule_at 1 ≡ some case_1)
    × (get_elem? yyr1 1 ≡ some 45)
unfolding at reads underway rule_at yyr1
final_item = (refl, refl, refl)

accept-Advances :
    (c : Config)
    → c.state ≡ 43
    → IsChain c.state c.below c.values
    → Advances c (done (accept c.values))
unfolding at
accept-Advances c final chain =
    let (item, rule, symbol) = final_item in
    let p =
      pops-rule 1 case_1 c.state c.below c.values rule chain
        (subst (λ s. at 1 2 s ≡ true) (sym final) item) in
    let bottom : p.state ≡ 0 = begins-start p.state (ground (arith, p.item, symbol)) in
    let (alone, empty) =
      nothing_below p.under p.rest (subst (λ s. IsChain s p.under p.rest) bottom p.chain) in
    let (ss, e) =
      accept-Decided c.values p.meanings
        (p.popped_values ∙ ap (λ vs. some (p.meanings, vs)) alone) in
    (λ h. ground (arith, h, e), λ h. ground (arith, h, e))

-- Every step of a run that began at the bottom goes on or ends well.
pub step-Advances :
    (lib : CLibrary) (c : Config) → IsChain c.state c.below c.values → Advances c (step lib c)
unfolding step
step-Advances lib c chain = elim (Bool-cases (leb yymaxdepth (suc (length c.below)))) [
  | inl full ↦ rw full (λ h. ground (arith, h), λ h. ground (arith, h))
  | inr room ↦ elim (Bool-cases (c.state == yyfinal)) [
    | inl final ↦
        rw (room, final) (accept-Advances c (ground (arith, final, ==_iff c.state 43)) chain)
    | inr running ↦
        let other : c.state ≢ 43 = ground (arith, running, ==_iff c.state 43) in
        rw (room, running)
          (act-Advances lib c (action_at c.state (next_number c.input)) other chain (
            action-decided c.state (next_number c.input)
              (state-bounds c.state c.below c.values chain) (next_number-bounds c.input) other))
  ]
]

run-IsDecided :
    (lib : CLibrary) (fuel : ℕ) (c : Config)
    → IsChain c.state c.below c.values
    → measure c < fuel
    → (run lib fuel c ≢ stuck) × (run lib fuel c ≢ out_of_fuel)
unfolding run
run-IsDecided lib zero c chain enough = absurd (omega (arith, enough))
run-IsDecided lib (suc fuel) c chain enough =
    go (step lib c) (step-Advances lib c chain) (λ c' k m. run-IsDecided lib fuel c' k m)
  where
    go :
        (s : Step)
        → Advances c s
        → ((c' : Config)
            → IsChain c'.state c'.below c'.values
            → measure c' < fuel
            → (run lib fuel c' ≢ stuck) × (run lib fuel c' ≢ out_of_fuel))
        → (elim s [ done o ↦ o | next c' ↦ run lib fuel c' ] ≢ stuck)
          × (elim s [ done o ↦ o | next c' ↦ run lib fuel c' ] ≢ out_of_fuel)
    go (done o) k ih = k
    go (next c') (chain', less) ih = ih c' chain' (omega (arith, less, enough))

-- A parse is decided: no list of tokens makes it read outside a table or take a value of the wrong
-- symbol off the stack, and 40 steps for each token and for the end are enough.
pub parse-IsDecided :
    (lib : CLibrary) (ts : List Token) → (parse lib ts ≢ stuck) × (parse lib ts ≢ out_of_fuel)
unfolding parse measure extra
parse-IsDecided lib ts = run-IsDecided lib (40 * suc (length ts)) (start ts) refl (omega arith)
