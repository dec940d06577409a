-- ===== src/Parser/Automaton/Stack.antt =====
-- The two stacks against the items: what a rule that has been read whole finds on them.
use th_lang.Base.{
  ℕ, zero, suc, ◌+◌, ◌≡◌, refl, sym, ap, subst, ◌∙◌, true, some, List, [], ◌∷◌, length, get_elem?,
  arith, ==_iff,
}
use th_lang.Parser.Grammar.{Symbol, number, Meaning, Meanings, Value}
use th_lang.Parser.Rules.{Rule, rhs}
use th_lang.Parser.Packed.{yystos}
use th_lang.Parser.Automaton.Machine.{pop_states}
use th_lang.Parser.Automaton.Values.{take, pop_value, pop_values, rule_at}
use th_lang.Parser.Automaton.Checked.{weight, total, reads, at, links, enters}
use th_lang.Parser.Automaton.Symbols.{take-returns}
use th_lang.Parser.Automaton.Verified.{reads-enters, links-at, reads-nonzero}

-- Each state stands on one that it may stand on, and its symbol is that of its value.
abbrev pub IsChain : ℕ → List ℕ → List Value → Type 0
IsChain s [] [] = s ≡ 0
IsChain s (p ∷ below) (v ∷ values) =
    (links p s ≡ true) × (get_elem? yystos s ≡ some (number v.0)) × IsChain p below values
IsChain s [] (v ∷ values) = ⊥
IsChain s (p ∷ below) [] = ⊥

abbrev pub mass : List Value → ℕ
mass [] = 0
mass (v ∷ values) = weight (number v.0) + mass values

-- What is left when the right-hand side `xs` has been popped.
pub record Popped (n d : ℕ) (xs : List Symbol) (s : ℕ) (below : List ℕ) (values : List Value)
    : Type 0 where
  pub meanings : Meanings xs
  pub rest : List Value
  pub state : ℕ
  pub under : List ℕ
  pub popped_values : pop_values xs values ≡ some (meanings, rest)
  pub popped_states : pop_states (length xs) s below ≡ some (state, under)
  pub chain : IsChain state under rest
  pub item : at n d state ≡ true
  pub balance : mass values ≡ total xs + mass rest

pop_states-suc :
    (k s p q : ℕ) (below under : List ℕ)
    → pop_states k s below ≡ some (p, q ∷ under)
    → pop_states (suc k) s below ≡ some (q, under)
unfolding pop_states
pop_states-suc zero s p q [] under h = absurd (ground (arith, h))
pop_states-suc zero s p q (b ∷ below) under h = ground (arith, h)
pop_states-suc (suc k) s p q [] under h = absurd (ground (arith, h))
pop_states-suc (suc k) s p q (b ∷ below) under h = pop_states-suc k b p q below under h

entered :
    (s n d : ℕ) (r : Rule) (x : Symbol) (a : ℕ)
    → rule_at n ≡ some r
    → get_elem? (rhs r) d ≡ some x
    → reads n (suc d) s ≡ true
    → get_elem? yystos s ≡ some a
    → number x ≡ a
unfolding enters
entered s n d r x a rule found h stored =
    let e = reads-enters s n d h in ground (arith, e, rule, found, stored, ==_iff a (number x))

pop_values-cons :
    (x : Symbol) (xs : List Symbol) (values : List Value) (v : Value) (rest : List Value)
    (ms : Meanings xs) (m : Meaning x)
    → pop_values xs values ≡ some (ms, v ∷ rest)
    → take x v ≡ some m
    → pop_values (x ∷ xs) values ≡ some ((m, ms), rest)
unfolding pop_values pop_value
pop_values-cons x xs values v rest ms m vals taken = ground (arith, vals, taken)

pop_one :
    (n d : ℕ) (r : Rule) (x : Symbol) (xs : List Symbol) (s : ℕ) (below : List ℕ)
    (values : List Value)
    → rule_at n ≡ some r
    → get_elem? (rhs r) d ≡ some x
    → Popped n (suc d) xs s below values
    → Popped n d (x ∷ xs) s below values
unfolding at total
pop_one n d r x xs s below values rule found p =
    go p.state p.under p.rest p.meanings p.popped_values p.popped_states p.chain p.item p.balance
  where
    go :
        (t : ℕ) (under : List ℕ) (rest : List Value) (ms : Meanings xs)
        → pop_values xs values ≡ some (ms, rest)
        → pop_states (length xs) s below ≡ some (t, under)
        → IsChain t under rest
        → reads n (suc d) t ≡ true
        → mass values ≡ total xs + mass rest
        → Popped n d (x ∷ xs) s below values
    go t [] [] ms vals states chain item balance = absurd (reads-nonzero t n (suc d) item chain)
    go t [] (v ∷ rest) ms vals states chain item balance = absurd chain
    go t (q ∷ under) [] ms vals states chain item balance = absurd chain
    go t (q ∷ under) (v ∷ rest) ms vals states (linked, stored, chain) item balance =
        let same = entered t n d r x (number v.0) rule found item stored in
        let (m, taken) = take-returns x v same in
        record {
          meanings = (m, ms);
          rest = rest;
          state = q;
          under = under;
          popped_values = pop_values-cons x xs values v rest ms m vals taken;
          popped_states = pop_states-suc (length xs) s t q below under states;
          chain = chain;
          item = links-at q t n d linked item;
          balance = omega (arith, balance, ap weight same);
        }

pops :
    (n d : ℕ) (r : Rule) (xs : List Symbol) (s : ℕ) (below : List ℕ) (values : List Value)
    → rule_at n ≡ some r
    → ((i : ℕ) → get_elem? xs i ≡ get_elem? (rhs r) (d + i))
    → IsChain s below values
    → at n (d + length xs) s ≡ true
    → Popped n d xs s below values
unfolding pop_values pop_states total
pops n d r [] s below values rule suffix chain item = record {
  meanings = tt;
  rest = values;
  state = s;
  under = below;
  popped_values = refl;
  popped_states = refl;
  chain = chain;
  item = subst (λ k. at n k s ≡ true) (omega arith) item;
  balance = omega arith;
}
pops n d r (x ∷ xs) s below values rule suffix chain item =
    pop_one n d r x xs s below values rule
      (subst (λ k. get_elem? (rhs r) k ≡ some x) (omega arith) (sym (suffix 0)))
      (pops n (suc d) r xs s below values rule
        (λ i. suffix (suc i) ∙ ap (get_elem? (rhs r)) (omega arith)) chain
        (subst (λ k. at n k s ≡ true) (omega arith) item))

-- A rule that has been read whole finds its right-hand side on the stacks.
pub pops-rule :
    (n : ℕ) (r : Rule) (s : ℕ) (below : List ℕ) (values : List Value)
    → rule_at n ≡ some r
    → IsChain s below values
    → at n (length (rhs r)) s ≡ true
    → Popped n 0 (rhs r) s below values
pops-rule n r s below values rule chain item =
    pops n 0 r (rhs r) s below values rule (λ i. ap (get_elem? (rhs r)) (omega arith)) chain
      (subst (λ k. at n k s ≡ true) (omega arith) item)
