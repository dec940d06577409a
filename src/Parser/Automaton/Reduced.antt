-- ===== src/Parser/Automaton/Reduced.antt =====
-- Reductions, and what each action of the automaton does.
use th_lang.Base.{
  ℕ, ◌+◌, ◌<◌, ◌≡◌, ◌≢◌, refl, sym, ap, subst, ◌∙◌, true, Option, none, some, List, ◌∷◌, length,
  get_elem?, arith, inl, inr, Option-cases, Bool-cases, ==_iff, if◌then◌else◌,
}
use th_lang.Parser.Actions.{CLibrary}
use th_lang.Parser.Grammar.{nt, number, nonterminal_number, Value}
use th_lang.Parser.Rules.{case_17, Rule, lhs, rhs, make}
use th_lang.Parser.Tables.{yyr1, yyr2}
use th_lang.Parser.Packed.{yystos}
use th_lang.Parser.Automaton.{Action, shift, reduce, fail, goto_at}
use th_lang.Parser.Automaton.Machine.{
  Config, refusal, done, land, or_stuck, is_refused, reduce_by, act, reduce_step, pop_states,
}
use th_lang.Parser.Automaton.Values.{pop_values, rule_at, next_number}
use th_lang.Parser.Automaton.Checked.{
  or_zero, weight, extra, total, begins, at, links, reduces, decides, lands,
}
use th_lang.Parser.Automaton.Verified.{goto-lands}
use th_lang.Parser.Automaton.Stack.{IsChain, Popped, pops-rule}
use th_lang.Parser.Automaton.Progress.{
  measure-running, measure-bounds, Advances, shift_step-Advances,
}

land-returns :
    (n k a p g : ℕ) (under : List ℕ) (v : Value) (vs : List Value) (c : Config)
    → get_elem? yyr2 n ≡ some k
    → get_elem? yyr1 n ≡ some a
    → pop_states k c.state c.below ≡ some (p, under)
    → goto_at a p ≡ some g
    → land n v vs c ≡ some (tt, record c { state = g; below = p ∷ under; values = v ∷ vs })
unfolding land
land-returns n k a p g under v vs c r2 r1 popped goes = rw (r2, r1, popped, goes) refl

-- What the table says of the state behind a reduction.
record Landing (p a : ℕ) : Type 0 where
  pub target : ℕ
  pub goes : goto_at a p ≡ some target
  pub linked : links p target ≡ true
  pub stored : get_elem? yystos target ≡ some a
  pub no_extra : extra target ≡ 0

landing : (p a : ℕ) → a ≢ 45 → begins a p ≡ true → Landing p a
unfolding lands
landing p a other h = elim (Option-cases (goto_at a p)) [
  | inl missing ↦ absurd (ground (arith, goto-lands a p other h, missing))
  | inr (g, goes) ↦
      let landed : lands p a (some g) ≡ true =
        subst (λ o. lands p a o ≡ true) goes (goto-lands a p other h) in
      record {
        target = g;
        goes = goes;
        linked = ground (arith, landed);
        stored = elim (Option-cases (get_elem? yystos g)) [
          | inl missing ↦ absurd (ground (arith, landed, missing))
          | inr (b, found) ↦ found ∙ ap some (ground (arith, landed, found, ==_iff b a))
        ];
        no_extra = ground (arith, landed, ==_iff (extra g) 0);
      }
]

-- What the tables say of a rule that a state reduces by.
record Reducing (s n : ℕ) (r : Rule) : Type 0 where
  pub item : at n (length (rhs r)) s ≡ true
  pub symbol : get_elem? yyr1 n ≡ some (nonterminal_number (lhs r))
  pub count : get_elem? yyr2 n ≡ some (length (rhs r))
  pub lighter : weight (nonterminal_number (lhs r)) < total (rhs r) + extra s

reducing : (s n : ℕ) (r : Rule) → reduces s n (some r) ≡ true → Reducing s n r
unfolding reduces
reducing s n r h = record {
  item = ground (arith, h);
  symbol = elim (Option-cases (get_elem? yyr1 n)) [
    | inl missing ↦ absurd (ground (arith, h, missing))
    | inr (b, found) ↦
        found ∙ ap some (ground (arith, h, found, ==_iff b (nonterminal_number (lhs r))))
  ];
  count = elim (Option-cases (get_elem? yyr2 n)) [
    | inl missing ↦ absurd (ground (arith, h, missing))
    | inr (b, found) ↦ found ∙ ap some (ground (arith, h, found, ==_iff b (length (rhs r))))
  ];
  lighter = ground (arith, h);
}

no_rule : (s n : ℕ) → reduces s n none ≢ true
unfolding reduces
no_rule s n h = ground (arith, h)

-- A reduction that lands.
landed-Advances :
    (n : ℕ) (r : Rule) (c : Config)
    → c.state ≢ 43
    → nonterminal_number (lhs r) ≢ 45
    → Reducing c.state n r
    → (p : Popped n 0 (rhs r) c.state c.below c.values)
    → Advances c (or_stuck (land n (nt (lhs r), make r p.meanings) p.rest c))
unfolding at number or_stuck
landed-Advances n r c other ordinary t p =
    let a = nonterminal_number (lhs r) in
    let begun : begins a p.state ≡ true = ground (arith, p.item, t.symbol) in
    let l = landing p.state a ordinary begun in
    let c' : Config = record c {
      state = l.target;
      below = p.state ∷ p.under;
      values = (nt (lhs r), make r p.meanings) ∷ p.rest;
    } in
    let lands_ =
      land-returns n (length (rhs r)) a p.state l.target p.under (nt (lhs r), make r p.meanings)
        p.rest c t.count t.symbol p.popped_states l.goes in
    subst (λ o. Advances c (or_stuck o)) (sym lands_)
      (
        (l.linked, l.stored, p.chain),
        omega (arith, measure-running c other, measure-bounds c', l.no_extra, t.lighter, p.balance),
      )

refusal-Advances : (c : Config) (r : Rule) → Advances c (done (refusal r))
unfolding refusal
refusal-Advances c case_17 = (λ h. ground (arith, h), λ h. ground (arith, h))
refusal-Advances c _ = (λ h. ground (arith, h), λ h. ground (arith, h))

reduce_step-Advances :
    (lib : CLibrary) (n : ℕ) (r : Rule) (c : Config)
    → c.state ≢ 43
    → nonterminal_number (lhs r) ≢ 45
    → Reducing c.state n r
    → Popped n 0 (rhs r) c.state c.below c.values
    → Advances c (reduce_step lib n r c (pop_values (rhs r) c.values))
unfolding reduce_step
reduce_step-Advances lib n r c other ordinary t p =
    subst (λ o. Advances c (reduce_step lib n r c o)) (sym p.popped_values)
      (elim (Bool-cases (is_refused lib r p.meanings)) [
        | inl throws ↦
            subst
              (λ b. Advances c (
                if b
                then done (refusal r)
                else or_stuck (land n (nt (lhs r), make r p.meanings) p.rest c)))
              (sym throws) (refusal-Advances c r)
        | inr returns ↦
            subst
              (λ b. Advances c (
                if b
                then done (refusal r)
                else or_stuck (land n (nt (lhs r), make r p.meanings) p.rest c)))
              (sym returns) (landed-Advances n r c other ordinary t p)
      ])

pub act-Advances :
    (lib : CLibrary) (c : Config) (a : Option Action)
    → c.state ≢ 43
    → IsChain c.state c.below c.values
    → decides c.state (next_number c.input) a ≡ true
    → Advances c (act lib c a)
unfolding act decides reduce_by
act-Advances lib c none other chain h = absurd (ground (arith, h))
act-Advances lib c (some fail) other chain h = (λ e. ground (arith, e), λ e. ground (arith, e))
act-Advances lib c (some (shift g)) other chain h = shift_step-Advances c g chain other h
act-Advances lib c (some (reduce n)) other chain h =
    by_rule (rule_at n) refl (ground (arith, h))
      (ground (arith, h, ==_iff (or_zero (get_elem? yyr1 n)) 45))
  where
    by_rule :
        (o : Option Rule)
        → rule_at n ≡ o
        → reduces c.state n o ≡ true
        → or_zero (get_elem? yyr1 n) ≢ 45
        → Advances c (reduce_by lib n c o)
    by_rule none rule k ordinary = absurd (no_rule c.state n k)
    by_rule (some r) rule k ordinary =
        let t = reducing c.state n r k in
        reduce_step-Advances lib n r c other (λ e. ordinary (ap or_zero t.symbol ∙ e)) t
          (pops-rule n r c.state c.below c.values rule chain t.item)
