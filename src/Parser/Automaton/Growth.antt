-- ===== src/Parser/Automaton/Growth.antt =====
-- The stacks of `yyparse` as memory that is made larger when it is full.
use th_lang.Base.{
  ℕ, zero, suc, ◌*◌, ◌≤◌, ◌<◌, ◌≡◌, refl, Bool, true, false, ◌==◌, leb, Bool-cases, Option-cases,
  get_elem?, ◌>>=◌, ◌⊎◌, inl, inr, Option, none, some, List, [], ◌∷◌, length, arith, if◌then◌else◌,
}
use th_lang.Parser.Actions.{CLibrary}
use th_lang.Parser.Token.{Token}
use th_lang.Parser.Grammar.{Value, Meanings, nt}
use th_lang.Parser.Rules.{Rule, rhs, lhs, make}
use th_lang.Parser.Tables.{yymaxdepth, yyr1, yyr2, yyfinal}
use th_lang.Parser.Automaton.{Action, shift, reduce, fail, action_at, goto_at}
use th_lang.Parser.Automaton.Values.{pop_values, rule_at, next_number}
use th_lang.Parser.Automaton.Machine.{
  is_refused, Config, Outcome, exhausted, out_of_fuel, Step, next, done, pop_states, land, or_stuck,
  reduce_step, reduce_by, shift_step, act, proceed, step, run, start, parse,
}

-- `YYINITDEPTH`
abbrev pub yyinitdepth : ℕ
yyinitdepth = 200

-- There is room on stacks of this many elements, `yyexhaustedlab`, or `YYABORT`.
pub data Room : Type 0 where
  room : ℕ → Room
  no_memory aborted : Room

-- `yystacksize *= 2`, at most `YYMAXDEPTH`.
unfoldable pub doubled : ℕ → ℕ
doubled yystacksize = if leb (yystacksize * 2) yymaxdepth then yystacksize * 2 else yymaxdepth

-- How a parse on such stacks ends.
pub data Ending : Type 0 where
  ended : Outcome → Ending
  parse_aborted : Ending

-- Whether there is memory for stacks of so many elements.
module _ (allocates : ℕ → Bool) where
  -- The part of `yysetstate` that makes the stacks larger; `yysize` of their elements are in use.
  unfoldable pub grow : ℕ → ℕ → Room
  grow yysize yystacksize =
      if leb yystacksize yysize
      then (if leb yymaxdepth yystacksize
          then no_memory
          else if allocates (doubled yystacksize)
          then (if leb (doubled yystacksize) yysize then aborted else room (doubled yystacksize))
          else no_memory)
      else room yystacksize

  unfoldable pub run_growing : CLibrary → ℕ → ℕ → Config → Ending
  run_growing lib zero yystacksize c = ended out_of_fuel
  run_growing lib (suc fuel) yystacksize c = elim (grow (suc (length c.below)) yystacksize) [
    | no_memory ↦ ended exhausted
    | aborted ↦ parse_aborted
    | room yystacksize' ↦ elim (proceed lib c) [
      | done o ↦ ended o
      | next c' ↦ run_growing lib fuel yystacksize' c'
    ]
  ]

  unfoldable pub parse_growing : CLibrary → List Token → Ending
  unfolding run_growing
  parse_growing lib ts = run_growing lib (40 * suc (length ts)) yyinitdepth (start ts)

length-pop_states :
    (n s : ℕ) (below : List ℕ) (t : ℕ) (rest : List ℕ)
    → pop_states n s below ≡ some (t, rest)
    → length rest ≤ length below
unfolding pop_states
length-pop_states zero s below t rest h = ground (arith, h)
length-pop_states (suc n) s [] t rest h = absurd (ground (arith, h))
length-pop_states (suc n) s (p ∷ below) t rest h =
    omega (arith, length-pop_states n p below t rest h)

-- A step pushes one state at most.
abbrev Pushes : Config → Step → Type 0
Pushes c (done o) = Unit {0}
Pushes c (next c') = length c'.below ≤ suc (length c.below)

land-Pushes :
    (n : ℕ) (v : Value) (values : List Value) (c : Config) → Pushes c (or_stuck (land n v values c))
unfolding land or_stuck
land-Pushes n v values c = elim (Option-cases (get_elem? yyr2 n)) [
  | inl e ↦ rw (e, ◌>>=◌) tt
  | inr (k, e) ↦ elim (Option-cases (get_elem? yyr1 n)) [
    | inl e' ↦ rw (e, ◌>>=◌) (rw (e', ◌>>=◌) tt)
    | inr (a, e') ↦ elim (Option-cases (pop_states k c.state c.below)) [
      | inl p ↦ rw (e, ◌>>=◌) (rw (e', ◌>>=◌) (rw (p, ◌>>=◌) tt))
      | inr ((t, rest), p) ↦ elim (Option-cases (goto_at a t)) [
        | inl g ↦ rw (e, ◌>>=◌) (rw (e', ◌>>=◌) (rw (p, ◌>>=◌) (rw (g, ◌>>=◌) tt)))
        | inr (u, g) ↦
            rw (e, ◌>>=◌)
              (rw (e', ◌>>=◌)
                (rw (p, ◌>>=◌)
                  (rw (g, ◌>>=◌) (omega (arith, length-pop_states k c.state c.below t rest p)))))
      ]
    ]
  ]
]

reduce_by-Pushes :
    (lib : CLibrary) (n : ℕ) (c : Config) (r : Option Rule) → Pushes c (reduce_by lib n c r)
unfolding reduce_by reduce_step
reduce_by-Pushes lib n c none = tt
reduce_by-Pushes lib n c (some r) = go (pop_values (rhs r) c.values)
  where
    go : (o : Option (Meanings (rhs r) × List Value)) → Pushes c (reduce_step lib n r c o)
    go none = tt
    go (some (ms, values)) = elim (Bool-cases (is_refused lib r ms)) [
      | inl e ↦ rw e tt
      | inr e ↦ rw e (land-Pushes n (nt (lhs r), make r ms) values c)
    ]

act-Pushes : (lib : CLibrary) (c : Config) (a : Option Action) → Pushes c (act lib c a)
unfolding act shift_step
act-Pushes lib c none = tt
act-Pushes lib c (some fail) = tt
act-Pushes lib c (some (shift g)) = omega arith
act-Pushes lib c (some (reduce n)) = reduce_by-Pushes lib n c (rule_at n)

proceed-Pushes : (lib : CLibrary) (c : Config) → Pushes c (proceed lib c)
unfolding proceed
proceed-Pushes lib c = elim (Bool-cases (c.state == yyfinal)) [
  | inl e ↦ rw e tt
  | inr e ↦ rw e (act-Pushes lib c (action_at c.state (next_number c.input)))
]

doubled_bounds : (n : ℕ) → 1 ≤ n → n < yymaxdepth → (n < doubled n) × (doubled n ≤ yymaxdepth)
unfolding doubled
doubled_bounds n some_ small = ground arith

module _ (allocates : ℕ → Bool) (lib : CLibrary) (enough : (n : ℕ) → allocates n ≡ true) where
  -- A stack in use that is no larger than its memory: it grows, or it is full.
  abbrev FullOrGrown : ℕ → Room → Type 0
  FullOrGrown yysize r =
      ((yymaxdepth ≤ yysize) × (r ≡ no_memory))
      ⊎ ((yysize < yymaxdepth) × ((n : ℕ) × (r ≡ room n) × (yysize < n) × (n ≤ yymaxdepth)))

  grow-cases :
      (yysize yystacksize : ℕ)
      → yysize ≤ yystacksize
      → 1 ≤ yystacksize
      → yystacksize ≤ yymaxdepth
      → FullOrGrown yysize (grow allocates yysize yystacksize)
  unfolding grow
  grow-cases yysize yystacksize used some_ bound = elim (Bool-cases (leb yystacksize yysize)) [
    | inr larger ↦ inr (ground arith, (yystacksize, rw larger refl, ground arith, bound))
    | inl full ↦ elim (Bool-cases (leb yymaxdepth yystacksize)) [
      | inl e ↦ inl (ground arith, rw full (rw e refl))
      | inr e ↦
          let below_max : yystacksize < yymaxdepth = ground (arith, e) in
          let (larger, small) = doubled_bounds yystacksize some_ below_max in
          let fits : leb (doubled yystacksize) yysize ≡ false = ground (arith, larger, used) in
          inr (
            omega arith,
            (
              doubled yystacksize,
              rw full (rw e (rw (enough (doubled yystacksize)) (rw fits refl))),
              omega arith,
              small,
            ),
          )
    ]
  ]

  -- `step` is what a step on such stacks does.
  run_growing-run :
      (fuel yystacksize : ℕ) (c : Config)
      → suc (length c.below) ≤ yystacksize
      → 1 ≤ yystacksize
      → yystacksize ≤ yymaxdepth
      → run_growing allocates lib fuel yystacksize c ≡ ended (run lib fuel c)
  unfolding run_growing run step
  run_growing-run zero yystacksize c used some_ bound = refl
  run_growing-run (suc fuel) yystacksize c used some_ bound =
      go (proceed lib c) (proceed-Pushes lib c) (λ c' n h k l. run_growing-run fuel n c' h k l)
        (grow-cases (suc (length c.below)) yystacksize used some_ bound)
    where
      go :
          (s : Step)
          → Pushes c s
          → ((c' : Config) (n : ℕ)
              → suc (length c'.below) ≤ n
              → 1 ≤ n
              → n ≤ yymaxdepth
              → run_growing allocates lib fuel n c' ≡ ended (run lib fuel c'))
          → FullOrGrown (suc (length c.below)) (grow allocates (suc (length c.below)) yystacksize)
          → (elim (grow allocates (suc (length c.below)) yystacksize) [
            | no_memory ↦ ended exhausted
            | aborted ↦ parse_aborted
            | room yystacksize' ↦ elim s [
              | done o ↦ ended o
              | next c' ↦ run_growing allocates lib fuel yystacksize' c'
            ]
          ])
            ≡ ended (elim (if leb yymaxdepth (suc (length c.below)) then done exhausted else s) [
              | done o ↦ o
              | next c' ↦ run lib fuel c'
            ])
      go s p ih (inl (full, e)) =
          let t : leb yymaxdepth (suc (length c.below)) ≡ true = ground (arith, full) in
          rw e (rw t refl)
      go (done o) p ih (inr (small, (n, e, _, _))) =
          let t : leb yymaxdepth (suc (length c.below)) ≡ false = ground (arith, small) in
          rw e (rw t refl)
      go (next c') p ih (inr (small, (n, e, more, bound'))) =
          let t : leb yymaxdepth (suc (length c.below)) ≡ false = ground (arith, small) in
          rw e (rw t (ih c' n (omega arith) (omega arith) bound'))

  -- Where there is memory, a parse on stacks that begin with 200 elements and are doubled up to 10000
  -- ends like one whose stacks have 10000 elements; it never finds a stack that is too small after
  -- it has grown.
  pub parse_growing-parse :
      (ts : List Token) → parse_growing allocates lib ts ≡ ended (parse lib ts)
  unfolding parse_growing parse
  parse_growing-parse ts =
      run_growing-run (40 * suc (length ts)) yyinitdepth (start ts) (omega arith) (omega arith)
        (omega arith)
