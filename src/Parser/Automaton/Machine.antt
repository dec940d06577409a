-- ===== src/Parser/Automaton/Machine.antt =====
-- The stacks of `yyparse`, its steps, and the parse of a list of tokens.
use th_lang.Base.{
  ℕ, zero, suc, ◌*◌, Bool, true, false, ◌==◌, leb, Option, none, some, List, [], ◌∷◌, length,
  get_elem?, if◌then◌else◌, Stateful, demand, read, modify, ◌>>=◌,
}
use th_lang.Parser.Tree.{Stmts}
use th_lang.Parser.Actions.{CLibrary}
use th_lang.Parser.Token.{Token}
use th_lang.Parser.Grammar.{program_nt, end_symbol, nt, Meanings, Value}
use th_lang.Parser.Rules.{Rule, case_17, case_19, lhs, rhs, make}
use th_lang.Parser.Automaton.Values.{pop_values, rule_at, next_number, next_value, behind}
use th_lang.Parser.Tables.{yyr1, yyr2, yyfinal, yymaxdepth}
use th_lang.Parser.Automaton.{Action, shift, reduce, fail, action_at, goto_at}

-- The stack of states, with the state itself apart; the stack of values; and the input.
pub record Config : Type 0 where
  pub state : ℕ
  pub below : List ℕ
  pub values : List Value
  pub input : List Token

-- How `yyparse` ends: it accepts; `yyerror` for a syntax error or an exhausted stack; an exception of
-- `std::stod`; undefined behaviour of `std::atol`; a read outside a table or of a value of the wrong symbol.
pub data Outcome : Type 0 where
  accepted : Stmts → Outcome
  syntax_error exhausted refused out_of_range stuck out_of_fuel : Outcome

pub data Step : Type 0 where
  next : Config → Step
  done : Outcome → Step

-- The states off the stack: `n` of them, the state on top first.
unfoldable pub pop_states : ℕ → ℕ → List ℕ → Option (ℕ × List ℕ)
pop_states zero s below = some (s, below)
pop_states (suc n) s [] = none
pop_states (suc n) s (p ∷ below) = pop_states n p below

-- The end of `yyreduce` for the rule `n`: its states go off the stack, its value is pushed, and the
-- state is the one for its symbol.
unfoldable pub land : ℕ → Value → List Value → Stateful Config (Unit {0})
land n v values = do
  k ← demand (get_elem? yyr2 n)
  a ← demand (get_elem? yyr1 n)
  popped ← read (λ c. pop_states k c.state c.below)
  uncovered ← demand popped
  g ← demand (goto_at a uncovered.0)
  modify (λ c. record c { state = g; below = uncovered.0 ∷ uncovered.1; values = v ∷ values })

unfoldable pub or_stuck : Option (Unit {0} × Config) → Step
or_stuck none = done stuck
or_stuck (some (u, c)) = next c

-- Whether the case ends the parse: the library function on a literal's text may throw or be undefined.
unfoldable pub is_refused : CLibrary → (r : Rule) → Meanings (rhs r) → Bool
is_refused lib case_17 (s, _) = elim (lib.atol s) [ none ↦ true | some n ↦ false ]
is_refused lib case_19 (s, _) = elim (lib.stod s) [ none ↦ true | some bits ↦ false ]
is_refused lib r ms = false

-- How it does: an integer that is out of range is undefined behaviour, a float throws.
unfoldable pub refusal : Rule → Outcome
refusal case_17 = out_of_range
refusal _ = refused

-- `yyreduce`
unfoldable pub reduce_step :
    CLibrary → ℕ → (r : Rule) → Config → Option (Meanings (rhs r) × List Value) → Step
reduce_step lib n r c none = done stuck
reduce_step lib n r c (some (ms, values)) =
    if is_refused lib r ms
    then done (refusal r)
    else or_stuck (land n (nt (lhs r), make r ms) values c)

unfoldable pub reduce_by : CLibrary → ℕ → Config → Option Rule → Step
reduce_by lib n c none = done stuck
reduce_by lib n c (some r) = reduce_step lib n r c (pop_values (rhs r) c.values)

-- A shift.
unfoldable pub shift_step : ℕ → Config → Config
shift_step g c = record {
  state = g;
  below = c.state ∷ c.below;
  values = next_value c.input ∷ c.values;
  input = behind c.input;
}

-- `YYACCEPT`. The root is what the case for `program` has set it to, the value of `program`.
unfoldable pub accept : List Value → Outcome
accept ((end_symbol, _) ∷ (nt program_nt, ss) ∷ []) = accepted ss
accept values = stuck

-- What `yybackup` has decided on.
unfoldable pub act : CLibrary → Config → Option Action → Step
act lib c none = done stuck
act lib c (some fail) = done syntax_error
act lib c (some (shift g)) = next (shift_step g c)
act lib c (some (reduce n)) = reduce_by lib n c (rule_at n)

-- What follows the growth of the stack.
unfoldable pub proceed : CLibrary → Config → Step
proceed lib c =
    if c.state == yyfinal
    then done (accept c.values)
    else act lib c (action_at c.state (next_number c.input))

-- From `yysetstate` to the next state. The stack grows up to `yymaxdepth` states; Growth has the
-- code that makes it larger.
unfoldable pub step : CLibrary → Config → Step
unfolding proceed
step lib c = if leb yymaxdepth (suc (length c.below)) then done exhausted else proceed lib c

unfoldable pub run : CLibrary → ℕ → Config → Outcome
run lib zero c = out_of_fuel
run lib (suc fuel) c = elim (step lib c) [ done o ↦ o | next c' ↦ run lib fuel c' ]

abbrev pub start : List Token → Config
start ts = record { state = 0; below = []; values = []; input = ts }

-- At most 40 steps for each token.
unfoldable pub parse : CLibrary → List Token → Outcome
parse lib ts = run lib (40 * suc (length ts)) (start ts)
