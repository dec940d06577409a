-- ===== src/Parser/Automaton.antt =====
-- The automaton of `yyparse` in src/parser.cpp, from `yysetstate` to `yynewstate`. A value on the
-- stack carries its symbol; a case that finds another symbol than it reads is `stuck`. `yyerror` ends
-- the process, so nothing behind it is modelled.
pub mod Values
pub mod Machine
pub mod Items
pub mod Stacked
pub mod Sound
pub mod Symbols
pub mod Checked
pub mod Verified
pub mod Stack
pub mod Progress
pub mod Reduced
pub mod Decided
pub mod Depth
pub mod Growth
use th_lang.Base.{
  ℕ, zero, suc, ◌+◌, ◌*◌, ◌-◌, String, Bool, true, false, ◌==◌, leb, ◌&&◌, Option, none, some, List,
  [], ◌∷◌, length, get_elem?, if◌then◌else◌,
}
use th_lang.Base.Int.{ℤ, pos, negsuc}
use th_lang.Parser.Tree.{Stmts}
use th_lang.Parser.Actions.{CLibrary}
use th_lang.Parser.Token.{
  Terminal, Text, Token, mark, word, terminal_number, text_number, token_number,
}
use th_lang.Parser.Tables.{
  yypact, yydefact, yypgoto, yydefgoto, yyr1, yyr2, yyntokens, yylast, yyfinal, yymaxdepth,
}
use th_lang.Parser.Packed.{yytable, yycheck}

-- `yyn += yytoken`: `none` is a negative sum.
unfoldable pub add_index : ℤ → ℕ → Option ℕ
add_index (pos n) k = some (n + k)
add_index (negsuc n) k = if leb (suc n) k then some (k - suc n) else none

-- `yypact_value_is_default`
unfoldable pub is_default : ℤ → Bool
is_default (pos n) = false
is_default (negsuc n) = n == 52

-- `yycheck[yyn] == yytoken`
abbrev pub is_key : ℤ → ℕ → Bool
is_key (pos k) key = k == key
is_key (negsuc k) key = false

-- The entry of `yytable` at an index that is not past the last one, if `yycheck` says that it is the
-- key's. The outer `none` is a read outside a table.
unfoldable pub entry : Option ℕ → ℕ → Option (Option ℤ)
entry none key = some none
entry (some i) key =
    if leb i yylast
    then elim (get_elem? yycheck i) [
      | none ↦ none
      | some k ↦
          if is_key k key
          then elim (get_elem? yytable i) [ none ↦ none | some n ↦ some (some n) ]
          else some none
    ]
    else some none

pub data Action : Type 0 where
  shift : ℕ → Action
  reduce : ℕ → Action
  fail : Action

-- `yydefault`
unfoldable pub default_action : ℕ → Option Action
default_action s = elim (get_elem? yydefact s) [
  | none ↦ none
  | some zero ↦ some fail
  | some (suc n) ↦ some (reduce (suc n))
]

-- `yybackup`: what to do in a state before a token. `none` is a read outside a table.
unfoldable pub action_at : ℕ → ℕ → Option Action
action_at s token = elim (get_elem? yypact s) [
  | none ↦ none
  | some n ↦ if is_default n then default_action s else elim (entry (add_index n token) token) [
    | none ↦ none
    | some none ↦ default_action s
    | some (some (pos zero)) ↦ some (reduce zero)
    | some (some (pos (suc k))) ↦ some (shift (suc k))
    | some (some (negsuc k)) ↦ some (reduce (suc k))
  ]
]

-- A state's number, which is not negative.
unfoldable pub as_state : ℤ → Option ℕ
as_state (pos n) = some n
as_state (negsuc n) = none

-- The state behind a reduction to the symbol `a` over the state `s`.
unfoldable pub goto_at : ℕ → ℕ → Option ℕ
goto_at a s = elim (get_elem? yypgoto (a - yyntokens)) [
  | none ↦ none
  | some n ↦ elim (entry (add_index n s) s) [
    | none ↦ none
    | some (some g) ↦ as_state g
    | some none ↦ elim (get_elem? yydefgoto (a - yyntokens)) [ none ↦ none | some g ↦ as_state g ]
  ]
]
