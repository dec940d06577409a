-- ===== src/Parser/Grammar.antt =====
-- The grammar as data: symbols with the type of their semantic value, and a rule for each case of
-- `yyparse`'s switch, with its two sides and the value it makes.
use th_lang.Base.{ℕ, String, List, [], ◌∷◌}
use th_lang.Parser.Tree.{
  Op, Types, TypeList, Expr, CallArgs, VarDecl, FuncArgs, Block, Stmts, Stmt, IfStmt,
}
use th_lang.Parser.Token.{Terminal, Text, terminal_number, text_number}

pub data Nonterminal : Type 0 where
  accept_nt program_nt block_nt stmts_nt stmt_nt expr_nt op_nt assign_nt for_nt while_nt if_nt
        var_decl_nt func_args_nt func_decl_nt call_args_nt types_nt func_type_nt type_list_nt
        type_id_nt var_id_nt :
      Nonterminal

-- `end_symbol` is `$end`.
pub data Symbol : Type 0 where
  end_symbol : Symbol
  mark_symbol : Terminal → Symbol
  word_symbol : Text → Symbol
  nt : Nonterminal → Symbol

-- The internal numbers, as in `yytname`.
unfoldable pub nonterminal_number : Nonterminal → ℕ
nonterminal_number accept_nt = 45
nonterminal_number program_nt = 46
nonterminal_number block_nt = 47
nonterminal_number stmts_nt = 48
nonterminal_number stmt_nt = 49
nonterminal_number expr_nt = 50
nonterminal_number op_nt = 51
nonterminal_number assign_nt = 52
nonterminal_number for_nt = 53
nonterminal_number while_nt = 54
nonterminal_number if_nt = 55
nonterminal_number var_decl_nt = 56
nonterminal_number func_args_nt = 57
nonterminal_number func_decl_nt = 58
nonterminal_number call_args_nt = 59
nonterminal_number types_nt = 60
nonterminal_number func_type_nt = 61
nonterminal_number type_list_nt = 62
nonterminal_number type_id_nt = 63
nonterminal_number var_id_nt = 64

unfoldable pub number : Symbol → ℕ
unfolding terminal_number text_number nonterminal_number
number end_symbol = 0
number (mark_symbol t) = terminal_number t
number (word_symbol k) = text_number k
number (nt a) = nonterminal_number a

-- The type of a nonterminal's value.
abbrev pub Semantic : Nonterminal → Type 0
Semantic accept_nt = Stmts
Semantic program_nt = Stmts
Semantic block_nt = Block
Semantic stmts_nt = Stmts
Semantic stmt_nt = Stmt
Semantic expr_nt = Expr
Semantic op_nt = Op
Semantic assign_nt = Expr
Semantic for_nt = Stmt
Semantic while_nt = Stmt
Semantic if_nt = IfStmt
Semantic var_decl_nt = VarDecl
Semantic func_args_nt = FuncArgs
Semantic func_decl_nt = Stmt
Semantic call_args_nt = CallArgs
Semantic types_nt = Types
Semantic func_type_nt = Types
Semantic type_list_nt = TypeList
Semantic type_id_nt = Types
Semantic var_id_nt = String

abbrev pub Meaning : Symbol → Type 0
Meaning end_symbol = Unit {0}
Meaning (mark_symbol t) = Unit {0}
Meaning (word_symbol k) = String
Meaning (nt a) = Semantic a

-- A semantic value with the symbol it belongs to.
abbrev pub Value : Type 0
Value = (x : Symbol) × Meaning x

-- The values of a right-hand side.
abbrev pub Meanings : List Symbol → Type 0
Meanings [] = Unit {0}
Meanings (x ∷ xs) = Meaning x × Meanings xs
