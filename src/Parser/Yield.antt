-- ===== src/Parser/Yield.antt =====
-- The tokens that a parse tree stands for, in the order of the source text.
use th_lang.Base.{List, [], ◌∷◌, ◌++◌}
use th_lang.Parser.Tree.{
  Op, equal, ceq, nel, nlt, nle, ngt, nge, xor, shl, shr, and, or, Arith, mod_, mul, div, plus,
  minus, Sign, minus_sign, plus_sign, not_sign, Types, token_int, type_id, func_none, func_list,
  TypeList, one_type, more_types, Expr, num, text, real, assigned, variable, parens, by_op,
  by_arith, signed, called, CallArgs, no_args, one_arg, more_args, VarDecl, declared, initialised,
  FuncArgs, no_params, one_param, more_params, Block, braces, empty_braces, Stmts, one_stmt,
  more_stmts, semicolon, semicolon_stmt, Stmt, conditional, while_loop, for_loop, declaration,
  definition, external, return_nothing, return_value, evaluation, IfStmt, if_then, if_else,
  if_else_if,
}
use th_lang.Parser.Token.{
  Terminal, token_int_type, token_plus, token_minus, token_mul, token_div, lparen, rparen, lbrace,
  rbrace, token_return, token_if, token_else, token_while, token_for, token_extern, token_equal,
  token_ceq, token_nel, token_nlt, token_nle, token_ngt, token_nge, token_xor, token_mod, token_shl,
  token_shr, token_and, token_or, token_not, token_comma, token_semicolon, id_text, num_text,
  string_text, float_text, Token, mark, word,
}
use th_lang.Parser.Grammar.{
  Nonterminal, accept_nt, program_nt, block_nt, stmts_nt, stmt_nt, expr_nt, op_nt, assign_nt,
  for_nt, while_nt, if_nt, var_decl_nt, func_args_nt, func_decl_nt, call_args_nt, types_nt,
  func_type_nt, type_list_nt, type_id_nt, var_id_nt, Symbol, end_symbol, mark_symbol, word_symbol,
  nt, Semantic, Meaning,
}

unfoldable pub op_token : Op → Terminal
op_token equal = token_equal
op_token ceq = token_ceq
op_token nel = token_nel
op_token nlt = token_nlt
op_token nle = token_nle
op_token ngt = token_ngt
op_token nge = token_nge
op_token xor = token_xor
op_token shl = token_shl
op_token shr = token_shr
op_token and = token_and
op_token or = token_or

unfoldable pub arith_token : Arith → Terminal
arith_token mod_ = token_mod
arith_token mul = token_mul
arith_token div = token_div
arith_token plus = token_plus
arith_token minus = token_minus

unfoldable pub sign_token : Sign → Terminal
sign_token minus_sign = token_minus
sign_token plus_sign = token_plus
sign_token not_sign = token_not

unfoldable mutual
  pub types_tokens : Types → List Token
  types_tokens token_int = mark token_int_type ∷ []
  types_tokens (type_id s) = word id_text s ∷ []
  types_tokens (func_none t) =
      mark lparen ∷ types_tokens t ++ mark rparen ∷ mark lparen ∷ mark rparen ∷ []
  types_tokens (func_list t ts) =
      mark lparen ∷ types_tokens t
      ++ mark rparen ∷ mark lparen ∷ type_list_tokens ts
      ++ mark rparen ∷ []

  pub type_list_tokens : TypeList → List Token
  type_list_tokens (one_type t) = types_tokens t
  type_list_tokens (more_types ts t) = type_list_tokens ts ++ mark token_comma ∷ types_tokens t

unfoldable mutual
  unfolding op_token arith_token sign_token

  pub expr_tokens : Expr → List Token
  expr_tokens (num s) = word num_text s ∷ []
  expr_tokens (text s) = word string_text s ∷ []
  expr_tokens (real s) = word float_text s ∷ []
  expr_tokens (assigned s e) = word id_text s ∷ mark token_equal ∷ expr_tokens e
  expr_tokens (variable s) = word id_text s ∷ []
  expr_tokens (parens e) = mark lparen ∷ expr_tokens e ++ mark rparen ∷ []
  expr_tokens (by_op l o r) = expr_tokens l ++ mark (op_token o) ∷ expr_tokens r
  expr_tokens (by_arith l a r) = expr_tokens l ++ mark (arith_token a) ∷ expr_tokens r
  expr_tokens (signed s e) = mark (sign_token s) ∷ expr_tokens e
  expr_tokens (called s args) =
      word id_text s ∷ mark lparen ∷ call_args_tokens args ++ mark rparen ∷ []

  pub call_args_tokens : CallArgs → List Token
  call_args_tokens no_args = []
  call_args_tokens (one_arg e) = expr_tokens e
  call_args_tokens (more_args args e) = call_args_tokens args ++ mark token_comma ∷ expr_tokens e

unfoldable pub var_decl_tokens : VarDecl → List Token
unfolding types_tokens expr_tokens
var_decl_tokens (declared t s) = types_tokens t ++ word id_text s ∷ []
var_decl_tokens (initialised t s e) =
    types_tokens t ++ word id_text s ∷ mark token_equal ∷ expr_tokens e

unfoldable pub func_args_tokens : FuncArgs → List Token
unfolding var_decl_tokens
func_args_tokens no_params = []
func_args_tokens (one_param v) = var_decl_tokens v
func_args_tokens (more_params vs v) = func_args_tokens vs ++ mark token_comma ∷ var_decl_tokens v

unfoldable mutual
  unfolding types_tokens expr_tokens var_decl_tokens func_args_tokens

  pub block_tokens : Block → List Token
  block_tokens (braces ss) = mark lbrace ∷ stmts_tokens ss ++ mark rbrace ∷ []
  block_tokens empty_braces = mark lbrace ∷ mark rbrace ∷ []

  pub stmts_tokens : Stmts → List Token
  stmts_tokens (one_stmt s) = stmt_tokens s
  stmts_tokens (more_stmts ss s) = stmts_tokens ss ++ stmt_tokens s
  stmts_tokens (semicolon ss) = stmts_tokens ss ++ mark token_semicolon ∷ []
  stmts_tokens (semicolon_stmt ss s) = stmts_tokens ss ++ mark token_semicolon ∷ stmt_tokens s

  pub stmt_tokens : Stmt → List Token
  stmt_tokens (conditional i) = if_tokens i
  stmt_tokens (while_loop c b) =
      mark token_while ∷ mark lparen ∷ expr_tokens c ++ mark rparen ∷ block_tokens b
  stmt_tokens (for_loop a b c d) =
      mark token_for ∷ mark lparen ∷ expr_tokens a
      ++ mark token_semicolon ∷ expr_tokens b
      ++ mark token_semicolon ∷ expr_tokens c
      ++ mark rparen ∷ block_tokens d
  stmt_tokens (declaration v) = var_decl_tokens v
  stmt_tokens (definition t s vs b) =
      types_tokens t
      ++ word id_text s ∷ mark lparen ∷ func_args_tokens vs
      ++ mark rparen ∷ block_tokens b
  stmt_tokens (external t s vs) =
      mark token_extern ∷ types_tokens t
      ++ word id_text s ∷ mark lparen ∷ func_args_tokens vs
      ++ mark rparen ∷ []
  stmt_tokens return_nothing = mark token_return ∷ []
  stmt_tokens (return_value e) = mark token_return ∷ expr_tokens e
  stmt_tokens (evaluation e) = expr_tokens e

  pub if_tokens : IfStmt → List Token
  if_tokens (if_then c t) =
      mark token_if ∷ mark lparen ∷ expr_tokens c ++ mark rparen ∷ block_tokens t
  if_tokens (if_else c t e) =
      mark token_if ∷ mark lparen ∷ expr_tokens c
      ++ mark rparen ∷ block_tokens t
      ++ mark token_else ∷ block_tokens e
  if_tokens (if_else_if c t i) =
      mark token_if ∷ mark lparen ∷ expr_tokens c
      ++ mark rparen ∷ block_tokens t
      ++ mark token_else ∷ if_tokens i

-- Of a semantic value.
unfoldable pub semantic_tokens : (a : Nonterminal) → Semantic a → List Token
unfolding op_token types_tokens expr_tokens var_decl_tokens func_args_tokens block_tokens
semantic_tokens accept_nt v = stmts_tokens v
semantic_tokens program_nt v = stmts_tokens v
semantic_tokens block_nt v = block_tokens v
semantic_tokens stmts_nt v = stmts_tokens v
semantic_tokens stmt_nt v = stmt_tokens v
semantic_tokens expr_nt v = expr_tokens v
semantic_tokens op_nt v = mark (op_token v) ∷ []
semantic_tokens assign_nt v = expr_tokens v
semantic_tokens for_nt v = stmt_tokens v
semantic_tokens while_nt v = stmt_tokens v
semantic_tokens if_nt v = if_tokens v
semantic_tokens var_decl_nt v = var_decl_tokens v
semantic_tokens func_args_nt v = func_args_tokens v
semantic_tokens func_decl_nt v = stmt_tokens v
semantic_tokens call_args_nt v = call_args_tokens v
semantic_tokens types_nt v = types_tokens v
semantic_tokens func_type_nt v = types_tokens v
semantic_tokens type_list_nt v = type_list_tokens v
semantic_tokens type_id_nt v = types_tokens v
semantic_tokens var_id_nt s = word id_text s ∷ []

unfoldable pub tokens : (x : Symbol) → Meaning x → List Token
unfolding semantic_tokens
tokens end_symbol u = []
tokens (mark_symbol t) u = mark t ∷ []
tokens (word_symbol k) s = word k s ∷ []
tokens (nt a) v = semantic_tokens a v
