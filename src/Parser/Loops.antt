-- ===== src/Parser/Loops.antt =====
-- Trees without loops, and the tokens that make a loop.
use th_lang.Base.{
  ℕ, zero, suc, String, ◌≡◌, refl, sym, ap, subst, ◌∙◌, Bool, true, false, Option, none, some, List,
  [], ◌∷◌, ◌++◌, get_elem?, arith, ◌&&◌, if◌then◌else◌,
}
use th_lang.Parser.Tree.{
  Stmts, one_stmt, more_stmts, semicolon, semicolon_stmt, Stmt, conditional, while_loop, for_loop,
  declaration, definition, Block, braces, empty_braces, IfStmt, if_then, if_else, if_else_if,
}
use th_lang.Parser.Actions.{CLibrary}
use th_lang.Parser.Token.{
  token_while, token_for, token_if, token_else, lparen, rparen, id_text, Token, mark, word,
}
use th_lang.Parser.Yield.{
  types_tokens, expr_tokens, func_args_tokens, stmts_tokens, stmt_tokens, block_tokens, if_tokens,
}
use th_lang.Parser.Scanner.{
  Match, ScanAction, give, save, ignore, scan_actions, do_action, scan_match, lex,
}
use th_lang.Parser.Scanner.Laws.{kept, lex-kept}
use th_lang.Parser.Automaton.Machine.{parse, accepted}
use th_lang.Parser.Automaton.Sound.{parse-tokens}

-- Whether a tree has no loop in it.
unfoldable mutual
  pub stmts_are_straight : Stmts → Bool
  stmts_are_straight (one_stmt s) = stmt_is_straight s
  stmts_are_straight (more_stmts ss s) = stmts_are_straight ss && stmt_is_straight s
  stmts_are_straight (semicolon ss) = stmts_are_straight ss
  stmts_are_straight (semicolon_stmt ss s) = stmts_are_straight ss && stmt_is_straight s

  stmt_is_straight : Stmt → Bool
  stmt_is_straight (conditional i) = if_is_straight i
  stmt_is_straight (while_loop c b) = false
  stmt_is_straight (for_loop a b c d) = false
  stmt_is_straight (definition t s vs b) = block_is_straight b
  stmt_is_straight _ = true

  block_is_straight : Block → Bool
  block_is_straight (braces ss) = stmts_are_straight ss
  block_is_straight empty_braces = true

  if_is_straight : IfStmt → Bool
  if_is_straight (if_then c t) = block_is_straight t
  if_is_straight (if_else c t e) = block_is_straight t && block_is_straight e
  if_is_straight (if_else_if c t i) = block_is_straight t && if_is_straight i

-- No loop stands anywhere in the tree.
abbrev pub IsStraight : Stmts → Type 0
IsStraight ss = stmts_are_straight ss ≡ true

unfoldable begins_loop : Token → Bool
begins_loop (mark token_while) = true
begins_loop (mark token_for) = true
begins_loop t = false

unfoldable has_loop_token : List Token → Bool
has_loop_token [] = false
has_loop_token (t ∷ ts) = if begins_loop t then true else has_loop_token ts

both : {a b : Bool} → a ≡ true → b ≡ true → (a && b) ≡ true
both h k = rw (h, k) refl

append-free :
    (xs ys : List Token)
    → has_loop_token (xs ++ ys) ≡ false
    → (has_loop_token xs ≡ false) × (has_loop_token ys ≡ false)
unfolding has_loop_token
append-free [] ys h = (refl, h)
append-free (x ∷ xs) ys h =
    let rest = append-free xs ys (ground (arith, h)) in (ground (arith, h, rest.0), rest.1)

-- A tree whose tokens begin no loop has none.
mutual
  unfolding stmts_tokens stmts_are_straight begins_loop has_loop_token

  stmts-free :
      (ss : Stmts) → has_loop_token (stmts_tokens ss) ≡ false → stmts_are_straight ss ≡ true
  stmts-free (one_stmt s) h = stmt-free s h
  stmts-free (more_stmts ss s) h =
      let (first, second) = append-free (stmts_tokens ss) (stmt_tokens s) h in
      both (stmts-free ss first) (stmt-free s second)
  stmts-free (semicolon ss) h = stmts-free ss (append-free (stmts_tokens ss) _ h).0
  stmts-free (semicolon_stmt ss s) h =
      let (first, second) = append-free (stmts_tokens ss) _ h in
      both (stmts-free ss first) (stmt-free s second)

  stmt-free : (s : Stmt) → has_loop_token (stmt_tokens s) ≡ false → stmt_is_straight s ≡ true
  stmt-free (conditional i) h = if-free i h
  stmt-free (while_loop c b) h = sym h
  stmt-free (for_loop a b c d) h = sym h
  stmt-free (definition t s vs b) h =
      let header : List Token = word id_text s ∷ mark lparen ∷ func_args_tokens vs in
      block-free b (append-free (types_tokens t ++ header) (mark rparen ∷ block_tokens b) h).1
  stmt-free (declaration v) h = refl
  stmt-free _ h = refl

  block-free : (b : Block) → has_loop_token (block_tokens b) ≡ false → block_is_straight b ≡ true
  block-free (braces ss) h = stmts-free ss (append-free (stmts_tokens ss) _ h).0
  block-free empty_braces h = refl

  if-free : (i : IfStmt) → has_loop_token (if_tokens i) ≡ false → if_is_straight i ≡ true
  if-free (if_then c t) h = block-free t (append-free (expr_tokens c) _ h).1
  if-free (if_else c t e) h =
      let head : List Token = mark token_if ∷ mark lparen ∷ expr_tokens c in
      let (first, second) =
        append-free (head ++ mark rparen ∷ block_tokens t) (mark token_else ∷ block_tokens e) h in
      both (block-free t (append-free head (mark rparen ∷ block_tokens t) first).1)
        (block-free e second)
  if-free (if_else_if c t i) h =
      let head : List Token = mark token_if ∷ mark lparen ∷ expr_tokens c in
      let (first, second) =
        append-free (head ++ mark rparen ∷ block_tokens t) (mark token_else ∷ if_tokens i) h in
      both (block-free t (append-free head (mark rparen ∷ block_tokens t) first).1)
        (if-free i second)

gives_no_loop : ScanAction → Bool
unfolding begins_loop
gives_no_loop (give t) = if begins_loop (mark t) then false else true
gives_no_loop a = true

give_no_loops : List ScanAction → Bool
give_no_loops [] = true
give_no_loops (a ∷ as_) = if gives_no_loop a then give_no_loops as_ else false

do_action-free :
    (a : ScanAction) (s : String) (t : Token)
    → gives_no_loop a ≡ true
    → do_action (some a) s ≡ some t
    → begins_loop t ≡ false
unfolding gives_no_loop do_action begins_loop
do_action-free ignore s t quiet h = absurd (ground (arith, h))
do_action-free (give k) s t quiet h =
    let e : mark k ≡ t = ground (arith, h) in
    subst (λ t. begins_loop t ≡ false) e (ground (arith, quiet))
do_action-free (save k) s t quiet h =
    let e : word k s ≡ t = ground (arith, h) in subst (λ t. begins_loop t ≡ false) e refl

do_actions-free :
    (as_ : List ScanAction) (n : ℕ) (s : String) (t : Token)
    → give_no_loops as_ ≡ true
    → do_action (get_elem? as_ n) s ≡ some t
    → begins_loop t ≡ false
unfolding give_no_loops do_action
do_actions-free [] n s t quiet h = absurd (ground (arith, h))
do_actions-free (a ∷ as_) zero s t quiet h = do_action-free a s t (ground (arith, quiet)) h
do_actions-free (a ∷ as_) (suc n) s t quiet h = do_actions-free as_ n s t (ground (arith, quiet)) h

-- No rule of the scanner makes a loop's keyword.
scan_match-free : (m : Match) (t : Token) → scan_match m ≡ some t → begins_loop t ≡ false
unfolding scan_match give_no_loops gives_no_loop begins_loop
scan_match-free m t h = do_actions-free scan_actions m.rule m.text t refl h

kept-free : (ms : List Match) → has_loop_token (kept ms) ≡ false
unfolding kept has_loop_token
kept-free [] = refl
kept-free (m ∷ ms) = go (scan_match m) refl (kept-free ms)
  where
    go :
        (o : Option Token)
        → scan_match m ≡ o
        → has_loop_token (kept ms) ≡ false
        → has_loop_token (elim o [ some t ↦ t ∷ kept ms | none ↦ kept ms ]) ≡ false
    go none e ih = ih
    go (some t) e ih = rw (scan_match-free m t e) ih

-- What is scanned from a text and accepted has no loop in it.
pub parse-lex-IsStraight :
    (lib : CLibrary) (ms : List Match) (ss : Stmts)
    → parse lib (lex ms) ≡ accepted ss
    → IsStraight ss
parse-lex-IsStraight lib ms ss h =
    stmts-free ss (ap has_loop_token (parse-tokens lib (lex ms) ss h ∙ lex-kept ms) ∙ kept-free ms)
