-- ===== src/Driver/Parse.antt =====
-- What `yyparse` comes back with, from the file to the tree.
use th_lang.Base.{ℕ, ◌≡◌, refl, ◌∙◌, List, arith}
use th_lang.Ast.{Node}
use th_lang.Parser.Tree.{Stmts}
use th_lang.Parser.Scanner.{lex}
use th_lang.Parser.Scanner.Laws.{kept, lex-kept}
use th_lang.Parser.Yield.{stmts_tokens}
use th_lang.Parser.Loops.{IsStraight, parse-lex-IsStraight}
use th_lang.Parser.Automaton.Machine.{
  Outcome, accepted, syntax_error, exhausted, refused, out_of_range, stuck, out_of_fuel, parse,
}
use th_lang.Parser.Automaton.Sound.{parse-tokens}
use th_lang.Driver.Run.{returns}
use th_lang.Driver.Compile.{Platform, DriverState, act_on, finish_parse, yyparse}

module _ (P : Platform) where
  finish_parse-returns :
      (o : Outcome) (s s' : DriverState P) (r : Node × List (List ℕ))
      → finish_parse P o s ≡ returns r s'
      → (ss : Stmts) × (o ≡ accepted ss) × (act_on P ss s ≡ returns r s')
  unfolding finish_parse
  finish_parse-returns (accepted ss) s s' r h = (ss, refl, h)
  finish_parse-returns syntax_error s s' r h = absurd (ground (arith, h))
  finish_parse-returns exhausted s s' r h = absurd (ground (arith, h))
  finish_parse-returns refused s s' r h = absurd (ground (arith, h))
  finish_parse-returns out_of_range s s' r h = absurd (ground (arith, h))
  finish_parse-returns stuck s s' r h = absurd (ground (arith, h))
  finish_parse-returns out_of_fuel s s' r h = absurd (ground (arith, h))

  -- Where the parse returns, its nodes are those of a tree whose tokens are those that the rules of
  -- the scanner keep of the file, in order, and which has no loop.
  pub yyparse-returns :
      (file : P.system.File) (s s' : DriverState P) (r : Node × List (List ℕ))
      → yyparse P file s ≡ returns r s'
      → (ss : Stmts) × (stmts_tokens ss ≡ kept (P.system.scan file s.world).0)
        × IsStraight ss
        × (act_on P ss (record s { world = (P.system.scan file s.world).1 }) ≡ returns r s')
  unfolding yyparse
  yyparse-returns file s s' r h =
      let (ms, w) = P.system.scan file s.world in
      let (ss, parsed, built) =
        finish_parse-returns (parse P.library (lex ms)) (record s { world = w }) s' r h in
      (
        ss,
        parse-tokens P.library (lex ms) ss parsed ∙ lex-kept ms,
        parse-lex-IsStraight P.library ms ss parsed,
        built,
      )
