-- ===== src/Meaning/Root.antt =====
-- The root of a module with one definition.
use th_lang.Base.{◌≡◌, refl, Option, some, ◌>>=◌}
use th_lang.Llvm.{Llvm}
use th_lang.Ast.{Node, block, cons, nil}
use th_lang.Codegen.Context.{Context}
use th_lang.Codegen.Gen.{codegen}
use th_lang.Parser.Tree.{Stmt, one_stmt}
use th_lang.Parser.Actions.{CLibrary, ParseState, build_stmts, build_stmt, build_program}

build_stmts-one :
    (lib : CLibrary) (d : Stmt) (st : ParseState) (n : Node)
    → build_stmt lib d st ≡ some (n, st)
    → build_stmts lib (one_stmt d) st ≡ some (cons n nil, st)
unfolding build_stmts
build_stmts-one lib d st n built = rw (built, ◌>>=◌) refl

pub build_program-one :
    (lib : CLibrary) (d : Stmt) (st : ParseState) (n : Node)
    → build_stmt lib d st ≡ some (n, st)
    → build_program lib (one_stmt d) st ≡ some (block (cons n nil), st)
unfolding build_program
build_program-one lib d st n built = rw (build_stmts-one lib d st n built, ◌>>=◌) refl

pub codegen-one :
    (L : Llvm) (n : Node) (v : Option L.Value) (c c' : Context L)
    → codegen L n c ≡ some (v, c')
    → codegen L (block (cons n nil)) c ≡ some (v, c')
unfolding codegen
codegen-one L n v c c' e = rw (e, ◌>>=◌) refl
