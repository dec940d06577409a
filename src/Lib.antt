-- ===== src/Lib.antt =====
-- A model of ThLang's compiler, in the order in which a program passes through it.
--
-- A source file is scanned into tokens, the parser's automaton makes a parse tree of them, its actions
-- build an AST and look types up in the type table, the AST's `codegen` methods call LLVM's builder,
-- and the driver writes, compiles and links files.
--
-- Base: shared names; Base.State is the monad of the code that changes a state and may run into
-- undefined behaviour, Base.Dict is `std::unordered_map` with text keys.
-- Llvm: what the compiler uses of LLVM's IR library, as a record that everything later takes as a
-- parameter. A `World` is LLVM's state, an `Inst` a call of the builder.
-- TypeSystem (src/TypeSystem.cpp, include/thlang/TypeSystem.h): type objects live in a list, and a
-- `Type*` is an index into it. TypeSystem.Lowering is the `get_llvm_type` of the three classes. It
-- recurs on fuel, one more than the address it starts from: a pointer leads to older objects. LLVM is
-- one without assertions there: it makes a function type of a `void` parameter as well.
-- Sema (include/thlang/sema.h): symbols, scopes, and the stack of scopes. src/sema.cpp is one
-- comment, so the checks that the header declares have no code to model.
-- Ast (include/thlang/node.h): a constructor for each node class. A `StringAst` is the index of its
-- value, which `codegen` changes.
-- Codegen (src/codegen.cpp, include/thlang/codegen.h): Context is `CodeGenContext` with
-- `getvalue`, `setvalue`, `setglobal`, `pushBlock` and `popBlock`; Expr, Stmt and Func are the
-- methods of the node classes, each over the code of the node's children (`int_code` for
-- `IntAst::codegen`, `for_code` for `ForStmtAst::codegen`, and so on), and Gen is the dispatch.
-- A result of `none` is a crash, and a value of `none` the null pointer. `Llvm.takes` says which types
-- of operands an instruction takes; a call with others is a crash (`create_binary`).
-- Parser (src/parser.y, and the actions in src/parser.cpp): Tree has a data type for each
-- nonterminal, Actions a function for each group of actions (`build_expr` for those of `expr`).
-- Parser.Scanner (src/lex.yy.cpp) is the switch of `yylex`: what RE/flex's matcher finds, a list of
-- rule numbers with the texts that they match, is its input. Parser.Token has the tokens of
-- src/parser.hpp, Parser.Grammar and Parser.Rules the symbols and rules as data, Parser.Tables and
-- Parser.Packed the tables of src/parser.cpp by their own names. Parser.Automaton is the driving loop
-- of `yyparse`: `action_at` is `yybackup` and `yydefault`, `goto_at` the end of `yyreduce`, `step` one
-- turn from `yysetstate` to the next state. A case of the switch makes a parse tree, and the actions
-- run over the tree that is accepted, in the order of the reductions; a parse that is not accepted
-- ends the process or throws, or runs into the undefined behaviour of `std::atol` out of range
-- (`out_of_range`), and what its actions have done by then is left out. The
-- parse has 40 steps for each token and for the end, since each step takes at least 1 off a weight
-- that starts at 39 for each. Growth has the memory of the stacks, which is made larger when it is
-- full; an allocation that fails ends the parse there. Items is a certificate for the tables, which Checked and Verified
-- compare with them; Yield is the tokens of a tree, written down apart from the grammar.
-- Driver (src/libthlang.cpp): System is what the driver uses of the operating system, LLVM's
-- target side and LLD; Compile, Link and Build are the C++ functions by their own names, CApi the
-- `extern "C"` ones, with `nullptr` as `none` and -1 as `negsuc 0`. Steps and Steps.Files write down, apart from the
-- code, what each file of a build gives and what it is for an object file to have been written.
-- Cli (src/acli.cpp, src/main.cpp): Console is what the command line uses of streams, files,
-- rapidjson and CLI11; Files has `ThInit` and `ThInfo` as `th_init` and `th_info`, Commands the
-- questions of `init` and the two `main` functions, `cli_main` and `fixed_main`.
-- Meaning: what straight-line code on 32-bit integers computes. Words is the arithmetic; Source an
-- interpreter of the parse tree, with `none` for what it gives no meaning to (loops, conditions, calls,
-- comparisons, `%`, a variable without a value, undefined arithmetic); Semantics what LLVM's manual
-- says of the instructions that the code uses, as laws that an LLVM has to have; Represents how a
-- state of the code generator stands for the interpreter's store; Value, Expr, Memory, Stmt,
-- Program, Params, Body, Function and Root go through the code by its parts, and Compile through
-- `compile_toir`.
-- Tests: a recording LLVM, an LLVM that runs each instruction at once, a toy system, and runs of the
-- definitions over them.
--
-- Not modelled: RE/flex's matcher, and what the scanner keeps of one file when the next is read;
-- bison's error recovery, since `yyerror` ends the process; CLI11's parsing of the arguments; the
-- empty `unparse` methods; output to the standard streams for debugging; the attributes of the
-- builder's calls that LLVM only prints, where the code gives a constant; LLVM, LLD, libunwind,
-- musl, CLI11 and rapidjson themselves.
pub mod Base
pub mod Llvm
pub mod TypeSystem
pub mod Sema
pub mod Ast
pub mod Codegen
pub mod Parser
pub mod Driver
pub mod Cli
pub mod Meaning
pub mod Tests
