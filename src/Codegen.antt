-- ===== src/Codegen.antt =====
-- include/thlang/codegen.h and src/codegen.cpp: from the syntax tree to calls of LLVM's builder.
-- Each `codegen` method is a function over the code of its children; `Gen` ties them together.
pub mod Context
pub mod Expr
pub mod Stmt
pub mod Func
pub mod Gen
