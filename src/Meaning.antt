-- ===== src/Meaning.antt =====
-- What straight-line code computes: an interpreter of the source language, LLVM's instructions on
-- 32-bit words, and the code that the compiler makes.
pub mod Words
pub mod Source
pub mod Semantics
pub mod Represents
pub mod Value
pub mod Expr
pub mod Memory
pub mod Stmt
pub mod Program
pub mod Params
pub mod Body
pub mod Function
pub mod Root
pub mod Compile
