-- ===== src/Driver.antt =====
-- src/libthlang.cpp, and the emission of code in include/thlang/codegen.h: from source files to an
-- executable. The operating system, LLVM's target side and LLD are an interface.
pub mod System
pub mod Run
pub mod Compile
pub mod Link
pub mod Build
pub mod CApi
pub mod Parse
pub mod Steps
pub mod Laws
