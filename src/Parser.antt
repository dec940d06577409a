-- ===== src/Parser.antt =====
-- From text to syntax tree: the scanner of src/lex.yy.cpp, the automaton of src/parser.cpp with its
-- tables, and the semantic actions of the grammar. The actions run over the parse tree in the
-- automaton's order, from left to right and children first.
pub mod Tree
pub mod Token
pub mod Yield
pub mod Grammar
pub mod Rules
pub mod Tables
pub mod Packed
pub mod Automaton
pub mod Scanner
pub mod Actions
pub mod Operators
pub mod Types
pub mod Lowered
pub mod Loops
pub mod Shape
