-- ===== src/Tests.antt =====
-- Runs of the definitions at concrete inputs, and the theorems applied at such inputs.
mod Machine
mod Codegen
mod Tables
mod Parse
mod Scan
mod Driver
mod Cli
mod Evaluator
mod Meaning
mod Compile
