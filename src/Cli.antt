-- ===== src/Cli.antt =====
-- src/acli.cpp: the command line, which makes a package, shows one, or builds files. src/main.cpp is
-- one call of the builder.
pub mod Console
pub mod Package
pub mod Files
pub mod Commands
pub mod Laws
