-- ===== src/Dsl.antt =====
-- src/dsl: the workflow language, from its text to a job definition.
pub mod Ast
pub mod Lexer
pub mod Parser
pub mod Optimizer
pub mod Compiler
mod Samples
