-- ===== src/Expressions.antt =====
-- src/expressions: the language of the conditions of a job's constraints.
pub mod Ast
pub mod Values
pub mod Tokenizer
pub mod Parser
pub mod Evaluator
mod Samples
