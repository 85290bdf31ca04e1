-- ===== src/Bootstrap/Lexer.antt =====
-- bootstrap/lex.c.
pub mod Number
pub mod Literal
pub mod Comment
pub mod Step
pub mod File
pub mod Lines
