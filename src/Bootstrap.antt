-- ===== src/Bootstrap.antt =====
-- bootstrap/: pasboot, the translator from the bootstrap subset of the dialect to ISO C.
pub mod Chars
pub mod Token
pub mod Lexer
pub mod Scopes
pub mod Ast
pub mod Types
pub mod Words
pub mod Tree
pub mod Parser
pub mod Constants
pub mod Resolve
mod Tests
