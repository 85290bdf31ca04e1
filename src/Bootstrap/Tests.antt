-- ===== src/Bootstrap/Tests.antt =====
-- Runs of bootstrap/ at concrete inputs, and instances of its theorems.
mod Lexing
mod Semantics
mod Parsing
mod Typing
