-- ===== src/Runtime/Tests.antt =====
-- Tests of the runtime's modules, by part.
mod Text
mod Coding
mod Aggregates
mod Memory
mod Leaves
