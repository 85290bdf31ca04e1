-- ===== src/Runtime.antt =====
-- runtime/: the C support library that compiled programs are linked with.
pub mod OverflowOk
pub mod Positn
pub mod Moves
pub mod SuperArray
pub mod HeapState
pub mod Scan
pub mod Decode
pub mod Encode
pub mod Aggregates
mod Tests
