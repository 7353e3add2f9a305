-- ===== src/Runtime.antt =====
-- crates/flowsketch-runtime/src/lib.rs: running queries, their windows, and the engine over them.
pub mod Run
pub mod States
pub mod Query
pub mod Engine
pub mod Distinct
pub mod Tests
