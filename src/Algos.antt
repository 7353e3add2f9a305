-- ===== src/Algos.antt =====
-- crates/flowsketch-algos: the sketches.
pub mod Truth
pub mod Counters
pub mod CountMin
pub mod MisraGries
pub mod Sets
pub mod Exact
pub mod HyperLogLog
pub mod CountSketch
pub mod SpaceSaving
mod Tests
