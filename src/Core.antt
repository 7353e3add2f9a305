-- ===== src/Core.antt =====
-- crates/flowsketch-core: hashing, errors, the sketch contract and the snapshot format.
pub mod Error
pub mod Hash
pub mod Wire
pub mod Sketch
pub mod Snapshot
pub mod Event
pub mod Field
mod Tests
