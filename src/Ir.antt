-- ===== src/Ir.antt =====
-- crates/flowsketch-ir: queries and their physical plans.
pub mod Logical
pub mod Physical
