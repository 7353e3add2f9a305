-- ===== src/Ir/Physical.antt =====
-- crates/flowsketch-ir/src/physical.rs: the sketch configuration that the planner chose.
use flowsketch.Base.{ℕ, Bool}

mutual
  pub data PhysicalSketch : Type 0 where
    count_min : ℕ → ℕ → Bool → PhysicalSketch
    count_sketch : ℕ → ℕ → PhysicalSketch
    space_saving : ℕ → PhysicalSketch
    misra_gries : ℕ → PhysicalSketch
    hyper_log_log : ℕ → PhysicalSketch
    hll_map : ℕ → ℕ → PhysicalSketch
    kll : ℕ → PhysicalSketch
    composite : Stages → PhysicalSketch

  pub data Stages : Type 0 where
    no_stage : Stages
    stage : PhysicalSketch → Stages → Stages
