-- ===== src/Core/Snapshot/AlgorithmId.antt =====
-- crates/flowsketch-core/src/snapshot.rs, `algorithm_id`: the stable identifiers of the header.
use flowsketch.Base.{ℕ}

abbrev pub count_min : ℕ
count_min = 1

abbrev pub count_sketch : ℕ
count_sketch = 2

abbrev pub hyper_log_log : ℕ
hyper_log_log = 3

abbrev pub space_saving : ℕ
space_saving = 4

abbrev pub misra_gries : ℕ
misra_gries = 5

abbrev pub hll_map : ℕ
hll_map = 6

abbrev pub exact : ℕ
exact = 7

abbrev pub kll : ℕ
kll = 8
