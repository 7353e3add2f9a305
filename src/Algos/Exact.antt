-- ===== src/Algos/Exact.antt =====
-- crates/flowsketch-algos/src/exact.rs: the exact counter, the baseline of the benchmarks.
pub mod Truths
use Prim.Native.String.{String}
use flowsketch.Core.Hash.{hash_spec}
use flowsketch.Core.Sketch.{SketchCompatibility}
use flowsketch.Base.Word.{add64}
use flowsketch.Base.{ℕ, List, [], ◌∷◌, length}
use flowsketch.Core.Error.{Result, ok}
use flowsketch.Algos.Counters.{Counters, count, entry_add, absorb}
use flowsketch.Algos.Sets.{Sets, items_of, entry_items, unite}

pub record ExactCounter : Type 0 where
  pub counts : Counters
  pub distinct : Sets
  pub total_weight : ℕ
  pub updates : ℕ

-- `ExactCounter::new()`
abbrev pub new : ExactCounter
new = record { counts = []; distinct = []; total_weight = 0; updates = 0 }

unfoldable pub add : ExactCounter → List ℕ → ℕ → ExactCounter
add s key weight = record s {
  counts = entry_add key weight s.counts;
  total_weight = add64 s.total_weight weight;
  updates = add64 s.updates 1;
}

unfoldable pub insert_distinct : ExactCounter → List ℕ → List ℕ → ExactCounter
insert_distinct s key item = record s {
  distinct = entry_items key (item ∷ []) s.distinct;
  updates = add64 s.updates 1;
}

unfoldable pub get : ExactCounter → List ℕ → ℕ
get s key = count key s.counts

unfoldable pub distinct_count : ExactCounter → List ℕ → ℕ
distinct_count s key = length (items_of key s.distinct)

unfoldable pub merge_from : ExactCounter → ExactCounter → Result ExactCounter
merge_from s other = ok (record s {
  counts = absorb s.counts other.counts;
  distinct = unite s.distinct other.distinct;
  total_weight = add64 s.total_weight other.total_weight;
  updates = add64 s.updates other.updates;
})

unfoldable pub reset : ExactCounter → ExactCounter
reset s = record s { counts = []; distinct = []; total_weight = 0; updates = 0 }

abbrev pub algorithm : String
algorithm = "exact"

unfoldable pub compatibility : ExactCounter → SketchCompatibility
compatibility s = record { algorithm = algorithm; version = 1; hash = hash_spec 0; params_hash = 0 }

-- A recorded observation: a weight for a key, or an item of a key.
pub data Op : Type 0 where
  weigh : List ℕ → ℕ → Op
  see : List ℕ → List ℕ → Op

unfoldable pub apply : Op → ExactCounter → ExactCounter
apply (weigh key w) s = add s key w
apply (see key item) s = insert_distinct s key item

unfoldable pub run : List Op → ExactCounter → ExactCounter
unfolding apply
run [] s = s
run (op ∷ ops) s = run ops (apply op s)
