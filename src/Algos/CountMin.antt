-- ===== src/Algos/CountMin.antt =====
-- crates/flowsketch-algos/src/count_min.rs: the Count-Min sketch, a table of `depth` rows of `width`
-- counters, row-major. Rows are visited in order by a recursion on the rows that are left.
pub mod Rows
pub mod Table
pub mod Estimates
pub mod Merge
pub mod Modes
pub mod Codec
use Prim.Native.String.{String}
use flowsketch.Base.Word.{u64_max, add64}
use flowsketch.Base.{
  ℕ, zero, suc, ◌+◌, ◌*◌, min, List, [], ◌∷◌, Bool, true, false, ◌||◌, replicate, get_or, set, ltb,
  ◌==◌, if◌then◌else◌,
}
use flowsketch.Core.Error.{SketchError, invalid_param, Result, ok, err, ◌>>=◌, ◌>>◌}
use flowsketch.Core.Hash.{HashSpec, RowHashes, row_hashes, index, hash64}
use flowsketch.Core.Sketch.{SketchCompatibility, ensure_matches}
use flowsketch.Algos.Truth.{Stream}
use flowsketch.Core.Wire.{put_u8, put_u64}

abbrev pub algorithm : String
algorithm = "count-min"

pub record CountMinSketch : Type 0 where
  pub width : ℕ
  pub depth : ℕ
  pub conservative : Bool
  pub hash : HashSpec
  pub table : List ℕ
  pub total_weight : ℕ
  pub updates : ℕ

-- The table has fewer than 2^64 cells, so that the product of the dimensions does not wrap.
unfoldable pub new : ℕ → ℕ → Bool → HashSpec → Result CountMinSketch
new width depth conservative hash =
    if width == 0 || depth == 0
    then err (invalid_param "count-min width and depth must be positive")
    else ok (record {
      width = width;
      depth = depth;
      conservative = conservative;
      hash = hash;
      table = replicate (width * depth) 0;
      total_weight = 0;
      updates = 0;
    })

-- `row * self.width + rh.index(row, self.width)`
unfoldable pub cell : ℕ → RowHashes → ℕ → ℕ
cell width rh row = row * width + index rh row width

-- `for row in row..row + n { min = min.min(self.table[idx]) }`. The indices are in range, so
-- that the default is never read.
unfoldable pub min_rows : List ℕ → (ℕ → ℕ) → ℕ → ℕ → ℕ → ℕ
min_rows table idx zero row acc = acc
min_rows table idx (suc n) row acc =
    min_rows table idx n (row + 1) (min acc (get_or table (idx row) 0))

-- `for row in row..row + n { self.table[idx] = f(self.table[idx]) }`
unfoldable pub for_rows : (ℕ → ℕ) → List ℕ → (ℕ → ℕ) → ℕ → ℕ → List ℕ
for_rows f table idx zero row = table
for_rows f table idx (suc n) row =
    for_rows f (set table (idx row) (f (get_or table (idx row) 0))) idx n (row + 1)

unfoldable pub estimate_u64 : CountMinSketch → List ℕ → ℕ
estimate_u64 s key = min_rows s.table (cell s.width (row_hashes s.hash key)) s.depth 0 u64_max

-- `if self.table[idx] < target { self.table[idx] = target; }`
unfoldable pub raise_to : ℕ → ℕ → ℕ
raise_to target c = if ltb c target then target else c

-- The table after an update of the rows at `idx`.
unfoldable pub update_table : Bool → List ℕ → (ℕ → ℕ) → ℕ → ℕ → List ℕ
unfolding min_rows for_rows raise_to
update_table true table idx depth value =
    for_rows (raise_to (add64 (min_rows table idx depth 0 u64_max) value)) table idx depth 0
update_table false table idx depth value = for_rows (λ c. add64 c value) table idx depth 0

unfoldable pub update : CountMinSketch → List ℕ → ℕ → CountMinSketch
update s key value = record s {
  table = update_table s.conservative s.table (cell s.width (row_hashes s.hash key)) s.depth value;
  total_weight = add64 s.total_weight value;
  updates = add64 s.updates 1;
}

to_u8 : Bool → ℕ
to_u8 true = 1
to_u8 false = 0

unfoldable pub params_hash : CountMinSketch → ℕ
unfolding to_u8
params_hash s = hash64 (put_u8 (to_u8 s.conservative) (put_u64 s.depth (put_u64 s.width []))) 0

unfoldable pub compatibility : CountMinSketch → SketchCompatibility
compatibility s = record {
  algorithm = algorithm;
  version = 1;
  hash = s.hash;
  params_hash = params_hash s;
}

-- `for (a, b) in self.table.iter_mut().zip(other.table.iter()) { *a += *b; }`
unfoldable pub add_tables : List ℕ → List ℕ → List ℕ
add_tables [] ys = []
add_tables (x ∷ xs) [] = x ∷ xs
add_tables (x ∷ xs) (y ∷ ys) = add64 x y ∷ add_tables xs ys

unfoldable pub merge_from : CountMinSketch → CountMinSketch → Result CountMinSketch
merge_from s other = do
  ensure_matches (compatibility s) (compatibility other)
  ok (record s {
    table = add_tables s.table other.table;
    total_weight = add64 s.total_weight other.total_weight;
    updates = add64 s.updates other.updates;
  })

zeros : List ℕ → List ℕ
zeros [] = []
zeros (x ∷ xs) = 0 ∷ zeros xs

-- `self.table.fill(0)`
unfoldable pub reset : CountMinSketch → CountMinSketch
unfolding zeros
reset s = record s { table = zeros s.table; total_weight = 0; updates = 0 }

unfoldable pub run : Stream → CountMinSketch → CountMinSketch
run [] s = s
run ((key, value) ∷ rest) s = run rest (update s key value)
