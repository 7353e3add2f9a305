-- ===== src/Algos/CountSketch.antt =====
-- crates/flowsketch-algos/src/count_sketch.rs: the Count Sketch, signed counters in `depth` rows of `width`. An
-- `i64` is its word of 64 bits in two's complement, and wraps as in a release build.
pub mod Linear
pub mod Codec
use Prim.Native.String.{String}
use flowsketch.Base.Int.{ℤ, pos, negsuc}
use flowsketch.Base.Word.{add64, mul64}
use flowsketch.Base.{
  ℕ, zero, suc, ◌+◌, ◌-◌, ◌*◌, ◌/◌, ◌%◌, ◌^◌, List, [], ◌∷◌, Bool, true, false, ◌||◌, length,
  replicate, get_or, set, ltb, ◌==◌, if◌then◌else◌,
}
use flowsketch.Core.Error.{SketchError, invalid_param, Result, ok, err, ◌>>=◌, ◌>>◌}
use flowsketch.Core.Hash.{HashSpec, RowHashes, row_hashes, index, sign, hash64}
use flowsketch.Core.Sketch.{SketchCompatibility, ensure_matches}
use flowsketch.Core.Wire.{put_u64}

abbrev pub algorithm : String
algorithm = "count-sketch"

pub record CountSketch : Type 0 where
  pub width : ℕ
  pub depth : ℕ
  pub hash : HashSpec
  pub table : List ℕ
  pub updates : ℕ

-- The table has fewer than 2^64 cells, so that the product of the dimensions does not wrap.
unfoldable pub new : ℕ → ℕ → HashSpec → Result CountSketch
new width depth hash =
    if width == 0 || depth == 0
    then err (invalid_param "count-sketch width and depth must be positive")
    else ok (record {
      width = width;
      depth = depth;
      hash = hash;
      table = replicate (width * depth) 0;
      updates = 0;
    })

-- `-value`
unfoldable pub neg64 : ℕ → ℕ
neg64 value = (2 ^ 64 - value) % 2 ^ 64

-- `sign * value`
unfoldable pub times : ℤ → ℕ → ℕ
times (pos n) value = mul64 n value
times (negsuc n) value = neg64 (mul64 (suc n) value)

-- `row * self.width + rh.index(row, self.width)`, a cell of the table
unfoldable pub cell : ℕ → RowHashes → ℕ → ℕ
cell width rh row = row * width + index rh row width

-- `self.table[idx] += value`; the index is in range.
unfoldable pub bump : List ℕ → ℕ → ℕ → List ℕ
bump table idx value = set table idx (add64 (get_or table idx 0) value)

-- `for row in row..row + n`
unfoldable pub update_rows : ℕ → RowHashes → List ℕ → ℕ → ℕ → ℕ → List ℕ
update_rows width rh table zero row value = table
update_rows width rh table (suc n) row value =
    update_rows width rh (bump table (cell width rh row) (times (sign rh row) value)) n (row + 1)
      value

unfoldable pub update_signed : CountSketch → List ℕ → ℕ → CountSketch
update_signed s key value = record s {
  table = update_rows s.width (row_hashes s.hash key) s.table s.depth 0 value;
  updates = add64 s.updates 1;
}

unfoldable pub row_estimates : CountSketch → RowHashes → ℕ → ℕ → List ℕ
row_estimates s rh zero row = []
row_estimates s rh (suc n) row =
    times (sign rh row) (get_or s.table (cell s.width rh row) 0) ∷ row_estimates s rh n (row + 1)

-- The order of `i64` on its words.
unfoldable pub signed_less : ℕ → ℕ → Bool
signed_less a b = ltb (add64 a (2 ^ 63)) (add64 b (2 ^ 63))

unfoldable pub insert_signed : ℕ → List ℕ → List ℕ
insert_signed a [] = a ∷ []
insert_signed a (b ∷ bs) =
    let rest = insert_signed a bs in if signed_less b a then b ∷ rest else a ∷ b ∷ bs

-- `sort_unstable`
unfoldable pub sort_signed : List ℕ → List ℕ
sort_signed [] = []
sort_signed (a ∷ xs) = insert_signed a (sort_signed xs)

-- `value / 2`, which rounds toward zero.
unfoldable pub half_signed : ℕ → ℕ
half_signed value = if ltb value (2 ^ 63) then value / 2 else neg64 (neg64 value / 2)

unfoldable pub median : List ℕ → ℕ
median ests =
    if length ests % 2 == 1
    then get_or ests (length ests / 2) 0
    else half_signed (add64 (get_or ests (length ests / 2 - 1) 0) (get_or ests (length ests / 2) 0))

unfoldable pub estimate_signed : CountSketch → List ℕ → ℕ
estimate_signed s key = median (sort_signed (row_estimates s (row_hashes s.hash key) s.depth 0))

unfoldable pub params_hash : CountSketch → ℕ
params_hash s = hash64 (put_u64 s.depth (put_u64 s.width [])) 0

unfoldable pub compatibility : CountSketch → SketchCompatibility
compatibility s = record {
  algorithm = algorithm;
  version = 1;
  hash = s.hash;
  params_hash = params_hash s;
}

-- `for (a, b) in self.table.iter_mut().zip(other.table.iter()) { *a += *b; }`
unfoldable pub add_tables : List ℕ → List ℕ → List ℕ
add_tables [] theirs = []
add_tables (a ∷ mine) [] = a ∷ mine
add_tables (a ∷ mine) (b ∷ theirs) = add64 a b ∷ add_tables mine theirs

unfoldable pub merge_from : CountSketch → CountSketch → Result CountSketch
merge_from s other = do
  ensure_matches (compatibility s) (compatibility other)
  ok (record s { table = add_tables s.table other.table; updates = add64 s.updates other.updates })

unfoldable pub reset : CountSketch → CountSketch
reset s = record s { table = replicate (length s.table) 0; updates = 0 }
