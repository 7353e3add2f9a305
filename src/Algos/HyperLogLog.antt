-- ===== src/Algos/HyperLogLog.antt =====
-- crates/flowsketch-algos/src/hll.rs: HyperLogLog. Small sketches are the sorted hashes themselves, larger ones
-- an array of registers. The estimator is floating point and left out.
pub mod Registers
pub mod Union
pub mod Sorted
pub mod Codec
use Prim.Native.String.{String}
use flowsketch.Base.Word.{add64}
use flowsketch.Base.{
  ℕ, zero, suc, ◌+◌, ◌-◌, ◌*◌, ◌/◌, ◌%◌, ◌^◌, min, max, List, [], ◌∷◌, Bool, true, false, ◌||◌,
  length, replicate, get_or, set, ltb, ◌==◌, if◌then◌else◌,
}
use flowsketch.Core.Error.{SketchError, invalid_param, Result, ok, err, ◌>>=◌, ◌>>◌}
use flowsketch.Core.Hash.{HashSpec, hash64}
use flowsketch.Core.Sketch.{SketchCompatibility, ensure_matches}

abbrev pub algorithm : String
algorithm = "hll"

abbrev pub min_precision : ℕ
min_precision = 4

abbrev pub max_precision : ℕ
max_precision = 18

pub data RegisterStorage : Type 0 where
  empty : RegisterStorage
  singleton : ℕ → RegisterStorage
  sparse : List ℕ → RegisterStorage
  dense : List ℕ → RegisterStorage

pub record HyperLogLog : Type 0 where
  pub precision : ℕ
  pub hash : HashSpec
  pub storage : RegisterStorage
  pub updates : ℕ

unfoldable pub new : ℕ → HashSpec → Result HyperLogLog
new precision hash =
    if ltb precision min_precision || ltb max_precision precision
    then err (invalid_param "hll precision is out of its range")
    else ok (record { precision = precision; hash = hash; storage = empty; updates = 0 })

-- `SPARSE_MEMORY_FRACTION` hashes of eight bytes.
unfoldable pub sparse_limit : ℕ → ℕ
sparse_limit precision = max (2 ^ precision / (4 * 8)) 1

-- `u64::leading_zeros`, on a word of `width` bits.
unfoldable pub leading_zeros : ℕ → ℕ → ℕ
leading_zeros zero x = 0
leading_zeros (suc width) x =
    let rest = leading_zeros width x in if ltb x (2 ^ width) then rest + 1 else 0

unfoldable pub register_index : ℕ → ℕ → ℕ
register_index precision hash = hash / 2 ^ (64 - precision)

unfoldable pub rho : ℕ → ℕ → ℕ
rho precision hash = min (leading_zeros 64 (hash * 2 ^ precision % 2 ^ 64) + 1) (64 - precision + 1)

-- `if value > registers[idx] { registers[idx] = value; }`
unfoldable pub raise : List ℕ → ℕ → ℕ → List ℕ
raise registers idx value =
    if ltb (get_or registers idx 0) value then set registers idx value else registers

-- There are `2 ^ precision` registers, so that the index is in range.
unfoldable pub update_register : List ℕ → ℕ → ℕ → List ℕ
update_register registers precision hash =
    raise registers (register_index precision hash) (rho precision hash)

-- `for hash in hashes { update_register(registers, precision, hash); }`
unfoldable pub update_registers : List ℕ → ℕ → List ℕ → List ℕ
update_registers registers precision [] = registers
update_registers registers precision (h ∷ hs) =
    update_registers (update_register registers precision h) precision hs

-- The registers that the storage stands for; `ensure_dense` stores them.
unfoldable pub dense_registers : ℕ → RegisterStorage → List ℕ
dense_registers precision empty = replicate (2 ^ precision) 0
dense_registers precision (singleton hash) =
    update_registers (replicate (2 ^ precision) 0) precision (hash ∷ [])
dense_registers precision (sparse hashes) =
    update_registers (replicate (2 ^ precision) 0) precision hashes
dense_registers precision (dense registers) = registers

-- `slice::binary_search` on strictly sorted hashes: where the hash is, or where it is to be inserted.
pub data Search : Type 0 where
  found : ℕ → Search
  missing : ℕ → Search

unfoldable pub shift : Search → Search
shift (found i) = found (suc i)
shift (missing i) = missing (suc i)

unfoldable pub binary_search : List ℕ → ℕ → Search
binary_search [] hash = missing 0
binary_search (h ∷ hs) hash =
    let rest = binary_search hs hash in
    if h == hash then found 0 else if ltb hash h then missing 0 else shift rest

-- `Vec::insert`
unfoldable pub insert_at : List ℕ → ℕ → ℕ → List ℕ
insert_at hs zero hash = hash ∷ hs
insert_at [] (suc i) hash = hash ∷ []
insert_at (h ∷ hs) (suc i) hash = h ∷ insert_at hs i hash

-- `sort_unstable` of two hashes.
unfoldable pub sorted_pair : ℕ → ℕ → List ℕ
sorted_pair a b = if ltb b a then b ∷ a ∷ [] else a ∷ b ∷ []

unfoldable pub insert_dense : ℕ → RegisterStorage → ℕ → RegisterStorage
insert_dense precision storage hash =
    dense (update_register (dense_registers precision storage) precision hash)

unfoldable pub insert_sparse : ℕ → List ℕ → ℕ → RegisterStorage
insert_sparse precision hashes hash = elim (binary_search hashes hash) [
  | found i ↦ sparse hashes
  | missing i ↦
      if ltb (length hashes) (sparse_limit precision)
      then sparse (insert_at hashes i hash)
      else insert_dense precision (sparse hashes) hash
]

unfoldable pub insert_storage : ℕ → RegisterStorage → ℕ → RegisterStorage
insert_storage precision empty hash = singleton hash
insert_storage precision (singleton existing) hash =
    if existing == hash
    then singleton existing
    else if ltb 1 (sparse_limit precision)
    then sparse (sorted_pair existing hash)
    else insert_dense precision (singleton existing) hash
insert_storage precision (sparse hashes) hash = insert_sparse precision hashes hash
insert_storage precision (dense registers) hash = dense (update_register registers precision hash)

unfoldable pub insert_hash : HyperLogLog → ℕ → HyperLogLog
insert_hash s hash = record s { storage = insert_storage s.precision s.storage hash }

unfoldable pub insert : HyperLogLog → List ℕ → HyperLogLog
insert s key = insert_hash (record s { updates = add64 s.updates 1 }) (hash64 key s.hash.seed)

unfoldable pub params_hash : HyperLogLog → ℕ
params_hash s = hash64 (s.precision ∷ []) 0

unfoldable pub compatibility : HyperLogLog → SketchCompatibility
compatibility s = record {
  algorithm = algorithm;
  version = 1;
  hash = s.hash;
  params_hash = params_hash s;
}

-- `for (a, b) in mine.iter_mut().zip(theirs) { if *b > *a { *a = *b; } }`
unfoldable pub max_registers : List ℕ → List ℕ → List ℕ
max_registers [] theirs = []
max_registers (a ∷ mine) [] = a ∷ mine
max_registers (a ∷ mine) (b ∷ theirs) = (if ltb a b then b else a) ∷ max_registers mine theirs

unfoldable pub insert_hashes : ℕ → RegisterStorage → List ℕ → RegisterStorage
insert_hashes precision storage [] = storage
insert_hashes precision storage (h ∷ hs) =
    insert_hashes precision (insert_storage precision storage h) hs

unfoldable pub merge_storage : ℕ → RegisterStorage → RegisterStorage → RegisterStorage
merge_storage precision mine empty = mine
merge_storage precision mine (singleton hash) = insert_storage precision mine hash
merge_storage precision mine (sparse hashes) = insert_hashes precision mine hashes
merge_storage precision mine (dense theirs) =
    dense (max_registers (dense_registers precision mine) theirs)

unfoldable pub merge_from : HyperLogLog → HyperLogLog → Result HyperLogLog
merge_from s other = do
  ensure_matches (compatibility s) (compatibility other)
  ok (record s {
    storage = merge_storage s.precision s.storage other.storage;
    updates = add64 s.updates other.updates;
  })

unfoldable pub reset : HyperLogLog → HyperLogLog
reset s = record s {
  storage = elim s.storage [
    | empty ↦ empty
    | singleton hash ↦ empty
    | sparse hashes ↦ sparse []
    | dense registers ↦ dense (replicate (length registers) 0)
  ];
  updates = 0;
}
