-- ===== src/Algos/SpaceSaving.antt =====
-- crates/flowsketch-algos/src/space_saving.rs: the SpaceSaving summary. An arena of slots owns the
-- keys; an index finds the slot of a key by its digest; a binary min-heap holds the slots' numbers.
pub mod Index
pub mod Heap
pub mod Update
pub mod Consistent
pub mod Guarantee
pub mod Codec
pub mod Merge
mod Tests
use Prim.Native.Nat.{bit_xor}
use Prim.Native.String.{String}
use flowsketch.Base.{
  ℕ, ◌-◌, List, [], ◌∷◌, Option, none, Bool, true, false, ◌==◌, ltb, if◌then◌else◌, length,
}
use flowsketch.Base.Bytes.{le_bytes}
use flowsketch.Core.Error.{SketchError, invalid_param, Result, ok, err}
use flowsketch.Core.Hash.{HashSpec, hash64}
use flowsketch.Core.Sketch.{SketchCompatibility}

abbrev pub algorithm : String
algorithm = "spacesaving"

pub record Entry : Type 0 where
  pub count : ℕ
  pub error : ℕ

unfoldable pub guaranteed : Entry → ℕ
guaranteed e = e.count - e.error

pub record Slot : Type 0 where
  pub key : List ℕ
  pub digest : ℕ
  pub entry : Entry
  pub heap_index : ℕ

pub data IndexBucket : Type 0 where
  one : ℕ → IndexBucket
  many : List ℕ → IndexBucket

-- `HashMap<u64, IndexBucket>`: nothing depends on its order.
abbrev pub KeyIndex : Type 0
KeyIndex = ℕ → Option IndexBucket

pub record SpaceSaving : Type 0 where
  pub capacity : ℕ
  pub hash : HashSpec
  pub slots : List Slot
  pub key_index : KeyIndex
  pub min_heap : List ℕ
  pub total_weight : ℕ
  pub updates : ℕ

-- The memory that `with_capacity` reserves is not modelled.
unfoldable pub new : ℕ → HashSpec → Result SpaceSaving
new capacity hash =
    if capacity == 0
    then err (invalid_param "spacesaving capacity must be positive")
    else ok (record {
      capacity = capacity;
      hash = hash;
      slots = [];
      key_index = λ _. none;
      min_heap = [];
      total_weight = 0;
      updates = 0;
    })

unfoldable pub is_empty : SpaceSaving → Bool
is_empty s = length s.slots == 0

unfoldable pub key_digest : HashSpec → List ℕ → ℕ
key_digest hash key = hash64 key (bit_xor hash.seed 0x5350_4143_4553_4156)

-- The derived order of `Vec<u8>`.
unfoldable pub bytes_lt : List ℕ → List ℕ → Bool
bytes_lt xs [] = false
bytes_lt [] (y ∷ ys) = true
bytes_lt (x ∷ xs) (y ∷ ys) =
    let rest = bytes_lt xs ys in if ltb x y then true else if ltb y x then false else rest

unfoldable pub params_hash : SpaceSaving → ℕ
params_hash s = hash64 (le_bytes 8 s.capacity) 0

unfoldable pub compatibility : SpaceSaving → SketchCompatibility
unfolding params_hash
compatibility s = record {
  algorithm = algorithm;
  version = 1;
  hash = s.hash;
  params_hash = params_hash s;
}

unfoldable pub reset : SpaceSaving → SpaceSaving
reset s = record s {
  slots = [];
  key_index = λ _. none;
  min_heap = [];
  total_weight = 0;
  updates = 0;
}
