-- ===== src/Algos/SpaceSaving/Codec.antt =====
-- crates/flowsketch-algos/src/space_saving.rs, `to_snapshot` and `from_snapshot`.
pub mod Safety
use flowsketch.Base.{
  ℕ, zero, suc, ◌+◌, List, [], ◌∷◌, Option, none, some, Bool, true, false, not, length, ltb, ◌==◌,
  if◌then◌else◌,
}
use flowsketch.Core.Error.{SketchError, snapshot, Result, ok, err, and_then}
use flowsketch.Core.Snapshot.AlgorithmId.{space_saving}
use flowsketch.Core.Snapshot.{SnapshotHeader, snapshot_version, write_snapshot, read_snapshot}
use flowsketch.Core.Wire.{
  Writer, put_u32, put_u64, put_lp_bytes, M, ◌>>=◌, ◌>>◌, return, refuse_if, u32, u64, lp_bytes,
  check_count, run,
}
use flowsketch.Algos.SpaceSaving.Index.{find_slot_with_digest}
use flowsketch.Algos.SpaceSaving.Update.{insert_entry_with_digest}
use flowsketch.Algos.SpaceSaving.{Entry, Slot, SpaceSaving, new, bytes_lt, key_digest}

-- `indices.sort_by(|left, right| self.slots[*left].key.cmp(&self.slots[*right].key))`
unfoldable pub insert_by_key : Slot → List Slot → List Slot
insert_by_key x [] = x ∷ []
insert_by_key x (y ∷ ys) =
    let rest = insert_by_key x ys in if bytes_lt y.key x.key then y ∷ rest else x ∷ y ∷ ys

unfoldable pub sort_by_key : List Slot → List Slot
unfolding insert_by_key
sort_by_key [] = []
sort_by_key (x ∷ xs) = insert_by_key x (sort_by_key xs)

unfoldable pub params : SpaceSaving → Writer
params s = put_u64 s.capacity []

unfoldable pub put_entries : List Slot → Writer → Writer
put_entries [] w = w
put_entries (x ∷ xs) w =
    put_entries xs (put_u64 x.entry.error (put_u64 x.entry.count (put_lp_bytes x.key w)))

unfoldable pub payload : SpaceSaving → Writer
unfolding sort_by_key put_entries
payload s =
    put_entries (sort_by_key s.slots)
      (put_u32 (length s.slots) (put_u64 s.updates (put_u64 s.total_weight [])))

unfoldable pub header : SpaceSaving → ℕ → ℕ → SnapshotHeader
header s window_start_nanos window_end_nanos = record {
  version = snapshot_version;
  algorithm_id = space_saving;
  hash = s.hash;
  window_start_nanos = window_start_nanos;
  window_end_nanos = window_end_nanos;
}

unfoldable pub to_snapshot : SpaceSaving → ℕ → ℕ → List ℕ
unfolding header params payload
to_snapshot s window_start_nanos window_end_nanos =
    write_snapshot (header s window_start_nanos window_end_nanos) (params s) (payload s)

-- The end of a round of the loop, from the search for the key: a key that is there is refused, and
-- `none` is a panic.
unfoldable pub insert_new :
    SpaceSaving → List ℕ → ℕ → ℕ → Option (Option ℕ) → M (Option SpaceSaving)
insert_new s key count error none = return none
insert_new s key count error (some (some i)) =
    λ r. err (snapshot "spacesaving snapshot contains a duplicate key")
insert_new s key count error (some none) =
    return (insert_entry_with_digest s key (key_digest s.hash key) count error)

unfoldable pub read_entry : SpaceSaving → M (Option SpaceSaving)
unfolding insert_new
read_entry s = do
  key ← lp_bytes
  count ← u64
  error ← u64
  refuse_if (ltb count error) "spacesaving snapshot entry error exceeds its count"
  insert_new s key count error (find_slot_with_digest s key (key_digest s.hash key))

unfoldable pub read_entries : ℕ → SpaceSaving → M (Option SpaceSaving)
unfolding read_entry
read_entries zero s = return (some s)
read_entries (suc n) s = do
  next ← read_entry s
  elim next [ none ↦ return none | some t ↦ read_entries n t ]

-- `SpaceSaving::new` with the counters of the payload.
unfoldable pub start : ℕ → SnapshotHeader → ℕ → ℕ → Result SpaceSaving
unfolding new
start capacity h total_weight updates =
    and_then (new capacity h.hash)
      λ s. ok (record s { total_weight = total_weight; updates = updates })

-- A result as the last step of a reader.
abbrev lift : {A : Type 0} → Result A → M A
lift (ok a) r = ok (a, r)
lift (err e) r = err e

unfoldable pub read_payload : ℕ → SnapshotHeader → M (Option SpaceSaving)
unfolding start read_entries
read_payload capacity h = do
  total_weight ← u64
  updates ← u64
  n ← u32
  refuse_if (ltb capacity n) "spacesaving snapshot entry count exceeds its capacity"
  check_count n (4 + 8 + 8)
  summary ← lift (start capacity h total_weight updates)
  read_entries n summary

-- `usize::try_from` of a `u64` succeeds on a 64-bit platform.
unfoldable pub read_capacity : List ℕ → Result ℕ
read_capacity bytes = and_then (run u64 bytes) λ capacity.
    if capacity == 0
    then err (snapshot "spacesaving snapshot capacity must be positive")
    else ok capacity

unfoldable pub from_parts : SnapshotHeader × List ℕ × List ℕ → Result (Option SpaceSaving)
unfolding read_capacity read_payload
from_parts (h, param_bytes, payload_bytes) =
    if not (h.algorithm_id == space_saving)
    then err (snapshot "not a spacesaving snapshot")
    else and_then (read_capacity param_bytes)
        λ capacity. run (read_payload capacity h) payload_bytes

unfoldable pub from_snapshot : List ℕ → Result (Option SpaceSaving)
unfolding from_parts
from_snapshot bytes = and_then (read_snapshot bytes) from_parts
