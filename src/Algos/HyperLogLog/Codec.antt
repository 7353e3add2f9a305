-- ===== src/Algos/HyperLogLog/Codec.antt =====
-- crates/flowsketch-algos/src/hll.rs, `to_snapshot` and `from_snapshot`.
pub mod RoundTrip
use flowsketch.Base.{
  ℕ, zero, suc, ◌+◌, ◌-◌, ◌^◌, List, [], ◌∷◌, Option, none, some, Bool, true, false, not, ◌||◌,
  length, ltb, leb, ◌==◌, if◌then◌else◌,
}
use flowsketch.Core.Error.{SketchError, snapshot, Result, ok, err, and_then}
use flowsketch.Core.Snapshot.AlgorithmId.{hyper_log_log}
use flowsketch.Core.Snapshot.{SnapshotHeader, snapshot_version, write_snapshot, read_snapshot}
use flowsketch.Core.Wire.{
  Writer, put_u8, put_u32, put_u64, put_bytes, M, ◌>>=◌, ◌>>◌, return, refuse_if, u8, u32, u64,
  take, check_count, run, run_whole,
}
use flowsketch.Algos.HyperLogLog.{
  RegisterStorage, empty, singleton, sparse, dense, HyperLogLog, min_precision, max_precision,
  sparse_limit,
}

unfoldable pub params : HyperLogLog → Writer
params s = put_u8 s.precision []

-- `for &hash in hashes { payload.u64(hash); }`
unfoldable pub put_hashes : List ℕ → Writer → Writer
put_hashes [] w = w
put_hashes (h ∷ hs) w = put_hashes hs (put_u64 h w)

unfoldable pub put_storage : RegisterStorage → Writer → Writer
put_storage empty w = put_u32 0 (put_u8 0 w)
put_storage (singleton hash) w = put_u64 hash (put_u32 1 (put_u8 0 w))
put_storage (sparse hashes) w = put_hashes hashes (put_u32 (length hashes) (put_u8 0 w))
put_storage (dense registers) w = put_bytes registers (put_u8 1 w)

unfoldable pub payload : HyperLogLog → Writer
payload s = put_storage s.storage (put_u64 s.updates [])

unfoldable pub header : HyperLogLog → ℕ → ℕ → SnapshotHeader
header s window_start_nanos window_end_nanos = record {
  version = snapshot_version;
  algorithm_id = hyper_log_log;
  hash = s.hash;
  window_start_nanos = window_start_nanos;
  window_end_nanos = window_end_nanos;
}

unfoldable pub to_snapshot : HyperLogLog → ℕ → ℕ → List ℕ
to_snapshot s window_start_nanos window_end_nanos =
    write_snapshot (header s window_start_nanos window_end_nanos) (params s) (payload s)

-- `hashes.last().is_some_and(|previous| *previous >= hash)`
unfoldable pub not_after : Option ℕ → ℕ → Bool
not_after none hash = false
not_after (some previous) hash = leb hash previous

unfoldable pub read_hashes : ℕ → Option ℕ → M (List ℕ)
read_hashes zero last = return []
read_hashes (suc n) last = do
  hash ← u64
  hashes ←
      refuse_if (not_after last hash) "hll sparse hashes must be strictly sorted and unique"
      >> read_hashes n (some hash)
  return (hash ∷ hashes)

unfoldable pub storage_of : List ℕ → RegisterStorage
storage_of [] = empty
storage_of (h ∷ []) = singleton h
storage_of (h ∷ (k ∷ hs)) = sparse (h ∷ (k ∷ hs))

unfoldable pub read_sparse : ℕ → M RegisterStorage
read_sparse precision = do
  count ← u32
  hashes ←
      refuse_if (ltb (sparse_limit precision) count) "hll sparse hash count exceeds its limit"
      >> (check_count count 8 >> read_hashes count none)
  return (storage_of hashes)

-- `registers.iter().find(|&&register| register > max_register)`
unfoldable pub some_above : ℕ → List ℕ → Bool
some_above max_register [] = false
some_above max_register (r ∷ rs) = ltb max_register r || some_above max_register rs

unfoldable pub read_dense : ℕ → M RegisterStorage
read_dense precision = do
  registers ← take (2 ^ precision)
  refuse_if (some_above (64 - precision + 1) registers) "hll snapshot register is above its maximum"
      >> return (dense registers)

unfoldable pub read_storage : ℕ → ℕ → M RegisterStorage
read_storage precision tag =
    if tag == 0
    then read_sparse precision
    else if tag == 1
    then read_dense precision
    else (λ r. err (snapshot "unknown hll storage encoding"))

unfoldable pub read_payload : ℕ → M (ℕ × RegisterStorage)
read_payload precision = do
  updates ← u64
  tag ← u8
  storage ← read_storage precision tag
  return (updates, storage)

-- The parameter and its range.
unfoldable pub read_precision : List ℕ → Result ℕ
read_precision bytes = and_then (run u8 bytes) λ p.
    if ltb p min_precision || ltb max_precision p
    then err (snapshot "hll snapshot precision is out of its range")
    else ok p

unfoldable pub from_parts : SnapshotHeader × List ℕ × List ℕ → Result HyperLogLog
from_parts (h, param_bytes, payload_bytes) =
    if not (h.algorithm_id == hyper_log_log)
    then err (snapshot "not an hll snapshot")
    else and_then (read_precision param_bytes) λ p.
      and_then (run_whole "trailing bytes in hll snapshot payload" (read_payload p) payload_bytes)
        λ q. ok (record { precision = p; hash = h.hash; storage = q.1; updates = q.0 })

unfoldable pub from_snapshot : List ℕ → Result HyperLogLog
from_snapshot bytes = and_then (read_snapshot bytes) from_parts
