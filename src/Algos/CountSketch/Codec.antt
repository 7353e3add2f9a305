-- ===== src/Algos/CountSketch/Codec.antt =====
-- crates/flowsketch-algos/src/count_sketch.rs, `to_snapshot` and `from_snapshot`. A signed counter is written
-- and read as its word.
pub mod RoundTrip
use flowsketch.Base.{
  ℕ, zero, suc, ◌*◌, ◌^◌, List, [], ◌∷◌, Bool, true, false, not, ◌||◌, leb, ◌==◌, if◌then◌else◌,
}
use flowsketch.Core.Error.{SketchError, snapshot, Result, ok, err, and_then}
use flowsketch.Core.Snapshot.AlgorithmId.{count_sketch}
use flowsketch.Core.Snapshot.{SnapshotHeader, snapshot_version, write_snapshot, read_snapshot}
use flowsketch.Core.Wire.{
  Writer, put_u32, put_u64, M, ◌>>=◌, ◌>>◌, return, u32, u64, check_count, repeat, run,
}
use flowsketch.Algos.CountSketch.{CountSketch}

unfoldable pub params : CountSketch → Writer
params s = put_u32 s.depth (put_u32 s.width [])

-- `for &c in &self.table { payload.i64(c); }`
unfoldable pub put_counters : List ℕ → Writer → Writer
put_counters [] w = w
put_counters (c ∷ cs) w = put_counters cs (put_u64 c w)

unfoldable pub payload : CountSketch → Writer
payload s = put_counters s.table (put_u64 s.updates [])

unfoldable pub header : CountSketch → ℕ → ℕ → SnapshotHeader
header s window_start_nanos window_end_nanos = record {
  version = snapshot_version;
  algorithm_id = count_sketch;
  hash = s.hash;
  window_start_nanos = window_start_nanos;
  window_end_nanos = window_end_nanos;
}

unfoldable pub to_snapshot : CountSketch → ℕ → ℕ → List ℕ
to_snapshot s window_start_nanos window_end_nanos =
    write_snapshot (header s window_start_nanos window_end_nanos) (params s) (payload s)

unfoldable pub read_params : M (ℕ × ℕ)
read_params = do width ← u32; depth ← u32; return (width, depth)

-- The checks on the parameters, and `width.checked_mul(depth)`.
unfoldable pub cells_of : ℕ → ℕ → Result ℕ
cells_of width depth =
    if width == 0 || depth == 0
    then err (snapshot "count-sketch snapshot width and depth must be positive")
    else if leb (2 ^ 64) (width * depth)
    then err (snapshot "count-sketch snapshot table overflows")
    else ok (width * depth)

unfoldable pub read_payload : ℕ → M (ℕ × List ℕ)
read_payload cells = do
  updates ← u64
  table ← check_count cells 8 >> repeat cells u64
  return (updates, table)

unfoldable pub from_parts : SnapshotHeader × List ℕ × List ℕ → Result CountSketch
from_parts (h, param_bytes, payload_bytes) =
    if not (h.algorithm_id == count_sketch)
    then err (snapshot "not a count-sketch snapshot")
    else and_then (run read_params param_bytes) λ p. and_then (cells_of p.0 p.1) λ cells.
      and_then (run (read_payload cells) payload_bytes)
        λ q. ok (record { width = p.0; depth = p.1; hash = h.hash; table = q.1; updates = q.0 })

unfoldable pub from_snapshot : List ℕ → Result CountSketch
from_snapshot bytes = and_then (read_snapshot bytes) from_parts
