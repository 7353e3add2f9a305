-- ===== src/Algos/CountMin/Codec.antt =====
-- crates/flowsketch-algos/src/count_min.rs, `to_snapshot` and `from_snapshot`.
pub mod RoundTrip
use flowsketch.Base.{
  ℕ, zero, suc, ◌+◌, ◌*◌, ◌^◌, List, [], ◌∷◌, Bool, true, false, not, ◌||◌, leb, ◌==◌,
  if◌then◌else◌,
}
use flowsketch.Core.Error.{SketchError, snapshot, Result, ok, err, and_then}
use flowsketch.Core.Hash.{HashSpec}
use flowsketch.Core.Snapshot.AlgorithmId.{count_min}
use flowsketch.Core.Snapshot.{SnapshotHeader, snapshot_version, write_snapshot, read_snapshot}
use flowsketch.Core.Wire.{
  Writer, put_u8, put_u32, put_u64, M, ◌>>=◌, ◌>>◌, return, u8, u32, u64, check_count, repeat, run,
}
use flowsketch.Algos.CountMin.{CountMinSketch, to_u8}

unfoldable pub params : CountMinSketch → Writer
unfolding to_u8
params s = put_u8 (to_u8 s.conservative) (put_u32 s.depth (put_u32 s.width []))

-- `for &c in &self.table { payload.u64(c); }`
unfoldable pub put_cells : List ℕ → Writer → Writer
put_cells [] w = w
put_cells (c ∷ cs) w = put_cells cs (put_u64 c w)

unfoldable pub payload : CountMinSketch → Writer
payload s = put_cells s.table (put_u64 s.updates (put_u64 s.total_weight []))

unfoldable pub header : CountMinSketch → ℕ → ℕ → SnapshotHeader
header s window_start_nanos window_end_nanos = record {
  version = snapshot_version;
  algorithm_id = count_min;
  hash = s.hash;
  window_start_nanos = window_start_nanos;
  window_end_nanos = window_end_nanos;
}

unfoldable pub to_snapshot : CountMinSketch → ℕ → ℕ → List ℕ
to_snapshot s window_start_nanos window_end_nanos =
    write_snapshot (header s window_start_nanos window_end_nanos) (params s) (payload s)

unfoldable pub read_params : M (ℕ × ℕ × Bool)
read_params = do
  width ← u32
  depth ← u32
  conservative ← u8
  return (width, depth, not (conservative == 0))

unfoldable pub read_payload : ℕ → M (ℕ × ℕ × List ℕ)
read_payload cells = do
  total_weight ← u64
  updates ← u64
  table ← check_count cells 8 >> repeat cells u64
  return (total_weight, updates, table)

-- The checks on the parameters, and `width.checked_mul(depth)` on 64-bit `usize`.
unfoldable pub cells_of : ℕ → ℕ → Result ℕ
cells_of width depth =
    if width == 0 || depth == 0
    then err (snapshot "count-min snapshot width and depth must be positive")
    else if leb (2 ^ 64) (width * depth)
    then err (snapshot "count-min snapshot table overflows")
    else ok (width * depth)

unfoldable pub from_parts : SnapshotHeader × List ℕ × List ℕ → Result CountMinSketch
from_parts (h, param_bytes, payload_bytes) =
    if not (h.algorithm_id == count_min)
    then err (snapshot "not a count-min snapshot")
    else and_then (run read_params param_bytes) λ p. and_then (cells_of p.0 p.1) λ cells.
      and_then (run (read_payload cells) payload_bytes) λ q. ok (record {
        width = p.0;
        depth = p.1;
        conservative = p.2;
        hash = h.hash;
        table = q.2;
        total_weight = q.0;
        updates = q.1;
      })

unfoldable pub from_snapshot : List ℕ → Result CountMinSketch
from_snapshot bytes = and_then (read_snapshot bytes) from_parts
