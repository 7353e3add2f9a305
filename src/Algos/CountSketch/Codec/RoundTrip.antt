-- ===== src/Algos/CountSketch/Codec/RoundTrip.antt =====
-- A stored Count Sketch loads as it was.
use flowsketch.Base.Bytes.{le_bytes, length-le_bytes}
use flowsketch.Base.{
  ℕ, ◌+◌, ◌*◌, ◌^◌, ◌<◌, ◌≡◌, refl, ◌∙◌, List, [], ◌∷◌, ◌++◌, length, length-append, arith,
}
use mathlib.Core.List.{append_assoc, append-nil}
use flowsketch.Core.Error.{ok}
use flowsketch.Core.Snapshot.RoundTrip.{IsWritable, read_snapshot-write_snapshot}
use flowsketch.Core.Wire.Laws.{
  All, encode_all, bind-Reads, reshape-Reads, counted-Reads, u32-Reads, u64-Reads, run-Reads,
}
use flowsketch.Core.Wire.{put_u32, put_u64, u32, u64, run}
use flowsketch.Algos.CountSketch.{CountSketch}
use flowsketch.Algos.CountSketch.Codec.{
  params, put_counters, payload, header, to_snapshot, read_params, cells_of, read_payload,
  from_parts, from_snapshot,
}

-- The sketch fits the format: its sizes, its counters and the length of its payload.
pub record IsSketch (s : CountSketch) : Type 0 where
  pub wide : 0 < s.width
  pub deep : 0 < s.depth
  pub width_fits : s.width < 2 ^ 32
  pub depth_fits : s.depth < 2 ^ 32
  pub shape : length s.table ≡ s.width * s.depth
  pub words : All (λ c. c < 2 ^ 64) s.table
  pub count : s.updates < 2 ^ 64
  pub seed : s.hash.seed < 2 ^ 64
  pub version : s.hash.version < 2 ^ 16
  pub payload_fits : 8 + 8 * length s.table < 2 ^ 32

counters_bytes : List ℕ → List ℕ
counters_bytes cs = encode_all (le_bytes 8) cs

put_counters_lem : (cs w : List ℕ) → put_counters cs w ≡ w ++ counters_bytes cs
unfolding put_counters counters_bytes encode_all put_u64
put_counters_lem [] w = rw append-nil
put_counters_lem (c ∷ cs) w =
    put_counters_lem cs (w ++ le_bytes 8 c) ∙ append_assoc w (le_bytes 8 c) (counters_bytes cs)

length-counters_bytes : (cs : List ℕ) → length (counters_bytes cs) ≡ 8 * length cs
unfolding counters_bytes encode_all
length-counters_bytes [] = refl
length-counters_bytes (c ∷ cs) = omega (
  arith,
  length-append (le_bytes 8 c) (encode_all (le_bytes 8) cs),
  length-le_bytes 8 c,
  length-counters_bytes cs,
)

params_lem : (s : CountSketch) → params s ≡ le_bytes 4 s.width ++ le_bytes 4 s.depth
unfolding params put_u32
params_lem s = refl

payload_lem : (s : CountSketch) → payload s ≡ le_bytes 8 s.updates ++ counters_bytes s.table
unfolding payload put_u64
payload_lem s = put_counters_lem s.table (le_bytes 8 s.updates)

run-params : (s : CountSketch) → IsSketch s → run read_params (params s) ≡ ok (s.width, s.depth)
unfolding read_params
run-params s w = rw (params_lem s) (
    run-Reads read_params _ (s.width, s.depth)
      (bind-Reads u32 _ (le_bytes 4 s.width) (le_bytes 4 s.depth) s.width _
        (u32-Reads s.width w.width_fits)
        (reshape-Reads u32 (λ depth. (s.width, depth)) (le_bytes 4 s.depth) s.depth
          (u32-Reads s.depth w.depth_fits))))

run-payload :
    (s : CountSketch)
    → IsSketch s
    → run (read_payload (length s.table)) (payload s) ≡ ok (s.updates, s.table)
unfolding read_payload counters_bytes
run-payload s w = rw (payload_lem s) (
    run-Reads (read_payload (length s.table)) _ _ (
      bind-Reads u64 _ (le_bytes 8 s.updates) _ s.updates _ (u64-Reads s.updates w.count) (
        reshape-Reads _ (λ table. (s.updates, table)) (counters_bytes s.table) s.table
          (counted-Reads u64 (le_bytes 8) (λ c. c < 2 ^ 64) 8 (omega arith) u64-Reads
            (λ c. omega (arith, length-le_bytes 8 c)) s.table w.words))))

cells_of-ok : (s : CountSketch) → IsSketch s → cells_of s.width s.depth ≡ ok (length s.table)
unfolding cells_of
cells_of-ok s w = ground arith

-- A sketch that fits the format loads from its snapshot as it was, its counters with their signs.
pub from_snapshot-to_snapshot_signed :
    (s : CountSketch) (start end : ℕ)
    → IsSketch s
    → start < 2 ^ 64
    → end < 2 ^ 64
    → from_snapshot (to_snapshot s start end) ≡ ok s
unfolding from_snapshot to_snapshot from_parts header
from_snapshot-to_snapshot_signed s start end w hs he =
    let writable : IsWritable (header s start end) (params s) (payload s) = record {
      current = refl;
      algorithm = omega arith;
      seed = w.seed;
      hash = w.version;
      start = hs;
      end = he;
      params_fit = rw (params_lem s) (simp (length-append, length-le_bytes) (omega arith));
      payload_fit = rw (payload_lem s) (
          simp (length-append, length-le_bytes, length-counters_bytes)
            (omega (arith, w.payload_fits)));
    } in
    rw
      (
        read_snapshot-write_snapshot (header s start end) (params s) (payload s) writable,
        run-params s w,
        cells_of-ok s w,
        run-payload s w,
      )
      refl
