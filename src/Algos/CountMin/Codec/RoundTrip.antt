-- ===== src/Algos/CountMin/Codec/RoundTrip.antt =====
-- A stored Count-Min sketch loads as it was.
use flowsketch.Base.Bytes.{le_bytes, length-le_bytes}
use flowsketch.Base.{
  ℕ, ◌+◌, ◌*◌, ◌^◌, ◌<◌, ◌≡◌, refl, ap, ◌∙◌, List, [], ◌∷◌, ◌++◌, length, length-append, Bool, true,
  false, not, ◌==◌, arith,
}
use mathlib.Core.List.{append_assoc, append-nil}
use flowsketch.Core.Error.{ok}
use flowsketch.Core.Snapshot.RoundTrip.{IsWritable, read_snapshot-write_snapshot}
use flowsketch.Core.Wire.Laws.{
  All, encode_all, bind-Reads, return-Reads, u8-Reads, u32-Reads, u64-Reads, counted-Reads,
  run-Reads,
}
use flowsketch.Core.Wire.{put_u8, put_u32, put_u64, u64, run}
use flowsketch.Algos.CountMin.{CountMinSketch, to_u8}
use flowsketch.Algos.CountMin.Codec.{
  params, put_cells, payload, header, to_snapshot, read_params, read_payload, cells_of, from_parts,
  from_snapshot,
}

-- The sketch fits the format: its sizes, its counters and the length of its payload.
pub record IsStorable (s : CountMinSketch) : Type 0 where
  pub wide : 0 < s.width
  pub deep : 0 < s.depth
  pub width_fits : s.width < 2 ^ 32
  pub depth_fits : s.depth < 2 ^ 32
  pub shape : length s.table ≡ s.width * s.depth
  pub words : All (λ c. c < 2 ^ 64) s.table
  pub weight : s.total_weight < 2 ^ 64
  pub count : s.updates < 2 ^ 64
  pub seed : s.hash.seed < 2 ^ 64
  pub version : s.hash.version < 2 ^ 16
  pub payload_fits : 16 + 8 * length s.table < 2 ^ 32

cells_bytes : List ℕ → List ℕ
cells_bytes cells = encode_all (le_bytes 8) cells

put_cells_lem : (cells w : List ℕ) → put_cells cells w ≡ w ++ cells_bytes cells
unfolding put_cells cells_bytes encode_all put_u64
put_cells_lem [] w = rw append-nil
put_cells_lem (c ∷ cs) w =
    put_cells_lem cs (w ++ le_bytes 8 c) ∙ append_assoc w (le_bytes 8 c) (cells_bytes cs)

length-cells_bytes : (cells : List ℕ) → length (cells_bytes cells) ≡ 8 * length cells
unfolding cells_bytes encode_all
length-cells_bytes [] = refl
length-cells_bytes (c ∷ cs) = omega (
  arith,
  length-append (le_bytes 8 c) (encode_all (le_bytes 8) cs),
  length-le_bytes 8 c,
  length-cells_bytes cs,
)

params_lem :
    (s : CountMinSketch)
    → params s
      ≡ le_bytes 4 s.width ++ (le_bytes 4 s.depth ++ (le_bytes 1 (to_u8 s.conservative) ++ []))
unfolding params put_u8 put_u32
params_lem s = simp (append_assoc, append-nil)

to_u8-lt : (b : Bool) → to_u8 b < 256
unfolding to_u8
to_u8-lt true = omega arith
to_u8-lt false = omega arith

from_u8-to_u8 : (b : Bool) → not (to_u8 b == 0) ≡ b
unfolding to_u8
from_u8-to_u8 true = refl
from_u8-to_u8 false = refl

run-params :
    (s : CountMinSketch)
    → IsStorable s
    → run read_params (params s) ≡ ok (s.width, s.depth, s.conservative)
unfolding read_params
run-params s w = rw (params_lem s) (
    run-Reads read_params _ (s.width, s.depth, not (to_u8 s.conservative == 0))
      (bind-Reads _ _ (le_bytes 4 s.width) _ s.width _ (u32-Reads s.width w.width_fits) (
        bind-Reads _ _ (le_bytes 4 s.depth) _ s.depth _ (u32-Reads s.depth w.depth_fits) (
          bind-Reads _ _ (le_bytes 1 (to_u8 s.conservative)) [] (to_u8 s.conservative) _
            (u8-Reads (to_u8 s.conservative) (to_u8-lt s.conservative)) (return-Reads _))))
    ∙ ap (λ b. ok (s.width, s.depth, b)) (from_u8-to_u8 s.conservative))

payload_lem :
    (s : CountMinSketch)
    → payload s ≡ le_bytes 8 s.total_weight ++ (le_bytes 8 s.updates ++ (cells_bytes s.table ++ []))
unfolding payload put_u64
payload_lem s = put_cells_lem s.table _ ∙ simp (append_assoc, append-nil)

run-payload :
    (s : CountMinSketch)
    → IsStorable s
    → run (read_payload (length s.table)) (payload s) ≡ ok (s.total_weight, s.updates, s.table)
unfolding read_payload cells_bytes
run-payload s w = rw (payload_lem s) (
    run-Reads (read_payload (length s.table)) _ _ (
      bind-Reads _ _ (le_bytes 8 s.total_weight) _ s.total_weight _
        (u64-Reads s.total_weight w.weight)
        (bind-Reads _ _ (le_bytes 8 s.updates) _ s.updates _ (u64-Reads s.updates w.count) (
          bind-Reads _ _ (cells_bytes s.table) [] s.table _
            (counted-Reads u64 (le_bytes 8) (λ c. c < 2 ^ 64) 8 (omega arith) u64-Reads
              (λ c. omega (arith, length-le_bytes 8 c)) s.table w.words)
            (return-Reads _)))))

cells_of-ok : (s : CountMinSketch) → IsStorable s → cells_of s.width s.depth ≡ ok (length s.table)
unfolding cells_of
cells_of-ok s w = ground arith

writable :
    (s : CountMinSketch) (start end : ℕ)
    → IsStorable s
    → start < 2 ^ 64
    → end < 2 ^ 64
    → IsWritable (header s start end) (params s) (payload s)
unfolding header
writable s start end w hs he = record {
  current = refl;
  algorithm = omega arith;
  seed = w.seed;
  hash = w.version;
  start = hs;
  end = he;
  params_fit = rw (params_lem s) (simp (length-append, length-le_bytes) (omega arith));
  payload_fit =
      rw (payload_lem s) (simp (length-append, length-le_bytes, length-cells_bytes) (omega arith));
}

-- A sketch that fits the format loads from its snapshot exactly as it was stored.
pub from_snapshot-to_snapshot :
    (s : CountMinSketch) (start end : ℕ)
    → IsStorable s
    → start < 2 ^ 64
    → end < 2 ^ 64
    → from_snapshot (to_snapshot s start end) ≡ ok s
unfolding from_snapshot to_snapshot from_parts header
from_snapshot-to_snapshot s start end w hs he = rw (
  read_snapshot-write_snapshot (header s start end) (params s) (payload s)
      (writable s start end w hs he),
  run-params s w,
  cells_of-ok s w,
  run-payload s w,
)
