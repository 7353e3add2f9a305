-- ===== src/Algos/CountMin/Modes.antt =====
-- Conservative update against plain update, on one stream.
use flowsketch.Base.Word.{u64_max}
use flowsketch.Base.{ℕ, ◌+◌, ◌*◌, ◌^◌, ◌≤◌, ◌<◌, ◌≡◌, List, [], ◌∷◌, true, false, get_or, arith}
use flowsketch.Core.Error.{ok}
use flowsketch.Core.Hash.{HashSpec, row_hashes}
use flowsketch.Algos.CountMin.Rows.{
  cell-lt, cell_injective, min_rows-le_cell, le-min_rows, min_rows-le_acc,
}
use flowsketch.Algos.CountMin.Table.{raised-le, added}
use flowsketch.Algos.CountMin.Estimates.{IsSound, new-IsSound, update-IsSound, update_total}
use flowsketch.Algos.Truth.{Stream, total}
use flowsketch.Algos.CountMin.{CountMinSketch, new, cell, min_rows, estimate_u64, update, run}

-- A conservative and a plain sketch of one configuration, the first below the second.
record Below (s t : CountMinSketch) : Type 0 where
  sound_left : IsSound s
  sound_right : IsSound t
  careful : s.conservative ≡ true
  plain : t.conservative ≡ false
  width : s.width ≡ t.width
  depth : s.depth ≡ t.depth
  hash : s.hash ≡ t.hash
  weight : s.total_weight ≡ t.total_weight
  below : (j : ℕ) → get_or s.table j 0 ≤ get_or t.table j 0

update-Below_conservative :
    (s t : CountMinSketch) (key : List ℕ) (value : ℕ)
    → Below s t
    → s.total_weight + value < 2 ^ 64
    → (j : ℕ) → get_or (update s key value).table j 0 ≤ get_or (update t key value).table j 0
unfolding update
update-Below_conservative s t key value b fits j =
    let idx = cell t.width (row_hashes t.hash key) in
    let inj = cell_injective t.hash key t.width b.sound_right.wide in
    let inside : (r : ℕ) → r < t.depth → idx r < t.width * t.depth =
      λ r h. cell-lt t.hash key t.width t.depth r b.sound_right.wide h in
    let left =
      raised-le s.table idx t.depth value inj
        (λ r h. rw (b.sound_left.shape, b.width, b.depth) (inside r h)) b.sound_right.deep
        (λ i. omega (arith, b.sound_left.bounded i)) j in
    let right =
      added t.table idx t.depth value inj (λ r h. rw b.sound_right.shape (inside r h))
        b.sound_right.deep (λ i. omega (arith, b.sound_right.bounded i, b.weight)) j in
    rw (b.careful, b.plain, b.width, b.depth, b.hash) (ground (arith, left, right, b.below j))

update-Below :
    (s t : CountMinSketch) (key : List ℕ) (value : ℕ)
    → Below s t
    → s.total_weight + value < 2 ^ 64
    → Below (update s key value) (update t key value)
update-Below s t key value b fits =
    let fits' : t.total_weight + value < 2 ^ 64 = omega (arith, b.weight) in
    record {
      sound_left = update-IsSound s b.sound_left key value fits;
      sound_right = update-IsSound t b.sound_right key value fits';
      careful = unfold update in b.careful;
      plain = unfold update in b.plain;
      width = unfold update in b.width;
      depth = unfold update in b.depth;
      hash = unfold update in b.hash;
      weight = omega (
        arith,
        update_total s b.sound_left key value fits,
        update_total t b.sound_right key value fits',
        b.weight,
      );
      below = update-Below_conservative s t key value b fits;
    }

run-Below :
    (stream : Stream) (s t : CountMinSketch)
    → Below s t
    → s.total_weight + total stream < 2 ^ 64
    → Below (run stream s) (run stream t)
unfolding run total
run-Below [] s t b fits = b
run-Below ((k, v) ∷ rest) s t b fits =
    let here : s.total_weight + v < 2 ^ 64 = omega arith in
    run-Below rest (update s k v) (update t k v) (update-Below s t k v b here)
      (omega (arith, update_total s b.sound_left k v here))

estimate-Below :
    (s t : CountMinSketch) (key : List ℕ) → Below s t → estimate_u64 s key ≤ estimate_u64 t key
unfolding estimate_u64
estimate-Below s t key b =
    let idx = cell t.width (row_hashes t.hash key) in
    rw (b.width, b.depth, b.hash)
      (le-min_rows t.table idx t.depth 0 u64_max (min_rows s.table idx t.depth 0 u64_max)
        (min_rows-le_acc s.table idx t.depth 0 u64_max)
        (λ r lo hi.
          omega (arith, min_rows-le_cell s.table idx t.depth 0 u64_max r lo hi, b.below (idx r))))

new-Below :
    (width depth : ℕ) (hash : HashSpec) {s t : CountMinSketch}
    → new width depth true hash ≡ ok s
    → new width depth false hash ≡ ok t
    → Below s t
unfolding new
new-Below width depth hash {s} {t} p q = record {
  sound_left = (new-IsSound width depth true hash p).0;
  sound_right = (new-IsSound width depth false hash q).0;
  careful = ground arith;
  plain = ground arith;
  width = ground arith;
  depth = ground arith;
  hash = ground arith;
  weight = ground arith;
  below = λ j. ground arith;
}

-- On one stream, of a total weight below 2^64, the conservative estimate of a key is at most the
-- plain estimate of a sketch with the same width, depth and hash.
pub conservative_estimate-le :
    (width depth : ℕ) (hash : HashSpec) (stream : Stream) (key : List ℕ) {s t : CountMinSketch}
    → new width depth true hash ≡ ok s
    → new width depth false hash ≡ ok t
    → total stream < 2 ^ 64
    → estimate_u64 (run stream s) key ≤ estimate_u64 (run stream t) key
conservative_estimate-le width depth hash stream key {s} {t} p q fits =
    let (_, zero_total) = new-IsSound width depth true hash p in
    estimate-Below (run stream s) (run stream t) key
      (run-Below stream s t (new-Below width depth hash p q) (omega (arith, zero_total)))
