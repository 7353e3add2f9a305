-- ===== src/Algos/CountMin/Estimates.antt =====
-- The shape that a sketch keeps while it reads a stream, and its estimates against the true counts.
use flowsketch.Base.Bytes.{bytes_eq, eq_of_bytes_eq}
use flowsketch.Base.Word.{u64_max}
use flowsketch.Base.{
  ℕ, zero, ◌+◌, ◌*◌, ◌^◌, ◌≤◌, ◌<◌, ◌≡◌, List, [], ◌∷◌, Bool, length, get_or, if◌then◌else◌, arith,
  length-replicate, get_or-replicate, Bool-cases, inl, inr, ◌∙◌,
}
use flowsketch.Core.Error.{ok}
use flowsketch.Core.Hash.{HashSpec, row_hashes}
use flowsketch.Algos.CountMin.Rows.{
  cell-lt, cell_injective, min_rows-le_cell, le-min_rows, min_rows-le_acc,
}
use flowsketch.Algos.CountMin.Table.{
  length-update_table, update_table-ge, update_table-le, update_table_row,
}
use flowsketch.Algos.Truth.{Stream, truth, total}
use flowsketch.Algos.CountMin.{
  CountMinSketch, new, cell, min_rows, estimate_u64, update_table, update, run,
}

-- The table has its shape, and no counter is above the weight of all updates.
pub record IsSound (s : CountMinSketch) : Type 0 where
  pub wide : 0 < s.width
  pub deep : 0 < s.depth
  pub shape : length s.table ≡ s.width * s.depth
  pub bounded : (j : ℕ) → get_or s.table j 0 ≤ s.total_weight

pub new-IsSound :
    (width depth : ℕ) (c : Bool) (hash : HashSpec) {s : CountMinSketch}
    → new width depth c hash ≡ ok s
    → IsSound s × (s.total_weight ≡ 0)
unfolding new
new-IsSound width depth c hash h = (
  record {
    wide = ground arith;
    deep = ground arith;
    shape = ground (arith, length-replicate (width * depth) zero);
    bounded = λ j. ground (arith, get_or-replicate (width * depth) j zero);
  },
  ground arith,
)

module _ (s : CountMinSketch) (sound : IsSound s) (key : List ℕ) (value : ℕ)
    (fits : s.total_weight + value < 2 ^ 64) where
  idx : ℕ → ℕ
  idx = cell s.width (row_hashes s.hash key)

  inj : (r q : ℕ) → idx r ≡ idx q → r ≡ q
  unfolding idx
  inj = cell_injective s.hash key s.width sound.wide

  within : (r : ℕ) → r < s.depth → idx r < length s.table
  unfolding idx
  within r h = rw sound.shape (cell-lt s.hash key s.width s.depth r sound.wide h)

  room : (j : ℕ) → get_or s.table j 0 + value < 2 ^ 64
  room j = omega (arith, sound.bounded j)

  pub update_total : (update s key value).total_weight ≡ s.total_weight + value
  unfolding update
  update_total = omega arith

  -- An update keeps the shape and the bound, if the total weight does not wrap.
  pub update-IsSound : IsSound (update s key value)
  unfolding update idx
  update-IsSound = record {
    wide = sound.wide;
    deep = sound.deep;
    shape =
        length-update_table s.table idx s.depth value inj within sound.deep room s.conservative
        ∙ sound.shape;
    bounded = λ j. omega (
      arith,
      sound.bounded j,
      update_table-le s.table idx s.depth value inj within sound.deep room s.conservative j,
    );
  }

  grown : List ℕ
  grown = update_table s.conservative s.table idx s.depth value

  update-estimate_self : estimate_u64 s key + value ≤ estimate_u64 (update s key value) key
  unfolding update estimate_u64 idx grown
  update-estimate_self =
      let low = min_rows-le_cell s.table idx s.depth 0 u64_max 0 (omega arith) (omega arith) in
      le-min_rows grown idx s.depth 0 u64_max (min_rows s.table idx s.depth 0 u64_max + value)
        (omega (arith, low, sound.bounded (idx 0)))
        (λ r lo hi.
          update_table_row s.table idx s.depth value inj within sound.deep room s.conservative r
            (omega arith))

  update-estimate_any :
      (other : List ℕ) → estimate_u64 s other ≤ estimate_u64 (update s key value) other
  unfolding update estimate_u64 idx grown
  update-estimate_any other =
      let at = cell s.width (row_hashes s.hash other) in
      le-min_rows grown at s.depth 0 u64_max (min_rows s.table at s.depth 0 u64_max)
        (min_rows-le_acc s.table at s.depth 0 u64_max)
        (λ r lo hi. omega (
          arith,
          min_rows-le_cell s.table at s.depth 0 u64_max r lo hi,
          update_table-ge s.table idx s.depth value inj within sound.deep room s.conservative
              (at r),
        ))

  -- No estimate falls, and that of the key grows by the value at least.
  pub update-estimate :
      (other : List ℕ)
      → estimate_u64 s other + (if bytes_eq key other then value else 0)
        ≤ estimate_u64 (update s key value) other
  update-estimate other = elim (Bool-cases (bytes_eq key other)) [
    | inl same ↦ rw (same, ← eq_of_bytes_eq key other same) update-estimate_self
    | inr differs ↦ rw differs (omega (arith, update-estimate_any other))
  ]

-- A stream whose weight does not wrap keeps the sketch sound and every estimate grows at least by
-- the weight of its key.
run-IsSound :
    (stream : Stream) (s : CountMinSketch)
    → IsSound s
    → s.total_weight + total stream < 2 ^ 64
    → IsSound (run stream s) × ((run stream s).total_weight ≡ s.total_weight + total stream)
unfolding run total
run-IsSound [] s sound fits = (sound, omega arith)
run-IsSound ((k, v) ∷ rest) s sound fits =
    let here : s.total_weight + v < 2 ^ 64 = omega arith in
    let e = update_total s sound k v here in
    let (after, sum) =
      run-IsSound rest (update s k v) (update-IsSound s sound k v here) (omega (arith, e)) in
    (after, omega (arith, sum, e))

run_estimate :
    (stream : Stream) (s : CountMinSketch) (key : List ℕ)
    → IsSound s
    → s.total_weight + total stream < 2 ^ 64
    → estimate_u64 s key + truth key stream ≤ estimate_u64 (run stream s) key
unfolding run total truth
run_estimate [] s key sound fits = omega arith
run_estimate ((k, v) ∷ rest) s key sound fits =
    let here : s.total_weight + v < 2 ^ 64 = omega arith in
    omega (
      arith,
      update-estimate s sound k v here key,
      run_estimate rest (update s k v) key (update-IsSound s sound k v here)
          (omega (arith, update_total s sound k v here)),
    )

estimate-le_total :
    (s : CountMinSketch) (key : List ℕ) → IsSound s → estimate_u64 s key ≤ s.total_weight
unfolding estimate_u64
estimate-le_total s key sound =
    let idx = cell s.width (row_hashes s.hash key) in
    omega (
      arith,
      min_rows-le_cell s.table idx s.depth 0 u64_max 0 (omega arith) (omega arith),
      sound.bounded (idx 0),
    )

-- In both modes, for a stream whose total weight is below 2^64, the estimate of every key lies
-- between the key's true weight and the weight of the whole stream, which is also the recorded total.
pub estimate_bounds :
    (width depth : ℕ) (c : Bool) (hash : HashSpec) (stream : Stream) (key : List ℕ)
    {s : CountMinSketch}
    → new width depth c hash ≡ ok s
    → total stream < 2 ^ 64
    → (truth key stream ≤ estimate_u64 (run stream s) key)
      × (estimate_u64 (run stream s) key ≤ total stream)
      × ((run stream s).total_weight ≡ total stream)
estimate_bounds width depth c hash stream key {s} made fits =
    let (sound, zero_total) = new-IsSound width depth c hash made in
    let room : s.total_weight + total stream < 2 ^ 64 = omega (arith, zero_total) in
    let (after, sum) = run-IsSound stream s sound room in
    (
      omega (arith, run_estimate stream s key sound room),
      omega (arith, estimate-le_total (run stream s) key after, sum, zero_total),
      omega (arith, sum, zero_total),
    )
