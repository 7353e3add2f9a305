-- ===== src/Algos/CountMin/Rows.antt =====
-- What the row loops read and write: the cells of different rows are different, so each loop acts
-- once on each cell that it reaches.
use flowsketch.Base.{
  ℕ, zero, suc, ◌+◌, ◌*◌, ◌≤◌, ◌<◌, min, ◌≡◌, refl, List, Bool, true, false, ◌||◌, length, get_or,
  get_or-set, set, length-set, ◌==◌, if◌then◌else◌, arith, dec_lt, ℕ_discrete, ==_iff, Bool-cases,
  inl, inr,
}
use flowsketch.Core.Hash.Collisions.{index-lt}
use flowsketch.Core.Hash.{HashSpec, row_hashes, index}
use flowsketch.Algos.CountMin.{cell, min_rows, for_rows}

-- The cell of a key in a row lies inside the table.
pub cell-lt :
    (spec : HashSpec) (key : List ℕ) (width depth row : ℕ)
    → 0 < width
    → row < depth
    → cell width (row_hashes spec key) row < width * depth
unfolding cell
cell-lt spec key width depth row w r = let col = index-lt spec key row width w in grind arith

row_mono : (r q w a b : ℕ) → a < w → r < q → r * w + a < q * w + b
row_mono r q w a b h lt = grind arith

-- Different rows have different cells.
pub cell_injective :
    (spec : HashSpec) (key : List ℕ) (width : ℕ)
    → 0 < width
    → (r q : ℕ) → cell width (row_hashes spec key) r ≡ cell width (row_hashes spec key) q
    → r ≡ q
unfolding cell
cell_injective spec key width w r q e =
    let a = index (row_hashes spec key) r width in
    let b = index (row_hashes spec key) q width in
    elim (dec_lt r q) [
      | yes lt ↦ absurd (omega (arith, e, row_mono r q width a b (index-lt spec key r width w) lt))
      | no ge ↦ elim (dec_lt q r) [
        | yes gt ↦
            absurd (omega (arith, e, row_mono q r width b a (index-lt spec key q width w) gt))
        | no le ↦ omega arith
      ]
    ]

-- Some row from `row` on, of `n` rows, has its cell at `j`.
pub hits : (ℕ → ℕ) → ℕ → ℕ → ℕ → Bool
hits idx zero row j = false
hits idx (suc n) row j = idx row == j || hits idx n (row + 1) j

pub hits_row : (idx : ℕ → ℕ) (n row r : ℕ) → row ≤ r → r < row + n → hits idx n row (idx r) ≡ true
unfolding hits
hits_row idx zero row r lo hi = absurd (omega arith)
hits_row idx (suc n) row r lo hi = ground (arith, hits_row idx n (row + 1) r)

-- Rows above a row do not reach its cell.
misses_below :
    (idx : ℕ → ℕ)
    → ((r q : ℕ) → idx r ≡ idx q → r ≡ q)
    → (n row r : ℕ) → r < row
    → hits idx n row (idx r) ≡ false
unfolding hits
misses_below idx inj zero row r h = refl
misses_below idx inj (suc n) row r h = ground (arith, misses_below idx inj n (row + 1) r, inj row r)

pub length-for_rows :
    (f : ℕ → ℕ) (table : List ℕ) (idx : ℕ → ℕ) (n row : ℕ)
    → length (for_rows f table idx n row) ≡ length table
unfolding for_rows
length-for_rows f table idx zero row = refl
length-for_rows f table idx (suc n) row = omega (
  arith,
  length-for_rows f (set table (idx row) (f (get_or table (idx row) 0))) idx n (row + 1),
  length-set table (idx row) (f (get_or table (idx row) 0)),
)

-- A row loop applies its function once to each cell that it reaches, and to no other.
pub get_or-for_rows :
    (f : ℕ → ℕ) (idx : ℕ → ℕ)
    → ((r q : ℕ) → idx r ≡ idx q → r ≡ q)
    → (table : List ℕ) (n row j : ℕ) → ((r : ℕ) → r < row + n → idx r < length table)
    → get_or (for_rows f table idx n row) j 0
      ≡ (if hits idx n row j then f (get_or table j 0) else get_or table j 0)
unfolding for_rows hits
get_or-for_rows f idx inj table zero row j within = refl
get_or-for_rows f idx inj table (suc n) row j within =
    let v = f (get_or table (idx row) 0) in
    let t = set table (idx row) v in
    let there : idx row < length table = within row (omega arith) in
    let rest =
      get_or-for_rows f idx inj t n (row + 1) j
        (λ r h. omega (arith, length-set table (idx row) v, within r (omega arith))) in
    let now = get_or-set table (idx row) j v 0 there in
    let missed = misses_below idx inj n (row + 1) row (omega arith) in
    ground (arith, rest, now, missed)

-- A cell that is reached belongs to one of the rows.
pub hits_inv :
    (idx : ℕ → ℕ) (n row j : ℕ)
    → hits idx n row j ≡ true
    → (r : ℕ) × (row ≤ r) × (r < row + n) × (idx r ≡ j)
unfolding hits
hits_inv idx zero row j h = absurd (cc)
hits_inv idx (suc n) row j h = elim (Bool-cases (idx row == j)) [
  | inl e ↦ (row, omega arith, omega arith, (==_iff (idx row) j).0 e)
  | inr ne ↦
      let (r, lo, hi, e) = hits_inv idx n (row + 1) j (ground arith) in
      (r, omega arith, omega arith, e)
]

module _ (table : List ℕ) (idx : ℕ → ℕ) where
  pub min_rows-le_acc : (n row acc : ℕ) → min_rows table idx n row acc ≤ acc
  unfolding min_rows
  min_rows-le_acc zero row acc = omega arith
  min_rows-le_acc (suc n) row acc =
      omega (arith, min_rows-le_acc n (row + 1) (min acc (get_or table (idx row) 0)))

  -- The minimum is at most the cell of every row that it visits.
  pub min_rows-le_cell :
      (n row acc r : ℕ)
      → row ≤ r
      → r < row + n
      → min_rows table idx n row acc ≤ get_or table (idx r) 0
  unfolding min_rows
  min_rows-le_cell zero row acc r lo hi = absurd (omega arith)
  min_rows-le_cell (suc n) row acc r lo hi =
      let next = min acc (get_or table (idx row) 0) in
      elim (ℕ_discrete row r) [
        | yes e ↦ rw (← e) (omega (arith, min_rows-le_acc n (row + 1) next))
        | no ne ↦ min_rows-le_cell n (row + 1) next r (omega arith) (omega arith)
      ]

  -- It is the greatest such bound.
  pub le-min_rows :
      (n row acc m : ℕ)
      → m ≤ acc
      → ((r : ℕ) → row ≤ r → r < row + n → m ≤ get_or table (idx r) 0)
      → m ≤ min_rows table idx n row acc
  unfolding min_rows
  le-min_rows zero row acc m h all = h
  le-min_rows (suc n) row acc m h all =
      le-min_rows n (row + 1) (min acc (get_or table (idx row) 0)) m
        (omega (arith, all row (omega arith) (omega arith)))
        (λ r lo hi. all r (omega arith) (omega arith))
