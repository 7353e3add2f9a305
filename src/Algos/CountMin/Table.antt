-- ===== src/Algos/CountMin/Table.antt =====
-- One update of the table, in both modes: no cell falls, no cell gains more than the value, and
-- every cell of the key ends at least the value above the key's old estimate.
use flowsketch.Base.Word.{u64_max, add64}
use flowsketch.Base.{
  ℕ, ◌+◌, ◌^◌, ◌≤◌, ◌<◌, ◌≡◌, List, Bool, true, false, length, get_or, if◌then◌else◌, arith,
  Bool-cases, inl, inr,
}
use flowsketch.Algos.CountMin.Rows.{
  hits, hits_inv, hits_row, get_or-for_rows, length-for_rows, min_rows-le_cell,
}
use flowsketch.Algos.CountMin.{min_rows, raise_to, update_table}

module _ (table : List ℕ) (idx : ℕ → ℕ) (depth value : ℕ) (inj : (r q : ℕ) → idx r ≡ idx q → r ≡ q)
    (within : (r : ℕ) → r < depth → idx r < length table) (pos : 0 < depth)
    (fits : (j : ℕ) → get_or table j 0 + value < 2 ^ 64) where
  least : ℕ
  least = min_rows table idx depth 0 u64_max

  inside : (r : ℕ) → r < 0 + depth → idx r < length table
  inside r h = within r (omega arith)

  least-le : (r : ℕ) → r < depth → least ≤ get_or table (idx r) 0
  unfolding least
  least-le r h = min_rows-le_cell table idx depth 0 u64_max r (omega arith) (omega arith)

  -- The sum that conservative mode raises the cells to does not wrap.
  target_lem : add64 least value ≡ least + value
  target_lem = omega (arith, least-le 0 pos, fits (idx 0))

  pub length-update_table :
      (c : Bool) → length (update_table c table idx depth value) ≡ length table
  unfolding update_table
  length-update_table true =
      length-for_rows (raise_to (add64 (min_rows table idx depth 0 u64_max) value)) table idx depth
        0
  length-update_table false = length-for_rows (λ x. add64 x value) table idx depth 0

  -- A cell of the conservative table.
  raised :
      (j : ℕ)
      → get_or (update_table true table idx depth value) j 0 ≡ (
          if hits idx depth 0 j
          then raise_to (least + value) (get_or table j 0)
          else get_or table j 0)
  unfolding update_table least
  raised j =
      rw (get_or-for_rows (raise_to (add64 least value)) idx inj table depth 0 j inside, target_lem)

  -- A cell of the plain table.
  pub added :
      (j : ℕ)
      → get_or (update_table false table idx depth value) j 0
        ≡ (if hits idx depth 0 j then get_or table j 0 + value else get_or table j 0)
  unfolding update_table
  added j =
      ground (arith, get_or-for_rows (λ c. add64 c value) idx inj table depth 0 j inside, fits j)

  pub update_table-ge :
      (c : Bool) (j : ℕ) → get_or table j 0 ≤ get_or (update_table c table idx depth value) j 0
  unfolding raise_to
  update_table-ge true j = ground (arith, raised j)
  update_table-ge false j = ground (arith, added j)

  -- A cell of the conservative table gains at most the value, and only where it is reached.
  pub raised-le :
      (j : ℕ)
      → get_or (update_table true table idx depth value) j 0
        ≤ (if hits idx depth 0 j then get_or table j 0 + value else get_or table j 0)
  unfolding raise_to
  raised-le j = elim (Bool-cases (hits idx depth 0 j)) [
    | inl h ↦
        let (r, lo, hi, e) = hits_inv idx depth 0 j h in
        let low : least ≤ get_or table j 0 = rw (← e) (least-le r (omega arith)) in
        ground (arith, raised j, low)
    | inr h ↦ ground (arith, raised j)
  ]

  pub update_table-le :
      (c : Bool) (j : ℕ)
      → get_or (update_table c table idx depth value) j 0 ≤ get_or table j 0 + value
  update_table-le true j = ground (arith, raised-le j)
  update_table-le false j = ground (arith, added j)

  pub update_table_row :
      (c : Bool) (r : ℕ)
      → r < depth
      → min_rows table idx depth 0 u64_max + value
        ≤ get_or (update_table c table idx depth value) (idx r) 0
  unfolding raise_to least
  update_table_row true r h = ground (arith, raised (idx r), hits_row idx depth 0 r)
  update_table_row false r h = ground (arith, added (idx r), hits_row idx depth 0 r, least-le r h)
