-- ===== src/Algos/CountSketch/Linear.antt =====
-- The sketch is linear in its stream: updates commute, cancel, and add up under a merge.
use mathlib.Core.Path.{subst}
use flowsketch.Base.Int.{pos, negsuc}
use flowsketch.Base.Word.{add64}
use flowsketch.Base.{
  Bool, ℕ, zero, suc, ◌+◌, ◌*◌, ◌%◌, ◌^◌, ◌<◌, ◌≡◌, refl, sym, ap, ap₂, ◌∙◌, List, [], ◌∷◌, ◌++◌,
  length, length-set, length-append, length-replicate, replicate, get_or, arith, true, false,
  if◌then◌else◌,
}
use flowsketch.Core.Error.{ok}
use flowsketch.Core.Hash.{HashSpec, RowHashes, row_hashes, sign}
use flowsketch.Core.Sketch.{ensure_matches_refl}
use flowsketch.Algos.Truth.{Stream}
use flowsketch.Algos.CountSketch.{
  CountSketch, new, neg64, times, cell, bump, update_rows, update_signed, params_hash,
  compatibility, add_tables, merge_from,
}

bump-cons : (x : ℕ) (xs : List ℕ) (i v : ℕ) → bump (x ∷ xs) (suc i) v ≡ x ∷ bump xs i v
unfolding bump
bump-cons x xs i v = refl

bump-zero : (x : ℕ) (xs : List ℕ) (v : ℕ) → bump (x ∷ xs) 0 v ≡ add64 x v ∷ xs
unfolding bump
bump-zero x xs v = refl

bump-nil : (i v : ℕ) → bump [] i v ≡ []
unfolding bump
bump-nil i v = refl

length-bump : (xs : List ℕ) (i v : ℕ) → length (bump xs i v) ≡ length xs
unfolding bump
length-bump xs i v = length-set xs i (add64 (get_or xs i 0) v)

bump_comm : (xs : List ℕ) (i j v w : ℕ) → bump (bump xs i v) j w ≡ bump (bump xs j w) i v
unfolding bump
bump_comm [] i j v w = refl
bump_comm (x ∷ xs) zero zero v w = ap (λ y. y ∷ xs) (omega arith)
bump_comm (x ∷ xs) zero (suc j) v w = refl
bump_comm (x ∷ xs) (suc i) zero v w = refl
bump_comm (x ∷ xs) (suc i) (suc j) v w = ap (λ ys. x ∷ ys) (bump_comm xs i j v w)

-- Every counter is a word.
abbrev pub AreWords : List ℕ → Type 0
AreWords [] = Unit
AreWords (x ∷ xs) = (x < 2 ^ 64) × AreWords xs

bump-AreWords : (xs : List ℕ) (i v : ℕ) → AreWords xs → AreWords (bump xs i v)
unfolding bump
bump-AreWords [] i v w = tt
bump-AreWords (x ∷ xs) zero v (wx, w) = (omega arith, w)
bump-AreWords (x ∷ xs) (suc i) v (wx, w) = (wx, bump-AreWords xs i v w)

-- A bump and its opposite.
bump_cancel :
    (xs : List ℕ) (i v w : ℕ) → (v + w) % 2 ^ 64 ≡ 0 → AreWords xs → bump (bump xs i v) i w ≡ xs
unfolding bump
bump_cancel [] i v w e words = refl
bump_cancel (x ∷ xs) zero v w e (wx, words) = ap (λ y. y ∷ xs) (omega arith)
bump_cancel (x ∷ xs) (suc i) v w e (wx, words) = ap (λ ys. x ∷ ys) (bump_cancel xs i v w e words)

add_tables-bump :
    (xs ys : List ℕ) (i v : ℕ)
    → length xs ≡ length ys
    → add_tables xs (bump ys i v) ≡ bump (add_tables xs ys) i v
unfolding add_tables bump
add_tables-bump [] [] i v e = refl
add_tables-bump [] (y ∷ ys) i v e = absurd (omega (arith, e))
add_tables-bump (x ∷ xs) [] i v e = absurd (omega (arith, e))
add_tables-bump (x ∷ xs) (y ∷ ys) zero v e = ap (λ z. z ∷ add_tables xs ys) (omega arith)
add_tables-bump (x ∷ xs) (y ∷ ys) (suc i) v e =
    ap (λ zs. add64 x y ∷ zs) (add_tables-bump xs ys i v (omega (arith, e)))

add_tables-zeros : (xs : List ℕ) → AreWords xs → add_tables xs (replicate (length xs) 0) ≡ xs
unfolding add_tables
add_tables-zeros [] w = refl
add_tables-zeros (x ∷ xs) (wx, w) = ap₂ ◌∷◌ (omega arith) (add_tables-zeros xs w)

opposite :
    (positive : Bool) (v : ℕ)
    → v < 2 ^ 64
    → (times (if positive then pos 1 else negsuc 0) v
          + times (if positive then pos 1 else negsuc 0) (neg64 v))
        % 2 ^ 64
      ≡ 0
unfolding times neg64
opposite true v h = omega arith
opposite false v h = omega arith

times-opposite :
    (rh : RowHashes) (row v : ℕ)
    → v < 2 ^ 64
    → (times (sign rh row) v + times (sign rh row) (neg64 v)) % 2 ^ 64 ≡ 0
unfolding sign
times-opposite rh row v h = opposite _ v h

module _ (width : ℕ) (rh : RowHashes) where
  length-update_rows :
      (t : List ℕ) (n row v : ℕ) → length (update_rows width rh t n row v) ≡ length t
  unfolding update_rows
  length-update_rows t zero row v = refl
  length-update_rows t (suc n) row v =
      length-update_rows (bump t (cell width rh row) (times (sign rh row) v)) n (row + 1) v
      ∙ length-bump t (cell width rh row) (times (sign rh row) v)

  update_rows-AreWords :
      (t : List ℕ) (n row v : ℕ) → AreWords t → AreWords (update_rows width rh t n row v)
  unfolding update_rows
  update_rows-AreWords t zero row v w = w
  update_rows-AreWords t (suc n) row v w =
      update_rows-AreWords (bump t (cell width rh row) (times (sign rh row) v)) n (row + 1) v
        (bump-AreWords t (cell width rh row) (times (sign rh row) v) w)

  update_rows-bump :
      (t : List ℕ) (n row v i w : ℕ)
      → update_rows width rh (bump t i w) n row v ≡ bump (update_rows width rh t n row v) i w
  unfolding update_rows
  update_rows-bump t zero row v i w = refl
  update_rows-bump t (suc n) row v i w =
      ap (λ t. update_rows width rh t n (row + 1) v)
        (bump_comm t i (cell width rh row) w (times (sign rh row) v))
      ∙ update_rows-bump (bump t (cell width rh row) (times (sign rh row) v)) n (row + 1) v i w

  update_rows_cancel :
      (t : List ℕ) (n row v : ℕ)
      → v < 2 ^ 64
      → AreWords t
      → update_rows width rh (update_rows width rh t n row v) n row (neg64 v) ≡ t
  unfolding update_rows
  update_rows_cancel t zero row v h w = refl
  update_rows_cancel t (suc n) row v h w =
      let i = cell width rh row in
      let a = times (sign rh row) v in
      let b = times (sign rh row) (neg64 v) in
      ap (λ t. update_rows width rh t n (row + 1) (neg64 v))
        (sym (update_rows-bump (bump t i a) n (row + 1) v i b))
      ∙ ap (λ t. update_rows width rh (update_rows width rh t n (row + 1) v) n (row + 1) (neg64 v))
          (bump_cancel t i a b (times-opposite rh row v h) w)
      ∙ update_rows_cancel t n (row + 1) v h w

  add_tables-update_rows :
      (x t : List ℕ) (n row v : ℕ)
      → length x ≡ length t
      → add_tables x (update_rows width rh t n row v)
        ≡ update_rows width rh (add_tables x t) n row v
  unfolding update_rows
  add_tables-update_rows x t zero row v e = refl
  add_tables-update_rows x t (suc n) row v e =
      add_tables-update_rows x (bump t (cell width rh row) (times (sign rh row) v)) n (row + 1) v
        (e ∙ sym (length-bump t (cell width rh row) (times (sign rh row) v)))
      ∙ ap (λ t. update_rows width rh t n (row + 1) v)
          (add_tables-bump x t (cell width rh row) (times (sign rh row) v) e)

-- A sketch after a stream of signed updates, oldest first.
abbrev pub run : CountSketch → Stream → CountSketch
run s [] = s
run s ((key, v) ∷ rest) = run (update_signed s key v) rest

-- What keeps still, and how the table and the number of updates stand.
record Reads (s r : CountSketch) (count : ℕ) : Type 0 where
  width : r.width ≡ s.width
  depth : r.depth ≡ s.depth
  hash : r.hash ≡ s.hash
  shape : length r.table ≡ length s.table
  words : AreWords r.table
  updates : r.updates ≡ add64 s.updates count

run-Reads :
    (s : CountSketch) (xs : Stream)
    → AreWords s.table
    → s.updates < 2 ^ 64
    → Reads s (run s xs) (length xs)
unfolding update_signed
run-Reads s [] w h = record {
  width = refl;
  depth = refl;
  hash = refl;
  shape = refl;
  words = w;
  updates = omega arith;
}
run-Reads s ((key, v) ∷ rest) w h =
    let later =
      run-Reads (update_signed s key v) rest
        (update_rows-AreWords s.width (row_hashes s.hash key) s.table s.depth 0 v w)
        (omega arith) in
    record {
      width = later.width;
      depth = later.depth;
      hash = later.hash;
      shape = later.shape ∙ length-update_rows s.width (row_hashes s.hash key) s.table s.depth 0 v;
      words = later.words;
      updates = omega (arith, later.updates);
    }

-- A table added to what a stream makes of another.
run-add_tables :
    (s : CountSketch) (x : List ℕ) (ys : Stream)
    → length x ≡ length s.table
    → add_tables x (run s ys).table ≡ (run (record s { table = add_tables x s.table }) ys).table
unfolding update_signed
run-add_tables s x [] e = refl
run-add_tables s x ((key, v) ∷ rest) e =
    let rh = row_hashes s.hash key in
    run-add_tables (update_signed s key v) x rest
      (e ∙ sym (length-update_rows s.width rh s.table s.depth 0 v))
    ∙ ap (λ t. (run (record s { table = t; updates = add64 s.updates 1 }) rest).table)
        (add_tables-update_rows s.width rh x s.table s.depth 0 v e)

-- The table of a run does not read the number of updates.
run-table :
    (s r : CountSketch) (ys : Stream)
    → r.width ≡ s.width
    → r.depth ≡ s.depth
    → r.hash ≡ s.hash
    → r.table ≡ s.table
    → (run r ys).table ≡ (run s ys).table
unfolding update_signed
run-table s r [] w d h t = t
run-table s r ((key, v) ∷ rest) w d h t =
    run-table (update_signed s key v) (update_signed r key v) rest w d h (rw (w, d, h, t) refl)

run-append : (s : CountSketch) (xs ys : Stream) → run s (xs ++ ys) ≡ run (run s xs) ys
run-append s [] ys = refl
run-append s ((key, v) ∷ xs) ys = run-append (update_signed s key v) xs ys

record IsFresh (s : CountSketch) : Type 0 where
  table : s.table ≡ replicate (length s.table) 0
  updates : s.updates ≡ 0

new-IsFresh :
    (width depth : ℕ) (hash : HashSpec) (s : CountSketch) → new width depth hash ≡ ok s → IsFresh s
unfolding new
new-IsFresh width depth hash s made = record {
  table = ground (arith, length-replicate (width * depth) zero);
  updates = ground arith;
}

compatible :
    {s r t : CountSketch} {n m : ℕ} → Reads s r n → Reads s t m → compatibility r ≡ compatibility t
unfolding compatibility params_hash
compatible x y = rw (x.width, x.depth, x.hash, y.width, y.depth, y.hash) refl

zeros-AreWords : (n : ℕ) → AreWords (replicate n 0)
zeros-AreWords zero = tt
zeros-AreWords (suc n) = (omega arith, zeros-AreWords n)

module _ (width depth : ℕ) (hash : HashSpec) (s : CountSketch)
    (made : new width depth hash ≡ ok s) where
  fresh-words : AreWords s.table
  fresh-words =
      subst AreWords (sym (new-IsFresh width depth hash s made).table)
        (zeros-AreWords (length s.table))

  fresh-count : s.updates < 2 ^ 64
  fresh-count = omega (arith, (new-IsFresh width depth hash s made).updates)

  -- A signed update and its opposite cancel: from a new sketch and any stream, an update by a word and then by
  -- its negation leave the table as it was.
  pub update_signed_cancel :
      (xs : Stream) (key : List ℕ) (v : ℕ)
      → v < 2 ^ 64
      → (update_signed (update_signed (run s xs) key v) key (neg64 v)).table ≡ (run s xs).table
  unfolding update_signed
  update_signed_cancel xs key v h =
      let r = run s xs in
      update_rows_cancel r.width (row_hashes r.hash key) r.table r.depth 0 v h
        (run-Reads s xs fresh-words fresh-count).words

  -- Merging two sketches of two streams, made alike, succeeds with the table and the number of updates of one
  -- sketch that has read both streams, also where counters wrap.
  pub merge_from-linear :
      (xs ys : Stream)
      → (r : CountSketch) × (merge_from (run s xs) (run s ys) ≡ ok r)
        × (r.table ≡ (run s (xs ++ ys)).table)
        × (r.updates ≡ (run s (xs ++ ys)).updates)
  unfolding merge_from
  merge_from-linear xs ys =
      let fresh = new-IsFresh width depth hash s made in
      let left = run-Reads s xs fresh-words fresh-count in
      let right = run-Reads s ys fresh-words fresh-count in
      let both = run-Reads s (xs ++ ys) fresh-words fresh-count in
      let start : add_tables (run s xs).table s.table ≡ (run s xs).table =
        ap (add_tables (run s xs).table) (fresh.table ∙ ap (λ n. replicate n 0) (sym left.shape))
        ∙ add_tables-zeros (run s xs).table left.words in
      (
        record (run s xs) {
          table = add_tables (run s xs).table (run s ys).table;
          updates = add64 (run s xs).updates (run s ys).updates;
        },
        rw (compatible left right, ensure_matches_refl (compatibility (run s ys))) refl,
        run-add_tables s (run s xs).table ys left.shape
            ∙ run-table (run s xs) (record s { table = add_tables (run s xs).table s.table }) ys
                (sym left.width) (sym left.depth) (sym left.hash) start
            ∙ ap (λ r. r.table) (sym (run-append s xs ys)),
        omega (arith, left.updates, right.updates, both.updates, length-append xs ys),
      )
