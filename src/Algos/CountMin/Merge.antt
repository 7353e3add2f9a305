-- ===== src/Algos/CountMin/Merge.antt =====
-- Merging plain sketches is reading the streams one after the other, wrap-around included.
use flowsketch.Base.Word.{add64}
use flowsketch.Base.{
  ℕ, zero, suc, ◌+◌, ◌*◌, ◌^◌, ◌<◌, ◌≡◌, refl, sym, ap, ap₂, List, [], ◌∷◌, ◌++◌, false, length,
  get_or, set, arith, length-replicate, get_or-replicate, replicate, ◌∙◌, length-set,
}
use flowsketch.Core.Error.{ok}
use flowsketch.Core.Hash.{HashSpec, row_hashes}
use flowsketch.Core.Sketch.{ensure_matches_refl}
use flowsketch.Algos.CountMin.Rows.{length-for_rows}
use flowsketch.Algos.Truth.{Stream}
use flowsketch.Algos.CountMin.{
  CountMinSketch, new, cell, for_rows, update_table, update, run, add_tables, merge_from,
  compatibility, params_hash,
}

-- Every counter is a 64-bit word.
abbrev AreWords : List ℕ → Type 0
AreWords t = (j : ℕ) → get_or t j 0 < 2 ^ 64

set-AreWords : (t : List ℕ) (i v : ℕ) → AreWords t → v < 2 ^ 64 → AreWords (set t i v)
set-AreWords [] i v h lt j = h j
set-AreWords (x ∷ xs) zero v h lt zero = lt
set-AreWords (x ∷ xs) zero v h lt (suc j) = h (suc j)
set-AreWords (x ∷ xs) (suc i) v h lt zero = h zero
set-AreWords (x ∷ xs) (suc i) v h lt (suc j) = set-AreWords xs i v (λ k. h (suc k)) lt j

module _ (value : ℕ) (idx : ℕ → ℕ) where
  add_value : ℕ → ℕ
  add_value c = add64 c value

  for_rows-AreWords :
      (t : List ℕ) (n row : ℕ) → AreWords t → AreWords (for_rows add_value t idx n row)
  unfolding for_rows add_value
  for_rows-AreWords t zero row h = h
  for_rows-AreWords t (suc n) row h =
      for_rows-AreWords (set t (idx row) (add_value (get_or t (idx row) 0))) n (row + 1)
        (set-AreWords t (idx row) (add_value (get_or t (idx row) 0)) h (omega arith))

  add_tables-set :
      (t u : List ℕ) (i : ℕ)
      → length t ≡ length u
      → add_tables t (set u i (add_value (get_or u i 0)))
        ≡ set (add_tables t u) i (add_value (get_or (add_tables t u) i 0))
  unfolding add_tables add_value
  add_tables-set [] u i e = refl
  add_tables-set (x ∷ xs) [] i e = absurd (omega arith)
  add_tables-set (x ∷ xs) (y ∷ ys) zero e = ap (λ z. z ∷ add_tables xs ys) (omega arith)
  add_tables-set (x ∷ xs) (y ∷ ys) (suc i) e =
      ap (λ zs. add64 x y ∷ zs) (add_tables-set xs ys i (omega arith))

  -- Adding to the rows of one summand is adding to the rows of the sum.
  add_tables-for_rows :
      (t u : List ℕ) (n row : ℕ)
      → length t ≡ length u
      → add_tables t (for_rows add_value u idx n row)
        ≡ for_rows add_value (add_tables t u) idx n row
  unfolding for_rows
  add_tables-for_rows t u zero row e = refl
  add_tables-for_rows t u (suc n) row e =
      add_tables-for_rows t (set u (idx row) (add_value (get_or u (idx row) 0))) n (row + 1)
        (e ∙ sym (length-set u (idx row) (add_value (get_or u (idx row) 0))))
      ∙ ap (λ w. for_rows add_value w idx n (row + 1)) (add_tables-set t u (idx row) e)

add_tables-zeros : (t : List ℕ) → AreWords t → add_tables t (replicate (length t) 0) ≡ t
unfolding add_tables
add_tables-zeros [] h = refl
add_tables-zeros (x ∷ xs) h = ap₂ ◌∷◌ (omega (arith, h zero)) (add_tables-zeros xs (λ j. h (suc j)))

-- The state after a merge that is accepted.
merged : CountMinSketch → CountMinSketch → CountMinSketch
merged s other = record s {
  table = add_tables s.table other.table;
  total_weight = add64 s.total_weight other.total_weight;
  updates = add64 s.updates other.updates;
}

-- Two plain sketches of one configuration.
record Twins (s t : CountMinSketch) : Type 0 where
  width : s.width ≡ t.width
  depth : s.depth ≡ t.depth
  hash : s.hash ≡ t.hash
  plain_left : s.conservative ≡ false
  plain_right : t.conservative ≡ false
  shape : length s.table ≡ length t.table

compatibility-Twins : {s t : CountMinSketch} → Twins s t → compatibility s ≡ compatibility t
unfolding compatibility params_hash
compatibility-Twins {s} {t} w = rw (w.width, w.depth, w.hash, w.plain_left, w.plain_right)

merge_from-Twins : {s t : CountMinSketch} → Twins s t → merge_from s t ≡ ok (merged s t)
unfolding merge_from merged
merge_from-Twins {s} {t} w = rw (compatibility-Twins w, ensure_matches_refl (compatibility t))

update-Twins :
    {s t : CountMinSketch} (key : List ℕ) (value : ℕ) → Twins s t → Twins s (update t key value)
unfolding update update_table
update-Twins {s} {t} key value w = record {
  width = w.width;
  depth = w.depth;
  hash = w.hash;
  plain_left = w.plain_left;
  plain_right = w.plain_right;
  shape = rw w.plain_right (
      w.shape
      ∙ sym (
          length-for_rows (λ c. add64 c value) t.table (cell t.width (row_hashes t.hash key))
            t.depth 0));
}

merged-update :
    {s t : CountMinSketch} (key : List ℕ) (value : ℕ)
    → Twins s t
    → merged s (update t key value) ≡ update (merged s t) key value
unfolding merged update update_table add_value
merged-update {s} {t} key value w =
    λ i. record s { table = tables i; total_weight = weights i; updates = counts i }
  where
    idx : ℕ → ℕ
    idx = cell t.width (row_hashes t.hash key)

    tables :
        add_tables s.table (update_table t.conservative t.table idx t.depth value)
        ≡ update_table s.conservative
            (add_tables s.table t.table)
            (cell s.width (row_hashes s.hash key))
            s.depth
            value
    tables =
        rw (w.plain_left, w.plain_right, w.width, w.hash, w.depth)
          (add_tables-for_rows value idx s.table t.table t.depth 0 w.shape)

    weights :
        add64 s.total_weight (add64 t.total_weight value)
        ≡ add64 (add64 s.total_weight t.total_weight) value
    weights = omega arith

    counts : add64 s.updates (add64 t.updates 1) ≡ add64 (add64 s.updates t.updates) 1
    counts = omega arith

merged-run :
    (stream : Stream) (s t : CountMinSketch)
    → Twins s t
    → (Twins s (run stream t)) × (merged s (run stream t) ≡ run stream (merged s t))
unfolding run
merged-run [] s t w = (w, refl)
merged-run ((k, v) ∷ rest) s t w =
    let (twins, e) = merged-run rest s (update t k v) (update-Twins k v w) in
    (twins, e ∙ ap (run rest) (merged-update k v w))

-- The counters of a sketch are words, and it has the shape of the sketch that it grew from.
record IsWords (fresh s : CountMinSketch) : Type 0 where
  twins : Twins s fresh
  words : AreWords s.table
  weight : s.total_weight < 2 ^ 64
  count : s.updates < 2 ^ 64

update-IsWords :
    {fresh s : CountMinSketch} (key : List ℕ) (value : ℕ)
    → IsWords fresh s
    → IsWords fresh (update s key value)
unfolding update update_table
update-IsWords {fresh} {s} key value w = record {
  twins = record {
    width = w.twins.width;
    depth = w.twins.depth;
    hash = w.twins.hash;
    plain_left = w.twins.plain_left;
    plain_right = w.twins.plain_right;
    shape =
        rw w.twins.plain_left
          (length-for_rows (λ c. add64 c value) s.table idx s.depth 0 ∙ w.twins.shape);
  };
  words =
      rw w.twins.plain_left
        (unfold add_value in for_rows-AreWords value idx s.table s.depth 0 w.words);
  weight = omega arith;
  count = omega arith;
}
  where
    idx : ℕ → ℕ
    idx = cell s.width (row_hashes s.hash key)

run-IsWords :
    (stream : Stream) (fresh s : CountMinSketch) → IsWords fresh s → IsWords fresh (run stream s)
unfolding run
run-IsWords [] fresh s w = w
run-IsWords ((k, v) ∷ rest) fresh s w = run-IsWords rest fresh (update s k v) (update-IsWords k v w)

-- A sketch that has read nothing.
record IsFresh (s : CountMinSketch) : Type 0 where
  plain : s.conservative ≡ false
  empty : s.table ≡ replicate (length s.table) 0
  weightless : s.total_weight ≡ 0
  unused : s.updates ≡ 0

new-IsFresh :
    (width depth : ℕ) (hash : HashSpec) {s : CountMinSketch}
    → new width depth false hash ≡ ok s
    → IsFresh s
unfolding new
new-IsFresh width depth hash made = record {
  plain = ground arith;
  empty = ground (arith, length-replicate (width * depth) zero);
  weightless = ground arith;
  unused = ground arith;
}

fresh-IsWords : (s : CountMinSketch) → IsFresh s → IsWords s s
fresh-IsWords s f = record {
  twins = record {
    width = refl;
    depth = refl;
    hash = refl;
    plain_left = f.plain;
    plain_right = f.plain;
    shape = refl;
  };
  words =
      λ j. omega (arith, ap (λ t. get_or t j 0) f.empty, get_or-replicate (length s.table) j zero);
  weight = omega (arith, f.weightless);
  count = omega (arith, f.unused);
}

merged-fresh : {fresh s : CountMinSketch} → IsFresh fresh → IsWords fresh s → merged s fresh ≡ s
unfolding merged
merged-fresh {fresh} {s} f w =
    λ i. record s { table = tables i; total_weight = weights i; updates = counts i }
  where
    tables : add_tables s.table fresh.table ≡ s.table
    tables =
        ap (add_tables s.table) (f.empty ∙ ap (λ n. replicate n 0) (sym w.twins.shape))
        ∙ add_tables-zeros s.table w.words

    weights : add64 s.total_weight fresh.total_weight ≡ s.total_weight
    weights = omega (arith, f.weightless, w.weight)

    counts : add64 s.updates fresh.updates ≡ s.updates
    counts = omega (arith, f.unused, w.count)

run-append : (xs ys : Stream) (s : CountMinSketch) → run (xs ++ ys) s ≡ run ys (run xs s)
unfolding run
run-append [] ys s = refl
run-append ((k, v) ∷ xs) ys s = run-append xs ys (update s k v)

-- If two plain sketches with one configuration have read the streams `xs` and `ys`, merging the
-- second into the first succeeds, and gives the very state of one sketch that has read `xs` and
-- then `ys`, also where counters wrap.
pub merge_from-run :
    (width depth : ℕ) (hash : HashSpec) (xs ys : Stream) {s : CountMinSketch}
    → new width depth false hash ≡ ok s
    → merge_from (run xs s) (run ys s) ≡ ok (run (xs ++ ys) s)
merge_from-run width depth hash xs ys {s} made =
    let fresh = new-IsFresh width depth hash made in
    let read = run-IsWords xs s s (fresh-IsWords s fresh) in
    let (twins, e) = merged-run ys (run xs s) s read.twins in
    merge_from-Twins twins
    ∙ ap ok (e ∙ ap (run ys) (merged-fresh fresh read) ∙ sym (run-append xs ys s))
