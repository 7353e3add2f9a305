-- ===== src/Algos/MisraGries/Sorted.antt =====
-- The order statistic that the trim uses: below the i-th smallest counter stand i of them.
use flowsketch.Base.{
  ℕ, zero, suc, ◌+◌, ◌≤◌, ◌<◌, ◌≡◌, refl, List, [], ◌∷◌, length, get_or, ltb, if◌then◌else◌, arith,
}
use flowsketch.Algos.Counters.Laws.{count_ge, count_le}
use flowsketch.Algos.Counters.{Counters}
use flowsketch.Algos.MisraGries.{insert_sorted, sort_values}

ge_of : ℕ → List ℕ → ℕ
ge_of d [] = 0
ge_of d (x ∷ xs) = (if ltb x d then 0 else 1) + ge_of d xs

le_of : ℕ → List ℕ → ℕ
le_of d [] = 0
le_of d (x ∷ xs) = (if ltb d x then 0 else 1) + le_of d xs

abbrev From : ℕ → List ℕ → Type 0
From x [] = Unit
From x (y ∷ ys) = (x ≤ y) × From x ys

abbrev IsSorted : List ℕ → Type 0
IsSorted [] = Unit
IsSorted (x ∷ xs) = From x xs × IsSorted xs

ge_of-insert_sorted :
    (d x : ℕ) (ys : List ℕ) → ge_of d (insert_sorted x ys) ≡ (if ltb x d then 0 else 1) + ge_of d ys
unfolding ge_of insert_sorted
ge_of-insert_sorted d x [] = refl
ge_of-insert_sorted d x (y ∷ ys) = ground (arith, ge_of-insert_sorted d x ys)

le_of-insert_sorted :
    (d x : ℕ) (ys : List ℕ) → le_of d (insert_sorted x ys) ≡ (if ltb d x then 0 else 1) + le_of d ys
unfolding le_of insert_sorted
le_of-insert_sorted d x [] = refl
le_of-insert_sorted d x (y ∷ ys) = ground (arith, le_of-insert_sorted d x ys)

length-insert_sorted : (x : ℕ) (ys : List ℕ) → length (insert_sorted x ys) ≡ suc (length ys)
unfolding insert_sorted
length-insert_sorted x [] = refl
length-insert_sorted x (y ∷ ys) = ground (arith, length-insert_sorted x ys)

From-trans : (x y : ℕ) (zs : List ℕ) → x ≤ y → From y zs → From x zs
From-trans x y [] h f = tt
From-trans x y (z ∷ zs) h f = (omega arith, From-trans x y zs h f.1)

From-insert_sorted : (m x : ℕ) (ys : List ℕ) → m ≤ x → From m ys → From m (insert_sorted x ys)
unfolding insert_sorted
From-insert_sorted m x [] h f = (h, tt)
From-insert_sorted m x (y ∷ ys) h f = ground (arith, From-insert_sorted m x ys)

insert_sorted-IsSorted : (x : ℕ) (ys : List ℕ) → IsSorted ys → IsSorted (insert_sorted x ys)
unfolding insert_sorted
insert_sorted-IsSorted x [] s = (tt, tt)
insert_sorted-IsSorted x (y ∷ ys) s =
    ground (arith, insert_sorted-IsSorted x ys, From-insert_sorted y x ys, From-trans x y ys)

sort_values-IsSorted : (cs : Counters) → IsSorted (sort_values cs)
unfolding sort_values
sort_values-IsSorted [] = tt
sort_values-IsSorted ((k, c) ∷ cs) =
    insert_sorted-IsSorted c (sort_values cs) (sort_values-IsSorted cs)

length-sort_values : (cs : Counters) → length (sort_values cs) ≡ length cs
unfolding sort_values
length-sort_values [] = refl
length-sort_values ((k, c) ∷ cs) =
    omega (arith, length-insert_sorted c (sort_values cs), length-sort_values cs)

ge_of-sort_values : (d : ℕ) (cs : Counters) → ge_of d (sort_values cs) ≡ count_ge d cs
unfolding sort_values ge_of count_ge
ge_of-sort_values d [] = refl
ge_of-sort_values d ((k, c) ∷ cs) =
    omega (arith, ge_of-insert_sorted d c (sort_values cs), ge_of-sort_values d cs)

le_of-sort_values : (d : ℕ) (cs : Counters) → le_of d (sort_values cs) ≡ count_le d cs
unfolding sort_values le_of count_le
le_of-sort_values d [] = refl
le_of-sort_values d ((k, c) ∷ cs) =
    omega (arith, le_of-insert_sorted d c (sort_values cs), le_of-sort_values d cs)

ge_of-From : (x : ℕ) (ys : List ℕ) → From x ys → ge_of x ys ≡ length ys
unfolding ge_of
ge_of-From x [] f = refl
ge_of-From x (y ∷ ys) f = ground (arith, ge_of-From x ys f.1)

From-get_or : (x : ℕ) (ys : List ℕ) (i : ℕ) → From x ys → i < length ys → x ≤ get_or ys i 0
From-get_or x [] i f h = absurd (omega arith)
From-get_or x (y ∷ ys) zero f h = f.0
From-get_or x (y ∷ ys) (suc i) f h = From-get_or x ys i f.1 (omega arith)

sorted_ge :
    (xs : List ℕ) (i : ℕ) → IsSorted xs → i < length xs → length xs ≤ i + ge_of (get_or xs i 0) xs
unfolding ge_of
sorted_ge [] i s h = absurd (omega arith)
sorted_ge (x ∷ xs) zero s h = ground (arith, ge_of-From x xs s.0)
sorted_ge (x ∷ xs) (suc i) s h = omega (arith, sorted_ge xs i s.1 (omega arith))

sorted_le : (xs : List ℕ) (i : ℕ) → IsSorted xs → i < length xs → i < le_of (get_or xs i 0) xs
unfolding le_of
sorted_le [] i s h = absurd (omega arith)
sorted_le (x ∷ xs) zero s h = ground arith
sorted_le (x ∷ xs) (suc i) s h = ground (arith, sorted_le xs i s.1, From-get_or x xs i s.0)

-- Of the i-th smallest value, i counted from 0: at least all but i of the counters reach it, and
-- more than i do not exceed it.
pub order_statistic :
    (cs : Counters) (i : ℕ)
    → i < length cs
    → (length cs ≤ i + count_ge (get_or (sort_values cs) i 0) cs)
      × (i < count_le (get_or (sort_values cs) i 0) cs)
order_statistic cs i h =
    let d = get_or (sort_values cs) i 0 in
    let inside : i < length (sort_values cs) = omega (arith, length-sort_values cs) in
    (
      omega (
        arith,
        sorted_ge (sort_values cs) i (sort_values-IsSorted cs) inside,
        ge_of-sort_values d cs,
        length-sort_values cs,
      ),
      omega (
        arith,
        sorted_le (sort_values cs) i (sort_values-IsSorted cs) inside,
        le_of-sort_values d cs,
      ),
    )
