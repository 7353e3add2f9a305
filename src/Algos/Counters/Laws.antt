-- ===== src/Algos/Counters/Laws.antt =====
-- What each map operation does to the count of every key, the sum and the number of entries.
use flowsketch.Base.Bytes.{bytes_eq, bytes_eq_symm, bytes_eq_iff}
use flowsketch.Base.{
  ℕ, ◌+◌, ◌-◌, ◌*◌, ◌^◌, ◌≤◌, ◌<◌, ◌≡◌, refl, List, [], ◌∷◌, none, some, length, ltb, if◌then◌else◌,
  false, Bool-cases, inl, inr, arith, ◌∙◌, Option-cases,
}
use flowsketch.Algos.Counters.{
  Counters, lookup, count, insert, bump, entry_add, absorb, min_value, retain_above, sum,
}

-- One entry for a key.
abbrev pub IsMap : Counters → Type 0
IsMap [] = Unit
IsMap ((k, c) ∷ cs) = (lookup k cs ≡ none) × IsMap cs

pub count-le_sum : (key : List ℕ) (cs : Counters) → count key cs ≤ sum cs
unfolding count sum
count-le_sum key [] = omega arith
count-le_sum key ((k, c) ∷ cs) = ground (arith, count-le_sum key cs)

pub count-entry_add :
    (key k : List ℕ) (w : ℕ) (cs : Counters)
    → count k cs + w < 2 ^ 64
    → count key (entry_add k w cs) ≡ count key cs + (if bytes_eq k key then w else 0)
unfolding count entry_add
count-entry_add key k w [] h = ground arith
count-entry_add key k w ((j, c) ∷ cs) h =
    ground
      (arith, count-entry_add key k w cs, bytes_eq_iff j k, bytes_eq_iff j key, bytes_eq_iff k key)

pub sum-entry_add :
    (k : List ℕ) (w : ℕ) (cs : Counters)
    → count k cs + w < 2 ^ 64
    → sum (entry_add k w cs) ≡ sum cs + w
unfolding count sum entry_add
sum-entry_add k w [] h = ground arith
sum-entry_add k w ((j, c) ∷ cs) h = ground (arith, sum-entry_add k w cs)

lookup-entry_add :
    (key k : List ℕ) (w : ℕ) (cs : Counters)
    → lookup key cs ≡ none
    → bytes_eq k key ≡ false
    → lookup key (entry_add k w cs) ≡ none
unfolding lookup entry_add
lookup-entry_add key k w [] h ne = ground arith
lookup-entry_add key k w ((j, c) ∷ cs) h ne = ground (arith, lookup-entry_add key k w cs)

pub entry_add-IsMap : (k : List ℕ) (w : ℕ) (cs : Counters) → IsMap cs → IsMap (entry_add k w cs)
unfolding entry_add lookup
entry_add-IsMap k w [] m = (refl, tt)
entry_add-IsMap k w ((j, c) ∷ cs) m = elim (Bool-cases (bytes_eq j k)) [
  | inl same ↦ rw same m
  | inr differs ↦
      rw differs
        (lookup-entry_add j k w cs m.0 (bytes_eq_symm k j ∙ differs), entry_add-IsMap k w cs m.1)
]

pub bump-entry_add :
    (k : List ℕ) (w c : ℕ) (cs : Counters) → lookup k cs ≡ some c → bump k w cs ≡ entry_add k w cs
unfolding lookup bump entry_add
bump-entry_add k w d [] h = cc
bump-entry_add k w d ((j, c) ∷ cs) h = ground (arith, bump-entry_add k w d cs)

pub insert-entry_add :
    (k : List ℕ) (w : ℕ) (cs : Counters)
    → w < 2 ^ 64
    → lookup k cs ≡ none
    → insert k w cs ≡ entry_add k w cs
unfolding lookup insert entry_add
insert-entry_add k w [] lt h = ground arith
insert-entry_add k w ((j, c) ∷ cs) lt h = ground (arith, insert-entry_add k w cs)

pub length-bump : (k : List ℕ) (w : ℕ) (cs : Counters) → length (bump k w cs) ≡ length cs
unfolding bump
length-bump k w [] = refl
length-bump k w ((j, c) ∷ cs) = ground (arith, length-bump k w cs)

pub length-insert :
    (k : List ℕ) (w : ℕ) (cs : Counters)
    → lookup k cs ≡ none
    → length (insert k w cs) ≡ length cs + 1
unfolding insert lookup
length-insert k w [] h = omega arith
length-insert k w ((j, c) ∷ cs) h = ground (arith, length-insert k w cs)

-- Taking `dec` from every counter, and dropping those that reach zero.
pub lookup-retain_above :
    (key : List ℕ) (dec : ℕ) (cs : Counters)
    → lookup key cs ≡ none
    → lookup key (retain_above dec cs) ≡ none
unfolding lookup retain_above
lookup-retain_above key dec [] h = refl
lookup-retain_above key dec ((k, c) ∷ cs) h = ground (arith, lookup-retain_above key dec cs)

pub retain_above-IsMap : (dec : ℕ) (cs : Counters) → IsMap cs → IsMap (retain_above dec cs)
unfolding retain_above
retain_above-IsMap dec [] m = tt
retain_above-IsMap dec ((k, c) ∷ cs) m =
    ground (arith, lookup-retain_above k dec cs m.0, retain_above-IsMap dec cs m.1)

pub count-absent : (key : List ℕ) (cs : Counters) → lookup key cs ≡ none → count key cs ≡ 0
unfolding count
count-absent key cs h = rw (h, count)

pub count-retain_above :
    (key : List ℕ) (dec : ℕ) (cs : Counters)
    → IsMap cs
    → count key (retain_above dec cs) ≡ count key cs - dec
unfolding count lookup retain_above
count-retain_above key dec [] m = omega arith
count-retain_above key dec ((k, c) ∷ cs) m =
    ground (
      arith,
      count-retain_above key dec cs m.1,
      lookup-retain_above k dec cs m.0,
      bytes_eq_iff k key,
    )

-- The number of counters that are at least `dec`, and at most `dec`.
unfoldable pub count_ge : ℕ → Counters → ℕ
count_ge dec [] = 0
count_ge dec ((k, c) ∷ cs) = (if ltb c dec then 0 else 1) + count_ge dec cs

unfoldable pub count_le : ℕ → Counters → ℕ
count_le dec [] = 0
count_le dec ((k, c) ∷ cs) = (if ltb dec c then 0 else 1) + count_le dec cs

-- Each counter that is at least `dec` pays `dec`.
pub sum-retain_above :
    (dec : ℕ) (cs : Counters) → sum (retain_above dec cs) + dec * count_ge dec cs ≤ sum cs
unfolding sum retain_above count_ge
sum-retain_above dec [] = omega arith
sum-retain_above dec ((k, c) ∷ cs) = grind (arith, sum-retain_above dec cs)

-- Each counter that is at most `dec` goes.
pub length-retain_above :
    (dec : ℕ) (cs : Counters) → length (retain_above dec cs) + count_le dec cs ≡ length cs
unfolding retain_above count_le
length-retain_above dec [] = omega arith
length-retain_above dec ((k, c) ∷ cs) = ground (arith, length-retain_above dec cs)

pub min_value-none : (cs : Counters) → min_value cs ≡ none → length cs ≡ 0
unfolding min_value
min_value-none [] h = refl
min_value-none ((k, c) ∷ cs) h = ground arith

-- The least value is at most every counter, and is one of them.
pub min_value-count_ge :
    (cs : Counters) (m d : ℕ) → min_value cs ≡ some m → d ≤ m → count_ge d cs ≡ length cs
unfolding min_value count_ge
min_value-count_ge [] m d h le = cc
min_value-count_ge ((k, c) ∷ cs) m d h le = elim (Option-cases (min_value cs)) [
  | inl e ↦ ground (arith, e, min_value-none cs e, count_ge_empty cs (min_value-none cs e))
  | inr (n, e) ↦ ground (arith, e, min_value-count_ge cs n d e)
]
  where
    count_ge_empty : (xs : Counters) → length xs ≡ 0 → count_ge d xs ≡ 0
    count_ge_empty [] z = refl
    count_ge_empty (x ∷ xs) z = absurd (omega arith)

pub min_value-count_le : (cs : Counters) (m : ℕ) → min_value cs ≡ some m → 1 ≤ count_le m cs
unfolding min_value count_le
min_value-count_le [] m h = cc
min_value-count_le ((k, c) ∷ cs) m h = elim (Option-cases (min_value cs)) [
  | inl e ↦ ground arith
  | inr (n, e) ↦ ground (arith, e, min_value-count_le cs n e)
]

count-cons :
    (key k : List ℕ) (c : ℕ) (cs : Counters)
    → IsMap ((k, c) ∷ cs)
    → count key ((k, c) ∷ cs) ≡ (if bytes_eq k key then c else 0) + count key cs
unfolding count lookup
count-cons key k c cs m = ground (arith, bytes_eq_iff k key, m.0)

-- Absorbing a map adds its counts.
pub absorb_laws :
    (cs others : Counters)
    → IsMap cs
    → IsMap others
    → sum cs + sum others < 2 ^ 64
    → (IsMap (absorb cs others))
      × (sum (absorb cs others) ≡ sum cs + sum others)
      × ((key : List ℕ) → count key (absorb cs others) ≡ count key cs + count key others)
unfolding absorb sum
absorb_laws cs [] m o h =
    (m, omega arith, λ key. omega (arith, count-absent key [] (unfold lookup in refl)))
absorb_laws cs ((k, c) ∷ others) m o h =
    let room : count k cs + c < 2 ^ 64 = omega (arith, count-le_sum k cs) in
    let added = sum-entry_add k c cs room in
    let (m', total, counts) =
      absorb_laws (entry_add k c cs) others (entry_add-IsMap k c cs m) o.1 (omega (arith, added)) in
    (
      m',
      omega (arith, total, added),
      λ key.
          omega (arith, counts key, count-entry_add key k c cs room, count-cons key k c others o),
    )
