-- ===== src/Algos/Truth.antt =====
-- What a stream of weighted keys really holds: the ground truth that every sketch is measured by.
use flowsketch.Base.Bytes.{bytes_eq}
use flowsketch.Base.{ℕ, ◌+◌, List, [], ◌∷◌, ◌++◌, if◌then◌else◌, ◌≡◌, arith}

-- A stream of updates, oldest first.
abbrev pub Stream : Type 0
Stream = List (List ℕ × ℕ)

-- The weight that a stream holds for a key, and altogether.
unfoldable pub truth : List ℕ → Stream → ℕ
truth key [] = 0
truth key ((k, v) ∷ rest) = (if bytes_eq k key then v else 0) + truth key rest

unfoldable pub total : Stream → ℕ
total [] = 0
total ((k, v) ∷ rest) = v + total rest

-- The weights once a key has gained `w`.
abbrev pub plus : (List ℕ → ℕ) → List ℕ → ℕ → List ℕ → ℕ
plus f key w other = f other + (if bytes_eq key other then w else 0)

pub truth-append :
    (key : List ℕ) (xs ys : Stream) → truth key (xs ++ ys) ≡ truth key xs + truth key ys
unfolding truth
truth-append key [] ys = omega arith
truth-append key ((k, v) ∷ xs) ys = omega (arith, truth-append key xs ys)

pub total-append : (xs ys : Stream) → total (xs ++ ys) ≡ total xs + total ys
unfolding total
total-append [] ys = omega arith
total-append ((k, v) ∷ xs) ys = omega (arith, total-append xs ys)
