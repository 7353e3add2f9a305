-- ===== src/Core/Field/Decimal.antt =====
-- Decimal digits: what they stand for, how many there are, and which bytes.
use flowsketch.Base.{
  ℕ, zero, suc, ◌+◌, ◌-◌, ◌*◌, ◌/◌, ◌%◌, ◌^◌, ◌≤◌, ◌<◌, ◌≡◌, ◌≢◌, List, [], ◌∷◌, ◌++◌, length,
  arith, ◌==◌, Bool-cases, inl, inr,
}
use native.Mathlib.Nat.{pow-suc}
use flowsketch.Core.Field.{digits, append_decimal}

-- The number that decimal digits after a first part `a` stand for.
abbrev pub decimal_value : ℕ → List ℕ → ℕ
decimal_value a [] = a
decimal_value a (d ∷ ds) = decimal_value (10 * a + (d - 48)) ds

length-digits :
    (room k v : ℕ) (written : List ℕ)
    → v < 10 ^ k
    → length (digits room v written) ≤ k + length written
unfolding digits
length-digits zero k v written h = omega arith
length-digits (suc room) zero v written h = ground arith
length-digits (suc room) (suc k) v written h =
    ground (arith, pow-suc 10 k, length-digits room k (v / 10) ((48 + v % 10) ∷ written))

-- The bytes of values: none of them is the separator.
abbrev pub NoSep : List ℕ → Type 0
NoSep [] = Unit
NoSep (b ∷ bs) = (b ≢ 31) × NoSep bs

pub append-NoSep : (xs ys : List ℕ) → NoSep xs → NoSep ys → NoSep (xs ++ ys)
append-NoSep [] ys hx hy = hy
append-NoSep (x ∷ xs) ys (a, hx) hy = (a, append-NoSep xs ys hx hy)

digits-NoSep : (room v : ℕ) (written : List ℕ) → NoSep written → NoSep (digits room v written)
unfolding digits
digits-NoSep zero v written h = h
digits-NoSep (suc room) v written h = elim (Bool-cases (v == 0)) [
  | inl e ↦ rw e h
  | inr e ↦ rw e (digits-NoSep room (v / 10) ((48 + v % 10) ∷ written) ((λ q. omega arith), h))
]

digits-some :
    (room v : ℕ) (written : List ℕ) → 0 < length written → 0 < length (digits room v written)
unfolding digits
digits-some zero v written h = h
digits-some (suc room) v written h =
    ground (arith, digits-some room (v / 10) ((48 + v % 10) ∷ written))

pub append_decimal-split :
    (out : List ℕ) (v : ℕ) → append_decimal out v ≡ out ++ append_decimal [] v
unfolding append_decimal
append_decimal-split out v = elim (Bool-cases (v == 0)) [ inl e ↦ rw e | inr e ↦ rw e ]

pub append_decimal-NoSep : (v : ℕ) → NoSep (append_decimal [] v)
unfolding append_decimal
append_decimal-NoSep v = elim (Bool-cases (v == 0)) [
  | inl e ↦ rw e ((λ q. omega arith), tt)
  | inr e ↦ rw e (digits-NoSep 20 v [] tt)
]

pub length-append_decimal : (k v : ℕ) → 0 < k → v < 10 ^ k → length (append_decimal [] v) ≤ k
unfolding append_decimal
length-append_decimal k v hk h = elim (Bool-cases (v == 0)) [
  | inl e ↦ rw e (omega arith)
  | inr e ↦ rw e (omega (arith, length-digits 20 k v [] h))
]

pub append_decimal-some : (v : ℕ) → 0 < length (append_decimal [] v)
unfolding append_decimal digits
append_decimal-some v = elim (Bool-cases (v == 0)) [
  | inl e ↦ rw e (omega arith)
  | inr e ↦ rw e (digits-some 19 (v / 10) ((48 + v % 10) ∷ []) (omega arith))
]
