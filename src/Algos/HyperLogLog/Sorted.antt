-- ===== src/Algos/HyperLogLog/Sorted.antt =====
-- The invariant of the storage: strictly sorted hashes within the limit, or a whole array of registers.
use mathlib.Core.Bool.{true≢false}
use flowsketch.Base.{
  ℕ, zero, suc, ◌+◌, ◌-◌, ◌^◌, ◌≤◌, ◌<◌, ◌≡◌, ◌⊎◌, refl, ap, ◌∙◌, List, [], ◌∷◌, Bool, length,
  length-replicate, replicate, get_or, set, ltb, ◌==◌, arith, Bool-cases, inl, inr, true, false,
  if◌then◌else◌,
}
use flowsketch.Algos.HyperLogLog.{
  RegisterStorage, empty, singleton, sparse, dense, sparse_limit, raise, register_index, rho,
  update_register, update_registers, dense_registers, Search, found, missing, shift, binary_search,
  insert_at, sorted_pair, insert_dense, insert_sparse, insert_storage,
}
use flowsketch.Algos.HyperLogLog.Registers.{length-raise, length-update_registers, Search-cases}

-- Strictly increasing words, none below `least`.
abbrev pub Rising : ℕ → List ℕ → Type 0
Rising least [] = Unit
Rising least (h ∷ hs) = (least ≤ h) × (h < 2 ^ 64) × Rising (h + 1) hs

abbrev pub AtMost : ℕ → List ℕ → Type 0
AtMost bound [] = Unit
AtMost bound (r ∷ rs) = (r ≤ bound) × AtMost bound rs

abbrev pub IsWell : ℕ → RegisterStorage → Type 0
IsWell p empty = Unit
IsWell p (singleton h) = h < 2 ^ 64
IsWell p (sparse hs) = Rising 0 hs × (2 ≤ length hs) × (length hs ≤ sparse_limit p)
IsWell p (dense rs) = (length rs ≡ 2 ^ p) × AtMost (64 - p + 1) rs

AtMost-replicate : (bound n : ℕ) → AtMost bound (replicate n 0)
AtMost-replicate bound zero = tt
AtMost-replicate bound (suc n) = (omega arith, AtMost-replicate bound n)

AtMost-set :
    (bound : ℕ) (rs : List ℕ) (i v : ℕ) → v ≤ bound → AtMost bound rs → AtMost bound (set rs i v)
AtMost-set bound [] i v h a = tt
AtMost-set bound (r ∷ rs) zero v h (a, as_) = (h, as_)
AtMost-set bound (r ∷ rs) (suc i) v h (a, as_) = (a, AtMost-set bound rs i v h as_)

AtMost-update_register :
    (p : ℕ) (rs : List ℕ) (h : ℕ)
    → AtMost (64 - p + 1) rs
    → AtMost (64 - p + 1) (update_register rs p h)
unfolding update_register raise rho
AtMost-update_register p rs h a =
    elim (Bool-cases (ltb (get_or rs (register_index p h) 0) (rho p h))) [
      | inl e ↦ rw e (AtMost-set (64 - p + 1) rs (register_index p h) (rho p h) (omega arith) a)
      | inr e ↦ rw e a
    ]

AtMost-update_registers :
    (p : ℕ) (rs hs : List ℕ)
    → AtMost (64 - p + 1) rs
    → AtMost (64 - p + 1) (update_registers rs p hs)
unfolding update_registers
AtMost-update_registers p rs [] a = a
AtMost-update_registers p rs (h ∷ hs) a =
    AtMost-update_registers p (update_register rs p h) hs (AtMost-update_register p rs h a)

zeros-IsWell :
    (p : ℕ) (hs : List ℕ)
    → (length (update_registers (replicate (2 ^ p) 0) p hs) ≡ 2 ^ p)
      × AtMost (64 - p + 1) (update_registers (replicate (2 ^ p) 0) p hs)
zeros-IsWell p hs = (
  length-update_registers p (replicate (2 ^ p) 0) hs ∙ length-replicate (2 ^ p) 0,
  AtMost-update_registers p (replicate (2 ^ p) 0) hs (AtMost-replicate (64 - p + 1) (2 ^ p)),
)

abbrev place : Search → ℕ
place (found i) = i
place (missing i) = i

abbrev was_found : Search → Bool
was_found (found i) = true
was_found (missing i) = false

missing_cases :
    (here before : Bool) (rest : Search) (i : ℕ)
    → (if here then found 0 else if before then missing 0 else shift rest) ≡ missing i
    → ((before ≡ true) × (0 ≡ i))
      ⊎ ((here ≡ false) × (before ≡ false) × (j : ℕ) × (rest ≡ missing j) × (suc j ≡ i))
unfolding shift
missing_cases true before rest i e = absurd (true≢false (ap was_found e))
missing_cases false true rest i e = inl (refl, ap place e)
missing_cases false false (found j) i e = absurd (true≢false (ap was_found e))
missing_cases false false (missing j) i e = inr (refl, refl, j, refl, ap place e)

-- Insertion where the search says keeps the order.
insert_at-Rising :
    (least : ℕ) (hs : List ℕ) (h i : ℕ)
    → Rising least hs
    → least ≤ h
    → h < 2 ^ 64
    → binary_search hs h ≡ missing i
    → Rising least (insert_at hs i h)
unfolding binary_search insert_at
insert_at-Rising least [] h zero r low word e = (low, word, tt)
insert_at-Rising least [] h (suc i) r low word e = (low, word, tt)
insert_at-Rising least (a ∷ hs) h zero (ra, wa, r) low word e =
    elim (missing_cases (a == h) (ltb h a) (binary_search hs h) 0 e) [
      | inl (before, first) ↦ (low, word, (ground arith, wa, r))
      | inr (other, after, j, later, place) ↦ absurd (omega (arith, place))
    ]
insert_at-Rising least (a ∷ hs) h (suc i) (ra, wa, r) low word e =
    elim (missing_cases (a == h) (ltb h a) (binary_search hs h) (suc i) e) [
      | inl (before, first) ↦ absurd (omega (arith, first))
      | inr (other, after, j, later, place) ↦ (
        ra,
        wa,
        insert_at-Rising (a + 1) hs h i r (ground arith) word
            (later ∙ ap missing (omega (arith, place))),
      )
    ]

length-insert_at : (hs : List ℕ) (i h : ℕ) → length (insert_at hs i h) ≡ length hs + 1
unfolding insert_at
length-insert_at [] zero h = refl
length-insert_at [] (suc i) h = refl
length-insert_at (a ∷ hs) zero h = omega arith
length-insert_at (a ∷ hs) (suc i) h = omega (arith, length-insert_at hs i h)

sorted_pair-IsWell :
    (a h : ℕ)
    → a < 2 ^ 64
    → h < 2 ^ 64
    → (a == h) ≡ false
    → Rising 0 (sorted_pair a h) × (length (sorted_pair a h) ≡ 2)
unfolding sorted_pair
sorted_pair-IsWell a h wa wh e = elim (Bool-cases (ltb h a)) [
  | inl before ↦ rw before ((omega arith, wh, (ground arith, wa, tt)), refl)
  | inr after ↦ rw after ((omega arith, wa, (ground arith, wh, tt)), refl)
]

dense_registers-IsWell :
    (p : ℕ) (s : RegisterStorage)
    → IsWell p s
    → (length (dense_registers p s) ≡ 2 ^ p) × AtMost (64 - p + 1) (dense_registers p s)
unfolding dense_registers
dense_registers-IsWell p empty w =
    (length-replicate (2 ^ p) 0, AtMost-replicate (64 - p + 1) (2 ^ p))
dense_registers-IsWell p (singleton h) w = zeros-IsWell p (h ∷ [])
dense_registers-IsWell p (sparse hs) w = zeros-IsWell p hs
dense_registers-IsWell p (dense rs) w = w

update_register-IsWell :
    (p : ℕ) (rs : List ℕ) (h : ℕ)
    → (length rs ≡ 2 ^ p) × AtMost (64 - p + 1) rs
    → IsWell p (dense (update_register rs p h))
unfolding update_register
update_register-IsWell p rs h (size, a) =
    (length-raise rs (register_index p h) (rho p h) ∙ size, AtMost-update_register p rs h a)

insert_dense-IsWell :
    (p : ℕ) (s : RegisterStorage) (h : ℕ) → IsWell p s → IsWell p (insert_dense p s h)
unfolding insert_dense
insert_dense-IsWell p s h w =
    update_register-IsWell p (dense_registers p s) h (dense_registers-IsWell p s w)

insert_sparse-IsWell :
    (p : ℕ) (hs : List ℕ) (h : ℕ)
    → IsWell p (sparse hs)
    → h < 2 ^ 64
    → IsWell p (insert_sparse p hs h)
unfolding insert_sparse
insert_sparse-IsWell p hs h w word = elim (Search-cases (binary_search hs h)) [
  | inl (i, e) ↦ rw (e, insert_sparse, IsWell) w
  | inr (i, e) ↦ elim (Bool-cases (ltb (length hs) (sparse_limit p))) [
    | inl room ↦
        let size = length-insert_at hs i h in
        rw (e, room, insert_sparse, IsWell)
          (
            insert_at-Rising 0 hs h i w.0 (omega arith) word e,
            omega (arith, size, w.1),
            (ground (arith, size)),
          )
    | inr full ↦ rw (e, full, insert_sparse, IsWell) (insert_dense-IsWell p (sparse hs) h w)
  ]
]

pub insert_storage-IsWell :
    (p : ℕ) (s : RegisterStorage) (h : ℕ)
    → IsWell p s
    → h < 2 ^ 64
    → IsWell p (insert_storage p s h)
unfolding insert_storage
insert_storage-IsWell p empty h w word = word
insert_storage-IsWell p (singleton a) h w word = elim (Bool-cases (a == h)) [
  | inl same ↦ rw same w
  | inr other ↦ elim (Bool-cases (ltb 1 (sparse_limit p))) [
    | inl room ↦
        let (rising, two) = sorted_pair-IsWell a h w word other in
        rw (other, room) (rising, omega (arith, two), (ground (arith, two)))
    | inr full ↦ rw (other, full) (insert_dense-IsWell p (singleton a) h w)
  ]
]
insert_storage-IsWell p (sparse hs) h w word = insert_sparse-IsWell p hs h w word
insert_storage-IsWell p (dense rs) h w word = update_register-IsWell p rs h w
