-- ===== src/Algos/HyperLogLog/Registers.antt =====
-- The registers as pointwise maxima: an insertion into any storage is an update of the registers that the
-- storage stands for.
use mathlib.Core.Bool.{false≢true}
use flowsketch.Base.{
  Bool, length-set, ◌++◌, ℕ, zero, suc, ◌^◌, ◌≡◌, refl, sym, ap, ap₂, ◌∙◌, List, [], ◌∷◌, ◌⊎◌,
  length, replicate, get_or, ltb, ◌==◌, arith, Bool-cases, inl, inr, true, false, if◌then◌else◌,
}
use flowsketch.Algos.HyperLogLog.{
  RegisterStorage, empty, singleton, sparse, dense, sparse_limit, raise, register_index, rho,
  update_register, update_registers, dense_registers, Search, found, missing, shift, binary_search,
  insert_at, sorted_pair, insert_dense, insert_sparse, insert_storage, insert_hashes, max_registers,
}

raise-cons : (x : ℕ) (xs : List ℕ) (i v : ℕ) → raise (x ∷ xs) (suc i) v ≡ x ∷ raise xs i v
unfolding raise
raise-cons x xs i v = elim (Bool-cases (ltb (get_or xs i 0) v)) [
  | inl e ↦ rw e refl
  | inr e ↦ rw e refl
]

raise-zero : (x : ℕ) (xs : List ℕ) (v : ℕ) → raise (x ∷ xs) 0 v ≡ (if ltb x v then v else x) ∷ xs
unfolding raise
raise-zero x xs v = elim (Bool-cases (ltb x v)) [ inl e ↦ rw e refl | inr e ↦ rw e refl ]

raise-nil : (i v : ℕ) → raise [] i v ≡ []
unfolding raise
raise-nil i v = elim (Bool-cases (ltb 0 v)) [ inl e ↦ rw e refl | inr e ↦ rw e refl ]

higher_comm :
    (x v w : ℕ)
    → (if ltb (if ltb x v then v else x) w then w else (if ltb x v then v else x))
      ≡ (if ltb (if ltb x w then w else x) v then v else (if ltb x w then w else x))
higher_comm x v w = ground arith

raise_comm : (xs : List ℕ) (i j v w : ℕ) → raise (raise xs i v) j w ≡ raise (raise xs j w) i v
raise_comm [] i j v w = rw (raise-nil i v, raise-nil j w, raise-nil i v) refl
raise_comm (x ∷ xs) zero zero v w = simp (raise-zero) (ap (λ y. y ∷ xs) (higher_comm x v w))
raise_comm (x ∷ xs) zero (suc j) v w = simp (raise-zero, raise-cons) refl
raise_comm (x ∷ xs) (suc i) zero v w = simp (raise-zero, raise-cons) refl
raise_comm (x ∷ xs) (suc i) (suc j) v w =
    simp (raise-cons) (ap (λ ys. x ∷ ys) (raise_comm xs i j v w))

raise_twice : (xs : List ℕ) (i v : ℕ) → raise (raise xs i v) i v ≡ raise xs i v
raise_twice [] i v = rw (raise-nil i v, raise-nil i v) refl
raise_twice (x ∷ xs) zero v = simp (raise-zero) (ap (λ y. y ∷ xs) (again x v))
  where
    again :
        (x v : ℕ)
        → (if ltb (if ltb x v then v else x) v then v else (if ltb x v then v else x))
          ≡ (if ltb x v then v else x)
    again x v = ground arith
raise_twice (x ∷ xs) (suc i) v = simp (raise-cons) (ap (λ ys. x ∷ ys) (raise_twice xs i v))

pub length-raise : (xs : List ℕ) (i v : ℕ) → length (raise xs i v) ≡ length xs
unfolding raise
length-raise xs i v = elim (Bool-cases (ltb (get_or xs i 0) v)) [
  | inl e ↦ rw e (length-set xs i v)
  | inr e ↦ rw e refl
]

max_registers-raise :
    (xs ys : List ℕ) (i v : ℕ)
    → length xs ≡ length ys
    → max_registers xs (raise ys i v) ≡ raise (max_registers xs ys) i v
unfolding max_registers
max_registers-raise [] [] i v e = sym (raise-nil i v)
max_registers-raise [] (y ∷ ys) i v e = absurd (omega (arith, e))
max_registers-raise (x ∷ xs) [] i v e = absurd (omega (arith, e))
max_registers-raise (x ∷ xs) (y ∷ ys) zero v e =
    simp (raise-zero) (ap (λ z. z ∷ max_registers xs ys) (highest x y v))
  where
    highest :
        (x y v : ℕ)
        → (if ltb x (if ltb y v then v else y) then (if ltb y v then v else y) else x)
          ≡ (if ltb (if ltb x y then y else x) v then v else (if ltb x y then y else x))
    highest x y v = ground arith
max_registers-raise (x ∷ xs) (y ∷ ys) (suc i) v e =
    simp (raise-cons) (
      ap (λ zs. (if ltb x y then y else x) ∷ zs) (max_registers-raise xs ys i v (omega (arith, e))))

pub max_registers-zeros : (xs : List ℕ) → max_registers xs (replicate (length xs) 0) ≡ xs
unfolding max_registers
max_registers-zeros [] = refl
max_registers-zeros (x ∷ xs) = ap₂ ◌∷◌ (ground arith) (max_registers-zeros xs)

pub Search-cases : (s : Search) → ((i : ℕ) × (s ≡ found i)) ⊎ ((i : ℕ) × (s ≡ missing i))
Search-cases (found i) = inl (i, refl)
Search-cases (missing i) = inr (i, refl)

module _ (p : ℕ) where
  pub length-update_registers : (r hs : List ℕ) → length (update_registers r p hs) ≡ length r
  unfolding update_registers update_register
  length-update_registers r [] = refl
  length-update_registers r (h ∷ hs) =
      length-update_registers (update_register r p h) hs
      ∙ length-raise r (register_index p h) (rho p h)

  update_registers-last :
      (r hs : List ℕ) (h : ℕ)
      → update_registers (update_register r p h) p hs
        ≡ update_register (update_registers r p hs) p h
  unfolding update_registers update_register
  update_registers-last r [] h = refl
  update_registers-last r (a ∷ hs) h =
      ap (λ t. update_registers t p hs)
        (raise_comm r (register_index p h) (register_index p a) (rho p h) (rho p a))
      ∙ update_registers-last (update_register r p a) hs h

  pub update_registers-append :
      (r hs ks : List ℕ)
      → update_registers r p (hs ++ ks) ≡ update_registers (update_registers r p hs) p ks
  unfolding update_registers
  update_registers-append r [] ks = refl
  update_registers-append r (h ∷ hs) ks = update_registers-append (update_register r p h) hs ks

  is_found : Search → Bool
  is_found (found i) = true
  is_found (missing i) = false

  shift-found : (s : Search) (i : ℕ) → shift s ≡ found i → (j : ℕ) × (s ≡ found j)
  unfolding shift is_found
  shift-found (found j) i e = (j, refl)
  shift-found (missing j) i e = absurd (false≢true (ap is_found e))

  found_cases :
      (here before : Bool) (rest : Search) (i : ℕ)
      → (if here then found 0 else if before then missing 0 else shift rest) ≡ found i
      → (here ≡ true) ⊎ ((j : ℕ) × (rest ≡ found j))
  unfolding is_found
  found_cases true before rest i e = inl refl
  found_cases false true rest i e = absurd (false≢true (ap is_found e))
  found_cases false false rest i e = inr (shift-found rest i e)

  -- A hash that is there has been counted.
  binary_search-counted :
      (r hs : List ℕ) (h i : ℕ)
      → binary_search hs h ≡ found i
      → update_register (update_registers r p hs) p h ≡ update_registers r p hs
  unfolding binary_search update_registers is_found update_register
  binary_search-counted r [] h i e = absurd (false≢true (ap is_found e))
  binary_search-counted r (a ∷ hs) h i e =
      elim (found_cases (a == h) (ltb h a) (binary_search hs h) i e) [
        | inl here ↦
            let same : a ≡ h = ground arith in
            sym (update_registers-last (update_register r p a) hs h)
            ∙ ap (λ t. update_registers t p hs)
                (ap (λ b. update_register (update_register r p b) p h) same
                  ∙ raise_twice r (register_index p h) (rho p h)
                  ∙ ap (update_register r p) (sym same))
        | inr (j, later) ↦ binary_search-counted (update_register r p a) hs h j later
      ]

  insert_at-counted :
      (r hs : List ℕ) (i h : ℕ)
      → update_registers r p (insert_at hs i h) ≡ update_register (update_registers r p hs) p h
  unfolding insert_at update_registers
  insert_at-counted r hs zero h = update_registers-last r hs h
  insert_at-counted r [] (suc i) h = refl
  insert_at-counted r (a ∷ hs) (suc i) h = insert_at-counted (update_register r p a) hs i h

  sorted_pair-counted :
      (r : List ℕ) (a h : ℕ)
      → update_registers r p (sorted_pair a h) ≡ update_register (update_register r p a) p h
  unfolding sorted_pair update_registers update_register
  sorted_pair-counted r a h = elim (Bool-cases (ltb h a)) [
    | inl e ↦ rw e (raise_comm r (register_index p h) (register_index p a) (rho p h) (rho p a))
    | inr e ↦ rw e refl
  ]

  insert_sparse-registers :
      (hashes : List ℕ) (h : ℕ)
      → dense_registers p (insert_sparse p hashes h)
        ≡ update_register (dense_registers p (sparse hashes)) p h
  unfolding insert_sparse dense_registers insert_dense
  insert_sparse-registers hashes h = elim (Search-cases (binary_search hashes h)) [
    | inl (i, e) ↦
        rw (e, insert_sparse) (sym (binary_search-counted (replicate (2 ^ p) 0) hashes h i e))
    | inr (i, e) ↦ elim (Bool-cases (ltb (length hashes) (sparse_limit p))) [
      | inl room ↦ rw (e, room, insert_sparse) (insert_at-counted (replicate (2 ^ p) 0) hashes i h)
      | inr full ↦ rw (e, full, insert_sparse) refl
    ]
  ]

  pub insert_storage-registers :
      (s : RegisterStorage) (h : ℕ)
      → dense_registers p (insert_storage p s h) ≡ update_register (dense_registers p s) p h
  unfolding insert_storage dense_registers insert_dense update_registers update_register
  insert_storage-registers empty h = refl
  insert_storage-registers (singleton a) h = elim (Bool-cases (a == h)) [
    | inl e ↦
        let same : a ≡ h = ground arith in
        rw e (
          sym (
            ap (λ b. update_register (update_register (replicate (2 ^ p) 0) p b) p h) same
            ∙ raise_twice (replicate (2 ^ p) 0) (register_index p h) (rho p h)
            ∙ ap (update_register (replicate (2 ^ p) 0) p) (sym same)))
    | inr e ↦ elim (Bool-cases (ltb 1 (sparse_limit p))) [
      | inl room ↦ rw (e, room) (sorted_pair-counted (replicate (2 ^ p) 0) a h)
      | inr full ↦ rw (e, full) refl
    ]
  ]
  insert_storage-registers (sparse hashes) h = insert_sparse-registers hashes h
  insert_storage-registers (dense registers) h = refl

  pub insert_hashes-registers :
      (s : RegisterStorage) (hs : List ℕ)
      → dense_registers p (insert_hashes p s hs) ≡ update_registers (dense_registers p s) p hs
  unfolding insert_hashes update_registers
  insert_hashes-registers s [] = refl
  insert_hashes-registers s (h ∷ hs) =
      insert_hashes-registers (insert_storage p s h) hs
      ∙ ap (λ t. update_registers t p hs) (insert_storage-registers s h)

  -- The maximum with the registers of some hashes is the update by them.
  pub max_registers-update_registers :
      (r t hs : List ℕ)
      → length r ≡ length t
      → max_registers r (update_registers t p hs) ≡ update_registers (max_registers r t) p hs
  unfolding update_registers update_register
  max_registers-update_registers r t [] e = refl
  max_registers-update_registers r t (h ∷ hs) e =
      max_registers-update_registers r (update_register t p h) hs
        (e ∙ sym (length-raise t (register_index p h) (rho p h)))
      ∙ ap (λ z. update_registers z p hs) (max_registers-raise r t (register_index p h) (rho p h) e)
