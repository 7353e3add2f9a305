-- ===== src/Base/Panic.antt =====
-- Code that may panic: an index out of bounds, an `expect` of nothing and spent fuel are `none`.
use flowsketch.Base.{
  ℕ, zero, suc, ◌+◌, ◌<◌, ◌≡◌, refl, List, [], ◌∷◌, ◌++◌, Option, none, some, length, get_elem?,
  get_or, arith, if◌then◌else◌, ◌==◌,
}

infixl 5 ◌>>=◌
abbrev pub ◌>>=◌ {ℓ κ} : {A : Type ℓ} {B : Type κ} → Option A → (A → Option B) → Option B
none >>= next = none
some a >>= next = next a

module _ {ℓ} {A : Type ℓ} where
  pub get_elem?-get_or :
      (xs : List A) (i : ℕ) (d : A) → i < length xs → get_elem? xs i ≡ some (get_or xs i d)
  get_elem?-get_or [] i d h = absurd (omega arith)
  get_elem?-get_or (x ∷ xs) zero d h = refl
  get_elem?-get_or (x ∷ xs) (suc i) d h = get_elem?-get_or xs i d (omega arith)

  -- `push`
  pub get_or-push :
      (xs : List A) (i : ℕ) (v d : A)
      → i < length xs + 1
      → get_or (xs ++ v ∷ []) i d ≡ (if i == length xs then v else get_or xs i d)
  get_or-push [] zero v d h = ground arith
  get_or-push [] (suc i) v d h = absurd (omega arith)
  get_or-push (x ∷ xs) zero v d h = ground arith
  get_or-push (x ∷ xs) (suc i) v d h = ground (arith, get_or-push xs i v d (omega arith))
