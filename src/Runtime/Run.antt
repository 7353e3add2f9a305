-- ===== src/Runtime/Run.antt =====
-- How a method on `&mut self` that returns a `Result` ends, with the state that it leaves behind, also
-- when it fails half-way. A panic and a loop that has used up its fuel are outcomes of their own.
use flowsketch.Base.{◌≡◌, ap}
use flowsketch.Core.Error.{SketchError, Result, ok, err}

pub data Run (A : Type 0) : Type 0 where
  returned : A → Run A
  failed : SketchError → Run A
  panicked : Run A
  out_of_fuel : Run A

abbrev pub M : Type 0 → Type 0 → Type 0
M S A = S → S × Run A

-- What follows a call.
abbrev pub continue : {S A B : Type 0} → (A → M S B) → S × Run A → S × Run B
continue f (s, returned a) = f a s
continue f (s, failed e) = (s, failed e)
continue f (s, panicked) = (s, panicked)
continue f (s, out_of_fuel) = (s, out_of_fuel)

infixl 5 ◌>>=◌ ◌>>◌
abbrev pub ◌>>=◌ : {S A B : Type 0} → M S A → (A → M S B) → M S B
◌>>=◌ m f s = continue f (m s)

abbrev pub ◌>>◌ : {S B : Type 0} → M S (Unit {0}) → M S B → M S B
m >> k = m >>= λ _. k

abbrev pub done : {S : Type 0} → M S (Unit {0})
done s = (s, returned tt)

-- `check?`
abbrev pub require : {S : Type 0} → (S → Result (Unit {0})) → M S (Unit {0})
require check s = elim (check s) [ ok u ↦ (s, returned u) | err e ↦ (s, failed e) ]

module _ {S : Type 0} (check : S → Result (Unit {0})) (k : M S (Unit {0})) (s : S) where
  pub require-granted : check s ≡ ok tt → (require check >> k) s ≡ k s
  require-granted h =
      ap
        (λ (r : Result (Unit {0})).
          continue {A = Unit {0}} (λ _. k)
            (elim r [ ok u ↦ (s, returned u) | err e ↦ (s, failed e) ]))
        h

  pub require-refused : (e : SketchError) → check s ≡ err e → (require check >> k) s ≡ (s, failed e)
  require-refused e h =
      ap
        (λ (r : Result (Unit {0})).
          continue {A = Unit {0}} (λ _. k)
            (elim r [ ok u ↦ (s, returned u) | err e ↦ (s, failed e) ]))
        h
