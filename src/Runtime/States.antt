-- ===== src/Runtime/States.antt =====
-- What a running query uses of the sketch state of a bucket (`QueryState`): how the plan builds an empty one,
-- how an event updates it, and how two of them merge. Only the sketches know what a state is.
use flowsketch.Base.{ℕ, List, ◌≡◌}
use flowsketch.Core.Error.{Result, ok}

pub record States : Type 1 where
  pub State : Type 0
  pub build : Result State
  pub update : State → List ℕ → ℕ → List ℕ → State
  pub merge_from : State → State → Result State

-- The states of one plan are mergeable: the plan is executable, and what is built from it, updated and
-- merged stays compatible.
pub record Mergeable (P : States) : Type 1 where
  pub IsGood : P.State → Type 0
  pub built : (s : P.State) × (P.build ≡ ok s) × IsGood s
  pub updated :
      (s : P.State) (key : List ℕ) (weight : ℕ) (item : List ℕ)
      → IsGood s
      → IsGood (P.update s key weight item)
  pub merged :
      (s t : P.State) → IsGood s → IsGood t → (r : P.State) × (P.merge_from s t ≡ ok r) × IsGood r
