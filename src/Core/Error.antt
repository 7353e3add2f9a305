-- ===== src/Core/Error.antt =====
-- crates/flowsketch-core/src/error.rs, and the `Result` that every fallible operation returns.
use Prim.Native.String.{String}
use flowsketch.Base.{Bool, true, false, ◌≡◌, refl, ◌⊎◌, inl, inr}

-- A message is the source's fixed text; the values that `format!` puts into it are left out.
pub data SketchError : Type 0 where
  invalid_param : String → SketchError
  incompatible_merge : String → SketchError
  snapshot : String → SketchError
  backpressure : String → SketchError

pub data Result {ℓ} (A : Type ℓ) : Type ℓ where
  ok : A → Result A
  err : SketchError → Result A

-- `Result::and_then`, and the `?` operator.
abbrev pub and_then {ℓ κ} : {A : Type ℓ} {B : Type κ} → Result A → (A → Result B) → Result B
and_then (ok value) next = next value
and_then (err e) next = err e

infixl 5 ◌>>=◌ ◌>>◌
abbrev pub ◌>>=◌ {ℓ κ} : {A : Type ℓ} {B : Type κ} → Result A → (A → Result B) → Result B
first >>= next = and_then first next

abbrev pub ◌>>◌ {ℓ} : {B : Type ℓ} → Result (Unit {0}) → Result B → Result B
first >> next = and_then first (λ _. next)

-- `if refused { return Err(e); }`
abbrev pub refuse_if : Bool → SketchError → Result (Unit {0})
refuse_if true e = err e
refuse_if false e = ok tt

pub Result-cases {ℓ} :
    {A : Type ℓ} (x : Result A) → ((a : A) × (x ≡ ok a)) ⊎ ((e : SketchError) × (x ≡ err e))
Result-cases (ok a) = inl (a, refl)
Result-cases (err e) = inr (e, refl)
