-- ===== src/Core/Wire/Ends.antt =====
-- crates/flowsketch-core/src/snapshot.rs, `Reader`: what a reader may leave, whatever the bytes are.
use Prim.Native.String.{String}
use flowsketch.Base.{◌≡◌, refl, ◌⊎◌, inl, inr, Bool, true, false}
use flowsketch.Core.Error.{SketchError, snapshot, ok, err, Result-cases}
use flowsketch.Core.Wire.{Reader, M, ◌>>=◌, refuse_if}

-- A reader that ends in an error, or in a value with a property.
abbrev pub Ends : {A : Type 0} → M A → (A → Type 0) → Type 0
Ends {A} m P =
    (r : Reader)
    → ((e : SketchError) × (m r ≡ err e)) ⊎ ((a : A) × (r' : Reader) × (m r ≡ ok (a, r')) × P a)

module _ {A B : Type 0} where
  pub bind-Ends :
      (m : M A) (f : A → M B) (P : A → Type 0) (Q : B → Type 0)
      → Ends m P
      → ((a : A) → P a → Ends (f a) Q)
      → Ends (m >>= f) Q
  bind-Ends m f P Q p q r = elim (p r) [
    | inl (e, run) ↦ inl (e, rw (run, ◌>>=◌))
    | inr (a, r', run, h) ↦ elim (q a h r') [
      | inl (e, run') ↦ inl (e, rw (run, ◌>>=◌) run')
      | inr (b, r'', run', k) ↦ inr (b, r'', rw (run, ◌>>=◌) run', k)
    ]
  ]

pub any-Ends : {A : Type 0} (m : M A) → Ends m (λ _. Unit)
any-Ends m r = elim (Result-cases (m r)) [
  | inl ((a, r'), e) ↦ inr (a, r', e, tt)
  | inr (e, run) ↦ inl (e, run)
]

pub refuse_if-Ends :
    (refused : Bool) (message : String) → Ends (refuse_if refused message) (λ _. refused ≡ false)
refuse_if-Ends true message r = inl (snapshot message, refl)
refuse_if-Ends false message r = inr (tt, r, refl, refl)
