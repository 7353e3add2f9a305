-- ===== src/Runtime/Query/Ring.antt =====
-- The ring of buckets: consecutive slides, all states mergeable, and what one slide of it does.
use native.Mathlib.Nat.{mul-le-mul_left}
use flowsketch.Base.{
  ℕ, ◌+◌, ◌*◌, ◌≤◌, ◌<◌, ◌≡◌, refl, ap, ◌∙◌, List, [], ◌∷◌, ◌++◌, some, length, arith, ltb, ◌==◌,
  true, false, Bool-cases, inl, inr,
}
use flowsketch.Runtime.Query.{Bucket, back, pop_excess}

module _ {S : Type 0} (slide : ℕ) where
  -- The buckets from the k-th slide on.
  abbrev pub Ring : ℕ → List (Bucket S) → Type 0
  Ring k [] = Unit
  Ring k (b ∷ bs) = (b.start_nanos ≡ slide * k) × Ring (k + 1) bs

  pub back-Ring :
      (k l : ℕ) (bs : List (Bucket S))
      → Ring k bs
      → 0 < length bs
      → k + length bs ≡ l + 1
      → (b : Bucket S) × (back bs ≡ some b) × (b.start_nanos ≡ slide * l)
  unfolding back
  back-Ring k l [] r h e = absurd (omega arith)
  back-Ring k l (b ∷ []) (s, r) h e = (b, refl, s ∙ ap (λ n. slide * n) (omega arith))
  back-Ring k l (b ∷ (c ∷ cs)) (s, r) h e =
      back-Ring (k + 1) l (c ∷ cs) r (omega arith) (omega arith)

  pub push-Ring :
      (k l : ℕ) (bs : List (Bucket S)) (b : Bucket S)
      → Ring k bs
      → b.start_nanos ≡ slide * l
      → k + length bs ≡ l
      → Ring k (bs ++ b ∷ [])
  push-Ring k l [] b r s e = (s ∙ ap (λ n. slide * n) (omega arith), tt)
  push-Ring k l (c ∷ cs) b (t, r) s e = (t, push-Ring (k + 1) l cs b r s (omega arith))

-- Whether a bucket of one slide starts where another slide does.
module _ (slide : ℕ) (positive : 0 < slide) where
  pub other_slide : (start k t : ℕ) → start ≡ slide * k → t < k → (start == slide * t) ≡ false
  other_slide start k t e h =
      let above : slide * (t + 1) ≤ slide * k = mul-le-mul_left slide (omega arith) in ground arith

  pub later_slide : (start k t : ℕ) → start ≡ slide * k → k < t → (start == slide * t) ≡ false
  later_slide start k t e h =
      let above : slide * (k + 1) ≤ slide * t = mul-le-mul_left slide (omega arith) in ground arith

  pub same_slide : (start k t : ℕ) → start ≡ slide * k → k ≡ t → (start == slide * t) ≡ true
  same_slide start k t e h =
      let there : start ≡ slide * t = e ∙ ap (λ n. slide * n) h in ground arith

-- What holds of every bucket's state.
abbrev pub AllGood : {S : Type 0} → (S → Type 0) → List (Bucket S) → Type 0
AllGood G [] = Unit
AllGood G (b ∷ bs) = G b.state × AllGood G bs

pub push-AllGood :
    {S : Type 0} (G : S → Type 0) (bs : List (Bucket S)) (b : Bucket S)
    → AllGood G bs
    → G b.state
    → AllGood G (bs ++ b ∷ [])
push-AllGood G [] b h g = (g, tt)
push-AllGood G (c ∷ cs) b (hc, h) g = (hc, push-AllGood G cs b h g)

-- Dropping what exceeds the ring keeps its newest buckets.
pub pop_excess-Ring :
    {S : Type 0} (slide ring k : ℕ) (G : S → Type 0) (bs : List (Bucket S))
    → Ring slide k bs
    → AllGood G bs
    → (j : ℕ) × Ring slide j (pop_excess ring bs)
      × AllGood G (pop_excess ring bs)
      × (j + length (pop_excess ring bs) ≡ k + length bs)
      × (length (pop_excess ring bs) ≤ ring)
      × ((0 < ring) → (0 < length bs) → 0 < length (pop_excess ring bs))
unfolding pop_excess
pop_excess-Ring slide ring k G [] r g = (k, tt, tt, refl, omega arith, λ p q. q)
pop_excess-Ring slide ring k G (b ∷ bs) (s, r) (gb, g) =
    elim (Bool-cases (ltb ring (length (b ∷ bs)))) [
      | inl e ↦
          let (j, r', g', size, short, some_left) = pop_excess-Ring slide ring (k + 1) G bs r g in
          rw e (j, r', g', omega (arith, size), short, λ p q. some_left p (ground arith))
      | inr e ↦ rw e (k, (s, r), (gb, g), refl, ground arith, λ p q. omega arith)
    ]
