-- ===== src/Runtime/Query/Contents.antt =====
-- What the buckets of a ring hold, slide by slide, while the ring grows and is trimmed.
use flowsketch.Base.{
  ℕ, suc, ◌+◌, ◌*◌, min, ◌≤◌, ◌<◌, ◌≡◌, refl, ap, ◌∙◌, List, [], ◌∷◌, ◌++◌, length, arith, ltb,
  ◌==◌, Bool-cases, inl, inr, true, false, if◌then◌else◌,
}
use flowsketch.Runtime.Query.{Bucket, pop_excess}
use flowsketch.Runtime.Query.Ring.{Ring, later_slide, same_slide}

-- The state that the buckets hold of the slide that starts at `start`, or an empty one.
abbrev pub held : {S : Type 0} → S → List (Bucket S) → ℕ → S
held empty [] start = empty
held empty (b ∷ bs) start = if b.start_nanos == start then b.state else held empty bs start

-- Every bucket has the state that is given for its start.
abbrev pub Holds : {S : Type 0} → (ℕ → S) → List (Bucket S) → Type 0
Holds g [] = Unit
Holds g (b ∷ bs) = (b.state ≡ g b.start_nanos) × Holds g bs

module _ {S : Type 0} (g : ℕ → S) where
  pub push-Holds :
      (bs : List (Bucket S)) (b : Bucket S)
      → Holds g bs
      → b.state ≡ g b.start_nanos
      → Holds g (bs ++ b ∷ [])
  push-Holds [] b h e = (e, tt)
  push-Holds (c ∷ cs) b (hc, h) e = (hc, push-Holds cs b h e)

  pub pop_excess-Holds :
      (ring : ℕ) (bs : List (Bucket S)) → Holds g bs → Holds g (pop_excess ring bs)
  unfolding pop_excess
  pop_excess-Holds ring [] h = tt
  pop_excess-Holds ring (b ∷ bs) (hb, h) = elim (Bool-cases (ltb ring (length (b ∷ bs)))) [
    | inl e ↦ rw e (pop_excess-Holds ring bs h)
    | inr e ↦ rw e (hb, h)
  ]

  -- The buckets after the one that starts at slide k.
  after-Holds :
      (slide k j : ℕ) (b : Bucket S) (bs : List (Bucket S))
      → 0 < slide
      → Ring slide j bs
      → k < j
      → b.start_nanos ≡ slide * k
      → Holds g bs
      → Holds (λ start. if b.start_nanos == start then b.state else g start) bs
  after-Holds slide k j b [] positive r h e hs = tt
  after-Holds slide k j b (c ∷ cs) positive (s, r) h e (hc, hs) =
      let differs : (b.start_nanos == c.start_nanos) ≡ false =
        ap (λ n. b.start_nanos == n) s ∙ later_slide slide positive b.start_nanos k j e h in
      (rw differs hc, after-Holds slide k (j + 1) b cs positive r (omega arith) e hs)

pub length-pop_excess :
    {S : Type 0} (ring : ℕ) (bs : List (Bucket S))
    → length (pop_excess ring bs) ≡ min ring (length bs)
unfolding pop_excess
length-pop_excess ring [] = omega arith
length-pop_excess ring (b ∷ bs) = elim (Bool-cases (ltb ring (length (b ∷ bs)))) [
  | inl e ↦
      let more : ring ≤ length bs = ground arith in rw e (omega (arith, length-pop_excess ring bs))
  | inr e ↦ let fits : suc (length bs) ≤ ring = ground arith in rw e (omega arith)
]

module _ {S : Type 0} (empty : S) (slide : ℕ) (positive : 0 < slide) where
  -- A ring holds of every slide what the bucket of it has.
  pub held-Holds : (k : ℕ) (bs : List (Bucket S)) → Ring slide k bs → Holds (held empty bs) bs
  held-Holds k [] r = tt
  held-Holds k (b ∷ bs) (s, r) =
      let same : (b.start_nanos == b.start_nanos) ≡ true =
        ap (λ n. b.start_nanos == n) s ∙ same_slide slide positive b.start_nanos k k s refl in
      (
        rw same refl,
        after-Holds (held empty bs) slide k (k + 1) b bs positive r (omega arith) s
            (held-Holds (k + 1) bs r),
      )

  -- Nothing is held of a slide after the ring.
  pub held-after :
      (k t : ℕ) (bs : List (Bucket S))
      → Ring slide k bs
      → k + length bs ≤ t
      → held empty bs (slide * t) ≡ empty
  held-after k t [] r h = refl
  held-after k t (b ∷ bs) (s, r) h =
      rw (later_slide slide positive b.start_nanos k t s (omega arith))
        (held-after (k + 1) t bs r (omega arith))

-- `vs` begins with `ws`.
abbrev pub StartsWith : {A : Type 0} → List A → List A → Type 0
StartsWith [] vs = Unit
StartsWith (w ∷ ws) [] = ⊥
StartsWith (w ∷ ws) (v ∷ vs) = (v ≡ w) × StartsWith ws vs

pub StartsWith-refl : {A : Type 0} (ws : List A) → StartsWith ws ws
StartsWith-refl [] = tt
StartsWith-refl (w ∷ ws) = (refl, StartsWith-refl ws)

pub append-StartsWith :
    {A : Type 0} (ws vs us : List A) → StartsWith ws vs → StartsWith ws (vs ++ us)
append-StartsWith [] vs us h = tt
append-StartsWith (w ∷ ws) [] us h = absurd h
append-StartsWith (w ∷ ws) (v ∷ vs) us (e, h) = (e, append-StartsWith ws vs us h)
