-- ===== src/Algos/SpaceSaving/Guarantee/Step.antt =====
-- space_saving.rs: each branch of `add` keeps the slots true to the stream.
use mathlib.Core.Path.{subst}
use flowsketch.Base.{
  ℕ, ◌+◌, ◌≤◌, ◌<◌, ◌≡◌, ◌≢◌, refl, sym, ◌∙◌, List, length, Bool-cases, inl, inr, ℕ_discrete, arith,
}
use flowsketch.Base.Bytes.{bytes_eq, bytes_eq_iff, eq_of_bytes_eq}
use flowsketch.Algos.SpaceSaving.{SpaceSaving}
use flowsketch.Algos.SpaceSaving.Guarantee.{key_of, count_of, error_of, Untracked, Approx}
use flowsketch.Algos.SpaceSaving.Guarantee.Change.{Change}
use flowsketch.Algos.Truth.{plus}

plus-same :
    (f : List ℕ → ℕ) (key : List ℕ) (w : ℕ) (other : List ℕ)
    → other ≡ key
    → plus f key w other ≡ f other + w
plus-same f key w other e = ground (arith, (bytes_eq_iff key other).1 (sym e))

plus-other :
    (f : List ℕ → ℕ) (key : List ℕ) (w : ℕ) (other : List ℕ)
    → other ≢ key
    → plus f key w other ≡ f other
plus-other f key w other ne = elim (Bool-cases (bytes_eq key other)) [
  | inl e ↦ absurd (ne (sym (eq_of_bytes_eq key other e)))
  | inr e ↦ ground arith
]

-- A property of the numbers of every slot, from the changed slot and from the others.
module _ {s t : SpaceSaving} {u old : ℕ} {key : List ℕ} {count error : ℕ}
    (c : Change s t u old key count error) where
  pub each :
      (P : List ℕ → ℕ → ℕ → Type 0)
      → P key count error
      → ((i : ℕ) → i < length s.slots → u ≢ i → P (key_of s i) (count_of s i) (error_of s i))
      → (u ≤ length s.slots)
      → (i : ℕ) → i < length t.slots
      → P (key_of t i) (count_of t i) (error_of t i)
  each P here there inside i h = elim (ℕ_discrete u i) [
    | yes e ↦
        subst (λ z. P (key_of t z) (count_of t z) (error_of t z)) e
          (rw (c.key_here, c.count_here, c.error_here) here)
    | no ne ↦
        let k : i < length s.slots = omega (arith, c.size) in
        rw (c.key_there i k ne, c.count_there i k ne, c.error_there i k ne) (there i k ne)
  ]

  -- A key that no slot holds now.
  not_new : (u ≤ length s.slots) → (other : List ℕ) → Untracked t other → other ≢ key
  not_new inside other free e = free u (omega (arith, c.size)) (c.key_here ∙ sym e)

  pub not_old :
      (other : List ℕ)
      → Untracked t other
      → (i : ℕ) → i < length s.slots
      → u ≢ i
      → key_of s i ≢ other
  not_old other free i h ne e = free i (omega (arith, c.size)) (c.key_there i h ne ∙ e)

-- The key of the slot, or one that no slot had: `gone` is the key that left, if one did.
pub record Branch (s t : SpaceSaving) (u old : ℕ) (key : List ℕ) (count error : ℕ) (f : List ℕ → ℕ)
    (w : ℕ) : Type 0 where
  pub change : Change s t u old key count error
  pub inside : u ≤ length s.slots
  pub fits : length t.slots ≤ s.capacity
  pub low : error ≤ count
  pub under : count ≤ f key + w + error
  pub over : f key + w ≤ count
  pub grows : old + w ≡ count
  pub others : (i : ℕ) → i < length s.slots → u ≢ i → key_of s i ≢ key
  pub untracked :
      (other : List ℕ)
      → other ≢ key
      → Untracked t other
      → (i : ℕ) → i < length s.slots
      → f other ≤ count_of s i
  pub untracked_here : (other : List ℕ) → other ≢ key → Untracked t other → f other ≤ count
  pub room :
      (other : List ℕ) → other ≢ key → Untracked t other → length t.slots < s.capacity → f other ≡ 0
  pub errors : (i : ℕ) → i < length s.slots → (error ≤ count_of s i) × (error_of s i ≤ count)
  pub exact : length t.slots < s.capacity → (error ≡ 0) × (length s.slots < s.capacity)

pub Branch-Approx :
    {s t : SpaceSaving} {u old : ℕ} {key : List ℕ} {count error : ℕ} {w : ℕ} (f : List ℕ → ℕ)
    (n : ℕ)
    → Branch s t u old key count error f w
    → Approx s f n
    → Approx t (plus f key w) (n + w)
Branch-Approx {s} {t} {u} {old} {key} {count} {error} {w} f n b a =
    let c = b.change in
    let g = plus f key w in
    let self = plus-same f key w key refl in
    let other : (i : ℕ) → i < length s.slots → u ≢ i → g (key_of s i) ≡ f (key_of s i) =
      λ i h ne. plus-other f key w (key_of s i) (b.others i h ne) in
    record {
      size = omega (arith, b.fits, c.capacity);
      sum = omega (arith, c.sum, b.grows, a.sum);
      low = each c (λ k p e. e ≤ p) b.low (λ i h ne. a.low i h) b.inside;
      under =
          each c (λ k p e. p ≤ g k + e) (omega (arith, b.under, self))
            (λ i h ne. omega (arith, a.under i h, other i h ne)) b.inside;
      over =
          each c (λ k p e. g k ≤ p) (omega (arith, b.over, self))
            (λ i h ne. omega (arith, a.over i h, other i h ne)) b.inside;
      untracked = λ k i free h.
          let ne = not_new c b.inside k free in
          each c (λ _ p e. g k ≤ p)
            (omega (arith, plus-other f key w k ne, b.untracked_here k ne free))
            (λ j hj _. omega (arith, plus-other f key w k ne, b.untracked k ne free j hj)) b.inside
            i h;
      room = λ k free h.
          let ne = not_new c b.inside k free in
          omega (arith, plus-other f key w k ne, b.room k ne free (omega (arith, c.capacity)));
      errors = λ i j hi hj.
          each c (λ _ p _. error_of t i ≤ p)
            (each c (λ _ _ e. e ≤ count) b.low (λ l hl _. (b.errors l hl).1) b.inside i hi)
            (λ m hm _.
              each c (λ _ _ e. e ≤ count_of s m) (b.errors m hm).0 (λ l hl _. a.errors l m hl hm)
                b.inside i hi)
            b.inside j hj;
      exact = λ i h k.
          let (none_here, room) = b.exact (omega (arith, c.capacity)) in
          each c (λ _ _ e. e ≡ 0) none_here (λ l hl _. a.exact l hl room) b.inside i h;
    }
