-- ===== src/Algos/SpaceSaving/Index/Buckets.antt =====
-- How often a slot stands in the buckets of space_saving.rs's index, through joins and removals.
use flowsketch.Base.{
  ℕ, zero, suc, ◌+◌, ◌-◌, ◌<◌, ◌≡◌, inl, inr, Option-cases, refl, sym, ap, ◌∙◌, List, [], ◌∷◌, ◌++◌,
  Option, none, some, false, Bool-cases, get_or, set, take, length, length-set, get_or-set, ◌==◌,
  if◌then◌else◌, arith,
}
use flowsketch.Algos.SpaceSaving.{IndexBucket, one, many, KeyIndex}
use flowsketch.Algos.SpaceSaving.Index.{
  put_bucket, drop_bucket, join_bucket, add_to_index, position, swap_remove, collapse,
  remove_from_bucket, remove_from_index,
}

unfoldable pub members : Option IndexBucket → List ℕ
members none = []
members (some (one i)) = i ∷ []
members (some (many is)) = is

-- 1 for equal numbers.
abbrev pub hit : ℕ → ℕ → ℕ
hit u t = if u == t then 1 else 0

unfoldable pub occurrences : ℕ → List ℕ → ℕ
occurrences t [] = 0
occurrences t (i ∷ is) = hit i t + occurrences t is

occurrences-push :
    (t i : ℕ) (is : List ℕ) → occurrences t (is ++ i ∷ []) ≡ occurrences t is + hit i t
unfolding occurrences
occurrences-push t i [] = omega arith
occurrences-push t i (j ∷ is) = omega (arith, occurrences-push t i is)

occurrences-set :
    (t p v : ℕ) (is : List ℕ)
    → p < length is
    → occurrences t (set is p v) + hit (get_or is p 0) t ≡ occurrences t is + hit v t
unfolding occurrences
occurrences-set t p v [] h = absurd (omega arith)
occurrences-set t zero v (i ∷ is) h = omega arith
occurrences-set t (suc p) v (i ∷ is) h = omega (arith, occurrences-set t p v is (omega arith))

occurrences-take :
    (t n : ℕ) (is : List ℕ)
    → length is ≡ suc n
    → occurrences t (take n is) + hit (get_or is n 0) t ≡ occurrences t is
unfolding occurrences
occurrences-take t n [] h = absurd (omega arith)
occurrences-take t zero (i ∷ []) h = omega arith
occurrences-take t zero (i ∷ j ∷ is) h = absurd (omega arith)
occurrences-take t (suc n) (i ∷ is) h = omega (arith, occurrences-take t n is (omega arith))

occurrences-swap_remove :
    (t p : ℕ) (is : List ℕ)
    → p < length is
    → occurrences t (swap_remove p is) + hit (get_or is p 0) t ≡ occurrences t is
unfolding swap_remove
occurrences-swap_remove t p is h =
    let n = length is - 1 in
    let last = get_or is n 0 in
    let stays : get_or (set is p last) n 0 ≡ last = ground (arith, get_or-set is p n last 0 h) in
    omega (
      arith,
      occurrences-set t p last is h,
      rw stays at (occurrences-take t n (set is p last) (omega (arith, length-set is p last))),
    )

position-occurrences :
    (u : ℕ) (is : List ℕ)
    → 0 < occurrences u is
    → (p : ℕ) × (position u is ≡ some p) × (p < length is) × (get_or is p 0 ≡ u)
unfolding occurrences position
position-occurrences u [] h = absurd (omega arith)
position-occurrences u (i ∷ is) h = elim (Bool-cases (i == u)) [
  | inl e ↦ (0, rw e, omega arith, ground arith)
  | inr e ↦
      let (p, found, inside, same) = position-occurrences u is (ground arith) in
      (suc p, rw (e, found), omega (arith, inside), same)
]

occurrences-collapse :
    (t : ℕ) (is : List ℕ) → occurrences t (members (some (collapse is))) ≡ occurrences t is
unfolding members occurrences collapse
occurrences-collapse t [] = refl
occurrences-collapse t (i ∷ []) = refl
occurrences-collapse t (i ∷ j ∷ is) = rw (long (length is))
  where
    long : (n : ℕ) → (suc (suc n) == 1) ≡ false
    long n = ground arith

join_bucket-members :
    (t u : ℕ) (bucket : Option IndexBucket)
    → occurrences t (members (some (join_bucket u bucket)))
      ≡ occurrences t (members bucket) + hit u t
unfolding members occurrences join_bucket
join_bucket-members t u none = omega arith
join_bucket-members t u (some (one i)) = omega arith
join_bucket-members t u (some (many is)) = occurrences-push t u is

-- 1 for the slot `u` in the bucket of `d`.
abbrev pub at_bucket : ℕ → ℕ → ℕ → ℕ → ℕ
at_bucket d u e t = if d == e then hit u t else 0

pub add_to_index-occurrences :
    (d u e t : ℕ) (index : KeyIndex)
    → occurrences t (members (add_to_index d u index e))
      ≡ occurrences t (members (index e)) + at_bucket d u e t
unfolding add_to_index put_bucket
add_to_index-occurrences d u e t index = elim (Bool-cases (d == e)) [
  | inl h ↦
      let same : d ≡ e = ground arith in
      rw (h, join_bucket-members t u (index d), same) (omega arith)
  | inr h ↦ rw h (omega arith)
]

drop_bucket-occurrences :
    (d e t : ℕ) (index : KeyIndex)
    → occurrences t (members (drop_bucket d index e))
      ≡ (if d == e then 0 else occurrences t (members (index e)))
unfolding drop_bucket members occurrences
drop_bucket-occurrences d e t index = elim (Bool-cases (d == e)) [ inl h ↦ rw h | inr h ↦ rw h ]

put_bucket-occurrences :
    (d e t : ℕ) (bucket : IndexBucket) (index : KeyIndex)
    → occurrences t (members (put_bucket d bucket index e)) ≡ (
        if d == e then occurrences t (members (some bucket)) else occurrences t (members (index e)))
unfolding put_bucket
put_bucket-occurrences d e t bucket index = elim (Bool-cases (d == e)) [
  | inl h ↦ rw h
  | inr h ↦ rw h
]

leaves_bucket :
    (d u e t n : ℕ) (bucket : IndexBucket) (index : KeyIndex)
    → index d ≡ some bucket
    → n + hit u t ≡ occurrences t (members (some bucket))
    → (if d == e then n else occurrences t (members (index e))) + at_bucket d u e t
      ≡ occurrences t (members (index e))
leaves_bucket d u e t n bucket index found h = elim (Bool-cases (d == e)) [
  | inl k ↦
      let same : d ≡ e = ground arith in
      let there : occurrences t (members (index e)) ≡ occurrences t (members (some bucket)) =
        ap (λ z. occurrences t (members (index z))) (sym same)
        ∙ ap (λ b. occurrences t (members b)) found in
      rw k (omega (arith, h, there))
  | inr k ↦ rw k (omega arith)
]

only_member :
    (u i t : ℕ)
    → 0 < occurrences u (members (some (one i)))
    → 0 + hit u t ≡ occurrences t (members (some (one i)))
unfolding members occurrences
only_member u i t h = ground arith

remove_from_bucket-occurrences :
    (d u : ℕ) (bucket : IndexBucket) (index : KeyIndex)
    → index d ≡ some bucket
    → 0 < occurrences u (members (some bucket))
    → (r : KeyIndex) × (remove_from_bucket d u bucket index ≡ some r)
      × ((e t : ℕ)
          → occurrences t (members (r e)) + at_bucket d u e t ≡ occurrences t (members (index e)))
unfolding remove_from_bucket members
remove_from_bucket-occurrences d u (one i) index found h = (
  drop_bucket d index,
  refl,
  λ e t.
      ap (λ n. n + at_bucket d u e t) (drop_bucket-occurrences d e t index)
      ∙ leaves_bucket d u e t 0 (one i) index found (only_member u i t h),
)
remove_from_bucket-occurrences d u (many is) index found h =
    let (p, at, inside, same) = position-occurrences u is h in
    let bucket = collapse (swap_remove p is) in
    (
      put_bucket d bucket index,
      rw at,
      λ e t.
          ap (λ n. n + at_bucket d u e t) (put_bucket-occurrences d e t bucket index)
          ∙ leaves_bucket d u e t (occurrences t (members (some bucket))) (many is) index found (
              ap (λ n. n + hit u t) (occurrences-collapse t (swap_remove p is))
              ∙ rw same at (occurrences-swap_remove t p is inside)),
    )

pub occurrences-none : (t : ℕ) → occurrences t (members none) ≡ 0
unfolding members occurrences
occurrences-none t = refl

nobody : (u : ℕ) → ¬ (0 < occurrences u (members none))
unfolding members occurrences
nobody u h = omega arith

-- A slot that stands in the bucket of a digest is taken out of it, and nothing else changes.
pub remove_from_index-occurrences :
    (d u : ℕ) (index : KeyIndex)
    → 0 < occurrences u (members (index d))
    → (r : KeyIndex) × (remove_from_index d u index ≡ some r)
      × ((e t : ℕ)
          → occurrences t (members (r e)) + at_bucket d u e t ≡ occurrences t (members (index e)))
unfolding remove_from_index
remove_from_index-occurrences d u index h = elim (Option-cases (index d)) [
  | inl e ↦ absurd (nobody u (rw e at h))
  | inr (bucket, e) ↦
      let (r, run, law) = remove_from_bucket-occurrences d u bucket index e (rw e at h) in
      (r, rw e run, law)
]
