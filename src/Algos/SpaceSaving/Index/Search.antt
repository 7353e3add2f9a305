-- ===== src/Algos/SpaceSaving/Index/Search.antt =====
-- The search of space_saving.rs's index through the buckets of a digest.
use mathlib.Core.Bool.{true≢false}
use flowsketch.Base.{
  ℕ, ◌+◌, ◌<◌, ◌≡◌, ◌≢◌, ◌⊎◌, inl, inr, refl, sym, ap, ◌∙◌, List, [], ◌∷◌, Option, none, some, true,
  false, Bool-cases, get_or, length, ◌==◌, arith,
}
use flowsketch.Base.Bytes.{bytes_eq, bytes_eq_iff}
use flowsketch.Base.Panic.{get_elem?-get_or}
use flowsketch.Algos.SpaceSaving.{Slot, IndexBucket, one, many}
use flowsketch.Algos.SpaceSaving.Heap.Links.{blank}
use flowsketch.Algos.SpaceSaving.Index.{find_among, find_in_bucket}
use flowsketch.Algos.SpaceSaving.Index.Buckets.{members, occurrences, hit}

-- What a search through slots finds: one with the key, or that none of them has it.
abbrev pub Found : List Slot → List ℕ → (ℕ → ℕ) → Option (Option ℕ) → Type 0
Found slots key among result =
    ((t : ℕ) × (result ≡ some (some t)) × (0 < among t) × ((get_or slots t blank).key ≡ key))
    ⊎ ((result ≡ some none) × ((t : ℕ) → 0 < among t → (get_or slots t blank).key ≢ key))

pub bytes_ne : (xs ys : List ℕ) → bytes_eq xs ys ≡ false → xs ≢ ys
bytes_ne xs ys e same = true≢false (sym ((bytes_eq_iff xs ys).1 same) ∙ e)

==_to : (a b : ℕ) → (a == b) ≡ true → a ≡ b
==_to a b h = ground arith

hit-eq : (u t : ℕ) → 0 < hit u t + 0 → u ≡ t
hit-eq u t h = ground arith

find_among-Found :
    (slots : List Slot) (key is : List ℕ)
    → ((t : ℕ) → 0 < occurrences t is → t < length slots)
    → Found slots key (λ t. occurrences t is) (find_among slots key is)
unfolding find_among occurrences
find_among-Found slots key [] valid = inr (refl, λ t h. absurd (omega arith))
find_among-Found slots key (i ∷ is) valid =
    let at = get_elem?-get_or slots i blank (valid i (ground arith)) in
    let this = get_or slots i blank in
    elim (Bool-cases (bytes_eq this.key key)) [
      | inl e ↦ inl (i, rw (at, e), ground arith, (bytes_eq_iff this.key key).0 e)
      | inr e ↦ elim (find_among-Found slots key is (λ t h. valid t (omega arith))) [
        | inl (t, found, h, same) ↦ inl (t, rw (at, e) found, omega arith, same)
        | inr (found, others) ↦ inr (
          rw (at, e) found,
          λ t h. elim (Bool-cases (i == t)) [
            | inl k ↦ λ same.
                bytes_ne this.key key e (ap (λ z. (get_or slots z blank).key) (==_to i t k) ∙ same)
            | inr k ↦ others t (ground arith)
          ],
        )
      ]
    ]

-- The search through a bucket whose slots are all in range.
pub find_in_bucket-Found :
    (slots : List Slot) (key : List ℕ) (bucket : Option IndexBucket)
    → ((t : ℕ) → 0 < occurrences t (members bucket) → t < length slots)
    → Found slots key (λ t. occurrences t (members bucket)) (find_in_bucket slots key bucket)
unfolding find_in_bucket members occurrences
find_in_bucket-Found slots key none valid = inr (refl, λ t h. absurd (omega arith))
find_in_bucket-Found slots key (some (many is)) valid = find_among-Found slots key is valid
find_in_bucket-Found slots key (some (one i)) valid =
    let at = get_elem?-get_or slots i blank (valid i (ground arith)) in
    let this = get_or slots i blank in
    elim (Bool-cases (bytes_eq this.key key)) [
      | inl e ↦ inl (i, rw (at, e), ground arith, (bytes_eq_iff this.key key).0 e)
      | inr e ↦ inr (
        rw (at, e),
        λ t h same.
            bytes_ne this.key key e (ap (λ z. (get_or slots z blank).key) (hit-eq i t h) ∙ same),
      )
    ]
