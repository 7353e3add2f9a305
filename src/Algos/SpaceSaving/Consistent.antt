-- ===== src/Algos/SpaceSaving/Consistent.antt =====
-- space_saving.rs: a summary whose heap, slots and index agree.
pub mod Insert
pub mod Write
pub mod Step
use flowsketch.Base.{
  ℕ, zero, suc, ◌+◌, ◌-◌, ◌≤◌, ◌<◌, ◌≡◌, ◌≢◌, ◌⊎◌, inl, inr, refl, sym, ap, ◌∙◌, List, [], ◌∷◌,
  ◌++◌, Option, none, some, Bool, true, false, Bool-cases, ◌&&◌, get_or, set, ltb, ==_iff, dec_lt,
  length, length-set, length-append, get_or-set, ◌==◌, if◌then◌else◌, arith,
}
use flowsketch.Base.Panic.{get_or-push}
use flowsketch.Algos.SpaceSaving.{Entry, Slot, KeyIndex, SpaceSaving, key_digest}
use flowsketch.Algos.SpaceSaving.Heap.{parent}
use flowsketch.Algos.SpaceSaving.Heap.Links.{blank, heap_at, slot_at, count_at, Linked, Rearranged}
use flowsketch.Algos.SpaceSaving.Heap.Swap.{Ordered, Sifted}
use flowsketch.Algos.SpaceSaving.Index.{find_slot_with_digest, find_slot, add_to_index}
use flowsketch.Algos.SpaceSaving.Index.Buckets.{
  members, hit, occurrences, at_bucket, add_to_index-occurrences,
}
use flowsketch.Algos.SpaceSaving.Index.Search.{find_in_bucket-Found}

-- 1 if slot `t` has the digest `d`.
abbrev pub has : SpaceSaving → ℕ → ℕ → ℕ
has s d t = if ltb t (length s.slots) && (slot_at s t).digest == d then 1 else 0

-- The bucket of a digest holds each slot with that digest once, and no other.
abbrev pub Buckets : SpaceSaving → Type 0
Buckets s = (d t : ℕ) → occurrences t (members (s.key_index d)) ≡ has s d t

-- The index lists the slots by the digests of their keys, which differ.
pub record Indexed (s : SpaceSaving) : Type 0 where
  pub buckets : Buckets s
  pub digests :
      (t : ℕ) → t < length s.slots → (slot_at s t).digest ≡ key_digest s.hash (slot_at s t).key
  pub distinct :
      (t u : ℕ)
      → t < length s.slots
      → u < length s.slots
      → (slot_at s t).key ≡ (slot_at s u).key
      → t ≡ u

pub record Consistent (s : SpaceSaving) : Type 0 where
  pub linked : Linked s
  pub ordered : Ordered s
  pub indexed : Indexed s

pub Tracks : SpaceSaving → List ℕ → ℕ → Type 0
Tracks s key t = (t < length s.slots) × ((slot_at s t).key ≡ key)

-- The search of the index finds the slot of a key, and only then.
pub find_slot_cases :
    (s : SpaceSaving) (key : List ℕ)
    → Indexed s
    → ((t : ℕ) × (find_slot s key ≡ some (some t))
        × (t < length s.slots)
        × ((slot_at s t).key ≡ key))
      ⊎ ((find_slot s key ≡ some none) × ((t : ℕ) → t < length s.slots → (slot_at s t).key ≢ key))
unfolding find_slot find_slot_with_digest
find_slot_cases s key m =
    let d = key_digest s.hash key in
    let found =
      find_in_bucket-Found s.slots key (s.key_index d) (λ t h. ground (arith, m.buckets d t)) in
    elim found [
      | inl (t, e, h, same) ↦ inl (t, e, ground (arith, m.buckets d t), same)
      | inr (e, others) ↦ inr (
        e,
        λ t h same.
            let digest : (slot_at s t).digest ≡ d = m.digests t h ∙ ap (key_digest s.hash) same in
            others t (ground (arith, m.buckets d t)) same,
      )
    ]

pub Rearranged-Indexed : {s t : SpaceSaving} → Rearranged s t → Indexed s → Indexed t
Rearranged-Indexed {s} {t} r m = record {
  buckets = λ d i.
      ap (λ index. occurrences i (members (index d))) r.key_index
      ∙ ground (arith, m.buckets d i, r.slots, r.digest i);
  digests = λ i h. r.digest i ∙ m.digests i (omega (arith, r.slots)) ∙ rw (r.hash, r.key i);
  distinct = λ i j hi hj same.
      m.distinct i j (omega (arith, r.slots)) (omega (arith, r.slots))
        (sym (r.key i) ∙ same ∙ r.key j);
}

pub Sifted-Consistent : {s t : SpaceSaving} → Sifted s t → Indexed s → Consistent t
Sifted-Consistent {s} {t} r m = record {
  linked = r.linked;
  ordered = r.ordered;
  indexed = Rearranged-Indexed r.same m;
}
