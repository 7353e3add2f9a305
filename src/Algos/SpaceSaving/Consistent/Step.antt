-- ===== src/Algos/SpaceSaving/Consistent/Step.antt =====
-- space_saving.rs: the branches of `add` for a summary that is full, or that has the key.
use mathlib.Core.Path.{subst}
use flowsketch.Base.{
  ℕ, ◌+◌, ◌^◌, ◌≤◌, ◌<◌, ◌≡◌, ◌≢◌, refl, sym, ap, ◌∙◌, List, some, Bool, true, false, length, ◌==◌,
  ==_iff, ℕ_discrete, if◌then◌else◌, arith,
}
use flowsketch.Base.Panic.{get_elem?-get_or}
use flowsketch.Base.Word.{add64}
use flowsketch.Algos.SpaceSaving.{Slot, KeyIndex, SpaceSaving, key_digest}
use flowsketch.Algos.SpaceSaving.Consistent.{has, Indexed, Consistent, Sifted-Consistent}
use flowsketch.Algos.SpaceSaving.Consistent.Write.{
  written, written-slots, here, elsewhere, written-key, written-digest, written-Linked,
  written-DownInv,
}
use flowsketch.Algos.SpaceSaving.Heap.Down.{DownInv, sift_down-Sifted}
use flowsketch.Algos.SpaceSaving.Heap.Links.{blank, heap_at, slot_at, count_at, Linked, Rearranged}
use flowsketch.Algos.SpaceSaving.Index.{add_to_index}
use flowsketch.Algos.SpaceSaving.Index.Buckets.{
  members, occurrences, at_bucket, add_to_index-occurrences, remove_from_index-occurrences,
}
use flowsketch.Algos.SpaceSaving.Update.{raise, replace_min, minimum_count}

same_if {ℓ} : {A : Type ℓ} (b : Bool) (x y : A) → (b ≡ true → x ≡ y) → (if b then x else y) ≡ y
same_if true x y h = h refl
same_if false x y h = refl

-- A write that keeps the key keeps the index right.
module _ (s : SpaceSaving) (u w : ℕ) (h : u < length s.slots) where
  abbrev pub raised_slot : Slot
  raised_slot = record (slot_at s u) {
    entry = record { count = add64 (slot_at s u).entry.count w; error = (slot_at s u).entry.error };
  }

  abbrev pub raised : SpaceSaving
  raised = written s u raised_slot s.key_index

  raised-key : (t : ℕ) → (slot_at raised t).key ≡ (slot_at s t).key
  raised-key t =
      written-key s u raised_slot s.key_index h t
      ∙ same_if (u == t) (slot_at s u).key (slot_at s t).key
          (λ e. ap (λ z. (slot_at s z).key) ((==_iff u t).0 e))

  raised-digest : (t : ℕ) → (slot_at raised t).digest ≡ (slot_at s t).digest
  raised-digest t = ground (arith, written-digest s u raised_slot s.key_index h t)

  raised-Indexed : Indexed s → Indexed raised
  raised-Indexed m = record {
    buckets = λ d t.
        m.buckets d t ∙ ground (arith, written-slots s u raised_slot s.key_index, raised-digest t);
    digests = λ t k.
        raised-digest t
        ∙ m.digests t (omega (arith, written-slots s u raised_slot s.key_index))
        ∙ ap (key_digest s.hash) (sym (raised-key t));
    distinct = λ t v ht hv same.
        m.distinct t v (omega (arith, written-slots s u raised_slot s.key_index))
          (omega (arith, written-slots s u raised_slot s.key_index))
          (sym (raised-key t) ∙ same ∙ raised-key v);
  }

  -- A key that is tracked gains the weight, and its slot sinks to its place.
  pub raise-Consistent :
      (slot_at s u).entry.count + w < 2 ^ 64
      → Consistent s
      → (t : SpaceSaving) × (raise s u w ≡ some t) × Consistent t × Rearranged raised t
  unfolding raise
  raise-Consistent fits m =
      let (t, run, sifted) =
        sift_down-Sifted (slot_at s u).heap_index raised
          (written-Linked s u raised_slot s.key_index h refl m.linked)
          (written-DownInv s u raised_slot s.key_index h refl m.linked m.ordered (omega arith)) in
      (
        t,
        rw (get_elem?-get_or s.slots u blank h) run,
        Sifted-Consistent sifted (raised-Indexed m.indexed),
        sifted.same,
      )

-- The slot at the root takes over a key that is not tracked.
module _ (s : SpaceSaving) (key : List ℕ) (digest count error : ℕ) where
  abbrev pub root : ℕ
  root = heap_at s 0

  abbrev pub replaced_slot : Slot
  replaced_slot = record (slot_at s root) {
    key = key;
    digest = digest;
    entry = record { count = count; error = error };
  }

  abbrev pub replaced : KeyIndex → SpaceSaving
  replaced index = written s root replaced_slot index

  replaced-has :
      root < length s.slots
      → (index : KeyIndex) (d t : ℕ)
      → has (replaced index) d t + at_bucket (slot_at s root).digest root d t
        ≡ has s d t + at_bucket digest root d t
  replaced-has h index d t = ground (
    arith,
    written-slots s root replaced_slot index,
    written-digest s root replaced_slot index h t,
  )

  replaced-digests :
      (h : root < length s.slots)
      → digest ≡ key_digest s.hash key
      → Indexed s
      → (index : KeyIndex) (t : ℕ) → t < length s.slots
      → (slot_at (replaced index) t).digest ≡ key_digest s.hash (slot_at (replaced index) t).key
  replaced-digests h right m index t k =
      let digest_of : Slot → ℕ = λ x. x.digest in
      let hash_of : Slot → ℕ = λ x. key_digest s.hash x.key in
      elim (ℕ_discrete root t) [
        | yes e ↦
            let at = here s root replaced_slot index h t e in
            ap digest_of at ∙ right ∙ ap hash_of (sym at)
        | no ne ↦
            let at = elsewhere s root replaced_slot index h t ne in
            ap digest_of at ∙ m.digests t k ∙ ap hash_of (sym at)
      ]

  replaced-distinct :
      (h : root < length s.slots)
      → ((t : ℕ) → t < length s.slots → (slot_at s t).key ≢ key)
      → Indexed s
      → (index : KeyIndex) (t v : ℕ) → t < length s.slots
      → v < length s.slots
      → (slot_at (replaced index) t).key ≡ (slot_at (replaced index) v).key
      → t ≡ v
  replaced-distinct h fresh m index t v ht hv same =
      let key_of : Slot → List ℕ = λ x. x.key in
      let at = here s root replaced_slot index h in
      let off = elsewhere s root replaced_slot index h in
      elim (ℕ_discrete root t) [
        | yes e ↦
            let right = sym same ∙ ap key_of (at t e) in
            elim (ℕ_discrete root v) [
              | yes f ↦ omega arith
              | no nf ↦ absurd (fresh v hv (sym (ap key_of (off v nf)) ∙ right))
            ]
        | no ne ↦
            let left = sym (ap key_of (off t ne)) ∙ same in
            elim (ℕ_discrete root v) [
              | yes f ↦ absurd (fresh t ht (left ∙ ap key_of (at v f)))
              | no nf ↦ m.distinct t v ht hv (left ∙ ap key_of (off v nf))
            ]
      ]

  replaced-Indexed :
      root < length s.slots
      → digest ≡ key_digest s.hash key
      → ((t : ℕ) → t < length s.slots → (slot_at s t).key ≢ key)
      → (index : KeyIndex)
      → ((d t : ℕ)
          → occurrences t (members (index d)) + at_bucket (slot_at s root).digest root d t
            ≡ occurrences t (members (s.key_index d)))
      → Indexed s
      → Indexed (replaced (add_to_index digest root index))
  replaced-Indexed h right fresh index law m =
      let index' = add_to_index digest root index in
      let size = written-slots s root replaced_slot index' in
      record {
        buckets = λ d t. omega (
          arith,
          add_to_index-occurrences digest root d t index,
          law d t,
          m.buckets d t,
          replaced-has h index' d t,
        );
        digests = λ t k. replaced-digests h right m index' t (omega (arith, size));
        distinct = λ t v ht hv.
            replaced-distinct h fresh m index' t v (omega (arith, size)) (omega (arith, size));
      }

  pub replace_min-Consistent :
      0 < length s.min_heap
      → digest ≡ key_digest s.hash key
      → ((t : ℕ) → t < length s.slots → (slot_at s t).key ≢ key)
      → count_at s 0 ≤ count
      → Consistent s
      → (t : SpaceSaving) × (index : KeyIndex) × (replace_min s key digest count error ≡ some t)
        × Consistent t
        × Rearranged (replaced index) t
  unfolding replace_min
  replace_min-Consistent some_slot right fresh grows m =
      let h : root < length s.slots = m.linked.inside 0 some_slot in
      let here : 0 < occurrences root (members (s.key_index (slot_at s root).digest)) =
        ground (arith, m.indexed.buckets (slot_at s root).digest root) in
      let (index, removed, law) =
        remove_from_index-occurrences (slot_at s root).digest root s.key_index here in
      let index' = add_to_index digest root index in
      let (t, run, sifted) =
        sift_down-Sifted 0 (replaced index')
          (written-Linked s root replaced_slot index' h refl m.linked)
          (subst (DownInv (replaced index')) (m.linked.back 0 some_slot)
            (written-DownInv s root replaced_slot index' h refl m.linked m.ordered grows)) in
      (
        t,
        index',
        rw
            (
              get_elem?-get_or s.min_heap 0 0 some_slot,
              get_elem?-get_or s.slots root blank h,
              removed,
            )
            run,
        Sifted-Consistent sifted (replaced-Indexed h right fresh index law m.indexed),
        sifted.same,
      )

  pub minimum_count-ok : 0 < length s.min_heap → Linked s → minimum_count s ≡ some (count_at s 0)
  unfolding minimum_count
  minimum_count-ok h m = rw (
    minimum_count,
    get_elem?-get_or s.min_heap 0 0 h,
    get_elem?-get_or s.slots root blank (m.inside 0 h),
  )
