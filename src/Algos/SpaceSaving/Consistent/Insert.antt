-- ===== src/Algos/SpaceSaving/Consistent/Insert.antt =====
-- space_saving.rs: a new slot at the end of the arena and of the heap.
use flowsketch.Base.{
  ℕ, ◌+◌, ◌<◌, ◌≡◌, ◌≢◌, sym, ap, ◌∙◌, List, [], ◌∷◌, some, true, ltb, length, length-append, ◌==◌,
  ==_iff, dec_lt, if◌then◌else◌, arith,
}
use flowsketch.Base.Panic.{get_or-push}
use flowsketch.Algos.SpaceSaving.{Slot, SpaceSaving, key_digest}
use flowsketch.Algos.SpaceSaving.Consistent.{has, Buckets, Indexed, Consistent, Sifted-Consistent}
use flowsketch.Algos.SpaceSaving.Heap.{parent}
use flowsketch.Algos.SpaceSaving.Heap.Links.{blank, heap_at, slot_at, count_at, Linked, Rearranged}
use flowsketch.Algos.SpaceSaving.Heap.Swap.{Ordered}
use flowsketch.Algos.SpaceSaving.Heap.Up.{UpInv, sift_up-Sifted}
use flowsketch.Algos.SpaceSaving.Index.Buckets.{at_bucket, add_to_index-occurrences}
use flowsketch.Algos.SpaceSaving.Update.{push_slot, insert_entry_with_digest}

module _ (s : SpaceSaving) (key : List ℕ) (digest count error : ℕ) where
  abbrev pub new_slot : Slot
  new_slot = record {
    key = key;
    digest = digest;
    entry = record { count = count; error = error };
    heap_index = length s.min_heap;
  }

  abbrev pushed : SpaceSaving
  pushed = push_slot s key digest count error

  pub push_slot-slots : length (pushed).slots ≡ length s.slots + 1
  unfolding push_slot
  push_slot-slots = length-append s.slots (new_slot ∷ [])

  push_slot-heap : length (pushed).min_heap ≡ length s.min_heap + 1
  unfolding push_slot
  push_slot-heap = length-append s.min_heap (length s.slots ∷ [])

  pub push_slot-slot_at :
      (t : ℕ)
      → t < length s.slots + 1
      → slot_at pushed t ≡ (if t == length s.slots then new_slot else slot_at s t)
  unfolding push_slot
  push_slot-slot_at t h = get_or-push s.slots t new_slot blank h

  push_slot-heap_at :
      (i : ℕ)
      → i < length s.min_heap + 1
      → heap_at pushed i ≡ (if i == length s.min_heap then length s.slots else heap_at s i)
  unfolding push_slot
  push_slot-heap_at i h = get_or-push s.min_heap i (length s.slots) 0 h

  push_slot-heap_index :
      (t : ℕ)
      → t < length s.slots + 1
      → (slot_at pushed t).heap_index
        ≡ (if t == length s.slots then length s.min_heap else (slot_at s t).heap_index)
  push_slot-heap_index t h = rw (push_slot-slot_at t h) (ground arith)

  push_slot-key :
      (t : ℕ)
      → t < length s.slots + 1
      → (slot_at pushed t).key ≡ (if t == length s.slots then key else (slot_at s t).key)
  push_slot-key t h = rw (push_slot-slot_at t h) (ground arith)

  push_slot-digest :
      (t : ℕ)
      → t < length s.slots + 1
      → (slot_at pushed t).digest ≡ (if t == length s.slots then digest else (slot_at s t).digest)
  push_slot-digest t h = rw (push_slot-slot_at t h) (ground arith)

  push_slot-count_at :
      (m : Linked s) (i : ℕ) → i < length s.min_heap → count_at pushed i ≡ count_at s i
  push_slot-count_at m i h =
      let at : heap_at pushed i ≡ heap_at s i = ground (arith, push_slot-heap_at i) in
      let here : slot_at pushed (heap_at s i) ≡ slot_at s (heap_at s i) =
        ground (arith, push_slot-slot_at (heap_at s i), m.inside i h) in
      ap (λ z. (slot_at pushed z).entry.count) at ∙ ap (λ x. x.entry.count) here

  push_slot-Linked : Linked s → Linked pushed
  push_slot-Linked m = record {
    size = omega (arith, push_slot-slots, push_slot-heap, m.size);
    inside =
        λ i h. ground (arith, push_slot-slots, push_slot-heap, push_slot-heap_at i, m.inside i);
    back = λ i h. ground (
      arith,
      push_slot-heap,
      push_slot-heap_at i,
      push_slot-heap_index (heap_at pushed i),
      m.inside i,
      m.back i,
      m.size,
    );
    place =
        λ t h. ground (arith, push_slot-slots, push_slot-heap, push_slot-heap_index t, m.place t);
    there = λ t h. ground (
      arith,
      push_slot-slots,
      push_slot-heap_index t,
      push_slot-heap_at (slot_at pushed t).heap_index,
      m.place t,
      m.there t,
    );
  }

  push_slot-UpInv : Linked s → Ordered s → UpInv pushed (length s.min_heap)
  push_slot-UpInv m o = record {
    inside = omega (arith, push_slot-heap);
    edges = λ c p q ne.
        let inside : c < length s.min_heap = omega (arith, push_slot-heap) in
        omega (
          arith,
          push_slot-count_at m c inside,
          push_slot-count_at m (parent c) (omega arith),
          o c p inside,
        );
    bridged = λ c p q e h. absurd (omega (arith, push_slot-heap));
  }

  push_slot-has :
      (d t : ℕ)
      → (ltb (length s.slots) (length s.slots + 1) ≡ true)
      → has pushed d t ≡ has s d t + at_bucket digest (length s.slots) d t
  push_slot-has d t _ = ground (arith, push_slot-slots, push_slot-digest t)

  push_slot-Buckets : Buckets s → Buckets pushed
  unfolding push_slot
  push_slot-Buckets b d t =
      add_to_index-occurrences digest (length s.slots) d t s.key_index
      ∙ omega (arith, b d t, push_slot-has d t (ground arith))

  pub newest : (t : ℕ) → t ≡ length s.slots → slot_at pushed t ≡ new_slot
  newest t e =
      push_slot-slot_at t (omega arith)
      ∙ ap (λ b. if b then new_slot else slot_at s t) ((==_iff t (length s.slots)).1 e)

  pub older : (t : ℕ) → t < length s.slots → slot_at pushed t ≡ slot_at s t
  older t h = ground (arith, push_slot-slot_at t)

  push_slot-digests :
      digest ≡ key_digest s.hash key
      → Indexed s
      → (t : ℕ) → t < length s.slots + 1
      → (slot_at pushed t).digest ≡ key_digest s.hash (slot_at pushed t).key
  push_slot-digests right m t h = elim (dec_lt t (length s.slots)) [
    | yes k ↦
        ap (λ x. x.digest) (older t k)
        ∙ m.digests t k
        ∙ ap (λ x. key_digest s.hash x.key) (sym (older t k))
    | no k ↦
        let last = newest t (omega arith) in
        ap (λ x. x.digest) last ∙ right ∙ ap (λ x. key_digest s.hash x.key) (sym last)
  ]

  push_slot-distinct :
      ((t : ℕ) → t < length s.slots → (slot_at s t).key ≢ key)
      → Indexed s
      → (t u : ℕ) → t < length s.slots + 1
      → u < length s.slots + 1
      → (slot_at pushed t).key ≡ (slot_at pushed u).key
      → t ≡ u
  push_slot-distinct fresh m t u ht hu same =
      let key_of : Slot → List ℕ = λ x. x.key in
      elim (dec_lt t (length s.slots)) [
        | yes ot ↦
            let left = sym (ap key_of (older t ot)) ∙ same in
            elim (dec_lt u (length s.slots)) [
              | yes ou ↦ m.distinct t u ot ou (left ∙ ap key_of (older u ou))
              | no nu ↦ absurd (fresh t ot (left ∙ ap key_of (newest u (omega arith))))
            ]
        | no nt ↦
            let right = sym same ∙ ap key_of (newest t (omega arith)) in
            elim (dec_lt u (length s.slots)) [
              | yes ou ↦ absurd (fresh u ou (sym (ap key_of (older u ou)) ∙ right))
              | no nu ↦ omega arith
            ]
      ]

  push_slot-Indexed :
      digest ≡ key_digest s.hash key
      → ((t : ℕ) → t < length s.slots → (slot_at s t).key ≢ key)
      → Indexed s
      → Indexed pushed
  unfolding push_slot
  push_slot-Indexed right fresh m = record {
    buckets = push_slot-Buckets m.buckets;
    digests = λ t h. push_slot-digests right m t (omega (arith, push_slot-slots));
    distinct = λ t u ht hu.
        push_slot-distinct fresh m t u (omega (arith, push_slot-slots))
          (omega (arith, push_slot-slots));
  }

  -- An entry of a fresh key goes in without a panic, and the summary stays consistent.
  pub insert-Consistent :
      digest ≡ key_digest s.hash key
      → ((t : ℕ) → t < length s.slots → (slot_at s t).key ≢ key)
      → Consistent s
      → (t : SpaceSaving) × (insert_entry_with_digest s key digest count error ≡ some t)
        × Consistent t
        × Rearranged pushed t
  unfolding insert_entry_with_digest
  insert-Consistent right fresh m =
      let (t, run, sifted) =
        sift_up-Sifted (length s.min_heap) pushed (push_slot-Linked m.linked)
          (push_slot-UpInv m.linked m.ordered) in
      (t, run, Sifted-Consistent sifted (push_slot-Indexed right fresh m.indexed), sifted.same)
