-- ===== src/Algos/SpaceSaving/Heap/Swap.antt =====
-- `swap_heap` of space_saving.rs: two places of the heap change their slots.
use flowsketch.Base.{
  ℕ, ◌≤◌, ◌<◌, ◌≡◌, ◌≢◌, refl, ap, ◌∙◌, List, some, true, false, get_or, set, length, length-set,
  get_or-set, ◌==◌, if◌then◌else◌, arith,
}
use flowsketch.Base.Panic.{get_elem?-get_or}
use flowsketch.Algos.SpaceSaving.{Slot, SpaceSaving}
use flowsketch.Algos.SpaceSaving.Heap.{less, slot_is_less, heap_slot_is_less, swap_heap, parent}
use flowsketch.Algos.SpaceSaving.Heap.Links.{
  blank, heap_at, slot_at, count_at, Linked, Rearranged, Rearranged-trans, pointed, point_back-ok,
  pointed-key, pointed-digest, pointed-entry, pointed-heap_index, pointed-sum,
}

pub heap_slot_is_less-ok :
    (s : SpaceSaving) (i j : ℕ)
    → Linked s
    → i < length s.min_heap
    → j < length s.min_heap
    → heap_slot_is_less s i j ≡ some (less (slot_at s (heap_at s i)) (slot_at s (heap_at s j)))
unfolding heap_slot_is_less slot_is_less
heap_slot_is_less-ok s i j m hi hj = rw (
  get_elem?-get_or s.min_heap i 0 hi,
  get_elem?-get_or s.min_heap j 0 hj,
  get_elem?-get_or s.slots (heap_at s i) blank (m.inside i hi),
  get_elem?-get_or s.slots (heap_at s j) blank (m.inside j hj),
)

abbrev swapped_heap : SpaceSaving → ℕ → ℕ → List ℕ
swapped_heap s l r = set (set s.min_heap l (heap_at s r)) r (heap_at s l)

abbrev pub swapped : SpaceSaving → ℕ → ℕ → SpaceSaving
swapped s l r = record s {
  min_heap = swapped_heap s l r;
  slots = pointed r (heap_at s l) (pointed l (heap_at s r) s.slots);
}

module _ (s : SpaceSaving) (l r : ℕ) (hl : l < length s.min_heap) (hr : r < length s.min_heap)
    (ne : l ≢ r) where
  swapped-heap_at :
      (i : ℕ)
      → get_or (swapped_heap s l r) i 0
        ≡ (if r == i then heap_at s l else if l == i then heap_at s r else heap_at s i)
  swapped-heap_at i = rw (
    get_or-set (set s.min_heap l (heap_at s r)) r i (heap_at s l) 0
        (omega (arith, length-set s.min_heap l (heap_at s r))),
    get_or-set s.min_heap l i (heap_at s r) 0 hl,
  )

  size : length (swapped_heap s l r) ≡ length s.min_heap
  size =
      length-set (set s.min_heap l (heap_at s r)) r (heap_at s l)
      ∙ length-set s.min_heap l (heap_at s r)

  module _ (m : Linked s) where
    slots_size : length (swapped s l r).slots ≡ length s.slots
    slots_size =
        length-set (pointed l (heap_at s r) s.slots) (heap_at s l)
          (record (get_or (pointed l (heap_at s r) s.slots) (heap_at s l) blank) { heap_index = r })
        ∙ length-set s.slots (heap_at s r) (record (slot_at s (heap_at s r)) { heap_index = l })

    mid : heap_at s l < length (pointed l (heap_at s r) s.slots)
    mid = omega (
      arith,
      m.inside l hl,
      length-set s.slots (heap_at s r) (record (slot_at s (heap_at s r)) { heap_index = l }),
    )

    swapped-heap_index :
        (t : ℕ)
        → (slot_at (swapped s l r) t).heap_index ≡ (
            if heap_at s l == t
            then r
            else if heap_at s r == t
            then l
            else (slot_at s t).heap_index)
    swapped-heap_index t = rw (
      pointed-heap_index r (heap_at s l) (pointed l (heap_at s r) s.slots) mid t,
      pointed-heap_index l (heap_at s r) s.slots (m.inside r hr) t,
    )

    pub swap_heap-ok : swap_heap s l r ≡ some (swapped s l r)
    unfolding swap_heap
    swap_heap-ok =
        let left : get_or (swapped_heap s l r) l 0 ≡ heap_at s r =
          ground (arith, swapped-heap_at l) in
        let right : get_or (swapped_heap s l r) r 0 ≡ heap_at s l =
          ground (arith, swapped-heap_at r) in
        rw (
          get_elem?-get_or s.min_heap l 0 hl,
          get_elem?-get_or s.min_heap r 0 hr,
          point_back-ok l (swapped_heap s l r) s.slots (omega (arith, size))
              (omega (arith, left, m.inside r hr)),
          left,
          point_back-ok r (swapped_heap s l r) (pointed l (heap_at s r) s.slots)
              (omega (arith, size)) (omega (arith, right, mid)),
          right,
        )

    pub swapped-Rearranged : Rearranged s (swapped s l r)
    swapped-Rearranged =
        let first = pointed l (heap_at s r) s.slots in
        let inside = m.inside r hr in
        record {
          capacity = refl;
          hash = refl;
          key_index = refl;
          total_weight = refl;
          updates = refl;
          slots = slots_size;
          heap = size;
          key = λ i.
              pointed-key r (heap_at s l) first mid i
              ∙ pointed-key l (heap_at s r) s.slots inside i;
          digest = λ i.
              pointed-digest r (heap_at s l) first mid i
              ∙ pointed-digest l (heap_at s r) s.slots inside i;
          entry = λ i.
              pointed-entry r (heap_at s l) first mid i
              ∙ pointed-entry l (heap_at s r) s.slots inside i;
          sum = pointed-sum r (heap_at s l) first mid ∙ pointed-sum l (heap_at s r) s.slots inside;
        }

    pub swapped-Linked : Linked (swapped s l r)
    swapped-Linked = record {
      size = omega (arith, size, slots_size, m.size);
      inside = λ i h.
          ground
            (arith, swapped-heap_at i, size, slots_size, m.inside l hl, m.inside r hr, m.inside i);
      back = λ i h. ground (
        arith,
        swapped-heap_at i,
        swapped-heap_index (heap_at (swapped s l r) i),
        size,
        m.back l hl,
        m.back r hr,
        m.back i,
      );
      place = λ t h. ground (arith, swapped-heap_index t, size, slots_size, m.place t);
      there = λ t h. ground (
        arith,
        swapped-heap_at (slot_at (swapped s l r) t).heap_index,
        swapped-heap_index t,
        slots_size,
        m.there t,
        m.back l hl,
        m.back r hr,
      );
    }

    pub swapped-count_at :
        (i : ℕ)
        → count_at (swapped s l r) i
          ≡ (if r == i then count_at s l else if l == i then count_at s r else count_at s i)
    swapped-count_at i =
        ap (λ e. e.count) (swapped-Rearranged.entry (heap_at (swapped s l r) i))
        ∙ rw (swapped-heap_at i) (ground arith)

-- The order of slots agrees with the order of their counts.
pub less-true : (a b : Slot) → less a b ≡ true → a.entry.count ≤ b.entry.count
unfolding less
less-true a b h = ground arith

pub less-false : (a b : Slot) → less a b ≡ false → b.entry.count ≤ a.entry.count
unfolding less
less-false a b h = ground arith

abbrev pub Ordered : SpaceSaving → Type 0
Ordered s = (c : ℕ) → 0 < c → c < length s.min_heap → count_at s (parent c) ≤ count_at s c

-- What a sift leaves: the same entries, linked and in order.
pub record Sifted (s t : SpaceSaving) : Type 0 where
  pub linked : Linked t
  pub same : Rearranged s t
  pub ordered : Ordered t

pub Sifted-after : {s t u : SpaceSaving} → Rearranged s t → Sifted t u → Sifted s u
Sifted-after a b = record {
  linked = b.linked;
  same = Rearranged-trans a b.same;
  ordered = b.ordered;
}
