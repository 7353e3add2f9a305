-- ===== src/Algos/SpaceSaving/Consistent/Write.antt =====
-- space_saving.rs: a slot that is written over in place, with a count that has not become smaller.
use flowsketch.Base.{
  ℕ, ◌≤◌, ◌<◌, ◌≡◌, ◌≢◌, sym, ap, ◌∙◌, set, length, length-set, get_or-set, ◌==◌, ==_iff,
  if◌then◌else◌, arith,
}
use flowsketch.Algos.SpaceSaving.{Slot, KeyIndex, SpaceSaving}
use flowsketch.Algos.SpaceSaving.Heap.{parent}
use flowsketch.Algos.SpaceSaving.Heap.Down.{DownInv}
use flowsketch.Algos.SpaceSaving.Heap.Links.{blank, heap_at, slot_at, count_at, Linked}
use flowsketch.Algos.SpaceSaving.Heap.Swap.{Ordered}

module _ (s : SpaceSaving) (u : ℕ) (v : Slot) (index : KeyIndex) where
  abbrev pub written : SpaceSaving
  written = record s { slots = set s.slots u v; key_index = index }

  pub written-slots : length (written).slots ≡ length s.slots
  written-slots = length-set s.slots u v

  module _ (h : u < length s.slots) where
    pub written-slot_at : (t : ℕ) → slot_at written t ≡ (if u == t then v else slot_at s t)
    written-slot_at t = get_or-set s.slots u t v blank h

    pub here : (t : ℕ) → u ≡ t → slot_at written t ≡ v
    here t e = written-slot_at t ∙ ap (λ b. if b then v else slot_at s t) ((==_iff u t).1 e)

    pub elsewhere : (t : ℕ) → u ≢ t → slot_at written t ≡ slot_at s t
    elsewhere t ne = ground (arith, written-slot_at t)

    pub written-key :
        (t : ℕ) → (slot_at written t).key ≡ (if u == t then v.key else (slot_at s t).key)
    written-key t = rw (written-slot_at t) (ground arith)

    pub written-digest :
        (t : ℕ) → (slot_at written t).digest ≡ (if u == t then v.digest else (slot_at s t).digest)
    written-digest t = rw (written-slot_at t) (ground arith)

    pub written-entry :
        (t : ℕ) → (slot_at written t).entry ≡ (if u == t then v.entry else (slot_at s t).entry)
    written-entry t = rw (written-slot_at t) (ground arith)

    written-count_at :
        (i : ℕ) → count_at written i ≡ (if u == heap_at s i then v.entry.count else count_at s i)
    written-count_at i = ap (λ e. e.count) (written-entry (heap_at s i)) ∙ ground arith

    module _ (stays : v.heap_index ≡ (slot_at s u).heap_index) (m : Linked s) where
      written-heap_index : (t : ℕ) → (slot_at written t).heap_index ≡ (slot_at s t).heap_index
      written-heap_index t = rw (written-slot_at t) (ground arith)

      pub written-Linked : Linked written
      written-Linked = record {
        size = m.size ∙ sym written-slots;
        inside = λ i k. omega (arith, written-slots, m.inside i k);
        back = λ i k. written-heap_index (heap_at s i) ∙ m.back i k;
        place = λ t k.
            omega (
              arith,
              written-heap_index t,
              written-slots,
              m.place t (omega (arith, written-slots)),
            );
        there =
            λ t k. ap (heap_at s) (written-heap_index t) ∙ m.there t (omega (arith, written-slots));
      }

      pub written-DownInv :
          Ordered s
          → (slot_at s u).entry.count ≤ v.entry.count
          → DownInv written (slot_at s u).heap_index
      written-DownInv o grows = record {
        edges = λ c p q ne. ground (
          arith,
          written-count_at c,
          written-count_at (parent c),
          o c p q,
          m.there u h,
          m.back c q,
          m.back (parent c),
        );
        bridged = λ c p q e positive. ground (
          arith,
          written-count_at c,
          written-count_at (parent (slot_at s u).heap_index),
          o c p q,
          o (slot_at s u).heap_index,
          m.there u h,
          m.place u h,
          m.back c q,
          m.back (parent (slot_at s u).heap_index),
        );
      }
