-- ===== src/Algos/SpaceSaving/Heap/Down.antt =====
-- `sift_down` of space_saving.rs: a slot whose count may be too high for its place sinks.
use flowsketch.Base.{
  ℕ, zero, suc, ◌+◌, ◌-◌, ◌*◌, ◌≤◌, ◌<◌, ◌≡◌, ◌≢◌, ◌⊎◌, inl, inr, refl, some, Bool-cases, length,
  ltb, arith,
}
use flowsketch.Algos.SpaceSaving.{SpaceSaving}
use flowsketch.Algos.SpaceSaving.Heap.{less, parent, smallest_child, sift_down_loop, sift_down}
use flowsketch.Algos.SpaceSaving.Heap.Links.{heap_at, slot_at, count_at, Linked, Rearranged-refl}
use flowsketch.Algos.SpaceSaving.Heap.Swap.{
  heap_slot_is_less-ok, swapped, swap_heap-ok, swapped-Rearranged, swapped-Linked, swapped-count_at,
  less-true, less-false, Sifted, Sifted-after,
}

-- Only the edges below `i` may be out of order.
pub record DownInv (s : SpaceSaving) (i : ℕ) : Type 0 where
  pub edges :
      (c : ℕ) → 0 < c → c < length s.min_heap → parent c ≢ i → count_at s (parent c) ≤ count_at s c
  pub bridged :
      (c : ℕ)
      → 0 < c
      → c < length s.min_heap
      → parent c ≡ i
      → 0 < i
      → count_at s (parent i) ≤ count_at s c

record IsLeastChild (s : SpaceSaving) (i m : ℕ) : Type 0 where
  inside : m < length s.min_heap
  child : (m ≡ i * 2 + 1) ⊎ (m ≡ i * 2 + 2)
  least : (c : ℕ) → 0 < c → c < length s.min_heap → parent c ≡ i → count_at s m ≤ count_at s c

smallest_child-IsLeastChild :
    (s : SpaceSaving) (i : ℕ)
    → Linked s
    → i * 2 + 1 < length s.min_heap
    → (m : ℕ) × (smallest_child s i ≡ some m) × IsLeastChild s i m
unfolding smallest_child
smallest_child-IsLeastChild s i linked h =
    let left = i * 2 + 1 in
    let right = left + 1 in
    let a = slot_at s (heap_at s right) in
    let b = slot_at s (heap_at s left) in
    elim (Bool-cases (ltb right (length s.min_heap))) [
      | inl two ↦ elim (Bool-cases (less a b)) [
        | inl e ↦ (
          right,
          rw (two, heap_slot_is_less-ok s right left linked (ground arith) h, e),
          record {
            inside = ground arith;
            child = inr (omega arith);
            least = λ c p q r. ground (arith, less-true a b e);
          },
        )
        | inr e ↦ (
          left,
          rw (two, heap_slot_is_less-ok s right left linked (ground arith) h, e),
          record {
            inside = h;
            child = inl refl;
            least = λ c p q r. ground (arith, less-false a b e);
          },
        )
      ]
      | inr one ↦
          (left, rw one, record { inside = h; child = inl refl; least = λ c p q r. ground arith })
    ]

swapped-DownInv :
    (s : SpaceSaving) (i m : ℕ) (linked : Linked s) (hi : i < length s.min_heap)
    → DownInv s i
    → IsLeastChild s i m
    → count_at s m ≤ count_at s i
    → DownInv (swapped s i m) m
swapped-DownInv s i m linked hi v least below =
    let ne : i ≢ m = omega (arith, least.child) in
    let at = swapped-count_at s i m hi least.inside ne linked in
    let size = (swapped-Rearranged s i m hi least.inside ne linked).heap in
    record {
      edges = λ c p q r.
          ground
            (arith, size, at c, at (parent c), v.edges c, v.bridged m, least.child, least.least c);
      bridged = λ c p q r t. ground (arith, size, at c, at (parent m), least.child, v.edges c);
    }

sift_down_loop-Sifted :
    (fuel i : ℕ) (s : SpaceSaving)
    → length s.min_heap - i < fuel
    → Linked s
    → DownInv s i
    → (t : SpaceSaving) × (sift_down_loop fuel i s ≡ some t) × Sifted s t
unfolding sift_down_loop
sift_down_loop-Sifted zero i s f linked v = absurd (omega arith)
sift_down_loop-Sifted (suc fuel) i s f linked v =
    elim (Bool-cases (ltb (i * 2 + 1) (length s.min_heap))) [
      | inr e ↦ (
        s,
        rw e,
        record {
          linked = linked;
          same = Rearranged-refl s;
          ordered = λ c p q. ground (arith, v.edges c);
        },
      )
      | inl e ↦
          let (m, found, least) = smallest_child-IsLeastChild s i linked (ground arith) in
          let hi : i < length s.min_heap = ground arith in
          let a = slot_at s (heap_at s m) in
          let b = slot_at s (heap_at s i) in
          let test = heap_slot_is_less-ok s m i linked least.inside hi in
          elim (Bool-cases (less a b)) [
            | inr e' ↦ (
              s,
              rw (e, found, test, e'),
              record {
                linked = linked;
                same = Rearranged-refl s;
                ordered = λ c p q. ground (arith, v.edges c, less-false a b e', least.least c);
              },
            )
            | inl e' ↦
                let ne : i ≢ m = omega (arith, least.child) in
                let same = swapped-Rearranged s i m hi least.inside ne linked in
                let (t, rest, sifted) =
                  sift_down_loop-Sifted fuel m (swapped s i m)
                    (omega (arith, same.heap, least.child, least.inside))
                    (swapped-Linked s i m hi least.inside ne linked)
                    (swapped-DownInv s i m linked hi v least (less-true a b e')) in
                (
                  t,
                  rw (e, found, test, e', swap_heap-ok s i m hi least.inside ne linked) rest,
                  Sifted-after {u = t} same sifted,
                )
          ]
    ]

-- With one slot too high in the heap, `sift_down` from its place restores the order.
pub sift_down-Sifted :
    (i : ℕ) (s : SpaceSaving)
    → Linked s
    → DownInv s i
    → (t : SpaceSaving) × (sift_down i s ≡ some t) × Sifted s t
unfolding sift_down
sift_down-Sifted i s linked v =
    sift_down_loop-Sifted (length s.min_heap + 1) i s (omega arith) linked v
