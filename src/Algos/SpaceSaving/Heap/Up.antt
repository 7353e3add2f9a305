-- ===== src/Algos/SpaceSaving/Heap/Up.antt =====
-- `sift_up` of space_saving.rs: a slot whose count may be too low for its place rises.
use flowsketch.Base.{
  ℕ, zero, suc, ◌+◌, ◌≤◌, ◌<◌, ◌≡◌, ◌≢◌, inl, inr, some, Bool-cases, length, ◌==◌, arith,
}
use flowsketch.Algos.SpaceSaving.{SpaceSaving}
use flowsketch.Algos.SpaceSaving.Heap.{less, parent, sift_up_loop, sift_up}
use flowsketch.Algos.SpaceSaving.Heap.Links.{heap_at, slot_at, count_at, Linked, Rearranged-refl}
use flowsketch.Algos.SpaceSaving.Heap.Swap.{
  heap_slot_is_less-ok, swapped, swap_heap-ok, swapped-Rearranged, swapped-Linked, swapped-count_at,
  less-true, less-false, Ordered, Sifted, Sifted-after,
}

-- Only the edge above `i` may be out of order.
pub record UpInv (s : SpaceSaving) (i : ℕ) : Type 0 where
  pub inside : i < length s.min_heap
  pub edges : (c : ℕ) → 0 < c → c < length s.min_heap → c ≢ i → count_at s (parent c) ≤ count_at s c
  pub bridged :
      (c : ℕ)
      → 0 < c
      → c < length s.min_heap
      → parent c ≡ i
      → 0 < i
      → count_at s (parent i) ≤ count_at s c

swapped-UpInv :
    (s : SpaceSaving) (i : ℕ) (linked : Linked s) (v : UpInv s i)
    → 0 < i
    → count_at s i ≤ count_at s (parent i)
    → UpInv (swapped s i (parent i)) (parent i)
swapped-UpInv s i linked v positive above =
    let hp : parent i < length s.min_heap = omega (arith, v.inside) in
    let ne : i ≢ parent i = omega arith in
    let at = swapped-count_at s i (parent i) v.inside hp ne linked in
    let size = (swapped-Rearranged s i (parent i) v.inside hp ne linked).heap in
    record {
      inside = omega (arith, size, v.inside);
      edges = λ c p q r.
          ground (arith, size, at c, at (parent c), v.edges c, v.edges (parent i), v.bridged c);
      bridged = λ c p q r t.
          ground (arith, size, at c, at (parent (parent i)), v.edges c, v.edges (parent i));
    }

sift_up_loop-Sifted :
    (fuel i : ℕ) (s : SpaceSaving)
    → i < fuel
    → Linked s
    → UpInv s i
    → (t : SpaceSaving) × (sift_up_loop fuel i s ≡ some t) × Sifted s t
unfolding sift_up_loop
sift_up_loop-Sifted zero i s f linked v = absurd (omega arith)
sift_up_loop-Sifted (suc fuel) i s f linked v = elim (Bool-cases (i == 0)) [
  | inl e ↦ (
    s,
    rw e,
    record {
      linked = linked;
      same = Rearranged-refl s;
      ordered = λ c p q. ground (arith, v.edges c);
    },
  )
  | inr e ↦
      let positive : 0 < i = ground arith in
      let hp : parent i < length s.min_heap = omega (arith, v.inside) in
      let a = slot_at s (heap_at s i) in
      let b = slot_at s (heap_at s (parent i)) in
      let test = heap_slot_is_less-ok s i (parent i) linked v.inside hp in
      elim (Bool-cases (less a b)) [
        | inr e' ↦ (
          s,
          rw (e, test, e'),
          record {
            linked = linked;
            same = Rearranged-refl s;
            ordered = λ c p q. ground (arith, v.edges c, less-false a b e');
          },
        )
        | inl e' ↦
            let ne : i ≢ parent i = omega arith in
            let same = swapped-Rearranged s i (parent i) v.inside hp ne linked in
            let (t, rest, sifted) =
              sift_up_loop-Sifted fuel (parent i) (swapped s i (parent i)) (omega arith)
                (swapped-Linked s i (parent i) v.inside hp ne linked)
                (swapped-UpInv s i linked v positive (less-true a b e')) in
            (
              t,
              rw (e, test, e', swap_heap-ok s i (parent i) v.inside hp ne linked) rest,
              Sifted-after same sifted,
            )
      ]
]

-- With one slot too low in the heap, `sift_up` from its place restores the order.
pub sift_up-Sifted :
    (i : ℕ) (s : SpaceSaving)
    → Linked s
    → UpInv s i
    → (t : SpaceSaving) × (sift_up i s ≡ some t) × Sifted s t
unfolding sift_up
sift_up-Sifted i s linked v = sift_up_loop-Sifted (i + 1) i s (omega arith) linked v

-- The root of an ordered heap has the least count.
pub root_least :
    (fuel : ℕ) (s : SpaceSaving) (i : ℕ)
    → i < fuel
    → Ordered s
    → i < length s.min_heap
    → count_at s 0 ≤ count_at s i
root_least zero s i f o h = absurd (omega arith)
root_least (suc fuel) s zero f o h = omega arith
root_least (suc fuel) s (suc i) f o h = omega (
  arith,
  root_least fuel s (parent (suc i)) (omega arith) o (omega arith),
  o (suc i) (omega arith) h,
)
