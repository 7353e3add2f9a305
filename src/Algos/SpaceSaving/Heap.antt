-- ===== src/Algos/SpaceSaving/Heap.antt =====
-- crates/flowsketch-algos/src/space_saving.rs: the min-heap of slots, which each slot points back
-- into. Loops run on fuel; an index out of bounds and spent fuel are `none`.
pub mod Links
pub mod Swap
pub mod Down
pub mod Up
use flowsketch.Base.{
  ℕ, zero, suc, ◌+◌, ◌-◌, ◌*◌, ◌/◌, List, Option, none, some, Bool, true, false, ◌&&◌, get_elem?,
  set, length, ◌==◌, ltb, if◌then◌else◌,
}
use flowsketch.Base.Panic.{◌>>=◌}
use flowsketch.Algos.SpaceSaving.{Entry, Slot, SpaceSaving, bytes_lt}

-- Counts first, then digests, then the bytes of the keys.
unfoldable pub less : Slot → Slot → Bool
less left right =
    if ltb left.entry.count right.entry.count
    then true
    else if ltb right.entry.count left.entry.count
    then false
    else if ltb left.digest right.digest
    then true
    else if ltb right.digest left.digest
    then false
    else bytes_lt left.key right.key

unfoldable pub slot_is_less : List Slot → ℕ → ℕ → Option Bool
unfolding less
slot_is_less slots left right = do
  l ← get_elem? slots left
  r ← get_elem? slots right
  some (less l r)

unfoldable pub heap_slot_is_less : SpaceSaving → ℕ → ℕ → Option Bool
unfolding slot_is_less
heap_slot_is_less s left right = do
  l ← get_elem? s.min_heap left
  r ← get_elem? s.min_heap right
  slot_is_less s.slots l r

-- `self.slots[self.min_heap[at]].heap_index = at`
unfoldable pub point_back : ℕ → List ℕ → List Slot → Option (List Slot)
point_back at heap slots = do
  i ← get_elem? heap at
  slot ← get_elem? slots i
  some (set slots i (record slot { heap_index = at }))

unfoldable pub swap_heap : SpaceSaving → ℕ → ℕ → Option SpaceSaving
unfolding point_back
swap_heap s left right = do
  l ← get_elem? s.min_heap left
  r ← get_elem? s.min_heap right
  let heap = set (set s.min_heap left r) right l
  slots ← point_back left heap s.slots
  slots' ← point_back right heap slots
  some (record s { min_heap = heap; slots = slots' })

abbrev pub parent : ℕ → ℕ
parent index = (index - 1) / 2

unfoldable pub sift_up_loop : ℕ → ℕ → SpaceSaving → Option SpaceSaving
unfolding heap_slot_is_less swap_heap
sift_up_loop zero index s = none
sift_up_loop (suc fuel) index s = if index == 0 then some s else do
  above ← heap_slot_is_less s index (parent index)
  (if above
      then (swap_heap s index (parent index) >>= sift_up_loop fuel (parent index))
      else some s)

-- Each round at least halves the index.
unfoldable pub sift_up : ℕ → SpaceSaving → Option SpaceSaving
unfolding sift_up_loop
sift_up index s = sift_up_loop (index + 1) index s

-- The child of `index` that comes first in the order.
unfoldable pub smallest_child : SpaceSaving → ℕ → Option ℕ
unfolding heap_slot_is_less
smallest_child s index =
    let left = index * 2 + 1 in
    let right = left + 1 in
    if ltb right (length s.min_heap)
    then (do below ← heap_slot_is_less s right left; some (if below then right else left))
    else some left

unfoldable pub sift_down_loop : ℕ → ℕ → SpaceSaving → Option SpaceSaving
unfolding heap_slot_is_less swap_heap smallest_child
sift_down_loop zero index s = none
sift_down_loop (suc fuel) index s =
    if ltb (index * 2 + 1) (length s.min_heap)
    then (do
      smallest ← smallest_child s index
      below ← heap_slot_is_less s smallest index
      (if below then (swap_heap s index smallest >>= sift_down_loop fuel smallest) else some s))
    else some s

-- Each round goes to a child, whose index is greater.
unfoldable pub sift_down : ℕ → SpaceSaving → Option SpaceSaving
unfolding sift_down_loop
sift_down index s = sift_down_loop (length s.min_heap + 1) index s
