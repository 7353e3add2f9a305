-- ===== src/Algos/SpaceSaving/Index.antt =====
-- crates/flowsketch-algos/src/space_saving.rs: the index from digests to slots.
pub mod Buckets
pub mod Search
use flowsketch.Base.{
  ℕ, suc, zero, ◌+◌, ◌-◌, List, [], ◌∷◌, ◌++◌, Option, none, some, Bool, get_elem?, get_or, set,
  take, length, ◌==◌, if◌then◌else◌,
}
use flowsketch.Base.Bytes.{bytes_eq}
use flowsketch.Base.Panic.{◌>>=◌}
use flowsketch.Algos.SpaceSaving.{Slot, IndexBucket, one, many, KeyIndex, SpaceSaving, key_digest}

-- `insert`, or a write through `get_mut`; `remove`.
unfoldable pub put_bucket : ℕ → IndexBucket → KeyIndex → KeyIndex
put_bucket digest bucket index d = if digest == d then some bucket else index d

unfoldable pub drop_bucket : ℕ → KeyIndex → KeyIndex
drop_bucket digest index d = if digest == d then none else index d

-- `indices.iter().copied().find(|index| self.slots[*index].key == key)`
unfoldable pub find_among : List Slot → List ℕ → List ℕ → Option (Option ℕ)
find_among slots key [] = some none
find_among slots key (i ∷ is) =
    let rest = find_among slots key is in
    do slot ← get_elem? slots i; if bytes_eq slot.key key then some (some i) else rest

-- The outer option is a panic, the inner one the result.
unfoldable pub find_in_bucket : List Slot → List ℕ → Option IndexBucket → Option (Option ℕ)
unfolding find_among
find_in_bucket slots key none = some none
find_in_bucket slots key (some (one i)) = do
  slot ← get_elem? slots i
  some (if bytes_eq slot.key key then some i else none)
find_in_bucket slots key (some (many is)) = find_among slots key is

unfoldable pub find_slot_with_digest : SpaceSaving → List ℕ → ℕ → Option (Option ℕ)
unfolding find_in_bucket
find_slot_with_digest s key digest = find_in_bucket s.slots key (s.key_index digest)

unfoldable pub find_slot : SpaceSaving → List ℕ → Option (Option ℕ)
find_slot s key = find_slot_with_digest s key (key_digest s.hash key)

-- The bucket of a digest once a slot joins it.
unfoldable pub join_bucket : ℕ → Option IndexBucket → IndexBucket
join_bucket slot_index none = one slot_index
join_bucket slot_index (some (one existing)) = many (existing ∷ slot_index ∷ [])
join_bucket slot_index (some (many indices)) = many (indices ++ slot_index ∷ [])

unfoldable pub add_to_index : ℕ → ℕ → KeyIndex → KeyIndex
unfolding join_bucket put_bucket
add_to_index digest slot_index index =
    put_bucket digest (join_bucket slot_index (index digest)) index

-- `position(|index| *index == wanted)`
unfoldable pub position : ℕ → List ℕ → Option ℕ
position wanted [] = none
position wanted (i ∷ is) =
    let rest = position wanted is in
    if i == wanted then some 0 else elim rest [ none ↦ none | some p ↦ some (suc p) ]

-- `Vec::swap_remove`: the last element takes the place of the one that goes.
unfoldable pub swap_remove : ℕ → List ℕ → List ℕ
swap_remove p is = let last = length is - 1 in take last (set is p (get_or is last 0))

-- A collision bucket of one slot goes back to the inline form.
unfoldable pub collapse : List ℕ → IndexBucket
collapse is = if length is == 1 then one (get_or is 0 0) else many is

unfoldable pub remove_from_bucket : ℕ → ℕ → IndexBucket → KeyIndex → Option KeyIndex
unfolding drop_bucket put_bucket position swap_remove collapse
remove_from_bucket digest slot_index (one existing) index = some (drop_bucket digest index)
remove_from_bucket digest slot_index (many is) index = do
  p ← position slot_index is
  some (put_bucket digest (collapse (swap_remove p is)) index)

-- `none` is the panic of either `expect`.
unfoldable pub remove_from_index : ℕ → ℕ → KeyIndex → Option KeyIndex
unfolding remove_from_bucket
remove_from_index digest slot_index index = do
  bucket ← index digest
  remove_from_bucket digest slot_index bucket index
