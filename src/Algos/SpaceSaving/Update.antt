-- ===== src/Algos/SpaceSaving/Update.antt =====
-- crates/flowsketch-algos/src/space_saving.rs: updates and queries.
use flowsketch.Base.{
  ℕ, List, [], ◌∷◌, ◌++◌, Option, none, some, get_elem?, set, length, ltb, if◌then◌else◌, ◌≡◌, refl,
  inl, inr, Option-cases,
}
use flowsketch.Base.Panic.{◌>>=◌}
use flowsketch.Base.Word.{add64}
use flowsketch.Algos.SpaceSaving.{Entry, SpaceSaving, key_digest}
use flowsketch.Algos.SpaceSaving.Index.{
  find_slot_with_digest, find_slot, add_to_index, remove_from_index,
}
use flowsketch.Algos.SpaceSaving.Heap.{sift_up, sift_down}
use flowsketch.Algos.Truth.{Stream}

-- The new slot before it rises.
unfoldable pub push_slot : SpaceSaving → List ℕ → ℕ → ℕ → ℕ → SpaceSaving
unfolding add_to_index
push_slot s key digest count error =
    let slot_index = length s.slots in
    record s {
      slots =
          s.slots
          ++ record {
            key = key;
            digest = digest;
            entry = record { count = count; error = error };
            heap_index = length s.min_heap;
          }
            ∷ [];
      key_index = add_to_index digest slot_index s.key_index;
      min_heap = s.min_heap ++ slot_index ∷ [];
    }

unfoldable pub insert_entry_with_digest : SpaceSaving → List ℕ → ℕ → ℕ → ℕ → Option SpaceSaving
unfolding push_slot sift_up
insert_entry_with_digest s key digest count error =
    sift_up (length s.min_heap) (push_slot s key digest count error)

unfoldable pub insert_entry : SpaceSaving → List ℕ → ℕ → ℕ → Option SpaceSaving
unfolding insert_entry_with_digest
insert_entry s key count error = insert_entry_with_digest s key (key_digest s.hash key) count error

-- The old key, which Rust returns for its allocation, is dropped.
unfoldable pub replace_min : SpaceSaving → List ℕ → ℕ → ℕ → ℕ → Option SpaceSaving
unfolding remove_from_index add_to_index sift_down
replace_min s key digest count error = do
  slot_index ← get_elem? s.min_heap 0
  slot ← get_elem? s.slots slot_index
  index ← remove_from_index slot.digest slot_index s.key_index
  sift_down 0 (record s {
    slots = set s.slots slot_index (record slot {
      key = key;
      digest = digest;
      entry = record { count = count; error = error };
    });
    key_index = add_to_index digest slot_index index;
  })

-- `min_heap.first().map(..).unwrap_or(0)`
unfoldable pub minimum_count : SpaceSaving → Option ℕ
minimum_count s = elim (get_elem? s.min_heap 0) [
  | none ↦ some 0
  | some slot_index ↦ do slot ← get_elem? s.slots slot_index; some slot.entry.count
]

-- The branch of `add` for a key that is tracked.
unfoldable pub raise : SpaceSaving → ℕ → ℕ → Option SpaceSaving
unfolding sift_down
raise s slot_index weight = do
  slot ← get_elem? s.slots slot_index
  sift_down slot.heap_index (record s {
    slots = set s.slots slot_index (record slot {
      entry = record { count = add64 slot.entry.count weight; error = slot.entry.error };
    });
  })

-- The branch for a key that is not.
unfoldable pub track : SpaceSaving → List ℕ → ℕ → ℕ → Option SpaceSaving
unfolding insert_entry_with_digest replace_min minimum_count
track s key digest weight =
    if ltb (length s.slots) s.capacity
    then insert_entry_with_digest s key digest weight 0
    else do minimum ← minimum_count s; replace_min s key digest (add64 minimum weight) minimum

unfoldable pub add : SpaceSaving → List ℕ → ℕ → Option SpaceSaving
unfolding find_slot_with_digest raise track
add s key weight =
    let t : SpaceSaving = record s {
      total_weight = add64 s.total_weight weight;
      updates = add64 s.updates 1;
    } in
    do
      let digest = key_digest t.hash key
      found ← find_slot_with_digest t key digest
      elim found [ some i ↦ raise t i weight | none ↦ track t key digest weight ]

-- `add` with a scratch buffer for the key, which is returned empty: the bytes of a new key move into
-- the summary.
unfoldable pub add_key_buf : SpaceSaving → List ℕ → ℕ → Option (SpaceSaving × List ℕ)
unfolding find_slot_with_digest raise track
add_key_buf s key weight =
    let t : SpaceSaving = record s {
      total_weight = add64 s.total_weight weight;
      updates = add64 s.updates 1;
    } in
    do
      let digest = key_digest t.hash key
      found ← find_slot_with_digest t key digest
      r ← elim found [ some i ↦ raise t i weight | none ↦ track t key digest weight ]
      some (r, [])

-- Both ways of adding have the same effect.
pub add_key_buf-add :
    (s : SpaceSaving) (key : List ℕ) (weight : ℕ)
    → add_key_buf s key weight ≡ (add s key weight >>= λ r. some (r, []))
unfolding add_key_buf add
add_key_buf-add s key weight =
    let t : SpaceSaving = record s {
      total_weight = add64 s.total_weight weight;
      updates = add64 s.updates 1;
    } in
    elim (Option-cases (find_slot_with_digest t key (key_digest t.hash key))) [
      | inl e ↦ rw e refl
      | inr (found, e) ↦ rw e refl
    ]

unfoldable pub get : SpaceSaving → List ℕ → Option (Option Entry)
unfolding find_slot
get s key = do
  found ← find_slot s key
  elim found [ none ↦ some none | some i ↦ do slot ← get_elem? s.slots i; some (some slot.entry) ]

-- A stream of updates, oldest first.
unfoldable pub run : Stream → SpaceSaving → Option SpaceSaving
unfolding add
run [] s = some s
run ((key, weight) ∷ rest) s = add s key weight >>= run rest
