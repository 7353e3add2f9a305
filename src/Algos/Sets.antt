-- ===== src/Algos/Sets.antt =====
-- The `HashMap<Vec<u8>, HashSet<Vec<u8>>>` of exact.rs: an association list with one entry for a key,
-- and in it a list without repetition.
pub mod Laws
use flowsketch.Base.Bytes.{bytes_eq}
use flowsketch.Base.{ℕ, List, [], ◌∷◌, Bool, true, false, ◌||◌, if◌then◌else◌}

abbrev pub Items : Type 0
Items = List (List ℕ)

abbrev pub Sets : Type 0
Sets = List (List ℕ × Items)

-- `contains(item)`
unfoldable pub has : List ℕ → Items → Bool
has item [] = false
has item (i ∷ is) = bytes_eq i item || has item is

-- `HashSet::insert(item)`
unfoldable pub add_item : List ℕ → Items → Items
add_item item [] = item ∷ []
add_item item (i ∷ is) = if bytes_eq i item then i ∷ is else i ∷ add_item item is

-- `for item in items { mine.insert(item.clone()); }`
unfoldable pub add_items : Items → Items → Items
unfolding add_item
add_items [] mine = mine
add_items (item ∷ items) mine = add_items items (add_item item mine)

-- `get(key)`, with no items for a missing key.
unfoldable pub items_of : List ℕ → Sets → Items
items_of key [] = []
items_of key ((k, is) ∷ rest) = if bytes_eq k key then is else items_of key rest

-- `entry(key).or_default()`, and the insertion of the items there.
unfoldable pub entry_items : List ℕ → Items → Sets → Sets
unfolding add_items
entry_items key items [] = (key, add_items items []) ∷ []
entry_items key items ((k, is) ∷ rest) =
    if bytes_eq k key then (k, add_items items is) ∷ rest else (k, is) ∷ entry_items key items rest

-- The loop over the other map.
unfoldable pub unite : Sets → Sets → Sets
unfolding entry_items
unite mine [] = mine
unite mine ((k, is) ∷ others) = unite (entry_items k is mine) others
