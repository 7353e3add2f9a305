-- ===== src/Algos/SpaceSaving/Merge.antt =====
-- crates/flowsketch-algos/src/space_saving.rs, `top_k` and `merge_from`.
use flowsketch.Base.{
  ℕ, List, [], ◌∷◌, ◌++◌, Option, none, some, Bool, true, false, take, length, ltb, leb,
  if◌then◌else◌, map,
}
use flowsketch.Base.Panic.{◌>>=◌}
use flowsketch.Base.Word.{add64}
use flowsketch.Core.Error.{Result, ok, and_then}
use flowsketch.Core.Sketch.{ensure_matches}
use flowsketch.Algos.SpaceSaving.Update.{insert_entry, minimum_count, get}
use flowsketch.Algos.SpaceSaving.{Entry, Slot, SpaceSaving, bytes_lt, compatibility}

abbrev pub Ranked : Type 0
Ranked = List (List ℕ × Entry)

-- The order of the rankings: counts descending, then keys.
unfoldable pub ranks_before : List ℕ × Entry → List ℕ × Entry → Bool
ranks_before (k, a) (l, b) =
    if ltb b.count a.count then true else if ltb a.count b.count then false else bytes_lt k l

unfoldable pub insert_ranked : List ℕ × Entry → Ranked → Ranked
unfolding ranks_before
insert_ranked x [] = x ∷ []
insert_ranked x (y ∷ ys) =
    let rest = insert_ranked x ys in if ranks_before y x then y ∷ rest else x ∷ y ∷ ys

unfoldable pub sort_ranked : Ranked → Ranked
unfolding insert_ranked
sort_ranked [] = []
sort_ranked (x ∷ xs) = insert_ranked x (sort_ranked xs)

unfoldable pub top_k : ℕ → SpaceSaving → Ranked
unfolding sort_ranked
top_k limit s = take limit (sort_ranked (map (λ slot. (slot.key, slot.entry)) s.slots))

-- What a full summary may have missed of a key that it does not track.
unfoldable pub missed : SpaceSaving → Option ℕ
unfolding minimum_count
missed s = if leb s.capacity (length s.slots) then minimum_count s else some 0

unfoldable pub charge : Entry → ℕ → ℕ → Entry
charge e count error = record { count = add64 e.count count; error = add64 e.error error }

-- The keys of the first summary, with the other's entry or its minimum.
unfoldable pub merge_own : List Slot → SpaceSaving → ℕ → Option Ranked
unfolding charge get
merge_own [] other other_min = some []
merge_own (x ∷ xs) other other_min = do
  found ← get other x.key
  rest ← merge_own xs other other_min
  some (
      (
        x.key,
        elim found [
          | some e ↦ charge x.entry e.count e.error
          | none ↦ charge x.entry other_min other_min
        ],
      )
      ∷ rest)

-- The keys that only the other summary tracks.
unfoldable pub merge_others : List Slot → SpaceSaving → ℕ → Option Ranked
unfolding charge get
merge_others [] self self_min = some []
merge_others (x ∷ xs) self self_min = do
  found ← get self x.key
  rest ← merge_others xs self self_min
  some (elim found [ some _ ↦ rest | none ↦ (x.key, charge x.entry self_min self_min) ∷ rest ])

unfoldable pub insert_all : Ranked → SpaceSaving → Option SpaceSaving
unfolding insert_entry
insert_all [] s = some s
insert_all ((key, e) ∷ rest) s = insert_entry s key e.count e.error >>= insert_all rest

-- Both sums, sorted and trimmed, into empty slots; `none` is a panic.
unfoldable pub merge_entries : SpaceSaving → SpaceSaving → Option SpaceSaving
unfolding missed merge_own merge_others insert_all sort_ranked
merge_entries s other = do
  self_min ← missed s
  other_min ← missed other
  own ← merge_own s.slots other other_min
  others ← merge_others other.slots s self_min
  r ←
      insert_all (take s.capacity (sort_ranked (own ++ others)))
        (record s { slots = []; key_index = λ _. none; min_heap = [] })
  some (record r {
    total_weight = add64 s.total_weight other.total_weight;
    updates = add64 s.updates other.updates;
  })

unfoldable pub merge_from : SpaceSaving → SpaceSaving → Result (Option SpaceSaving)
unfolding merge_entries
merge_from s other =
    and_then (ensure_matches (compatibility s) (compatibility other))
      λ _. ok (merge_entries s other)
