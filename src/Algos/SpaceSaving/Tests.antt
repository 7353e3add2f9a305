-- ===== src/Algos/SpaceSaving/Tests.antt =====
-- Concrete runs of the SpaceSaving summary.
use flowsketch.Base.{ℕ, ◌^◌, ◌≤◌, ◌<◌, ◌≡◌, refl, List, [], ◌∷◌, length, some, none, Option, arith}
use flowsketch.Core.Error.{ok}
use flowsketch.Core.Hash.{hash_spec, hash64}
use flowsketch.Algos.SpaceSaving
use flowsketch.Algos.SpaceSaving.{Entry, Slot, SpaceSaving, one}
use flowsketch.Algos.SpaceSaving.Codec.{to_snapshot, from_snapshot}
use flowsketch.Algos.SpaceSaving.Codec.Safety.{LoadsSafely, from_snapshot-LoadsSafely}
use flowsketch.Algos.SpaceSaving.Consistent.{Consistent}
use flowsketch.Algos.SpaceSaving.Guarantee.Stream.{Promise}
use flowsketch.Algos.SpaceSaving.Guarantee.Whole.{empty, run-Consistent, run-Promise_tracked}
use flowsketch.Algos.SpaceSaving.Heap.{
  sift_up, sift_up_loop, sift_down, sift_down_loop, smallest_child, heap_slot_is_less, slot_is_less,
  less, swap_heap, point_back,
}
use flowsketch.Algos.SpaceSaving.Index.{
  find_slot, find_slot_with_digest, find_in_bucket, find_among, add_to_index, join_bucket,
  put_bucket, drop_bucket, remove_from_index, remove_from_bucket, swap_remove, position, collapse,
}
use flowsketch.Algos.SpaceSaving.Update.{
  run, add, raise, track, push_slot, insert_entry_with_digest, replace_min, minimum_count, get,
}
use flowsketch.Algos.Truth.{Stream, truth, total}

-- Four keys through two slots: one raise, then two evictions.
abbrev stream : Stream
stream = (1 ∷ [], 5) ∷ (2 ∷ 7 ∷ [], 3) ∷ (1 ∷ [], 4) ∷ (3 ∷ [], 1) ∷ (4 ∷ [], 4) ∷ (3 ∷ [], 2) ∷ []

stream-fits : total stream < 2 ^ 64
unfolding total
stream-fits = omega arith

empty-new : SpaceSaving.new 2 (hash_spec 1) ≡ ok (empty 2 (hash_spec 1))
unfolding SpaceSaving.new
empty-new = refl

run-Promise_tracked_example :
    (r : SpaceSaving) × (run stream (empty 2 (hash_spec 1)) ≡ some r)
    × (r.capacity ≡ 2)
    × (r.total_weight ≡ total stream)
    × ((key : List ℕ) → Promise r (λ k. truth k stream) (total stream) key)
run-Promise_tracked_example = run-Promise_tracked 2 (hash_spec 1) stream empty-new stream-fits

run-Consistent_example :
    (r : SpaceSaving) × (run stream (empty 2 (hash_spec 1)) ≡ some r)
    × Consistent r
    × (length r.slots ≤ 2)
run-Consistent_example = run-Consistent 2 (hash_spec 1) stream empty-new stream-fits

-- A summary of one key.
abbrev single : SpaceSaving
single = record (empty 2 (hash_spec 1)) {
  slots =
      record { key = 9 ∷ []; digest = 0; entry = record { count = 4; error = 1 }; heap_index = 0 }
      ∷ [];
  min_heap = 0 ∷ [];
  total_weight = 4;
  updates = 1;
}

from_snapshot-LoadsSafely_example : LoadsSafely (from_snapshot (to_snapshot single 0 1))
from_snapshot-LoadsSafely_example = from_snapshot-LoadsSafely (to_snapshot single 0 1)

entry_after : Option SpaceSaving → List ℕ → Option (Option Entry)
entry_after none key = none
entry_after (some s) key = get s key

-- The key that came last was never below its weight of 3.
last-tracked :
    entry_after (run stream (empty 2 (hash_spec 1))) (3 ∷ [])
    ≡ some (some (record { count = 10; error = 8 }))
unfolding entry_after run add find_slot find_slot_with_digest find_in_bucket find_among raise track
    push_slot insert_entry_with_digest replace_min minimum_count get sift_up sift_up_loop sift_down
    sift_down_loop smallest_child heap_slot_is_less slot_is_less less swap_heap point_back
    add_to_index join_bucket put_bucket drop_bucket remove_from_index remove_from_bucket swap_remove
    position collapse SpaceSaving.key_digest hash64
last-tracked = refl
