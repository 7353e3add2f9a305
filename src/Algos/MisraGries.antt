-- ===== src/Algos/MisraGries.antt =====
-- crates/flowsketch-algos/src/misra_gries.rs: the Misra-Gries summary, at most `capacity` counters.
pub mod Step
pub mod Guarantee
pub mod Sorted
pub mod Merge
use Prim.Native.String.{String}
use flowsketch.Base.Word.{add64}
use flowsketch.Base.{
  ℕ, zero, suc, ◌+◌, ◌-◌, ◌%◌, ◌^◌, min, List, [], ◌∷◌, Option, none, some, Bool, true, false,
  length, get_or, ltb, leb, ◌==◌, ◌&&◌, if◌then◌else◌,
}
use flowsketch.Base.Bytes.{le_bytes}
use flowsketch.Core.Error.{SketchError, invalid_param, Result, ok, err, ◌>>=◌, ◌>>◌}
use flowsketch.Core.Hash.{HashSpec, hash64}
use flowsketch.Core.Sketch.{SketchCompatibility, ensure_matches}
use flowsketch.Algos.Counters.{
  Counters, lookup, count, insert, bump, absorb, min_value, retain_above,
}
use flowsketch.Algos.Truth.{Stream}

abbrev pub algorithm : String
algorithm = "misra-gries"

pub record MisraGries : Type 0 where
  pub capacity : ℕ
  pub hash : HashSpec
  pub counters : Counters
  pub total_weight : ℕ
  pub updates : ℕ

unfoldable pub new : ℕ → HashSpec → Result MisraGries
new capacity hash =
    if capacity == 0
    then err (invalid_param "misra-gries capacity must be positive")
    else ok
        (record { capacity = capacity; hash = hash; counters = []; total_weight = 0; updates = 0 })

-- A full summary pays for a new key: every counter, and the new weight, lose `dec`. In Rust
-- `*c -= dec` cannot wrap, since `dec` is at most the least counter; `retain_above` takes the lesser
-- of the two.
unfoldable pub evict : ℕ → List ℕ → ℕ → ℕ → Counters → Counters
evict capacity key weight least counters =
    let dec = min least weight in
    let kept = retain_above dec counters in
    let leftover = weight - dec in
    if ltb 0 leftover && ltb (length kept) capacity then insert key leftover kept else kept

-- The new counters; `none` is the panic of `values().min().expect("capacity > 0")`.
unfoldable pub add_counters : ℕ → List ℕ → ℕ → Counters → Option Counters
unfolding evict
add_counters capacity key weight counters = elim (lookup key counters) [
  | some _ ↦ some (bump key weight counters)
  | none ↦
      if ltb (length counters) capacity
      then some (insert key weight counters)
      else elim (min_value counters) [
        | none ↦ none
        | some least ↦ some (evict capacity key weight least counters)
      ]
]

unfoldable pub add : MisraGries → List ℕ → ℕ → Option MisraGries
add s key weight = elim (add_counters s.capacity key weight s.counters) [
  | none ↦ none
  | some counters ↦ some (record s {
    counters = counters;
    total_weight = add64 s.total_weight weight;
    updates = add64 s.updates 1;
  })
]

-- `get(key)` and the point estimate.
unfoldable pub get : MisraGries → List ℕ → Option ℕ
get s key = lookup key s.counters

unfoldable pub estimate : MisraGries → List ℕ → ℕ
estimate s key = count key s.counters

-- `counts.sort_unstable()`
unfoldable pub insert_sorted : ℕ → List ℕ → List ℕ
insert_sorted x [] = x ∷ []
insert_sorted x (y ∷ ys) = if leb x y then x ∷ y ∷ ys else y ∷ insert_sorted x ys

unfoldable pub sort_values : Counters → List ℕ
unfolding insert_sorted
sort_values [] = []
sort_values ((k, c) ∷ cs) = insert_sorted c (sort_values cs)

-- One round of the loop: subtract the `excess`-th smallest count from everything.
unfoldable pub trim_round : ℕ → Counters → Counters
trim_round capacity counters =
    let excess = length counters - capacity in
    retain_above (get_or (sort_values counters) (excess - 1) 0) counters

-- `while self.counters.len() > self.capacity`, on fuel: `none` means that the fuel ran out.
unfoldable pub trim_loop : ℕ → ℕ → Counters → Option Counters
unfolding trim_round
trim_loop zero capacity counters = none
trim_loop (suc fuel) capacity counters =
    let rest = trim_loop fuel capacity (trim_round capacity counters) in
    if ltb capacity (length counters) then rest else some counters

-- Every round drops a counter, and the second test of the loop already ends it.
unfoldable pub trim_to_capacity : ℕ → Counters → Option Counters
trim_to_capacity capacity counters = trim_loop 2 capacity counters

unfoldable pub params_hash : MisraGries → ℕ
params_hash s = hash64 (le_bytes 8 s.capacity) 0

unfoldable pub compatibility : MisraGries → SketchCompatibility
unfolding params_hash
compatibility s = record {
  algorithm = algorithm;
  version = 1;
  hash = s.hash;
  params_hash = params_hash s;
}

unfoldable pub merge_from : MisraGries → MisraGries → Result (Option MisraGries)
merge_from s other = do
  ensure_matches (compatibility s) (compatibility other)
  ok (elim (trim_to_capacity s.capacity (absorb s.counters other.counters)) [
    | none ↦ none
    | some counters ↦ some (record s {
      counters = counters;
      total_weight = add64 s.total_weight other.total_weight;
      updates = add64 s.updates other.updates;
    })
  ])

unfoldable pub reset : MisraGries → MisraGries
reset s = record s { counters = []; total_weight = 0; updates = 0 }

-- A stream of updates, oldest first.
unfoldable pub run : Stream → MisraGries → Option MisraGries
run [] s = some s
run ((key, weight) ∷ rest) s = elim (add s key weight) [ none ↦ none | some s' ↦ run rest s' ]
