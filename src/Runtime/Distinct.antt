-- ===== src/Runtime/Distinct.antt =====
-- `QueryState::DistinctGlobal`: the bucket state of an ungrouped distinct count, one HyperLogLog.
use flowsketch.Base.{ℕ, ◌≤◌, ◌≡◌, refl, sym, ◌∙◌, arith, List}
use flowsketch.Base.Word.{add64}
use flowsketch.Core.Error.{ok}
use flowsketch.Core.Hash.{HashSpec}
use flowsketch.Core.Sketch.{ensure_matches_refl}
use flowsketch.Algos.HyperLogLog
use flowsketch.Algos.HyperLogLog.{
  HyperLogLog, insert, insert_hash, merge_from, merge_storage, compatibility, params_hash,
}
use flowsketch.Runtime.States.{States, Mergeable}

unfoldable pub update_distinct : HyperLogLog → List ℕ → ℕ → List ℕ → HyperLogLog
update_distinct hll key weight distinct_item = insert hll distinct_item

abbrev pub distinct_states : ℕ → HashSpec → States
distinct_states precision hash = record {
  State = HyperLogLog;
  build = HyperLogLog.new precision hash;
  update = update_distinct;
  merge_from = merge_from;
}

alike :
    (s t : HyperLogLog)
    → s.precision ≡ t.precision
    → s.hash ≡ t.hash
    → compatibility s ≡ compatibility t
unfolding compatibility params_hash
alike s t p h = rw (p, h) refl

module _ (precision : ℕ) (hash : HashSpec) (low : 4 ≤ precision) (high : precision ≤ 18) where
  built_distinct :
      HyperLogLog.new precision hash
      ≡ ok (record { precision = precision; hash = hash; storage = HyperLogLog.empty; updates = 0 })
  unfolding HyperLogLog.new
  built_distinct = ground arith

  merged_distinct :
      (s t : HyperLogLog)
      → (s.precision ≡ precision) × (s.hash ≡ hash)
      → (t.precision ≡ precision) × (t.hash ≡ hash)
      → (r : HyperLogLog) × (merge_from s t ≡ ok r) × ((r.precision ≡ precision) × (r.hash ≡ hash))
  unfolding merge_from
  merged_distinct s t (ps, hs) (pt, ht) =
      let same = alike s t (ps ∙ sym pt) (hs ∙ sym ht) in
      (
        record s {
          storage = merge_storage s.precision s.storage t.storage;
          updates = add64 s.updates t.updates;
        },
        rw (same, ensure_matches_refl (compatibility t)) refl,
        (ps, hs),
      )

  -- With a precision in its range, the states of a distinct count are mergeable: they keep their precision and
  -- their hash.
  pub distinct_mergeable : Mergeable (distinct_states precision hash)
  unfolding update_distinct insert insert_hash
  distinct_mergeable = record {
    IsGood = λ s. (s.precision ≡ precision) × (s.hash ≡ hash);
    built = (
      record { precision = precision; hash = hash; storage = HyperLogLog.empty; updates = 0 },
      built_distinct,
      (refl, refl),
    );
    updated = λ s key weight item good. good;
    merged = merged_distinct;
  }
