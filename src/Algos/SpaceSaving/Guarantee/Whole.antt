-- ===== src/Algos/SpaceSaving/Guarantee/Whole.antt =====
-- space_saving.rs: from a new summary to the end of a stream.
use mathlib.Core.Bool.{true≢false}
use mathlib.Core.Path.{subst}
use flowsketch.Base.{
  ℕ, ◌+◌, ◌^◌, ◌≤◌, ◌<◌, ◌≡◌, refl, sym, ap, ◌∙◌, List, [], some, none, Bool, true, false,
  Bool-cases, inl, inr, length, ◌==◌, arith,
}
use flowsketch.Core.Error.{Result, ok, err}
use flowsketch.Core.Hash.{HashSpec}
use flowsketch.Algos.SpaceSaving.{SpaceSaving, new}
use flowsketch.Core.Error.{SketchError}
use flowsketch.Algos.SpaceSaving.Consistent.{Consistent}
use flowsketch.Algos.SpaceSaving.Guarantee.Stream.{
  Summary, run-Summary, Promise, Summary-Promise, Approx-ext,
}
use flowsketch.Algos.SpaceSaving.Heap.Links.{sum_counts}
use flowsketch.Algos.SpaceSaving.Index.Buckets.{occurrences-none}
use flowsketch.Algos.SpaceSaving.Update.{run}
use flowsketch.Algos.Truth.{Stream, truth, total}

abbrev pub empty : ℕ → HashSpec → SpaceSaving
empty capacity hash = record {
  capacity = capacity;
  hash = hash;
  slots = [];
  key_index = λ _. none;
  min_heap = [];
  total_weight = 0;
  updates = 0;
}

failed : Result SpaceSaving → Bool
failed (ok s) = false
failed (err e) = true

ok_or : SpaceSaving → Result SpaceSaving → SpaceSaving
ok_or d (ok s) = s
ok_or d (err e) = d

new-empty :
    (capacity : ℕ) (hash : HashSpec) {s : SpaceSaving}
    → new capacity hash ≡ ok s
    → (empty capacity hash ≡ s) × (0 < capacity)
unfolding new ok_or failed
new-empty capacity hash {s} h = elim (Bool-cases (capacity == 0)) [
  | inl e ↦ absurd (refused (rw (new, e) at h))
  | inr e ↦ (ap (ok_or (empty capacity hash)) (rw (new, e) at h), ground arith)
]
  where
    refused : {e : SketchError} → ¬ (err e ≡ ok s)
    refused h = true≢false (ap failed h)

pub empty-Summary :
    (capacity : ℕ) (hash : HashSpec) → 0 < capacity → Summary (empty capacity hash) (λ _. 0) 0
unfolding sum_counts
empty-Summary capacity hash positive = record {
  positive = positive;
  weight = refl;
  consistent = record {
    linked = record {
      size = refl;
      inside = λ i h. absurd (omega arith);
      back = λ i h. absurd (omega arith);
      place = λ i h. absurd (omega arith);
      there = λ i h. absurd (omega arith);
    };
    ordered = λ c p h. absurd (omega arith);
    indexed = record {
      buckets = λ d t. occurrences-none t ∙ ground arith;
      digests = λ t h. absurd (omega arith);
      distinct = λ t u h k e. absurd (omega arith);
    };
  };
  approx = record {
    size = omega arith;
    sum = refl;
    low = λ t h. absurd (omega arith);
    under = λ t h. absurd (omega arith);
    over = λ t h. absurd (omega arith);
    untracked = λ key t free h. omega arith;
    room = λ key free h. refl;
    errors = λ t u h k. absurd (omega arith);
    exact = λ t h k. absurd (omega arith);
  };
}

pub whole-Summary :
    (capacity : ℕ) (hash : HashSpec) (stream : Stream) {s : SpaceSaving}
    → new capacity hash ≡ ok s
    → total stream < 2 ^ 64
    → (r : SpaceSaving) × (run stream s ≡ some r)
      × (r.capacity ≡ capacity)
      × Summary r (λ key. truth key stream) (total stream)
whole-Summary capacity hash stream {s} made fits =
    let (e, positive) = new-empty capacity hash made in
    let m : Summary s (λ _. 0) 0 =
      subst (λ x. Summary x (λ _. 0) 0) e (empty-Summary capacity hash positive) in
    let (r, steps, c, m') = run-Summary stream s (λ _. 0) 0 m (omega arith) in
    (
      r,
      steps,
      c ∙ ap (λ x. x.capacity) (sym e),
      record {
        positive = m'.positive;
        weight = omega (arith, m'.weight);
        consistent = m'.consistent;
        approx =
            Approx-ext (λ key. 0 + truth key stream) (λ key. truth key stream) (0 + total stream)
              (total stream) (λ key. omega arith) (omega arith) m'.approx;
      },
    )

-- From a new summary every stream of a total weight below 2^64 is read without a panic, and leaves a
-- consistent summary: the heap and the slots point at each other, no count is below that of its
-- parent in the heap, the bucket of a digest holds each slot with that digest once and no other, and
-- no key has two slots.
pub run-Consistent :
    (capacity : ℕ) (hash : HashSpec) (stream : Stream) {s : SpaceSaving}
    → new capacity hash ≡ ok s
    → total stream < 2 ^ 64
    → (r : SpaceSaving) × (run stream s ≡ some r) × Consistent r × (length r.slots ≤ capacity)
run-Consistent capacity hash stream made fits =
    let (r, steps, c, m) = whole-Summary capacity hash stream made fits in
    (r, steps, m.consistent, omega (arith, c, m.approx.size))

-- From a new summary every stream of a total weight below 2^64 is read without a panic. Then a key
-- is either tracked, with a count that is at least its true weight, exceeds it by at most the error,
-- and with an error of at most the total weight divided by the capacity, or it is not tracked, and
-- its true weight is at most the total weight divided by the capacity.
pub run-Promise_tracked :
    (capacity : ℕ) (hash : HashSpec) (stream : Stream) {s : SpaceSaving}
    → new capacity hash ≡ ok s
    → total stream < 2 ^ 64
    → (r : SpaceSaving) × (run stream s ≡ some r)
      × (r.capacity ≡ capacity)
      × (r.total_weight ≡ total stream)
      × ((key : List ℕ) → Promise r (λ k. truth k stream) (total stream) key)
run-Promise_tracked capacity hash stream made fits =
    let (r, steps, c, m) = whole-Summary capacity hash stream made fits in
    (r, steps, c, m.weight, λ key. Summary-Promise r (λ k. truth k stream) (total stream) key m)
