-- ===== src/Algos/SpaceSaving/Codec/Safety.antt =====
-- space_saving.rs, `from_snapshot`: whatever the bytes are, what loads is consistent.
use mathlib.Core.Path.{subst}
use flowsketch.Base.{
  ℕ, zero, suc, ◌+◌, ◌≤◌, ◌<◌, ◌≡◌, ◌≢◌, ◌⊎◌, inl, inr, refl, sym, List, Option, none, some, false,
  Bool-cases, length, ltb, ◌==◌, arith,
}
use flowsketch.Core.Error.{SketchError, snapshot, Result, ok, err, Result-cases}
use flowsketch.Core.Snapshot.AlgorithmId.{space_saving}
use flowsketch.Core.Snapshot.{SnapshotHeader, read_snapshot}
use flowsketch.Core.Wire.{M, return, refuse_if, u32, u64, lp_bytes, check_count, run}
use flowsketch.Core.Wire.Ends.{Ends, bind-Ends, any-Ends, refuse_if-Ends}
use flowsketch.Algos.SpaceSaving.Codec.{
  insert_new, read_entry, read_entries, start, read_payload, read_capacity, from_parts,
  from_snapshot, lift,
}
use flowsketch.Algos.SpaceSaving.Consistent.{Consistent, find_slot_cases}
use flowsketch.Algos.SpaceSaving.Consistent.Insert.{insert-Consistent}
use flowsketch.Algos.SpaceSaving.Guarantee.{count_of, error_of}
use flowsketch.Algos.SpaceSaving.Guarantee.Change.{pushed-Change}
use flowsketch.Algos.SpaceSaving.Guarantee.Step.{each}
use flowsketch.Algos.SpaceSaving.Guarantee.Stream.{with_totals}
use flowsketch.Algos.SpaceSaving.Guarantee.Whole.{empty, empty-Summary}
use flowsketch.Algos.SpaceSaving.Heap.Links.{slot_at}
use flowsketch.Algos.SpaceSaving.Index.{find_slot}
use flowsketch.Algos.SpaceSaving.Update.{insert_entry_with_digest}
use flowsketch.Algos.SpaceSaving.{SpaceSaving, new, key_digest}

-- A summary with room for `k` more entries.
record Sound (s : SpaceSaving) (k : ℕ) : Type 0 where
  consistent : Consistent s
  positive : 0 < s.capacity
  room : length s.slots + k ≤ s.capacity
  low : (t : ℕ) → t < length s.slots → error_of s t ≤ count_of s t

Loaded : ℕ → Option SpaceSaving → Type 0
Loaded k result = (t : SpaceSaving) × (result ≡ some t) × Sound t k

insert-Loaded :
    (s : SpaceSaving) (k : ℕ) (key : List ℕ) (count error : ℕ)
    → Sound s (suc k)
    → ((t : ℕ) → t < length s.slots → (slot_at s t).key ≢ key)
    → error ≤ count
    → Loaded k (insert_entry_with_digest s key (key_digest s.hash key) count error)
unfolding Loaded
insert-Loaded s k key count error m fresh h =
    let digest = key_digest s.hash key in
    let (t, run, m', r) = insert-Consistent s key digest count error refl fresh m.consistent in
    let c = pushed-Change s t key digest count error r in
    (
      t,
      run,
      record {
        consistent = m';
        positive = omega (arith, c.capacity, m.positive);
        room = omega (arith, c.size, c.capacity, m.room);
        low = each c (λ _ p e. e ≤ p) h (λ i hi _. m.low i hi) (omega arith);
      },
    )

insert_new-Ends :
    (s : SpaceSaving) (k : ℕ) (key : List ℕ) (count error : ℕ)
    → Sound s (suc k)
    → error ≤ count
    → Ends (insert_new s key count error (find_slot s key)) (Loaded k)
unfolding insert_new
insert_new-Ends s k key count error m h r = elim (find_slot_cases s key m.consistent.indexed) [
  | inl (t, found, _, _) ↦
      inl (snapshot "spacesaving snapshot contains a duplicate key", rw (found, insert_new))
  | inr (found, fresh) ↦ inr (
    insert_entry_with_digest s key (key_digest s.hash key) count error,
    r,
    rw (found, insert_new),
    insert-Loaded s k key count error m fresh h,
  )
]

read_entry-Ends : (s : SpaceSaving) (k : ℕ) → Sound s (suc k) → Ends (read_entry s) (Loaded k)
unfolding read_entry find_slot
read_entry-Ends s k m =
    bind-Ends lp_bytes _ (λ _. Unit) (Loaded k) (any-Ends lp_bytes)
      λ key _.
        bind-Ends u64 _ (λ _. Unit) (Loaded k) (any-Ends u64)
          λ count _.
            bind-Ends u64 _ (λ _. Unit) (Loaded k) (any-Ends u64)
              λ error _.
                bind-Ends
                  (refuse_if (ltb count error) "spacesaving snapshot entry error exceeds its count")
                  _ (λ _. ltb count error ≡ false) (Loaded k) (refuse_if-Ends (ltb count error) _)
                  λ _ passed. insert_new-Ends s k key count error m (ground arith)

read_entries-Ends : (n : ℕ) (s : SpaceSaving) → Sound s n → Ends (read_entries n s) (Loaded 0)
unfolding read_entries Loaded
read_entries-Ends zero s m = λ r. inr (some s, r, refl, (s, refl, m))
read_entries-Ends (suc n) s m =
    bind-Ends (read_entry s) _ (Loaded n) (Loaded 0) (read_entry-Ends s n m) λ next (t, e, m').
      subst (λ x. Ends (elim x [ none ↦ return none | some t ↦ read_entries n t ]) (Loaded 0))
        (sym e) (read_entries-Ends n t m')

start-Sound :
    (capacity : ℕ) (h : SnapshotHeader) (total_weight updates : ℕ)
    → 0 < capacity
    → (s : SpaceSaving) × (start capacity h total_weight updates ≡ ok s)
      × ((n : ℕ) → n ≤ capacity → Sound s n)
unfolding start new
start-Sound capacity h total_weight updates positive =
    let m = empty-Summary capacity h.hash positive in
    let nonzero : (capacity == 0) ≡ false = ground arith in
    (
      record (empty capacity h.hash) { total_weight = total_weight; updates = updates },
      rw nonzero refl,
      λ n fits. record {
        consistent = with_totals (empty capacity h.hash) total_weight updates m.consistent;
        positive = positive;
        room = omega arith;
        low = λ t k. absurd (omega arith);
      },
    )

read_payload-Ends :
    (capacity : ℕ) (h : SnapshotHeader) → 0 < capacity → Ends (read_payload capacity h) (Loaded 0)
unfolding read_payload
read_payload-Ends capacity h positive =
    bind-Ends u64 _ (λ _. Unit) (Loaded 0) (any-Ends u64)
      λ total_weight _.
        bind-Ends u64 _ (λ _. Unit) (Loaded 0) (any-Ends u64)
          λ updates _.
            bind-Ends u32 _ (λ _. Unit) (Loaded 0) (any-Ends u32)
              λ n _.
                bind-Ends
                  (refuse_if (ltb capacity n)
                    "spacesaving snapshot entry count exceeds its capacity")
                  _ (λ _. ltb capacity n ≡ false) (Loaded 0) (refuse_if-Ends (ltb capacity n) _)
                  λ _ passed.
                    bind-Ends (check_count n (4 + 8 + 8)) _ (λ _. Unit) (Loaded 0)
                      (any-Ends (check_count n (4 + 8 + 8)))
                      λ _ _.
                        let (s, e, sound) = start-Sound capacity h total_weight updates positive in
                        bind-Ends (lift (start capacity h total_weight updates)) _ (λ t. t ≡ s)
                          (Loaded 0) (λ r. inr (s, r, rw e, refl))
                          λ t same.
                            subst (λ x. Ends (read_entries n x) (Loaded 0)) (sym same)
                              (read_entries-Ends n s (sound n (ground arith)))

-- What `from_snapshot` may return: an error, or a summary that is consistent, has at most `capacity`
-- entries, and no entry with an error greater than its count.
pub record IsLoaded (s : SpaceSaving) : Type 0 where
  pub consistent : Consistent s
  pub positive : 0 < s.capacity
  pub size : length s.slots ≤ s.capacity
  pub low : (t : ℕ) → t < length s.slots → error_of s t ≤ count_of s t

abbrev pub LoadsSafely : Result (Option SpaceSaving) → Type 0
LoadsSafely result =
    ((e : SketchError) × (result ≡ err e))
    ⊎ ((s : SpaceSaving) × (result ≡ ok (some s)) × IsLoaded s)

run-LoadsSafely :
    (m : M (Option SpaceSaving)) (bytes : List ℕ) → Ends m (Loaded 0) → LoadsSafely (run m bytes)
unfolding Loaded
run-LoadsSafely m bytes h = elim (h (record { buf = bytes; pos = 0 })) [
  | inl (e, stop) ↦ inl (e, rw (stop, run))
  | inr (a, r, stop, (s, same, sound)) ↦ inr (
    s,
    rw (stop, run, same) refl,
    record {
      consistent = sound.consistent;
      positive = sound.positive;
      size = omega (arith, sound.room);
      low = sound.low;
    },
  )
]

read_capacity_cases :
    (bytes : List ℕ)
    → ((e : SketchError) × (read_capacity bytes ≡ err e))
      ⊎ ((capacity : ℕ) × (read_capacity bytes ≡ ok capacity) × (0 < capacity))
unfolding read_capacity
read_capacity_cases bytes = elim (Result-cases (run u64 bytes)) [
  | inr (x, e) ↦ inl (x, rw e refl)
  | inl (capacity, e) ↦ elim (Bool-cases (capacity == 0)) [
    | inl null ↦ inl (snapshot "spacesaving snapshot capacity must be positive", rw (e, null) refl)
    | inr other ↦ inr (capacity, rw (e, other) refl, ground arith)
  ]
]

from_parts-LoadsSafely :
    (h : SnapshotHeader) (params payload : List ℕ) → LoadsSafely (from_parts (h, params, payload))
unfolding from_parts
from_parts-LoadsSafely h params payload = elim (Bool-cases (h.algorithm_id == space_saving)) [
  | inr e ↦ inl (snapshot "not a spacesaving snapshot", rw e refl)
  | inl e ↦ elim (read_capacity_cases params) [
    | inl (x, f) ↦ inl (x, rw (e, f) refl)
    | inr (capacity, f, positive) ↦
        rw (e, f)
          (run-LoadsSafely (read_payload capacity h) payload
            (read_payload-Ends capacity h positive))
  ]
]

-- Whatever the bytes are, `from_snapshot` refuses them with an error, or it loads a summary with a
-- positive capacity, at most that many entries, no error greater than its count, and whose heap,
-- slots and index are consistent; no index, `expect` or loop of it fails on the way. (The memory that
-- it reserves for the declared capacity is not modelled.)
pub from_snapshot-LoadsSafely : (bytes : List ℕ) → LoadsSafely (from_snapshot bytes)
unfolding from_snapshot
from_snapshot-LoadsSafely bytes = elim (Result-cases (read_snapshot bytes)) [
  | inr (x, e) ↦ inl (x, rw e refl)
  | inl ((h, params, payload), e) ↦ rw e (from_parts-LoadsSafely h params payload)
]
