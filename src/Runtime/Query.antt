-- ===== src/Runtime/Query.antt =====
-- `RunningQuery`: the ring of buckets of one query. A sliding window is the ring of its tumbling buckets,
-- oldest first. The plan does not change while the query runs; `RunningQuery` here holds what does.
pub mod Ring
pub mod Contents
pub mod Slide
pub mod Loops
pub mod Rebuild
pub mod Jump
pub mod Advance
pub mod Weights
pub mod Process
pub mod Counting
pub mod Finish
use Prim.Native.String.{String}
use flowsketch.Base.Word.{add64}
use flowsketch.Base.{
  ℕ, zero, suc, ◌+◌, ◌-◌, ◌*◌, ◌/◌, ◌%◌, min, List, [], ◌∷◌, ◌++◌, Option, none, some, length, Bool,
  true, false, not, ◌&&◌, ltb, leb, ◌==◌, if◌then◌else◌,
}
use flowsketch.Core.Error.{SketchError, backpressure, Result, ok, err}
use flowsketch.Core.Event.{FlowEvent}
use flowsketch.Core.Field.{Field, extract_value, field_value_into, group_key}
use flowsketch.Ir.Logical.{
  Measure, counting, sum, heavy_hitters, distinct_count, entropy, quantile, Predicate, matches,
}
use flowsketch.Runtime.Run.{
  Run, returned, failed, panicked, out_of_fuel, M, continue, ◌>>=◌, ◌>>◌, done, require,
}
use flowsketch.Runtime.States.{States}

-- The parts of `Plan` that a running query reads.
pub record Plan : Type 0 where
  pub name : String
  pub filter : Predicate
  pub group_by : List Field
  pub measure : Measure
  pub slide_nanos : ℕ
  pub window_buckets : ℕ
  pub pending_window_capacity : ℕ

-- The message of the refusal, without its numbers.
abbrev pub pending_windows : String
pending_windows = "completed windows are pending; drain estimates or window states and retry"

-- The fields that `RunningQuery::new` derives from the measure.
unfoldable pub distinct_field : Measure → Option Field
distinct_field counting = none
distinct_field (sum value) = none
distinct_field (heavy_hitters value limit) = none
distinct_field (distinct_count field) = some field
distinct_field (entropy field) = some field
distinct_field (quantile field) = none

unfoldable pub value_field : Measure → Option Field
value_field counting = none
value_field (sum value) = some value
value_field (heavy_hitters value limit) = some value
value_field (distinct_count field) = none
value_field (entropy field) = none
value_field (quantile field) = some field

pub record Bucket (S : Type 0) : Type 0 where
  pub start_nanos : ℕ
  pub state : S

pub record WindowState (S : Type 0) : Type 0 where
  pub state : S
  pub window_start_nanos : ℕ
  pub window_end_nanos : ℕ

pub record RunningQuery (S : Type 0) : Type 0 where
  pub buckets : List (Bucket S)
  pub emitted : List (WindowState S)
  pub late_events : ℕ

-- `VecDeque::back`
unfoldable pub back : {A : Type 0} → List A → Option A
back [] = none
back (x ∷ []) = some x
back (x ∷ (y ∷ ys)) = back (y ∷ ys)

-- `while self.buckets.len() > self.bucket_count() { self.buckets.pop_front(); }`
unfoldable pub pop_excess : {A : Type 0} → ℕ → List A → List A
pop_excess ring [] = []
pop_excess ring (b ∷ bs) =
    let rest = pop_excess ring bs in if ltb ring (length (b ∷ bs)) then rest else b ∷ bs

-- `ts - ts % slide`; the slide of a plan is positive.
unfoldable pub bucket_start_for : Plan → ℕ → ℕ
bucket_start_for plan ts = ts - ts % plan.slide_nanos

module _ {S : Type 0} (plan : Plan) where
  unfoldable pub windows_closed_by_advance : RunningQuery S → ℕ → ℕ
  windows_closed_by_advance q target = elim (back q.buckets) [
    | none ↦ 0
    | some b ↦
        if leb target b.start_nanos
        then 0
        else (let slides = (target - b.start_nanos) / plan.slide_nanos in
            if ltb plan.window_buckets slides then plan.window_buckets else slides)
  ]

  -- `saturating_add` of two lengths.
  unfoldable pub ensure_emit_capacity : RunningQuery S → ℕ → Result (Unit {0})
  ensure_emit_capacity q additional =
      if ltb plan.pending_window_capacity (length q.emitted + additional)
      then err (backpressure pending_windows)
      else ok tt

  unfoldable pub ensure_can_advance : RunningQuery S → ℕ → Result (Unit {0})
  ensure_can_advance q target = ensure_emit_capacity q (windows_closed_by_advance q target)

  unfoldable pub ensure_can_process : RunningQuery S → FlowEvent → Result (Unit {0})
  ensure_can_process q event =
      if matches plan.filter event
      then ensure_can_advance q (bucket_start_for plan event.ts_nanos)
      else ok tt

module _ (P : States) (plan : Plan) where
  abbrev pub Query : Type 0
  Query = RunningQuery P.State

  -- `self.buckets.push_back(self.new_bucket(start)?)`
  unfoldable pub push_bucket : ℕ → M Query (Unit {0})
  push_bucket start q = elim P.build [
    | ok state ↦ (
      record q { buckets = q.buckets ++ record { start_nanos = start; state = state } ∷ [] },
      returned tt,
    )
    | err e ↦ (q, failed e)
  ]

  -- `for b in buckets { merged.merge_from(&b.state)?; }`
  unfoldable pub merge_all : P.State → List (Bucket P.State) → Result P.State
  merge_all merged [] = ok merged
  merge_all merged (b ∷ bs) = elim (P.merge_from merged b.state) [
    | ok next ↦ merge_all next bs
    | err e ↦ err e
  ]

  unfoldable pub flush_window : ℕ → M Query (Unit {0})
  flush_window window_end q = elim q.buckets [
    | [] ↦ (q, returned tt)
    | b ∷ bs ↦ elim (ensure_emit_capacity plan q 1) [
      | err e ↦ (q, failed e)
      | ok _ ↦ elim (merge_all b.state bs) [
        | err e ↦ (q, failed e)
        | ok merged ↦ (
          record q {
            emitted =
                q.emitted
                ++ record {
                  state = merged;
                  window_start_nanos = b.start_nanos;
                  window_end_nanos = window_end;
                }
                  ∷ [];
          },
          returned tt,
        )
      ]
    ]
  ]

  unfoldable pub drop_excess : M Query (Unit {0})
  drop_excess q = (record q { buckets = pop_excess plan.window_buckets q.buckets }, returned tt)

  -- The body of both loops of `advance_to_bucket`.
  unfoldable pub slide_once : ℕ → M Query (Unit {0})
  slide_once last =
      let next = add64 last plan.slide_nanos in
      (flush_window next >> push_bucket next) >> drop_excess

  -- `for _ in 0..self.bucket_count()`
  unfoldable pub slide_times : ℕ → M Query (Unit {0})
  slide_times zero q = (q, returned tt)
  slide_times (suc n) q = elim (back q.buckets) [
    | none ↦ (q, panicked)
    | some b ↦ (slide_once b.start_nanos >> slide_times n) q
  ]

  -- `while self.buckets.back().unwrap().start_nanos < target`
  unfoldable pub slide_until : ℕ → ℕ → M Query (Unit {0})
  slide_until zero target q = (q, out_of_fuel)
  slide_until (suc fuel) target q = elim (back q.buckets) [
    | none ↦ (q, panicked)
    | some b ↦
        if ltb b.start_nanos target
        then (slide_once b.start_nanos >> slide_until fuel target) q
        else (q, returned tt)
  ]

  unfoldable pub rebuild_from : ℕ → ℕ → ℕ → M Query (Unit {0})
  rebuild_from zero start target q = (q, out_of_fuel)
  rebuild_from (suc fuel) start target q =
      (push_bucket start
          >> (if start == target
              then done
              else rebuild_from fuel (add64 start plan.slide_nanos) target))
        q

  -- `first` is `target - slide * (ring - 1).min(target / slide)`.
  unfoldable pub rebuild_trailing_ring : ℕ → M Query (Unit {0})
  rebuild_trailing_ring target q =
      let first =
        target - plan.slide_nanos * min (plan.window_buckets - 1) (target / plan.slide_nanos) in
      rebuild_from plan.window_buckets first target (record q { buckets = [] })

  unfoldable pub advance_open : ℕ → Bucket P.State → M Query (Unit {0})
  advance_open target last =
      if ltb last.start_nanos target
        && ltb plan.window_buckets ((target - last.start_nanos) / plan.slide_nanos)
      then slide_times plan.window_buckets >> rebuild_trailing_ring target
      else slide_until ((target - last.start_nanos) / plan.slide_nanos + 1) target

  -- Both loops have the fuel for as many rounds as they can take.
  unfoldable pub advance_to_bucket : ℕ → M Query (Unit {0})
  advance_to_bucket target = require (λ q. ensure_can_advance plan q target) >> λ q.
      elim (back q.buckets) [ none ↦ push_bucket target q | some last ↦ advance_open target last q ]

  unfoldable pub finish : M Query (Unit {0})
  finish q = elim (back q.buckets) [
    | none ↦ (q, returned tt)
    | some last ↦
        (require (λ q. ensure_emit_capacity plan q 1)
            >> flush_window (add64 last.start_nanos plan.slide_nanos))
          q
  ]

-- `iter().position(|b| b.start_nanos == start)`
unfoldable pub position : {S : Type 0} → ℕ → List (Bucket S) → Option ℕ
position start [] = none
position start (b ∷ bs) =
    let rest = position start bs in
    if b.start_nanos == start then some 0 else elim rest [ none ↦ none | some i ↦ some (suc i) ]

-- `get_mut(index)`, and the update of that bucket's state; `none` is the panic of `expect`.
unfoldable pub update_bucket :
    {S : Type 0} → (S → S) → ℕ → List (Bucket S) → Option (List (Bucket S))
update_bucket f i [] = none
update_bucket f zero (b ∷ bs) = some (record b { state = f b.state } ∷ bs)
update_bucket f (suc i) (b ∷ bs) = elim (update_bucket f i bs) [
  | none ↦ none
  | some rest ↦ some (b ∷ rest)
]

module _ (P : States) (plan : Plan) (display_ipv6 : List ℕ → List ℕ) where
  unfoldable pub event_weight : FlowEvent → ℕ
  event_weight event = elim (value_field plan.measure) [ none ↦ 1 | some f ↦ extract_value f event ]

  -- The buffer of the distinct item stays empty when the measure has none.
  unfoldable pub event_item : FlowEvent → List ℕ
  event_item event = elim (distinct_field plan.measure) [
    | none ↦ []
    | some f ↦ field_value_into display_ipv6 f event []
  ]

  -- `add_key_buf`, for heavy hitters, differs from `update` in what it leaves in the key buffer.
  unfoldable pub count_in : FlowEvent → ℕ → M (RunningQuery P.State) (Unit {0})
  count_in event index q =
      let count : P.State → P.State = λ s.
        P.update s (group_key display_ipv6 plan.group_by event) (event_weight event)
          (event_item event) in
      elim (update_bucket count index q.buckets) [
        | none ↦ (q, panicked)
        | some buckets ↦ (record q { buckets = buckets }, returned tt)
      ]

  -- After `advance_to_bucket`; an event without an open bucket is late.
  unfoldable pub count_or_drop : FlowEvent → ℕ → M (RunningQuery P.State) (Unit {0})
  count_or_drop event start q = elim (position start q.buckets) [
    | none ↦ (record q { late_events = add64 q.late_events 1 }, returned tt)
    | some index ↦ count_in event index q
  ]

  -- The newest bucket is the common case.
  unfoldable pub is_current : ℕ → List (Bucket P.State) → Bool
  is_current start buckets = elim (back buckets) [ none ↦ false | some b ↦ b.start_nanos == start ]

  unfoldable pub process : FlowEvent → M (RunningQuery P.State) (Unit {0})
  process event q =
      let start = bucket_start_for plan event.ts_nanos in
      if matches plan.filter event
      then (if is_current start q.buckets
          then count_in event (length q.buckets - 1) q
          else (advance_to_bucket P plan start >> count_or_drop event start) q)
      else (q, returned tt)
