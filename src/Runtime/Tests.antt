-- ===== src/Runtime/Tests.antt =====
-- A query over sums, open at one bucket, and an engine of it and a new distinct count.
use flowsketch.Base.Word.{add64}
use flowsketch.Base.{
  ℕ, ◌++◌, ◌+◌, ◌*◌, ◌/◌, ◌≤◌, ◌<◌, ◌≡◌, ◌⊎◌, refl, List, [], ◌∷◌, none, some, length, true, arith,
}
use flowsketch.Core.Error.{backpressure, ok}
use flowsketch.Core.Event.{FlowEvent, default_event}
use flowsketch.Core.Field.{src_ip, bytes, extract_value, group_key}
use flowsketch.Ir.Logical.{Measure, sum, distinct_count, matches, protocol_differs, is_empty}
use flowsketch.Core.Hash.{hash_spec}
use flowsketch.Runtime.Distinct.{distinct_states, distinct_mergeable}
use flowsketch.Runtime.Run.{returned, failed, ◌>>◌}
use flowsketch.Runtime.States.{States, Mergeable}
use flowsketch.Runtime.Query.{
  finish, WindowState, Plan, RunningQuery, bucket_start_for, pending_windows, advance_to_bucket,
  count_or_drop, process, is_current, back, ensure_can_advance, windows_closed_by_advance,
  ensure_emit_capacity, advance_open, slide_until, slide_once, flush_window, merge_all, push_bucket,
  drop_excess, pop_excess, position, count_in, update_bucket, event_weight, event_item, value_field,
  distinct_field,
}
use flowsketch.Runtime.Query.Finish.{finish-Open}
use flowsketch.Runtime.Query.Slide.{Open, Completes, AreWindows}
use flowsketch.Runtime.Query.Jump.{Advanced, closed_windows, buckets_after, latest}
use flowsketch.Runtime.Query.Advance.{advance_to_bucket-IsAt}
use flowsketch.Runtime.Query.Counting.{Processed, process-advance_to_bucket, process-IsAt}
use flowsketch.Runtime.Engine.{
  Running, QueryEngine, process_event, advance_to, take_window_states, pending_window_count,
}
use flowsketch.Runtime.Engine.Preflight.{
  Each, Reached, All, Some, Healthy, Crowded, process_event-IsAtomic,
}
use flowsketch.Runtime.Engine.Watermark.{Advances, advance_to-IsAtomic}
use flowsketch.Runtime.Engine.Drain.{all_windows, without_windows, process_event-take_window_states}

-- The weights of a bucket, added up.
abbrev sums : States
sums = record {
  State = ℕ;
  build = ok 0;
  update = λ s key weight item. s + weight;
  merge_from = λ s t. ok (s + t);
}

abbrev sums_merge : Mergeable sums
sums_merge = record {
  IsGood = λ s. Unit;
  built = (0, refl, tt);
  updated = λ s key weight item good. tt;
  merged = λ s t hs ht. (s + t, refl, tt);
}

-- A window of two buckets of ten nanoseconds.
abbrev two_buckets : Plan
two_buckets = record {
  name = "bytes";
  filter = record { protocol = none; dst_ports = []; src_ports = []; interfaces = [] };
  group_by = src_ip ∷ [];
  measure = sum bytes;
  slide_nanos = 10;
  window_buckets = 2;
  pending_window_capacity = 2;
}

abbrev third_slide : RunningQuery ℕ
third_slide = record {
  buckets = record { start_nanos = 20; state = 5 } ∷ [];
  emitted = [];
  late_events = 0;
}

abbrev third_slide-Open : Open sums two_buckets sums_merge third_slide 2
third_slide-Open = record {
  first = 2;
  ring = (refl, tt);
  good = (tt, tt);
  newest = refl;
  some_open = omega arith;
  short = omega arith;
  windows = tt;
}

abbrev display : List ℕ → List ℕ
display octets = 58 ∷ 58 ∷ []

-- An event of slide 3.
abbrev later_event : FlowEvent
later_event = record default_event { ts_nanos = 37; bytes = 100 }

later_matches : matches two_buckets.filter later_event ≡ true
unfolding matches protocol_differs is_empty
later_matches = refl

later_event_counted : process sums two_buckets display later_event third_slide ≡ (
  record {
    buckets =
        record { start_nanos = 20; state = 5 } ∷ record { start_nanos = 30; state = 100 } ∷ [];
    emitted = record { state = 5; window_start_nanos = 20; window_end_nanos = 30 } ∷ [];
    late_events = 0;
  },
  returned tt,
)
unfolding process advance_to_bucket count_or_drop bucket_start_for matches protocol_differs is_empty
    is_current back ensure_can_advance windows_closed_by_advance ensure_emit_capacity advance_open
    slide_until slide_once flush_window merge_all push_bucket drop_excess pop_excess position
    count_in update_bucket event_weight event_item value_field distinct_field extract_value
    group_key
later_event_counted = refl

advance_to_bucket-IsAt_example :
    ((length third_slide.emitted + closed_windows two_buckets (some 2) 9
        ≤ two_buckets.pending_window_capacity)
      × Advanced sums two_buckets sums_merge third_slide
          (closed_windows two_buckets (some 2) 9)
          (buckets_after two_buckets (some 2) 9 (length third_slide.buckets))
          (latest (some 2) 9)
          (advance_to_bucket sums two_buckets (two_buckets.slide_nanos * 9) third_slide))
    ⊎ ((two_buckets.pending_window_capacity
          < length third_slide.emitted + closed_windows two_buckets (some 2) 9)
        × (advance_to_bucket sums two_buckets (two_buckets.slide_nanos * 9) third_slide
            ≡ (third_slide, failed (backpressure pending_windows))))
advance_to_bucket-IsAt_example =
    advance_to_bucket-IsAt sums two_buckets sums_merge third_slide (some 2) 9 (omega arith)
      (omega arith) (omega arith) third_slide-Open

process-advance_to_bucket_example :
    process sums two_buckets display later_event third_slide
    ≡ (advance_to_bucket sums two_buckets (bucket_start_for two_buckets later_event.ts_nanos)
          >> count_or_drop sums two_buckets display later_event
              (bucket_start_for two_buckets later_event.ts_nanos))
        third_slide
process-advance_to_bucket_example =
    process-advance_to_bucket sums two_buckets sums_merge display third_slide (some 2) later_event
      (omega arith) (omega arith) third_slide-Open later_matches

process-IsAt_example :
    ((length third_slide.emitted
          + closed_windows two_buckets (some 2) (later_event.ts_nanos / two_buckets.slide_nanos)
        ≤ two_buckets.pending_window_capacity)
      × (r : RunningQuery ℕ) × (process sums two_buckets display later_event third_slide
          ≡ (r, returned tt))
      × Processed sums two_buckets sums_merge display third_slide
          (some 2)
          (later_event.ts_nanos / two_buckets.slide_nanos)
          later_event
          r)
    ⊎ ((two_buckets.pending_window_capacity
          < length third_slide.emitted
            + closed_windows two_buckets (some 2) (later_event.ts_nanos / two_buckets.slide_nanos))
        × (process sums two_buckets display later_event third_slide
            ≡ (third_slide, failed (backpressure pending_windows))))
process-IsAt_example =
    process-IsAt sums two_buckets sums_merge display third_slide (some 2) later_event (omega arith)
      (omega arith) (omega arith) (omega arith) third_slide-Open later_matches

-- A distinct count keeps HyperLogLogs, everything else sums.
abbrev by_measure : Measure → States
by_measure (distinct_count field) = distinct_states 4 (hash_spec 1)
by_measure _ = sums

abbrev states : Plan → States
states plan = by_measure plan.measure

abbrev fan_out : Plan
fan_out = record two_buckets { name = "fan-out"; group_by = []; measure = distinct_count src_ip }

abbrev new_fan_out : Running states
new_fan_out = record {
  plan = fan_out;
  query = record { buckets = []; emitted = []; late_events = 0 };
}

abbrev two_queries : QueryEngine states
two_queries = record {
  queries = record { plan = two_buckets; query = third_slide } ∷ new_fan_out ∷ [];
  events_processed = 1;
}

abbrev one_query-Healthy : Healthy states (record { plan = two_buckets; query = third_slide })
one_query-Healthy = record {
  laws = sums_merge;
  positive = omega arith;
  some_bucket = omega arith;
  room = omega arith;
  newest = some 2;
  at = third_slide-Open;
}

abbrev queries-Healthy : All (Healthy states) two_queries.queries
queries-Healthy = (
  one_query-Healthy,
  (
    record {
      laws = distinct_mergeable 4 (hash_spec 1) (omega arith) (omega arith);
      positive = omega arith;
      some_bucket = omega arith;
      room = omega arith;
      newest = none;
      at = (refl, tt);
    },
    tt,
  ),
)

process_event-IsAtomic_example :
    ((after : QueryEngine states) × (process_event states display later_event two_queries
        ≡ (after, returned tt))
      × All (Healthy states) after.queries
      × Each
          (Reached states display later_event (omega arith))
          two_queries.queries
          queries-Healthy
          after.queries
      × (after.events_processed ≡ add64 two_queries.events_processed 1))
    ⊎ ((process_event states display later_event two_queries
          ≡ (two_queries, failed (backpressure pending_windows)))
        × Some (Crowded states) two_queries.queries)
process_event-IsAtomic_example =
    process_event-IsAtomic states display later_event (omega arith) two_queries queries-Healthy

advance_to-IsAtomic_example :
    ((after : QueryEngine states) × (advance_to states display 55 two_queries
        ≡ (after, returned tt))
      × All (Healthy states) after.queries
      × Each
          (Advances states display 55 (omega arith))
          two_queries.queries
          queries-Healthy
          after.queries
      × (after.events_processed ≡ two_queries.events_processed))
    ⊎ ((advance_to states display 55 two_queries
          ≡ (two_queries, failed (backpressure pending_windows)))
        × Some (Crowded states) two_queries.queries)
advance_to-IsAtomic_example =
    advance_to-IsAtomic states display 55 (omega arith) two_queries queries-Healthy

process_event-take_window_states_example :
    ((take_window_states states two_queries).1 ≡ all_windows states two_queries.queries)
    × (length (take_window_states states two_queries).1 ≡ pending_window_count states two_queries)
    × ((take_window_states states two_queries).0.queries
        ≡ without_windows states two_queries.queries)
    × (pending_window_count states (take_window_states states two_queries).0 ≡ 0)
    × (ready : All (Healthy states) (take_window_states states two_queries).0.queries)
    × (after : QueryEngine states) × (process_event states display later_event
          (take_window_states states two_queries).0
        ≡ (after, returned tt))
    × All (Healthy states) after.queries
    × Each
        (Reached states display later_event (omega arith))
        (take_window_states states two_queries).0.queries
        ready
        after.queries
    × (after.events_processed ≡ add64 two_queries.events_processed 1)
process_event-take_window_states_example =
    process_event-take_window_states states display two_queries later_event (omega arith)
      queries-Healthy (omega arith, (omega arith, tt))

finish-Open_example :
    ((length third_slide.emitted + 1 ≤ two_buckets.pending_window_capacity)
      × (w : WindowState ℕ) × (finish sums two_buckets third_slide
          ≡ (record third_slide { emitted = third_slide.emitted ++ w ∷ [] }, returned tt))
      × Completes sums two_buckets sums_merge third_slide-Open.first 2 third_slide.buckets w
      × AreWindows two_buckets (w ∷ []))
    ⊎ ((two_buckets.pending_window_capacity < length third_slide.emitted + 1)
        × (finish sums two_buckets third_slide
            ≡ (third_slide, failed (backpressure pending_windows))))
finish-Open_example =
    finish-Open sums two_buckets sums_merge third_slide 2 (omega arith) third_slide-Open
