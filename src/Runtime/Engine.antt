-- ===== src/Runtime/Engine.antt =====
-- `QueryEngine`: the planned queries fed from one event stream.
pub mod Preflight
pub mod Watermark
pub mod Drain
use Prim.Native.String.{String}
use flowsketch.Base.Word.{add64}
use flowsketch.Base.{
  ℕ, ◌+◌, List, [], ◌∷◌, ◌++◌, Option, none, some, length, Bool, true, false, ◌||◌, ◌==◌,
  if◌then◌else◌,
}
use flowsketch.Core.Error.{SketchError, Result, ok, err}
use flowsketch.Core.Event.{FlowEvent}
use flowsketch.Runtime.Run.{
  Run, returned, failed, panicked, out_of_fuel, M, continue, ◌>>◌, require,
}
use flowsketch.Runtime.States.{States}
use flowsketch.Runtime.Query.{
  Plan, Bucket, WindowState, RunningQuery, back, bucket_start_for, ensure_emit_capacity,
  ensure_can_advance, ensure_can_process, merge_all, advance_to_bucket, finish, process,
}

-- A query with its plan; the states of its sketch are those that the plan builds.
pub record Running (P : Plan → States) : Type 0 where
  pub plan : Plan
  pub query : RunningQuery (P plan).State

pub record QueryEngine (P : Plan → States) : Type 0 where
  pub queries : List (Running P)
  pub events_processed : ℕ

pub record QueryWindowState (P : Plan → States) : Type 0 where
  pub plan : Plan
  pub state : WindowState (P plan).State

-- `RunningQuery::new`
unfoldable pub new_query : (P : Plan → States) → Plan → Running P
new_query P plan = record {
  plan = plan;
  query = record { buckets = []; emitted = []; late_events = 0 };
}

-- `for q in &self.queries { check(q)?; }`
unfoldable pub check_each : {A : Type 0} → (A → Result (Unit {0})) → List A → Result (Unit {0})
check_each check [] = ok tt
check_each check (q ∷ qs) = elim (check q) [ ok u ↦ check_each check qs | err e ↦ err e ]

-- What a loop leaves behind when its first call ended with `q`, before the queries `qs`.
abbrev pub then_each :
    {A : Type 0} → List A → (List A × Run (Unit {0})) → A × Run (Unit {0}) → List A × Run (Unit {0})
then_each qs rest (q, returned u) = (q ∷ rest.0, rest.1)
then_each qs rest (q, failed e) = (q ∷ qs, failed e)
then_each qs rest (q, panicked) = (q ∷ qs, panicked)
then_each qs rest (q, out_of_fuel) = (q ∷ qs, out_of_fuel)

-- `for q in &mut self.queries { step(q)?; }`
unfoldable pub run_each : {A : Type 0} → M A (Unit {0}) → M (List A) (Unit {0})
run_each step [] = ([], returned tt)
run_each step (q ∷ qs) = then_each qs (run_each step qs) (step q)

module _ (P : Plan → States) (display_ipv6 : List ℕ → List ℕ) where
  -- A method of a query, on the query with its plan.
  abbrev pub on_query :
      ((plan : Plan) → M (RunningQuery (P plan).State) (Unit {0})) → M (Running P) (Unit {0})
  on_query step r = let (q, out) = step r.plan r.query in (record { plan = r.plan; query = q }, out)

  unfoldable pub process_query : FlowEvent → M (Running P) (Unit {0})
  process_query event = on_query (λ plan. process (P plan) plan display_ipv6 event)

  unfoldable pub can_process_query : FlowEvent → Running P → Result (Unit {0})
  can_process_query event r = ensure_can_process r.plan r.query event

  unfoldable pub can_advance_query : ℕ → Running P → Result (Unit {0})
  can_advance_query ts r = ensure_can_advance r.plan r.query (bucket_start_for r.plan ts)

  unfoldable pub advance_query : ℕ → M (Running P) (Unit {0})
  advance_query ts = on_query (λ plan. advance_to_bucket (P plan) plan (bucket_start_for plan ts))

  unfoldable pub can_finish_query : Running P → Result (Unit {0})
  can_finish_query r = elim r.query.buckets [
    | [] ↦ ok tt
    | b ∷ bs ↦ ensure_emit_capacity r.plan r.query 1
  ]

  unfoldable pub finish_query : M (Running P) (Unit {0})
  finish_query = on_query (λ plan. finish (P plan) plan)

  -- The queries after a loop over them.
  abbrev pub with_queries : M (List (Running P)) (Unit {0}) → M (QueryEngine P) (Unit {0})
  with_queries loop engine =
      let (qs, out) = loop engine.queries in (record engine { queries = qs }, out)

  abbrev pub count_event : M (QueryEngine P) (Unit {0})
  count_event engine =
      (record engine { events_processed = add64 engine.events_processed 1 }, returned tt)

  unfoldable pub process_event : FlowEvent → M (QueryEngine P) (Unit {0})
  process_event event =
      require (λ engine. check_each (can_process_query event) engine.queries)
      >> (count_event >> with_queries (run_each (process_query event)))

  unfoldable pub advance_to : ℕ → M (QueryEngine P) (Unit {0})
  advance_to ts =
      require (λ engine. check_each (can_advance_query ts) engine.queries)
      >> with_queries (run_each (advance_query ts))

  unfoldable pub finish_all : M (QueryEngine P) (Unit {0})
  finish_all =
      require (λ engine. check_each can_finish_query engine.queries)
      >> with_queries (run_each finish_query)

unfoldable pub name_windows :
    (P : Plan → States) (plan : Plan)
    → List (WindowState (P plan).State)
    → List (QueryWindowState P)
name_windows P plan [] = []
name_windows P plan (w ∷ ws) = record { plan = plan; state = w } ∷ name_windows P plan ws

-- `emitted.drain(..)` of every query: what is drained, and what the queries keep.
unfoldable pub drain_each :
    (P : Plan → States) → List (Running P) → List (Running P) × List (QueryWindowState P)
drain_each P [] = ([], [])
drain_each P (r ∷ rs) =
    let (rest, drained) = drain_each P rs in
    (
      record { plan = r.plan; query = record r.query { emitted = [] } } ∷ rest,
      name_windows P r.plan r.query.emitted ++ drained,
    )

unfoldable pub take_window_states :
    (P : Plan → States) → QueryEngine P → QueryEngine P × List (QueryWindowState P)
take_window_states P engine =
    let (qs, drained) = drain_each P engine.queries in (record engine { queries = qs }, drained)

unfoldable pub pending_windows_each : (P : Plan → States) → List (Running P) → ℕ
pending_windows_each P [] = 0
pending_windows_each P (r ∷ rs) = length r.query.emitted + pending_windows_each P rs

unfoldable pub pending_window_count : (P : Plan → States) → QueryEngine P → ℕ
pending_window_count P engine = pending_windows_each P engine.queries

unfoldable pub some_full : (P : Plan → States) → List (Running P) → Bool
some_full P [] = false
some_full P (r ∷ rs) = (length r.query.emitted == r.plan.pending_window_capacity) || some_full P rs

unfoldable pub pending_windows_full : (P : Plan → States) → QueryEngine P → Bool
pending_windows_full P engine = some_full P engine.queries

-- The open window of a query, if it has one; `none` within `ok` is the `continue`.
unfoldable pub current_window :
    (P : Plan → States) → Running P → Result (Option (QueryWindowState P))
current_window P r = elim r.query.buckets [
  | [] ↦ ok none
  | b ∷ bs ↦ elim (merge_all (P r.plan) r.plan b.state bs) [
    | err e ↦ err e
    | ok merged ↦ elim (back (b ∷ bs)) [
      | none ↦ ok none
      | some last ↦ ok (
          some (record {
            plan = r.plan;
            state = record {
              state = merged;
              window_start_nanos = b.start_nanos;
              window_end_nanos = add64 last.start_nanos r.plan.slide_nanos;
            };
          }))
    ]
  ]
]

unfoldable pub current_windows :
    (P : Plan → States) → List (Running P) → Result (List (QueryWindowState P))
current_windows P [] = ok []
current_windows P (r ∷ rs) = elim (current_window P r) [
  | err e ↦ err e
  | ok window ↦ elim (current_windows P rs) [
    | err e ↦ err e
    | ok rest ↦ elim window [ none ↦ ok rest | some w ↦ ok (w ∷ rest) ]
  ]
]

unfoldable pub current_window_states :
    (P : Plan → States) → QueryEngine P → Result (List (QueryWindowState P))
current_window_states P engine = current_windows P engine.queries

-- `sum` wraps on u64.
unfoldable pub late_each : (P : Plan → States) → List (Running P) → ℕ
late_each P [] = 0
late_each P (r ∷ rs) = add64 r.query.late_events (late_each P rs)

unfoldable pub late_events : (P : Plan → States) → QueryEngine P → ℕ
late_events P engine = late_each P engine.queries
