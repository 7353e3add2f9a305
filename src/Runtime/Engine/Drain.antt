-- ===== src/Runtime/Engine/Drain.antt =====
-- Draining the completed windows, and the retry of a refused event after it.
use flowsketch.Base.Word.{add64}
use flowsketch.Base.{
  ℕ, suc, map, ◌++◌, ◌^◌, ◌≤◌, ◌<◌, ◌≡◌, refl, ap, List, [], ◌∷◌, Option, none, some, length,
  length-append, arith, inl, inr,
}
use flowsketch.Core.Event.{FlowEvent}
use flowsketch.Runtime.Run.{returned}
use flowsketch.Runtime.States.{States, Mergeable}
use flowsketch.Runtime.Query.{Plan, WindowState, RunningQuery}
use flowsketch.Runtime.Query.Jump.{IsAt}
use flowsketch.Runtime.Engine.{
  Running, QueryEngine, QueryWindowState, process_event, name_windows, drain_each,
  take_window_states, pending_windows_each, pending_window_count,
}
use flowsketch.Runtime.Engine.Preflight.{
  Each, Reached, All, Some, Healthy, Crowded, process_event-IsAtomic,
}

module _ (P : Plan → States) where
  length-name_windows :
      (plan : Plan) (ws : List (WindowState (P plan).State))
      → length (name_windows P plan ws) ≡ length ws
  unfolding name_windows
  length-name_windows plan [] = refl
  length-name_windows plan (w ∷ ws) = ap suc (length-name_windows plan ws)

  -- The completed windows of all queries, each with the plan of its query, query by query and oldest first.
  abbrev pub all_windows : List (Running P) → List (QueryWindowState P)
  all_windows [] = []
  all_windows (r ∷ rs) =
      map (λ w. record { plan = r.plan; state = w }) r.query.emitted ++ all_windows rs

  -- The queries without their completed windows.
  abbrev pub without_windows : List (Running P) → List (Running P)
  without_windows = map λ r. record { plan = r.plan; query = record r.query { emitted = [] } }

  name_windows-map :
      (plan : Plan) (ws : List (WindowState (P plan).State))
      → name_windows P plan ws ≡ map (λ w. record { plan = plan; state = w }) ws
  unfolding name_windows
  name_windows-map plan [] = refl
  name_windows-map plan (w ∷ ws) = rw (name_windows-map plan ws) refl

  drain_each_lem : (rs : List (Running P)) → drain_each P rs ≡ (without_windows rs, all_windows rs)
  unfolding drain_each
  drain_each_lem [] = refl
  drain_each_lem (r ∷ rs) = rw (name_windows-map r.plan r.query.emitted, drain_each_lem rs) refl

  length-drain_each :
      (rs : List (Running P)) → length (drain_each P rs).1 ≡ pending_windows_each P rs
  unfolding drain_each pending_windows_each
  length-drain_each [] = refl
  length-drain_each (r ∷ rs) = omega (
    arith,
    length-append (name_windows P r.plan r.query.emitted) (drain_each P rs).1,
    length-name_windows r.plan r.query.emitted,
    length-drain_each rs,
  )

  pending-drain_each : (rs : List (Running P)) → pending_windows_each P (drain_each P rs).0 ≡ 0
  unfolding drain_each pending_windows_each
  pending-drain_each [] = refl
  pending-drain_each (r ∷ rs) = omega (arith, pending-drain_each rs)

  drained-IsAt :
      (plan : Plan) (laws : Mergeable (P plan)) (q : RunningQuery (P plan).State) (o : Option ℕ)
      → IsAt (P plan) plan laws q o
      → IsAt (P plan) plan laws (record q { emitted = [] }) o
  drained-IsAt plan laws q none (e, windows) = (e, tt)
  drained-IsAt plan laws q (some l) o = record {
    first = o.first;
    ring = o.ring;
    good = o.good;
    newest = o.newest;
    some_open = o.some_open;
    short = o.short;
    windows = tt;
  }

  drain_each-Healthy :
      (rs : List (Running P)) → All (Healthy P) rs → All (Healthy P) (drain_each P rs).0
  unfolding drain_each
  drain_each-Healthy [] h = tt
  drain_each-Healthy (r ∷ rs) (hr, h) = (
    record {
      laws = hr.laws;
      positive = hr.positive;
      some_bucket = hr.some_bucket;
      room = omega arith;
      newest = hr.newest;
      at = drained-IsAt r.plan hr.laws r.query hr.newest hr.at;
    },
    drain_each-Healthy rs h,
  )

  -- The planner gives a query room for a whole ring of completed windows.
  abbrev pub Roomy : List (Running P) → Type 0
  Roomy [] = Unit
  Roomy (r ∷ rs) = (r.plan.window_buckets ≤ r.plan.pending_window_capacity) × Roomy rs

  drain_each-uncrowded : (rs : List (Running P)) → Roomy rs → ¬ Some (Crowded P) (drain_each P rs).0
  unfolding drain_each
  drain_each-uncrowded [] roomy crowded = crowded
  drain_each-uncrowded (r ∷ rs) (hr, roomy) (inl full) = omega arith
  drain_each-uncrowded (r ∷ rs) (hr, roomy) (inr crowded) = drain_each-uncrowded rs roomy crowded

  -- On healthy queries whose capacity is at least their ring, draining hands over exactly the pending
  -- windows, those of each query in order and each with its plan, as many as are pending, takes them and
  -- nothing else from the queries, and leaves none. After it no event before 2^64 nanoseconds is refused:
  -- the retry returns, is processed by every query that it matches and by no other, is counted once, and
  -- every query stays healthy.
  pub process_event-take_window_states :
      (display_ipv6 : List ℕ → List ℕ) (engine : QueryEngine P) (event : FlowEvent)
      (small : event.ts_nanos < 2 ^ 64)
      → All (Healthy P) engine.queries
      → Roomy engine.queries
      → ((take_window_states P engine).1 ≡ all_windows engine.queries)
        × (length (take_window_states P engine).1 ≡ pending_window_count P engine)
        × ((take_window_states P engine).0.queries ≡ without_windows engine.queries)
        × (pending_window_count P (take_window_states P engine).0 ≡ 0)
        × (ready : All (Healthy P) (take_window_states P engine).0.queries) × (after : QueryEngine
            P)
        × (process_event P display_ipv6 event (take_window_states P engine).0
            ≡ (after, returned tt))
        × All (Healthy P) after.queries
        × Each
            (Reached P display_ipv6 event small)
            (take_window_states P engine).0.queries
            ready
            after.queries
        × (after.events_processed ≡ add64 engine.events_processed 1)
  unfolding take_window_states pending_window_count
  process_event-take_window_states display_ipv6 engine event small healthy roomy =
      let drained : QueryEngine P = record engine { queries = (drain_each P engine.queries).0 } in
      let ready = drain_each-Healthy engine.queries healthy in
      elim (process_event-IsAtomic P display_ipv6 event small drained ready) [
        | inl (after, e, healthy', reached, one_more) ↦ (
          ap (λ out. out.1) (drain_each_lem engine.queries),
          length-drain_each engine.queries,
          ap (λ out. out.0) (drain_each_lem engine.queries),
          pending-drain_each engine.queries,
          ready,
          after,
          e,
          healthy',
          reached,
          one_more,
        )
        | inr (refused, crowded) ↦ absurd (drain_each-uncrowded engine.queries roomy crowded)
      ]
