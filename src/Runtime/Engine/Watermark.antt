-- ===== src/Runtime/Engine/Watermark.antt =====
-- `advance_to`: the shared event-time watermark.
use native.Mathlib.Nat.{div-add-mod}
use flowsketch.Base.{
  ℕ, ◌*◌, ◌/◌, ◌^◌, ◌<◌, ◌≡◌, ◌⊎◌, refl, ap, ◌∙◌, List, length, some, arith, inl, inr,
}
use flowsketch.Core.Error.{backpressure, Result}
use flowsketch.Runtime.Run.{returned, failed, M, require-granted, require-refused}
use flowsketch.Runtime.States.{States}
use flowsketch.Runtime.Query.{Plan, RunningQuery, pending_windows, ensure_can_advance}
use flowsketch.Runtime.Query.Jump.{Moved, closed_windows, buckets_after, latest}
use flowsketch.Runtime.Query.Advance.{can_advance-ok, can_advance-full, advance_to_bucket-IsAt}
use flowsketch.Runtime.Query.Counting.{bucket_start-slide}
use flowsketch.Runtime.Engine.{
  Running, QueryEngine, check_each, run_each, can_advance_query, advance_query, advance_to,
  with_queries,
}
use flowsketch.Runtime.Engine.Preflight.{
  All, Each, Some, IsChecked, run_each-checked, Healthy, Crowded, closed_at_most,
}

module _ (P : Plan → States) (display_ipv6 : List ℕ → List ℕ) (ts : ℕ) (small : ts < 2 ^ 64) where
  -- What the watermark makes of a query: an advance to its slide.
  abbrev pub Advances : (r : Running P) → Healthy P r → Running P → Type 0
  Advances r h b =
      (q : RunningQuery (P r.plan).State) × (b ≡ record { plan = r.plan; query = q })
      × Moved (P r.plan) r.plan h.laws r.query
          (closed_windows r.plan h.newest (ts / r.plan.slide_nanos))
          (buckets_after r.plan h.newest (ts / r.plan.slide_nanos) (length r.query.buckets))
          (latest h.newest (ts / r.plan.slide_nanos)) q

  advance_query-checked :
      IsChecked
        (can_advance_query P display_ipv6 ts)
        (advance_query P display_ipv6 ts)
        (Healthy P)
        Advances
        (Crowded P)
  unfolding can_advance_query advance_query
  advance_query-checked r h =
      let t : ℕ = ts / r.plan.slide_nanos in
      let start = bucket_start-slide r.plan ts in
      let fits : r.plan.slide_nanos * t < 2 ^ 64 =
        omega (arith, div-add-mod ts r.plan.slide_nanos) in
      elim (advance_to_bucket-IsAt (P r.plan) r.plan h.laws r.query h.newest t h.positive
        h.some_bucket fits h.at) [
          | inl (enough, advanced) ↦
              let (q, e, moved) = advanced in
              inl (
                ap (ensure_can_advance r.plan r.query) start
                    ∙ can_advance-ok (P r.plan) r.plan h.laws r.query h.newest t h.positive h.at
                        enough,
                record { plan = r.plan; query = q },
                rw (start, e, advance_query) refl,
                record {
                  laws = h.laws;
                  positive = h.positive;
                  some_bucket = h.some_bucket;
                  room = omega (arith, moved.closing, enough);
                  newest = some (latest h.newest t);
                  at = moved.open_ring;
                },
                (q, refl, moved),
              )
          | inr (full, e) ↦ inr (
            ap (ensure_can_advance r.plan r.query) start
                ∙ can_advance-full (P r.plan) r.plan h.laws r.query h.newest t h.positive h.at full,
            omega (arith, full, closed_at_most r.plan h.newest t),
          )
        ]

  -- A watermark before 2^64 nanoseconds given to an engine whose queries are all healthy either advances
  -- every query to its slide (with the windows closed that the advance announces and every bucket with the
  -- state that the query had of its slide, or an empty one) and leaves them all healthy and the event count
  -- as it was, or it is refused with backpressure and the engine is as it was; it is refused only when the
  -- completed windows of some query have no room for a whole ring of them.
  pub advance_to-IsAtomic :
      (engine : QueryEngine P)
      → (healthy : All (Healthy P) engine.queries)
      → ((after : QueryEngine P) × (advance_to P display_ipv6 ts engine ≡ (after, returned tt))
          × All (Healthy P) after.queries
          × Each Advances engine.queries healthy after.queries
          × (after.events_processed ≡ engine.events_processed))
        ⊎ ((advance_to P display_ipv6 ts engine ≡ (engine, failed (backpressure pending_windows)))
            × Some (Crowded P) engine.queries)
  unfolding advance_to
  advance_to-IsAtomic engine healthy =
      let check : QueryEngine P → Result (Unit {0}) =
        λ engine. check_each (can_advance_query P display_ipv6 ts) engine.queries in
      let go : M (QueryEngine P) (Unit {0}) =
        with_queries P display_ipv6 (run_each (advance_query P display_ipv6 ts)) in
      elim (run_each-checked (can_advance_query P display_ipv6 ts) (advance_query P display_ipv6 ts)
        (Healthy P) Advances (Crowded P) engine.queries advance_query-checked healthy) [
          | inl (granted, qs, e, healthy', advances) ↦ inl (
            record engine { queries = qs },
            require-granted check go engine granted ∙ rw e refl,
            healthy',
            advances,
            refl,
          )
          | inr (refused, crowded) ↦
              inr (require-refused check go engine (backpressure pending_windows) refused, crowded)
        ]
