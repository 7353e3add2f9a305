-- ===== src/Runtime/Engine/Preflight.antt =====
-- The engine's loops over its queries: the check of every query, and then the step of every query.
use flowsketch.Base.Word.{add64}
use flowsketch.Base.{
  ℕ, ◌+◌, ◌/◌, ◌^◌, ◌≤◌, ◌<◌, ◌≡◌, ◌⊎◌, refl, ap, ◌∙◌, List, [], ◌∷◌, Option, none, some, length,
  arith, Bool-cases, inl, inr, true, false,
}
use flowsketch.Core.Error.{backpressure, Result, ok, err}
use flowsketch.Core.Event.{FlowEvent}
use flowsketch.Ir.Logical.{matches}
use flowsketch.Runtime.Run.{returned, failed, M, ◌>>◌, require-granted, require-refused}
use flowsketch.Runtime.States.{States, Mergeable}
use flowsketch.Runtime.Query.{
  Plan, RunningQuery, pending_windows, ensure_can_process, ensure_can_advance, bucket_start_for,
}
use flowsketch.Runtime.Query.Jump.{IsAt, closed_windows, latest}
use flowsketch.Runtime.Query.Advance.{can_advance-ok, can_advance-full}
use flowsketch.Runtime.Query.Counting.{bucket_start-slide, Processed, process-IsAt, process-skip}
use flowsketch.Runtime.Engine.{
  Running, QueryEngine, check_each, run_each, can_process_query, process_query, process_event,
  with_queries, count_event,
}

abbrev pub All : {A : Type 0} → (A → Type 1) → List A → Type 1
All G [] = Unit {1}
All G (a ∷ xs) = G a × All G xs

abbrev pub Some : {A : Type 0} → (A → Type 0) → List A → Type 0
Some F [] = ⊥
Some F (a ∷ xs) = F a ⊎ Some F xs

-- Two lists of one length whose elements are related one by one.
abbrev pub Each :
    {A : Type 0} {G : A → Type 1}
    → ((a : A) → G a → A → Type 0)
    → (xs : List A) → All G xs
    → List A
    → Type 0
Each R [] g [] = Unit
Each R [] g (b ∷ bs) = ⊥
Each R (a ∷ xs) g [] = ⊥
Each R (a ∷ xs) g (b ∷ bs) = R a g.0 b × Each R xs g.1 bs

-- A step that succeeds whenever its check does and makes of its argument what it is to make, and a check that
-- fails only for a reason.
abbrev pub IsChecked :
    {A : Type 0}
    → (A → Result (Unit {0}))
    → M A (Unit {0})
    → (G : A → Type 1) → ((a : A) → G a → A → Type 0)
    → (A → Type 0)
    → Type 1
IsChecked {A = A} check step G R F =
    (a : A) (ga : G a)
    → ((check a ≡ ok tt) × (b : A) × (step a ≡ (b, returned tt)) × G b × R a ga b)
      ⊎ ((check a ≡ err (backpressure pending_windows)) × F a)

module _ {A : Type 0} (check : A → Result (Unit {0})) (step : M A (Unit {0})) (G : A → Type 1)
    (R : (a : A) → G a → A → Type 0) (F : A → Type 0) where
  pub run_each-checked :
      (xs : List A)
      → IsChecked check step G R F
      → (g : All G xs)
      → ((check_each check xs ≡ ok tt)
          × (bs : List A) × (run_each step xs ≡ (bs, returned tt))
          × All G bs
          × Each R xs g bs)
        ⊎ ((check_each check xs ≡ err (backpressure pending_windows)) × Some F xs)
  unfolding check_each run_each
  run_each-checked [] sound g = inl (refl, [], refl, g, tt)
  run_each-checked (a ∷ xs) sound (ga, g) = elim (sound a ga) [
    | inr (refused, f) ↦ inr (rw (refused, check_each) refl, inl f)
    | inl (granted, b, stepped, gb, does) ↦ elim (run_each-checked xs sound g) [
      | inr (refused, f) ↦ inr (rw (granted, refused, check_each) refl, inr f)
      | inl (granted', bs, stepped', gs, do_all) ↦ inl (
        rw (granted, granted', check_each) refl,
        b ∷ bs,
        rw (stepped, stepped', run_each) refl,
        (gb, gs),
        (does, do_all),
      )
    ]
  ]

module _ (P : Plan → States) where
  -- What a running query needs: states that merge, a window of at least one bucket and slides that are not
  -- empty, completed windows within their capacity, and a ring of consecutive slides.
  pub record Healthy (r : Running P) : Type 1 where
    pub laws : Mergeable (P r.plan)
    pub positive : 0 < r.plan.slide_nanos
    pub some_bucket : 0 < r.plan.window_buckets
    pub room : length r.query.emitted ≤ r.plan.pending_window_capacity
    pub newest : Option ℕ
    pub at : IsAt (P r.plan) r.plan laws r.query newest

  -- The completed windows of the query have no room for a whole ring of them.
  abbrev pub Crowded : Running P → Type 0
  Crowded r = r.plan.pending_window_capacity < length r.query.emitted + r.plan.window_buckets

pub closed_at_most :
    (plan : Plan) (o : Option ℕ) (t : ℕ) → closed_windows plan o t ≤ plan.window_buckets
closed_at_most plan none t = omega arith
closed_at_most plan (some l) t = omega arith

module _ (P : Plan → States) (display_ipv6 : List ℕ → List ℕ) (event : FlowEvent)
    (small : event.ts_nanos < 2 ^ 64) where
  can_process-match :
      (plan : Plan) (q : RunningQuery (P plan).State)
      → matches plan.filter event ≡ true
      → ensure_can_process plan q event
        ≡ ensure_can_advance plan q (bucket_start_for plan event.ts_nanos)
  unfolding ensure_can_process
  can_process-match plan q match = rw (match, ensure_can_process) refl

  can_process-skip :
      (plan : Plan) (q : RunningQuery (P plan).State)
      → matches plan.filter event ≡ false
      → ensure_can_process plan q event ≡ ok tt
  unfolding ensure_can_process
  can_process-skip plan q skip = rw (skip, ensure_can_process) refl

  -- What the event makes of a query: nothing if the filter refuses it, and otherwise what it makes of a query
  -- that it matches.
  abbrev pub Reached : (r : Running P) → Healthy P r → Running P → Type 0
  Reached r h b =
      ((matches r.plan.filter event ≡ false) × (b ≡ r))
      ⊎ ((matches r.plan.filter event ≡ true)
          × (q : RunningQuery (P r.plan).State) × (b ≡ record { plan = r.plan; query = q })
          × Processed (P r.plan) r.plan h.laws display_ipv6 r.query h.newest
              (event.ts_nanos / r.plan.slide_nanos) event q)

  process_query-checked :
      IsChecked
        (can_process_query P display_ipv6 event)
        (process_query P display_ipv6 event)
        (Healthy P)
        Reached
        (Crowded P)
  unfolding can_process_query process_query
  process_query-checked r h = elim (Bool-cases (matches r.plan.filter event)) [
    | inr skip ↦ inl (
      can_process-skip r.plan r.query skip,
      r,
      rw (process-skip (P r.plan) r.plan h.laws display_ipv6 r.query event skip, process_query)
          refl,
      h,
      inl (skip, refl),
    )
    | inl match ↦
        let t : ℕ = event.ts_nanos / r.plan.slide_nanos in
        let start = bucket_start-slide r.plan event.ts_nanos in
        elim (process-IsAt (P r.plan) r.plan h.laws display_ipv6 r.query h.newest event h.positive
          h.some_bucket small h.room h.at match) [
            | inl (enough, q, e, done_so) ↦
                let (o, size, begins, width, how) = done_so in
                inl (
                  can_process-match r.plan r.query match
                      ∙ ap (ensure_can_advance r.plan r.query) start
                      ∙ can_advance-ok (P r.plan) r.plan h.laws r.query h.newest t h.positive h.at
                          enough,
                  record { plan = r.plan; query = q },
                  rw (e, process_query) refl,
                  record {
                    laws = h.laws;
                    positive = h.positive;
                    some_bucket = h.some_bucket;
                    room = omega (arith, size, enough);
                    newest = some (latest h.newest t);
                    at = o;
                  },
                  inr (match, q, refl, done_so),
                )
            | inr (full, e) ↦ inr (
              can_process-match r.plan r.query match
                  ∙ ap (ensure_can_advance r.plan r.query) start
                  ∙ can_advance-full (P r.plan) r.plan h.laws r.query h.newest t h.positive h.at
                      full,
              omega (arith, full, closed_at_most r.plan h.newest t),
            )
          ]
  ]

  -- An event before 2^64 nanoseconds given to an engine whose queries are all healthy either is counted
  -- once by the engine, is processed by every query that it matches as a query processes one (counted once
  -- in the bucket of its slide or late), leaves every other query as it was and all of them healthy, or it
  -- is refused with backpressure and the engine is as it was; it is refused only when the completed windows
  -- of some query have no room for a whole ring of them.
  pub process_event-IsAtomic :
      (engine : QueryEngine P)
      → (healthy : All (Healthy P) engine.queries)
      → ((after : QueryEngine P) × (process_event P display_ipv6 event engine
            ≡ (after, returned tt))
          × All (Healthy P) after.queries
          × Each Reached engine.queries healthy after.queries
          × (after.events_processed ≡ add64 engine.events_processed 1))
        ⊎ ((process_event P display_ipv6 event engine
              ≡ (engine, failed (backpressure pending_windows)))
            × Some (Crowded P) engine.queries)
  unfolding process_event
  process_event-IsAtomic engine healthy =
      let check : QueryEngine P → Result (Unit {0}) =
        λ engine. check_each (can_process_query P display_ipv6 event) engine.queries in
      let go : M (QueryEngine P) (Unit {0}) =
        count_event P display_ipv6
        >> with_queries P display_ipv6 (run_each (process_query P display_ipv6 event)) in
      elim (run_each-checked (can_process_query P display_ipv6 event)
        (process_query P display_ipv6 event) (Healthy P) Reached (Crowded P) engine.queries
        process_query-checked healthy) [
          | inl (granted, qs, e, healthy', reached) ↦ inl (
            record { queries = qs; events_processed = add64 engine.events_processed 1 },
            require-granted check go engine granted ∙ rw e refl,
            healthy',
            reached,
            refl,
          )
          | inr (refused, crowded) ↦
              inr (require-refused check go engine (backpressure pending_windows) refused, crowded)
        ]
