-- ===== src/Runtime/Query/Counting.antt =====
-- `process` as a whole: its fast path for the newest bucket, and the outcome of every event that matches.
use mathlib.Core.Bool.{false≢true}
use mathlib.Core.Path.{subst}
use native.Mathlib.Nat.{mul-le-mul_left, div-add-mod}
use flowsketch.Base.Word.{add64}
use flowsketch.Base.{
  ℕ, ◌+◌, ◌-◌, ◌*◌, ◌/◌, ◌^◌, ◌≤◌, ◌<◌, ◌≡◌, ◌⊎◌, refl, sym, ap, ◌∙◌, List, [], Option, none, some,
  length, arith, ◌==◌, dec_lt, Bool-cases, inl, inr, true, false, if◌then◌else◌,
}
use flowsketch.Core.Error.{backpressure}
use flowsketch.Core.Event.{FlowEvent}
use flowsketch.Ir.Logical.{matches}
use flowsketch.Runtime.Run.{returned, failed, continue, ◌>>◌}
use flowsketch.Runtime.States.{States, Mergeable}
use flowsketch.Runtime.Query.{
  Plan, Bucket, RunningQuery, back, bucket_start_for, pending_windows, advance_to_bucket,
  count_or_drop, is_current, process,
}
use flowsketch.Runtime.Query.Contents.{StartsWith, held, Holds}
use flowsketch.Runtime.Query.Ring.{back-Ring}
use flowsketch.Runtime.Query.Slide.{Open}
use flowsketch.Runtime.Query.Jump.{IsAt, closed_windows, buckets_after, latest, Moved}
use flowsketch.Runtime.Query.Advance.{advance_to_bucket-IsAt, advance_to_bucket-current}
use flowsketch.Runtime.Query.Weights.{reads_once, update-reads_once}
use flowsketch.Runtime.Query.Process.{
  counted, counts, counted-Open, counted-Holds, length-counted, count_in-Open, count_or_drop-inside,
  count_or_drop-late,
}

pub bucket_start-slide :
    (plan : Plan) (ts : ℕ) → bucket_start_for plan ts ≡ plan.slide_nanos * (ts / plan.slide_nanos)
unfolding bucket_start_for
bucket_start-slide plan ts = omega (arith, div-add-mod ts plan.slide_nanos)

equal_slides : (slide l t : ℕ) → 0 < slide → (slide * l == slide * t) ≡ true → l ≡ t
equal_slides slide l t positive e = elim (dec_lt l t) [
  | yes h ↦
      let above : slide * (l + 1) ≤ slide * t = mul-le-mul_left slide (omega arith) in
      absurd (ground arith)
  | no h ↦ elim (dec_lt t l) [
    | yes h' ↦
        let above : slide * (t + 1) ≤ slide * l = mul-le-mul_left slide (omega arith) in
        absurd (ground arith)
    | no h' ↦ omega arith
  ]
]

module _ (P : States) (plan : Plan) (laws : Mergeable P) (display_ipv6 : List ℕ → List ℕ) where
  -- An event that the filter refuses changes nothing.
  pub process-skip :
      (q : RunningQuery P.State) (event : FlowEvent)
      → matches plan.filter event ≡ false
      → process P plan display_ipv6 event q ≡ (q, returned tt)
  unfolding process
  process-skip q event skip = rw (skip, process) refl

  is_current-none :
      (start : ℕ) (bs : List (Bucket P.State))
      → bs ≡ []
      → is_current P plan display_ipv6 start bs ≡ false
  unfolding is_current back
  is_current-none start bs e = rw (e, is_current) refl

  is_current-back :
      (start : ℕ) (bs : List (Bucket P.State)) (b : Bucket P.State)
      → back bs ≡ some b
      → is_current P plan display_ipv6 start bs ≡ (b.start_nanos == start)
  unfolding is_current
  is_current-back start bs b e = rw (e, is_current) refl

  -- The event is in the newest bucket.
  is_current-IsAt :
      (q : RunningQuery P.State) (o : Option ℕ) (t : ℕ)
      → 0 < plan.slide_nanos
      → IsAt P plan laws q o
      → is_current P plan display_ipv6 (plan.slide_nanos * t) q.buckets ≡ true
      → Open P plan laws q t
  is_current-IsAt q none t positive (e, windows) h =
      absurd (false≢true (sym (is_current-none (plan.slide_nanos * t) q.buckets e) ∙ h))
  is_current-IsAt q (some l) t positive o h =
      let (b, eb, sb) =
        back-Ring plan.slide_nanos o.first l q.buckets o.ring o.some_open o.newest in
      let same : (plan.slide_nanos * l == plan.slide_nanos * t) ≡ true =
        ap (λ n. n == plan.slide_nanos * t) (sym sb)
        ∙ sym (is_current-back (plan.slide_nanos * t) q.buckets b eb)
        ∙ h in
      subst (Open P plan laws q) (equal_slides plan.slide_nanos l t positive same) o

  -- When slides are not empty and the completed windows are within their capacity, then for an event that
  -- matches, from wherever the query is, the fast path of `process` does what the slow path does: `process`
  -- is an advance to the event's bucket and then the count.
  pub process-advance_to_bucket :
      (q : RunningQuery P.State) (o : Option ℕ) (event : FlowEvent)
      → 0 < plan.slide_nanos
      → length q.emitted ≤ plan.pending_window_capacity
      → IsAt P plan laws q o
      → matches plan.filter event ≡ true
      → process P plan display_ipv6 event q
        ≡ (advance_to_bucket P plan (bucket_start_for plan event.ts_nanos)
              >> count_or_drop P plan display_ipv6 event (bucket_start_for plan event.ts_nanos))
            q
  unfolding process
  process-advance_to_bucket q o event positive room at match =
      let t : ℕ = event.ts_nanos / plan.slide_nanos in
      let start = bucket_start-slide plan event.ts_nanos in
      elim (Bool-cases (is_current P plan display_ipv6 (plan.slide_nanos * t) q.buckets)) [
        | inl now ↦
            let here = is_current-IsAt q o t positive at now in
            let advance = advance_to_bucket-current P plan laws q t positive here room in
            let last =
              count_in-Open P plan laws display_ipv6 event q t t (length q.buckets - 1) positive
                here (omega (arith, here.newest, here.some_open)) (omega (arith, here.some_open)) in
            let slow =
              count_or_drop-inside P plan laws display_ipv6 event q t t positive here
                (omega (arith, here.newest, here.some_open)) (omega arith) in
            rw (match, start, now, last, advance, process) (sym slow)
        | inr later ↦ rw (match, start, later, process) refl
      ]

  -- What the buckets hold after an event of slide t: the state of that slide updated once, with the key,
  -- weight and item of the event, and every other state as it was.
  abbrev pub after_event : RunningQuery P.State → ℕ → FlowEvent → ℕ → P.State
  after_event q t event start =
      let s = held laws.built.0 q.buckets start in
      if start == plan.slide_nanos * t then reads_once P display_ipv6 event plan s else s

  -- What an event of slide t makes of `q`: the ring is open at the later slide and as long as the window
  -- allows, and either slide t is in the ring and the event is counted in it, or it is before the ring and the
  -- event is late and counted nowhere.
  abbrev pub Processed :
      RunningQuery P.State → Option ℕ → ℕ → FlowEvent → RunningQuery P.State → Type 0
  Processed q o t event r =
      (here : Open P plan laws r (latest o t)) × (length r.emitted
        ≡ length q.emitted + closed_windows plan o t)
      × StartsWith q.emitted r.emitted
      × (length r.buckets ≡ buckets_after plan o t (length q.buckets))
      × ((here.first ≤ t)
            × Holds (after_event q t event) r.buckets
            × (r.late_events ≡ q.late_events)
          ⊎ (t < here.first)
            × Holds (held laws.built.0 q.buckets) r.buckets
            × (r.late_events ≡ add64 q.late_events 1))

  up_to_latest : (o : Option ℕ) (t : ℕ) → t ≤ latest o t
  up_to_latest none t = omega arith
  up_to_latest (some l) t = omega arith

  count_or_drop-Processed :
      (q m : RunningQuery P.State) (o : Option ℕ) (t : ℕ) (event : FlowEvent)
      → 0 < plan.slide_nanos
      → Moved P plan laws q
          (closed_windows plan o t)
          (buckets_after plan o t (length q.buckets))
          (latest o t)
          m
      → (r : RunningQuery P.State) × (count_or_drop P plan display_ipv6 event
            (plan.slide_nanos * t)
            m
          ≡ (r, returned tt))
        × Processed q o t event r
  count_or_drop-Processed q m o t event positive moved =
      let here = moved.open_ring in
      elim (dec_lt t here.first) [
        | yes before ↦ (
          record m { late_events = add64 m.late_events 1 },
          count_or_drop-late P plan laws display_ipv6 event m (latest o t) t positive here before,
          (
            record {
              first = here.first;
              ring = here.ring;
              good = here.good;
              newest = here.newest;
              some_open = here.some_open;
              short = here.short;
              windows = here.windows;
            },
            moved.closing,
            moved.pending,
            moved.buckets_left,
            inr (before, moved.holds, ap (λ n. add64 n 1) moved.late),
          ),
        )
        | no within ↦
            let f = counts P plan laws display_ipv6 event in
            let start : ℕ = plan.slide_nanos * t in
            let same = length-counted f start m.buckets in
            let counting =
              counted-Open P plan laws f start (latest o t) m (λ s good. laws.updated s _ _ _ good)
                here in
            (
              record m { buckets = counted f start m.buckets },
              count_or_drop-inside P plan laws display_ipv6 event m (latest o t) t positive here
                  (omega arith) (up_to_latest o t),
              (
                counting,
                moved.closing,
                moved.pending,
                same ∙ moved.buckets_left,
                inl (
                  omega (arith, same, counting.newest, here.newest),
                  subst
                      (λ f'.
                        Holds
                          (λ k.
                            if k == start
                            then f' (held laws.built.0 q.buckets k)
                            else held laws.built.0 q.buckets k)
                          (counted f start m.buckets))
                      (update-reads_once P display_ipv6 event plan)
                      (counted-Holds f (held laws.built.0 q.buckets) start m.buckets moved.holds),
                  moved.late,
                ),
              ),
            )
      ]

  -- With slides and a ring that are not empty and the completed windows within their capacity, an event
  -- before 2^64 nanoseconds that matches, from wherever the query is, with slide t the one of its
  -- timestamp: when the completed windows have room for those that its time closes, `process` returns and
  -- the event is counted once in the bucket of slide t, with the weight and the item that the measure asks
  -- for, every other bucket having the state that the query had of its slide or an empty one, or, exactly
  -- when slide t is before the earliest bucket, it changes no bucket's state and is counted in the late
  -- events; the ring stays well formed and as long as the window allows, and the completed windows begin
  -- with those that the query had. When they have not, `process` refuses with backpressure and the query is
  -- as it was.
  pub process-IsAt :
      (q : RunningQuery P.State) (o : Option ℕ) (event : FlowEvent)
      → 0 < plan.slide_nanos
      → 0 < plan.window_buckets
      → event.ts_nanos < 2 ^ 64
      → length q.emitted ≤ plan.pending_window_capacity
      → IsAt P plan laws q o
      → matches plan.filter event ≡ true
      → ((length q.emitted + closed_windows plan o (event.ts_nanos / plan.slide_nanos)
            ≤ plan.pending_window_capacity)
          × (r : RunningQuery P.State) × (process P plan display_ipv6 event q ≡ (r, returned tt))
          × Processed q o (event.ts_nanos / plan.slide_nanos) event r)
        ⊎ ((plan.pending_window_capacity
              < length q.emitted + closed_windows plan o (event.ts_nanos / plan.slide_nanos))
            × (process P plan display_ipv6 event q ≡ (q, failed (backpressure pending_windows))))
  process-IsAt q o event positive ring small room at match =
      let t : ℕ = event.ts_nanos / plan.slide_nanos in
      let start = bucket_start-slide plan event.ts_nanos in
      let fits : plan.slide_nanos * t < 2 ^ 64 =
        omega (arith, div-add-mod event.ts_nanos plan.slide_nanos) in
      let slow =
        process-advance_to_bucket q o event positive room at match
        ∙ ap (λ s. (advance_to_bucket P plan s >> count_or_drop P plan display_ipv6 event s) q)
            start in
      elim (advance_to_bucket-IsAt P plan laws q o t positive ring fits at) [
        | inl (enough, advanced) ↦
            let (m, e, moved) = advanced in
            let (r, er, done_so) = count_or_drop-Processed q m o t event positive moved in
            inl (
              enough,
              r,
              slow
                  ∙ ap
                      (continue {A = Unit {0}}
                        (λ _. count_or_drop P plan display_ipv6 event (plan.slide_nanos * t)))
                      e
                  ∙ er,
              done_so,
            )
        | inr (full, e) ↦ inr (
          full,
          slow
              ∙ ap
                  (continue {A = Unit {0}}
                    (λ _. count_or_drop P plan display_ipv6 event (plan.slide_nanos * t)))
                  e,
        )
      ]
