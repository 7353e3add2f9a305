-- ===== src/Runtime/Query/Advance.antt =====
-- `advance_to_bucket`: it stops at the target with exactly the windows closed that it announces, or refuses.
use mathlib.Core.Path.{subst}
use flowsketch.Base.{
  ℕ, ◌+◌, ◌*◌, ◌^◌, ◌≤◌, ◌<◌, ◌≡◌, ◌⊎◌, refl, sym, ◌∙◌, [], ◌∷◌, Option, none, some, length, arith,
  dec_lt, inl, inr,
}
use flowsketch.Core.Error.{backpressure, Result, ok, err}
use flowsketch.Runtime.Run.{returned, failed, M, require-granted, require-refused}
use flowsketch.Runtime.States.{States, Mergeable}
use flowsketch.Runtime.Query.{
  Plan, Bucket, RunningQuery, back, windows_closed_by_advance, ensure_emit_capacity,
  ensure_can_advance, pending_windows, push_bucket, advance_open, advance_to_bucket,
}
use flowsketch.Runtime.Query.Contents.{StartsWith-refl}
use flowsketch.Runtime.Query.Ring.{back-Ring}
use flowsketch.Runtime.Query.Slide.{Open, emit_capacity-ok}
use flowsketch.Runtime.Query.Rebuild.{push_bucket-built, windows_closed-Open}
use flowsketch.Runtime.Query.Jump.{
  Advanced, IsAt, closed_windows, buckets_after, latest, advance_open-past, advance_open-Open,
}

module _ (P : States) (plan : Plan) (laws : Mergeable P) where
  pub emit_capacity-full :
      (q : RunningQuery P.State) (n : ℕ)
      → plan.pending_window_capacity < length q.emitted + n
      → ensure_emit_capacity plan q n ≡ err (backpressure pending_windows)
  unfolding ensure_emit_capacity
  emit_capacity-full q n h = ground arith

  pub windows_closed-IsAt :
      (q : RunningQuery P.State) (o : Option ℕ) (t : ℕ)
      → 0 < plan.slide_nanos
      → IsAt P plan laws q o
      → windows_closed_by_advance plan q (plan.slide_nanos * t) ≡ closed_windows plan o t
  unfolding windows_closed_by_advance back
  windows_closed-IsAt q none t slides (e, windows) = rw (e, windows_closed_by_advance) refl
  windows_closed-IsAt q (some l) t slides o = windows_closed-Open P plan laws q l t slides o

  pub can_advance-full :
      (q : RunningQuery P.State) (o : Option ℕ) (t : ℕ)
      → 0 < plan.slide_nanos
      → IsAt P plan laws q o
      → plan.pending_window_capacity < length q.emitted + closed_windows plan o t
      → ensure_can_advance plan q (plan.slide_nanos * t) ≡ err (backpressure pending_windows)
  unfolding ensure_can_advance
  can_advance-full q o t slides at full =
      rw (windows_closed-IsAt q o t slides at, ensure_can_advance)
        (emit_capacity-full q (closed_windows plan o t) full)

  pub can_advance-ok :
      (q : RunningQuery P.State) (o : Option ℕ) (t : ℕ)
      → 0 < plan.slide_nanos
      → IsAt P plan laws q o
      → length q.emitted + closed_windows plan o t ≤ plan.pending_window_capacity
      → ensure_can_advance plan q (plan.slide_nanos * t) ≡ ok tt
  unfolding ensure_can_advance
  can_advance-ok q o t slides at room =
      rw (windows_closed-IsAt q o t slides at, ensure_can_advance)
        (emit_capacity-ok P plan laws q (closed_windows plan o t) room)

  after_granted :
      (q : RunningQuery P.State) (o : Option ℕ) (t : ℕ)
      → 0 < plan.slide_nanos
      → 0 < plan.window_buckets
      → plan.slide_nanos * t < 2 ^ 64
      → IsAt P plan laws q o
      → length q.emitted + closed_windows plan o t ≤ plan.pending_window_capacity
      → Advanced P plan laws q
          (closed_windows plan o t)
          (buckets_after plan o t (length q.buckets))
          (latest o t)
          (elim (back q.buckets) [
            | none ↦ push_bucket P plan (plan.slide_nanos * t) q
            | some last ↦ advance_open P plan (plan.slide_nanos * t) last q
          ])
  unfolding back
  after_granted q none t slides positive fits (e, windows) room =
      let b : Bucket P.State = record {
        start_nanos = plan.slide_nanos * t;
        state = laws.built.0;
      } in
      let q' : RunningQuery P.State = record q { buckets = b ∷ [] } in
      (
        q',
        rw (e, push_bucket-built P plan laws (plan.slide_nanos * t) q, e) refl,
        record {
          open_ring = record {
            first = t;
            ring = (refl, tt);
            good = (laws.built.2, tt);
            newest = refl;
            some_open = omega arith;
            short = positive;
            windows = windows;
          };
          closing = omega arith;
          pending = StartsWith-refl q.emitted;
          late = refl;
          holds = rw e (refl, tt);
          buckets_left = refl;
        },
      )
  after_granted q (some l) t slides positive fits o room =
      let (b, eb, sb) =
        back-Ring plan.slide_nanos o.first l q.buckets o.ring o.some_open o.newest in
      rw eb (advance_open-Open P plan laws q l t b slides positive fits o sb room)

  -- With slides and a ring that are not empty, an advance to slide t, which starts before 2^64 nanoseconds,
  -- from wherever the query is: when its completed windows have room for those that the advance closes, it
  -- returns with the ring open at the later of the two slides and as long as the window allows, exactly
  -- that many windows more after those that it had, each of whole slides and no longer than the ring, no
  -- late event, and every bucket with the state that the query had of its slide, or an empty one; when they
  -- have not, it refuses with backpressure and changes nothing.
  pub advance_to_bucket-IsAt :
      (q : RunningQuery P.State) (o : Option ℕ) (t : ℕ)
      → 0 < plan.slide_nanos
      → 0 < plan.window_buckets
      → plan.slide_nanos * t < 2 ^ 64
      → IsAt P plan laws q o
      → ((length q.emitted + closed_windows plan o t ≤ plan.pending_window_capacity)
          × Advanced P plan laws q
              (closed_windows plan o t)
              (buckets_after plan o t (length q.buckets))
              (latest o t)
              (advance_to_bucket P plan (plan.slide_nanos * t) q))
        ⊎ ((plan.pending_window_capacity < length q.emitted + closed_windows plan o t)
            × (advance_to_bucket P plan (plan.slide_nanos * t) q
                ≡ (q, failed (backpressure pending_windows))))
  unfolding advance_to_bucket
  advance_to_bucket-IsAt q o t slides positive fits at =
      let check : RunningQuery P.State → Result (Unit {0}) =
        λ q. ensure_can_advance plan q (plan.slide_nanos * t) in
      let go : M (RunningQuery P.State) (Unit {0}) = λ q. elim (back q.buckets) [
        | none ↦ push_bucket P plan (plan.slide_nanos * t) q
        | some last ↦ advance_open P plan (plan.slide_nanos * t) last q
      ] in
      elim (dec_lt plan.pending_window_capacity (length q.emitted + closed_windows plan o t)) [
        | yes full ↦ inr (
          full,
          require-refused check go q (backpressure pending_windows)
              (can_advance-full q o t slides at full),
        )
        | no room ↦
            let enough : length q.emitted + closed_windows plan o t ≤ plan.pending_window_capacity =
              omega arith in
            let granted = require-granted check go q (can_advance-ok q o t slides at enough) in
            inl (
              enough,
              subst
                  (Advanced P plan laws q (closed_windows plan o t)
                    (buckets_after plan o t (length q.buckets)) (latest o t))
                  (sym granted) (after_granted q o t slides positive fits at enough),
            )
      ]

  -- An advance to the newest bucket does nothing.
  pub advance_to_bucket-current :
      (q : RunningQuery P.State) (l : ℕ)
      → 0 < plan.slide_nanos
      → Open P plan laws q l
      → length q.emitted ≤ plan.pending_window_capacity
      → advance_to_bucket P plan (plan.slide_nanos * l) q ≡ (q, returned tt)
  unfolding advance_to_bucket
  advance_to_bucket-current q l slides o room =
      let (b, eb, sb) =
        back-Ring plan.slide_nanos o.first l q.buckets o.ring o.some_open o.newest in
      let check : RunningQuery P.State → Result (Unit {0}) =
        λ q. ensure_can_advance plan q (plan.slide_nanos * l) in
      let go : M (RunningQuery P.State) (Unit {0}) = λ q. elim (back q.buckets) [
        | none ↦ push_bucket P plan (plan.slide_nanos * l) q
        | some last ↦ advance_open P plan (plan.slide_nanos * l) last q
      ] in
      require-granted check go q (can_advance-ok q (some l) l slides o (omega arith))
      ∙ (rw eb (advance_open-past P plan laws q l l b slides o sb (omega arith)))
