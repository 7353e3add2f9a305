-- ===== src/Runtime/Query/Finish.antt =====
-- `finish`: the trailing window at the end of a stream.
use flowsketch.Base.Word.{add64}
use flowsketch.Base.{
  ℕ, ◌+◌, ◌*◌, ◌^◌, ◌≤◌, ◌<◌, ◌≡◌, ◌⊎◌, ◌∙◌, [], ◌∷◌, ◌++◌, length, arith, dec_lt, inl, inr,
}
use flowsketch.Core.Error.{backpressure, Result}
use flowsketch.Runtime.Run.{returned, failed, M, require-granted, require-refused}
use flowsketch.Runtime.States.{States, Mergeable}
use flowsketch.Runtime.Query.{
  Plan, WindowState, RunningQuery, pending_windows, ensure_emit_capacity, flush_window, finish,
}
use flowsketch.Runtime.Query.Ring.{back-Ring}
use flowsketch.Runtime.Query.Slide.{AreWindows, Open, Completes, emit_capacity-ok, flush_window-ok}
use flowsketch.Runtime.Query.Advance.{emit_capacity-full}

module _ (P : States) (plan : Plan) (laws : Mergeable P) where
  -- With the ring open at slide l, whose end is below 2^64: when there is room for one completed window more,
  -- `finish` appends one, with all open buckets merged in order, from the start of the earliest to the end of
  -- slide l, and changes nothing else; when there is none, it refuses with backpressure and changes nothing.
  pub finish-Open :
      (q : RunningQuery P.State) (l : ℕ)
      → plan.slide_nanos * (l + 1) < 2 ^ 64
      → (o : Open P plan laws q l)
      → ((length q.emitted + 1 ≤ plan.pending_window_capacity)
          × (w : WindowState P.State) × (finish P plan q
              ≡ (record q { emitted = q.emitted ++ w ∷ [] }, returned tt))
          × Completes P plan laws o.first l q.buckets w
          × AreWindows plan (w ∷ []))
        ⊎ ((plan.pending_window_capacity < length q.emitted + 1)
            × (finish P plan q ≡ (q, failed (backpressure pending_windows))))
  unfolding finish
  finish-Open q l fits o =
      let (b, eb, sb) =
        back-Ring plan.slide_nanos o.first l q.buckets o.ring o.some_open o.newest in
      let check : RunningQuery P.State → Result (Unit {0}) = λ q. ensure_emit_capacity plan q 1 in
      let end : add64 (plan.slide_nanos * l) plan.slide_nanos ≡ plan.slide_nanos * (l + 1) =
        omega arith in
      let go : M (RunningQuery P.State) (Unit {0}) =
        flush_window P plan (plan.slide_nanos * (l + 1)) in
      elim (dec_lt plan.pending_window_capacity (length q.emitted + 1)) [
        | yes full ↦ inr (
          full,
          rw (eb, sb, end, finish)
              (require-refused check go q (backpressure pending_windows)
                (emit_capacity-full P plan laws q 1 full)),
        )
        | no room ↦
            let (w, ew, merges, hw) =
              flush_window-ok P plan laws o.first l q.late_events q.buckets q.emitted o.ring o.good
                o.newest o.some_open o.short (omega arith) in
            inl (
              omega arith,
              w,
              rw (eb, sb, end, finish)
                  (require-granted check go q (emit_capacity-ok P plan laws q 1 (omega arith))
                    ∙ ew),
              merges,
              hw,
            )
      ]
