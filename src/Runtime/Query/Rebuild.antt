-- ===== src/Runtime/Query/Rebuild.antt =====
-- Refilling the ring behind the target of an advance, and the count of windows that an advance announces.
use mathlib.Core.Path.{subst}
use native.Mathlib.Nat.{mul-le-mul_left, mul-sub, mul-div_cancel_left}
use flowsketch.Base.Word.{add64}
use flowsketch.Base.{
  ℕ, zero, suc, ◌+◌, ◌-◌, ◌*◌, ◌/◌, ◌^◌, min, ◌≤◌, ◌<◌, ◌≡◌, refl, sym, ◌∙◌, [], ◌∷◌, ◌++◌, length,
  length-append, arith, ltb, leb, ◌==◌, dec_lt, true, false,
}
use flowsketch.Runtime.Run.{returned}
use flowsketch.Runtime.States.{States, Mergeable}
use flowsketch.Runtime.Query.{
  Plan, Bucket, RunningQuery, windows_closed_by_advance, push_bucket, rebuild_from,
  rebuild_trailing_ring,
}
use flowsketch.Runtime.Query.Contents.{Holds, push-Holds}
use flowsketch.Runtime.Query.Ring.{Ring, back-Ring, push-Ring, AllGood, push-AllGood}
use flowsketch.Runtime.Query.Slide.{AreWindows, Open}

module _ (P : States) (plan : Plan) (laws : Mergeable P) where
  open laws use {IsGood, built}

  pub push_bucket-built :
      (start : ℕ) (q : RunningQuery P.State)
      → push_bucket P plan start q ≡ (
        record q { buckets = q.buckets ++ record { start_nanos = start; state = built.0 } ∷ [] },
        returned tt,
      )
  unfolding push_bucket
  push_bucket-built start q = rw (built.1, push_bucket) refl

  rebuild_from-step :
      (fuel start next target : ℕ) (q : RunningQuery P.State)
      → (start == target) ≡ false
      → add64 start plan.slide_nanos ≡ next
      → rebuild_from P plan (suc fuel) start target q
        ≡ rebuild_from P plan fuel next target (record q {
          buckets = q.buckets ++ record { start_nanos = start; state = built.0 } ∷ [];
        })
  unfolding rebuild_from
  rebuild_from-step fuel start next target q test e = rw (push_bucket-built start q, test, e) refl

  rebuild_from-last :
      (fuel start target : ℕ) (q : RunningQuery P.State)
      → (start == target) ≡ true
      → rebuild_from P plan (suc fuel) start target q ≡ (
        record q { buckets = q.buckets ++ record { start_nanos = start; state = built.0 } ∷ [] },
        returned tt,
      )
  unfolding rebuild_from
  rebuild_from-last fuel start target q test = rw (push_bucket-built start q, test) refl

  -- The loop that refills the ring behind the target, from the s-th slide to the t-th.
  rebuild_from-Open :
      (g : ℕ → P.State) (fuel s t first : ℕ) (q : RunningQuery P.State)
      → 0 < plan.slide_nanos
      → plan.slide_nanos * t < 2 ^ 64
      → s ≤ t
      → t - s < fuel
      → Ring plan.slide_nanos first q.buckets
      → AllGood IsGood q.buckets
      → first + length q.buckets ≡ s
      → length q.buckets + (t - s) + 1 ≤ plan.window_buckets
      → AreWindows plan q.emitted
      → ((k : ℕ) → s ≤ k → g (plan.slide_nanos * k) ≡ built.0)
      → Holds g q.buckets
      → (r : RunningQuery P.State) × (rebuild_from P plan fuel
            (plan.slide_nanos * s)
            (plan.slide_nanos * t)
            q
          ≡ (r, returned tt))
        × Open P plan laws r t
        × (r.emitted ≡ q.emitted)
        × (r.late_events ≡ q.late_events)
        × Holds g r.buckets
        × (length r.buckets ≡ length q.buckets + (t - s) + 1)
  rebuild_from-Open g zero s t first q slides fits h enough ring good size short windows fresh
        holds =
      absurd (omega arith)
  rebuild_from-Open g (suc fuel) s t first q slides fits h enough ring good size short windows fresh
        holds =
      let b : Bucket P.State = record { start_nanos = plan.slide_nanos * s; state = built.0 } in
      let bs = q.buckets ++ b ∷ [] in
      let q' : RunningQuery P.State = record q { buckets = bs } in
      let ring' = push-Ring plan.slide_nanos first s q.buckets b ring refl size in
      let good' = push-AllGood IsGood q.buckets b good built.2 in
      let holds' = push-Holds g q.buckets b holds (sym (fresh s (omega arith))) in
      let one_more : length bs ≡ length q.buckets + 1 =
        omega (arith, length-append q.buckets (b ∷ [])) in
      elim (dec_lt s t) [
        | yes more ↦
            let below : plan.slide_nanos * (s + 1) ≤ plan.slide_nanos * t =
              mul-le-mul_left plan.slide_nanos (omega arith) in
            let test : (plan.slide_nanos * s == plan.slide_nanos * t) ≡ false = ground arith in
            let next : add64 (plan.slide_nanos * s) plan.slide_nanos ≡ plan.slide_nanos * (s + 1) =
              omega arith in
            let (r, e, o, em, late, held, width) =
              rebuild_from-Open g fuel (s + 1) t first q' slides fits (omega arith) (omega arith)
                ring' good' (omega (arith, one_more)) (omega (arith, one_more)) windows
                (λ k h. fresh k (omega arith)) holds' in
            (
              r,
              rebuild_from-step fuel (plan.slide_nanos * s) (plan.slide_nanos * (s + 1))
                    (plan.slide_nanos * t) q test next
                  ∙ e,
              o,
              em,
              late,
              held,
              omega (arith, width, one_more),
            )
        | no there ↦
            let same : s ≡ t = omega arith in
            let test : (plan.slide_nanos * s == plan.slide_nanos * t) ≡ true =
              rw same (ground arith) in
            (
              q',
              rebuild_from-last fuel (plan.slide_nanos * s) (plan.slide_nanos * t) q test,
              subst (Open P plan laws q') same record {
                first = first;
                ring = ring';
                good = good';
                newest = omega (arith, one_more);
                some_open = omega (arith, one_more);
                short = omega (arith, one_more);
                windows = windows;
              },
              refl,
              refl,
              holds',
              omega (arith, one_more),
            )
      ]

  pub slides_between :
      (l t : ℕ)
      → 0 < plan.slide_nanos
      → (plan.slide_nanos * t - plan.slide_nanos * l) / plan.slide_nanos ≡ t - l
  slides_between l t slides =
      rw (← mul-sub plan.slide_nanos t l) (mul-div_cancel_left (t - l) slides)

  -- A window closes on every slide, and no more of them than the ring holds.
  pub windows_closed-Open :
      (q : RunningQuery P.State) (l t : ℕ)
      → 0 < plan.slide_nanos
      → Open P plan laws q l
      → windows_closed_by_advance plan q (plan.slide_nanos * t) ≡ min plan.window_buckets (t - l)
  unfolding windows_closed_by_advance
  windows_closed-Open q l t slides o =
      let (b, eb, sb) =
        back-Ring plan.slide_nanos o.first l q.buckets o.ring o.some_open o.newest in
      elim (dec_lt l t) [
        | yes more ↦
            let test : ltb (plan.slide_nanos * l) (plan.slide_nanos * t) ≡ true =
              let below : plan.slide_nanos * (l + 1) ≤ plan.slide_nanos * t =
                mul-le-mul_left plan.slide_nanos (omega arith) in
              ground arith in
            let other : leb (plan.slide_nanos * t) (plan.slide_nanos * l) ≡ false = ground arith in
            rw (eb, sb, other, slides_between l t slides, windows_closed_by_advance) (ground arith)
        | no there ↦
            let below : plan.slide_nanos * t ≤ plan.slide_nanos * l =
              mul-le-mul_left plan.slide_nanos (omega arith) in
            let other : leb (plan.slide_nanos * t) (plan.slide_nanos * l) ≡ true = ground arith in
            rw (eb, sb, other, windows_closed_by_advance) (omega arith)
      ]

  -- The loop from n slides before the target, with no bucket left.
  rebuild_from-empty :
      (g : ℕ → P.State) (t n : ℕ) (q : RunningQuery P.State)
      → 0 < plan.slide_nanos
      → 0 < plan.window_buckets
      → plan.slide_nanos * t < 2 ^ 64
      → AreWindows plan q.emitted
      → ((k : ℕ) → t < k + plan.window_buckets → g (plan.slide_nanos * k) ≡ built.0)
      → n ≡ min (plan.window_buckets - 1) t
      → (r : RunningQuery P.State) × (rebuild_from P plan plan.window_buckets
            (plan.slide_nanos * (t - n))
            (plan.slide_nanos * t)
            (record q { buckets = [] })
          ≡ (r, returned tt))
        × Open P plan laws r t
        × (r.emitted ≡ q.emitted)
        × (r.late_events ≡ q.late_events)
        × Holds g r.buckets
        × (length r.buckets ≡ min plan.window_buckets (t + 1))
  rebuild_from-empty g t n q slides positive fits windows fresh behind =
      let (r, e, o, em, late, holds, width) =
        rebuild_from-Open g plan.window_buckets (t - n) t (t - n) (record q { buckets = [] }) slides
          fits (omega arith) (omega arith) tt tt (omega arith) (omega arith) windows
          (λ k h. fresh k (omega arith)) tt in
      (r, e, o, em, late, holds, omega (arith, width))

  pub rebuild_trailing_ring-Open :
      (g : ℕ → P.State) (t : ℕ) (q : RunningQuery P.State)
      → 0 < plan.slide_nanos
      → 0 < plan.window_buckets
      → plan.slide_nanos * t < 2 ^ 64
      → AreWindows plan q.emitted
      → ((k : ℕ) → t < k + plan.window_buckets → g (plan.slide_nanos * k) ≡ built.0)
      → (r : RunningQuery P.State) × (rebuild_trailing_ring P plan (plan.slide_nanos * t) q
          ≡ (r, returned tt))
        × Open P plan laws r t
        × (r.emitted ≡ q.emitted)
        × (r.late_events ≡ q.late_events)
        × Holds g r.buckets
        × (length r.buckets ≡ min plan.window_buckets (t + 1))
  unfolding rebuild_trailing_ring
  rebuild_trailing_ring-Open g t q slides positive fits windows fresh =
      let behind : ℕ = min (plan.window_buckets - 1) t in
      let quotient : plan.slide_nanos * t / plan.slide_nanos ≡ t = mul-div_cancel_left t slides in
      let first : plan.slide_nanos * t - plan.slide_nanos * behind
          ≡ plan.slide_nanos * (t - behind) =
        sym (mul-sub plan.slide_nanos t behind) in
      rw (quotient, first) (rebuild_from-empty g t behind q slides positive fits windows fresh refl)
