-- ===== src/Runtime/Query/Loops.antt =====
-- The loops of slides in `advance_to_bucket`.
use mathlib.Core.Path.{subst}
use native.Mathlib.Nat.{mul-le-mul_left}
use flowsketch.Base.{
  ℕ, zero, suc, ◌+◌, ◌-◌, ◌*◌, ◌^◌, ◌≤◌, ◌<◌, ◌≡◌, refl, ◌∙◌, List, length, min, arith, ltb, dec_lt,
  true, false,
}
use flowsketch.Runtime.Run.{returned}
use flowsketch.Runtime.States.{States, Mergeable}
use flowsketch.Runtime.Query.{Plan, WindowState, RunningQuery, slide_times, slide_until}
use flowsketch.Runtime.Query.Contents.{StartsWith, Holds}
use flowsketch.Runtime.Query.Ring.{back-Ring}
use flowsketch.Runtime.Query.Slide.{Open, slide_once-Open}

module _ (P : States) (plan : Plan) (laws : Mergeable P) where
  -- n slides.
  pub slide_times-Open :
      (g : ℕ → P.State) (old : List (WindowState P.State)) (n : ℕ) (q : RunningQuery P.State)
      (l : ℕ)
      → 0 < plan.window_buckets
      → plan.slide_nanos * (l + n) < 2 ^ 64
      → Open P plan laws q l
      → length q.emitted + n ≤ plan.pending_window_capacity
      → ((k : ℕ) → l < k → g (plan.slide_nanos * k) ≡ laws.built.0)
      → Holds g q.buckets
      → StartsWith old q.emitted
      → (r : RunningQuery P.State) × (slide_times P plan n q ≡ (r, returned tt))
        × Open P plan laws r (l + n)
        × (length r.emitted ≡ length q.emitted + n)
        × (r.late_events ≡ q.late_events)
        × Holds g r.buckets
        × (length r.buckets ≡ min plan.window_buckets (length q.buckets + n))
        × StartsWith old r.emitted
  unfolding slide_times
  slide_times-Open g old zero q l positive fits o room fresh holds begins = (
    q,
    refl,
    subst (Open P plan laws q) (omega arith) o,
    omega arith,
    refl,
    holds,
    omega (arith, o.short),
    begins,
  )
  slide_times-Open g old (suc n) q l positive fits o room fresh holds begins =
      let (b, eb, sb) =
        back-Ring plan.slide_nanos o.first l q.buckets o.ring o.some_open o.newest in
      let below : plan.slide_nanos * (l + 1) ≤ plan.slide_nanos * (l + suc n) =
        mul-le-mul_left plan.slide_nanos (omega arith) in
      let (q', e', o', size', late', holds', width', begins') =
        slide_once-Open P plan laws g old q l positive (omega arith) o (omega arith)
          (fresh (l + 1) (omega arith)) holds begins in
      let (r, e, o'', size, late, holds'', width, begins'') =
        slide_times-Open g old n q' (l + 1) positive (rw (shift l n) fits) o' (omega (arith, size'))
          (λ k h. fresh k (omega arith)) holds' begins' in
      (
        r,
        rw (eb, sb, e', e, slide_times),
        subst (Open P plan laws r) (shift l n) o'',
        omega (arith, size, size'),
        late ∙ late',
        holds'',
        omega (arith, width, width', o.short),
        begins'',
      )
    where
      shift : (l n : ℕ) → l + 1 + n ≡ l + suc n
      shift l n = omega arith

  -- Slides until the newest bucket is the t-th.
  pub slide_until-Open :
      (g : ℕ → P.State) (old : List (WindowState P.State)) (fuel t : ℕ) (q : RunningQuery P.State)
      (l : ℕ)
      → 0 < plan.window_buckets
      → 0 < plan.slide_nanos
      → plan.slide_nanos * t < 2 ^ 64
      → Open P plan laws q l
      → l ≤ t
      → t - l < fuel
      → length q.emitted + (t - l) ≤ plan.pending_window_capacity
      → ((k : ℕ) → l < k → g (plan.slide_nanos * k) ≡ laws.built.0)
      → Holds g q.buckets
      → StartsWith old q.emitted
      → (r : RunningQuery P.State) × (slide_until P plan fuel (plan.slide_nanos * t) q
          ≡ (r, returned tt))
        × Open P plan laws r t
        × (length r.emitted ≡ length q.emitted + (t - l))
        × (r.late_events ≡ q.late_events)
        × Holds g r.buckets
        × (length r.buckets ≡ min plan.window_buckets (length q.buckets + (t - l)))
        × StartsWith old r.emitted
  unfolding slide_until
  slide_until-Open g old zero t q l positive slides fits o h enough room fresh holds begins =
      absurd (omega arith)
  slide_until-Open g old (suc fuel) t q l positive slides fits o h enough room fresh holds begins =
      let (b, eb, sb) =
        back-Ring plan.slide_nanos o.first l q.buckets o.ring o.some_open o.newest in
      elim (dec_lt l t) [
        | yes more ↦
            let below : plan.slide_nanos * (l + 1) ≤ plan.slide_nanos * t =
              mul-le-mul_left plan.slide_nanos (omega arith) in
            let test : ltb (plan.slide_nanos * l) (plan.slide_nanos * t) ≡ true = ground arith in
            let (q', e', o', size', late', holds', width', begins') =
              slide_once-Open P plan laws g old q l positive (omega arith) o (omega arith)
                (fresh (l + 1) (omega arith)) holds begins in
            let (r, e, o'', size, late, holds'', width, begins'') =
              slide_until-Open g old fuel t q' (l + 1) positive slides fits o' (omega arith)
                (omega arith) (omega (arith, size')) (λ k h. fresh k (omega arith)) holds'
                begins' in
            (
              r,
              rw (eb, sb, test, e', e, slide_until),
              o'',
              omega (arith, size, size'),
              late ∙ late',
              holds'',
              omega (arith, width, width', o.short),
              begins'',
            )
        | no there ↦
            let same : l ≡ t = omega arith in
            let test : ltb (plan.slide_nanos * l) (plan.slide_nanos * t) ≡ false =
              rw same (ground arith) in
            (
              q,
              rw (eb, sb, test, slide_until),
              subst (Open P plan laws q) same o,
              omega arith,
              refl,
              holds,
              omega (arith, o.short),
              begins,
            )
      ]
