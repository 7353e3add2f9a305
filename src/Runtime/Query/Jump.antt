-- ===== src/Runtime/Query/Jump.antt =====
-- The loops of `advance_to_bucket` from an open ring: near the target, past it, or far behind it.
use mathlib.Core.Path.{subst}
use native.Mathlib.Nat.{mul-le-mul_left}
use flowsketch.Base.{
  ℕ, ◌+◌, ◌-◌, ◌*◌, ◌^◌, min, max, ◌≤◌, ◌<◌, ◌≡◌, refl, sym, ap, ◌∙◌, [], Option, none, some,
  length, arith, ltb, ◌&&◌, dec_lt, true, false,
}
use flowsketch.Runtime.Run.{Run, returned}
use flowsketch.Runtime.States.{States, Mergeable}
use flowsketch.Runtime.Query.{Plan, Bucket, RunningQuery, slide_until, advance_open}
use flowsketch.Runtime.Query.Contents.{
  StartsWith, StartsWith-refl, held, Holds, held-Holds, held-after,
}
use flowsketch.Runtime.Query.Ring.{back-Ring}
use flowsketch.Runtime.Query.Loops.{slide_times-Open, slide_until-Open}
use flowsketch.Runtime.Query.Slide.{AreWindows, Open}
use flowsketch.Runtime.Query.Rebuild.{slides_between, rebuild_trailing_ring-Open}

module _ (P : States) (plan : Plan) (laws : Mergeable P) where
  -- What an advance to the t-th slide makes of `q`, with the given number of windows closed and of buckets
  -- left: the ring is open at that slide, every bucket has the state that `q` has of its slide, or an empty
  -- one, the completed windows begin with those of `q`, and no event is late.
  pub record Moved (q : RunningQuery P.State) (closed width t : ℕ) (r : RunningQuery P.State)
      : Type 0 where
    pub open_ring : Open P plan laws r t
    pub closing : length r.emitted ≡ length q.emitted + closed
    pub pending : StartsWith q.emitted r.emitted
    pub late : r.late_events ≡ q.late_events
    pub holds : Holds (held laws.built.0 q.buckets) r.buckets
    pub buckets_left : length r.buckets ≡ width

  -- The end of an advance to the t-th slide.
  abbrev pub Advanced :
      RunningQuery P.State → ℕ → ℕ → ℕ → (RunningQuery P.State × Run (Unit {0})) → Type 0
  Advanced q closed width t out =
      (r : RunningQuery P.State) × (out ≡ (r, returned tt)) × Moved q closed width t r

  -- The slides after the newest bucket have no state yet.
  untouched :
      (q : RunningQuery P.State) (l : ℕ)
      → Open P plan laws q l
      → 0 < plan.slide_nanos
      → (k : ℕ) → l < k
      → held laws.built.0 q.buckets (plan.slide_nanos * k) ≡ laws.built.0
  untouched q l o slides k h =
      held-after laws.built.0 plan.slide_nanos slides o.first k q.buckets o.ring
        (omega (arith, o.newest))

  advance_open-far :
      (q : RunningQuery P.State) (l t : ℕ) (last : Bucket P.State)
      → 0 < plan.slide_nanos
      → 0 < plan.window_buckets
      → plan.slide_nanos * t < 2 ^ 64
      → Open P plan laws q l
      → last.start_nanos ≡ plan.slide_nanos * l
      → l + plan.window_buckets < t
      → length q.emitted + plan.window_buckets ≤ plan.pending_window_capacity
      → Advanced q plan.window_buckets plan.window_buckets t
          (advance_open P plan (plan.slide_nanos * t) last q)
  unfolding advance_open
  advance_open-far q l t last slides positive fits o sl far room =
      let below : plan.slide_nanos * (l + plan.window_buckets) ≤ plan.slide_nanos * t =
        mul-le-mul_left plan.slide_nanos (omega arith) in
      let after : plan.slide_nanos * (l + 1) ≤ plan.slide_nanos * t =
        mul-le-mul_left plan.slide_nanos (omega arith) in
      let test : ltb (plan.slide_nanos * l) (plan.slide_nanos * t) ≡ true = ground arith in
      let beyond : ltb plan.window_buckets (t - l) ≡ true = ground arith in
      let g = held laws.built.0 q.buckets in
      let fresh = untouched q l o slides in
      let (m, em, om, size, late, holds, width, begins) =
        slide_times-Open P plan laws g q.emitted plan.window_buckets q l positive (omega arith) o
          room fresh (held-Holds laws.built.0 plan.slide_nanos slides o.first q.buckets o.ring)
          (StartsWith-refl q.emitted) in
      let (r, er, or, same, late', holds', width') =
        rebuild_trailing_ring-Open P plan laws g t m slides positive fits om.windows
          (λ k h. fresh k (omega arith)) in
      (
        r,
        rw (sl, test, slides_between P plan laws l t slides, beyond, em, er, advance_open) refl,
        record {
          open_ring = or;
          closing = ap length same ∙ size;
          pending = subst (StartsWith q.emitted) (sym same) begins;
          late = late' ∙ late;
          holds = holds';
          buckets_left = omega (arith, width');
        },
      )

  advance_open-near :
      (q : RunningQuery P.State) (l t : ℕ) (last : Bucket P.State)
      → 0 < plan.slide_nanos
      → 0 < plan.window_buckets
      → plan.slide_nanos * t < 2 ^ 64
      → Open P plan laws q l
      → last.start_nanos ≡ plan.slide_nanos * l
      → l ≤ t
      → t ≤ l + plan.window_buckets
      → length q.emitted + (t - l) ≤ plan.pending_window_capacity
      → Advanced q
          (t - l)
          (min plan.window_buckets (length q.buckets + (t - l)))
          t
          (advance_open P plan (plan.slide_nanos * t) last q)
  unfolding advance_open
  advance_open-near q l t last slides positive fits o sl h near room =
      let beyond : ltb plan.window_buckets (t - l) ≡ false = ground arith in
      let off : (ltb (plan.slide_nanos * l) (plan.slide_nanos * t) && false) ≡ false =
        ground arith in
      let (r, er, or, size, late, holds, width, begins) =
        slide_until-Open P plan laws (held laws.built.0 q.buckets) q.emitted (t - l + 1) t q l
          positive slides fits o h (omega arith) room (untouched q l o slides)
          (held-Holds laws.built.0 plan.slide_nanos slides o.first q.buckets o.ring)
          (StartsWith-refl q.emitted) in
      (
        r,
        rw (sl, slides_between P plan laws l t slides, beyond, off, advance_open) er,
        record {
          open_ring = or;
          closing = size;
          pending = begins;
          late = late;
          holds = holds;
          buckets_left = width;
        },
      )

  slide_until-there :
      (q : RunningQuery P.State) (l t : ℕ)
      → Open P plan laws q l
      → t ≤ l
      → slide_until P plan 1 (plan.slide_nanos * t) q ≡ (q, returned tt)
  unfolding slide_until
  slide_until-there q l t o h =
      let (b, eb, sb) =
        back-Ring plan.slide_nanos o.first l q.buckets o.ring o.some_open o.newest in
      let below : plan.slide_nanos * t ≤ plan.slide_nanos * l =
        mul-le-mul_left plan.slide_nanos h in
      let test : ltb (plan.slide_nanos * l) (plan.slide_nanos * t) ≡ false = ground arith in
      rw (eb, sb, test, slide_until) refl

  pub advance_open-past :
      (q : RunningQuery P.State) (l t : ℕ) (last : Bucket P.State)
      → 0 < plan.slide_nanos
      → Open P plan laws q l
      → last.start_nanos ≡ plan.slide_nanos * l
      → t ≤ l
      → advance_open P plan (plan.slide_nanos * t) last q ≡ (q, returned tt)
  unfolding advance_open
  advance_open-past q l t last slides o sl h =
      let below : plan.slide_nanos * t ≤ plan.slide_nanos * l =
        mul-le-mul_left plan.slide_nanos h in
      let test : ltb (plan.slide_nanos * l) (plan.slide_nanos * t) ≡ false = ground arith in
      let none_between : t - l ≡ 0 = omega arith in
      rw (sl, slides_between P plan laws l t slides, none_between, test, advance_open)
        (slide_until-there q l t o h)

  -- Where a query is: before its first event, or with the ring open at a slide.
  abbrev pub IsAt : RunningQuery P.State → Option ℕ → Type 0
  IsAt q none = (q.buckets ≡ []) × AreWindows plan q.emitted
  IsAt q (some l) = Open P plan laws q l

abbrev pub closed_windows : Plan → Option ℕ → ℕ → ℕ
closed_windows plan none t = 0
closed_windows plan (some l) t = min plan.window_buckets (t - l)

-- The buckets of a ring of n after an advance to slide t.
abbrev pub buckets_after : Plan → Option ℕ → ℕ → ℕ → ℕ
buckets_after plan none t n = 1
buckets_after plan (some l) t n = min plan.window_buckets (n + (t - l))

abbrev pub latest : Option ℕ → ℕ → ℕ
latest none t = t
latest (some l) t = max l t

module _ (P : States) (plan : Plan) (laws : Mergeable P) where
  pub advance_open-Open :
      (q : RunningQuery P.State) (l t : ℕ) (last : Bucket P.State)
      → 0 < plan.slide_nanos
      → 0 < plan.window_buckets
      → plan.slide_nanos * t < 2 ^ 64
      → Open P plan laws q l
      → last.start_nanos ≡ plan.slide_nanos * l
      → length q.emitted + min plan.window_buckets (t - l) ≤ plan.pending_window_capacity
      → Advanced P plan laws q
          (min plan.window_buckets (t - l))
          (min plan.window_buckets (length q.buckets + (t - l)))
          (max l t)
          (advance_open P plan (plan.slide_nanos * t) last q)
  advance_open-Open q l t last slides positive fits o sl room = elim (dec_lt t l) [
    | yes past ↦ (
      q,
      advance_open-past P plan laws q l t last slides o sl (omega arith),
      record {
        open_ring = subst (Open P plan laws q) (omega arith) o;
        closing = omega arith;
        pending = StartsWith-refl q.emitted;
        late = refl;
        holds = held-Holds laws.built.0 plan.slide_nanos slides o.first q.buckets o.ring;
        buckets_left = omega (arith, o.short);
      },
    )
    | no h ↦ elim (dec_lt (l + plan.window_buckets) t) [
      | yes far ↦
          let n : min plan.window_buckets (t - l) ≡ plan.window_buckets = omega arith in
          let m : max l t ≡ t = omega arith in
          let width : min plan.window_buckets (length q.buckets + (t - l)) ≡ plan.window_buckets =
            omega arith in
          rw (n, m, width)
            (advance_open-far P plan laws q l t last slides positive fits o sl far (omega arith))
      | no near ↦
          let n : min plan.window_buckets (t - l) ≡ t - l = omega arith in
          let m : max l t ≡ t = omega arith in
          rw (n, m)
            (advance_open-near P plan laws q l t last slides positive fits o sl (omega arith)
              (omega arith) (omega arith))
    ]
  ]
