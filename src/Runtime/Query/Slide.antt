-- ===== src/Runtime/Query/Slide.antt =====
-- One slide of the ring: the window that it completes, and the ring after it.
use flowsketch.Base.Word.{add64}
use flowsketch.Base.{
  ℕ, ◌+◌, ◌*◌, ◌^◌, ◌≤◌, ◌<◌, ◌≡◌, refl, ◌∙◌, List, [], ◌∷◌, ◌++◌, length, length-append, ap, sym,
  min, arith,
}
use flowsketch.Core.Error.{ok}
use flowsketch.Runtime.Run.{returned}
use flowsketch.Runtime.States.{States, Mergeable}
use flowsketch.Runtime.Query.{
  Plan, Bucket, WindowState, RunningQuery, pop_excess, ensure_emit_capacity, push_bucket, merge_all,
  flush_window, drop_excess, slide_once,
}
use flowsketch.Runtime.Query.Contents.{
  StartsWith, append-StartsWith, Holds, push-Holds, pop_excess-Holds, length-pop_excess,
}
use flowsketch.Runtime.Query.Ring.{Ring, push-Ring, AllGood, push-AllGood, pop_excess-Ring}

-- A completed window: whole slides, at least one and at most the ring.
abbrev pub AreWindows : {S : Type 0} → Plan → List (WindowState S) → Type 0
AreWindows plan [] = Unit
AreWindows plan (w ∷ ws) =
    ((m : ℕ) × (1 ≤ m)
      × (m ≤ plan.window_buckets)
      × (w.window_end_nanos ≡ w.window_start_nanos + plan.slide_nanos * m))
    × AreWindows plan ws

push-AreWindows :
    {S : Type 0} (plan : Plan) (ws : List (WindowState S)) (w : WindowState S)
    → AreWindows plan ws
    → AreWindows plan (w ∷ [])
    → AreWindows plan (ws ++ w ∷ [])
push-AreWindows plan [] w h hw = hw
push-AreWindows plan (v ∷ vs) w (hv, h) hw = (hv, push-AreWindows plan vs w h hw)

module _ (P : States) (plan : Plan) (laws : Mergeable P) where
  open laws use {IsGood, built, merged}

  -- The ring is open, and its newest bucket is the l-th slide.
  pub record Open (q : RunningQuery P.State) (l : ℕ) : Type 0 where
    pub first : ℕ
    pub ring : Ring plan.slide_nanos first q.buckets
    pub good : AllGood IsGood q.buckets
    pub newest : first + length q.buckets ≡ l + 1
    pub some_open : 0 < length q.buckets
    pub short : length q.buckets ≤ plan.window_buckets
    pub windows : AreWindows plan q.emitted

  -- The states of the buckets merged into `s` one after another, each once, give `t`.
  abbrev pub MergesTo : P.State → List (Bucket P.State) → P.State → Type 0
  MergesTo s [] t = s ≡ t
  MergesTo s (b ∷ bs) t = (next : P.State) × (P.merge_from s b.state ≡ ok next) × MergesTo next bs t

  merge_all-ok :
      (s : P.State) (bs : List (Bucket P.State))
      → IsGood s
      → AllGood IsGood bs
      → (r : P.State) × (merge_all P plan s bs ≡ ok r) × IsGood r × MergesTo s bs r
  unfolding merge_all
  merge_all-ok s [] h hs = (s, refl, h, refl)
  merge_all-ok s (b ∷ bs) h (hb, hs) =
      let (t, e, ht) = merged s b.state h hb in
      let (r, er, hr, merges) = merge_all-ok t bs ht hs in
      (r, rw (e, merge_all) er, hr, (t, e, merges))

  span :
      (start k n m : ℕ)
      → start ≡ plan.slide_nanos * k
      → k + n ≡ m
      → plan.slide_nanos * m ≡ start + plan.slide_nanos * n
  span start k n m e f = rw (e, ← f) (omega arith)

  pub emit_capacity-ok :
      (q : RunningQuery P.State) (n : ℕ)
      → length q.emitted + n ≤ plan.pending_window_capacity
      → ensure_emit_capacity plan q n ≡ ok tt
  unfolding ensure_emit_capacity
  emit_capacity-ok q n h = ground arith

  -- The window holds the states of all the buckets, merged in order, from the first slide to the end of the
  -- newest.
  abbrev pub Completes : ℕ → ℕ → List (Bucket P.State) → WindowState P.State → Type 0
  Completes first l [] w = ⊥
  Completes first l (b ∷ bs) w =
      MergesTo b.state bs w.state
      × (w.window_start_nanos ≡ plan.slide_nanos * first)
      × (w.window_end_nanos ≡ plan.slide_nanos * (l + 1))

  -- The query after a flush.
  pub flush_window-ok :
      (first l late : ℕ) (bs : List (Bucket P.State)) (ws : List (WindowState P.State))
      → Ring plan.slide_nanos first bs
      → AllGood IsGood bs
      → first + length bs ≡ l + 1
      → 0 < length bs
      → length bs ≤ plan.window_buckets
      → length ws + 1 ≤ plan.pending_window_capacity
      → (w : WindowState P.State) × (flush_window P plan
            (plan.slide_nanos * (l + 1))
            (record { buckets = bs; emitted = ws; late_events = late })
          ≡ (record { buckets = bs; emitted = ws ++ w ∷ []; late_events = late }, returned tt))
        × Completes first l bs w
        × AreWindows plan (w ∷ [])
  unfolding flush_window
  flush_window-ok first l late [] ws r g e some_open short room = absurd (omega arith)
  flush_window-ok first l late (b ∷ bs) ws r g e some_open short room =
      let (m, em, gm, merges) = merge_all-ok b.state bs g.0 g.1 in
      let q : RunningQuery P.State = record {
        buckets = b ∷ bs;
        emitted = ws;
        late_events = late;
      } in
      (
        record {
          state = m;
          window_start_nanos = b.start_nanos;
          window_end_nanos = plan.slide_nanos * (l + 1);
        },
        rw (emit_capacity-ok q 1 room, em, flush_window),
        (merges, r.0, refl),
        (
          (
            length (b ∷ bs),
            omega arith,
            short,
            span b.start_nanos first (length (b ∷ bs)) (l + 1) r.0 e,
          ),
          tt,
        ),
      )

  -- A slide: one window more, and the ring goes on to the next slide.
  pub slide_once-Open :
      (g : ℕ → P.State) (old : List (WindowState P.State)) (q : RunningQuery P.State) (l : ℕ)
      → 0 < plan.window_buckets
      → plan.slide_nanos * (l + 1) < 2 ^ 64
      → Open q l
      → length q.emitted + 1 ≤ plan.pending_window_capacity
      → g (plan.slide_nanos * (l + 1)) ≡ built.0
      → Holds g q.buckets
      → StartsWith old q.emitted
      → (r : RunningQuery P.State) × (slide_once P plan (plan.slide_nanos * l) q ≡ (r, returned tt))
        × Open r (l + 1)
        × (length r.emitted ≡ length q.emitted + 1)
        × (r.late_events ≡ q.late_events)
        × Holds g r.buckets
        × (length r.buckets ≡ min plan.window_buckets (length q.buckets + 1))
        × StartsWith old r.emitted
  unfolding slide_once push_bucket drop_excess
  slide_once-Open g old q l positive fits o room fresh holds begins =
      let (w, ew, merges, hw) =
        flush_window-ok o.first l q.late_events q.buckets q.emitted o.ring o.good o.newest
          o.some_open o.short room in
      let (s, es, gs) = built in
      let b : Bucket P.State = record { start_nanos = plan.slide_nanos * (l + 1); state = s } in
      let next : add64 (plan.slide_nanos * l) plan.slide_nanos ≡ plan.slide_nanos * (l + 1) =
        omega arith in
      let (j, ring, good, size, short, some_left) =
        pop_excess-Ring plan.slide_nanos plan.window_buckets o.first IsGood (q.buckets ++ b ∷ [])
          (push-Ring plan.slide_nanos o.first (l + 1) q.buckets b o.ring refl o.newest)
          (push-AllGood IsGood q.buckets b o.good gs) in
      let one_more : length (q.buckets ++ b ∷ []) ≡ length q.buckets + 1 =
        omega (arith, length-append q.buckets (b ∷ [])) in
      (
        record {
          buckets = pop_excess plan.window_buckets (q.buckets ++ b ∷ []);
          emitted = q.emitted ++ w ∷ [];
          late_events = q.late_events;
        },
        rw (next, ew, es),
        record {
          first = j;
          ring = ring;
          good = good;
          newest = omega (arith, size, one_more, o.newest);
          some_open = some_left positive (omega (arith, one_more));
          short = short;
          windows = push-AreWindows plan q.emitted w o.windows hw;
        },
        omega (arith, length-append q.emitted (w ∷ [])),
        refl,
        pop_excess-Holds g plan.window_buckets (q.buckets ++ b ∷ [])
            (push-Holds g q.buckets b holds (sym fresh)),
        length-pop_excess plan.window_buckets (q.buckets ++ b ∷ [])
            ∙ ap (min plan.window_buckets) one_more,
        append-StartsWith old q.emitted (w ∷ []) begins,
      )
