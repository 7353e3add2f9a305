-- ===== src/Runtime/Query/Process.antt =====
-- `process`: where an event is counted, and what happens when it is late or when the windows have no room.
use flowsketch.Base.{
  ℕ, zero, suc, ◌+◌, ◌-◌, ◌*◌, ◌≤◌, ◌<◌, ◌≡◌, refl, sym, ap, List, [], ◌∷◌, none, some, length,
  arith, ◌==◌, Bool-cases, inl, inr, if◌then◌else◌,
}
use flowsketch.Base.Word.{add64}
use flowsketch.Core.Event.{FlowEvent}
use flowsketch.Core.Field.{group_key}
use flowsketch.Runtime.Run.{returned}
use flowsketch.Runtime.States.{States, Mergeable}
use flowsketch.Runtime.Query.{
  Plan, Bucket, RunningQuery, position, update_bucket, count_in, count_or_drop, event_weight,
  event_item,
}
use flowsketch.Runtime.Query.Contents.{Holds}
use flowsketch.Runtime.Query.Ring.{Ring, AllGood, other_slide, later_slide, same_slide}
use flowsketch.Runtime.Query.Slide.{Open}

-- The buckets with the one that starts at `start` updated.
abbrev pub counted : {S : Type 0} → (S → S) → ℕ → List (Bucket S) → List (Bucket S)
counted f start [] = []
counted f start (b ∷ bs) =
    (if b.start_nanos == start then record b { state = f b.state } else b) ∷ counted f start bs

module _ {S : Type 0} (slide : ℕ) (positive : 0 < slide) where
  position-before :
      (k t : ℕ) (bs : List (Bucket S)) → Ring slide k bs → t < k → position (slide * t) bs ≡ none
  unfolding position
  position-before k t [] r h = refl
  position-before k t (b ∷ bs) (s, r) h =
      rw
        (
          other_slide slide positive b.start_nanos k t s h,
          position-before (k + 1) t bs r (omega arith),
          position,
        )
        refl

  position-Ring :
      (k t i : ℕ) (bs : List (Bucket S))
      → Ring slide k bs
      → k + i ≡ t
      → i < length bs
      → position (slide * t) bs ≡ some i
  unfolding position
  position-Ring k t i [] r e h = absurd (omega arith)
  position-Ring k t zero (b ∷ bs) (s, r) e h =
      rw (same_slide slide positive b.start_nanos k t s (omega arith), position) refl
  position-Ring k t (suc i) (b ∷ bs) (s, r) e h =
      rw
        (
          later_slide slide positive b.start_nanos k t s (omega arith),
          position-Ring (k + 1) t i bs r (omega arith) (omega arith),
          position,
        )
        refl

  counted-before :
      (f : S → S) (k t : ℕ) (bs : List (Bucket S))
      → Ring slide k bs
      → t < k
      → counted f (slide * t) bs ≡ bs
  counted-before f k t [] r h = refl
  counted-before f k t (b ∷ bs) (s, r) h =
      rw
        (
          other_slide slide positive b.start_nanos k t s h,
          counted-before f (k + 1) t bs r (omega arith),
        )
        refl

  update_bucket-Ring :
      (f : S → S) (k t i : ℕ) (bs : List (Bucket S))
      → Ring slide k bs
      → k + i ≡ t
      → i < length bs
      → update_bucket f i bs ≡ some (counted f (slide * t) bs)
  unfolding update_bucket
  update_bucket-Ring f k t i [] r e h = absurd (omega arith)
  update_bucket-Ring f k t zero (b ∷ bs) (s, r) e h =
      rw
        (
          same_slide slide positive b.start_nanos k t s (omega arith),
          counted-before f (k + 1) t bs r (omega arith),
        )
        refl
  update_bucket-Ring f k t (suc i) (b ∷ bs) (s, r) e h =
      rw
        (
          later_slide slide positive b.start_nanos k t s (omega arith),
          update_bucket-Ring f (k + 1) t i bs r (omega arith) (omega arith),
          update_bucket,
        )
        refl

counted-Ring :
    {S : Type 0} (slide : ℕ) (f : S → S) (k start : ℕ) (bs : List (Bucket S))
    → Ring slide k bs
    → Ring slide k (counted f start bs)
counted-Ring slide f k start [] r = tt
counted-Ring slide f k start (b ∷ bs) (s, r) = elim (Bool-cases (b.start_nanos == start)) [
  | inl e ↦ rw e (s, counted-Ring slide f (k + 1) start bs r)
  | inr e ↦ rw e (s, counted-Ring slide f (k + 1) start bs r)
]

counted-AllGood :
    {S : Type 0} (G : S → Type 0) (f : S → S) (start : ℕ) (bs : List (Bucket S))
    → ((s : S) → G s → G (f s))
    → AllGood G bs
    → AllGood G (counted f start bs)
counted-AllGood G f start [] keeps g = tt
counted-AllGood G f start (b ∷ bs) keeps (gb, g) = elim (Bool-cases (b.start_nanos == start)) [
  | inl e ↦ rw e (keeps b.state gb, counted-AllGood G f start bs keeps g)
  | inr e ↦ rw e (gb, counted-AllGood G f start bs keeps g)
]

pub length-counted :
    {S : Type 0} (f : S → S) (start : ℕ) (bs : List (Bucket S))
    → length (counted f start bs) ≡ length bs
length-counted f start [] = refl
length-counted f start (b ∷ bs) = ap suc (length-counted f start bs)

-- The update changes what is held of one slide and of no other.
pub counted-Holds :
    {S : Type 0} (f : S → S) (g : ℕ → S) (start : ℕ) (bs : List (Bucket S))
    → Holds g bs
    → Holds (λ k. if k == start then f (g k) else g k) (counted f start bs)
counted-Holds f g start [] h = tt
counted-Holds f g start (b ∷ bs) (hb, h) = elim (Bool-cases (b.start_nanos == start)) [
  | inl e ↦
      rw (e, hb)
        (
          sym (ap (λ t. if t then f (g b.start_nanos) else g b.start_nanos) e),
          counted-Holds f g start bs h,
        )
  | inr e ↦
      rw (e, hb)
        (
          sym (ap (λ t. if t then f (g b.start_nanos) else g b.start_nanos) e),
          counted-Holds f g start bs h,
        )
]

module _ (P : States) (plan : Plan) (laws : Mergeable P) where
  -- Counting an event keeps the ring.
  pub counted-Open :
      (f : P.State → P.State) (start l : ℕ) (q : RunningQuery P.State)
      → ((s : P.State) → laws.IsGood s → laws.IsGood (f s))
      → Open P plan laws q l
      → Open P plan laws (record q { buckets = counted f start q.buckets }) l
  counted-Open f start l q keeps o =
      let same = length-counted f start q.buckets in
      record {
        first = o.first;
        ring = counted-Ring plan.slide_nanos f o.first start q.buckets o.ring;
        good = counted-AllGood laws.IsGood f start q.buckets keeps o.good;
        newest = omega (arith, same, o.newest);
        some_open = omega (arith, same, o.some_open);
        short = omega (arith, same, o.short);
        windows = o.windows;
      }

  module _ (display_ipv6 : List ℕ → List ℕ) where
    -- What an event does to the state of its bucket.
    abbrev pub counts : FlowEvent → P.State → P.State
    counts event s =
        P.update s (group_key display_ipv6 plan.group_by event)
          (event_weight P plan display_ipv6 event) (event_item P plan display_ipv6 event)

    pub count_in-Open :
        (event : FlowEvent) (q : RunningQuery P.State) (l t i : ℕ)
        → 0 < plan.slide_nanos
        → (o : Open P plan laws q l) → o.first + i ≡ t
        → i < length q.buckets
        → count_in P plan display_ipv6 event i q ≡ (
          record q { buckets = counted (counts event) (plan.slide_nanos * t) q.buckets },
          returned tt,
        )
    unfolding count_in
    count_in-Open event q l t i positive o e h =
        rw
          (
            update_bucket-Ring plan.slide_nanos positive (counts event) o.first t i q.buckets o.ring
                e h,
            count_in,
          )
          refl

    pub count_or_drop-inside :
        (event : FlowEvent) (q : RunningQuery P.State) (l t : ℕ)
        → 0 < plan.slide_nanos
        → (o : Open P plan laws q l) → o.first ≤ t
        → t ≤ l
        → count_or_drop P plan display_ipv6 event (plan.slide_nanos * t) q ≡ (
          record q { buckets = counted (counts event) (plan.slide_nanos * t) q.buckets },
          returned tt,
        )
    unfolding count_or_drop
    count_or_drop-inside event q l t positive o low high =
        rw
          (
            position-Ring plan.slide_nanos positive o.first t (t - o.first) q.buckets o.ring
                (omega arith) (omega (arith, o.newest)),
            count_or_drop,
          )
          (count_in-Open event q l t (t - o.first) positive o (omega arith)
            (omega (arith, o.newest)))

    pub count_or_drop-late :
        (event : FlowEvent) (q : RunningQuery P.State) (l t : ℕ)
        → 0 < plan.slide_nanos
        → (o : Open P plan laws q l) → t < o.first
        → count_or_drop P plan display_ipv6 event (plan.slide_nanos * t) q
          ≡ (record q { late_events = add64 q.late_events 1 }, returned tt)
    unfolding count_or_drop
    count_or_drop-late event q l t positive o late =
        rw
          (position-before plan.slide_nanos positive o.first t q.buckets o.ring late, count_or_drop)
          refl
