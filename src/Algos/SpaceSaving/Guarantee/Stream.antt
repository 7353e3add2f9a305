-- ===== src/Algos/SpaceSaving/Guarantee/Stream.antt =====
-- space_saving.rs: the guarantee over whole streams.
use flowsketch.Base.{
  ℕ, ◌+◌, ◌*◌, ◌^◌, ◌≤◌, ◌<◌, ◌≡◌, ◌⊎◌, inl, inr, refl, ap, ◌∙◌, List, [], ◌∷◌, some, none, length,
  if◌then◌else◌, dec_lt, arith,
}
use flowsketch.Base.Bytes.{bytes_eq}
use flowsketch.Base.Panic.{get_elem?-get_or}
use flowsketch.Base.Word.{add64}
use flowsketch.Algos.SpaceSaving.{Entry, SpaceSaving, guaranteed}
use flowsketch.Algos.SpaceSaving.Consistent.{Consistent, find_slot_cases}
use flowsketch.Algos.SpaceSaving.Guarantee.{key_of, count_of, error_of, Approx}
use flowsketch.Algos.SpaceSaving.Guarantee.Track.{Updated, raise-Updated, track-Updated}
use flowsketch.Algos.SpaceSaving.Heap.Links.{blank, slot_at, least-le_sum}
use flowsketch.Algos.SpaceSaving.Index.{find_slot}
use flowsketch.Algos.SpaceSaving.Update.{add, get, run}
use flowsketch.Algos.Truth.{Stream, plus, truth, total}

-- A summary of a stream of weight `n` that holds `f`.
pub record Summary (s : SpaceSaving) (f : List ℕ → ℕ) (n : ℕ) : Type 0 where
  pub positive : 0 < s.capacity
  pub weight : s.total_weight ≡ n
  pub consistent : Consistent s
  pub approx : Approx s f n

-- The totals are no part of what must be consistent.
pub with_totals :
    (s : SpaceSaving) (total_weight updates : ℕ)
    → Consistent s
    → Consistent (record s { total_weight = total_weight; updates = updates })
with_totals s total_weight updates m = record {
  linked = record {
    size = m.linked.size;
    inside = m.linked.inside;
    back = m.linked.back;
    place = m.linked.place;
    there = m.linked.there;
  };
  ordered = m.ordered;
  indexed = record {
    buckets = m.indexed.buckets;
    digests = m.indexed.digests;
    distinct = m.indexed.distinct;
  };
}

abbrev tallied : SpaceSaving → ℕ → SpaceSaving
tallied s w = record s { total_weight = add64 s.total_weight w; updates = add64 s.updates 1 }

pub Approx-ext :
    {s : SpaceSaving} (f g : List ℕ → ℕ) (n m : ℕ)
    → ((key : List ℕ) → f key ≡ g key)
    → n ≡ m
    → Approx s f n
    → Approx s g m
Approx-ext {s} f g n m q k a = record {
  size = a.size;
  sum = a.sum ∙ k;
  low = a.low;
  under = λ t h. omega (arith, a.under t h, q (key_of s t));
  over = λ t h. omega (arith, a.over t h, q (key_of s t));
  untracked = λ key t free h. omega (arith, a.untracked key t free h, q key);
  room = λ key free h. omega (arith, a.room key free h, q key);
  errors = a.errors;
  exact = a.exact;
}

tallied-Approx :
    (s : SpaceSaving) (w : ℕ) (f : List ℕ → ℕ) (n : ℕ) → Approx s f n → Approx (tallied s w) f n
tallied-Approx s w f n a = record {
  size = a.size;
  sum = a.sum;
  low = a.low;
  under = a.under;
  over = a.over;
  untracked = a.untracked;
  room = a.room;
  errors = a.errors;
  exact = a.exact;
}

-- One update runs without a panic, and the summary stays true to the stream.
pub add-Summary :
    (s : SpaceSaving) (f : List ℕ → ℕ) (n : ℕ) (key : List ℕ) (w : ℕ)
    → Summary s f n
    → n + w < 2 ^ 64
    → (r : SpaceSaving) × (add s key w ≡ some r)
      × (r.capacity ≡ s.capacity)
      × Summary r (plus f key w) (n + w)
unfolding add find_slot Updated
add-Summary s f n key w m fits =
    let t = tallied s w in
    let cons = with_totals s (add64 s.total_weight w) (add64 s.updates 1) m.consistent in
    let a : Approx t f n = tallied-Approx s w f n m.approx in
    elim (find_slot_cases t key cons.indexed) [
      | inl (u, found, h, same) ↦
          let (r, run, (cons', a', c, _, total)) = raise-Updated t u w key f n h same fits cons a in
          (
            r,
            rw found run,
            c,
            record {
              positive = omega (arith, c, m.positive);
              weight = omega (arith, total, m.weight);
              consistent = cons';
              approx = a';
            },
          )
      | inr (found, fresh) ↦
          let (r, run, (cons', a', c, _, total)) =
            track-Updated t w key f n m.positive fits fresh cons a in
          (
            r,
            rw found run,
            c,
            record {
              positive = omega (arith, c, m.positive);
              weight = omega (arith, total, m.weight);
              consistent = cons';
              approx = a';
            },
          )
    ]

pub run-Summary :
    (stream : Stream) (s : SpaceSaving) (f : List ℕ → ℕ) (n : ℕ)
    → Summary s f n
    → n + total stream < 2 ^ 64
    → (r : SpaceSaving) × (run stream s ≡ some r)
      × (r.capacity ≡ s.capacity)
      × Summary r (λ key. f key + truth key stream) (n + total stream)
unfolding run total truth
run-Summary [] s f n m fits = (
  s,
  refl,
  refl,
  record {
    positive = m.positive;
    weight = omega (arith, m.weight);
    consistent = m.consistent;
    approx = Approx-ext f (λ key. f key + 0) n (n + 0) (λ key. omega arith) (omega arith) m.approx;
  },
)
run-Summary ((k, w) ∷ rest) s f n m fits =
    let (t, step, c, m') = add-Summary s f n k w m (omega arith) in
    let (r, steps, c', m'') = run-Summary rest t (plus f k w) (n + w) m' (omega arith) in
    (
      r,
      rw step steps,
      c' ∙ c,
      record {
        positive = m''.positive;
        weight = omega (arith, m''.weight);
        consistent = m''.consistent;
        approx =
            Approx-ext (λ key. plus f k w key + truth key rest)
              (λ key. f key + ((if bytes_eq k key then w else 0) + truth key rest))
              (n + w + total rest) (n + (w + total rest)) (λ key. omega arith) (omega arith)
              m''.approx;
      },
    )

-- What a summary of weight `n` says of a key: if it tracks the key, the count is at least the true
-- weight and exceeds it by the error at most, which is at most n / capacity; if not, the true weight
-- is at most n / capacity.
pub Promise : SpaceSaving → (List ℕ → ℕ) → ℕ → List ℕ → Type 0
Promise s f n key =
    ((e : Entry) × (get s key ≡ some (some e))
      × (e.error ≤ e.count)
      × (guaranteed e ≤ f key)
      × (f key ≤ e.count)
      × (s.capacity * e.error ≤ n))
    ⊎ ((get s key ≡ some none) × (s.capacity * f key ≤ n))

share :
    {s : SpaceSaving} {f : List ℕ → ℕ} {n : ℕ} (m : ℕ)
    → Approx s f n
    → (length s.slots < s.capacity → m ≡ 0)
    → ((t : ℕ) → t < length s.slots → m ≤ count_of s t)
    → s.capacity * m ≤ n
share {s} m a none_left least = elim (dec_lt (length s.slots) s.capacity) [
  | yes h ↦ rw (none_left h) (omega arith)
  | no h ↦
      let full : s.capacity ≡ length s.slots = omega (arith, a.size) in
      rw full (omega (arith, a.sum, least-le_sum s.slots m least))
]

pub Summary-Promise :
    (s : SpaceSaving) (f : List ℕ → ℕ) (n : ℕ) (key : List ℕ) → Summary s f n → Promise s f n key
unfolding Promise get guaranteed
Summary-Promise s f n key m =
    let a = m.approx in
    elim (find_slot_cases s key m.consistent.indexed) [
      | inl (t, found, h, same) ↦ inl (
        (slot_at s t).entry,
        rw (found, get_elem?-get_or s.slots t blank h),
        a.low t h,
        omega (arith, a.under t h, ap f same),
        omega (arith, a.over t h, ap f same),
        share (error_of s t) a (a.exact t h) (λ u k. a.errors t u h k),
      )
      | inr (found, fresh) ↦
          inr (rw found, share (f key) a (a.room key fresh) (λ t h. a.untracked key t fresh h))
    ]
