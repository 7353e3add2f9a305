-- ===== src/Algos/MisraGries/Guarantee.antt =====
-- The guarantee of misra_gries.rs over whole streams.
use flowsketch.Base.Bytes.{bytes_eq}
use native.Mathlib.Nat.{mul-le-mul_left}
use flowsketch.Base.Word.{add64}
use flowsketch.Base.{
  ℕ, ◌+◌, ◌*◌, ◌^◌, ◌≤◌, ◌<◌, ◌≡◌, refl, List, [], ◌∷◌, some, length, if◌then◌else◌, arith, ◌∙◌,
}
use flowsketch.Core.Error.{ok}
use flowsketch.Core.Hash.{HashSpec}
use flowsketch.Algos.Counters.{Counters, count, lookup, sum}
use flowsketch.Algos.MisraGries.Step.{Approx, add_counters-Approx}
use flowsketch.Algos.MisraGries.{MisraGries, new, add, estimate, run}
use flowsketch.Algos.Truth.{Stream, plus, truth, total}

-- A summary that approximates the weights `f` of a stream of weight `n`.
pub record Summary (s : MisraGries) (f : List ℕ → ℕ) (n : ℕ) : Type 0 where
  pub positive : 0 < s.capacity
  pub weight : s.total_weight ≡ n
  pub approx : Approx s.capacity s.counters f n

pub new-Summary :
    (capacity : ℕ) (hash : HashSpec) {s : MisraGries}
    → new capacity hash ≡ ok s
    → Summary s (λ _. 0) 0 × (s.capacity ≡ capacity)
unfolding new sum count lookup
new-Summary capacity hash {s} h = (
  record {
    positive = ground arith;
    weight = ground arith;
    approx = rw (empty h) (record {
      distinct = tt;
      size = omega arith;
      slack = 0;
      paid = omega arith;
      low = λ key. omega arith;
      high = λ key. omega arith;
    });
  },
  ground arith,
)
  where
    empty : new capacity hash ≡ ok s → s.counters ≡ []
    empty e = ground arith

pub add-Summary :
    (s : MisraGries) (f : List ℕ → ℕ) (n : ℕ) (key : List ℕ) (w : ℕ)
    → Summary s f n
    → n + w < 2 ^ 64
    → (r : MisraGries) × (add s key w ≡ some r)
      × (r.capacity ≡ s.capacity)
      × (r.hash ≡ s.hash)
      × Summary r (plus f key w) (n + w)
unfolding add
add-Summary s f n key w m fits =
    let (cs, run, a) =
      add_counters-Approx s.capacity s.counters f n key w m.positive m.approx fits in
    (
      record s {
        counters = cs;
        total_weight = add64 s.total_weight w;
        updates = add64 s.updates 1;
      },
      rw (run, add),
      refl,
      refl,
      record { positive = m.positive; weight = omega (arith, m.weight); approx = a },
    )

Approx-ext :
    {capacity : ℕ} {cs : Counters} (f g : List ℕ → ℕ) {n m : ℕ}
    → ((key : List ℕ) → f key ≡ g key)
    → n ≡ m
    → Approx capacity cs f n
    → Approx capacity cs g m
Approx-ext f g e q a = record {
  distinct = a.distinct;
  size = a.size;
  slack = a.slack;
  paid = omega (arith, a.paid);
  low = λ key. omega (arith, e key, a.low key);
  high = λ key. omega (arith, e key, a.high key);
}

pub run-Summary :
    (stream : Stream) (s : MisraGries) (f : List ℕ → ℕ) (n : ℕ)
    → Summary s f n
    → n + total stream < 2 ^ 64
    → (r : MisraGries) × (run stream s ≡ some r)
      × (r.capacity ≡ s.capacity)
      × (r.hash ≡ s.hash)
      × Summary r (λ key. f key + truth key stream) (n + total stream)
unfolding run total truth
run-Summary [] s f n m fits = (
  s,
  refl,
  refl,
  refl,
  record {
    positive = m.positive;
    weight = omega (arith, m.weight);
    approx = Approx-ext f (λ key. f key + 0) (λ key. omega arith) (omega arith) m.approx;
  },
)
run-Summary ((k, w) ∷ rest) s f n m fits =
    let (t, step, c, h, m') = add-Summary s f n k w m (omega arith) in
    let (r, steps, c', h', m'') = run-Summary rest t (plus f k w) (n + w) m' (omega arith) in
    (
      r,
      rw (step, run) steps,
      c' ∙ c,
      h' ∙ h,
      record {
        positive = m''.positive;
        weight = omega (arith, m''.weight);
        approx =
            Approx-ext (λ key. plus f k w key + truth key rest)
              (λ key. f key + ((if bytes_eq k key then w else 0) + truth key rest))
              (λ key. omega arith) (omega arith) m''.approx;
      },
    )

-- What a summary of weight `n` promises of each key: it never overcounts, and it undercounts by at
-- most n / (capacity + 1).
pub Promise : MisraGries → (List ℕ → ℕ) → ℕ → Type 0
Promise s f n =
    (key : List ℕ)
    → (estimate s key ≤ f key)
      × ((s.capacity + 1) * f key ≤ (s.capacity + 1) * estimate s key + n)
      × (length s.counters ≤ s.capacity)

pub Promise-ext :
    (s : MisraGries) (f g : List ℕ → ℕ) (n m : ℕ)
    → ((key : List ℕ) → f key ≡ g key)
    → n ≡ m
    → Promise s f n
    → Promise s g m
unfolding Promise
Promise-ext s f g n m e q p key = rw (← e key, ← q) (p key)

scale : (k a b d n : ℕ) → a ≤ b + d → k * d ≤ n → k * a ≤ k * b + n
scale k a b d n h p = omega (arith, mul-le-mul_left k h)

pub Summary-Promise : (s : MisraGries) (f : List ℕ → ℕ) (n : ℕ) → Summary s f n → Promise s f n
unfolding estimate Promise
Summary-Promise s f n m key = (
  m.approx.low key,
  scale (s.capacity + 1) (f key) (count key s.counters) m.approx.slack n (m.approx.high key)
      (omega (arith, m.approx.paid)),
  m.approx.size,
)

-- From a new summary every stream of a total weight below 2^64 is read without a panic. Then no
-- estimate is above the true weight of its key, none is below it by more than the total weight
-- divided by capacity + 1, and there are at most `capacity` counters.
pub run-Promise :
    (capacity : ℕ) (hash : HashSpec) (stream : Stream) {s : MisraGries}
    → new capacity hash ≡ ok s
    → total stream < 2 ^ 64
    → (r : MisraGries) × (run stream s ≡ some r)
      × (r.capacity ≡ capacity)
      × (r.total_weight ≡ total stream)
      × Promise r (λ key. truth key stream) (total stream)
run-Promise capacity hash stream {s} made fits =
    let (m, c) = new-Summary capacity hash made in
    let (r, steps, c', _, m') = run-Summary stream s (λ _. 0) 0 m (omega arith) in
    (
      r,
      steps,
      c' ∙ c,
      omega (arith, m'.weight),
      Summary-Promise r (λ key. truth key stream) (total stream)
          (record {
            positive = m'.positive;
            weight = omega (arith, m'.weight);
            approx =
                Approx-ext (λ key. 0 + truth key stream) (λ key. truth key stream)
                  (λ key. omega arith) (omega arith) m'.approx;
          }),
    )
