-- ===== src/Algos/MisraGries/Merge.antt =====
-- Merging two summaries keeps the guarantee, for the two streams together.
use native.Mathlib.Nat.{mul-le-mul_left}
use flowsketch.Base.Word.{add64}
use flowsketch.Base.{
  ℕ, ◌+◌, ◌-◌, ◌*◌, ◌^◌, ◌≤◌, ◌<◌, ◌≡◌, refl, sym, ◌∙◌, List, some, false, length, get_or, ltb,
  Bool-cases, inl, inr, arith,
}
use flowsketch.Core.Error.{ok}
use flowsketch.Core.Hash.{HashSpec}
use flowsketch.Core.Sketch.{ensure_matches_refl}
use flowsketch.Algos.Counters.Laws.{
  IsMap, absorb_laws, count_ge, count-retain_above, sum-retain_above, length-retain_above,
  retain_above-IsMap,
}
use flowsketch.Algos.Counters.{Counters, count, sum, absorb}
use flowsketch.Algos.MisraGries.Guarantee.{
  Summary, Promise, new-Summary, run-Summary, Summary-Promise, Promise-ext,
}
use flowsketch.Algos.MisraGries.Sorted.{order_statistic}
use flowsketch.Algos.MisraGries.{
  MisraGries, new, run, compatibility, params_hash, merge_from, sort_values, trim_round, trim_loop,
  trim_to_capacity,
}
use flowsketch.Algos.Truth.{Stream, truth, total}

-- What is left of `cs` after `dec` has been taken from every counter, at a price.
record Trimmed (capacity : ℕ) (cs left : Counters) : Type 0 where
  distinct : IsMap left
  size : length left ≤ capacity
  dec : ℕ
  price : sum left + (capacity + 1) * dec ≤ sum cs
  counts : (key : List ℕ) → count key left ≡ count key cs - dec

trim_round-Trimmed :
    (capacity : ℕ) (cs : Counters)
    → IsMap cs
    → capacity < length cs
    → Trimmed capacity cs (trim_round capacity cs)
unfolding trim_round
trim_round-Trimmed capacity cs m over =
    let i = length cs - capacity - 1 in
    let d = get_or (sort_values cs) i 0 in
    let (many, few) = order_statistic cs i (omega arith) in
    let payers : capacity + 1 ≤ count_ge d cs = omega (arith, many) in
    record {
      distinct = retain_above-IsMap d cs m;
      size = omega (arith, length-retain_above d cs, few);
      dec = d;
      price = omega (arith, sum-retain_above d cs, mul-le-mul_left d payers);
      counts = λ key. count-retain_above key d cs m;
    }

trim-Trimmed :
    (capacity : ℕ) (cs : Counters)
    → IsMap cs
    → (left : Counters) × (trim_to_capacity capacity cs ≡ some left) × Trimmed capacity cs left
unfolding trim_to_capacity trim_loop
trim-Trimmed capacity cs m = elim (Bool-cases (ltb capacity (length cs))) [
  | inr fits ↦ (
    cs,
    rw fits,
    record {
      distinct = m;
      size = ground arith;
      dec = 0;
      price = omega arith;
      counts = λ key. omega arith;
    },
  )
  | inl over ↦
      let t = trim_round-Trimmed capacity cs m (ground arith) in
      let ends : ltb capacity (length (trim_round capacity cs)) ≡ false = ground (arith, t.size) in
      (trim_round capacity cs, rw (over, trim_loop, ends), t)
]

-- The three slacks of a merge, each paid `p` times over.
price_sum :
    (p left x y z sum_left sum_right n k : ℕ)
    → left + p * z ≤ sum_left + sum_right
    → sum_left + p * x ≤ n
    → sum_right + p * y ≤ k
    → left + p * (x + y + z) ≤ n + k
price_sum p left x y z sum_left sum_right n k a b c = omega arith

merge_from-run :
    (s t : MisraGries) (left : Counters)
    → compatibility s ≡ compatibility t
    → trim_to_capacity s.capacity (absorb s.counters t.counters) ≡ some left
    → merge_from s t
      ≡ ok (
          some (record s {
            counters = left;
            total_weight = add64 s.total_weight t.total_weight;
            updates = add64 s.updates t.updates;
          }))
unfolding merge_from
merge_from-run s t left same run = rw (same, ensure_matches_refl (compatibility t), run, merge_from)

Summary-merge :
    (s t : MisraGries) (f g : List ℕ → ℕ) (n k : ℕ)
    → Summary s f n
    → Summary t g k
    → s.capacity ≡ t.capacity
    → s.hash ≡ t.hash
    → n + k < 2 ^ 64
    → (r : MisraGries) × (merge_from s t ≡ ok (some r))
      × (r.capacity ≡ s.capacity)
      × Summary r (λ key. f key + g key) (n + k)
unfolding compatibility params_hash
Summary-merge s t f g n k a b same_capacity same_hash fits =
    let same : compatibility s ≡ compatibility t = rw (same_capacity, same_hash) in
    let (m, sums, counts) =
      absorb_laws s.counters t.counters a.approx.distinct b.approx.distinct
        (omega (arith, a.approx.paid, b.approx.paid)) in
    let (left, run, trimmed) = trim-Trimmed s.capacity (absorb s.counters t.counters) m in
    (
      record s {
        counters = left;
        total_weight = add64 s.total_weight t.total_weight;
        updates = add64 s.updates t.updates;
      },
      merge_from-run s t left same run,
      refl,
      record {
        positive = a.positive;
        weight = omega (arith, a.weight, b.weight);
        approx = record {
          distinct = trimmed.distinct;
          size = trimmed.size;
          slack = a.approx.slack + b.approx.slack + trimmed.dec;
          paid =
              price_sum (s.capacity + 1) (sum left) a.approx.slack b.approx.slack trimmed.dec
                (sum s.counters) (sum t.counters) n k (omega (arith, trimmed.price, sums))
                a.approx.paid (rw (← same_capacity) at b.approx.paid);
          low = λ key.
              omega (arith, trimmed.counts key, counts key, a.approx.low key, b.approx.low key);
          high = λ key.
              omega (arith, trimmed.counts key, counts key, a.approx.high key, b.approx.high key);
        };
      },
    )

-- Two summaries of one capacity and hash that have read streams of a total weight below 2^64 merge
-- without error or panic, and the result makes the promise of one summary for both streams: no
-- estimate above the true weight, none below it by more than the total divided by capacity + 1.
pub merge-Promise :
    (capacity : ℕ) (hash : HashSpec) (xs ys : Stream) {s : MisraGries}
    → new capacity hash ≡ ok s
    → total xs + total ys < 2 ^ 64
    → (a : MisraGries) × (b : MisraGries) × (r : MisraGries) × (run xs s ≡ some a)
      × (run ys s ≡ some b)
      × (merge_from a b ≡ ok (some r))
      × (r.capacity ≡ capacity)
      × Promise r (λ key. truth key xs + truth key ys) (total xs + total ys)
merge-Promise capacity hash xs ys {s} made fits =
    let (start, c) = new-Summary capacity hash made in
    let (a, ra, ca, ha, sa) = run-Summary xs s (λ _. 0) 0 start (omega arith) in
    let (b, rb, cb, hb, sb) = run-Summary ys s (λ _. 0) 0 start (omega arith) in
    let (r, rm, cr, sr) =
      Summary-merge a b (λ key. 0 + truth key xs) (λ key. 0 + truth key ys) (0 + total xs)
        (0 + total ys) sa sb (ca ∙ sym cb) (ha ∙ sym hb) (omega arith) in
    (
      a,
      b,
      r,
      ra,
      rb,
      rm,
      cr ∙ ca ∙ c,
      Promise-ext r (λ key. (0 + truth key xs) + (0 + truth key ys))
          (λ key. truth key xs + truth key ys) ((0 + total xs) + (0 + total ys))
          (total xs + total ys) (λ key. omega arith) (omega arith) (Summary-Promise r _ _ sr),
    )
