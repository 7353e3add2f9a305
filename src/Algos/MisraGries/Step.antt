-- ===== src/Algos/MisraGries/Step.antt =====
-- One update keeps the guarantee: counters never exceed the true weights, they fall short by a
-- slack at most, and the slack has been paid for `capacity + 1` times over by the stream.
use flowsketch.Base.Bytes.{bytes_eq, eq_of_bytes_eq}
use flowsketch.Base.{
  ℕ, ◌+◌, ◌-◌, ◌*◌, ◌^◌, ◌≤◌, ◌<◌, ◌≡◌, ap, min, List, none, some, true, length, ltb, Bool-cases,
  lt→ltb, ltb→lt, Option-cases, inl, inr, arith,
}
use flowsketch.Algos.Counters.Laws.{
  IsMap, count-le_sum, count-entry_add, sum-entry_add, entry_add-IsMap, bump-entry_add,
  insert-entry_add, length-bump, length-insert, retain_above-IsMap, lookup-retain_above,
  count-absent, count-retain_above, sum-retain_above, length-retain_above, min_value-none,
  min_value-count_ge, min_value-count_le,
}
use flowsketch.Algos.Counters.{
  Counters, lookup, count, insert, entry_add, min_value, retain_above, sum,
}
use flowsketch.Algos.MisraGries.{evict, add_counters}
use flowsketch.Algos.Truth.{plus}

-- The counters approximate the weights `f` of a stream of weight `n`.
pub record Approx (capacity : ℕ) (cs : Counters) (f : List ℕ → ℕ) (n : ℕ) : Type 0 where
  pub distinct : IsMap cs
  pub size : length cs ≤ capacity
  pub slack : ℕ
  pub paid : sum cs + (capacity + 1) * slack ≤ n
  pub low : (key : List ℕ) → count key cs ≤ f key
  pub high : (key : List ℕ) → f key ≤ count key cs + slack

module _ (capacity : ℕ) (cs : Counters) (f : List ℕ → ℕ) (n : ℕ) (a : Approx capacity cs f n)
    (key : List ℕ) (w : ℕ) (fits : n + w < 2 ^ 64) where
  room : count key cs + w < 2 ^ 64
  room = omega (arith, count-le_sum key cs, a.paid)

  -- Where the counter of the key takes the weight, nothing else changes.
  grow-Approx :
      length (entry_add key w cs) ≤ capacity
      → Approx capacity (entry_add key w cs) (plus f key w) (n + w)
  grow-Approx size = record {
    distinct = entry_add-IsMap key w cs a.distinct;
    size = size;
    slack = a.slack;
    paid = omega (arith, sum-entry_add key w cs room, a.paid);
    low = λ other. omega (arith, count-entry_add other key w cs room, a.low other);
    high = λ other. omega (arith, count-entry_add other key w cs room, a.high other);
  }

  -- A full summary without the key.
  module _ (absent : lookup key cs ≡ none) (full : length cs ≡ capacity) (least : ℕ)
      (is_least : min_value cs ≡ some least) where
    dec : ℕ
    dec = min least w

    kept : Counters
    kept = retain_above dec cs

    kept_absent : lookup key kept ≡ none
    unfolding kept
    kept_absent = lookup-retain_above key dec cs absent

    same_absent : (other : List ℕ) → bytes_eq key other ≡ true → count other cs ≡ 0
    same_absent other same = rw (← eq_of_bytes_eq key other same) (count-absent key cs absent)

    -- All the counters pay.
    pays : sum kept + dec * capacity ≤ sum cs
    unfolding kept dec
    pays =
        rw (← full)
          (rw (min_value-count_ge cs least dec is_least (omega arith)) at (sum-retain_above dec cs))

    kept_count : (other : List ℕ) → count other kept ≡ count other cs - dec
    unfolding kept
    kept_count other = count-retain_above other dec cs a.distinct

    kept_size : length kept ≤ capacity
    unfolding kept
    kept_size = omega (arith, length-retain_above dec cs)

    -- With weight left over, the least counter has gone.
    made_room : 0 < w - dec → length kept < capacity
    unfolding kept dec
    made_room left =
        let e : min least w ≡ least = omega arith in
        omega
          (arith, length-retain_above dec cs, rw (← e) at (min_value-count_le cs least is_least))

    keep-Approx : w - dec ≡ 0 → Approx capacity kept (plus f key w) (n + w)
    unfolding dec
    keep-Approx none_left = record {
      distinct = unfold kept in retain_above-IsMap dec cs a.distinct;
      size = kept_size;
      slack = a.slack + dec;
      paid = grind (arith, pays, a.paid);
      low = λ other. ground (arith, kept_count other, a.low other);
      high = λ other. ground (arith, kept_count other, a.high other, same_absent other);
    }

    swap-Approx : 0 < w - dec → Approx capacity (insert key (w - dec) kept) (plus f key w) (n + w)
    unfolding dec
    swap-Approx left =
        let rest = w - dec in
        let nothing = count-absent key kept kept_absent in
        let small : count key kept + rest < 2 ^ 64 = omega (arith, nothing) in
        rw (insert-entry_add key rest kept (omega arith) kept_absent) (record {
          distinct =
              entry_add-IsMap key rest kept (unfold kept in retain_above-IsMap dec cs a.distinct);
          size = omega (
            arith,
            made_room left,
            length-insert key rest kept kept_absent,
            ap length (insert-entry_add key rest kept (omega arith) kept_absent),
          );
          slack = a.slack + dec;
          paid = grind (arith, pays, a.paid, sum-entry_add key rest kept small);
          low = λ other.
              ground
                (arith, count-entry_add other key rest kept small, kept_count other, a.low other);
          high = λ other. ground (
            arith,
            count-entry_add other key rest kept small,
            kept_count other,
            a.high other,
            same_absent other,
          );
        })

    evict-Approx : Approx capacity (evict capacity key w least cs) (plus f key w) (n + w)
    unfolding evict kept dec
    evict-Approx = elim (Bool-cases (ltb 0 (w - dec))) [
      | inl left ↦
          rw (left, lt→ltb _ _ (made_room (ltb→lt 0 (w - dec) left)))
            (swap-Approx (ltb→lt 0 (w - dec) left))
      | inr done ↦ rw done (keep-Approx (ground arith))
    ]

-- An update of a summary with room for a counter does not panic, and keeps the guarantee.
pub add_counters-Approx :
    (capacity : ℕ) (cs : Counters) (f : List ℕ → ℕ) (n : ℕ) (key : List ℕ) (w : ℕ)
    → 0 < capacity
    → Approx capacity cs f n
    → n + w < 2 ^ 64
    → (cs' : Counters) × (add_counters capacity key w cs ≡ some cs')
      × Approx capacity cs' (plus f key w) (n + w)
unfolding add_counters
add_counters-Approx capacity cs f n key w pos a fits = elim (Option-cases (lookup key cs)) [
  | inr (c, e) ↦
      let same = bump-entry_add key w c cs e in
      (
        entry_add key w cs,
        rw (e, add_counters, same),
        grow-Approx capacity cs f n a key w fits
            (omega (arith, ap length same, length-bump key w cs, a.size)),
      )
  | inl e ↦ elim (Bool-cases (ltb (length cs) capacity)) [
    | inl free ↦
        let same = insert-entry_add key w cs (omega arith) e in
        (
          entry_add key w cs,
          rw (e, add_counters, free, same),
          grow-Approx capacity cs f n a key w fits
              (ground (arith, ap length same, length-insert key w cs e)),
        )
    | inr full ↦ elim (Option-cases (min_value cs)) [
      | inl empty ↦ absurd (ground (arith, min_value-none cs empty))
      | inr (least, is_least) ↦ (
        evict capacity key w least cs,
        rw (e, add_counters, full, is_least, add_counters),
        evict-Approx capacity cs f n a key w fits e (ground (arith, a.size)) least is_least,
      )
    ]
  ]
]
