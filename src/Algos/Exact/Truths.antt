-- ===== src/Algos/Exact/Truths.antt =====
-- The exact counter reports the truth, also after a merge.
use flowsketch.Base.Bytes.{bytes_eq}
use flowsketch.Base.{
  ℕ, ◌+◌, ◌<◌, ◌^◌, ◌≡◌, refl, ◌∙◌, List, [], ◌∷◌, length, Bool, false, ◌||◌, ◌&&◌, if◌then◌else◌,
  arith,
}
use flowsketch.Core.Error.{ok}
use flowsketch.Algos.Counters.{count, sum, lookup}
use flowsketch.Algos.Counters.Laws.{
  IsMap, count-le_sum, count-entry_add, sum-entry_add, entry_add-IsMap, absorb_laws,
}
use flowsketch.Algos.Sets.{Items, has, items_of}
use flowsketch.Algos.Sets.Laws.{
  NoRepeat, IsSets, entry_items-IsSets, items_of-NoRepeat, has-entry_items, has-unite, unite-IsSets,
}
use flowsketch.Algos.Exact.{
  ExactCounter, new, add, insert_distinct, get, distinct_count, merge_from, Op, weigh, see, apply,
  run,
}

-- The truth about a list of observations.
unfoldable pub weight_of : List ℕ → List Op → ℕ
weight_of key [] = 0
weight_of key (weigh k w ∷ ops) = (if bytes_eq k key then w else 0) + weight_of key ops
weight_of key (see k item ∷ ops) = weight_of key ops

unfoldable pub weight : List Op → ℕ
weight [] = 0
weight (weigh k w ∷ ops) = w + weight ops
weight (see k item ∷ ops) = weight ops

unfoldable pub seen : List ℕ → List ℕ → List Op → Bool
unfolding has
seen key item [] = false
seen key item (weigh k w ∷ ops) = seen key item ops
seen key item (see k i ∷ ops) = (bytes_eq k key && has item (i ∷ [])) || seen key item ops

-- The counter holds weights `f` of a sum `n`, and the items that satisfy `p`.
pub record Holds (s : ExactCounter) (f : List ℕ → ℕ) (n : ℕ) (p : List ℕ → List ℕ → Bool)
    : Type 0 where
  pub one_entry : IsMap s.counts
  pub one_set : IsSets s.distinct
  pub mass : sum s.counts ≡ n
  pub total : s.total_weight ≡ n
  pub weights : (key : List ℕ) → count key s.counts ≡ f key
  pub items : (key item : List ℕ) → has item (items_of key s.distinct) ≡ p key item

run-Holds :
    (ops : List Op) (s : ExactCounter) (f : List ℕ → ℕ) (n : ℕ) (p : List ℕ → List ℕ → Bool)
    → Holds s f n p
    → n + weight ops < 2 ^ 64
    → Holds
        (run ops s)
        (λ key. f key + weight_of key ops)
        (n + weight ops)
        (λ key item. p key item || seen key item ops)
unfolding run apply add insert_distinct weight weight_of seen
run-Holds [] s f n p h fits = record {
  one_entry = h.one_entry;
  one_set = h.one_set;
  mass = omega (arith, h.mass);
  total = omega (arith, h.total);
  weights = λ key. omega (arith, h.weights key);
  items = λ key item. ground (arith, h.items key item);
}
run-Holds (weigh k w ∷ ops) s f n p h fits =
    let room : count k s.counts + w < 2 ^ 64 = omega (arith, count-le_sum k s.counts, h.mass) in
    let r =
      run-Holds ops (add s k w) (λ key. f key + (if bytes_eq k key then w else 0)) (n + w) p
        (record {
          one_entry = entry_add-IsMap k w s.counts h.one_entry;
          one_set = h.one_set;
          mass = omega (arith, sum-entry_add k w s.counts room, h.mass);
          total = omega (arith, h.total);
          weights = λ key. omega (arith, count-entry_add key k w s.counts room, h.weights key);
          items = h.items;
        })
        (omega arith) in
    record {
      one_entry = r.one_entry;
      one_set = r.one_set;
      mass = omega (arith, r.mass);
      total = omega (arith, r.total);
      weights = λ key. omega (arith, r.weights key);
      items = r.items;
    }
run-Holds (see k i ∷ ops) s f n p h fits =
    let r =
      run-Holds ops (insert_distinct s k i) f n
        (λ key item. (bytes_eq k key && has item (i ∷ [])) || p key item)
        (record {
          one_entry = h.one_entry;
          one_set = entry_items-IsSets k (i ∷ []) s.distinct h.one_set;
          mass = h.mass;
          total = h.total;
          weights = h.weights;
          items = λ key item.
              ground (arith, has-entry_items key k item (i ∷ []) s.distinct, h.items key item);
        })
        fits in
    record {
      one_entry = r.one_entry;
      one_set = r.one_set;
      mass = r.mass;
      total = r.total;
      weights = r.weights;
      items = λ key item. ground (arith, r.items key item);
    }

new-Holds : Holds new (λ _. 0) 0 (λ _ _. false)
unfolding sum count lookup items_of has
new-Holds = record {
  one_entry = tt;
  one_set = tt;
  mass = refl;
  total = refl;
  weights = λ key. refl;
  items = λ key item. refl;
}

-- What a client reads: the weight of every key, the total, and the number of distinct items.
pub Reports : ExactCounter → (List ℕ → ℕ) → ℕ → (List ℕ → List ℕ → Bool) → Type 0
Reports s f n p =
    (s.total_weight ≡ n)
    × ((key : List ℕ) → get s key ≡ f key)
    × ((key : List ℕ)
        → (items : Items) × (distinct_count s key ≡ length items)
          × NoRepeat items
          × ((item : List ℕ) → has item items ≡ p key item))

Holds-Reports :
    (s : ExactCounter) (f g : List ℕ → ℕ) (n m : ℕ) (p q : List ℕ → List ℕ → Bool)
    → Holds s f n p
    → n ≡ m
    → ((key : List ℕ) → f key ≡ g key)
    → ((key item : List ℕ) → p key item ≡ q key item)
    → Reports s g m q
unfolding Reports get distinct_count
Holds-Reports s f g n m p q h e ef ep = (
  h.total ∙ e,
  λ key. h.weights key ∙ ef key,
  λ key. (
    items_of key s.distinct,
    refl,
    items_of-NoRepeat key s.distinct h.one_set,
    λ item. h.items key item ∙ ep key item,
  ),
)

-- From a new exact counter, after observations of a total weight below 2^64, the total weight and the
-- weight of every key are the true ones, and the distinct count of a key is the length of a list without
-- repetition that holds exactly the items seen with the key.
pub run-Reports :
    (ops : List Op)
    → weight ops < 2 ^ 64
    → Reports (run ops new) (λ key. weight_of key ops) (weight ops) (λ key item. seen key item ops)
run-Reports ops fits =
    Holds-Reports (run ops new) _ _ _ _ _ _
      (run-Holds ops new (λ _. 0) 0 (λ _ _. false) new-Holds (omega arith)) (omega arith)
      (λ key. omega arith) (λ key item. refl)

-- Merging two exact counters of observations of a total weight below 2^64 succeeds, and the result
-- reports the truth about both: summed weights, and the distinct items of their union.
pub merge_from-Reports :
    (xs ys : List Op)
    → weight xs + weight ys < 2 ^ 64
    → (r : ExactCounter) × (merge_from (run xs new) (run ys new) ≡ ok r)
      × Reports r
          (λ key. weight_of key xs + weight_of key ys)
          (weight xs + weight ys)
          (λ key item. seen key item xs || seen key item ys)
unfolding merge_from
merge_from-Reports xs ys fits =
    let a = run-Holds xs new (λ _. 0) 0 (λ _ _. false) new-Holds (omega arith) in
    let b = run-Holds ys new (λ _. 0) 0 (λ _ _. false) new-Holds (omega arith) in
    let s = run xs new in
    let t = run ys new in
    let (m, sums, counts) =
      absorb_laws s.counts t.counts a.one_entry b.one_entry (omega (arith, a.mass, b.mass)) in
    (
      _,
      refl,
      Holds-Reports _ (λ key. count key s.counts + count key t.counts) _ (weight xs + weight ys) _
          (λ key item. has item (items_of key s.distinct) || has item (items_of key t.distinct)) _
          (record {
            one_entry = m;
            one_set = unite-IsSets s.distinct t.distinct a.one_set;
            mass = omega (arith, sums, a.mass, b.mass);
            total = omega (arith, a.total, b.total);
            weights = counts;
            items = λ key item. has-unite key item s.distinct t.distinct b.one_set;
          })
          refl (λ key. omega (arith, a.weights key, b.weights key))
          (λ key item. ground (arith, a.items key item, b.items key item)),
    )
