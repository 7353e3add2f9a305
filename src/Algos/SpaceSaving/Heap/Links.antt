-- ===== src/Algos/SpaceSaving/Heap/Links.antt =====
-- The heap of space_saving.rs and the slots point at each other; a swap keeps that, and what the
-- slots hold.
use flowsketch.Base.{
  ℕ, zero, suc, ◌+◌, ◌*◌, ◌≤◌, ◌<◌, ◌≡◌, refl, ◌∙◌, List, [], ◌∷◌, ◌++◌, some, get_or, set, length,
  get_or-set, ◌==◌, if◌then◌else◌, arith,
}
use flowsketch.Base.Panic.{get_elem?-get_or}
use flowsketch.Algos.SpaceSaving.{Slot, SpaceSaving}
use flowsketch.Algos.SpaceSaving.Heap.{point_back}

abbrev pub blank : Slot
blank = record { key = []; digest = 0; entry = record { count = 0; error = 0 }; heap_index = 0 }

-- What stands at an index in range.
abbrev pub heap_at : SpaceSaving → ℕ → ℕ
heap_at s i = get_or s.min_heap i 0

abbrev pub slot_at : SpaceSaving → ℕ → Slot
slot_at s t = get_or s.slots t blank

abbrev pub count_at : SpaceSaving → ℕ → ℕ
count_at s i = (slot_at s (heap_at s i)).entry.count

-- The heap holds every slot once, at the place that the slot names.
pub record Linked (s : SpaceSaving) : Type 0 where
  pub size : length s.min_heap ≡ length s.slots
  pub inside : (i : ℕ) → i < length s.min_heap → heap_at s i < length s.slots
  pub back : (i : ℕ) → i < length s.min_heap → (slot_at s (heap_at s i)).heap_index ≡ i
  pub place : (t : ℕ) → t < length s.slots → (slot_at s t).heap_index < length s.min_heap
  pub there : (t : ℕ) → t < length s.slots → heap_at s (slot_at s t).heap_index ≡ t

unfoldable pub sum_counts : List Slot → ℕ
sum_counts [] = 0
sum_counts (x ∷ xs) = x.entry.count + sum_counts xs

pub sum_counts-set :
    (xs : List Slot) (t : ℕ) (v : Slot)
    → t < length xs
    → sum_counts (set xs t v) + (get_or xs t blank).entry.count ≡ sum_counts xs + v.entry.count
unfolding sum_counts
sum_counts-set [] t v h = absurd (omega arith)
sum_counts-set (x ∷ xs) zero v h = omega arith
sum_counts-set (x ∷ xs) (suc t) v h = omega (arith, sum_counts-set xs t v (omega arith))

pub sum_counts-push :
    (xs : List Slot) (v : Slot) → sum_counts (xs ++ v ∷ []) ≡ sum_counts xs + v.entry.count
unfolding sum_counts
sum_counts-push [] v = omega arith
sum_counts-push (x ∷ xs) v = omega (arith, sum_counts-push xs v)

-- No count is greater than the sum, and a count that no other is below has its share of it.
pub count-le_sum :
    (xs : List Slot) (t : ℕ) → t < length xs → (get_or xs t blank).entry.count ≤ sum_counts xs
unfolding sum_counts
count-le_sum [] t h = absurd (omega arith)
count-le_sum (x ∷ xs) zero h = omega arith
count-le_sum (x ∷ xs) (suc t) h = omega (arith, count-le_sum xs t (omega arith))

pub least-le_sum :
    (xs : List Slot) (m : ℕ)
    → ((t : ℕ) → t < length xs → m ≤ (get_or xs t blank).entry.count)
    → length xs * m ≤ sum_counts xs
unfolding sum_counts
least-le_sum [] m h = omega arith
least-le_sum (x ∷ xs) m h =
    omega (arith, h 0 (omega arith), least-le_sum xs m (λ t k. h (suc t) (omega arith)))

-- Everything but the order of the heap is the same.
pub record Rearranged (s t : SpaceSaving) : Type 0 where
  pub capacity : t.capacity ≡ s.capacity
  pub hash : t.hash ≡ s.hash
  pub key_index : t.key_index ≡ s.key_index
  pub total_weight : t.total_weight ≡ s.total_weight
  pub updates : t.updates ≡ s.updates
  pub slots : length t.slots ≡ length s.slots
  pub heap : length t.min_heap ≡ length s.min_heap
  pub key : (i : ℕ) → (slot_at t i).key ≡ (slot_at s i).key
  pub digest : (i : ℕ) → (slot_at t i).digest ≡ (slot_at s i).digest
  pub entry : (i : ℕ) → (slot_at t i).entry ≡ (slot_at s i).entry
  pub sum : sum_counts t.slots ≡ sum_counts s.slots

pub Rearranged-refl : (s : SpaceSaving) → Rearranged s s
Rearranged-refl s = record {
  capacity = refl;
  hash = refl;
  key_index = refl;
  total_weight = refl;
  updates = refl;
  slots = refl;
  heap = refl;
  key = λ i. refl;
  digest = λ i. refl;
  entry = λ i. refl;
  sum = refl;
}

pub Rearranged-trans : {s t u : SpaceSaving} → Rearranged s t → Rearranged t u → Rearranged s u
Rearranged-trans a b = record {
  capacity = b.capacity ∙ a.capacity;
  hash = b.hash ∙ a.hash;
  key_index = b.key_index ∙ a.key_index;
  total_weight = b.total_weight ∙ a.total_weight;
  updates = b.updates ∙ a.updates;
  slots = b.slots ∙ a.slots;
  heap = b.heap ∙ a.heap;
  key = λ i. b.key i ∙ a.key i;
  digest = λ i. b.digest i ∙ a.digest i;
  entry = λ i. b.entry i ∙ a.entry i;
  sum = b.sum ∙ a.sum;
}

-- A slot with a new way back into the heap.
abbrev pub pointed : ℕ → ℕ → List Slot → List Slot
pointed at i slots = set slots i (record (get_or slots i blank) { heap_index = at })

pub point_back-ok :
    (at : ℕ) (heap : List ℕ) (slots : List Slot)
    → at < length heap
    → get_or heap at 0 < length slots
    → point_back at heap slots ≡ some (pointed at (get_or heap at 0) slots)
unfolding point_back
point_back-ok at heap slots h k =
    rw (get_elem?-get_or heap at 0 h, get_elem?-get_or slots (get_or heap at 0) blank k)

module _ (at i : ℕ) (slots : List Slot) (h : i < length slots) where
  pub pointed-key : (t : ℕ) → (get_or (pointed at i slots) t blank).key ≡ (get_or slots t blank).key
  pointed-key t =
      rw (get_or-set slots i t (record (get_or slots i blank) { heap_index = at }) blank h)
        (ground arith)

  pub pointed-digest :
      (t : ℕ) → (get_or (pointed at i slots) t blank).digest ≡ (get_or slots t blank).digest
  pointed-digest t =
      rw (get_or-set slots i t (record (get_or slots i blank) { heap_index = at }) blank h)
        (ground arith)

  pub pointed-entry :
      (t : ℕ) → (get_or (pointed at i slots) t blank).entry ≡ (get_or slots t blank).entry
  pointed-entry t =
      rw (get_or-set slots i t (record (get_or slots i blank) { heap_index = at }) blank h)
        (ground arith)

  pub pointed-heap_index :
      (t : ℕ)
      → (get_or (pointed at i slots) t blank).heap_index
        ≡ (if i == t then at else (get_or slots t blank).heap_index)
  pointed-heap_index t =
      rw (get_or-set slots i t (record (get_or slots i blank) { heap_index = at }) blank h)
        (ground arith)

  pub pointed-sum : sum_counts (pointed at i slots) ≡ sum_counts slots
  pointed-sum =
      omega (arith, sum_counts-set slots i (record (get_or slots i blank) { heap_index = at }) h)
