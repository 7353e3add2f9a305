-- ===== src/Algos/SpaceSaving/Guarantee/Change.antt =====
-- space_saving.rs: what each branch of `add` changes in the slots.
use flowsketch.Base.{ℕ, ◌+◌, ◌<◌, ◌≡◌, ◌≢◌, refl, ap, ◌∙◌, List, length, arith, max}
use flowsketch.Base.Word.{add64}
use flowsketch.Algos.SpaceSaving.{Slot, KeyIndex, SpaceSaving}
use flowsketch.Algos.SpaceSaving.Consistent.Insert.{new_slot, push_slot-slots, newest, older}
use flowsketch.Algos.SpaceSaving.Consistent.Step.{
  raised_slot, raised, root, replaced_slot, replaced,
}
use flowsketch.Algos.SpaceSaving.Consistent.Write.{written, written-slots, here, elsewhere}
use flowsketch.Algos.SpaceSaving.Guarantee.{key_of, count_of, error_of}
use flowsketch.Algos.SpaceSaving.Heap.Links.{
  Rearranged, sum_counts, sum_counts-set, sum_counts-push,
}
use flowsketch.Algos.SpaceSaving.Update.{push_slot}

-- Slot `u`, with the count `old` if there was one, has come to hold `key`, `count` and `error`.
pub record Change (s t : SpaceSaving) (u old : ℕ) (key : List ℕ) (count error : ℕ) : Type 0 where
  pub capacity : t.capacity ≡ s.capacity
  pub size : length t.slots ≡ max (length s.slots) (u + 1)
  pub sum : sum_counts t.slots + old ≡ sum_counts s.slots + count
  pub key_here : key_of t u ≡ key
  pub count_here : count_of t u ≡ count
  pub error_here : error_of t u ≡ error
  pub key_there : (i : ℕ) → i < length s.slots → u ≢ i → key_of t i ≡ key_of s i
  pub count_there : (i : ℕ) → i < length s.slots → u ≢ i → count_of t i ≡ count_of s i
  pub error_there : (i : ℕ) → i < length s.slots → u ≢ i → error_of t i ≡ error_of s i

abbrev count_in : Slot → ℕ
count_in x = x.entry.count

abbrev error_in : Slot → ℕ
error_in x = x.entry.error

written-Change :
    (s t : SpaceSaving) (u : ℕ) (v : Slot) (index : KeyIndex)
    → u < length s.slots
    → Rearranged (written s u v index) t
    → Change s t u (count_of s u) v.key v.entry.count v.entry.error
written-Change s t u v index h r =
    let at = here s u v index h u refl in
    let off = elsewhere s u v index h in
    record {
      capacity = r.capacity;
      size = omega (arith, r.slots, written-slots s u v index);
      sum = omega (arith, r.sum, sum_counts-set s.slots u v h);
      key_here = r.key u ∙ ap (λ x. x.key) at;
      count_here = ap (λ e. e.count) (r.entry u) ∙ ap count_in at;
      error_here = ap (λ e. e.error) (r.entry u) ∙ ap error_in at;
      key_there = λ i _ ne. r.key i ∙ ap (λ x. x.key) (off i ne);
      count_there = λ i _ ne. ap (λ e. e.count) (r.entry i) ∙ ap count_in (off i ne);
      error_there = λ i _ ne. ap (λ e. e.error) (r.entry i) ∙ ap error_in (off i ne);
    }

pub raised-Change :
    (s t : SpaceSaving) (u w : ℕ) (h : u < length s.slots)
    → Rearranged (raised s u w h) t
    → Change s t u (count_of s u) (key_of s u) (add64 (count_of s u) w) (error_of s u)
raised-Change s t u w h r = written-Change s t u (raised_slot s u w h) s.key_index h r

pub replaced-Change :
    (s t : SpaceSaving) (key : List ℕ) (digest count error : ℕ) (index : KeyIndex)
    → root s key digest count error < length s.slots
    → Rearranged (replaced s key digest count error index) t
    → Change s t
        (root s key digest count error)
        (count_of s (root s key digest count error))
        key
        count
        error
replaced-Change s t key digest count error index h r =
    written-Change s t (root s key digest count error) (replaced_slot s key digest count error)
      index h r

pushed-sum :
    (s : SpaceSaving) (key : List ℕ) (digest count error : ℕ)
    → sum_counts (push_slot s key digest count error).slots ≡ sum_counts s.slots + count
unfolding push_slot
pushed-sum s key digest count error = sum_counts-push s.slots (new_slot s key digest count error)

pushed-capacity :
    (s : SpaceSaving) (key : List ℕ) (digest count error : ℕ)
    → (push_slot s key digest count error).capacity ≡ s.capacity
unfolding push_slot
pushed-capacity s key digest count error = refl

pub pushed-Change :
    (s t : SpaceSaving) (key : List ℕ) (digest count error : ℕ)
    → Rearranged (push_slot s key digest count error) t
    → Change s t (length s.slots) 0 key count error
pushed-Change s t key digest count error r =
    let last = newest s key digest count error (length s.slots) refl in
    let off = older s key digest count error in
    record {
      capacity = r.capacity ∙ pushed-capacity s key digest count error;
      size = omega (arith, r.slots, push_slot-slots s key digest count error);
      sum = omega (arith, r.sum, pushed-sum s key digest count error);
      key_here = r.key (length s.slots) ∙ ap (λ x. x.key) last;
      count_here = ap (λ e. e.count) (r.entry (length s.slots)) ∙ ap count_in last;
      error_here = ap (λ e. e.error) (r.entry (length s.slots)) ∙ ap error_in last;
      key_there = λ i h _. r.key i ∙ ap (λ x. x.key) (off i h);
      count_there = λ i h _. ap (λ e. e.count) (r.entry i) ∙ ap count_in (off i h);
      error_there = λ i h _. ap (λ e. e.error) (r.entry i) ∙ ap error_in (off i h);
    }
