-- ===== src/Algos/SpaceSaving/Guarantee.antt =====
-- space_saving.rs: what a summary promises of the stream that it has read.
pub mod Change
pub mod Step
pub mod Branches
pub mod Track
pub mod Stream
pub mod Whole
use flowsketch.Base.{ℕ, ◌+◌, ◌*◌, ◌≤◌, ◌<◌, ◌≡◌, ◌≢◌, List, length}
use flowsketch.Algos.SpaceSaving.{SpaceSaving}
use flowsketch.Algos.SpaceSaving.Consistent.{Consistent}
use flowsketch.Algos.SpaceSaving.Heap.Links.{slot_at, sum_counts}

abbrev pub key_of : SpaceSaving → ℕ → List ℕ
key_of s t = (slot_at s t).key

abbrev pub count_of : SpaceSaving → ℕ → ℕ
count_of s t = (slot_at s t).entry.count

abbrev pub error_of : SpaceSaving → ℕ → ℕ
error_of s t = (slot_at s t).entry.error

abbrev pub Untracked : SpaceSaving → List ℕ → Type 0
Untracked s key = (t : ℕ) → t < length s.slots → key_of s t ≢ key

-- The slots of a summary against the weights `f` of a stream of weight `n`.
pub record Approx (s : SpaceSaving) (f : List ℕ → ℕ) (n : ℕ) : Type 0 where
  pub size : length s.slots ≤ s.capacity
  pub sum : sum_counts s.slots ≡ n
  pub low : (t : ℕ) → t < length s.slots → error_of s t ≤ count_of s t
  pub under : (t : ℕ) → t < length s.slots → count_of s t ≤ f (key_of s t) + error_of s t
  pub over : (t : ℕ) → t < length s.slots → f (key_of s t) ≤ count_of s t
  pub untracked :
      (key : List ℕ) (t : ℕ) → Untracked s key → t < length s.slots → f key ≤ count_of s t
  pub room : (key : List ℕ) → Untracked s key → length s.slots < s.capacity → f key ≡ 0
  pub errors : (t u : ℕ) → t < length s.slots → u < length s.slots → error_of s t ≤ count_of s u
  pub exact : (t : ℕ) → t < length s.slots → length s.slots < s.capacity → error_of s t ≡ 0
