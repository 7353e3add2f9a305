-- ===== src/Algos/SpaceSaving/Guarantee/Track.antt =====
-- space_saving.rs: the branches of `add` run without a panic and keep the guarantee.
use mathlib.Core.Path.{subst}
use flowsketch.Base.{
  ℕ, ◌+◌, ◌^◌, ◌≤◌, ◌<◌, ◌≡◌, refl, ap, List, length, some, false, Bool-cases, inl, inr, ltb,
  ltb→lt, lt→ltb, arith,
}
use flowsketch.Base.Word.{add64}
use flowsketch.Algos.SpaceSaving.{SpaceSaving, key_digest}
use flowsketch.Algos.SpaceSaving.Consistent.{Consistent}
use flowsketch.Algos.SpaceSaving.Consistent.Insert.{insert-Consistent}
use flowsketch.Algos.SpaceSaving.Consistent.Step.{
  raise-Consistent, replace_min-Consistent, minimum_count-ok,
}
use flowsketch.Algos.SpaceSaving.Guarantee.{key_of, count_of, Untracked, Approx}
use flowsketch.Algos.SpaceSaving.Guarantee.Change.{raised-Change, replaced-Change, pushed-Change}
use flowsketch.Algos.SpaceSaving.Guarantee.Step.{Branch-Approx}
use flowsketch.Algos.SpaceSaving.Guarantee.Branches.{raised-Branch, pushed-Branch, replaced-Branch}
use flowsketch.Algos.SpaceSaving.Heap.Links.{heap_at, slot_at, count_at, count-le_sum}
use flowsketch.Algos.SpaceSaving.Heap.Up.{root_least}
use flowsketch.Algos.SpaceSaving.Update.{raise, track, push_slot}
use flowsketch.Algos.Truth.{plus}

-- What an update leaves behind.
unfoldable pub Updated : SpaceSaving → SpaceSaving → (List ℕ → ℕ) → ℕ → Type 0
Updated s t f n =
    Consistent t
    × Approx t f n
    × (t.capacity ≡ s.capacity)
    × (t.hash ≡ s.hash)
    × (t.total_weight ≡ s.total_weight)

pub raise-Updated :
    (s : SpaceSaving) (u w : ℕ) (key : List ℕ) (f : List ℕ → ℕ) (n : ℕ)
    → u < length s.slots
    → key_of s u ≡ key
    → n + w < 2 ^ 64
    → Consistent s
    → Approx s f n
    → (t : SpaceSaving) × (raise s u w ≡ some t) × Updated s t (plus f key w) (n + w)
unfolding Updated
raise-Updated s u w key f n h same fits m a =
    let small = count-le_sum s.slots u h in
    let (t, run, m', r) = raise-Consistent s u w h (omega (arith, a.sum)) m in
    let c = raised-Change s t u w h r in
    let a' = Branch-Approx f n (raised-Branch s t u w f n h fits m.indexed a c) a in
    (
      t,
      run,
      (m', subst (λ k. Approx t (plus f k w) (n + w)) same a', r.capacity, r.hash, r.total_weight),
    )

root-Least :
    (s : SpaceSaving) → Consistent s → (i : ℕ) → i < length s.slots → count_at s 0 ≤ count_of s i
root-Least s m i h =
    let place = (slot_at s i).heap_index in
    omega (
      arith,
      root_least (place + 1) s place (omega arith) m.ordered (m.linked.place i h),
      ap (count_of s) (m.linked.there i h),
    )

track_with_room :
    (s : SpaceSaving) (w : ℕ) (key : List ℕ) (f : List ℕ → ℕ) (n : ℕ)
    → length s.slots < s.capacity
    → Untracked s key
    → Consistent s
    → Approx s f n
    → (t : SpaceSaving) × (track s key (key_digest s.hash key) w ≡ some t)
      × Updated s t (plus f key w) (n + w)
unfolding Updated track push_slot
track_with_room s w key f n room fresh m a =
    let digest = key_digest s.hash key in
    let (t, run, m', r) = insert-Consistent s key digest w 0 refl fresh m in
    let c = pushed-Change s t key digest w 0 r in
    let a' = Branch-Approx f n (pushed-Branch s t key w f n room fresh a c) a in
    (
      t,
      rw (lt→ltb (length s.slots) s.capacity room) run,
      (m', a', c.capacity, r.hash, r.total_weight),
    )

track_when_full :
    (s : SpaceSaving) (w : ℕ) (key : List ℕ) (f : List ℕ → ℕ) (n : ℕ)
    → 0 < s.capacity
    → ltb (length s.slots) s.capacity ≡ false
    → n + w < 2 ^ 64
    → Untracked s key
    → Consistent s
    → Approx s f n
    → (t : SpaceSaving) × (track s key (key_digest s.hash key) w ≡ some t)
      × Updated s t (plus f key w) (n + w)
unfolding Updated track
track_when_full s w key f n positive full fits fresh m a =
    let digest = key_digest s.hash key in
    let least = count_at s 0 in
    let used : 0 < length s.min_heap = ground (arith, m.linked.size) in
    let h : heap_at s 0 < length s.slots = m.linked.inside 0 used in
    let small = count-le_sum s.slots (heap_at s 0) h in
    let (t, index, run, m', r) =
      replace_min-Consistent s key digest (add64 least w) least used refl fresh
        (omega (arith, a.sum)) m in
    let c = replaced-Change s t key digest (add64 least w) least index h r in
    let b =
      replaced-Branch s t (heap_at s 0) key w f n h (ground arith) fits fresh (root-Least s m) a
        c in
    (
      t,
      rw (full, minimum_count-ok s key digest 0 0 used m.linked) run,
      (m', Branch-Approx f n b a, r.capacity, r.hash, r.total_weight),
    )

pub track-Updated :
    (s : SpaceSaving) (w : ℕ) (key : List ℕ) (f : List ℕ → ℕ) (n : ℕ)
    → 0 < s.capacity
    → n + w < 2 ^ 64
    → Untracked s key
    → Consistent s
    → Approx s f n
    → (t : SpaceSaving) × (track s key (key_digest s.hash key) w ≡ some t)
      × Updated s t (plus f key w) (n + w)
track-Updated s w key f n positive fits fresh m a =
    elim (Bool-cases (ltb (length s.slots) s.capacity)) [
      | inl e ↦ track_with_room s w key f n (ltb→lt (length s.slots) s.capacity e) fresh m a
      | inr e ↦ track_when_full s w key f n positive e fits fresh m a
    ]
