-- ===== src/Algos/SpaceSaving/Guarantee/Branches.antt =====
-- space_saving.rs: the three branches of `add`.
use flowsketch.Base.{
  ℕ, ◌+◌, ◌^◌, ◌≤◌, ◌<◌, ◌≡◌, ◌≢◌, refl, sym, ap, ◌∙◌, List, length, Bool-cases, inl, inr, arith,
  ℕ_discrete,
}
use flowsketch.Base.Bytes.{bytes_eq, eq_of_bytes_eq}
use flowsketch.Base.Word.{add64}
use flowsketch.Algos.SpaceSaving.{SpaceSaving}
use flowsketch.Algos.SpaceSaving.Consistent.{Indexed}
use flowsketch.Algos.SpaceSaving.Guarantee.{key_of, count_of, error_of, Untracked, Approx}
use flowsketch.Algos.SpaceSaving.Guarantee.Change.{Change}
use flowsketch.Algos.SpaceSaving.Guarantee.Step.{Branch, not_old}
use flowsketch.Algos.SpaceSaving.Heap.Links.{count-le_sum}
use flowsketch.Algos.SpaceSaving.Index.Search.{bytes_ne}

pub raised-Branch :
    (s t : SpaceSaving) (u w : ℕ) (f : List ℕ → ℕ) (n : ℕ)
    → u < length s.slots
    → n + w < 2 ^ 64
    → Indexed s
    → Approx s f n
    → Change s t u (count_of s u) (key_of s u) (add64 (count_of s u) w) (error_of s u)
    → Branch s t u (count_of s u) (key_of s u) (add64 (count_of s u) w) (error_of s u) f w
raised-Branch s t u w f n h fits m a c =
    let small = count-le_sum s.slots u h in
    let plain : add64 (count_of s u) w ≡ count_of s u + w = omega (arith, a.sum) in
    let before : (other : List ℕ) → other ≢ key_of s u → Untracked t other → Untracked s other =
      λ other ne free i hi e. elim (ℕ_discrete u i) [
        | yes same ↦ ne (sym e ∙ ap (key_of s) (sym same))
        | no k ↦ not_old c other free i hi k e
      ] in
    record {
      change = c;
      inside = omega arith;
      fits = omega (arith, c.size, a.size);
      low = omega (arith, a.low u h);
      under = omega (arith, a.under u h);
      over = omega (arith, a.over u h);
      grows = sym plain;
      others = λ i hi ne e. ne (m.distinct u i h hi (sym e));
      untracked = λ other ne free i hi. a.untracked other i (before other ne free) hi;
      untracked_here = λ other ne free. omega (arith, a.untracked other u (before other ne free) h);
      room = λ other ne free k. a.room other (before other ne free) (omega (arith, c.size));
      errors = λ i hi. (a.errors u i h hi, omega (arith, a.errors i u hi h));
      exact = λ k. (a.exact u h (omega (arith, c.size)), omega (arith, c.size));
    }

pub pushed-Branch :
    (s t : SpaceSaving) (key : List ℕ) (w : ℕ) (f : List ℕ → ℕ) (n : ℕ)
    → length s.slots < s.capacity
    → Untracked s key
    → Approx s f n
    → Change s t (length s.slots) 0 key w 0
    → Branch s t (length s.slots) 0 key w 0 f w
pushed-Branch s t key w f n room fresh a c =
    let zero = a.room key fresh room in
    let before : (other : List ℕ) → Untracked t other → Untracked s other =
      λ other free i hi. not_old c other free i hi (omega arith) in
    record {
      change = c;
      inside = omega arith;
      fits = omega (arith, c.size);
      low = omega arith;
      under = omega arith;
      over = omega (arith, zero);
      grows = omega arith;
      others = λ i hi ne. fresh i hi;
      untracked = λ other ne free i hi. a.untracked other i (before other free) hi;
      untracked_here = λ other ne free. omega (arith, a.room other (before other free) room);
      room = λ other ne free k. a.room other (before other free) room;
      errors = λ i hi. (omega arith, omega (arith, a.exact i hi room));
      exact = λ k. (refl, room);
    }

pub replaced-Branch :
    (s t : SpaceSaving) (u : ℕ) (key : List ℕ) (w : ℕ) (f : List ℕ → ℕ) (n : ℕ)
    → u < length s.slots
    → ¬ (length s.slots < s.capacity)
    → n + w < 2 ^ 64
    → Untracked s key
    → ((i : ℕ) → i < length s.slots → count_of s u ≤ count_of s i)
    → Approx s f n
    → Change s t u (count_of s u) key (add64 (count_of s u) w) (count_of s u)
    → Branch s t u (count_of s u) key (add64 (count_of s u) w) (count_of s u) f w
replaced-Branch s t u key w f n h full fits fresh least a c =
    let small = count-le_sum s.slots u h in
    let plain : add64 (count_of s u) w ≡ count_of s u + w = omega (arith, a.sum) in
    let bound : (other : List ℕ) → Untracked t other → f other ≤ count_of s u = λ other free.
      elim (Bool-cases (bytes_eq (key_of s u) other)) [
        | inl e ↦ omega (arith, a.over u h, ap f (eq_of_bytes_eq (key_of s u) other e))
        | inr e ↦
            a.untracked other u
              (λ i hi same. elim (ℕ_discrete u i) [
                | yes k ↦ bytes_ne (key_of s u) other e (ap (key_of s) k ∙ same)
                | no k ↦ not_old c other free i hi k same
              ])
              h
      ] in
    record {
      change = c;
      inside = omega arith;
      fits = omega (arith, c.size, a.size);
      low = omega arith;
      under = omega arith;
      over = omega (arith, a.untracked key u fresh h);
      grows = sym plain;
      others = λ i hi ne. fresh i hi;
      untracked = λ other ne free i hi. omega (arith, bound other free, least i hi);
      untracked_here = λ other ne free. omega (arith, bound other free);
      room = λ other ne free k. absurd (full (omega (arith, c.size)));
      errors = λ i hi. (least i hi, omega (arith, a.errors i u hi h));
      exact = λ k. absurd (full (omega (arith, c.size)));
    }
