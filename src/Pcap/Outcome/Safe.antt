-- ===== src/Pcap/Outcome/Safe.antt =====
-- Runs that do not panic, and what holds of the values that they return.
use flowsketch.Base.{
  ℕ, zero, suc, ◌+◌, ◌-◌, ◌^◌, ◌<◌, ◌≤◌, ◌≡◌, ◌≢◌, refl, sym, List, [], ◌∷◌, length, take, drop,
  Bool, true, false, ltb, ◌==◌, ◌||◌, if◌then◌else◌, arith, length-take, length-drop,
}
use flowsketch.Base.Bytes.{IsBytes, take-IsBytes, drop-IsBytes}
use flowsketch.Pcap.Outcome.{
  Outcome, panicked, rejected, parsed, ◌>>=◌, ◌>>◌, reject_if, at, slice, slice_from, get_slice,
  array16, sub, checked_sub, checked, be16,
}

parsed_injective : {A : Type 0} {a b : A} → parsed a ≡ parsed b → a ≡ b
parsed_injective e = cc

pub data Safe {A : Type 0} (P : A → Type 0) : Outcome A → Type 0 where
  safe_rejected : Safe P rejected
  safe_parsed : {a : A} → P a → Safe P (parsed a)

module _ {A : Type 0} {Q : A → Type 0} where
  pub bind-Safe :
      {B : Type 0} {P : B → Type 0} (m : Outcome B) (f : B → Outcome A)
      → Safe P m
      → ((b : B) → P b → Safe Q (f b))
      → Safe Q (m >>= f)
  bind-Safe panicked f hm hf = elim hm [ ]
  bind-Safe rejected f safe_rejected hf = safe_rejected
  bind-Safe (parsed b) f (safe_parsed h) hf = hf b h

  pub reject_if-Safe :
      (refused : Bool) (k : Outcome A)
      → (refused ≡ false → Safe Q k)
      → Safe Q (reject_if refused >> k)
  reject_if-Safe true k h = safe_rejected
  reject_if-Safe false k h = h refl

  pub if-Safe :
      (b : Bool) (x y : Outcome A)
      → (b ≡ true → Safe Q x)
      → (b ≡ false → Safe Q y)
      → Safe Q (if b then x else y)
  if-Safe true x y hx hy = hx refl
  if-Safe false x y hx hy = hy refl

  pub Safe-parsed : (m : Outcome A) {a : A} → Safe Q m → m ≡ parsed a → Q a
  Safe-parsed panicked h e = elim h [ ]
  Safe-parsed rejected safe_rejected e = cc
  Safe-parsed (parsed b) (safe_parsed h) e = rw (sym (parsed_injective e)) h

  pub Safe-panicked : (m : Outcome A) → Safe Q m → m ≢ panicked
  Safe-panicked panicked h e = elim h [ ]
  Safe-panicked rejected safe_rejected e = cc
  Safe-panicked (parsed b) (safe_parsed h) e = cc

pub at-Safe : (buf : List ℕ) (i : ℕ) → IsBytes buf → i < length buf → Safe (λ v. v < 256) (at buf i)
at-Safe [] i h hi = absurd (omega arith)
at-Safe (x ∷ xs) zero (hx, h) hi = safe_parsed hx
at-Safe (x ∷ xs) (suc i) (hx, h) hi = at-Safe xs i h (omega arith)

pub be16-Safe :
    (buf : List ℕ) (i : ℕ) → IsBytes buf → i + 1 < length buf → Safe (λ v. v < 2 ^ 16) (be16 buf i)
unfolding be16
be16-Safe buf i h hi = bind-Safe (at buf i) _ (at-Safe buf i h (omega arith)) (λ high h1.
    bind-Safe (at buf (i + 1)) _ (at-Safe buf (i + 1) h hi) (λ low h2. safe_parsed (omega arith)))

-- A slice is a byte string of its length.
abbrev IsSlice : ℕ → List ℕ → Type 0
IsSlice n xs = IsBytes xs × (length xs ≡ n)

take-drop-IsSlice :
    (buf : List ℕ) (first last : ℕ)
    → IsBytes buf
    → last ≤ length buf
    → IsSlice (last - first) (take (last - first) (drop first buf))
take-drop-IsSlice buf first last h hl = (
  take-IsBytes _ _ (drop-IsBytes first buf h),
  omega (arith, length-take (last - first) (drop first buf), length-drop first buf),
)

pub slice-Safe :
    (buf : List ℕ) (first last : ℕ)
    → IsBytes buf
    → first ≤ last
    → last ≤ length buf
    → Safe (IsSlice (last - first)) (slice buf first last)
unfolding slice
slice-Safe buf first last h hf hl =
    if-Safe (ltb last first || ltb (length buf) last) _ _ (λ e. absurd (ground arith))
      (λ e. safe_parsed (take-drop-IsSlice buf first last h hl))

pub get_slice-Safe :
    (buf : List ℕ) (first last : ℕ)
    → IsBytes buf
    → Safe (IsSlice (last - first)) (get_slice buf first last)
unfolding get_slice
get_slice-Safe buf first last h =
    if-Safe (ltb last first || ltb (length buf) last) _ _ (λ e. safe_rejected)
      (λ e. safe_parsed (take-drop-IsSlice buf first last h (ground arith)))

pub slice_from-Safe :
    (buf : List ℕ) (first : ℕ)
    → IsBytes buf
    → first ≤ length buf
    → Safe (IsSlice (length buf - first)) (slice_from buf first)
unfolding slice_from
slice_from-Safe buf first h hf =
    if-Safe (ltb (length buf) first) _ _ (λ e. absurd (ground arith))
      (λ e. safe_parsed (drop-IsBytes first buf h, length-drop first buf))

pub array16-Safe : (xs : List ℕ) → length xs ≡ 16 → Safe (λ ys. ys ≡ xs) (array16 xs)
unfolding array16
array16-Safe xs h =
    if-Safe (length xs == 16) _ _ (λ e. safe_parsed refl) (λ e. absurd (ground arith))

pub sub-Safe : (a b : ℕ) → b ≤ a → Safe (λ d. d ≡ a - b) (sub a b)
unfolding sub
sub-Safe a b h = if-Safe (ltb a b) _ _ (λ e. absurd (ground arith)) (λ e. safe_parsed refl)

pub checked_sub-Safe : (a b : ℕ) → Safe (λ d. d + b ≡ a) (checked_sub a b)
unfolding checked_sub
checked_sub-Safe a b = if-Safe (ltb a b) _ _ (λ e. safe_rejected) (λ e. safe_parsed (ground arith))

pub checked-Safe : (n : ℕ) → Safe (λ m. m ≡ n) (checked n)
unfolding checked
checked-Safe n = if-Safe (ltb n (2 ^ 64)) _ _ (λ e. safe_parsed refl) (λ e. safe_rejected)
