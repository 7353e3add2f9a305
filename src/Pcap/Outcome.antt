-- ===== src/Pcap/Outcome.antt =====
-- The result of a Rust function that returns an `Option` and that may panic: indexing and slicing out of
-- bounds, a failed `unwrap`, and a subtraction below 0 are the panics.
pub mod Safe
pub mod Below
use flowsketch.Base.{
  ℕ, zero, suc, ◌+◌, ◌-◌, ◌*◌, ◌^◌, List, [], ◌∷◌, length, take, drop, Bool, true, false, ltb, ◌==◌,
  not, ◌||◌, if◌then◌else◌,
}

pub data Outcome (A : Type 0) : Type 0 where
  panicked : Outcome A
  rejected : Outcome A
  parsed : A → Outcome A

infixl 5 ◌>>=◌ ◌>>◌
abbrev pub ◌>>=◌ : {A B : Type 0} → Outcome A → (A → Outcome B) → Outcome B
panicked >>= f = panicked
rejected >>= f = rejected
parsed a >>= f = f a

abbrev pub ◌>>◌ : {B : Type 0} → Outcome (Unit {0}) → Outcome B → Outcome B
m >> k = m >>= λ _. k

-- `if refused { return None; }`
abbrev pub reject_if : Bool → Outcome (Unit {0})
reject_if true = rejected
reject_if false = parsed tt

-- `data[i]`
abbrev pub at : List ℕ → ℕ → Outcome ℕ
at [] i = panicked
at (x ∷ xs) zero = parsed x
at (x ∷ xs) (suc i) = at xs i

-- `&data[first..last]`
unfoldable pub slice : List ℕ → ℕ → ℕ → Outcome (List ℕ)
slice buf first last =
    if ltb last first || ltb (length buf) last
    then panicked
    else parsed (take (last - first) (drop first buf))

-- `&data[first..]`
unfoldable pub slice_from : List ℕ → ℕ → Outcome (List ℕ)
slice_from buf first = if ltb (length buf) first then panicked else parsed (drop first buf)

-- `data.get(first..last)?`
unfoldable pub get_slice : List ℕ → ℕ → ℕ → Outcome (List ℕ)
get_slice buf first last =
    if ltb last first || ltb (length buf) last
    then rejected
    else parsed (take (last - first) (drop first buf))

-- `<[u8; 16]>::try_from(xs).unwrap()`
unfoldable pub array16 : List ℕ → Outcome (List ℕ)
array16 xs = if length xs == 16 then parsed xs else panicked

-- `a - b`
unfoldable pub sub : ℕ → ℕ → Outcome ℕ
sub a b = if ltb a b then panicked else parsed (a - b)

-- `a.checked_sub(b)?`
unfoldable pub checked_sub : ℕ → ℕ → Outcome ℕ
checked_sub a b = if ltb a b then rejected else parsed (a - b)

-- `checked_add` and `checked_mul` on a 64-bit `usize`: the result, unless it leaves the range.
unfoldable pub checked : ℕ → Outcome ℕ
checked n = if ltb n (2 ^ 64) then parsed n else rejected

-- `u16::from_be_bytes([data[i], data[i + 1]])`
unfoldable pub be16 : List ℕ → ℕ → Outcome ℕ
be16 buf i = do high ← at buf i; low ← at buf (i + 1); parsed (256 * high + low)
