-- ===== src/Core/Wire.antt =====
-- crates/flowsketch-core/src/snapshot.rs, `Writer` and `Reader`: little-endian fields over bytes.
-- A writer is the bytes that it holds. A reading operation takes the reader and returns its result
-- with the reader moved on, or the error; a reader is not used again after an error.
pub mod Laws
pub mod Ends
use Prim.Native.String.{String}
use flowsketch.Base.Bytes.{le_bytes, from_le}
use flowsketch.Base.{
  ◌==◌, ℕ, zero, suc, ◌+◌, ◌-◌, ◌*◌, ◌/◌, ◌%◌, ◌^◌, List, [], ◌∷◌, ◌++◌, length, take as list_take,
  drop, Bool, true, false, ltb, if◌then◌else◌, max,
}
use flowsketch.Core.Error.{SketchError, snapshot, Result, ok, err}

abbrev pub Writer : Type 0
Writer = List ℕ

unfoldable pub put_u8 : ℕ → Writer → Writer
put_u8 v w = w ++ le_bytes 1 v

unfoldable pub put_u16 : ℕ → Writer → Writer
put_u16 v w = w ++ le_bytes 2 v

unfoldable pub put_u32 : ℕ → Writer → Writer
put_u32 v w = w ++ le_bytes 4 v

unfoldable pub put_u64 : ℕ → Writer → Writer
put_u64 v w = w ++ le_bytes 8 v

unfoldable pub put_bytes : List ℕ → Writer → Writer
put_bytes v w = w ++ v

unfoldable pub put_lp_bytes : List ℕ → Writer → Writer
unfolding put_u32 put_bytes
put_lp_bytes v w = put_bytes v (put_u32 (length v) w)

pub record Reader : Type 0 where
  pub buf : List ℕ
  pub pos : ℕ

abbrev pub M : Type 0 → Type 0
M A = Reader → Result (A × Reader)

infixl 5 ◌>>=◌ ◌>>◌
abbrev pub ◌>>=◌ : {A B : Type 0} → M A → (A → M B) → M B
◌>>=◌ m f r = elim (m r) [ ok (a, r') ↦ f a r' | err e ↦ err e ]

abbrev pub ◌>>◌ : {B : Type 0} → M (Unit {0}) → M B → M B
m >> k = m >>= λ _. k

abbrev pub return : {A : Type 0} → A → M A
return a r = ok (a, r)

-- `if refused { return Err(SketchError::Snapshot(message)); }`
abbrev pub refuse_if : Bool → String → M (Unit {0})
refuse_if true message r = err (snapshot message)
refuse_if false message r = ok (tt, r)

unfoldable pub remaining : Reader → ℕ
remaining r = length r.buf - r.pos

unfoldable pub take : ℕ → M (List ℕ)
unfolding remaining
take n r =
    if ltb (remaining r) n
    then err (snapshot "unexpected end of snapshot")
    else ok (list_take n (drop r.pos r.buf), record r { pos = r.pos + n })

unfoldable pub u8 : M ℕ
unfolding take
u8 = do bs ← take 1; return (from_le bs)

unfoldable pub u16 : M ℕ
unfolding take
u16 = do bs ← take 2; return (from_le bs)

unfoldable pub u32 : M ℕ
unfolding take
u32 = do bs ← take 4; return (from_le bs)

unfoldable pub u64 : M ℕ
unfolding take
u64 = do bs ← take 8; return (from_le bs)

unfoldable pub lp_bytes : M (List ℕ)
unfolding u32
lp_bytes = do n ← u32; take n

-- A declared count of elements against the bytes that are left.
unfoldable pub check_count : ℕ → ℕ → M (Unit {0})
unfolding remaining
check_count count min_bytes_each r =
    if ltb (remaining r / max min_bytes_each 1) count
    then err (snapshot "declared count cannot fit in the bytes remaining")
    else ok (tt, r)

-- `for _ in 0..n { v.push(read()?) }`
unfoldable pub repeat : {A : Type 0} → ℕ → M A → M (List A)
repeat zero m = return []
repeat (suc n) m = do x ← m; xs ← repeat n m; return (x ∷ xs)

-- The value that a parser leaves, with the reader dropped.
abbrev pub run : {A : Type 0} → M A → List ℕ → Result A
run m bytes = elim (m (record { buf = bytes; pos = 0 })) [ ok (a, r) ↦ ok a | err e ↦ err e ]

-- `run`, and then `if r.remaining() != 0 { return Err(…) }`.
unfoldable pub run_whole : {A : Type 0} → String → M A → List ℕ → Result A
unfolding remaining
run_whole message m bytes = elim (m (record { buf = bytes; pos = 0 })) [
  | ok (a, r) ↦ if remaining r == 0 then ok a else err (snapshot message)
  | err e ↦ err e
]
