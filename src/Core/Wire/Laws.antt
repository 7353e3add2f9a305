-- ===== src/Core/Wire/Laws.antt =====
-- Parsers against the bytes that they consume: `Reads m xs a` is kept by every combinator, so a
-- decoder is proved by following its encoder field by field.
use Prim.Native.String.{String}
use flowsketch.Base.Bytes.{
  le_bytes, from_le, length-le_bytes, from_le-le_bytes, take-append_length, drop-append_length,
}
use flowsketch.Base.{
  ℕ, zero, suc, ◌+◌, ◌*◌, ◌/◌, ◌^◌, ◌≤◌, ◌<◌, ◌≡◌, refl, ap, sym, ◌∙◌, List, [], ◌∷◌, ◌++◌, length,
  drop, length-drop, length-append, Bool, true, false, arith, max, ltb, ◌==◌,
}
use native.Mathlib.Nat.{zero-add, suc-add, le-div_iff_mul-le}
use mathlib.Core.List.{append_assoc, append-nil}
use flowsketch.Core.Error.{ok}
use flowsketch.Core.Wire.{
  Reader, M, ◌>>=◌, ◌>>◌, return, refuse_if, remaining, take, u8, u16, u32, u64, lp_bytes,
  check_count, repeat, run, run_whole,
}

-- The reader stands before `rest`.
pub record At (r : Reader) (rest : List ℕ) : Type 0 where
  pub left : drop r.pos r.buf ≡ rest
  pub inside : r.pos ≤ length r.buf

-- The parser consumes exactly `xs` and returns `a`, whatever follows.
abbrev pub Reads : {A : Type 0} → M A → List ℕ → A → Type 0
Reads {A} m xs a =
    (r : Reader) (rest : List ℕ)
    → At r (xs ++ rest)
    → (r' : Reader) × (m r ≡ ok (a, r')) × At r' rest

pub remaining-At : {r : Reader} (rest : List ℕ) → At r rest → remaining r ≡ length rest
unfolding remaining
remaining-At {r} rest h = sym (length-drop r.pos r.buf) ∙ ap length h.left

drop-drop : (n m : ℕ) (xs : List ℕ) → drop (n + m) xs ≡ drop m (drop n xs)
drop-drop zero m xs = rw zero-add
drop-drop (suc n) zero [] = rw suc-add
drop-drop (suc n) (suc m) [] = rw suc-add
drop-drop (suc n) m (x ∷ xs) = rw suc-add (drop-drop n m xs)

abbrev moved : Reader → ℕ → Reader
moved r n = record r { pos = r.pos + n }

moved-At : (xs rest : List ℕ) (r : Reader) → At r (xs ++ rest) → At (moved r (length xs)) rest
moved-At xs rest r h = record {
  left =
      drop-drop r.pos (length xs) r.buf ∙ ap (drop (length xs)) h.left ∙ drop-append_length xs rest;
  inside =
      omega (arith, length-drop r.pos r.buf, ap length h.left, length-append xs rest, h.inside);
}

pub take-Reads : (xs : List ℕ) → Reads (take (length xs)) xs xs
unfolding take
take-Reads xs r rest h =
    let fits : ltb (remaining r) (length xs) ≡ false =
      ground (arith, remaining-At (xs ++ rest) h, length-append xs rest) in
    (moved r (length xs), rw (fits, h.left, take-append_length xs rest), moved-At xs rest r h)

module _ {A B : Type 0} where
  pub bind-Reads :
      (m : M A) (f : A → M B) (xs ys : List ℕ) (a : A) (b : B)
      → Reads m xs a
      → Reads (f a) ys b
      → Reads (m >>= f) (xs ++ ys) b
  bind-Reads m f xs ys a b p q r rest h =
      let (r', run, here) = p r (ys ++ rest) (rw append_assoc at h) in
      let (r'', run', there) = q r' rest here in (r'', rw (run, ◌>>=◌) run', there)

pub return-Reads : {A : Type 0} (a : A) → Reads (return a) [] a
return-Reads a r rest h = (r, refl, h)

-- A check that does not refuse.
pub pass-Reads :
    {A : Type 0} (refused : Bool) (message : String) (m : M A) (xs : List ℕ) (a : A)
    → refused ≡ false
    → Reads m xs a
    → Reads (refuse_if refused message >> m) xs a
pass-Reads refused message m xs a e p r rest h = rw (e, refuse_if, ◌>>=◌) (p r rest h)

pub take_n-Reads : (n : ℕ) (xs : List ℕ) → length xs ≡ n → Reads (take n) xs xs
take_n-Reads n xs e = rw (← e) (take-Reads xs)

-- A field of n bytes reads back the number that was written.
word_Reads : (n v : ℕ) → v < 256 ^ n → Reads (take n >>= λ bs. return (from_le bs)) (le_bytes n v) v
word_Reads n v h r rest here =
    let (r', run, there) = take_n-Reads n (le_bytes n v) (length-le_bytes n v) r rest here in
    (r', rw (run, ◌>>=◌, from_le-le_bytes n v h), there)

pub u8-Reads : (v : ℕ) → v < 256 → Reads u8 (le_bytes 1 v) v
unfolding u8
u8-Reads v h = word_Reads 1 v h

pub u16-Reads : (v : ℕ) → v < 2 ^ 16 → Reads u16 (le_bytes 2 v) v
unfolding u16
u16-Reads v h = word_Reads 2 v h

pub u32-Reads : (v : ℕ) → v < 2 ^ 32 → Reads u32 (le_bytes 4 v) v
unfolding u32
u32-Reads v h = word_Reads 4 v h

pub u64-Reads : (v : ℕ) → v < 2 ^ 64 → Reads u64 (le_bytes 8 v) v
unfolding u64
u64-Reads v h = word_Reads 8 v h

pub lp_bytes-Reads :
    (xs : List ℕ) → length xs < 2 ^ 32 → Reads lp_bytes (le_bytes 4 (length xs) ++ xs) xs
unfolding lp_bytes
lp_bytes-Reads xs h =
    bind-Reads u32 take (le_bytes 4 (length xs)) xs (length xs) xs (u32-Reads (length xs) h)
      (take-Reads xs)

-- The declared count is accepted where the bytes of all the elements are there.
pub check_count-ok :
    (count each : ℕ) (r : Reader) (rest : List ℕ)
    → 0 < each
    → At r rest
    → count * each ≤ length rest
    → check_count count each r ≡ ok (tt, r)
unfolding check_count
check_count-ok count each r rest pos h fits =
    let e : max each 1 ≡ each = omega arith in
    let enough : count ≤ remaining r / max each 1 =
      rw e ((le-div_iff_mul-le pos).1 (omega (arith, remaining-At rest h))) in
    ground arith

-- The bytes of a list of elements, one after another.
unfoldable pub encode_all : {A : Type 0} → (A → List ℕ) → List A → List ℕ
encode_all enc [] = []
encode_all enc (x ∷ xs) = enc x ++ encode_all enc xs

abbrev pub All {ℓ κ} : {A : Type ℓ} → (A → Type κ) → List A → Type κ
All P [] = Unit
All P (x ∷ xs) = P x × All P xs

pub repeat-Reads :
    {A : Type 0} (m : M A) (enc : A → List ℕ) (P : A → Type 0)
    → ((a : A) → P a → Reads m (enc a) a)
    → (xs : List A) → All P xs
    → Reads (repeat (length xs) m) (encode_all enc xs) xs
unfolding repeat encode_all
repeat-Reads m enc P each [] h r rest here = (r, refl, here)
repeat-Reads m enc P each (x ∷ xs) h r rest here =
    let (r', run, next) = each x h.0 r (encode_all enc xs ++ rest) (rw append_assoc at here) in
    let (r'', run', there) = repeat-Reads m enc P each xs h.1 r' rest next in
    (r'', rw (run, ◌>>=◌, run', ◌>>=◌), there)

-- A counted list: the count is checked against the bytes left before the elements are read.
pub counted-Reads :
    {A : Type 0} (m : M A) (enc : A → List ℕ) (P : A → Type 0) (each : ℕ)
    → 0 < each
    → ((a : A) → P a → Reads m (enc a) a)
    → ((a : A) → each ≤ length (enc a))
    → (xs : List A) → All P xs
    → Reads (check_count (length xs) each >> repeat (length xs) m) (encode_all enc xs) xs
unfolding encode_all
counted-Reads {A} m enc P each pos reads wide xs h r rest here =
    rw (check_count-ok (length xs) each r (encode_all enc xs ++ rest) pos here room, ◌>>=◌)
      (repeat-Reads m enc P reads xs h r rest here)
  where
    total : (ys : List A) → length ys * each ≤ length (encode_all enc ys)
    total [] = omega arith
    total (y ∷ ys) = omega (arith, total ys, wide y, length-append (enc y) (encode_all enc ys))

    room : length xs * each ≤ length (encode_all enc xs ++ rest)
    room = omega (arith, length-append (encode_all enc xs) rest, total xs)

-- A parser that runs on its bytes alone.
pub run-Reads : {A : Type 0} (m : M A) (xs : List ℕ) (a : A) → Reads m xs a → run m xs ≡ ok a
run-Reads m xs a p =
    let (r, e, _) =
      p (record { buf = xs; pos = 0 }) []
        (record { left = sym (append-nil xs); inside = omega arith }) in
    rw (e, run)

-- A parser that consumes all of its bytes.
pub run_whole-Reads :
    {A : Type 0} (message : String) (m : M A) (xs : List ℕ) (a : A)
    → Reads m xs a
    → run_whole message m xs ≡ ok a
unfolding run_whole
run_whole-Reads message m xs a p =
    let (r, e, there) =
      p (record { buf = xs; pos = 0 }) []
        (record { left = sym (append-nil xs); inside = omega arith }) in
    let over : (remaining r == 0) ≡ true = ground (arith, remaining-At [] there) in
    rw (e, over, run_whole) refl

-- A last step that only reshapes the value.
pub reshape-Reads :
    {A B : Type 0} (m : M A) (f : A → B) (xs : List ℕ) (a : A)
    → Reads m xs a
    → Reads (m >>= λ a. return (f a)) xs (f a)
reshape-Reads m f xs a p r rest h =
    let (r', run, there) = p r rest h in (r', rw (run, ◌>>=◌) refl, there)

-- A count that the bytes of the element parser can hold.
pub checked-Reads :
    {A : Type 0} (count each : ℕ) (m : M A) (xs : List ℕ) (a : A)
    → 0 < each
    → count * each ≤ length xs
    → Reads m xs a
    → Reads (check_count count each >> m) xs a
checked-Reads count each m xs a pos room p r rest h =
    rw
      (
        check_count-ok count each r (xs ++ rest) pos h (omega (arith, room, length-append xs rest)),
        ◌>>=◌,
      )
      (p r rest h)
