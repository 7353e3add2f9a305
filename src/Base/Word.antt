-- ===== src/Base/Word.antt =====
-- 64-bit words as native numbers. Rust's release profile wraps `+`, `-` and `*` on `u64` as
-- `wrapping_add`, `wrapping_sub` and `wrapping_mul` do, so one set of definitions serves both.
use Prim.Native.Nat.{ℕ, ◌+◌, ◌-◌, ◌*◌, ◌/◌, ◌%◌, ◌^◌, ◌<◌, bit_xor}
use flowsketch.Base.Bits.{bit_xor-lt, bit_xor-shift, bit_xor_assoc, bit_xor_cancel, bit_xor-zero}
use mathlib.Core.Path.{◌≡◌, sym, ap, ◌≡⟨◌⟩◌, ◌∎}
use native.Mathlib.Nat.{div-le_self}
use native.Mathlib.Omega.{arith}

abbrev pub u64_size : ℕ
u64_size = 2 ^ 64

-- `u64::MAX`
abbrev pub u64_max : ℕ
u64_max = 2 ^ 64 - 1

abbrev pub add64 : ℕ → ℕ → ℕ
add64 a b = (a + b) % 2 ^ 64

abbrev pub mul64 : ℕ → ℕ → ℕ
mul64 a b = (a * b) % 2 ^ 64

-- x ^ (x >> k)
abbrev pub xor_shift : ℕ → ℕ → ℕ
xor_shift k x = bit_xor x (x / 2 ^ k)

-- Its inverse on words of fewer than 3 k bits.
abbrev pub xor_unshift : ℕ → ℕ → ℕ
xor_unshift k y = bit_xor (bit_xor y (y / 2 ^ k)) (y / 2 ^ k / 2 ^ k)

pub xor_shift-lt : (k x : ℕ) → x < 2 ^ 64 → xor_shift k x < 2 ^ 64
xor_shift-lt k x h = bit_xor-lt 64 x (x / 2 ^ k) h (omega (arith, div-le_self x (2 ^ k)))

unfold_chain : (x b c : ℕ) → bit_xor (bit_xor (bit_xor x b) (bit_xor b c)) c ≡ x
unfold_chain x b c =
    bit_xor (bit_xor (bit_xor x b) (bit_xor b c)) c
    ≡⟨ ap (λ z. bit_xor z c) (sym (bit_xor_assoc (bit_xor x b) b c)) ⟩
      bit_xor (bit_xor (bit_xor (bit_xor x b) b) c) c
    ≡⟨ bit_xor_cancel (bit_xor (bit_xor x b) b) c ⟩ bit_xor (bit_xor x b) b
    ≡⟨ bit_xor_cancel x b ⟩ x ∎

pub xor_unshift-xor_shift :
    (k x : ℕ) → x / 2 ^ k / 2 ^ k / 2 ^ k ≡ 0 → xor_unshift k (xor_shift k x) ≡ x
xor_unshift-xor_shift k x h =
    let b = x / 2 ^ k in
    let c = b / 2 ^ k in
    rw (bit_xor-shift k x b, bit_xor-shift k b c, h, bit_xor-zero c) (unfold_chain x b c)
