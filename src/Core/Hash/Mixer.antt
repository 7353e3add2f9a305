-- ===== src/Core/Hash/Mixer.antt =====
-- The mixer loses nothing: every step of `splitmix64` has an inverse on 64-bit words.
use flowsketch.Base.{ℕ, ◌-◌, ◌^◌, ◌<◌, ◌≡◌, ap, sym, ◌∙◌, arith}
use flowsketch.Base.Word.{add64, mul64, xor_shift, xor_unshift, xor_shift-lt, xor_unshift-xor_shift}
use flowsketch.Core.Hash.{splitmix64}

pub splitmix64-lt : (x : ℕ) → splitmix64 x < 2 ^ 64
unfolding splitmix64
splitmix64-lt x = xor_shift-lt 31 _ (omega arith)

-- The steps of the mixer, undone in reverse order.
pub unmix64 : ℕ → ℕ
unmix64 y =
    let c = mul64 (xor_unshift 31 y) 0x3196_42B2_D24D_8EC3 in
    let b = mul64 (xor_unshift 27 c) 0x96DE_1B17_3F11_9089 in
    add64 (xor_unshift 30 b) (2 ^ 64 - 0x9E37_79B9_7F4A_7C15)

unmul_first : (x : ℕ) → x < 2 ^ 64 → mul64 (mul64 x 0xBF58_476D_1CE4_E5B9) 0x96DE_1B17_3F11_9089 ≡ x
unmul_first x h = omega arith

unmul_second :
    (x : ℕ) → x < 2 ^ 64 → mul64 (mul64 x 0x94D0_49BB_1331_11EB) 0x3196_42B2_D24D_8EC3 ≡ x
unmul_second x h = omega arith

-- The mixer has an inverse on 64-bit words: undoing its steps gives the input back.
pub unmix64-splitmix64 : (x : ℕ) → x < 2 ^ 64 → unmix64 (splitmix64 x) ≡ x
unfolding splitmix64 unmix64
unmix64-splitmix64 x h =
    let a = add64 x 0x9E37_79B9_7F4A_7C15 in
    let b = mul64 (xor_shift 30 a) 0xBF58_476D_1CE4_E5B9 in
    let c = mul64 (xor_shift 27 b) 0x94D0_49BB_1331_11EB in
    rw
      (
        xor_unshift-xor_shift 31 c (omega arith),
        unmul_second (xor_shift 27 b) (xor_shift-lt 27 b (omega arith)),
        xor_unshift-xor_shift 27 b (omega arith),
        unmul_first (xor_shift 30 a) (xor_shift-lt 30 a (omega arith)),
        xor_unshift-xor_shift 30 a (omega arith),
      )
      (omega arith)

-- The mixer maps different words to different words.
pub splitmix64_injective : (x y : ℕ) → x < 2 ^ 64 → y < 2 ^ 64 → splitmix64 x ≡ splitmix64 y → x ≡ y
splitmix64_injective x y hx hy e =
    sym (unmix64-splitmix64 x hx) ∙ ap unmix64 e ∙ unmix64-splitmix64 y hy
