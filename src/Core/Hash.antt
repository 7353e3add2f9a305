-- ===== src/Core/Hash.antt =====
-- crates/flowsketch-core/src/hash.rs: the seeded hash family `fsk1` (FNV-1a over the bytes, between
-- two SplitMix64 mixers) and the per-row hashes of the sketches with several rows.
pub mod Mixer
pub mod Collisions
use Prim.Native.Nat.{bit_or, bit_xor}
use flowsketch.Base.{ℕ, ◌+◌, ◌-◌, ◌*◌, ◌/◌, ◌%◌, ◌^◌, List, [], ◌∷◌, Bool, ◌==◌, if◌then◌else◌}
use flowsketch.Base.Word.{add64, mul64, xor_shift}
use flowsketch.Base.Int.{ℤ, pos, negsuc}

abbrev pub hash_version : ℕ
hash_version = 2

pub data HashFamily : Type 0 where
  fsk1 : HashFamily

pub record HashSpec : Type 0 where
  pub family : HashFamily
  pub seed : ℕ
  pub version : ℕ

-- `HashSpec::new`
abbrev pub hash_spec : ℕ → HashSpec
hash_spec seed = record { family = fsk1; seed = seed; version = hash_version }

unfoldable pub splitmix64 : ℕ → ℕ
splitmix64 x =
    let a = add64 x 0x9E37_79B9_7F4A_7C15 in
    let b = mul64 (xor_shift 30 a) 0xBF58_476D_1CE4_E5B9 in
    let c = mul64 (xor_shift 27 b) 0x94D0_49BB_1331_11EB in xor_shift 31 c

-- The RNG's state is one word; `next_u64` returns the output and the new state.
pub next_u64 : ℕ → ℕ × ℕ
next_u64 s = let s' = add64 s 0x9E37_79B9_7F4A_7C15 in (splitmix64 s', s')

abbrev pub fnv_offset : ℕ
fnv_offset = 0xCBF2_9CE4_8422_2325

-- One round of the byte loop.
unfoldable pub fnv_step : ℕ → ℕ → ℕ
fnv_step h b = mul64 (bit_xor h b) 0x0000_0100_0000_01B3

unfoldable pub fnv : ℕ → List ℕ → ℕ
fnv h [] = h
fnv h (b ∷ bs) = fnv (fnv_step h b) bs

unfoldable pub hash64 : List ℕ → ℕ → ℕ
unfolding splitmix64 fnv_step fnv
hash64 bytes seed = splitmix64 (fnv (bit_xor fnv_offset (splitmix64 seed)) bytes)

pub record RowHashes : Type 0 where
  pub h1 : ℕ
  pub h2 : ℕ

-- `u64::rotate_left` and `u64::rotate_right`, for 0 < k < 64.
rotate_left : ℕ → ℕ → ℕ
rotate_left x k = x * 2 ^ k % 2 ^ 64 + x / 2 ^ (64 - k)

rotate_right : ℕ → ℕ → ℕ
rotate_right x k = x / 2 ^ k + x * 2 ^ (64 - k) % 2 ^ 64

unfoldable pub row_hashes : HashSpec → List ℕ → RowHashes
unfolding hash64
row_hashes spec key = record {
  h1 = hash64 key spec.seed;
  h2 = bit_or (hash64 key (bit_xor spec.seed 0xA5A5_A5A5_5A5A_5A5A)) 1;
}

-- `row as u32 % 63 + 1`
abbrev turn : ℕ → ℕ
turn row = row % 2 ^ 32 % 63 + 1

unfoldable pub index : RowHashes → ℕ → ℕ → ℕ
unfolding splitmix64 rotate_left
index rh row width =
    let domain = splitmix64 (bit_xor row 0xD6E8_FEB8_6659_FD93) in
    splitmix64 (bit_xor (bit_xor rh.h1 (rotate_left rh.h2 (turn row))) domain) % width

unfoldable pub sign : RowHashes → ℕ → ℤ
unfolding splitmix64 rotate_right
sign rh row =
    let domain = splitmix64 (bit_xor row 0xA409_3822_299F_31D0) in
    let s = splitmix64 (bit_xor (bit_xor rh.h1 (rotate_right rh.h2 (turn row))) domain) in
    if s % 2 == 1 then pos 1 else negsuc 0
