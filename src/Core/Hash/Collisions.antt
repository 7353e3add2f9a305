-- ===== src/Core/Hash/Collisions.antt =====
-- Where `hash64` cannot collide: its bytes enter one at a time through invertible steps.
use flowsketch.Base.Bytes.{IsBytes}
use Prim.Native.Nat.{bit_xor}
use flowsketch.Base.Bits.{bit_xor-lt, bit_xor_cancel, bit_xor_cancel_left}
use flowsketch.Base.Word.{mul64}
use flowsketch.Base.{ℕ, ◌<◌, ◌^◌, ◌≡◌, ◌≢◌, refl, sym, ap, ◌∙◌, List, [], ◌∷◌, ◌++◌, arith}
use flowsketch.Core.Hash.Mixer.{splitmix64-lt, splitmix64_injective}
use flowsketch.Core.Hash.{
  splitmix64, fnv_step, fnv, fnv_offset, hash64, row_hashes, index, HashSpec,
}

pub hash64-lt : (bytes : List ℕ) (seed : ℕ) → hash64 bytes seed < 2 ^ 64
unfolding hash64
hash64-lt bytes seed = splitmix64-lt _

pub index-lt :
    (spec : HashSpec) (key : List ℕ) (row width : ℕ)
    → 0 < width
    → index (row_hashes spec key) row width < width
unfolding index
index-lt spec key row width h = omega arith

unprime : (x : ℕ) → x < 2 ^ 64 → mul64 (mul64 x 0x0000_0100_0000_01B3) 0xCE96_5057_AFF6_957B ≡ x
unprime x h = omega arith

fnv_step-lt : (h b : ℕ) → fnv_step h b < 2 ^ 64
unfolding fnv_step
fnv_step-lt h b = omega arith

fnv_step-xor :
    (h g a b : ℕ)
    → h < 2 ^ 64
    → g < 2 ^ 64
    → a < 256
    → b < 256
    → fnv_step h a ≡ fnv_step g b
    → bit_xor h a ≡ bit_xor g b
unfolding fnv_step
fnv_step-xor h g a b hh hg ha hb e =
    sym (unprime (bit_xor h a) (bit_xor-lt 64 h a hh (omega arith)))
    ∙ ap (λ x. mul64 x 0xCE96_5057_AFF6_957B) e
    ∙ unprime (bit_xor g b) (bit_xor-lt 64 g b hg (omega arith))

fnv_step_injective :
    (h g b : ℕ) → h < 2 ^ 64 → g < 2 ^ 64 → b < 256 → fnv_step h b ≡ fnv_step g b → h ≡ g
fnv_step_injective h g b hh hg hb e =
    sym (bit_xor_cancel h b)
    ∙ ap (λ x. bit_xor x b) (fnv_step-xor h g b b hh hg hb hb e)
    ∙ bit_xor_cancel g b

fnv_step_byte : (h a b : ℕ) → h < 2 ^ 64 → a < 256 → b < 256 → fnv_step h a ≡ fnv_step h b → a ≡ b
fnv_step_byte h a b hh ha hb e =
    sym (bit_xor_cancel_left h a)
    ∙ ap (bit_xor h) (fnv_step-xor h h a b hh hh ha hb e)
    ∙ bit_xor_cancel_left h b

fnv-lt : (h : ℕ) (bs : List ℕ) → h < 2 ^ 64 → fnv h bs < 2 ^ 64
unfolding fnv
fnv-lt h [] p = p
fnv-lt h (b ∷ bs) p = fnv-lt (fnv_step h b) bs (fnv_step-lt h b)

fnv_injective :
    (bs : List ℕ) (h g : ℕ) → IsBytes bs → h < 2 ^ 64 → g < 2 ^ 64 → fnv h bs ≡ fnv g bs → h ≡ g
unfolding fnv
fnv_injective [] h g q hh hg e = e
fnv_injective (b ∷ bs) h g q hh hg e =
    fnv_step_injective h g b hh hg q.0
      (fnv_injective bs (fnv_step h b) (fnv_step g b) q.1 (fnv_step-lt h b) (fnv_step-lt g b) e)

fnv-append : (cs bs : List ℕ) (h : ℕ) → fnv h (cs ++ bs) ≡ fnv (fnv h cs) bs
unfolding fnv
fnv-append [] bs h = refl
fnv-append (c ∷ cs) bs h = fnv-append cs bs (fnv_step h c)

start-lt : (seed : ℕ) → bit_xor fnv_offset (splitmix64 seed) < 2 ^ 64
start-lt seed = bit_xor-lt 64 fnv_offset (splitmix64 seed) (omega arith) (splitmix64-lt seed)

-- Two keys of one length that differ in exactly one byte have different hashes, under every seed.
pub hash64_one_byte :
    (front back : List ℕ) (a b seed : ℕ)
    → IsBytes back
    → a < 256
    → b < 256
    → a ≢ b
    → hash64 (front ++ a ∷ back) seed ≢ hash64 (front ++ b ∷ back) seed
unfolding hash64 fnv
hash64_one_byte front back a b seed q ha hb ne e =
    let s = bit_xor fnv_offset (splitmix64 seed) in
    let h = fnv s front in
    let hh : h < 2 ^ 64 = fnv-lt s front (start-lt seed) in
    let same : fnv s (front ++ a ∷ back) ≡ fnv s (front ++ b ∷ back) =
      splitmix64_injective _ _ (fnv-lt s (front ++ a ∷ back) (start-lt seed))
        (fnv-lt s (front ++ b ∷ back) (start-lt seed)) e in
    let split : fnv (fnv_step h a) back ≡ fnv (fnv_step h b) back =
      sym (fnv-append front (a ∷ back) s) ∙ same ∙ fnv-append front (b ∷ back) s in
    ne (
      fnv_step_byte h a b hh ha hb (
        fnv_injective back (fnv_step h a) (fnv_step h b) q (fnv_step-lt h a) (fnv_step-lt h b)
          split))

-- One key has different hashes under two different 64-bit seeds.
pub hash64_seeds :
    (key : List ℕ) (s t : ℕ)
    → IsBytes key
    → s < 2 ^ 64
    → t < 2 ^ 64
    → s ≢ t
    → hash64 key s ≢ hash64 key t
unfolding hash64
hash64_seeds key s t q hs ht ne e =
    let u = bit_xor fnv_offset (splitmix64 s) in
    let v = bit_xor fnv_offset (splitmix64 t) in
    let same : fnv u key ≡ fnv v key =
      splitmix64_injective _ _ (fnv-lt u key (start-lt s)) (fnv-lt v key (start-lt t)) e in
    let mixed : u ≡ v = fnv_injective key u v q (start-lt s) (start-lt t) same in
    ne (
      splitmix64_injective s t hs ht (
        sym (bit_xor_cancel_left fnv_offset (splitmix64 s))
        ∙ ap (bit_xor fnv_offset) mixed
        ∙ bit_xor_cancel_left fnv_offset (splitmix64 t)))
