-- ===== src/Core/Snapshot/Damage.antt =====
-- The checksum finds damage: one changed byte never goes unnoticed.
use flowsketch.Base.Bytes.{from_le, take-append_length, drop-append_length}
use flowsketch.Base.{ℕ, ◌≤◌, ◌<◌, ◌≡◌, ◌≢◌, List, ◌∷◌, ◌++◌, length, length-append, arith, ◌∙◌, sym}
use flowsketch.Core.Error.{ok, err, snapshot}
use flowsketch.Core.Hash.Collisions.{hash64_one_byte}
use flowsketch.Base.Bytes.{IsBytes}
use flowsketch.Core.Hash.{hash64}
use flowsketch.Core.Snapshot.{read_snapshot, Parts}

-- An accepted snapshot carries the checksum of its body.
pub accepted_sum :
    (body tail : List ℕ) {x : Parts}
    → length tail ≡ 8
    → read_snapshot (body ++ tail) ≡ ok x
    → hash64 body 0 ≡ from_le tail
unfolding read_snapshot
accepted_sum body tail e h =
    ground
      (arith, length-append body tail, take-append_length body tail, drop-append_length body tail)

long_enough :
    (body tail : List ℕ) {x : Parts}
    → read_snapshot (body ++ tail) ≡ ok x
    → 51 ≤ length (body ++ tail)
unfolding read_snapshot
long_enough body tail h = ground arith

-- A body under a checksum that is not its own is refused.
wrong_sum :
    (body tail : List ℕ)
    → length tail ≡ 8
    → 51 ≤ length (body ++ tail)
    → hash64 body 0 ≢ from_le tail
    → read_snapshot (body ++ tail) ≡ err (snapshot "checksum mismatch")
unfolding read_snapshot
wrong_sum body tail e long ne =
    ground
      (arith, length-append body tail, take-append_length body tail, drop-append_length body tail)

length_swap :
    (front back : List ℕ) (a b : ℕ) → length (front ++ a ∷ back) ≡ length (front ++ b ∷ back)
length_swap front back a b =
    omega (arith, length-append front (a ∷ back), length-append front (b ∷ back))

-- If a snapshot is accepted and one byte before its checksum is replaced by another byte, the
-- result is refused with the checksum error.
pub read_snapshot_one_byte :
    (front back tail : List ℕ) (a b : ℕ) {x : Parts}
    → IsBytes back
    → a < 256
    → b < 256
    → a ≢ b
    → length tail ≡ 8
    → read_snapshot ((front ++ a ∷ back) ++ tail) ≡ ok x
    → read_snapshot ((front ++ b ∷ back) ++ tail) ≡ err (snapshot "checksum mismatch")
read_snapshot_one_byte front back tail a b bytes ha hb ne eight accepted =
    wrong_sum (front ++ b ∷ back) tail eight
      (omega (
        arith,
        long_enough (front ++ a ∷ back) tail accepted,
        length-append (front ++ a ∷ back) tail,
        length-append (front ++ b ∷ back) tail,
        length_swap front back a b,
      ))
      (λ e.
        hash64_one_byte front back a b 0 bytes ha hb ne
          (accepted_sum (front ++ a ∷ back) tail eight accepted ∙ sym e))
