-- ===== src/Core/Snapshot.antt =====
-- crates/flowsketch-core/src/snapshot.rs: the `FSK1` container around a sketch's parameters and
-- payload, closed by a checksum of everything before it.
pub mod RoundTrip
pub mod Damage
pub mod AlgorithmId
use flowsketch.Base.Bytes.{bytes_eq, from_le}
use flowsketch.Base.{
  ℕ, ◌+◌, ◌-◌, ◌*◌, ◌/◌, ◌%◌, ◌^◌, List, [], ◌∷◌, length, take as list_take, drop, Bool, not, ltb,
  ◌==◌, if◌then◌else◌,
}
use flowsketch.Core.Error.{SketchError, snapshot, Result, ok, err}
use flowsketch.Core.Hash.{HashFamily, fsk1, HashSpec, hash64}
use flowsketch.Core.Wire.{
  Writer, put_u8, put_u16, put_u32, put_u64, put_bytes, M, ◌>>=◌, ◌>>◌, return, refuse_if, take, u8,
  u16, u32, u64, run,
}

-- b"FSK1"
abbrev pub magic : List ℕ
magic = b'F' ∷ b'S' ∷ b'K' ∷ b'1' ∷ []

abbrev pub snapshot_version : ℕ
snapshot_version = 2

pub record SnapshotHeader : Type 0 where
  pub version : ℕ
  pub algorithm_id : ℕ
  pub hash : HashSpec
  pub window_start_nanos : ℕ
  pub window_end_nanos : ℕ

unfoldable pub family_id : HashFamily → ℕ
family_id fsk1 = 0

-- Everything before the checksum.
unfoldable pub write_body : SnapshotHeader → List ℕ → List ℕ → Writer
unfolding family_id
write_body header params payload =
    let w = put_bytes magic [] in
    let w = put_u16 header.version w in
    let w = put_u16 header.algorithm_id w in
    let w = put_u8 (family_id header.hash.family) w in
    let w = put_u64 header.hash.seed w in
    let w = put_u16 header.hash.version w in
    let w = put_u64 header.window_start_nanos w in
    let w = put_u64 header.window_end_nanos w in
    let w = put_u32 (length params) w in
    let w = put_bytes params w in let w = put_u32 (length payload) w in put_bytes payload w

unfoldable pub write_snapshot : SnapshotHeader → List ℕ → List ℕ → List ℕ
write_snapshot header params payload =
    let body = write_body header params payload in put_u64 (hash64 body 0) body

abbrev pub Parts : Type 0
Parts = SnapshotHeader × List ℕ × List ℕ

-- The fields after the family byte.
unfoldable pub read_words : ℕ → ℕ → M Parts
read_words version algorithm_id = do
  seed ← u64
  hash_version ← u16
  window_start_nanos ← u64
  window_end_nanos ← u64
  params_len ← u32
  params ← take params_len
  payload_len ← u32
  payload ← take payload_len
  return (
    record {
      version = version;
      algorithm_id = algorithm_id;
      hash = record { family = fsk1; seed = seed; version = hash_version };
      window_start_nanos = window_start_nanos;
      window_end_nanos = window_end_nanos;
    },
    params,
    payload,
  )

-- The fields, read from the bytes that the checksum covers.
unfoldable pub read_body : M Parts
read_body = do
  m ← take 4
  refuse_if (not (bytes_eq m magic)) "bad magic (expected FSK1)"
  version ← u16
  refuse_if (not (version == snapshot_version)) "unsupported snapshot version"
  algorithm_id ← u16
  family ← u8
  refuse_if (not (family == 0)) "unknown hash family id"
  read_words version algorithm_id

unfoldable pub read_snapshot : List ℕ → Result Parts
read_snapshot bytes =
    if ltb (length bytes) (4 + 2 + 2 + 11 + 16 + 8 + 8)
    then err (snapshot "snapshot too short")
    else (let body = list_take (length bytes - 8) bytes in
        let expected = from_le (drop (length bytes - 8) bytes) in
        if not (hash64 body 0 == expected)
        then err (snapshot "checksum mismatch")
        else run read_body body)
