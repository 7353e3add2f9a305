-- ===== src/Core/Tests.antt =====
-- Concrete hashes and snapshots.
use flowsketch.Base.{ℕ, map, ◌≡◌, ◌≢◌, refl, List, [], ◌∷◌, ◌++◌, ◌⊎◌, arith}
use flowsketch.Base.Bytes.{le_bytes}
use flowsketch.Core.Error.{ok, err, snapshot, incompatible_merge}
use flowsketch.Core.Hash.{hash_spec, splitmix64, hash64}
use flowsketch.Core.Hash.Mixer.{unmix64, unmix64-splitmix64}
use flowsketch.Core.Hash.Collisions.{hash64_one_byte, hash64_seeds}
use flowsketch.Core.Snapshot.{
  SnapshotHeader, snapshot_version, family_id, write_body, write_snapshot, read_snapshot,
}
use flowsketch.Core.Wire.{put_u8, put_u16, put_u32, put_u64, put_bytes}
use flowsketch.Core.Event.{FlowEvent, default_event, v4}
use flowsketch.Core.Field.{src_ip, dst_port, field_value_into, group_key, split_group_key}
use flowsketch.Core.Field.Keys.{IsText, IsEvent, split_group_key-group_key}
use flowsketch.Core.Sketch.{SketchCompatibility, ensure_matches, ensure_matches_cases}
use flowsketch.Core.Snapshot.AlgorithmId
use flowsketch.Core.Snapshot.RoundTrip.{IsWritable, read_snapshot-write_snapshot}
use flowsketch.Core.Snapshot.Damage.{read_snapshot_one_byte}

unmix64-splitmix64_example : unmix64 (splitmix64 42) ≡ 42
unmix64-splitmix64_example = unmix64-splitmix64 42 (omega arith)

hash64_one_byte_example :
    hash64 ((10 ∷ 0 ∷ 0 ∷ []) ++ 1 ∷ 7 ∷ []) 42 ≢ hash64 ((10 ∷ 0 ∷ 0 ∷ []) ++ 2 ∷ 7 ∷ []) 42
hash64_one_byte_example =
    hash64_one_byte (10 ∷ 0 ∷ 0 ∷ []) (7 ∷ []) 1 2 42 (omega arith, tt) (omega arith) (omega arith)
      (λ e. omega arith)

hash64_seeds_example : hash64 (10 ∷ 0 ∷ []) 1 ≢ hash64 (10 ∷ 0 ∷ []) 2
hash64_seeds_example =
    hash64_seeds (10 ∷ 0 ∷ []) 1 2 (omega arith, (omega arith, tt)) (omega arith) (omega arith)
      (λ e. omega arith)

abbrev small_header : SnapshotHeader
small_header = record {
  version = snapshot_version;
  algorithm_id = AlgorithmId.kll;
  hash = hash_spec 9;
  window_start_nanos = 5;
  window_end_nanos = 8;
}

small_header-IsWritable : IsWritable small_header (1 ∷ []) (2 ∷ 3 ∷ [])
small_header-IsWritable = record {
  current = refl;
  algorithm = omega arith;
  seed = omega arith;
  hash = omega arith;
  start = omega arith;
  end = omega arith;
  params_fit = omega arith;
  payload_fit = omega arith;
}

read_snapshot-write_snapshot_example :
    read_snapshot (write_snapshot small_header (1 ∷ []) (2 ∷ 3 ∷ []))
    ≡ ok (small_header, 1 ∷ [], 2 ∷ 3 ∷ [])
read_snapshot-write_snapshot_example =
    read_snapshot-write_snapshot small_header (1 ∷ []) (2 ∷ 3 ∷ []) small_header-IsWritable

-- The body of that snapshot up to its payload, and its checksum.
abbrev front : List ℕ
front =
    70 ∷ 83 ∷ 75 ∷ 49 ∷ 2 ∷ 0 ∷ 8 ∷ 0 ∷ 0 ∷ 9 ∷ 0 ∷ 0 ∷ 0 ∷ 0 ∷ 0 ∷ 0 ∷ 0 ∷ 2 ∷ 0 ∷ 5 ∷ 0 ∷ 0 ∷ 0
    ∷ 0 ∷ 0 ∷ 0 ∷ 0 ∷ 8 ∷ 0 ∷ 0 ∷ 0 ∷ 0 ∷ 0 ∷ 0 ∷ 0 ∷ 1 ∷ 0 ∷ 0 ∷ 0 ∷ 1 ∷ 2 ∷ 0 ∷ 0 ∷ 0 ∷ []

checksum : List ℕ
checksum = le_bytes 8 (hash64 (front ++ 2 ∷ 3 ∷ []) 0)

front_accepted :
    read_snapshot ((front ++ 2 ∷ 3 ∷ []) ++ checksum) ≡ ok (small_header, 1 ∷ [], 2 ∷ 3 ∷ [])
unfolding checksum write_snapshot write_body family_id put_u8 put_u16 put_u32 put_u64 put_bytes
    le_bytes
front_accepted =
    read_snapshot-write_snapshot small_header (1 ∷ []) (2 ∷ 3 ∷ []) small_header-IsWritable

read_snapshot_one_byte_example :
    read_snapshot ((front ++ 4 ∷ 3 ∷ []) ++ checksum) ≡ err (snapshot "checksum mismatch")
unfolding checksum le_bytes
read_snapshot_one_byte_example =
    read_snapshot_one_byte front (3 ∷ []) checksum 2 4 (omega arith, tt) (omega arith) (omega arith)
      (λ e. omega arith) refl front_accepted

abbrev ours : SketchCompatibility
ours = record { algorithm = "count-min"; version = 1; hash = hash_spec 1; params_hash = 5 }

abbrev theirs : SketchCompatibility
theirs = record { algorithm = "count-min"; version = 1; hash = hash_spec 2; params_hash = 5 }

ensure_matches_cases_example :
    ((ours ≡ theirs) × (ensure_matches ours theirs ≡ ok tt))
    ⊎ ((ours ≢ theirs)
        × (ensure_matches ours theirs
            ≡ err (incompatible_merge "sketches are not merge-compatible")))
ensure_matches_cases_example = ensure_matches_cases ours theirs

-- Every address is written as `::`.
abbrev display : List ℕ → List ℕ
display octets = 58 ∷ 58 ∷ []

display-IsText : (octets : List ℕ) → IsText 39 (display octets)
display-IsText octets = record {
  some_byte = omega arith;
  short = omega arith;
  clean = ((λ q. omega arith), ((λ q. omega arith), tt));
}

abbrev ssh_event : FlowEvent
ssh_event = record default_event { src_ip = v4 10 0 0 7; dst_port = 22; protocol = 6 }

ssh_event-IsEvent : IsEvent ssh_event
ssh_event-IsEvent = record {
  src_port_fits = omega arith;
  dst_port_fits = omega arith;
  protocol_fits = omega arith;
  tcp_flags_fits = omega arith;
  bytes_fits = omega arith;
  packets_fits = omega arith;
  interface_index_fits = omega arith;
  node_id_fits = omega arith;
  src_ip_fits = (omega arith, omega arith, omega arith, omega arith);
  dst_ip_fits = (omega arith, omega arith, omega arith, omega arith);
}

split_group_key-group_key_example :
    split_group_key (group_key display (src_ip ∷ dst_port ∷ []) ssh_event)
    ≡ map (λ f. field_value_into display f ssh_event []) (src_ip ∷ dst_port ∷ [])
split_group_key-group_key_example =
    split_group_key-group_key display display-IsText (src_ip ∷ dst_port ∷ []) ssh_event
      ssh_event-IsEvent
