-- ===== src/Pcap/File.antt =====
-- crates/flowsketch-pcap/src/lib.rs: the streaming reader of classic pcap files. The stream is the
-- bytes that are left in it; its I/O errors, other than its end, are left out.
pub mod RoundTrip
pub mod Jobs
pub mod Written
pub mod Total
use flowsketch.Base.{
  ℕ, zero, suc, ◌+◌, ◌-◌, ◌*◌, ◌/◌, ◌%◌, ◌^◌, List, [], ◌∷◌, ◌++◌, Option, none, some, Bool, true,
  false, length, take, drop, ltb, leb, ◌==◌, if◌then◌else◌,
}
use flowsketch.Base.Bytes.{le_bytes, from_le}
use flowsketch.Base.Word.{add64}
use flowsketch.Core.Event.{FlowEvent, unknown}
use flowsketch.Pcap.Outcome.{Outcome, panicked, rejected, parsed}
use flowsketch.Pcap.Parse.{parse_packet_with_wire_len}

pub data PcapError : Type 0 where
  io : PcapError
  bad_magic : ℕ → PcapError
  truncated : PcapError
  invalid_timestamp : PcapError

-- `crashed` is a panic, of the packet parser or of a division by 0, or the end of the fuel.
pub data PcapResult (A : Type 0) : Type 0 where
  got : A → PcapResult A
  failed : PcapError → PcapResult A
  crashed : PcapResult A

pub record PcapReader : Type 0 where
  pub left : List ℕ
  pub swapped : Bool
  pub subsec_to_nanos : ℕ
  pub linktype : ℕ
  pub packets_read : ℕ

abbrev pub magic_usec : ℕ
magic_usec = 0xA1B2_C3D4

abbrev pub magic_nsec : ℕ
magic_nsec = 0xA1B2_3C4D

-- `u32::swap_bytes`
unfoldable pub swap_bytes : ℕ → ℕ
swap_bytes v =
    v % 256 * 2 ^ 24 + v / 256 % 256 * 2 ^ 16 + v / 2 ^ 16 % 256 * 2 ^ 8 + v / 2 ^ 24 % 256

-- Byte order and scale of the sub-second field.
unfoldable pub format_of : ℕ → Option (Bool × ℕ)
unfolding swap_bytes
format_of magic =
    if magic == magic_usec
    then some (false, 1_000)
    else if magic == magic_nsec
    then some (false, 1)
    else if swap_bytes magic == magic_usec
    then some (true, 1_000)
    else if swap_bytes magic == magic_nsec
    then some (true, 1)
    else none

-- The four bytes from `at` on.
unfoldable pub read_u32 : Bool → ℕ → List ℕ → ℕ
unfolding swap_bytes
read_u32 swapped at bytes =
    let v = from_le (take 4 (drop at bytes)) in if swapped then swap_bytes v else v

-- The end of the stream within the file's header is an I/O error.
unfoldable pub new : List ℕ → PcapResult PcapReader
unfolding format_of read_u32
new bytes =
    if ltb (length bytes) 24
    then failed io
    else (let magic = read_u32 false 0 bytes in
        elim (format_of magic) [
          | none ↦ failed (bad_magic magic)
          | some (swapped, subsec_to_nanos) ↦ got (record {
            left = drop 24 bytes;
            swapped = swapped;
            subsec_to_nanos = subsec_to_nanos;
            linktype = read_u32 swapped 20 bytes;
            packets_read = 0;
          })
        ])

pub record Packet : Type 0 where
  pub ts_nanos : ℕ
  pub original_len : ℕ
  pub captured : List ℕ

-- The checks on a record's header, and its data.
unfoldable pub read_record : PcapReader → ℕ → ℕ → ℕ → ℕ → PcapResult (Option (Packet × PcapReader))
read_record r ts_sec ts_subsec caplen origlen =
    if ltb (256 * 1024) caplen
    then failed truncated
    else if ltb origlen caplen
    then failed truncated
    else if r.subsec_to_nanos == 0
    then crashed
    else if leb (1_000_000_000 / r.subsec_to_nanos) ts_subsec
    then failed invalid_timestamp
    else if ltb (length r.left) (16 + caplen)
    then failed truncated
    else got (
        some (
          record {
            ts_nanos = ts_sec * 1_000_000_000 + ts_subsec * r.subsec_to_nanos;
            original_len = origlen;
            captured = take caplen (drop 16 r.left);
          },
          record r { left = drop caplen (drop 16 r.left); packets_read = add64 r.packets_read 1 },
        ))

-- `next_packet` and `next_packet_into`; no packet at the end of the file, also within a header.
unfoldable pub next_packet : PcapReader → PcapResult (Option (Packet × PcapReader))
next_packet r =
    if ltb (length r.left) 16
    then got none
    else read_record r (read_u32 r.swapped 0 r.left) (read_u32 r.swapped 4 r.left)
        (read_u32 r.swapped 8 r.left) (read_u32 r.swapped 12 r.left)

unfoldable pub stamp : Packet → FlowEvent → FlowEvent
stamp p ev = record ev {
  ts_nanos = p.ts_nanos;
  bytes = if ev.bytes == 0 then p.original_len else ev.bytes;
  direction = unknown;
}

-- The loop of `next_event_into`: packets that the parser rejects are skipped.
unfoldable pub next_event_loop : ℕ → PcapReader → PcapResult (Option (FlowEvent × PcapReader))
next_event_loop zero r = crashed
next_event_loop (suc fuel) r = elim (next_packet r) [
  | crashed ↦ crashed
  | failed e ↦ failed e
  | got none ↦ got none
  | got (some (p, r')) ↦ elim (parse_packet_with_wire_len r'.linktype p.captured p.original_len) [
    | panicked ↦ crashed
    | rejected ↦ next_event_loop fuel r'
    | parsed ev ↦ got (some (stamp p ev, r'))
  ]
]

-- A record takes 16 bytes at least.
unfoldable pub next_event : PcapReader → PcapResult (Option (FlowEvent × PcapReader))
next_event r = next_event_loop (length r.left + 1) r
