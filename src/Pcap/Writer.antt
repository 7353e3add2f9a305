-- ===== src/Pcap/Writer.antt =====
-- crates/flowsketch-pcap/src/writer.rs: classic pcap files of synthetic packets, nanosecond
-- timestamps and Ethernet. The writer's state is what it has written so far, and its counters; the
-- errors of the underlying stream are left out.
pub mod Frame
use flowsketch.Base.{ℕ, ◌+◌, ◌-◌, ◌*◌, ◌/◌, ◌%◌, ◌^◌, min, List, [], ◌∷◌, ◌++◌, length, replicate}
use flowsketch.Base.Bytes.{le_bytes}
use flowsketch.Base.Word.{u64_max, add64}
use flowsketch.Core.Event.{IpAddr, v4, v6}
use flowsketch.Pcap.Parse.{link_ethernet}

pub record PcapWriter : Type 0 where
  pub written : List ℕ
  pub packets_written : ℕ
  pub max_written_payload : ℕ

abbrev pub compact_payload_limit : ℕ
compact_payload_limit = 64

-- `to_be_bytes` of a `u16`.
abbrev pub be16_bytes : ℕ → List ℕ
be16_bytes v = (v / 256 % 256) ∷ (v % 256) ∷ []

unfoldable pub file_header : List ℕ
file_header =
    le_bytes 4 0xA1B2_3C4D
    ++ (le_bytes 2 2
        ++ (le_bytes 2 4
            ++ (le_bytes 4 0 ++ (le_bytes 4 0 ++ (le_bytes 4 65535 ++ le_bytes 4 link_ethernet)))))

unfoldable pub with_payload_limit : ℕ → PcapWriter
unfolding file_header
with_payload_limit limit = record {
  written = file_header;
  packets_written = 0;
  max_written_payload = limit;
}

unfoldable pub new : PcapWriter
unfolding with_payload_limit
new = with_payload_limit compact_payload_limit

unfoldable pub new_full_payload : PcapWriter
unfolding with_payload_limit
new_full_payload = with_payload_limit u64_max

unfoldable pub record_bytes : ℕ → ℕ → List ℕ → List ℕ
record_bytes ts_nanos original_len frame =
    le_bytes 4 (ts_nanos / 1_000_000_000)
    ++ (le_bytes 4 (ts_nanos % 1_000_000_000)
        ++ (le_bytes 4 (length frame) ++ (le_bytes 4 original_len ++ frame)))

unfoldable pub write_record : ℕ → ℕ → List ℕ → PcapWriter → PcapWriter
unfolding record_bytes
write_record ts_nanos original_len frame w = record w {
  written = w.written ++ record_bytes ts_nanos original_len frame;
  packets_written = add64 w.packets_written 1;
}

unfoldable pub original_frame_len : IpAddr → IpAddr → ℕ → ℕ → ℕ
original_frame_len (v4 a b c d) (v4 e f g h) l4_len payload_len =
    (14 + 20 + l4_len + min payload_len (65535 - (20 + l4_len))) % 2 ^ 32
original_frame_len (v6 s) (v6 d) l4_len payload_len =
    (14 + 40 + l4_len + min payload_len (65535 - l4_len)) % 2 ^ 32
original_frame_len (v4 a b c d) (v6 t) l4_len payload_len = (14 + 20 + l4_len) % 2 ^ 32
original_frame_len (v6 s) (v4 e f g h) l4_len payload_len = (14 + 20 + l4_len) % 2 ^ 32

unfoldable pub tcp_header : ℕ → ℕ → ℕ → List ℕ
tcp_header src_port dst_port flags =
    be16_bytes src_port
    ++ (be16_bytes dst_port
        ++ (0 ∷ 0 ∷ 0 ∷ 0 ∷ 0 ∷ 0 ∷ 0 ∷ 0 ∷ [])
        ++ (0x50 ∷ flags ∷ 0xFF ∷ 0xFF ∷ 0 ∷ 0 ∷ 0 ∷ 0 ∷ []))

-- `8 + payload_len` wraps on `u16` in a release build.
unfoldable pub udp_header : ℕ → ℕ → ℕ → List ℕ
udp_header src_port dst_port payload_len =
    be16_bytes src_port
    ++ (be16_bytes dst_port ++ (be16_bytes ((8 + payload_len) % 2 ^ 16) ++ (0 ∷ 0 ∷ [])))

unfoldable pub protocol_payload_limit : IpAddr → IpAddr → ℕ → ℕ
protocol_payload_limit (v4 a b c d) (v4 e f g h) l4_len = 65535 - (20 + l4_len)
protocol_payload_limit (v6 s) (v6 d) l4_len = 65535 - l4_len
protocol_payload_limit (v4 a b c d) (v6 t) l4_len = 65535 - (20 + l4_len)
protocol_payload_limit (v6 s) (v4 e f g h) l4_len = 65535 - (20 + l4_len)

-- Mixed families: version 4 and zeros.
unfoldable pub mixed_header : ℕ → List ℕ
mixed_header protocol =
    be16_bytes 0x0800
    ++ (0x45 ∷ 0 ∷ 0 ∷ 28 ∷ 0 ∷ 0 ∷ 0 ∷ 0 ∷ 64 ∷ protocol ∷ 0 ∷ 0 ∷ [])
    ++ (0 ∷ 0 ∷ 0 ∷ 0 ∷ 0 ∷ 0 ∷ 0 ∷ 0 ∷ [])

-- The EtherType and the IP header. The sums are `u32` sums.
unfoldable pub ip_header : IpAddr → IpAddr → ℕ → ℕ → ℕ → List ℕ
unfolding mixed_header
ip_header (v4 a b c d) (v4 e f g h) protocol l4_len payload_len =
    be16_bytes 0x0800
    ++ ((0x45 ∷ 0 ∷ [])
        ++ (be16_bytes (min ((20 + l4_len + payload_len) % 2 ^ 32) 65535)
            ++ ((0 ∷ 0 ∷ 0x40 ∷ 0 ∷ [])
                ++ ((64 ∷ protocol ∷ 0 ∷ 0 ∷ [])
                    ++ ((a ∷ b ∷ c ∷ d ∷ []) ++ (e ∷ f ∷ g ∷ h ∷ []))))))
ip_header (v6 s) (v6 d) protocol l4_len payload_len =
    be16_bytes 0x86DD
    ++ ((0x60 ∷ 0 ∷ 0 ∷ 0 ∷ [])
        ++ (be16_bytes (min ((l4_len + payload_len) % 2 ^ 32) 65535)
            ++ ((protocol ∷ 64 ∷ []) ++ (s ++ d))))
ip_header (v4 a b c d) (v6 t) protocol l4_len payload_len = mixed_header protocol
ip_header (v6 s) (v4 e f g h) protocol l4_len payload_len = mixed_header protocol

unfoldable pub build_frame : IpAddr → IpAddr → ℕ → List ℕ → ℕ → ℕ → List ℕ
unfolding ip_header protocol_payload_limit
build_frame src dst protocol l4 payload_len max_written_payload =
    let written_payload =
      min (min payload_len max_written_payload) (protocol_payload_limit src dst (length l4)) in
    (0x02 ∷ 0 ∷ 0 ∷ 0 ∷ 0 ∷ 1 ∷ [])
    ++ ((0x02 ∷ 0 ∷ 0 ∷ 0 ∷ 0 ∷ 2 ∷ [])
        ++ (ip_header src dst protocol (length l4) payload_len
            ++ (l4 ++ replicate written_payload 0)))

unfoldable pub write_tcp_packet : ℕ → IpAddr → IpAddr → ℕ → ℕ → ℕ → ℕ → PcapWriter → PcapWriter
unfolding tcp_header original_frame_len build_frame write_record
write_tcp_packet ts_nanos src dst src_port dst_port tcp_flags payload_len w =
    let l4 = tcp_header src_port dst_port tcp_flags in
    write_record ts_nanos (original_frame_len src dst (length l4) payload_len)
      (build_frame src dst 6 l4 payload_len w.max_written_payload) w

unfoldable pub write_udp_packet : ℕ → IpAddr → IpAddr → ℕ → ℕ → ℕ → PcapWriter → PcapWriter
unfolding udp_header original_frame_len build_frame write_record
write_udp_packet ts_nanos src dst src_port dst_port payload_len w =
    let l4 = udp_header src_port dst_port (payload_len % 2 ^ 16) in
    write_record ts_nanos (original_frame_len src dst (length l4) payload_len)
      (build_frame src dst 17 l4 payload_len w.max_written_payload) w
