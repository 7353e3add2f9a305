-- ===== src/Pcap/Writer/Frame.antt =====
-- writer.rs against parse.rs: what the parser reads from a frame that the writer built.
use flowsketch.Base.{
  ℕ, ◌+◌, ◌-◌, ◌*◌, ◌/◌, ◌%◌, ◌^◌, ◌≤◌, ◌<◌, ◌≡◌, refl, min, List, [], ◌∷◌, ◌++◌, length,
  length-append, length-replicate, replicate, arith,
}
use flowsketch.Core.Event.{v4}
use flowsketch.Pcap.Outcome.{parsed, slice, slice_from, sub, checked_sub, be16}
use flowsketch.Pcap.Parse.{
  L4Info, flow_event, parse_tcp, parse_udp, parse_l4, ipv4_addr, first_fragment, parse_ipv4,
  parse_l3, unwrap_tags, parse_ethernet, parse_packet_with_wire_len, link_ethernet,
}
use flowsketch.Pcap.Parse.Frames.{take_all}
use flowsketch.Pcap.Writer.{
  be16_bytes, tcp_header, udp_header, ip_header, protocol_payload_limit, build_frame,
  original_frame_len,
}

word : (n : ℕ) → n < 2 ^ 16 → 256 * (n / 256 % 256) + n % 256 ≡ n
word n h = omega arith

pub parse_tcp-tcp_header :
    (sp dp flags wire_len : ℕ) (rest : List ℕ)
    → sp < 2 ^ 16
    → dp < 2 ^ 16
    → 20 ≤ wire_len
    → parse_l4 6 (tcp_header sp dp flags ++ rest) wire_len
      ≡ parsed (record { src_port = sp; dst_port = dp; tcp_flags = flags })
unfolding parse_l4 parse_tcp tcp_header be16
parse_tcp-tcp_header sp dp flags wire_len rest hs hd h = rw (word sp hs, word dp hd) (ground arith)

pub parse_udp-udp_header :
    (sp dp payload_len wire_len : ℕ) (rest : List ℕ)
    → sp < 2 ^ 16
    → dp < 2 ^ 16
    → 8 + payload_len < 2 ^ 16
    → 8 + payload_len ≤ wire_len
    → parse_l4 17 (udp_header sp dp payload_len ++ rest) wire_len
      ≡ parsed (record { src_port = sp; dst_port = dp; tcp_flags = 0 })
unfolding parse_l4 parse_udp udp_header be16
parse_udp-udp_header sp dp payload_len wire_len rest hs hd hp h =
    let size : (8 + payload_len) % 2 ^ 16 ≡ 8 + payload_len = omega arith in
    rw (size, word sp hs, word dp hd, word (8 + payload_len) hp) (ground arith)

-- The IPv4 packet of a frame, with its length and protocol.
packet : ℕ → ℕ → ℕ → ℕ → ℕ → ℕ → ℕ → ℕ → ℕ → ℕ → List ℕ → List ℕ
packet a b c d e f g h protocol total segment =
    (0x45 ∷ 0 ∷ [])
    ++ (be16_bytes total
        ++ ((0 ∷ 0 ∷ 0x40 ∷ 0 ∷ [])
            ++ ((64 ∷ protocol ∷ 0 ∷ 0 ∷ [])
                ++ ((a ∷ b ∷ c ∷ d ∷ []) ++ ((e ∷ f ∷ g ∷ h ∷ []) ++ segment)))))

module _ (a b c d e f g h protocol total : ℕ) (segment : List ℕ) (l4 : L4Info)
    (small : total < 2 ^ 16) (fits : 20 + length segment ≤ total)
    (inner : parse_l4 protocol segment (total - 20) ≡ parsed l4) where
  segment_of :
      first_fragment protocol (packet a b c d e f g h protocol total segment) 20 total ≡ parsed l4
  unfolding first_fragment slice sub packet
  segment_of = ground (arith, take_all segment, inner)

  read_packet :
      (wire_len : ℕ)
      → total ≤ wire_len
      → parse_ipv4 (packet a b c d e f g h protocol total segment) wire_len
        ≡ parsed (flow_event (v4 a b c d) (v4 e f g h) protocol l4 total)
  unfolding parse_ipv4 be16 ipv4_addr packet
  read_packet wire_len k = rw (word total small, segment_of) (ground arith)

  length-packet : length (packet a b c d e f g h protocol total segment) ≡ 20 + length segment
  unfolding packet
  length-packet = omega arith

  read_frame :
      (wire_len : ℕ)
      → 14 + total ≤ wire_len
      → parse_packet_with_wire_len link_ethernet
          (0x02
            ∷ 0
            ∷ 0
            ∷ 0
            ∷ 0
            ∷ 1
            ∷ 0x02
            ∷ 0
            ∷ 0
            ∷ 0
            ∷ 0
            ∷ 2
            ∷ 8
            ∷ 0
            ∷ packet a b c d e f g h protocol total segment)
          wire_len
        ≡ parsed (flow_event (v4 a b c d) (v4 e f g h) protocol l4 total)
  unfolding parse_packet_with_wire_len parse_ethernet be16 unwrap_tags parse_l3 slice_from
      checked_sub
  read_frame wire_len k = ground (arith, length-packet, read_packet (wire_len - 14) (omega arith))

-- The frame of a version 4 packet.
build_frame_v4 :
    (a b c d e f g h protocol n limit : ℕ) (l4 : List ℕ)
    → 20 + length l4 + n < 2 ^ 16
    → build_frame (v4 a b c d) (v4 e f g h) protocol l4 n limit ≡ (
        0x02
        ∷ 0
        ∷ 0
        ∷ 0
        ∷ 0
        ∷ 1
        ∷ 0x02
        ∷ 0
        ∷ 0
        ∷ 0
        ∷ 0
        ∷ 2
        ∷ 8
        ∷ 0
        ∷ packet a b c d e f g h protocol
            (20 + length l4 + n)
            (l4 ++ replicate (min (min n limit) (65535 - (20 + length l4))) 0))
unfolding build_frame ip_header protocol_payload_limit packet
build_frame_v4 a b c d e f g h protocol n limit l4 small =
    let same : min ((20 + length l4 + n) % 2 ^ 32) 65535 ≡ 20 + length l4 + n = omega arith in
    rw same refl

pub length-build_frame_v4 :
    (a b c d e f g h protocol n limit : ℕ) (l4 : List ℕ)
    → 20 + length l4 + n < 2 ^ 16
    → length (build_frame (v4 a b c d) (v4 e f g h) protocol l4 n limit) ≤ 14 + (20 + length l4 + n)
unfolding build_frame ip_header protocol_payload_limit
length-build_frame_v4 a b c d e f g h protocol n limit l4 small =
    let k = min (min n limit) (65535 - (20 + length l4)) in
    omega (arith, length-append l4 (replicate k 0), length-replicate {A = ℕ} k 0)

pub original_frame_len_v4 :
    (a b c d e f g h n size : ℕ)
    → 20 + size + n < 2 ^ 16
    → original_frame_len (v4 a b c d) (v4 e f g h) size n ≡ 14 + (20 + size + n)
unfolding original_frame_len
original_frame_len_v4 a b c d e f g h n size small = omega arith

-- A frame of any transport header that the parser reads.
pub parse-build_frame :
    (a b c d e f g h protocol n limit : ℕ) (l4 : List ℕ) (info : L4Info)
    → 20 + length l4 + n < 2 ^ 16
    → ((rest : List ℕ) → parse_l4 protocol (l4 ++ rest) (length l4 + n) ≡ parsed info)
    → parse_packet_with_wire_len link_ethernet
        (build_frame (v4 a b c d) (v4 e f g h) protocol l4 n limit)
        (original_frame_len (v4 a b c d) (v4 e f g h) (length l4) n)
      ≡ parsed (flow_event (v4 a b c d) (v4 e f g h) protocol info (20 + length l4 + n))
parse-build_frame a b c d e f g h protocol n limit l4 info small inner =
    let zeros : List ℕ = replicate (min (min n limit) (65535 - (20 + length l4))) 0 in
    let total = 20 + length l4 + n in
    let size : length (l4 ++ zeros) ≤ length l4 + n = omega (
      arith,
      length-append l4 zeros,
      length-replicate {A = ℕ} (min (min n limit) (65535 - (20 + length l4))) 0,
    ) in
    let rest : total - 20 ≡ length l4 + n = omega arith in
    rw
      (
        build_frame_v4 a b c d e f g h protocol n limit l4 small,
        original_frame_len_v4 a b c d e f g h n (length l4) small,
      )
      (read_frame a b c d e f g h protocol total (l4 ++ zeros) info small (omega (arith, size))
        (rw rest (inner zeros)) (14 + total) (omega arith))
