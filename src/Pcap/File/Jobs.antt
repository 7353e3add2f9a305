-- ===== src/Pcap/File/Jobs.antt =====
-- lib.rs and writer.rs: one packet, from `write_tcp_packet` or `write_udp_packet` to `next_event`.
use flowsketch.Base.{
  ℕ, ◌+◌, ◌/◌, ◌%◌, ◌^◌, ◌≤◌, ◌<◌, ◌≡◌, refl, ap, ◌∙◌, List, [], ◌∷◌, ◌++◌, some, length, false,
  arith, ◌==◌,
}
use flowsketch.Base.Word.{add64}
use flowsketch.Core.Event.{FlowEvent, IpAddr, v4}
use flowsketch.Pcap.File.{got, stamp, next_event}
use flowsketch.Pcap.Outcome.{parsed}
use flowsketch.Pcap.File.RoundTrip.{reader, next_event-record_bytes}
use flowsketch.Pcap.Parse.{L4Info, flow_event, link_ethernet, parse_packet_with_wire_len, parse_l4}
use flowsketch.Pcap.Writer.{
  PcapWriter, tcp_header, udp_header, original_frame_len, build_frame, record_bytes, write_record,
  write_tcp_packet, write_udp_packet,
}
use flowsketch.Pcap.Writer.Frame.{
  parse-build_frame, parse_tcp-tcp_header, parse_udp-udp_header, length-build_frame_v4,
  original_frame_len_v4,
}

pub data Transport : Type 0 where
  tcp : (src_port dst_port flags : ℕ) → Transport
  udp : (src_port dst_port : ℕ) → Transport

-- A packet to write: its time, its addresses, octet by octet, its ports and the size of its payload.
pub record Job : Type 0 where
  pub ts_nanos : ℕ
  pub s1 : ℕ
  pub s2 : ℕ
  pub s3 : ℕ
  pub s4 : ℕ
  pub d1 : ℕ
  pub d2 : ℕ
  pub d3 : ℕ
  pub d4 : ℕ
  pub transport : Transport
  pub payload_len : ℕ

abbrev src : Job → IpAddr
src j = v4 j.s1 j.s2 j.s3 j.s4

abbrev dst : Job → IpAddr
dst j = v4 j.d1 j.d2 j.d3 j.d4

pub write_as : Job → Transport → PcapWriter → PcapWriter
write_as j (tcp sp dp flags) w =
    write_tcp_packet j.ts_nanos (src j) (dst j) sp dp flags j.payload_len w
write_as j (udp sp dp) w = write_udp_packet j.ts_nanos (src j) (dst j) sp dp j.payload_len w

unfoldable pub write_jobs : List Job → PcapWriter → PcapWriter
write_jobs [] w = w
write_jobs (j ∷ js) w = write_jobs js (write_as j j.transport w)

-- The event that a packet stands for.
unfoldable pub l4_size : Transport → ℕ
l4_size (tcp sp dp flags) = 20
l4_size (udp sp dp) = 8

pub protocol_of : Transport → ℕ
protocol_of (tcp sp dp flags) = 6
protocol_of (udp sp dp) = 17

pub info_of : Transport → L4Info
info_of (tcp sp dp flags) = record { src_port = sp; dst_port = dp; tcp_flags = flags }
info_of (udp sp dp) = record { src_port = sp; dst_port = dp; tcp_flags = 0 }

pub event_of : Job → FlowEvent
event_of j =
    record (flow_event (src j) (dst j) (protocol_of j.transport) (info_of j.transport)
      (20 + l4_size j.transport + j.payload_len)) { ts_nanos = j.ts_nanos }

-- The fields are within their types, and the packet within an IPv4 packet.
abbrev PortsFit : Transport → Type 0
PortsFit (tcp sp dp flags) = (sp < 2 ^ 16) × (dp < 2 ^ 16)
PortsFit (udp sp dp) = (sp < 2 ^ 16) × (dp < 2 ^ 16)

pub record IsJob (j : Job) : Type 0 where
  pub seconds : j.ts_nanos / 1_000_000_000 < 2 ^ 32
  pub ports : PortsFit j.transport
  pub size : 20 + l4_size j.transport + j.payload_len < 2 ^ 16

l4_of : Transport → ℕ → List ℕ
l4_of (tcp sp dp flags) n = tcp_header sp dp flags
l4_of (udp sp dp) n = udp_header sp dp (n % 2 ^ 16)

length-l4_of : (t : Transport) (n : ℕ) → length (l4_of t n) ≡ l4_size t
unfolding l4_of l4_size tcp_header udp_header
length-l4_of (tcp sp dp flags) n = refl
length-l4_of (udp sp dp) n = refl

frame_of : Job → ℕ → List ℕ
frame_of j limit =
    build_frame (src j) (dst j) (protocol_of j.transport) (l4_of j.transport j.payload_len)
      j.payload_len limit

wire_len : Job → ℕ
wire_len j =
    original_frame_len (src j) (dst j) (length (l4_of j.transport j.payload_len)) j.payload_len

pub bytes_of : Job → ℕ → List ℕ
bytes_of j limit = record_bytes j.ts_nanos (wire_len j) (frame_of j limit)

pub write_as-written :
    (j : Job) (t : Transport) (w : PcapWriter)
    → j.transport ≡ t
    → ((write_as j t w).written ≡ w.written ++ bytes_of j w.max_written_payload)
      × ((write_as j t w).max_written_payload ≡ w.max_written_payload)
unfolding write_as bytes_of wire_len frame_of l4_of protocol_of write_tcp_packet write_udp_packet
    write_record
write_as-written j (tcp sp dp flags) w e = (rw e refl, refl)
write_as-written j (udp sp dp) w e = (rw e refl, refl)

parse_l4-l4_of :
    (t : Transport) (n : ℕ) (rest : List ℕ)
    → PortsFit t
    → 20 + l4_size t + n < 2 ^ 16
    → parse_l4 (protocol_of t) (l4_of t n ++ rest) (l4_size t + n) ≡ parsed (info_of t)
unfolding l4_of l4_size protocol_of info_of
parse_l4-l4_of (tcp sp dp flags) n rest (hs, hd) h =
    parse_tcp-tcp_header sp dp flags (20 + n) rest hs hd (omega arith)
parse_l4-l4_of (udp sp dp) n rest (hs, hd) h =
    let same : n % 2 ^ 16 ≡ n = omega arith in
    rw same (parse_udp-udp_header sp dp n (8 + n) rest hs hd (omega arith) (omega arith))

frame-parsed :
    (j : Job) (limit : ℕ)
    → IsJob j
    → parse_packet_with_wire_len link_ethernet (frame_of j limit) (wire_len j)
      ≡ parsed (
          flow_event
            (src j)
            (dst j)
            (protocol_of j.transport)
            (info_of j.transport)
            (20 + l4_size j.transport + j.payload_len))
unfolding frame_of wire_len
frame-parsed j limit v =
    let l4 = l4_of j.transport j.payload_len in
    let size = length-l4_of j.transport j.payload_len in
    rw size (
      rw size at (
        parse-build_frame j.s1 j.s2 j.s3 j.s4 j.d1 j.d2 j.d3 j.d4 (protocol_of j.transport)
          j.payload_len limit l4 (info_of j.transport) (omega (arith, size, v.size))
          (λ rest. rw size (parse_l4-l4_of j.transport j.payload_len rest v.ports v.size))))

wire_len-total : (j : Job) → IsJob j → wire_len j ≡ 14 + (20 + l4_size j.transport + j.payload_len)
unfolding wire_len
wire_len-total j v =
    let size = length-l4_of j.transport j.payload_len in
    original_frame_len_v4 j.s1 j.s2 j.s3 j.s4 j.d1 j.d2 j.d3 j.d4 j.payload_len
      (length (l4_of j.transport j.payload_len)) (omega (arith, size, v.size))
    ∙ omega (arith, size)

length-frame_of :
    (j : Job) (limit : ℕ)
    → IsJob j
    → length (frame_of j limit) ≤ 14 + (20 + l4_size j.transport + j.payload_len)
unfolding frame_of
length-frame_of j limit v =
    let l4 = l4_of j.transport j.payload_len in
    let size = length-l4_of j.transport j.payload_len in
    omega (
      arith,
      size,
      v.size,
      length-build_frame_v4 j.s1 j.s2 j.s3 j.s4 j.d1 j.d2 j.d3 j.d4 (protocol_of j.transport)
          j.payload_len limit l4 (omega (arith, size, v.size)),
    )

stamp-event_of :
    (j : Job) (size : ℕ) (frame : List ℕ)
    → IsJob j
    → stamp
        (record { ts_nanos = j.ts_nanos; original_len = size; captured = frame })
        (flow_event
          (src j)
          (dst j)
          (protocol_of j.transport)
          (info_of j.transport)
          (20 + l4_size j.transport + j.payload_len))
      ≡ event_of j
unfolding stamp event_of
stamp-event_of j size frame v =
    let total = 20 + l4_size j.transport + j.payload_len in
    let some_bytes : (total % 2 ^ 32 == 0) ≡ false = ground (arith, v.size) in rw some_bytes refl

pub next_event-bytes_of :
    (j : Job) (limit n : ℕ) (rest : List ℕ)
    → IsJob j
    → next_event (reader (bytes_of j limit ++ rest) n)
      ≡ got (some (event_of j, reader rest (add64 n 1)))
unfolding bytes_of
next_event-bytes_of j limit n rest v =
    let total = wire_len-total j v in
    let short = length-frame_of j limit v in
    next_event-record_bytes j.ts_nanos (wire_len j) n (frame_of j limit) rest
      (flow_event (src j) (dst j) (protocol_of j.transport) (info_of j.transport)
        (20 + l4_size j.transport + j.payload_len))
      v.seconds (omega (arith, total, short)) (omega (arith, short, v.size))
      (omega (arith, total, v.size)) (frame-parsed j limit v)
    ∙ ap (λ ev. got (some (ev, reader rest (add64 n 1))))
        (stamp-event_of j (wire_len j) (frame_of j limit) v)
