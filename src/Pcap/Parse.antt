-- ===== src/Pcap/Parse.antt =====
-- crates/flowsketch-pcap/src/parse.rs: the headers of a packet, read into a flow event.
pub mod Safety
pub mod Packets
pub mod Truncation
pub mod Frames
use flowsketch.Base.{
  ℕ, zero, suc, ◌+◌, ◌*◌, ◌/◌, ◌%◌, ◌^◌, min, List, [], ◌∷◌, length, Bool, true, false, ltb, ◌==◌,
  not, ◌||◌, ◌&&◌, if◌then◌else◌,
}
use flowsketch.Core.Event.{FlowEvent, IpAddr, v4, v6, default_event}
use flowsketch.Pcap.Outcome.{
  Outcome, panicked, rejected, parsed, ◌>>=◌, ◌>>◌, reject_if, at, slice, slice_from, get_slice,
  array16, sub, checked_sub, checked, be16,
}

abbrev pub ethertype_ipv4 : ℕ
ethertype_ipv4 = 2048

abbrev pub ethertype_ipv6 : ℕ
ethertype_ipv6 = 34525

abbrev pub ethertype_vlan : ℕ
ethertype_vlan = 33024

abbrev pub ethertype_qinq : ℕ
ethertype_qinq = 34984

-- The `linktype` constants of lib.rs.
abbrev pub link_ethernet : ℕ
link_ethernet = 1

abbrev pub link_raw_ip : ℕ
link_raw_ip = 101

abbrev pub link_linux_sll : ℕ
link_linux_sll = 113

pub record L4Info : Type 0 where
  pub src_port : ℕ
  pub dst_port : ℕ
  pub tcp_flags : ℕ

abbrev pub no_ports : L4Info
no_ports = record { src_port = 0; dst_port = 0; tcp_flags = 0 }

unfoldable pub parse_tcp : List ℕ → ℕ → Outcome L4Info
parse_tcp buf wire_len = do
  reject_if (ltb (length buf) 14)
  data_offset ← at buf 12
  let header_len = data_offset / 16 * 4
  reject_if (ltb header_len 20 || ltb wire_len header_len || ltb (length buf) header_len)
  src ← be16 buf 0
  dst ← be16 buf 2
  flags ← at buf 13
  parsed (record { src_port = src; dst_port = dst; tcp_flags = flags })

unfoldable pub parse_udp : List ℕ → ℕ → Outcome L4Info
parse_udp buf wire_len = do
  reject_if (ltb (length buf) 8)
  udp_len ← be16 buf 4
  reject_if (ltb udp_len 8 || ltb wire_len udp_len)
  src ← be16 buf 0
  dst ← be16 buf 2
  parsed (record { src_port = src; dst_port = dst; tcp_flags = 0 })

unfoldable pub parse_l4 : ℕ → List ℕ → ℕ → Outcome L4Info
parse_l4 protocol buf wire_len =
    if protocol == 6
    then parse_tcp buf wire_len
    else if protocol == 17
    then parse_udp buf wire_len
    else parsed no_ports

abbrev pub flow_event : IpAddr → IpAddr → ℕ → L4Info → ℕ → FlowEvent
flow_event src dst protocol l4 packet_len = record default_event {
  src_ip = src;
  dst_ip = dst;
  src_port = l4.src_port;
  dst_port = l4.dst_port;
  protocol = protocol;
  tcp_flags = l4.tcp_flags;
  bytes = packet_len % 2 ^ 32;
  packets = 1;
}

-- `Ipv4Addr::new` of four octets.
unfoldable pub ipv4_addr : List ℕ → ℕ → Outcome IpAddr
ipv4_addr buf i = do
  a ← at buf i
  b ← at buf (i + 1)
  c ← at buf (i + 2)
  d ← at buf (i + 3)
  parsed (v4 a b c d)

-- The transport header of an unfragmented packet or of its first fragment.
unfoldable pub first_fragment : ℕ → List ℕ → ℕ → ℕ → Outcome L4Info
first_fragment protocol buf ihl total_len = do
  segment ← slice buf ihl (min total_len (length buf))
  segment_len ← sub total_len ihl
  parse_l4 protocol segment segment_len

unfoldable pub parse_ipv4 : List ℕ → ℕ → Outcome FlowEvent
parse_ipv4 buf wire_len = do
  reject_if (ltb (length buf) 20)
  version_ihl ← at buf 0
  reject_if (not (version_ihl / 16 == 4))
  let ihl = version_ihl % 16 * 4
  reject_if (ltb ihl 20 || ltb (length buf) ihl)
  total_len ← be16 buf 2
  reject_if (ltb total_len ihl || ltb wire_len total_len)
  protocol ← at buf 9
  src ← ipv4_addr buf 12
  dst ← ipv4_addr buf 16
  frag ← be16 buf 6
  l4 ← if frag % 2 ^ 13 == 0 then first_fragment protocol buf ihl total_len else parsed no_ports
  parsed (flow_event src dst protocol l4 total_len)

-- The variables that the extension-header loop changes.
pub record Walk : Type 0 where
  pub next_header : ℕ
  pub offset : ℕ
  pub l4 : L4Info
  pub non_first_fragment : Bool

abbrev pub start : ℕ → Walk
start first_header = record {
  next_header = first_header;
  offset = 40;
  l4 = no_ports;
  non_first_fragment = false;
}

unfoldable pub is_option_header : ℕ → Bool
is_option_header h = h == 0 || h == 43 || h == 51 || h == 60

-- Headers 0, 43, 51 and 60: on to the next header.
unfoldable pub skip_options : List ℕ → ℕ → Walk → Outcome Walk
skip_options buf packet_len w = do
  fixed_end ← checked (w.offset + 8)
  reject_if (ltb packet_len fixed_end || ltb (length buf) fixed_end)
  size ← at buf (w.offset + 1)
  len ← if w.next_header == 51 then checked ((size + 2) * 4) else checked (8 + size * 8)
  next_offset ← checked (w.offset + len)
  reject_if (ltb len 8 || ltb packet_len next_offset || ltb (length buf) next_offset)
  next ← at buf w.offset
  parsed (record w { next_header = next; offset = next_offset })

-- Header 44.
unfoldable pub skip_fragment : List ℕ → ℕ → Walk → Outcome Walk
skip_fragment buf packet_len w = do
  next_offset ← checked (w.offset + 8)
  reject_if (ltb packet_len next_offset || ltb (length buf) next_offset)
  frag ← be16 buf (w.offset + 2)
  next ← at buf w.offset
  parsed (record w {
    next_header = next;
    offset = next_offset;
    non_first_fragment = not (frag / 8 == 0);
  })

-- Any other header: the transport header.
unfoldable pub finish : List ℕ → ℕ → Walk → Outcome Walk
finish buf packet_len w = do
  segment ← get_slice buf w.offset (min packet_len (length buf))
  segment_len ← checked_sub packet_len w.offset
  l4 ← parse_l4 w.next_header segment segment_len
  parsed (record w { l4 = l4 })

-- The loop, with the number of its rounds: `walk 6`.
unfoldable pub walk : ℕ → List ℕ → ℕ → Walk → Outcome Walk
walk zero buf packet_len w = parsed w
walk (suc rounds) buf packet_len w =
    if is_option_header w.next_header
    then (skip_options buf packet_len w >>= walk rounds buf packet_len)
    else if w.next_header == 44
    then (skip_fragment buf packet_len w >>= λ w'.
        if w'.non_first_fragment then parsed w' else walk rounds buf packet_len w')
    else finish buf packet_len w

unfoldable pub parse_ipv6 : List ℕ → ℕ → Outcome FlowEvent
parse_ipv6 buf wire_len = do
  reject_if (ltb (length buf) 40)
  version ← at buf 0
  reject_if (not (version / 16 == 6))
  payload_len ← be16 buf 4
  reject_if (payload_len == 0)
  packet_len ← checked (40 + payload_len)
  reject_if (ltb wire_len packet_len)
  first_header ← at buf 6
  src_bytes ← slice buf 8 24
  src ← array16 src_bytes
  dst_bytes ← slice buf 24 40
  dst ← array16 dst_bytes
  w ← walk 6 buf packet_len (start first_header)
  reject_if ((is_option_header w.next_header || w.next_header == 44) && not w.non_first_fragment)
  parsed (flow_event (v6 src) (v6 dst) w.next_header w.l4 packet_len)

unfoldable pub parse_l3 : ℕ → List ℕ → ℕ → Outcome FlowEvent
parse_l3 ethertype buf wire_len =
    if ethertype == ethertype_ipv4
    then parse_ipv4 buf wire_len
    else if ethertype == ethertype_ipv6
    then parse_ipv6 buf wire_len
    else rejected

unfoldable pub parse_ip : List ℕ → ℕ → Outcome FlowEvent
parse_ip [] wire_len = rejected
parse_ip (b ∷ bs) wire_len =
    if b / 16 == 4
    then parse_ipv4 (b ∷ bs) wire_len
    else if b / 16 == 6
    then parse_ipv6 (b ∷ bs) wire_len
    else rejected

-- The loop over VLAN tags, with the number of its rounds: the EtherType and the offset after it.
unfoldable pub unwrap_tags : ℕ → List ℕ → ℕ → ℕ → Outcome (ℕ × ℕ)
unwrap_tags zero buf ethertype offset = parsed (ethertype, offset)
unwrap_tags (suc rounds) buf ethertype offset =
    if ethertype == ethertype_vlan || ethertype == ethertype_qinq
    then (reject_if (ltb (length buf) (offset + 4))
        >> (be16 buf (offset + 2) >>= λ inner. unwrap_tags rounds buf inner (offset + 4)))
    else unwrap_tags rounds buf ethertype offset

unfoldable pub parse_ethernet : List ℕ → ℕ → Outcome FlowEvent
parse_ethernet buf wire_len = do
  reject_if (ltb (length buf) 14)
  outer ← be16 buf 12
  (ethertype, offset) ← unwrap_tags 2 buf outer 14
  packet ← slice_from buf offset
  packet_len ← checked_sub wire_len offset
  parse_l3 ethertype packet packet_len

unfoldable pub parse_sll : List ℕ → ℕ → Outcome FlowEvent
parse_sll buf wire_len = do
  reject_if (ltb (length buf) 16)
  ethertype ← be16 buf 14
  packet ← slice_from buf 16
  packet_len ← checked_sub wire_len 16
  parse_l3 ethertype packet packet_len

unfoldable pub parse_packet_with_wire_len : ℕ → List ℕ → ℕ → Outcome FlowEvent
parse_packet_with_wire_len link buf wire_len = do
  reject_if (ltb wire_len (length buf))
  if link == link_ethernet
      then parse_ethernet buf wire_len
      else if link == link_raw_ip
      then parse_ip buf wire_len
      else if link == link_linux_sll
      then parse_sll buf wire_len
      else rejected

-- `u32::try_from(data.len()).ok()?`
unfoldable pub parse_packet : ℕ → List ℕ → Outcome FlowEvent
parse_packet link buf = do
  reject_if (not (ltb (length buf) (2 ^ 32)))
  parse_packet_with_wire_len link buf (length buf)
