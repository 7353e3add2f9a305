-- ===== src/Pcap/Parse/Safety.antt =====
-- The packet parser on every input: it does not panic, and its event is within its bounds.
use flowsketch.Base.{
  ℕ, ◌+◌, ◌*◌, ◌/◌, ◌%◌, ◌^◌, ◌<◌, ◌≤◌, ◌≡◌, refl, min, List, length, ltb, ◌==◌, ◌||◌, not, arith,
}
use flowsketch.Base.Bytes.{IsBytes}
use flowsketch.Core.Event.{FlowEvent, IpAddr}
use flowsketch.Pcap.Outcome.{parsed}
use flowsketch.Pcap.Outcome.Safe.{
  Safe, safe_parsed, bind-Safe, reject_if-Safe, if-Safe, at-Safe, be16-Safe, slice-Safe, sub-Safe,
}
use flowsketch.Pcap.Parse.{
  L4Info, no_ports, parse_tcp, parse_udp, parse_l4, flow_event, ipv4_addr, first_fragment,
  parse_ipv4,
}

-- The fields of a transport header fit their types.
abbrev pub IsL4 : L4Info → Type 0
IsL4 l = (l.src_port < 2 ^ 16) × (l.dst_port < 2 ^ 16) × (l.tcp_flags < 2 ^ 8)

parse_tcp-Safe : (buf : List ℕ) (wire_len : ℕ) → IsBytes buf → Safe IsL4 (parse_tcp buf wire_len)
unfolding parse_tcp
parse_tcp-Safe buf wire_len h = reject_if-Safe (ltb (length buf) 14) _ (λ long.
    bind-Safe _ _ (at-Safe buf 12 h (ground arith)) (λ data_offset _.
      reject_if-Safe
        (ltb (data_offset / 16 * 4) 20
          || ltb wire_len (data_offset / 16 * 4)
          || ltb (length buf) (data_offset / 16 * 4))
        _
        (λ fits. bind-Safe _ _ (be16-Safe buf 0 h (ground arith)) (λ src hs.
          bind-Safe _ _ (be16-Safe buf 2 h (ground arith)) (λ dst hd.
            bind-Safe _ _ (at-Safe buf 13 h (ground arith))
              (λ flags hf. safe_parsed (hs, hd, hf)))))))

parse_udp-Safe : (buf : List ℕ) (wire_len : ℕ) → IsBytes buf → Safe IsL4 (parse_udp buf wire_len)
unfolding parse_udp
parse_udp-Safe buf wire_len h = reject_if-Safe (ltb (length buf) 8) _ (λ long.
    bind-Safe _ _ (be16-Safe buf 4 h (ground arith)) (λ udp_len _.
      reject_if-Safe (ltb udp_len 8 || ltb wire_len udp_len) _ (λ fits.
        bind-Safe _ _ (be16-Safe buf 0 h (ground arith)) (λ src hs.
          bind-Safe _ _ (be16-Safe buf 2 h (ground arith))
            (λ dst hd. safe_parsed (hs, hd, omega arith))))))

pub no_ports-Safe : Safe IsL4 (parsed no_ports)
no_ports-Safe = safe_parsed (omega arith, omega arith, omega arith)

pub parse_l4-Safe :
    (protocol : ℕ) (buf : List ℕ) (wire_len : ℕ)
    → IsBytes buf
    → Safe IsL4 (parse_l4 protocol buf wire_len)
unfolding parse_l4
parse_l4-Safe protocol buf wire_len h =
    if-Safe (protocol == 6) _ _ (λ _. parse_tcp-Safe buf wire_len h)
      (λ _. if-Safe (protocol == 17) _ _ (λ _. parse_udp-Safe buf wire_len h) (λ _. no_ports-Safe))

-- What the parser promises of the event of a packet of `wire_len` bytes.
abbrev pub IsEvent : ℕ → FlowEvent → Type 0
IsEvent wire_len e =
    (20 ≤ e.bytes)
    × (e.bytes ≤ wire_len)
    × (e.packets ≡ 1)
    × (e.src_port < 2 ^ 16)
    × (e.dst_port < 2 ^ 16)
    × (e.protocol < 2 ^ 8)
    × (e.tcp_flags < 2 ^ 8)

pub flow_event-IsEvent :
    (src dst : IpAddr) (protocol : ℕ) (l4 : L4Info) (packet_len wire_len : ℕ)
    → protocol < 2 ^ 8
    → IsL4 l4
    → 20 ≤ packet_len
    → packet_len < 2 ^ 32
    → packet_len ≤ wire_len
    → IsEvent wire_len (flow_event src dst protocol l4 packet_len)
flow_event-IsEvent src dst protocol l4 packet_len wire_len hp (hs, hd, hf) h1 h2 h3 =
    (omega arith, omega arith, refl, hs, hd, hp, hf)

ipv4_addr-Safe :
    (buf : List ℕ) (i : ℕ)
    → IsBytes buf
    → i + 3 < length buf
    → Safe (λ _. Unit {0}) (ipv4_addr buf i)
unfolding ipv4_addr
ipv4_addr-Safe buf i h hi = bind-Safe _ _ (at-Safe buf i h (omega arith)) (λ a _.
    bind-Safe _ _ (at-Safe buf (i + 1) h (omega arith)) (λ b _.
      bind-Safe _ _ (at-Safe buf (i + 2) h (omega arith))
        (λ c _. bind-Safe _ _ (at-Safe buf (i + 3) h hi) (λ d _. safe_parsed tt))))

first_fragment-Safe :
    (protocol : ℕ) (buf : List ℕ) (ihl total_len : ℕ)
    → IsBytes buf
    → ihl ≤ length buf
    → ihl ≤ total_len
    → Safe IsL4 (first_fragment protocol buf ihl total_len)
unfolding first_fragment
first_fragment-Safe protocol buf ihl total_len h hb ht =
    bind-Safe _ _ (slice-Safe buf ihl (min total_len (length buf)) h (omega arith) (omega arith))
      (λ segment (hs, _).
        bind-Safe _ _ (sub-Safe total_len ihl ht)
          (λ segment_len _. parse_l4-Safe protocol segment segment_len hs))

pub parse_ipv4-Safe :
    (buf : List ℕ) (wire_len : ℕ) → IsBytes buf → Safe (IsEvent wire_len) (parse_ipv4 buf wire_len)
unfolding parse_ipv4
parse_ipv4-Safe buf wire_len h = reject_if-Safe (ltb (length buf) 20) _ (λ long.
    bind-Safe _ _ (at-Safe buf 0 h (ground arith)) (λ version_ihl _.
      reject_if-Safe (not (version_ihl / 16 == 4)) _ (λ version.
        reject_if-Safe (ltb (version_ihl % 16 * 4) 20 || ltb (length buf) (version_ihl % 16 * 4)) _
          (λ ihl_fits. bind-Safe _ _ (be16-Safe buf 2 h (ground arith)) (λ total_len ht.
            reject_if-Safe (ltb total_len (version_ihl % 16 * 4) || ltb wire_len total_len) _
              (λ total_fits. bind-Safe _ _ (at-Safe buf 9 h (ground arith)) (λ protocol hp.
                bind-Safe _ _ (ipv4_addr-Safe buf 12 h (ground arith)) (λ src _.
                  bind-Safe _ _ (ipv4_addr-Safe buf 16 h (ground arith)) (λ dst _.
                    bind-Safe _ _ (be16-Safe buf 6 h (ground arith)) (λ frag _.
                      bind-Safe {P = IsL4} _ _
                        (if-Safe (frag % 2 ^ 13 == 0) _ _
                          (λ _.
                            first_fragment-Safe protocol buf (version_ihl % 16 * 4) total_len h
                              (ground arith) (ground arith))
                          (λ _. no_ports-Safe))
                        (λ l4 hl. safe_parsed (
                          flow_event-IsEvent src dst protocol l4 total_len wire_len hp hl
                            (ground arith) (omega arith) (ground arith)))))))))))))
