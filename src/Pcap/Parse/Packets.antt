-- ===== src/Pcap/Parse/Packets.antt =====
-- The packet parser on every input, continued: IPv6, the link layers and the entry points.
use flowsketch.Base.{
  ℕ, zero, suc, ◌+◌, ◌*◌, ◌/◌, ◌^◌, ◌<◌, ◌≤◌, ◌≡◌, ◌≢◌, min, List, [], ◌∷◌, length, ltb, ◌==◌, ◌||◌,
  ◌&&◌, not, if◌then◌else◌, arith,
}
use flowsketch.Base.Bytes.{IsBytes}
use flowsketch.Core.Event.{FlowEvent, v6}
use flowsketch.Pcap.Outcome.{
  Outcome, panicked, rejected, parsed, ◌>>=◌, slice_from, checked_sub, checked,
}
use flowsketch.Pcap.Outcome.Safe.{
  Safe, safe_rejected, safe_parsed, bind-Safe, reject_if-Safe, if-Safe, Safe-parsed, Safe-panicked,
  at-Safe, be16-Safe, slice-Safe, get_slice-Safe, slice_from-Safe, array16-Safe, checked_sub-Safe,
  checked-Safe,
}
use flowsketch.Pcap.Parse.{
  Walk, is_option_header, skip_options, skip_fragment, finish, walk, parse_ipv6, parse_l3, parse_ip,
  unwrap_tags, start, parse_ethernet, parse_sll, parse_packet, parse_packet_with_wire_len,
  ethertype_vlan, ethertype_qinq, ethertype_ipv4, ethertype_ipv6, link_ethernet, link_raw_ip,
  link_linux_sll,
}
use flowsketch.Pcap.Parse.Safety.{IsL4, IsEvent, parse_l4-Safe, flow_event-IsEvent, parse_ipv4-Safe}

-- The loop's variables stay within the packet and its capture.
abbrev IsWalk : List ℕ → ℕ → Walk → Type 0
IsWalk buf packet_len w =
    (w.offset ≤ packet_len) × (w.offset ≤ length buf) × (w.next_header < 2 ^ 8) × IsL4 w.l4

checked_any-Safe : (n : ℕ) → Safe (λ _. Unit {0}) (checked n)
unfolding checked
checked_any-Safe n = if-Safe (ltb n (2 ^ 64)) _ _ (λ _. safe_parsed tt) (λ _. safe_rejected)

len-Safe :
    (header size : ℕ)
    → Safe
        (λ _. Unit {0})
        (if header == 51 then checked ((size + 2) * 4) else checked (8 + size * 8))
len-Safe header size =
    if-Safe (header == 51) _ _ (λ _. checked_any-Safe ((size + 2) * 4))
      (λ _. checked_any-Safe (8 + size * 8))

module _ (buf : List ℕ) (packet_len : ℕ) (h : IsBytes buf) where
  skip_options-Safe :
      (w : Walk)
      → IsWalk buf packet_len w
      → Safe (IsWalk buf packet_len) (skip_options buf packet_len w)
  unfolding skip_options
  skip_options-Safe w (_, _, _, hl) = bind-Safe _ _ (checked-Safe (w.offset + 8)) (λ fixed_end he.
      reject_if-Safe (ltb packet_len fixed_end || ltb (length buf) fixed_end) _ (λ fixed_fits.
        bind-Safe _ _ (at-Safe buf (w.offset + 1) h (ground arith)) (λ size _.
          bind-Safe {P = λ _. Unit {0}} _ _ (len-Safe w.next_header size) (λ len _.
            bind-Safe _ _ (checked-Safe (w.offset + len)) (λ next_offset _.
              reject_if-Safe
                (ltb len 8 || ltb packet_len next_offset || ltb (length buf) next_offset) _
                (λ next_fits.
                  bind-Safe _ _ (at-Safe buf w.offset h (ground arith))
                    (λ next hn. safe_parsed (ground arith, ground arith, hn, hl))))))))

  skip_fragment-Safe :
      (w : Walk)
      → IsWalk buf packet_len w
      → Safe (IsWalk buf packet_len) (skip_fragment buf packet_len w)
  unfolding skip_fragment
  skip_fragment-Safe w (_, _, _, hl) =
      bind-Safe _ _ (checked-Safe (w.offset + 8)) (λ next_offset he.
        reject_if-Safe (ltb packet_len next_offset || ltb (length buf) next_offset) _ (λ fits.
          bind-Safe _ _ (be16-Safe buf (w.offset + 2) h (ground arith)) (λ frag _.
            bind-Safe _ _ (at-Safe buf w.offset h (ground arith))
              (λ next hn. safe_parsed (ground arith, ground arith, hn, hl)))))

  finish-Safe :
      (w : Walk) → IsWalk buf packet_len w → Safe (IsWalk buf packet_len) (finish buf packet_len w)
  unfolding finish
  finish-Safe w (h1, h2, h3, _) =
      bind-Safe _ _ (get_slice-Safe buf w.offset (min packet_len (length buf)) h)
        (λ segment (hs, _). bind-Safe _ _ (checked_sub-Safe packet_len w.offset) (λ segment_len _.
          bind-Safe _ _ (parse_l4-Safe w.next_header segment segment_len hs)
            (λ l4 hl. safe_parsed (h1, h2, h3, hl))))

  walk-Safe :
      (rounds : ℕ) (w : Walk)
      → IsWalk buf packet_len w
      → Safe (IsWalk buf packet_len) (walk rounds buf packet_len w)
  unfolding walk
  walk-Safe zero w hw = safe_parsed hw
  walk-Safe (suc rounds) w hw =
      if-Safe (is_option_header w.next_header) _ _
        (λ _. bind-Safe _ _ (skip_options-Safe w hw) (λ w' hw'. walk-Safe rounds w' hw'))
        (λ _.
          if-Safe (w.next_header == 44) _ _
            (λ _. bind-Safe _ _ (skip_fragment-Safe w hw) (λ w' hw'.
              if-Safe w'.non_first_fragment _ _ (λ _. safe_parsed hw')
                (λ _. walk-Safe rounds w' hw')))
            (λ _. finish-Safe w hw))

parse_ipv6-Safe :
    (buf : List ℕ) (wire_len : ℕ) → IsBytes buf → Safe (IsEvent wire_len) (parse_ipv6 buf wire_len)
unfolding parse_ipv6
parse_ipv6-Safe buf wire_len h = reject_if-Safe (ltb (length buf) 40) _ (λ long.
    bind-Safe _ _ (at-Safe buf 0 h (ground arith)) (λ version _.
      reject_if-Safe (not (version / 16 == 6)) _ (λ is_v6.
        bind-Safe _ _ (be16-Safe buf 4 h (ground arith)) (λ payload_len hp.
          reject_if-Safe (payload_len == 0) _ (λ some_payload.
            bind-Safe _ _ (checked-Safe (40 + payload_len)) (λ packet_len he.
              reject_if-Safe (ltb wire_len packet_len) _ (λ fits.
                bind-Safe _ _ (at-Safe buf 6 h (ground arith)) (λ first_header hh.
                  bind-Safe _ _ (slice-Safe buf 8 24 h (omega arith) (ground arith))
                    (λ src_bytes (_, ns).
                      bind-Safe _ _ (array16-Safe src_bytes (omega arith)) (λ src _.
                        bind-Safe _ _ (slice-Safe buf 24 40 h (omega arith) (ground arith))
                          (λ dst_bytes (_, nd).
                            bind-Safe _ _ (array16-Safe dst_bytes (omega arith)) (λ dst _.
                              bind-Safe _ _
                                (walk-Safe buf packet_len h 6 (start first_header) (
                                  omega arith,
                                  ground arith,
                                  hh,
                                  (omega arith, omega arith, omega arith),
                                ))
                                (λ w (_, _, hn, hl).
                                  reject_if-Safe
                                    ((is_option_header w.next_header || w.next_header == 44)
                                      && not w.non_first_fragment)
                                    _
                                    (λ _. safe_parsed (
                                      flow_event-IsEvent (v6 src) (v6 dst) w.next_header w.l4
                                        packet_len wire_len hn hl (omega arith) (omega arith)
                                        (ground arith))))))))))))))))

parse_l3-Safe :
    (ethertype : ℕ) (buf : List ℕ) (wire_len : ℕ)
    → IsBytes buf
    → Safe (IsEvent wire_len) (parse_l3 ethertype buf wire_len)
unfolding parse_l3
parse_l3-Safe ethertype buf wire_len h =
    if-Safe (ethertype == ethertype_ipv4) _ _ (λ _. parse_ipv4-Safe buf wire_len h)
      (λ _.
        if-Safe (ethertype == ethertype_ipv6) _ _ (λ _. parse_ipv6-Safe buf wire_len h)
          (λ _. safe_rejected))

parse_ip-Safe :
    (buf : List ℕ) (wire_len : ℕ) → IsBytes buf → Safe (IsEvent wire_len) (parse_ip buf wire_len)
unfolding parse_ip
parse_ip-Safe [] wire_len h = safe_rejected
parse_ip-Safe (b ∷ bs) wire_len h =
    if-Safe (b / 16 == 4) _ _ (λ _. parse_ipv4-Safe (b ∷ bs) wire_len h)
      (λ _.
        if-Safe (b / 16 == 6) _ _ (λ _. parse_ipv6-Safe (b ∷ bs) wire_len h) (λ _. safe_rejected))

widen-Safe :
    (n wire_len : ℕ) (m : Outcome FlowEvent)
    → n ≤ wire_len
    → Safe (IsEvent n) m
    → Safe (IsEvent wire_len) m
widen-Safe n wire_len panicked hn h = elim h [ ]
widen-Safe n wire_len rejected hn h = safe_rejected
widen-Safe n wire_len (parsed e) hn (safe_parsed (h1, h2, h3, h4, h5, h6, h7)) =
    safe_parsed (h1, omega arith, h3, h4, h5, h6, h7)

-- The rest of a frame behind a link header that ends at `offset`.
l3-Safe :
    (ethertype offset : ℕ) (buf : List ℕ) (wire_len : ℕ)
    → IsBytes buf
    → offset ≤ length buf
    → Safe (IsEvent wire_len) (
        slice_from buf offset >>= λ packet.
        checked_sub wire_len offset >>= λ n. parse_l3 ethertype packet n)
l3-Safe ethertype offset buf wire_len h ho =
    bind-Safe _ _ (slice_from-Safe buf offset h ho) (λ packet (hp, _).
      bind-Safe _ _ (checked_sub-Safe wire_len offset)
        (λ n hn. widen-Safe n wire_len _ (omega arith) (parse_l3-Safe ethertype packet n hp)))

unwrap_tags-Safe :
    (rounds : ℕ) (buf : List ℕ) (ethertype offset : ℕ)
    → IsBytes buf
    → offset ≤ length buf
    → Safe (λ (_, end). end ≤ length buf) (unwrap_tags rounds buf ethertype offset)
unfolding unwrap_tags
unwrap_tags-Safe zero buf ethertype offset h ho = safe_parsed ho
unwrap_tags-Safe (suc rounds) buf ethertype offset h ho =
    if-Safe (ethertype == ethertype_vlan || ethertype == ethertype_qinq) _ _
      (λ _. reject_if-Safe (ltb (length buf) (offset + 4)) _ (λ long.
        bind-Safe _ _ (be16-Safe buf (offset + 2) h (ground arith))
          (λ inner _. unwrap_tags-Safe rounds buf inner (offset + 4) h (ground arith))))
      (λ _. unwrap_tags-Safe rounds buf ethertype offset h ho)

parse_ethernet-Safe :
    (buf : List ℕ) (wire_len : ℕ)
    → IsBytes buf
    → Safe (IsEvent wire_len) (parse_ethernet buf wire_len)
unfolding parse_ethernet
parse_ethernet-Safe buf wire_len h = reject_if-Safe (ltb (length buf) 14) _ (λ long.
    bind-Safe _ _ (be16-Safe buf 12 h (ground arith)) (λ outer _.
      bind-Safe _ _ (unwrap_tags-Safe 2 buf outer 14 h (ground arith))
        (λ (ethertype, offset) ho. l3-Safe ethertype offset buf wire_len h ho)))

parse_sll-Safe :
    (buf : List ℕ) (wire_len : ℕ) → IsBytes buf → Safe (IsEvent wire_len) (parse_sll buf wire_len)
unfolding parse_sll
parse_sll-Safe buf wire_len h = reject_if-Safe (ltb (length buf) 16) _ (λ long.
    bind-Safe _ _ (be16-Safe buf 14 h (ground arith))
      (λ ethertype _. l3-Safe ethertype 16 buf wire_len h (ground arith)))

parse_packet_with_wire_len-Safe :
    (link : ℕ) (buf : List ℕ) (wire_len : ℕ)
    → IsBytes buf
    → Safe (IsEvent wire_len) (parse_packet_with_wire_len link buf wire_len)
unfolding parse_packet_with_wire_len
parse_packet_with_wire_len-Safe link buf wire_len h =
    reject_if-Safe (ltb wire_len (length buf)) _ (λ _.
      if-Safe (link == link_ethernet) _ _ (λ _. parse_ethernet-Safe buf wire_len h)
        (λ _.
          if-Safe (link == link_raw_ip) _ _ (λ _. parse_ip-Safe buf wire_len h)
            (λ _.
              if-Safe (link == link_linux_sll) _ _ (λ _. parse_sll-Safe buf wire_len h)
                (λ _. safe_rejected))))

-- On any captured bytes, link type and wire length the packet parser does not panic, and neither does
-- the entry point that takes the captured length for the wire length: every index, slice, subtraction and
-- array conversion in them is within its bounds.
pub parse_packet_with_wire_len_never_panics :
    (link : ℕ) (buf : List ℕ) (wire_len : ℕ)
    → IsBytes buf
    → (parse_packet_with_wire_len link buf wire_len ≢ panicked) × (parse_packet link buf ≢ panicked)
unfolding parse_packet
parse_packet_with_wire_len_never_panics link buf wire_len h = (
  Safe-panicked _ (parse_packet_with_wire_len-Safe link buf wire_len h),
  Safe-panicked _ (
      reject_if-Safe (not (ltb (length buf) (2 ^ 32))) _
        (λ _. parse_packet_with_wire_len-Safe link buf (length buf) h)),
)

-- An event that the packet parser accepts counts one packet, of at least 20 bytes and at most the wire
-- length, and its ports, its protocol and its TCP flags fit their integer types.
pub parse_packet_with_wire_len-IsEvent :
    (link : ℕ) (buf : List ℕ) (wire_len : ℕ) {event : FlowEvent}
    → IsBytes buf
    → parse_packet_with_wire_len link buf wire_len ≡ parsed event
    → IsEvent wire_len event
parse_packet_with_wire_len-IsEvent link buf wire_len h e =
    Safe-parsed _ (parse_packet_with_wire_len-Safe link buf wire_len h) e
