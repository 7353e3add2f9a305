-- ===== src/Pcap/Parse/Truncation.antt =====
-- The packet parser on a capture that the snap length cut short: it agrees with the whole frame.
use flowsketch.Base.{
  ℕ, zero, suc, ◌+◌, ◌*◌, ◌/◌, ◌%◌, ◌^◌, ◌≤◌, ◌≡◌, refl, min, List, [], ◌∷◌, ◌++◌, length, ltb,
  ◌==◌, ◌||◌, not, if◌then◌else◌, arith,
}
use flowsketch.Core.Event.{FlowEvent}
use flowsketch.Pcap.Outcome.{parsed, ◌>>=◌, slice_from, array16, sub, checked_sub, checked}
use flowsketch.Pcap.Outcome.Below.{
  Keeps, same, below_rejected, below_parsed, bind-Below, bind-Keeps, reject_if-Below, if-Below,
  Keeps-refl, Keeps-parsed, Prefix, at-Keeps, be16-Keeps, length-Prefix, slice-Below,
  get_slice-Below, slice_from-Below, slice-Keeps,
}
use flowsketch.Pcap.Parse.{
  parse_tcp, parse_udp, parse_l4, ipv4_addr, first_fragment, parse_ipv4, Walk, is_option_header,
  skip_options, skip_fragment, finish, walk, parse_ipv6, parse_l3, parse_ip, unwrap_tags, start,
  parse_ethernet, parse_sll, parse_packet_with_wire_len, ethertype_vlan, ethertype_qinq,
  ethertype_ipv4, ethertype_ipv6, link_ethernet, link_raw_ip, link_linux_sll,
}

module _ (xs ys : List ℕ) (p : Prefix xs ys) where
  len : length xs ≤ length ys
  len = length-Prefix xs ys p

  parse_tcp-Keeps : (wire_len : ℕ) → Keeps (parse_tcp xs wire_len) (parse_tcp ys wire_len)
  unfolding parse_tcp
  parse_tcp-Keeps wire_len =
      reject_if-Below (ltb (length xs) 14) (ltb (length ys) 14) _ _ (λ e. ground (arith, len))
        (λ _. bind-Keeps _ _ _ _ (at-Keeps xs ys (12) p) (λ data_offset.
          reject_if-Below
            (ltb (data_offset / 16 * 4) 20
              || ltb wire_len (data_offset / 16 * 4)
              || ltb (length xs) (data_offset / 16 * 4))
            (ltb (data_offset / 16 * 4) 20
              || ltb wire_len (data_offset / 16 * 4)
              || ltb (length ys) (data_offset / 16 * 4))
            _ _ (λ e. ground (arith, len))
            (λ _. bind-Keeps _ _ _ _ (be16-Keeps xs ys (0) p) (λ src.
              bind-Keeps _ _ _ _ (be16-Keeps xs ys (2) p)
                (λ dst. bind-Keeps _ _ _ _ (at-Keeps xs ys (13) p) (λ flags. below_parsed same))))))

  parse_udp-Keeps : (wire_len : ℕ) → Keeps (parse_udp xs wire_len) (parse_udp ys wire_len)
  unfolding parse_udp
  parse_udp-Keeps wire_len =
      reject_if-Below (ltb (length xs) 8) (ltb (length ys) 8) _ _ (λ e. ground (arith, len))
        (λ _. bind-Keeps _ _ _ _ (be16-Keeps xs ys (4) p) (λ udp_len.
          reject_if-Below (ltb udp_len 8 || ltb wire_len udp_len)
            (ltb udp_len 8 || ltb wire_len udp_len) _ _ (λ e. e)
            (λ _.
              bind-Keeps _ _ _ _ (be16-Keeps xs ys (0) p)
                (λ src. bind-Keeps _ _ _ _ (be16-Keeps xs ys (2) p) (λ dst. below_parsed same)))))

  parse_l4-Keeps :
      (protocol wire_len : ℕ)
      → Keeps (parse_l4 protocol xs wire_len) (parse_l4 protocol ys wire_len)
  unfolding parse_l4
  parse_l4-Keeps protocol wire_len =
      if-Below (protocol == 6) _ _ _ _ (parse_tcp-Keeps wire_len)
        (if-Below (protocol == 17) _ _ _ _ (parse_udp-Keeps wire_len) (below_parsed same))

module _ (xs ys : List ℕ) (p : Prefix xs ys) where
  ipv4_addr-Keeps : (i : ℕ) → Keeps (ipv4_addr xs i) (ipv4_addr ys i)
  unfolding ipv4_addr
  ipv4_addr-Keeps i = bind-Keeps _ _ _ _ (at-Keeps xs ys (i) p) (λ a.
      bind-Keeps _ _ _ _ (at-Keeps xs ys (i + 1) p) (λ b.
        bind-Keeps _ _ _ _ (at-Keeps xs ys (i + 2) p)
          (λ c. bind-Keeps _ _ _ _ (at-Keeps xs ys (i + 3) p) (λ d. below_parsed same))))

  first_fragment-Keeps :
      (protocol ihl total_len : ℕ)
      → Keeps (first_fragment protocol xs ihl total_len) (first_fragment protocol ys ihl total_len)
  unfolding first_fragment
  first_fragment-Keeps protocol ihl total_len =
      bind-Below _ _ _ _
        (slice-Below xs ys ihl (min total_len (length xs)) (min total_len (length ys))
          (omega (arith, len xs ys p)) (omega arith) p)
        (λ captured segment q.
          bind-Keeps _ _ _ _ (Keeps-refl (sub total_len ihl))
            (λ segment_len. parse_l4-Keeps captured segment q protocol segment_len))

  parse_ipv4-Keeps : (wire_len : ℕ) → Keeps (parse_ipv4 xs wire_len) (parse_ipv4 ys wire_len)
  unfolding parse_ipv4
  parse_ipv4-Keeps wire_len =
      reject_if-Below (ltb (length xs) 20) (ltb (length ys) 20) _ _
        (λ e. ground (arith, len xs ys p))
        (λ _. bind-Keeps _ _ _ _ (at-Keeps xs ys (0) p) (λ version_ihl.
          reject_if-Below (not (version_ihl / 16 == 4)) (not (version_ihl / 16 == 4)) _ _ (λ e. e)
            (λ _.
              reject_if-Below
                (ltb (version_ihl % 16 * 4) 20 || ltb (length xs) (version_ihl % 16 * 4))
                (ltb (version_ihl % 16 * 4) 20 || ltb (length ys) (version_ihl % 16 * 4)) _ _
                (λ e. ground (arith, len xs ys p))
                (λ _. bind-Keeps _ _ _ _ (be16-Keeps xs ys (2) p) (λ total_len.
                  reject_if-Below (ltb total_len (version_ihl % 16 * 4) || ltb wire_len total_len)
                    (ltb total_len (version_ihl % 16 * 4) || ltb wire_len total_len) _ _ (λ e. e)
                    (λ _. bind-Keeps _ _ _ _ (at-Keeps xs ys (9) p) (λ protocol.
                      bind-Keeps _ _ _ _ (ipv4_addr-Keeps 12) (λ src.
                        bind-Keeps _ _ _ _ (ipv4_addr-Keeps 16) (λ dst.
                          bind-Keeps _ _ _ _ (be16-Keeps xs ys (6) p) (λ frag.
                            bind-Keeps _ _ _ _
                              (if-Below (frag % 2 ^ 13 == 0) _ _ _ _
                                (first_fragment-Keeps protocol (version_ihl % 16 * 4) total_len)
                                (below_parsed same))
                              (λ l4. below_parsed same)))))))))))

  skip_options-Keeps :
      (packet_len : ℕ) (w : Walk)
      → Keeps (skip_options xs packet_len w) (skip_options ys packet_len w)
  unfolding skip_options
  skip_options-Keeps packet_len w =
      bind-Keeps _ _ _ _ (Keeps-refl (checked (w.offset + 8))) (λ fixed_end.
        reject_if-Below (ltb packet_len fixed_end || ltb (length xs) fixed_end)
          (ltb packet_len fixed_end || ltb (length ys) fixed_end) _ _
          (λ e. ground (arith, len xs ys p))
          (λ _. bind-Keeps _ _ _ _ (at-Keeps xs ys (w.offset + 1) p) (λ size.
            bind-Keeps _ _ _ _
              (Keeps-refl
                (if w.next_header == 51 then checked ((size + 2) * 4) else checked (8 + size * 8)))
              (λ size_len.
                bind-Keeps _ _ _ _ (Keeps-refl (checked (w.offset + size_len))) (λ next_offset.
                  reject_if-Below
                    (ltb size_len 8 || ltb packet_len next_offset || ltb (length xs) next_offset)
                    (ltb size_len 8 || ltb packet_len next_offset || ltb (length ys) next_offset) _
                    _ (λ e. ground (arith, len xs ys p))
                    (λ _.
                      bind-Keeps _ _ _ _ (at-Keeps xs ys (w.offset) p)
                        (λ next. below_parsed same)))))))

  skip_fragment-Keeps :
      (packet_len : ℕ) (w : Walk)
      → Keeps (skip_fragment xs packet_len w) (skip_fragment ys packet_len w)
  unfolding skip_fragment
  skip_fragment-Keeps packet_len w =
      bind-Keeps _ _ _ _ (Keeps-refl (checked (w.offset + 8))) (λ next_offset.
        reject_if-Below (ltb packet_len next_offset || ltb (length xs) next_offset)
          (ltb packet_len next_offset || ltb (length ys) next_offset) _ _
          (λ e. ground (arith, len xs ys p))
          (λ _.
            bind-Keeps _ _ _ _ (be16-Keeps xs ys (w.offset + 2) p) (λ frag.
              bind-Keeps _ _ _ _ (at-Keeps xs ys (w.offset) p) (λ next. below_parsed same))))

  finish-Keeps :
      (packet_len : ℕ) (w : Walk) → Keeps (finish xs packet_len w) (finish ys packet_len w)
  unfolding finish
  finish-Keeps packet_len w =
      bind-Below _ _ _ _
        (get_slice-Below xs ys w.offset (min packet_len (length xs)) (min packet_len (length ys))
          (omega (arith, len xs ys p)) (omega arith) p)
        (λ captured segment q.
          bind-Keeps _ _ _ _ (Keeps-refl (checked_sub packet_len w.offset)) (λ segment_len.
            bind-Keeps _ _ _ _ (parse_l4-Keeps captured segment q w.next_header segment_len)
              (λ l4. below_parsed same)))

  walk-Keeps :
      (rounds packet_len : ℕ) (w : Walk)
      → Keeps (walk rounds xs packet_len w) (walk rounds ys packet_len w)
  unfolding walk
  walk-Keeps zero packet_len w = below_parsed same
  walk-Keeps (suc rounds) packet_len w =
      if-Below (is_option_header w.next_header) _ _ _ _
        (bind-Keeps _ _ _ _ (skip_options-Keeps packet_len w) (walk-Keeps rounds packet_len))
        (if-Below (w.next_header == 44) _ _ _ _
          (bind-Keeps _ _ _ _ (skip_fragment-Keeps packet_len w) (λ w'.
            if-Below w'.non_first_fragment _ _ _ _ (below_parsed same)
              (walk-Keeps rounds packet_len w')))
          (finish-Keeps packet_len w))

  parse_ipv6-Keeps : (wire_len : ℕ) → Keeps (parse_ipv6 xs wire_len) (parse_ipv6 ys wire_len)
  unfolding parse_ipv6
  parse_ipv6-Keeps wire_len =
      reject_if-Below (ltb (length xs) 40) (ltb (length ys) 40) _ _
        (λ e. ground (arith, len xs ys p))
        (λ long. bind-Keeps _ _ _ _ (at-Keeps xs ys (0) p) (λ version.
          reject_if-Below (not (version / 16 == 6)) (not (version / 16 == 6)) _ _ (λ e. e)
            (λ _. bind-Keeps _ _ _ _ (be16-Keeps xs ys (4) p) (λ payload_len.
              reject_if-Below (payload_len == 0) (payload_len == 0) _ _ (λ e. e)
                (λ _. bind-Keeps _ _ _ _ (Keeps-refl (checked (40 + payload_len))) (λ packet_len.
                  reject_if-Below (ltb wire_len packet_len) (ltb wire_len packet_len) _ _ (λ e. e)
                    (λ _. bind-Keeps _ _ _ _ (at-Keeps xs ys (6) p) (λ first_header.
                      bind-Keeps _ _ _ _ (slice-Keeps xs ys 8 24 (ground arith) p) (λ src_bytes.
                        bind-Keeps _ _ _ _ (Keeps-refl (array16 src_bytes)) (λ src.
                          bind-Keeps _ _ _ _ (slice-Keeps xs ys 24 40 (ground arith) p)
                            (λ dst_bytes.
                              bind-Keeps _ _ _ _ (Keeps-refl (array16 dst_bytes)) (λ dst.
                                bind-Keeps _ _ _ _ (walk-Keeps 6 packet_len (start first_header))
                                  (λ w. Keeps-refl _)))))))))))))

  parse_l3-Keeps :
      (ethertype wire_len : ℕ)
      → Keeps (parse_l3 ethertype xs wire_len) (parse_l3 ethertype ys wire_len)
  unfolding parse_l3
  parse_l3-Keeps ethertype wire_len =
      if-Below (ethertype == ethertype_ipv4) _ _ _ _ (parse_ipv4-Keeps wire_len)
        (if-Below (ethertype == ethertype_ipv6) _ _ _ _ (parse_ipv6-Keeps wire_len) below_rejected)

  unwrap_tags-Keeps :
      (rounds ethertype offset : ℕ)
      → Keeps (unwrap_tags rounds xs ethertype offset) (unwrap_tags rounds ys ethertype offset)
  unfolding unwrap_tags
  unwrap_tags-Keeps zero ethertype offset = below_parsed same
  unwrap_tags-Keeps (suc rounds) ethertype offset =
      if-Below (ethertype == ethertype_vlan || ethertype == ethertype_qinq) _ _ _ _
        (reject_if-Below (ltb (length xs) (offset + 4)) (ltb (length ys) (offset + 4)) _ _
          (λ e. ground (arith, len xs ys p))
          (λ _.
            bind-Keeps _ _ _ _ (be16-Keeps xs ys (offset + 2) p)
              (λ inner. unwrap_tags-Keeps rounds inner (offset + 4))))
        (unwrap_tags-Keeps rounds ethertype offset)

parse_ip-Keeps :
    (xs ys : List ℕ) (wire_len : ℕ)
    → Prefix xs ys
    → Keeps (parse_ip xs wire_len) (parse_ip ys wire_len)
unfolding parse_ip
parse_ip-Keeps [] ys wire_len p = below_rejected
parse_ip-Keeps (b ∷ bs) ys wire_len (zs, e) = rw e (
    if-Below (b / 16 == 4) _ _ _ _ (parse_ipv4-Keeps (b ∷ bs) (b ∷ (bs ++ zs)) (zs, refl) wire_len)
      (if-Below (b / 16 == 6) _ _ _ _
        (parse_ipv6-Keeps (b ∷ bs) (b ∷ (bs ++ zs)) (zs, refl) wire_len) below_rejected))

module _ (xs ys : List ℕ) (p : Prefix xs ys) (wire_len : ℕ) where
  l3-Keeps :
      (ethertype offset : ℕ)
      → Keeps
          (slice_from xs offset >>= λ packet.
            checked_sub wire_len offset >>= λ n. parse_l3 ethertype packet n)
          (slice_from ys offset >>= λ packet.
            checked_sub wire_len offset >>= λ n. parse_l3 ethertype packet n)
  l3-Keeps ethertype offset =
      bind-Below _ _ _ _ (slice_from-Below xs ys offset p) (λ captured packet q.
        bind-Keeps _ _ _ _ (Keeps-refl (checked_sub wire_len offset))
          (λ n. parse_l3-Keeps captured packet q ethertype n))

  parse_ethernet-Keeps : Keeps (parse_ethernet xs wire_len) (parse_ethernet ys wire_len)
  unfolding parse_ethernet
  parse_ethernet-Keeps =
      reject_if-Below (ltb (length xs) 14) (ltb (length ys) 14) _ _
        (λ e. ground (arith, len xs ys p))
        (λ _. bind-Keeps _ _ _ _ (be16-Keeps xs ys 12 p) (λ outer.
          bind-Keeps _ _ _ _ (unwrap_tags-Keeps xs ys p 2 outer 14)
            (λ (ethertype, offset). l3-Keeps ethertype offset)))

  parse_sll-Keeps : Keeps (parse_sll xs wire_len) (parse_sll ys wire_len)
  unfolding parse_sll
  parse_sll-Keeps =
      reject_if-Below (ltb (length xs) 16) (ltb (length ys) 16) _ _
        (λ e. ground (arith, len xs ys p))
        (λ _. bind-Keeps _ _ _ _ (be16-Keeps xs ys 14 p) (λ ethertype. l3-Keeps ethertype 16))

  parse_packet_with_wire_len-Keeps :
      (link : ℕ)
      → length ys ≤ wire_len
      → Keeps
          (parse_packet_with_wire_len link xs wire_len)
          (parse_packet_with_wire_len link ys wire_len)
  unfolding parse_packet_with_wire_len
  parse_packet_with_wire_len-Keeps link h =
      reject_if-Below (ltb wire_len (length xs)) (ltb wire_len (length ys)) _ _ (λ e. ground arith)
        (λ _. if-Below (link == link_ethernet) _ _ _ _ parse_ethernet-Keeps (
          if-Below (link == link_raw_ip) _ _ _ _ (parse_ip-Keeps xs ys wire_len p)
            (if-Below (link == link_linux_sll) _ _ _ _ parse_sll-Keeps below_rejected)))

-- When the captured start of a frame, with the frame's wire length, is accepted, the parser gives the whole
-- frame the same event, if the frame is no longer than that wire length: a snap length makes packets
-- unreadable, never different.
pub parse_packet_with_wire_len_truncated :
    (link : ℕ) (captured frame : List ℕ) (wire_len : ℕ) {event : FlowEvent}
    → Prefix captured frame
    → length frame ≤ wire_len
    → parse_packet_with_wire_len link captured wire_len ≡ parsed event
    → parse_packet_with_wire_len link frame wire_len ≡ parsed event
parse_packet_with_wire_len_truncated link captured frame wire_len p h =
    Keeps-parsed _ _ (parse_packet_with_wire_len-Keeps captured frame p wire_len link h)
