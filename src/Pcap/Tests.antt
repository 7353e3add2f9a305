-- ===== src/Pcap/Tests.antt =====
-- Concrete packets.
use flowsketch.Base.{ℕ, ◌≡◌, ◌≢◌, refl, List, [], ◌∷◌, ◌++◌, arith, false}
use flowsketch.Base.Bytes.{IsBytes, is_bytes-IsBytes}
use flowsketch.Core.Event.{FlowEvent, v4}
use flowsketch.Pcap.Outcome.{panicked, parsed, slice, slice_from, sub, checked_sub, be16}
use flowsketch.Pcap.Parse.{
  link_ethernet, flow_event, parse_udp, parse_l4, ipv4_addr, first_fragment, parse_ipv4, parse_l3,
  unwrap_tags, parse_ethernet, parse_packet_with_wire_len, parse_packet,
}
use flowsketch.Pcap.Parse.Safety.{IsEvent}
use flowsketch.Pcap.Parse.Packets.{
  parse_packet_with_wire_len_never_panics, parse_packet_with_wire_len-IsEvent,
}
use flowsketch.Pcap.Parse.Frames.{Mac, udp}
use flowsketch.Pcap.Parse.Truncation.{parse_packet_with_wire_len_truncated}
use flowsketch.Pcap.File
use flowsketch.Pcap.File.Total.{Returned, next_event-Returned}
use flowsketch.Pcap.File.{next_event, PcapReader}
use flowsketch.Pcap.File.Jobs.{Job, tcp, udp as udp_job}

-- Ethernet, one VLAN tag, IPv4 and UDP, up to the end of the UDP header.
abbrev captured : List ℕ
captured =
    0 ∷ 0 ∷ 0 ∷ 0 ∷ 0 ∷ 0 ∷ 0 ∷ 0 ∷ 0 ∷ 0 ∷ 0 ∷ 0 ∷ 129 ∷ 0 ∷ 0 ∷ 5 ∷ 8 ∷ 0 ∷ 69 ∷ 0 ∷ 0 ∷ 32 ∷ 0
    ∷ 0 ∷ 0 ∷ 0 ∷ 64 ∷ 17 ∷ 0 ∷ 0 ∷ 10 ∷ 0 ∷ 0 ∷ 1 ∷ 10 ∷ 0 ∷ 0 ∷ 2 ∷ 4 ∷ 210 ∷ 0 ∷ 53 ∷ 0 ∷ 12 ∷ 0
    ∷ 0 ∷ []

abbrev payload : List ℕ
payload = 1 ∷ 2 ∷ 3 ∷ 4 ∷ []

abbrev dns : FlowEvent
dns =
    flow_event (v4 10 0 0 1) (v4 10 0 0 2) 17
      (record { src_port = 1234; dst_port = 53; tcp_flags = 0 }) 32

captured-IsBytes : IsBytes captured
captured-IsBytes = is_bytes-IsBytes captured refl

captured-parsed : parse_packet_with_wire_len link_ethernet captured 50 ≡ parsed dns
unfolding parse_packet_with_wire_len parse_ethernet unwrap_tags parse_l3 parse_ipv4 ipv4_addr
    first_fragment parse_l4 parse_udp slice slice_from sub checked_sub be16
captured-parsed = refl

parse_packet_with_wire_len_never_panics_example :
    (parse_packet_with_wire_len link_ethernet captured 50 ≢ panicked)
    × (parse_packet link_ethernet captured ≢ panicked)
parse_packet_with_wire_len_never_panics_example =
    parse_packet_with_wire_len_never_panics link_ethernet captured 50 captured-IsBytes

parse_packet_with_wire_len-IsEvent_example : IsEvent 50 dns
parse_packet_with_wire_len-IsEvent_example =
    parse_packet_with_wire_len-IsEvent link_ethernet captured 50 captured-IsBytes captured-parsed

parse_packet_with_wire_len_truncated_example :
    parse_packet_with_wire_len link_ethernet (captured ++ payload) 50 ≡ parsed dns
parse_packet_with_wire_len_truncated_example =
    parse_packet_with_wire_len_truncated link_ethernet captured (captured ++ payload) 50
      (payload, refl) (omega arith) captured-parsed

abbrev gateway : Mac
gateway = record { o1 = 2; o2 = 0; o3 = 0; o4 = 0; o5 = 0; o6 = 1 }

abbrev jobs : List Job
jobs =
    record {
      ts_nanos = 1700000000000000123;
      s1 = 10;
      s2 = 0;
      s3 = 1;
      s4 = 10;
      d1 = 10;
      d2 = 0;
      d3 = 2;
      d4 = 50;
      transport = tcp 40000 443 24;
      payload_len = 1200;
    }
    ∷ record {
      ts_nanos = 1700000001000000000;
      s1 = 10;
      s2 = 0;
      s3 = 1;
      s4 = 11;
      d1 = 10;
      d2 = 0;
      d3 = 2;
      d4 = 51;
      transport = udp_job 50000 53;
      payload_len = 300;
    }
    ∷ []

-- What is left of a file whose last record was cut off.
abbrev cut_off : PcapReader
cut_off = record {
  left = captured;
  swapped = false;
  subsec_to_nanos = 1000;
  linktype = link_ethernet;
  packets_read = 2;
}

next_event-Returned_example : Returned (next_event cut_off)
next_event-Returned_example = next_event-Returned cut_off (omega arith) captured-IsBytes
