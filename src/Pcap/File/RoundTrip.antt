-- ===== src/Pcap/File/RoundTrip.antt =====
-- lib.rs against writer.rs: what the reader returns of a file that the writer wrote.
use flowsketch.Base.{
  ℕ, zero, suc, ◌+◌, ◌*◌, ◌/◌, ◌%◌, ◌^◌, ◌≤◌, ◌<◌, ◌≡◌, refl, ◌∙◌, List, ◌++◌, some, false, length,
  length-append, drop, ltb, leb, arith,
}
use flowsketch.Base.Bytes.{le_bytes, from_le-le_bytes, take-append_length, drop-append_length}
use flowsketch.Base.Word.{add64}
use flowsketch.Core.Event.{FlowEvent}
use flowsketch.Pcap.File.{
  got, PcapReader, Packet, read_u32, read_record, next_packet, stamp, next_event_loop, next_event,
}
use flowsketch.Pcap.Outcome.{parsed}
use flowsketch.Pcap.Parse.{link_ethernet, parse_packet_with_wire_len}
use flowsketch.Pcap.Writer.{record_bytes}

-- A record's header before `rest`.
fields : ℕ → ℕ → ℕ → ℕ → List ℕ → List ℕ
fields sec subsec caplen original rest =
    le_bytes 4 sec ++ (le_bytes 4 subsec ++ (le_bytes 4 caplen ++ (le_bytes 4 original ++ rest)))

module _ (sec subsec caplen original : ℕ) (rest : List ℕ) where
  field_0 : sec < 2 ^ 32 → read_u32 false 0 (fields sec subsec caplen original rest) ≡ sec
  unfolding fields read_u32 le_bytes
  field_0 h = from_le-le_bytes 4 sec h

  field_1 : subsec < 2 ^ 32 → read_u32 false 4 (fields sec subsec caplen original rest) ≡ subsec
  unfolding fields read_u32 le_bytes
  field_1 h = from_le-le_bytes 4 subsec h

  field_2 : caplen < 2 ^ 32 → read_u32 false 8 (fields sec subsec caplen original rest) ≡ caplen
  unfolding fields read_u32 le_bytes
  field_2 h = from_le-le_bytes 4 caplen h

  field_3 :
      original < 2 ^ 32 → read_u32 false 12 (fields sec subsec caplen original rest) ≡ original
  unfolding fields read_u32 le_bytes
  field_3 h = from_le-le_bytes 4 original h

  drop-fields : drop 16 (fields sec subsec caplen original rest) ≡ rest
  unfolding fields le_bytes
  drop-fields = refl

  length-fields : length (fields sec subsec caplen original rest) ≡ 16 + length rest
  unfolding fields le_bytes
  length-fields = omega arith

-- A reader of the writer's format that stands before `left`.
abbrev pub reader : List ℕ → ℕ → PcapReader
reader left packets_read = record {
  left = left;
  swapped = false;
  subsec_to_nanos = 1;
  linktype = link_ethernet;
  packets_read = packets_read;
}

read_record_lem :
    (sec subsec original n : ℕ) (left frame rest : List ℕ)
    → length frame ≤ 256 * 1024
    → length frame ≤ original
    → subsec < 1_000_000_000
    → length left ≡ 16 + length (frame ++ rest)
    → drop 16 left ≡ frame ++ rest
    → read_record (reader left n) sec subsec (length frame) original
      ≡ got (
          some (
            record {
              ts_nanos = sec * 1_000_000_000 + subsec * 1;
              original_len = original;
              captured = frame;
            },
            reader rest (add64 n 1),
          ))
unfolding read_record
read_record_lem sec subsec original n left frame rest hl hf hs size here =
    let c1 : ltb (256 * 1024) (length frame) ≡ false = ground arith in
    let c2 : ltb original (length frame) ≡ false = ground arith in
    let c3 : leb (1_000_000_000 / 1) subsec ≡ false = ground arith in
    let c4 : ltb (length left) (16 + length frame) ≡ false =
      ground (arith, length-append frame rest) in
    rw (c1, c2, c3, c4, here, take-append_length frame rest, drop-append_length frame rest) refl

next_packet_lem :
    {sec subsec caplen original : ℕ} (left : List ℕ) (n : ℕ)
    → 16 ≤ length left
    → read_u32 false 0 left ≡ sec
    → read_u32 false 4 left ≡ subsec
    → read_u32 false 8 left ≡ caplen
    → read_u32 false 12 left ≡ original
    → next_packet (reader left n) ≡ read_record (reader left n) sec subsec caplen original
unfolding next_packet
next_packet_lem left n h e0 e1 e2 e3 =
    let long : ltb (length left) 16 ≡ false = ground arith in rw (long, e0, e1, e2, e3) refl

record_bytes-fields :
    (ts original : ℕ) (frame rest : List ℕ)
    → record_bytes ts original frame ++ rest
      ≡ fields (ts / 1_000_000_000) (ts % 1_000_000_000) (length frame) original (frame ++ rest)
unfolding record_bytes fields le_bytes
record_bytes-fields ts original frame rest = refl

-- The record that `write_record` adds comes back with its time, its length and its bytes.
pub next_packet-record_bytes :
    (ts original n : ℕ) (frame rest : List ℕ)
    → ts / 1_000_000_000 < 2 ^ 32
    → length frame ≤ original
    → length frame ≤ 256 * 1024
    → original < 2 ^ 32
    → next_packet (reader (record_bytes ts original frame ++ rest) n)
      ≡ got (
          some (
            record { ts_nanos = ts; original_len = original; captured = frame },
            reader rest (add64 n 1),
          ))
next_packet-record_bytes ts original n frame rest ht hf hl ho =
    let sec = ts / 1_000_000_000 in
    let subsec = ts % 1_000_000_000 in
    let size = length frame in
    let all = fields sec subsec size original (frame ++ rest) in
    let long = length-fields sec subsec size original (frame ++ rest) in
    let whole : sec * 1_000_000_000 + subsec * 1 ≡ ts = omega arith in
    rw (record_bytes-fields ts original frame rest) (
      next_packet_lem all n (omega (arith, long))
        (field_0 sec subsec size original (frame ++ rest) ht)
        (field_1 sec subsec size original (frame ++ rest) (omega arith))
        (field_2 sec subsec size original (frame ++ rest) (omega arith))
        (field_3 sec subsec size original (frame ++ rest) ho)
      ∙ rw whole at (
          read_record_lem sec subsec original n all frame rest hl hf (omega arith) long
            (drop-fields sec subsec size original (frame ++ rest))))

next_event_loop_lem :
    (fuel : ℕ) (r r' : PcapReader) (p : Packet) (ev : FlowEvent)
    → 0 < fuel
    → next_packet r ≡ got (some (p, r'))
    → parse_packet_with_wire_len r'.linktype p.captured p.original_len ≡ parsed ev
    → next_event_loop fuel r ≡ got (some (stamp p ev, r'))
unfolding next_event_loop
next_event_loop_lem zero r r' p ev h next parse = absurd (omega arith)
next_event_loop_lem (suc fuel) r r' p ev h next parse = rw (next_event_loop, next, parse) refl

-- An event that the parser reads from the frame comes back, with the time of its record.
pub next_event-record_bytes :
    (ts original n : ℕ) (frame rest : List ℕ) (ev : FlowEvent)
    → ts / 1_000_000_000 < 2 ^ 32
    → length frame ≤ original
    → length frame ≤ 256 * 1024
    → original < 2 ^ 32
    → parse_packet_with_wire_len link_ethernet frame original ≡ parsed ev
    → next_event (reader (record_bytes ts original frame ++ rest) n)
      ≡ got (
          some (
            stamp (record { ts_nanos = ts; original_len = original; captured = frame }) ev,
            reader rest (add64 n 1),
          ))
unfolding next_event
next_event-record_bytes ts original n frame rest ev ht hf hl ho parse =
    next_event_loop_lem (length (record_bytes ts original frame ++ rest) + 1)
      (reader (record_bytes ts original frame ++ rest) n) (reader rest (add64 n 1))
      (record { ts_nanos = ts; original_len = original; captured = frame }) ev (omega arith)
      (next_packet-record_bytes ts original n frame rest ht hf hl ho) parse
