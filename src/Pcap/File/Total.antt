-- ===== src/Pcap/File/Total.antt =====
-- lib.rs: `next_event` on any file.
use flowsketch.Base.{
  ℕ, zero, suc, ◌+◌, ◌*◌, ◌/◌, ◌≤◌, ◌<◌, ◌≡◌, ◌≢◌, ◌⊎◌, refl, inl, inr, Option, none, some, false,
  Bool-cases, length, length-drop, take, drop, ltb, leb, ◌==◌, arith,
}
use flowsketch.Base.Bytes.{IsBytes, take-IsBytes, drop-IsBytes}
use flowsketch.Base.Word.{add64}
use flowsketch.Core.Event.{FlowEvent}
use flowsketch.Pcap.File.{
  PcapError, truncated, invalid_timestamp, PcapResult, got, failed, PcapReader, Packet, read_u32,
  read_record, next_packet, stamp, next_event_loop, next_event,
}
use flowsketch.Pcap.Outcome.{Outcome, panicked, rejected, parsed}
use flowsketch.Pcap.Parse.{parse_packet_with_wire_len}
use flowsketch.Pcap.Parse.Packets.{parse_packet_with_wire_len_never_panics}

-- An error, the end of the file, or a packet, with less of the file left.
Next : PcapReader → PcapResult (Option (Packet × PcapReader)) → Type 0
Next r x =
    ((e : PcapError) × (x ≡ failed e))
    ⊎ ((x ≡ got none)
        ⊎ ((p : Packet) × (r' : PcapReader) × (x ≡ got (some (p, r')))
            × (r'.subsec_to_nanos ≡ r.subsec_to_nanos)
            × IsBytes p.captured
            × IsBytes r'.left
            × (length r'.left < length r.left)))

read_record-Next :
    (r : PcapReader) (sec subsec caplen origlen : ℕ)
    → 0 < r.subsec_to_nanos
    → IsBytes r.left
    → 16 ≤ length r.left
    → Next r (read_record r sec subsec caplen origlen)
unfolding Next read_record
read_record-Next r sec subsec caplen origlen scale h long =
    let divides : (r.subsec_to_nanos == 0) ≡ false = ground arith in
    elim (Bool-cases (ltb (256 * 1024) caplen)) [
      | inl a ↦ inl (truncated, rw a refl)
      | inr a ↦ elim (Bool-cases (ltb origlen caplen)) [
        | inl b ↦ inl (truncated, rw (a, b) refl)
        | inr b ↦ elim (Bool-cases (leb (1_000_000_000 / r.subsec_to_nanos) subsec)) [
          | inl c ↦ inl (invalid_timestamp, rw (a, b, divides, c) refl)
          | inr c ↦ elim (Bool-cases (ltb (length r.left) (16 + caplen))) [
            | inl d ↦ inl (truncated, rw (a, b, divides, c, d) refl)
            | inr d ↦ inr (
                inr (
                  record {
                    ts_nanos = sec * 1_000_000_000 + subsec * r.subsec_to_nanos;
                    original_len = origlen;
                    captured = take caplen (drop 16 r.left);
                  },
                  record r {
                    left = drop caplen (drop 16 r.left);
                    packets_read = add64 r.packets_read 1;
                  },
                  rw (a, b, divides, c, d) refl,
                  refl,
                  take-IsBytes caplen (drop 16 r.left) (drop-IsBytes 16 r.left h),
                  drop-IsBytes caplen (drop 16 r.left) (drop-IsBytes 16 r.left h),
                  omega (arith, length-drop caplen (drop 16 r.left), length-drop 16 r.left),
                ))
          ]
        ]
      ]
    ]

next_packet-Next :
    (r : PcapReader) → 0 < r.subsec_to_nanos → IsBytes r.left → Next r (next_packet r)
unfolding Next next_packet
next_packet-Next r scale h = elim (Bool-cases (ltb (length r.left) 16)) [
  | inl e ↦ inr (inl (rw e refl))
  | inr e ↦ rw e (
      read_record-Next r (read_u32 r.swapped 0 r.left) (read_u32 r.swapped 4 r.left)
        (read_u32 r.swapped 8 r.left) (read_u32 r.swapped 12 r.left) scale h (ground arith))
]

outcome_cases :
    (o : Outcome FlowEvent) → o ≢ panicked → (o ≡ rejected) ⊎ ((ev : FlowEvent) × (o ≡ parsed ev))
outcome_cases panicked h = absurd (h refl)
outcome_cases rejected h = inl refl
outcome_cases (parsed ev) h = inr (ev, refl)

-- Not a crash, by the other two.
abbrev pub Returned : PcapResult (Option (FlowEvent × PcapReader)) → Type 0
Returned x =
    ((e : PcapError) × (x ≡ failed e)) ⊎ ((y : Option (FlowEvent × PcapReader)) × (x ≡ got y))

next_event_loop-Returned :
    (fuel : ℕ) (r : PcapReader)
    → 0 < r.subsec_to_nanos
    → IsBytes r.left
    → length r.left < fuel
    → Returned (next_event_loop fuel r)
unfolding Next next_event_loop
next_event_loop-Returned zero r scale h f = absurd (omega arith)
next_event_loop-Returned (suc fuel) r scale h f = elim (next_packet-Next r scale h) [
  | inl (e, run) ↦ inl (e, rw (next_event_loop, run) refl)
  | inr (inl run) ↦ inr (none, rw (next_event_loop, run) refl)
  | inr (inr (p, r', run, same, hp, hr, less)) ↦
      let safe =
        (parse_packet_with_wire_len_never_panics r'.linktype p.captured p.original_len hp).0 in
      elim (outcome_cases (parse_packet_with_wire_len r'.linktype p.captured p.original_len) safe) [
        | inl e ↦
            rw (next_event_loop, run, e)
              (next_event_loop-Returned fuel r' (omega (arith, same)) hr (omega arith))
        | inr (ev, e) ↦ inr (some (stamp p ev, r'), rw (next_event_loop, run, e) refl)
      ]
]

-- On any bytes that are left of a file `next_event` ends without a panic, where the scale of the
-- timestamps is not 0 (`PcapReader::new` sets it to 1 or 1000): with an error, with an event, or at
-- the end of the file.
pub next_event-Returned :
    (r : PcapReader) → 0 < r.subsec_to_nanos → IsBytes r.left → Returned (next_event r)
unfolding next_event
next_event-Returned r scale h = next_event_loop-Returned (length r.left + 1) r scale h (omega arith)
