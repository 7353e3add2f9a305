-- ===== src/Pcap/File/Written.antt =====
-- lib.rs and writer.rs: whole files, from `PcapWriter::new` to `next_event`.
use flowsketch.Base.{ℕ, zero, suc, List, [], ◌∷◌, ◌++◌, none, some}
use flowsketch.Core.Event.{FlowEvent}
use flowsketch.Pcap.File
use flowsketch.Pcap.File.{PcapResult, got, failed, crashed, PcapReader, Packet, stamp, next_event}
use flowsketch.Pcap.File.Jobs.{Job, bytes_of}

-- A caller's loop over `next_event`, to the end of the file.
pub read_events : ℕ → PcapReader → PcapResult (List FlowEvent)
read_events zero r = crashed
read_events (suc fuel) r = elim (next_event r) [
  | crashed ↦ crashed
  | failed e ↦ failed e
  | got none ↦ got []
  | got (some (ev, r')) ↦ elim (read_events fuel r') [
    | got evs ↦ got (ev ∷ evs)
    | failed e ↦ failed e
    | crashed ↦ crashed
  ]
]

bytes_all : List Job → ℕ → List ℕ
bytes_all [] limit = []
bytes_all (j ∷ js) limit = bytes_of j limit ++ bytes_all js limit
