-- ===== src/Pcap.antt =====
-- crates/flowsketch-pcap/src: the packet parser of the capture agent.
pub mod Outcome
pub mod Parse
pub mod Writer
pub mod File
mod Tests
