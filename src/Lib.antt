-- ===== src/Lib.antt =====
-- A verification library of FlowSketch: mergeable traffic sketches, the snapshots that carry them
-- between machines, the packet parser that feeds them, and the windowed runtime that runs them.
--
-- The program. A capture agent parses packets (crates/flowsketch-pcap) into flow events
-- (crates/flowsketch-core, event.rs). A runtime keeps one sketch for each query
-- (crates/flowsketch-algos), which hashes keys with the hash family of
-- crates/flowsketch-core/src/hash.rs. Sketches leave a process as snapshots
-- (crates/flowsketch-core/src/snapshot.rs) and are merged, if they are compatible
-- (crates/flowsketch-core/src/sketch.rs), by a gateway or by the command line.
--
-- The files.
--   Base: shared names, tests, lists, words of 64 bits, bytes, integers.
--   Core/Error: crates/flowsketch-core/src/error.rs, `SketchError` and `Result`.
--   Core/Hash: hash.rs, `splitmix64`, `hash64` (its byte loop is `fnv`), `RowHashes` (`row_hashes`,
--     `index`, `sign`); Hash/Mixer and Hash/Collisions hold its laws.
--   Core/Sketch: sketch.rs, `SketchCompatibility::ensure_matches`.
--   Core/Wire: the `Writer` and the `Reader` of snapshot.rs. Wire/Laws says which bytes a reader
--     consumes, composed along a do block.
--   Core/Snapshot: `write_snapshot` and `read_snapshot`; Snapshot/RoundTrip, Snapshot/Damage.
--   Core/Event: event.rs, `FlowEvent`.
--   Core/Field: field.rs, the fields of an event and the bytes of a group key. Field/Decimal is
--     about `append_decimal`, Field/Keys about whole keys.
--   Algos/Truth: the specification, the weight that a stream of (key, weight) holds for a key.
--   Algos/CountMin: crates/flowsketch-algos/src/count_min.rs. CountMin/Rows and CountMin/Table are
--     the loops over rows, CountMin/Estimates, CountMin/Merge and CountMin/Modes the guarantees,
--     CountMin/Codec the snapshots.
--   Algos/Counters: the `HashMap<Vec<u8>, u64>` of the counter sketches.
--   Algos/MisraGries: crates/flowsketch-algos/src/misra_gries.rs. MisraGries/Step is one update,
--     MisraGries/Guarantee a stream, MisraGries/Sorted and MisraGries/Merge trimming and merging.
--   Algos/Exact: crates/flowsketch-algos/src/exact.rs, with Algos/Sets, the map of sets of its
--     distinct counts; Exact/Truths compares it with its observations.
--   Algos/HyperLogLog: crates/flowsketch-algos/src/hll.rs. HyperLogLog/Registers and
--     HyperLogLog/Union read every storage as registers, HyperLogLog/Sorted is the invariant of the
--     storage, HyperLogLog/Codec the snapshots. `dense_registers` is what `ensure_dense` stores.
--   Algos/CountSketch: crates/flowsketch-algos/src/count_sketch.rs, with CountSketch/Linear on
--     streams and merges and CountSketch/Codec the snapshots.
--   Algos/SpaceSaving: crates/flowsketch-algos/src/space_saving.rs. SpaceSaving/Index is the index
--     from digests to slots (`key_index`), SpaceSaving/Heap the heap of slots, SpaceSaving/Update
--     `add` (split into `raise` for a tracked key and `track` for another) and `get`,
--     SpaceSaving/Merge `top_k` and `merge_from`, SpaceSaving/Codec the snapshots. Heap/Links,
--     Heap/Swap, Heap/Down and Heap/Up carry the heap's invariants through the sifts,
--     Index/Buckets counts slots in buckets, SpaceSaving/Consistent joins both, and
--     SpaceSaving/Guarantee compares the slots with the stream.
--   Pcap/Parse: crates/flowsketch-pcap/src/parse.rs. Parse/Safety and Parse/Packets bound what the
--     parser does on any input, Parse/Truncation compares captures of one frame,
--     Parse/Frames builds frames from their fields.
--   Pcap/File: crates/flowsketch-pcap/src/lib.rs, `PcapReader`; Pcap/Writer: writer.rs,
--     `PcapWriter`. Writer/Frame reads a built frame with the parser, File/RoundTrip one record,
--     File/Jobs one packet from its fields, File/Written whole files that the writer wrote, File/Total
--     any file.
--   Ir/Logical, Ir/Physical: logical.rs and physical.rs of crates/flowsketch-ir/src.
--   Planner: crates/flowsketch-planner/src/lib.rs, `maximum_stored_key_bytes` (its `match` is
--     `stored_fields`), which Planner/Keys compares with the keys of Core/Field.
--   Runtime: crates/flowsketch-runtime/src/lib.rs. Runtime/Run is how a method on `&mut self`
--     ends. Runtime/States is the interface of a bucket's sketch state (`QueryState`): build,
--     update, merge, with the laws that make states mergeable. Runtime/Query is `RunningQuery`;
--     Query/Contents says what the buckets hold of each slide, Query/Weights what an event of
--     each measure counts for; Query/Ring, Query/Slide and Query/Loops carry the invariant of the
--     ring through one slide and the loops, Query/Rebuild, Query/Jump and Query/Advance through
--     `advance_to_bucket`, Query/Process and Query/Counting through `process`, Query/Finish
--     through `finish`. Runtime/Distinct fills the interface with the HyperLogLog of a global
--     distinct count. Runtime/Engine is `QueryEngine` over queries with their plans
--     (`process_event` is its `process`, `finish_all` its `finish`); Engine/Preflight and
--     Engine/Watermark are about its two passes over the queries, Engine/Drain about
--     `take_window_states`.
--   */Tests: runs at concrete inputs.
--
-- How the model reads the code.
--   A machine integer is a native natural number. Additions that the code does not check wrap as in
--   a release build (`add64`, `mul64`); the guarantees of the sketches assume a total weight below
--   2^64 where wrapping would matter. An `i64` of the count sketch is its word in two's complement.
--   `usize` has 64 bits. The number of cells of a table, `width * depth`, and the place of a cell in
--   it do not wrap in the model: they stand for tables that fit in memory, of fewer than 2^64 cells. `&mut self` is a sketch in and a sketch out. An error carries the fixed
--   text of its message, without the values that `format!` inserts. A hash map is an association
--   list with one entry for a key, or, for the SpaceSaving index, a function; no modelled operation
--   depends on the order of iteration. A panic is a value: `none` in MisraGries.add, for the
--   `expect` on the least counter, `none` in SpaceSaving, for an index out of bounds and an
--   `expect`, `crashed` in Pcap/File, and `panicked` in the packet parser, for an index, a slice, a
--   subtraction or a conversion that fails.
--
-- Loops and fuel. Loops over a list or a count are structural: the rows of a sketch, two VLAN
--   tags (`unwrap_tags 2`), six extension headers (`walk 6`). The loop of
--   `MisraGries::trim_to_capacity` runs on fuel 2, which is enough: subtracting the excess-th
--   smallest count drops at least the excess, so that the second test ends the loop. The `while` of
--   `advance_to_bucket` has fuel for one round more than the slides up to the target, and the
--   `loop` of `rebuild_trailing_ring` as much as the ring has buckets; a loop that used it up would
--   end in `out_of_fuel`, which the theorems about advancing exclude. The sifts of the SpaceSaving
--   heap have fuel for one round more than the index, or the heap, has places, and `next_event` for
--   one round more than the bytes left in the file, of which a record takes 16. The digits of a
--   number fill at most the 20 bytes of the code's buffer.
--
-- Parameters. `display_ipv6` stands for the standard library's text of an IPv6 address, from its
--   octets: at most 39 bytes, at least one, and never the separator of group keys.
--
-- Not modelled: the memory that containers reserve, input and output errors other than the end of a
--   file, floating-point parameters, thresholds and estimators, display and serde, memory
--   accounting but for stored keys, the key buffers of a running query (`key_buf` and `distinct_buf`, which are cleared
--   before use), the other sketches and the enumeration of them in `QueryState`, the sharded
--   engine and its threads, the rest of the planner, the gateway, the agent, the command line, the kernel
--   bindings and the exporters.
pub mod Base
pub mod Core
pub mod Algos
pub mod Pcap
pub mod Ir
pub mod Planner
pub mod Runtime
