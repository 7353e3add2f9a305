-- ===== src/Ir/Logical.antt =====
-- crates/flowsketch-ir/src/logical.rs: windows, measures and filters. The error contract, alert thresholds
-- and the quantile of `Quantile` are floating point and left out.
use flowsketch.Base.{
  ℕ, ◌/◌, max, List, [], ◌∷◌, Option, none, some, Bool, true, false, not, ◌&&◌, ◌||◌, ◌==◌,
  if◌then◌else◌,
}
use flowsketch.Core.Event.{FlowEvent}
use flowsketch.Core.Field.{Field}

pub record WindowSpec : Type 0 where
  pub size_nanos : ℕ
  pub slide_nanos : ℕ

abbrev pub tumbling : ℕ → WindowSpec
tumbling size_nanos = record { size_nanos = size_nanos; slide_nanos = size_nanos }

unfoldable pub bucket_count : WindowSpec → ℕ
bucket_count w = max (w.size_nanos / w.slide_nanos) 1

pub data Measure : Type 0 where
  counting : Measure
  sum : Field → Measure
  heavy_hitters : Field → ℕ → Measure
  distinct_count : Field → Measure
  entropy : Field → Measure
  quantile : Field → Measure

pub record Predicate : Type 0 where
  pub protocol : Option ℕ
  pub dst_ports : List ℕ
  pub src_ports : List ℕ
  pub interfaces : List ℕ

unfoldable pub contains : List ℕ → ℕ → Bool
contains [] a = false
contains (x ∷ xs) a = x == a || contains xs a

unfoldable pub is_empty : List ℕ → Bool
is_empty [] = true
is_empty (x ∷ xs) = false

unfoldable pub protocol_differs : Option ℕ → ℕ → Bool
protocol_differs none protocol = false
protocol_differs (some p) protocol = not (protocol == p)

unfoldable pub matches : Predicate → FlowEvent → Bool
matches p e =
    if protocol_differs p.protocol e.protocol
    then false
    else if not (is_empty p.dst_ports) && not (contains p.dst_ports e.dst_port)
    then false
    else if not (is_empty p.src_ports) && not (contains p.src_ports e.src_port)
    then false
    else if not (is_empty p.interfaces) && not (contains p.interfaces e.interface_index)
    then false
    else true
