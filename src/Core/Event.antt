-- ===== src/Core/Event.antt =====
-- crates/flowsketch-core/src/event.rs: the flow event, one packet's headers and metadata. An address
-- is its octets, an integer a number below its width's bound.
use flowsketch.Base.{ℕ, Option, none, List}

pub data Direction : Type 0 where
  ingress : Direction
  egress : Direction
  unknown : Direction

pub data IpAddr : Type 0 where
  v4 : ℕ → ℕ → ℕ → ℕ → IpAddr
  v6 : List ℕ → IpAddr

pub record FlowEvent : Type 0 where
  pub ts_nanos : ℕ
  pub src_ip : IpAddr
  pub dst_ip : IpAddr
  pub src_port : ℕ
  pub dst_port : ℕ
  pub protocol : ℕ
  pub bytes : ℕ
  pub packets : ℕ
  pub direction : Direction
  pub tcp_flags : ℕ
  pub interface_index : ℕ
  pub node_id : ℕ
  pub namespace_id : Option ℕ
  pub pod_id : Option ℕ
  pub service_id : Option ℕ

-- `FlowEvent::default()`
abbrev pub default_event : FlowEvent
default_event = record {
  ts_nanos = 0;
  src_ip = v4 0 0 0 0;
  dst_ip = v4 0 0 0 0;
  src_port = 0;
  dst_port = 0;
  protocol = 0;
  bytes = 0;
  packets = 1;
  direction = unknown;
  tcp_flags = 0;
  interface_index = 0;
  node_id = 0;
  namespace_id = none;
  pod_id = none;
  service_id = none;
}
