-- ===== src/Core/Field.antt =====
-- crates/flowsketch-core/src/field.rs: the fields of a flow event that queries name, and the bytes of the
-- keys that events are grouped by. Text is bytes. The standard library's rendering of an IPv6 address
-- is the parameter `display_ipv6`.
pub mod Decimal
pub mod Keys
use flowsketch.Base.{
  ℕ, zero, suc, ◌+◌, ◌*◌, ◌/◌, ◌%◌, List, [], ◌∷◌, ◌++◌, Bool, true, false, ◌==◌, if◌then◌else◌,
}
use flowsketch.Core.Event.{Direction, ingress, egress, unknown, IpAddr, v4, v6, FlowEvent}

pub data Field : Type 0 where
  src_ip : Field
  dst_ip : Field
  src_port : Field
  dst_port : Field
  protocol : Field
  tcp_flags : Field
  direction : Field
  bytes : Field
  packets : Field
  interface_index : Field
  node_id : Field

unfoldable pub is_numeric_measure : Field → Bool
is_numeric_measure bytes = true
is_numeric_measure packets = true
is_numeric_measure _ = false

unfoldable pub max_encoded_len : Field → ℕ
max_encoded_len src_ip = 39
max_encoded_len dst_ip = 39
max_encoded_len src_port = 5
max_encoded_len dst_port = 5
max_encoded_len protocol = 6
max_encoded_len tcp_flags = 3
max_encoded_len direction = 7
max_encoded_len bytes = 10
max_encoded_len packets = 10
max_encoded_len interface_index = 10
max_encoded_len node_id = 20

unfoldable pub extract_value : Field → FlowEvent → ℕ
extract_value bytes e = e.bytes
extract_value packets e = e.packets
extract_value src_port e = e.src_port
extract_value dst_port e = e.dst_port
extract_value protocol e = e.protocol
extract_value tcp_flags e = e.tcp_flags
extract_value interface_index e = e.interface_index
extract_value node_id e = e.node_id
extract_value src_ip e = 0
extract_value dst_ip e = 0
extract_value direction e = 0

abbrev pub group_key_sep : ℕ
group_key_sep = 31

-- The loop that fills the 20 bytes of the buffer from its end, with the bytes that are left.
unfoldable pub digits : ℕ → ℕ → List ℕ → List ℕ
digits zero value written = written
digits (suc room) value written =
    let rest = digits room (value / 10) ((48 + value % 10) ∷ written) in
    if value == 0 then written else rest

unfoldable pub append_decimal : List ℕ → ℕ → List ℕ
append_decimal out value = if value == 0 then out ++ 48 ∷ [] else out ++ digits 20 value []

unfoldable pub append_ipv4 : List ℕ → ℕ → ℕ → ℕ → ℕ → List ℕ
append_ipv4 out a b c d =
    append_decimal
      (append_decimal (append_decimal (append_decimal out a ++ 46 ∷ []) b ++ 46 ∷ []) c ++ 46 ∷ [])
      d

-- `Direction::name`, as bytes.
unfoldable pub direction_name : Direction → List ℕ
direction_name ingress = 105 ∷ 110 ∷ 103 ∷ 114 ∷ 101 ∷ 115 ∷ 115 ∷ []
direction_name egress = 101 ∷ 103 ∷ 114 ∷ 101 ∷ 115 ∷ 115 ∷ []
direction_name unknown = 117 ∷ 110 ∷ 107 ∷ 110 ∷ 111 ∷ 119 ∷ 110 ∷ []

unfoldable pub append_protocol : List ℕ → ℕ → List ℕ
append_protocol out p =
    if p == 1
    then out ++ 105 ∷ 99 ∷ 109 ∷ 112 ∷ []
    else if p == 6
    then out ++ 116 ∷ 99 ∷ 112 ∷ []
    else if p == 17
    then out ++ 117 ∷ 100 ∷ 112 ∷ []
    else if p == 58
    then out ++ 105 ∷ 99 ∷ 109 ∷ 112 ∷ 118 ∷ 54 ∷ []
    else append_decimal out p

module _ (display_ipv6 : List ℕ → List ℕ) where
  unfoldable pub append_ip : List ℕ → IpAddr → List ℕ
  append_ip out (v4 a b c d) = append_ipv4 out a b c d
  append_ip out (v6 octets) = out ++ display_ipv6 octets

  unfoldable pub field_value_into : Field → FlowEvent → List ℕ → List ℕ
  field_value_into src_ip e out = append_ip out e.src_ip
  field_value_into dst_ip e out = append_ip out e.dst_ip
  field_value_into src_port e out = append_decimal out e.src_port
  field_value_into dst_port e out = append_decimal out e.dst_port
  field_value_into protocol e out = append_protocol out e.protocol
  field_value_into tcp_flags e out = append_decimal out e.tcp_flags
  field_value_into direction e out = out ++ direction_name e.direction
  field_value_into bytes e out = append_decimal out e.bytes
  field_value_into packets e out = append_decimal out e.packets
  field_value_into interface_index e out = append_decimal out e.interface_index
  field_value_into node_id e out = append_decimal out e.node_id

  -- The fields after the first, each behind a separator.
  unfoldable pub more_fields : List Field → FlowEvent → List ℕ → List ℕ
  more_fields [] e out = out
  more_fields (f ∷ fs) e out = more_fields fs e (field_value_into f e (out ++ group_key_sep ∷ []))

  -- `group_key_into`, which clears the buffer first.
  unfoldable pub group_key : List Field → FlowEvent → List ℕ
  group_key [] e = []
  group_key (f ∷ fs) e = more_fields fs e (field_value_into f e [])

-- `key.split(|&b| b == GROUP_KEY_SEP)`, with the part that is being read, in order.
unfoldable pub split_at_sep : List ℕ → List ℕ → List (List ℕ)
split_at_sep part [] = part ∷ []
split_at_sep part (b ∷ bs) =
    if b == group_key_sep then part ∷ split_at_sep [] bs else split_at_sep (part ++ b ∷ []) bs

-- The parts are bytes; the rendering as text is lossless on them.
unfoldable pub split_group_key : List ℕ → List (List ℕ)
split_group_key [] = []
split_group_key (b ∷ bs) = split_at_sep [] (b ∷ bs)
