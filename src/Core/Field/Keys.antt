-- ===== src/Core/Field/Keys.antt =====
-- The keys that events are grouped by: their length, and the values that come back out of a key.
use flowsketch.Base.{
  ℕ, suc, ◌+◌, ◌^◌, ◌≤◌, ◌<◌, ◌≡◌, refl, sym, ap, ◌∙◌, List, [], ◌∷◌, ◌++◌, map, length,
  length-append, arith, ◌==◌, Bool-cases, inl, inr, Bool, true, false, if◌then◌else◌,
}
use mathlib.Core.List.{append-nil, append_assoc}
use flowsketch.Core.Event.{Direction, ingress, egress, unknown, IpAddr, v4, v6, FlowEvent}
use flowsketch.Core.Field.{
  Field, src_ip, dst_ip, src_port, dst_port, protocol, tcp_flags, direction, bytes, packets,
  interface_index, node_id, max_encoded_len, append_decimal, append_ipv4, direction_name,
  append_protocol, append_ip, field_value_into, more_fields, group_key, split_at_sep,
  split_group_key,
}
use flowsketch.Core.Field.Decimal.{
  NoSep, append-NoSep, append_decimal-split, append_decimal-NoSep, length-append_decimal,
  append_decimal-some,
}

-- What every rendered value is: a text without the separator, appended to the buffer.
pub record IsText (limit : ℕ) (text : List ℕ) : Type 0 where
  pub some_byte : 0 < length text
  pub short : length text ≤ limit
  pub clean : NoSep text

abbrev pub IsIp : IpAddr → Type 0
IsIp (v4 a b c d) = (a < 2 ^ 8) × (b < 2 ^ 8) × (c < 2 ^ 8) × (d < 2 ^ 8)
IsIp (v6 octets) = Unit

-- The integer fields are within their types.
pub record IsEvent (e : FlowEvent) : Type 0 where
  pub src_port_fits : e.src_port < 2 ^ 16
  pub dst_port_fits : e.dst_port < 2 ^ 16
  pub protocol_fits : e.protocol < 2 ^ 8
  pub tcp_flags_fits : e.tcp_flags < 2 ^ 8
  pub bytes_fits : e.bytes < 2 ^ 32
  pub packets_fits : e.packets < 2 ^ 32
  pub interface_index_fits : e.interface_index < 2 ^ 32
  pub node_id_fits : e.node_id < 2 ^ 64
  pub src_ip_fits : IsIp e.src_ip
  pub dst_ip_fits : IsIp e.dst_ip

-- The text of a number.
decimal-IsText : (k v : ℕ) → 0 < k → v < 10 ^ k → IsText k (append_decimal [] v)
decimal-IsText k v hk h = record {
  some_byte = append_decimal-some v;
  short = length-append_decimal k v hk h;
  clean = append_decimal-NoSep v;
}

abbrev dec : ℕ → List ℕ
dec = append_decimal []

ipv4_text : ℕ → ℕ → ℕ → ℕ → List ℕ
ipv4_text a b c d = dec a ++ 46 ∷ (dec b ++ 46 ∷ (dec c ++ 46 ∷ dec d))

append_ipv4_lem : (out : List ℕ) (a b c d : ℕ) → append_ipv4 out a b c d ≡ out ++ ipv4_text a b c d
unfolding append_ipv4 ipv4_text
append_ipv4_lem out a b c d =
    let x = (out ++ dec a) ++ 46 ∷ [] in
    let y = (x ++ dec b) ++ 46 ∷ [] in
    let z = (y ++ dec c) ++ 46 ∷ [] in
    rw
      (
        append_decimal-split out a,
        append_decimal-split x b,
        append_decimal-split y c,
        append_decimal-split z d,
      )
      (simp append_assoc)

ipv4_text-IsText :
    (a b c d : ℕ) → a < 2 ^ 8 → b < 2 ^ 8 → c < 2 ^ 8 → d < 2 ^ 8 → IsText 39 (ipv4_text a b c d)
unfolding ipv4_text
ipv4_text-IsText a b c d ha hb hc hd =
    let ta = decimal-IsText 3 a (omega arith) (omega arith) in
    let tb = decimal-IsText 3 b (omega arith) (omega arith) in
    let tc = decimal-IsText 3 c (omega arith) (omega arith) in
    let td = decimal-IsText 3 d (omega arith) (omega arith) in
    let size : length (ipv4_text a b c d)
        ≡ length (dec a) + (1 + (length (dec b) + (1 + (length (dec c) + (1 + length (dec d)))))) =
      simp length-append (omega arith) in
    record {
      some_byte = omega (arith, ta.some_byte, size);
      short = omega (arith, ta.short, tb.short, tc.short, td.short, size);
      clean = append-NoSep (dec a) _ ta.clean (
        (λ q. omega arith),
        append-NoSep (dec b) _ tb.clean
            ((λ q. omega arith), append-NoSep (dec c) _ tc.clean ((λ q. omega arith), td.clean)),
      );
    }

-- The value of a field, appended to the text so far.
Appends : (List ℕ → List ℕ) → ℕ → Type 0
Appends f limit = ((out : List ℕ) → f out ≡ out ++ f []) × IsText limit (f [])

decimal-Appends : (k v : ℕ) → 0 < k → v < 10 ^ k → Appends (λ out. append_decimal out v) k
unfolding Appends
decimal-Appends k v hk h = ((λ out. append_decimal-split out v), decimal-IsText k v hk h)

literal-Appends :
    (limit : ℕ) (text : List ℕ) → IsText limit text → Appends (λ out. out ++ text) limit
unfolding Appends
literal-Appends limit text t = ((λ out. refl), t)

if-Appends :
    (b : Bool) (f g : List ℕ → List ℕ) (limit : ℕ)
    → Appends f limit
    → Appends g limit
    → Appends (λ out. if b then f out else g out) limit
if-Appends true f g limit hf hg = hf
if-Appends false f g limit hf hg = hg

-- A fixed word, checked by running the test on it.
no_sep : List ℕ → Bool
no_sep [] = true
no_sep (b ∷ bs) = if b == 31 then false else no_sep bs

no_sep-NoSep : (text : List ℕ) → no_sep text ≡ true → NoSep text
unfolding no_sep
no_sep-NoSep [] h = tt
no_sep-NoSep (b ∷ bs) h = ((λ q. ground arith), no_sep-NoSep bs (ground arith))

word-Appends :
    (limit b : ℕ) (bs : List ℕ)
    → suc (length bs) ≤ limit
    → no_sep (b ∷ bs) ≡ true
    → Appends (λ out. out ++ b ∷ bs) limit
word-Appends limit b bs short clean =
    literal-Appends limit (b ∷ bs)
      (record { some_byte = omega arith; short = short; clean = no_sep-NoSep (b ∷ bs) clean })

protocol-Appends : (p : ℕ) → p < 2 ^ 8 → Appends (λ out. append_protocol out p) 6
unfolding append_protocol no_sep
protocol-Appends p h = if-Appends (p == 1) _ _ 6 (word-Appends 6 _ _ (omega arith) refl) (
    if-Appends (p == 6) _ _ 6 (word-Appends 6 _ _ (omega arith) refl) (
      if-Appends (p == 17) _ _ 6 (word-Appends 6 _ _ (omega arith) refl) (
        if-Appends (p == 58) _ _ 6 (word-Appends 6 _ _ (omega arith) refl)
          (decimal-Appends 6 p (omega arith) (omega arith)))))

direction-Appends : (d : Direction) → Appends (λ out. out ++ direction_name d) 7
unfolding direction_name no_sep
direction-Appends ingress = word-Appends 7 _ _ (omega arith) refl
direction-Appends egress = word-Appends 7 _ _ (omega arith) refl
direction-Appends unknown = word-Appends 7 _ _ (omega arith) refl

module _ (display_ipv6 : List ℕ → List ℕ)
    (display : (octets : List ℕ) → IsText 39 (display_ipv6 octets)) where
  ip-Appends : (ip : IpAddr) → IsIp ip → Appends (λ out. append_ip display_ipv6 out ip) 39
  unfolding append_ip Appends
  ip-Appends (v4 a b c d) (ha, hb, hc, hd) = (
    (λ out. append_ipv4_lem out a b c d ∙ ap (λ t. out ++ t) (sym (append_ipv4_lem [] a b c d))),
    rw (append_ipv4_lem [] a b c d) (ipv4_text-IsText a b c d ha hb hc hd),
  )
  ip-Appends (v6 octets) h = ((λ out. refl), display octets)

  field-Appends :
      (f : Field) (e : FlowEvent)
      → IsEvent e
      → Appends (field_value_into display_ipv6 f e) (max_encoded_len f)
  unfolding field_value_into max_encoded_len
  field-Appends src_ip e h = ip-Appends e.src_ip h.src_ip_fits
  field-Appends dst_ip e h = ip-Appends e.dst_ip h.dst_ip_fits
  field-Appends src_port e h =
      decimal-Appends 5 e.src_port (omega arith) (omega (arith, h.src_port_fits))
  field-Appends dst_port e h =
      decimal-Appends 5 e.dst_port (omega arith) (omega (arith, h.dst_port_fits))
  field-Appends protocol e h = protocol-Appends e.protocol h.protocol_fits
  field-Appends tcp_flags e h =
      decimal-Appends 3 e.tcp_flags (omega arith) (omega (arith, h.tcp_flags_fits))
  field-Appends direction e h = direction-Appends e.direction
  field-Appends bytes e h = decimal-Appends 10 e.bytes (omega arith) (omega (arith, h.bytes_fits))
  field-Appends packets e h =
      decimal-Appends 10 e.packets (omega arith) (omega (arith, h.packets_fits))
  field-Appends interface_index e h =
      decimal-Appends 10 e.interface_index (omega arith) (omega (arith, h.interface_index_fits))
  field-Appends node_id e h =
      decimal-Appends 20 e.node_id (omega arith) (omega (arith, h.node_id_fits))

-- Reading parts that are free of the separator.
split-part :
    (part text rest : List ℕ)
    → NoSep text
    → split_at_sep part (text ++ 31 ∷ rest) ≡ (part ++ text) ∷ split_at_sep [] rest
unfolding split_at_sep
split-part part [] rest h = rw append-nil
split-part part (b ∷ bs) rest (hb, h) = elim (Bool-cases (b == 31)) [
  | inl e ↦ absurd (hb (ground arith))
  | inr e ↦ rw e (split-part (part ++ b ∷ []) bs rest h ∙ rw append_assoc)
]

split-last : (part text : List ℕ) → NoSep text → split_at_sep part text ≡ (part ++ text) ∷ []
unfolding split_at_sep
split-last part [] h = rw append-nil
split-last part (b ∷ bs) (hb, h) = elim (Bool-cases (b == 31)) [
  | inl e ↦ absurd (hb (ground arith))
  | inr e ↦ rw e (split-last (part ++ b ∷ []) bs h ∙ rw append_assoc)
]

module _ (display_ipv6 : List ℕ → List ℕ)
    (display : (octets : List ℕ) → IsText 39 (display_ipv6 octets)) where
  abbrev value : FlowEvent → Field → List ℕ
  value e f = field_value_into display_ipv6 f e []

  value-IsText : (e : FlowEvent) (f : Field) → IsEvent e → IsText (max_encoded_len f) (value e f)
  unfolding Appends
  value-IsText e f h = (field-Appends display_ipv6 display f e h).1

  -- What stands behind the first value.
  tail_key : FlowEvent → List Field → List ℕ
  tail_key e [] = []
  tail_key e (f ∷ fs) = 31 ∷ (value e f ++ tail_key e fs)

  more_fields_lem :
      (fs : List Field) (e : FlowEvent) (out : List ℕ)
      → IsEvent e
      → more_fields display_ipv6 fs e out ≡ out ++ tail_key e fs
  unfolding more_fields tail_key Appends
  more_fields_lem [] e out h = rw append-nil
  more_fields_lem (f ∷ fs) e out h =
      more_fields_lem fs e _ h
      ∙ ap (λ t. t ++ tail_key e fs) ((field-Appends display_ipv6 display f e h).0 (out ++ 31 ∷ []))
      ∙ simp append_assoc

  -- The bytes that the values of fields may take, a separator before each.
  abbrev pub separated_bytes : List Field → ℕ
  separated_bytes [] = 0
  separated_bytes (f ∷ fs) = 1 + max_encoded_len f + separated_bytes fs

  length-tail_key :
      (e : FlowEvent) (fs : List Field) → IsEvent e → length (tail_key e fs) ≤ separated_bytes fs
  unfolding tail_key
  length-tail_key e [] h = omega arith
  length-tail_key e (f ∷ fs) h = omega (
    arith,
    length-append (value e f) (tail_key e fs),
    (value-IsText e f h).short,
    length-tail_key e fs h,
  )

  pub length-group_key :
      (e : FlowEvent) (f : Field) (fs : List Field)
      → IsEvent e
      → (0 < length (group_key display_ipv6 (f ∷ fs) e))
        × (length (group_key display_ipv6 (f ∷ fs) e) + 1 ≤ separated_bytes (f ∷ fs))
  unfolding group_key
  length-group_key e f fs h =
      let t = value-IsText e f h in
      let whole : length (more_fields display_ipv6 fs e (value e f))
          ≡ length (value e f) + length (tail_key e fs) =
        ap length (more_fields_lem fs e (value e f) h)
        ∙ length-append (value e f) (tail_key e fs) in
      (omega (arith, whole, t.some_byte), omega (arith, whole, t.short, length-tail_key e fs h))

  split-values :
      (f : Field) (fs : List Field) (e : FlowEvent)
      → IsEvent e
      → split_at_sep [] (value e f ++ tail_key e fs) ≡ value e f ∷ map (value e) fs
  unfolding tail_key Appends
  split-values f [] e h =
      rw append-nil (split-last [] (value e f) (field-Appends display_ipv6 display f e h).1.clean)
  split-values f (g ∷ fs) e h =
      split-part [] (value e f) (value e g ++ tail_key e fs)
        (field-Appends display_ipv6 display f e h).1.clean
      ∙ ap (λ t. value e f ∷ t) (split-values g fs e h)

  nonempty : (t : List ℕ) → 0 < length t → split_group_key t ≡ split_at_sep [] t
  unfolding split_group_key
  nonempty [] h = absurd (omega arith)
  nonempty (b ∷ bs) h = refl

  -- If the rendering of IPv6 addresses yields texts of at least one and at most 39 bytes, none of them the
  -- separator, a group key splits back into the values of the fields that it was made from, in order, for every event whose fields are
  -- within their integer types.
  pub split_group_key-group_key :
      (fs : List Field) (e : FlowEvent)
      → IsEvent e
      → split_group_key (group_key display_ipv6 fs e)
        ≡ map (λ f. field_value_into display_ipv6 f e []) fs
  unfolding group_key
  split_group_key-group_key [] e h = unfold split_group_key in refl
  split_group_key-group_key (f ∷ fs) e h = rw (more_fields_lem fs e (value e f) h) (
      nonempty (value e f ++ tail_key e fs)
        (omega (arith, length-append (value e f) (tail_key e fs), (value-IsText e f h).some_byte))
      ∙ split-values f fs e h)
