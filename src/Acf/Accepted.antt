-- ===== src/Acf/Accepted.antt =====
-- What `decode_message_prefix` accepts: it takes at least a descriptor, never more than there is, and
-- what it returns can be encoded again.
use go_rcp.Base.{
  ℕ, ◌+◌, ◌-◌, ◌*◌, ◌/◌, ◌%◌, ◌^◌, ◌≤◌, ◌<◌, ◌≡◌, refl, ap, bit_and, bit_or, List, length, get_or,
  take, drop, length-take, length-drop, All-take, All-drop, ok, arith, ◌⊎◌,
}
use go_rcp.Base.Bits.{or_fields, and_mask, agree_below, agree_below→eq}
use go_rcp.Base.Bytes.{IsByte, AllBytes, field_at-lt, get_or-lt}
use go_rcp.Acf.{Message, IsMessage, kind_short, kind_long, unpadded_len, pad_len, quadlet_len}
use go_rcp.Acf.Decode.{
  decode_fields, total_len, decode_control, row2_at, header_len, decode_message_prefix,
}
use go_rcp.Acf.Encodable.{IsEncodable}

-- The parts of a successful decoding.
record Decoded (b : List ℕ) (m : Message) (n : ℕ) : Type 0 where
  kind : (m.kind ≡ kind_short) ⊎ (m.kind ≡ kind_long)
  whole : n ≤ length b
  total : n ≡ total_len b
  fits : header_len m.kind + m.pad ≤ n
  fields : m ≡ record (decode_fields m.kind b) {
    body = take (n - m.pad - header_len m.kind) (drop (header_len m.kind) b);
  }

decode-Decoded :
    (b : List ℕ) (m : Message) (n : ℕ) → decode_message_prefix b ≡ ok (m, n) → Decoded b m n
unfolding decode_message_prefix
decode-Decoded b m n e = ground arith

control_low_table : (r : ℕ) → r < 256 → bit_and (decode_control r) 0x07 ≡ 0
unfolding agree_below decode_control
control_low_table = agree_below→eq _ _ 256 refl

control_byte_table : (r : ℕ) → r < 256 → decode_control r / 256 ≡ 0
unfolding agree_below decode_control
control_byte_table = agree_below→eq _ _ 256 refl

-- A field of `h` upper bits behind a mask and eight lower ones.
high_field :
    (b1 b2 k r : ℕ)
    → b1 < 256
    → b2 < 256
    → r + 1 ≡ 2 ^ k
    → bit_or (bit_and b1 r * 2 ^ 8) b2 ≡ b1 % 2 ^ k * 256 + b2
high_field b1 b2 k r h1 h2 e = ground (arith, and_mask k b1 r, or_fields 8 (b1 % 2 ^ k) b2)

-- The bounds that the widths of the wire fields give.
record InWire (m : Message) : Type 0 where
  byte_bus_id : m.byte_bus_id < 2048
  transaction_num : m.transaction_num < 256
  evt : m.evt < 16
  control : m.control < 256
  control_low : bit_and m.control 0x07 ≡ 0
  read_size : m.read_size_or_segment < 4096
  pad : m.pad < 4

module _ (b : List ℕ) (w : AllBytes b) (kind : ℕ) where
  control_octet : ℕ
  unfolding row2_at
  control_octet = get_or b (row2_at kind + 2) 0

  fields-InWire : InWire (decode_fields kind b)
  unfolding decode_fields
  fields-InWire = record {
    byte_bus_id =
        ground
          (arith, high_field (get_or b 2 0) (get_or b 3 0) 3 7, get_or-lt b 2 w, get_or-lt b 3 w);
    transaction_num = get_or-lt b _ w;
    evt = omega (arith, get_or-lt b (row2_at kind) w);
    control = ground (
      arith,
      get_or-lt b (row2_at kind + 2) w,
      control_byte_table (get_or b (row2_at kind + 2) 0),
    );
    control_low =
        control_low_table (get_or b (row2_at kind + 2) 0) (get_or-lt b (row2_at kind + 2) w);
    read_size = ground (
      arith,
      high_field (get_or b (row2_at kind + 2) 0) (get_or b (row2_at kind + 3) 0) 4 15,
      get_or-lt b (row2_at kind + 2) w,
      get_or-lt b (row2_at kind + 3) w,
    );
    pad = omega (arith, and_mask 2 (get_or b 2 0 / 64) 3);
  }

  fields-timestamp : header_len kind ≤ length b → (decode_fields kind b).timestamp < 2 ^ 64
  unfolding decode_fields
  fields-timestamp n = ground (arith, field_at-lt b 8 4)

total_len_quadlets : (b : List ℕ) → total_len b % 4 ≡ 0
unfolding total_len
total_len_quadlets b = omega arith

total_len-lt : (b : List ℕ) → AllBytes b → total_len b < 2048
unfolding total_len
total_len-lt b w =
    ground (arith, high_field (get_or b 0 0) (get_or b 1 0) 1 1, get_or-lt b 0 w, get_or-lt b 1 w)

rounded :
    (m : Message) (n : ℕ)
    → n % 4 ≡ 0
    → unpadded_len m + m.pad ≡ n
    → (unpadded_len m + pad_len m ≤ n) × (4 * quadlet_len m ≡ unpadded_len m + pad_len m)
unfolding quadlet_len pad_len
rounded m n h e = omega arith

header_len-ge : (kind : ℕ) → 8 ≤ header_len kind
unfolding header_len
header_len-ge kind = ground arith

InWire-body : (m x : Message) (bs : List ℕ) → InWire x → m ≡ record x { body = bs } → InWire m
InWire-body m x bs i e = ground arith

timestamp-body :
    (m x : Message) (bs : List ℕ)
    → x.timestamp < 2 ^ 64
    → m ≡ record x { body = bs }
    → m.timestamp < 2 ^ 64
timestamp-body m x bs h e = ground arith

module _ (b : List ℕ) (m : Message) (n : ℕ) (w : AllBytes b) (d : Decoded b m n) where
  decoded-InWire : InWire m
  decoded-InWire = InWire-body m (decode_fields m.kind b) _ (fields-InWire b w m.kind) d.fields

  decoded_body : m.body ≡ take (n - m.pad - header_len m.kind) (drop (header_len m.kind) b)
  decoded_body = ap (λ (x : Message). x.body) d.fields

  header_within : header_len m.kind ≤ length b
  header_within = omega (arith, d.fits, d.whole)

  decoded-IsMessage : IsMessage m
  decoded-IsMessage = record {
    byte_bus_id = omega (arith, decoded-InWire.byte_bus_id);
    transaction_num = omega (arith, decoded-InWire.transaction_num);
    evt = omega (arith, decoded-InWire.evt);
    control = decoded-InWire.control;
    read_size_or_segment = omega (arith, decoded-InWire.read_size);
    timestamp =
        timestamp-body m (decode_fields m.kind b) _ (fields-timestamp b w m.kind header_within)
          d.fields;
    body = rw decoded_body (
        All-take IsByte (n - m.pad - header_len m.kind) _
          (All-drop IsByte (header_len m.kind) b w));
  }

  unpadded : unpadded_len m + m.pad ≡ n
  unfolding unpadded_len header_len
  unpadded = ground (
    arith,
    d.kind,
    d.fits,
    d.whole,
    ap (λ (x : List ℕ). length x) decoded_body,
    length-take (n - m.pad - header_len m.kind) (drop (header_len m.kind) b),
    length-drop (header_len m.kind) b,
  )

  quadlets_total : (n % 4 ≡ 0) × (n ≤ 4 * 511)
  quadlets_total = omega (arith, d.total, total_len_quadlets b, total_len-lt b w)

  encodable : IsEncodable m × (8 ≤ n) × (unpadded_len m + pad_len m ≤ n)
  encodable =
      let (shorter, quads) = rounded m n quadlets_total.0 unpadded in
      (
        record {
          kind = d.kind;
          control = decoded-InWire.control_low;
          evt = omega (arith, decoded-InWire.evt);
          transaction_num = omega (arith, decoded-InWire.transaction_num);
          byte_bus_id = omega (arith, decoded-InWire.byte_bus_id);
          read_size = omega (arith, decoded-InWire.read_size);
          quadlets = omega (arith, shorter, quads, quadlets_total.1);
        },
        omega (arith, d.fits, header_len-ge m.kind),
        shorter,
      )

-- On any input, a successful decoding takes at least a descriptor and at most what there is.
pub decode_message_prefix_takes :
    (b : List ℕ) (m : Message) (n : ℕ)
    → decode_message_prefix b ≡ ok (m, n)
    → (8 ≤ n) × (n ≤ length b)
decode_message_prefix_takes b m n e =
    let d = decode-Decoded b m n e in (omega (arith, d.fits, header_len-ge m.kind), d.whole)

-- A message that `decode_message_prefix` takes from bytes has every field within its Go type, and
-- `encode_message` accepts it; it takes at least 8 bytes, a whole number of quadlets, at most what
-- there is, and encoding it again takes no more.
pub decode_message_prefix-IsEncodable :
    (b : List ℕ) (m : Message) (n : ℕ)
    → AllBytes b
    → decode_message_prefix b ≡ ok (m, n)
    → IsMessage m
      × IsEncodable m
      × (8 ≤ n)
      × (n % 4 ≡ 0)
      × (n ≤ length b)
      × (unpadded_len m + pad_len m ≤ n)
decode_message_prefix-IsEncodable b m n w e =
    let d = decode-Decoded b m n e in
    let (f, low, short) = encodable b m n w d in
    (decoded-IsMessage b m n w d, f, low, (quadlets_total b m n w d).0, d.whole, short)
