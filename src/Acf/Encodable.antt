-- ===== src/Acf/Encodable.antt =====
-- Which messages are encoded, how long they get, and what a decoder sees of them.
use go_rcp.Base.{
  ℕ, ◌+◌, ◌*◌, ◌%◌, ◌≤◌, ◌≡◌, bit_and, List, [], ◌++◌, length, length-append, length-replicate,
  replicate, ◌==◌, if◌then◌else◌, ok, arith, ◌⊎◌, ◌↔◌,
}
use go_rcp.Base.Bytes.{put_be, length-put_be}
use go_rcp.Acf.{
  Message, kind_short, kind_long, max_quadlets, max_byte_bus_id, max_transaction_num,
  max_read_size_or_segment, max_evt, unpadded_len, pad_len, quadlet_len, row1, row2, encoded,
  encode_message,
}
use go_rcp.Acf.Masks.{received_control}

-- What comes back: the pad that encoding chose, read or write from the one op bit, and the timestamp
-- of a long message only.
unfoldable pub received : Message → Message
received m = record m {
  pad = pad_len m;
  control = received_control m.control;
  timestamp = if m.kind == kind_long then m.timestamp else 0;
}

-- The ranges that `encode_message` asks for.
pub record IsEncodable (m : Message) : Type 0 where
  pub kind : (m.kind ≡ kind_short) ⊎ (m.kind ≡ kind_long)
  pub control : bit_and m.control 0x07 ≡ 0
  pub evt : m.evt ≤ max_evt
  pub transaction_num : m.transaction_num ≤ max_transaction_num
  pub byte_bus_id : m.byte_bus_id ≤ max_byte_bus_id
  pub read_size : m.read_size_or_segment ≤ max_read_size_or_segment
  pub quadlets : quadlet_len m ≤ max_quadlets

-- `encode_message` succeeds exactly on messages that fit the wire fields, and writes `encoded`.
pub encode_message_iff :
    (m : Message) (buf : List ℕ) → (encode_message m ≡ ok buf) ↔ (IsEncodable m × (buf ≡ encoded m))
unfolding encode_message
encode_message_iff m buf = ground arith

pub length-encoded : (m : Message) → length (encoded m) ≡ unpadded_len m + pad_len m
unfolding encoded row1 row2 unpadded_len
length-encoded m =
    let slot : List ℕ = if m.kind == kind_long then put_be 8 m.timestamp else [] in
    let body : List ℕ = m.body ++ replicate (pad_len m) 0 in
    ground (
      arith,
      length-append slot (row2 m ++ body),
      length-append m.body (replicate (pad_len m) 0),
      length-replicate (pad_len m) (let z : ℕ = 0 in z),
      length-put_be 8 m.timestamp,
    )

-- An encoded message is a whole number of quadlets, 2 to 511 of them.
pub length-encode_message :
    (m : Message) (buf : List ℕ)
    → encode_message m ≡ ok buf
    → (length buf % 4 ≡ 0) × (8 ≤ length buf) × (length buf ≤ 4 * max_quadlets)
unfolding unpadded_len
length-encode_message m buf e =
    let (f, e') = (encode_message_iff m buf).0 e in
    rw e' (unfold pad_len quadlet_len in ground (arith, length-encoded m, f.quadlets))
