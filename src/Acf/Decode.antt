-- ===== src/Acf/Decode.antt =====
-- acf/message.go: `DecodeMessagePrefix` and `DecodeMessage`.
use go_rcp.Base.{
  ℕ, ◌+◌, ◌-◌, ◌*◌, ◌/◌, ◌^◌, bit_and, bit_or, ◌||◌, List, [], length, get_or, take, drop, ltb,
  ◌==◌, ◌!=◌, if◌then◌else◌, Result, ok, err, reserved_bits_set, short_message,
  unknown_message_kind, trailing_message_bytes, ◌>>=◌, ◌>>◌, reject_if,
}
use go_rcp.Base.Bytes.{get_be}
use go_rcp.Acf.{
  Message, kind_short, kind_long, wire_msg_type_short, wire_msg_type_long, flag_read, flag_write,
  flag_response, flag_error, flag_more_segments, descriptor_len, timestamp_field_len, pad_mask,
}

unfoldable pub decode_kind : ℕ → Result ℕ
decode_kind msg_type =
    if msg_type == wire_msg_type_short
    then ok kind_short
    else if msg_type == wire_msg_type_long
    then ok kind_long
    else err unknown_message_kind

-- The Go-side flags from the op, rsp, err and ms bits.
unfoldable pub decode_control : ℕ → ℕ
decode_control r2 =
    bit_or
      (bit_or
        (bit_or (if bit_and r2 (2 ^ 7) != 0 then flag_write else flag_read)
          (if bit_and r2 (2 ^ 6) != 0 then flag_response else 0))
        (if bit_and r2 (2 ^ 5) != 0 then flag_error else 0))
      (if bit_and r2 (2 ^ 4) != 0 then flag_more_segments else 0)

unfoldable pub header_len : ℕ → ℕ
header_len kind = if kind == kind_long then descriptor_len + timestamp_field_len else descriptor_len

-- Offset of the second descriptor word.
unfoldable pub row2_at : ℕ → ℕ
row2_at kind = if kind == kind_long then 12 else 4

unfoldable pub decode_fields : ℕ → List ℕ → Message
unfolding decode_control row2_at header_len
decode_fields kind b =
    let b2 = get_or b 2 0 in
    let off = row2_at kind in
    let r0 = get_or b off 0 in
    let r2 = get_or b (off + 2) 0 in
    record {
      kind = kind;
      pad = bit_and (b2 / 2 ^ 6) pad_mask;
      byte_bus_id = bit_or (bit_and b2 0x07 * 2 ^ 8) (get_or b 3 0);
      transaction_num = get_or b (off + 1) 0;
      evt = r0 / 2 ^ 4;
      hs = bit_and r0 (2 ^ 1) != 0;
      cs = bit_and r0 1 != 0;
      mtv = bit_and b2 (2 ^ 5) != 0;
      control = decode_control r2;
      read_size_or_segment = bit_or (bit_and r2 0x0f * 2 ^ 8) (get_or b (off + 3) 0);
      timestamp = if kind == kind_long then get_be (take 8 (drop 4 b)) else 0;
      body = [];
    }

-- `int(quadlets) * 4`
unfoldable pub total_len : List ℕ → ℕ
total_len b = bit_or (bit_and (get_or b 0 0) 0x01 * 2 ^ 8) (get_or b 1 0) * 4

-- The declared length is checked last. `total - pad` is an int in Go; where it is negative it is
-- below the offset, as 0 is here.
unfoldable pub decode_body : Message → ℕ → ℕ → List ℕ → Result (Message × ℕ)
decode_body m off total b = do
  reject_if (ltb (length b) total) short_message
  let body_end = total - m.pad
  reject_if (ltb body_end off || ltb total body_end) short_message
  ok (record m { body = take (body_end - off) (drop off b) }, total)

-- The first message of `b`, and the number of bytes that it takes.
unfoldable pub decode_message_prefix : List ℕ → Result (Message × ℕ)
unfolding decode_kind decode_fields total_len decode_body
decode_message_prefix b = do
  reject_if (ltb (length b) 4) short_message
  kind ← decode_kind (get_or b 0 0 / 2)
  reject_if (bit_and (get_or b 2 0) (0x03 * 2 ^ 3) != 0) reserved_bits_set
  reject_if (ltb (length b) (header_len kind)) short_message
  reject_if (bit_and (get_or b (row2_at kind) 0) (0x03 * 2 ^ 2) != 0) reserved_bits_set
  decode_body (decode_fields kind b) (header_len kind) (total_len b) b

unfoldable pub decode_message : List ℕ → Result Message
decode_message b = do
  (m, n) ← decode_message_prefix b
  reject_if (n != length b) trailing_message_bytes
  ok m
