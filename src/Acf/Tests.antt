-- ===== src/Acf/Tests.antt =====
-- The message and frame codecs on concrete messages.
use go_rcp.Base.{ℕ, ◌++◌, ◌≡◌, refl, true, List, [], ◌∷◌, ok, err, arith, evt_overflow}
use go_rcp.Base.Bytes.{put_be, get_be}
use go_rcp.Acf.{
  Message, IsMessage, no_message, kind_long, flag_write, encode_message, encoded, pad_len,
  quadlet_len,
}
use go_rcp.Acf.Masks.{received_control}
use go_rcp.Acf.Decode.{decode_message_prefix}
use go_rcp.Acf.Encodable.{received}
use go_rcp.Acf.RoundTrip.{decode_message_prefix-encode_message}

abbrev pub write_message : Message
write_message = record no_message {
  kind = kind_long;
  byte_bus_id = 0x123;
  transaction_num = 9;
  evt = 3;
  hs = true;
  control = flag_write;
  read_size_or_segment = 0x234;
  timestamp = 0x0102030405060708;
  body = 1 ∷ 2 ∷ 3 ∷ [];
}

abbrev pub write_bytes : List ℕ
write_bytes =
    0x1a ∷ 5 ∷ 0x41 ∷ 0x23 ∷ 1 ∷ 2 ∷ 3 ∷ 4 ∷ 5 ∷ 6 ∷ 7 ∷ 8 ∷ 0x32 ∷ 9 ∷ 0x82 ∷ 0x34 ∷ 1 ∷ 2 ∷ 3 ∷ 0
    ∷ []

pub write_message-IsMessage : IsMessage write_message
write_message-IsMessage = record {
  byte_bus_id = omega arith;
  transaction_num = omega arith;
  evt = omega arith;
  control = omega arith;
  read_size_or_segment = omega arith;
  timestamp = omega arith;
  body = omega arith;
}

pub encode_write : encode_message write_message ≡ ok write_bytes
unfolding encode_message quadlet_len encoded put_be
encode_write = refl

-- A field too wide for the wire is an error.
encode_wide_evt : encode_message (record write_message { evt = 16 }) ≡ err evt_overflow
unfolding encode_message
encode_wide_evt = refl

decode_write : decode_message_prefix (write_bytes ++ (0xff ∷ [])) ≡ ok (received write_message, 20)
unfolding received decode_message_prefix pad_len received_control get_be
decode_write = refl

decode_message_prefix-encode_message_example :
    decode_message_prefix (write_bytes ++ (0xff ∷ [])) ≡ ok (received write_message, 20)
decode_message_prefix-encode_message_example =
    decode_message_prefix-encode_message write_message write_bytes (0xff ∷ [])
      write_message-IsMessage encode_write
