-- ===== src/Acf/RoundTrip.antt =====
-- A message that was encoded, read back.
use go_rcp.Base.{
  ℕ, ◌+◌, ◌*◌, ◌/◌, ◌%◌, ◌^◌, ◌<◌, ◌≡◌, refl, bit_and, bit_or, List, [], ◌∷◌, ◌++◌, append_assoc,
  append-nil, length, length-append, length-replicate, take, take-append, replicate, ok, arith, inl,
  inr,
}
use go_rcp.Base.Bits.{or_fields, and_mask}
use go_rcp.Base.Bytes.{put_be, get_be, length-put_be, get_be-put_be}
use go_rcp.Acf.{
  Message, IsMessage, kind_short, kind_long, unpadded_len, pad_len, quadlet_len, row1_flags,
  row2_flags, row2_control, row1, row2, encoded, encode_message,
}
use go_rcp.Acf.Decode.{decode_message_prefix, decode_message}
use go_rcp.Acf.Masks.{
  Row1Read, row1_value, row1_read, Row2Read, row2_value, row2_read, ControlRead, control_value,
  control_read,
}
use go_rcp.Acf.Encodable.{received, IsEncodable, encode_message_iff, length-encoded}

module _ (m : Message) (w : IsMessage m) (f : IsEncodable m) (rest : List ℕ) where
  padded_len : (4 * quadlet_len m ≡ unpadded_len m + pad_len m) × (pad_len m < 4)
  unfolding quadlet_len pad_len
  padded_len = omega arith

  octet1 : Row1Read (pad_len m) m.mtv (m.byte_bus_id / 256) (row1_flags m)
  unfolding row1_flags
  octet1 =
      row1_read (pad_len m) m.mtv (m.byte_bus_id / 256) _ padded_len.1
        (omega (arith, f.byte_bus_id))
        (ground (
          arith,
          and_mask 3 (m.byte_bus_id / 256) 7,
          row1_value (pad_len m) m.mtv (m.byte_bus_id / 256),
          padded_len.1,
          f.byte_bus_id,
        ))

  octet2 : Row2Read m.evt m.hs m.cs (row2_flags m)
  unfolding row2_flags
  octet2 =
      row2_read m.evt m.hs m.cs _ (omega (arith, f.evt))
        (row2_value m.evt m.hs m.cs (omega (arith, f.evt)))

  octet3 :
      ControlRead m.control m.read_size_or_segment (row2_control m.control m.read_size_or_segment)
  octet3 =
      control_read m.control m.read_size_or_segment _ w.control (omega (arith, f.read_size))
        (control_value _ _ w.control (omega (arith, f.read_size)))

  tail : List ℕ
  tail = m.body ++ (replicate (pad_len m) 0 ++ rest)

  encoded_short :
      m.kind ≡ kind_short
      → encoded m ++ rest
        ≡ bit_or 0x1c (bit_and (quadlet_len m / 2 ^ 8) 0x01)
          ∷ bit_and (quadlet_len m) 0xff
          ∷ row1_flags m
          ∷ m.byte_bus_id % 256
          ∷ row2_flags m
          ∷ m.transaction_num % 256
          ∷ row2_control m.control m.read_size_or_segment
          ∷ bit_and m.read_size_or_segment 0xff
          ∷ tail
  unfolding encoded row1 row2 tail
  encoded_short k = simp (k, append_assoc)

  -- The type octet carries the ninth bit of the length.
  abbrev type_octet : ℕ → ℕ
  type_octet t = bit_or (t * 2) (bit_and (quadlet_len m / 2 ^ 8) 0x01)

  type_read : (t : ℕ) → (type_octet t / 2 ≡ t) × (bit_and (type_octet t) 1 ≡ quadlet_len m / 256)
  type_read t = ground (
    arith,
    f.quadlets,
    and_mask 1 (quadlet_len m / 256) 1,
    or_fields 1 t (bit_and (quadlet_len m / 256) 1),
    and_mask 1 (type_octet t) 1,
  )

  total_read :
      (t : ℕ)
      → bit_or (bit_and (type_octet t) 1 * 2 ^ 8) (bit_and (quadlet_len m) 0xff) * 4
        ≡ unpadded_len m + pad_len m
  total_read t = ground (
    arith,
    f.quadlets,
    padded_len,
    type_read t,
    and_mask 8 (quadlet_len m) 255,
    or_fields 8 (quadlet_len m / 256) (quadlet_len m % 256),
  )

  bus_read : bit_or (bit_and (row1_flags m) 0x07 * 2 ^ 8) (m.byte_bus_id % 256) ≡ m.byte_bus_id
  bus_read =
      ground (arith, octet1.bus_read, or_fields 8 (m.byte_bus_id / 256) (m.byte_bus_id % 256))

  size_read :
      bit_or
        (bit_and (row2_control m.control m.read_size_or_segment) 0x0f * 2 ^ 8)
        (bit_and m.read_size_or_segment 0xff)
      ≡ m.read_size_or_segment
  size_read = ground (
    arith,
    octet3.size_read,
    and_mask 8 m.read_size_or_segment 255,
    or_fields 8 (m.read_size_or_segment / 256) (m.read_size_or_segment % 256),
  )

  length-tail : length tail ≡ length m.body + pad_len m + length rest
  unfolding tail
  length-tail = omega (
    arith,
    length-append m.body (replicate (pad_len m) 0 ++ rest),
    length-append (replicate (pad_len m) 0) rest,
    length-replicate (pad_len m) (let z : ℕ = 0 in z),
  )

  unpadded_short : m.kind ≡ kind_short → unpadded_len m ≡ 8 + length m.body
  unfolding unpadded_len
  unpadded_short k = ground arith

  unpadded_long : m.kind ≡ kind_long → unpadded_len m ≡ 16 + length m.body
  unfolding unpadded_len
  unpadded_long k = ground arith

  take-tail : take (length m.body) tail ≡ m.body
  unfolding tail
  take-tail = take-append m.body _ (length m.body) refl

  decode_short :
      m.kind ≡ kind_short
      → decode_message_prefix (encoded m ++ rest) ≡ ok (received m, unpadded_len m + pad_len m)
  unfolding decode_message_prefix received
  decode_short k = rw (encoded_short k) (
      rw
        (
          (type_read 14).0,
          octet1.no_reserved,
          octet2.no_reserved,
          total_read 14,
          octet1.pad_read,
          octet1.mtv_read,
          octet2.evt_read,
          octet2.hs_read,
          octet2.cs_read,
          octet3.control_read,
          size_read,
          bus_read,
        )
        (ground (arith, k, length-tail, take-tail, unpadded_short k)))

  -- A long message, around whatever stands in the timestamp slot.
  long_cells : List ℕ → List ℕ
  long_cells slot =
      type_octet 0x0d
      ∷ bit_and (quadlet_len m) 0xff
      ∷ row1_flags m
      ∷ m.byte_bus_id % 256
      ∷ (slot
          ++ (row2_flags m
              ∷ m.transaction_num % 256
              ∷ row2_control m.control m.read_size_or_segment
              ∷ bit_and m.read_size_or_segment 0xff
              ∷ tail))

  encoded_long : m.kind ≡ kind_long → encoded m ++ rest ≡ long_cells (put_be 8 m.timestamp)
  unfolding encoded row1 row2 tail long_cells
  encoded_long k = simp (k, append_assoc)

  decode_long_cells :
      (a b c d e g h i : ℕ)
      → m.kind ≡ kind_long
      → get_be (a ∷ b ∷ c ∷ d ∷ e ∷ g ∷ h ∷ i ∷ []) ≡ m.timestamp
      → decode_message_prefix (long_cells (a ∷ b ∷ c ∷ d ∷ e ∷ g ∷ h ∷ i ∷ []))
        ≡ ok (received m, unpadded_len m + pad_len m)
  unfolding decode_message_prefix received long_cells
  decode_long_cells a b c d e g h i k ts =
      rw
        (
          (type_read 13).0,
          octet1.no_reserved,
          octet2.no_reserved,
          total_read 13,
          octet1.pad_read,
          octet1.mtv_read,
          octet2.evt_read,
          octet2.hs_read,
          octet2.cs_read,
          octet3.control_read,
          size_read,
          bus_read,
          ts,
        )
        (ground (arith, k, length-tail, take-tail, unpadded_long k))

  decode_slot :
      (slot : List ℕ)
      → length slot ≡ 8
      → get_be slot ≡ m.timestamp
      → m.kind ≡ kind_long
      → decode_message_prefix (long_cells slot) ≡ ok (received m, unpadded_len m + pad_len m)
  decode_slot (a ∷ b ∷ c ∷ d ∷ e ∷ g ∷ h ∷ i ∷ []) n ts k = decode_long_cells a b c d e g h i k ts
  decode_slot slot n ts k = absurd (omega arith)

  decode_long :
      m.kind ≡ kind_long
      → decode_message_prefix (encoded m ++ rest) ≡ ok (received m, unpadded_len m + pad_len m)
  decode_long k = rw (encoded_long k) (
      decode_slot (put_be 8 m.timestamp) (length-put_be 8 m.timestamp)
        (get_be-put_be 8 m.timestamp w.timestamp) k)

  decode-encoded :
      decode_message_prefix (encoded m ++ rest) ≡ ok (received m, unpadded_len m + pad_len m)
  decode-encoded = elim f.kind [ inl k ↦ decode_short k | inr k ↦ decode_long k ]

-- A message that `encode_message` accepts is read back off the front of any buffer, up to what the
-- wire does not carry (`received`), and the count returned is the encoding's length.
pub decode_message_prefix-encode_message :
    (m : Message) (buf rest : List ℕ)
    → IsMessage m
    → encode_message m ≡ ok buf
    → decode_message_prefix (buf ++ rest) ≡ ok (received m, length buf)
decode_message_prefix-encode_message m buf rest w e =
    let (f, e') = (encode_message_iff m buf).0 e in
    rw (e', length-encoded m) (decode-encoded m w f rest)

-- A buffer that holds just one encoded message is read back by `decode_message`.
pub decode_message-encode_message :
    (m : Message) (buf : List ℕ)
    → IsMessage m
    → encode_message m ≡ ok buf
    → decode_message buf ≡ ok (received m)
unfolding decode_message
decode_message-encode_message m buf w e =
    ground (arith, decode_message_prefix-encode_message m buf [] w e, append-nil buf)
