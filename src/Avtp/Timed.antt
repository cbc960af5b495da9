-- ===== src/Avtp/Timed.antt =====
-- A timestamped header, encoded and read back.
use go_rcp.Base.{
  ℕ, ◌*◌, ◌/◌, ◌^◌, ◌≤◌, ◌≡◌, refl, bit_and, bit_or, Bool, true, false, List, ◌∷◌, ◌++◌,
  append_assoc, length, length-append, take, drop, take-append, drop-append, drop-drop, ◌!=◌,
  if◌then◌else◌, ok, arith,
}
use go_rcp.Base.Bytes.{put_be, get_be, length-put_be, get_be-put_be}
use go_rcp.Avtp.{
  Header, IsHeader, TimestampStatus, missing, valid, invalid, uncertain, encode_flags, encode_timed,
  decode_timed, decode_header, encode_timestamp_markers, decode_timestamp_markers,
}
use go_rcp.Avtp.Received.{received, received_status}

-- The fields behind the first quadlet of a timed header.
module _ (h : Header) (w : IsHeader h) (rest : List ℕ) where
  abbrev after_length : List ℕ
  after_length = 0 ∷ 0 ∷ rest

  abbrev after_timestamp : List ℕ
  after_timestamp = 0 ∷ 0 ∷ 0 ∷ 0 ∷ (put_be 2 h.data_length ++ after_length)

  abbrev after_stream_id : List ℕ
  after_stream_id = put_be 4 h.timestamp ++ after_timestamp

  abbrev fields : List ℕ
  fields = h.stream_id ++ after_stream_id

  timestamp_at : drop 8 fields ≡ after_stream_id
  timestamp_at = drop-append h.stream_id after_stream_id 8 w.stream_id.eight

  length_at : drop 16 fields ≡ put_be 2 h.data_length ++ after_length
  length_at =
      rw (← drop-drop 8 8 fields, timestamp_at, ← drop-drop 4 4 after_stream_id)
        (rw (drop-append (put_be 4 h.timestamp) after_timestamp 4 (length-put_be 4 h.timestamp))
          refl)

  rest_at : drop 20 fields ≡ rest
  rest_at =
      rw
        (
          ← drop-drop 4 16 fields,
          length_at,
          ← drop-drop 2 2 (put_be 2 h.data_length ++ after_length),
        )
        (rw (drop-append (put_be 2 h.data_length) after_length 2 (length-put_be 2 h.data_length))
          refl)

  received_id : take 8 fields ≡ h.stream_id
  received_id = take-append h.stream_id after_stream_id 8 w.stream_id.eight

  received_timestamp : get_be (take 4 (drop 8 fields)) ≡ h.timestamp
  received_timestamp =
      rw
        (
          timestamp_at,
          take-append (put_be 4 h.timestamp) after_timestamp 4 (length-put_be 4 h.timestamp),
        )
        (get_be-put_be 4 h.timestamp w.timestamp)

  received_length : get_be (take 2 (drop 16 fields)) ≡ h.data_length
  received_length =
      rw
        (
          length_at,
          take-append (put_be 2 h.data_length) after_length 2 (length-put_be 2 h.data_length),
        )
        (get_be-put_be 2 h.data_length w.data_length)

markers-roundtrip :
    (s : TimestampStatus)
    → decode_timestamp_markers (encode_timestamp_markers s).0 (encode_timestamp_markers s).1
      ≡ received_status s
unfolding decode_timestamp_markers encode_timestamp_markers
markers-roundtrip missing = refl
markers-roundtrip valid = refl
markers-roundtrip invalid = refl
markers-roundtrip uncertain = refl

-- The flag octets say what they were set to.
record FlagsRead (sv tv tu : Bool) (b1 b3 : ℕ) : Type 0 where
  no_rsv : (bit_and b1 0x06 != 0) ≡ false
  no_octet3 : (bit_and b3 0xfe != 0) ≡ false
  sv_read : (bit_and b1 0x80 != 0) ≡ sv
  version_read : (bit_and (b1 / 16) 0x07 != 0) ≡ false
  tv_read : (bit_and b1 0x01 != 0) ≡ tv
  tu_read : (bit_and b3 0x01 != 0) ≡ tu

abbrev pub flag_bits : Bool → ℕ
flag_bits sv = bit_or (if sv then 0x80 else 0) (bit_and 0 0x07 * 2 ^ 4)

flags-FlagsRead :
    (sv tv tu : Bool)
    → FlagsRead sv tv tu (bit_or (flag_bits sv) (if tv then 0x01 else 0)) (if tu then 0x01 else 0)
flags-FlagsRead true true true = ground arith
flags-FlagsRead true true false = ground arith
flags-FlagsRead true false true = ground arith
flags-FlagsRead true false false = ground arith
flags-FlagsRead false true true = ground arith
flags-FlagsRead false true false = ground arith
flags-FlagsRead false false true = ground arith
flags-FlagsRead false false false = ground arith

module _ (h : Header) (w : IsHeader h) (rest : List ℕ) where
  encode_timed-append :
      encode_timed h ++ rest
      ≡ 0x05
        ∷ bit_or
            (flag_bits h.stream_id_valid)
            (if (encode_timestamp_markers h.timestamp_status).0 then 0x01 else 0)
        ∷ h.sequence_num
        ∷ (if (encode_timestamp_markers h.timestamp_status).1 then 0x01 else 0)
        ∷ fields h w rest
  unfolding encode_timed encode_flags
  encode_timed-append = simp append_assoc

  decode-encode_timed :
      h.timed ≡ true → decode_timed (encode_timed h ++ rest) ≡ ok (received h, rest)
  unfolding decode_timed received
  decode-encode_timed t =
      let (tv, tu) = encode_timestamp_markers h.timestamp_status in
      let f : FlagsRead h.stream_id_valid tv tu
          (bit_or (flag_bits h.stream_id_valid) (if tv then 0x01 else 0)) (if tu then 0x01 else 0) =
        flags-FlagsRead h.stream_id_valid tv tu in
      rw encode_timed-append (
        rw
          (
            f.no_rsv,
            f.no_octet3,
            f.sv_read,
            f.tv_read,
            f.tu_read,
            received_id h w rest,
            received_timestamp h w rest,
            received_length h w rest,
            rest_at h w rest,
            markers-roundtrip h.timestamp_status,
          )
          (ground arith))

-- Behind the subtype, the length and the version, the variant's own decoder runs.
decode_header_timed :
    (b1 sq b3 : ℕ) (tail : List ℕ)
    → 20 ≤ length tail
    → (bit_and (b1 / 16) 0x07 != 0) ≡ false
    → decode_header (0x05 ∷ b1 ∷ sq ∷ b3 ∷ tail) ≡ decode_timed (0x05 ∷ b1 ∷ sq ∷ b3 ∷ tail)
unfolding decode_header
decode_header_timed b1 sq b3 tail n v = ground arith

-- The length that a timed header takes, in front of anything.
timed_enough : (h : Header) (w : IsHeader h) (rest : List ℕ) → 20 ≤ length (fields h w rest)
timed_enough h w rest = omega (
  arith,
  length-append h.stream_id (after_stream_id h w rest),
  length-append (put_be 4 h.timestamp) (after_timestamp h w rest),
  length-append (put_be 2 h.data_length) (after_length h w rest),
  length-put_be 4 h.timestamp,
  length-put_be 2 h.data_length,
  w.stream_id.eight,
)

pub decode_header-encode_timed :
    (h : Header) (w : IsHeader h) (rest : List ℕ)
    → h.timed ≡ true
    → decode_header (encode_timed h ++ rest) ≡ ok (received h, rest)
decode_header-encode_timed h w rest t =
    let (tv, tu) = encode_timestamp_markers h.timestamp_status in
    rw
      (
        encode_timed-append h w rest,
        decode_header_timed _ _ _ (fields h w rest) (timed_enough h w rest)
            ((flags-FlagsRead h.stream_id_valid tv tu).version_read),
        ← encode_timed-append h w rest,
      )
      (decode-encode_timed h w rest t)
