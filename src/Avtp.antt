-- ===== src/Avtp.antt =====
-- avtp/: stream addresses (address.go) and the IEEE 1722 AVTPDU header in its untimed (NTSCF) and
-- timestamped (TSCF) forms (avtpdu.go). A byte is a number below 256, a byte slice or array a list
-- of them, `x >> k` is `x / 2 ^ k` and `x << k` is `x * 2 ^ k`. `b[i]` is `get_or b i 0`, and
-- `b[i:j]` is `take (j - i) (drop i b)`: each stands behind a test of the length.
pub mod Masks
pub mod Received
pub mod Timed
pub mod RoundTrip
pub mod Accepted
pub mod Tests
use go_rcp.Base.{
  ℕ, ◌+◌, ◌*◌, ◌/◌, ◌%◌, ◌^◌, ◌<◌, ◌≡◌, bit_and, bit_or, Bool, true, false, not, List, [], ◌∷◌,
  ◌++◌, length, get_or, take, drop, replicate, ltb, ◌!=◌, if◌then◌else◌, Result, ok, err, Error,
  short_header, unsupported_version, unknown_subtype, reserved_bits_set, data_length_overflow,
  ◌>>=◌, ◌>>◌, reject_if,
}
use go_rcp.Base.Bytes.{AllBytes, put_be, get_be}

-- address.go

-- `[8]byte`
abbrev pub StreamId : Type 0
StreamId = List ℕ

pub record IsStreamId (id : StreamId) : Type 0 where
  pub eight : length id ≡ 8
  pub bytes : AllBytes id

-- `byte(suffix >> 8)` and `byte(suffix)`
pub new_stream_id : List ℕ → ℕ → StreamId
new_stream_id mac suffix = take 6 mac ++ (suffix / 2 ^ 8 % 256 ∷ suffix % 256 ∷ [])

pub mac : StreamId → List ℕ
mac id = take 6 id

-- `uint16(s[6])<<8 | uint16(s[7])`
pub suffix : StreamId → ℕ
suffix id = bit_or (get_or id 6 0 * 2 ^ 8) (get_or id 7 0)

-- avtpdu.go
abbrev pub subtype_ntscf : ℕ
subtype_ntscf = 0x82

abbrev pub subtype_tscf : ℕ
subtype_tscf = 0x05

abbrev pub protocol_version : ℕ
protocol_version = 0

abbrev pub data_length_mask : ℕ
data_length_mask = 0x07ff

abbrev pub max_data_length : ℕ
max_data_length = data_length_mask

abbrev pub untimed_header_len : ℕ
untimed_header_len = 12

abbrev pub timed_header_len : ℕ
timed_header_len = 24

abbrev sv_mask : ℕ
sv_mask = 0x80

abbrev version_shift : ℕ
version_shift = 4

abbrev version_width : ℕ
version_width = 0x07

abbrev untimed_reserved_mask : ℕ
untimed_reserved_mask = 0x08

abbrev untimed_len_high_mask : ℕ
untimed_len_high_mask = 0x07

abbrev timed_rsv_mask : ℕ
timed_rsv_mask = 0x06

abbrev timed_tv_mask : ℕ
timed_tv_mask = 0x01

abbrev timed_tu_mask : ℕ
timed_tu_mask = 0x01

abbrev timed_octet3_reserved_mask : ℕ
timed_octet3_reserved_mask = 0xfe

pub data TimestampStatus : Type 0 where
  missing valid invalid uncertain : TimestampStatus

pub data Disposition : Type 0 where
  best_effort scheduled drop_frame : Disposition

pub record Header : Type 0 where
  pub timed : Bool
  pub stream_id_valid : Bool
  pub sequence_num : ℕ
  pub data_length : ℕ
  pub stream_id : StreamId
  pub timestamp : ℕ
  pub timestamp_status : TimestampStatus

-- The widths of the Go types of a header's fields.
pub record IsHeader (h : Header) : Type 0 where
  pub sequence_num : h.sequence_num < 2 ^ 8
  pub data_length : h.data_length < 2 ^ 16
  pub stream_id : IsStreamId h.stream_id
  pub timestamp : h.timestamp < 2 ^ 32

abbrev pub header_len : Bool → ℕ
header_len timed = if timed then timed_header_len else untimed_header_len

unfoldable pub wire_len : Header → ℕ
wire_len h = header_len h.timed

unfoldable pub encode_timestamp_markers : TimestampStatus → Bool × Bool
encode_timestamp_markers valid = (true, false)
encode_timestamp_markers uncertain = (true, true)
encode_timestamp_markers missing = (false, false)
encode_timestamp_markers invalid = (false, false)

unfoldable pub decode_timestamp_markers : Bool → Bool → TimestampStatus
decode_timestamp_markers tv tu = if not tv then missing else if tu then uncertain else valid

-- Octet 1 up to the version field.
encode_flags : Header → ℕ
encode_flags h =
    bit_or (if h.stream_id_valid then sv_mask else 0)
      (bit_and protocol_version version_width * 2 ^ version_shift)

pub encode_timed : Header → List ℕ
unfolding encode_flags
encode_timed h =
    let (tv, tu) = encode_timestamp_markers h.timestamp_status in
    subtype_tscf
    ∷ bit_or (encode_flags h) (if tv then timed_tv_mask else 0)
    ∷ h.sequence_num
    ∷ (if tu then timed_tu_mask else 0)
    ∷ (h.stream_id
        ++ (put_be 4 h.timestamp ++ (replicate 4 0 ++ (put_be 2 h.data_length ++ replicate 2 0))))

pub encode_untimed : Header → List ℕ
unfolding encode_flags
encode_untimed h =
    subtype_ntscf
    ∷ bit_or (encode_flags h) (bit_and (h.data_length / 2 ^ 8 % 256) untimed_len_high_mask)
    ∷ h.data_length % 256
    ∷ h.sequence_num
    ∷ h.stream_id

pub encode_header : Header → Result (List ℕ)
encode_header h = do
  reject_if (ltb max_data_length h.data_length) data_length_overflow
  ok (if h.timed then encode_timed h else encode_untimed h)

decode_subtype : ℕ → Result Bool
decode_subtype b0 =
    if b0 != subtype_ntscf
    then (if b0 != subtype_tscf then err unknown_subtype else ok true)
    else ok false

decode_timed : List ℕ → Result (Header × List ℕ)
decode_timed b = do
  let b1 = get_or b 1 0
  let b3 = get_or b 3 0
  reject_if (bit_and b1 timed_rsv_mask != 0) reserved_bits_set
  reject_if (bit_and b3 timed_octet3_reserved_mask != 0) reserved_bits_set
  ok (
    record {
      timed = true;
      stream_id_valid = bit_and b1 sv_mask != 0;
      sequence_num = get_or b 2 0;
      data_length = get_be (take 2 (drop 20 b));
      stream_id = take 8 (drop 4 b);
      timestamp = get_be (take 4 (drop 12 b));
      timestamp_status =
          decode_timestamp_markers (bit_and b1 timed_tv_mask != 0) (bit_and b3 timed_tu_mask != 0);
    },
    drop timed_header_len b,
  )

decode_untimed : List ℕ → Result (Header × List ℕ)
decode_untimed b = do
  let b1 = get_or b 1 0
  reject_if (bit_and b1 untimed_reserved_mask != 0) reserved_bits_set
  ok (
    record {
      timed = false;
      stream_id_valid = bit_and b1 sv_mask != 0;
      sequence_num = get_or b 3 0;
      data_length = bit_or (bit_and b1 untimed_len_high_mask * 2 ^ 8) (get_or b 2 0);
      stream_id = take 8 (drop 4 b);
      timestamp = 0;
      timestamp_status = missing;
    },
    drop untimed_header_len b,
  )

-- The header and the bytes behind it.
pub decode_header : List ℕ → Result (Header × List ℕ)
unfolding decode_subtype
decode_header b = do
  reject_if (ltb (length b) 1) short_header
  timed ← decode_subtype (get_or b 0 0)
  reject_if (ltb (length b) (header_len timed)) short_header
  reject_if (bit_and (get_or b 1 0 / 2 ^ version_shift) version_width != protocol_version)
      unsupported_version
  if timed then decode_timed b else decode_untimed b

unfoldable pub disposition : Header → Bool → Disposition
disposition h time_sync_supported =
    if not h.timed
    then best_effort
    else if not time_sync_supported
    then drop_frame
    else elim h.timestamp_status [ valid ↦ scheduled | _ ↦ best_effort ]
