-- ===== src/Acf.antt =====
-- acf/message.go: RCP-over-ACF messages and their wire encoding, ACF_ABB (short) and ACF_GBB (long).
pub mod Masks
pub mod Decode
pub mod Accepted
pub mod Frame
pub mod Encodable
pub mod Evt
pub mod RoundTrip
pub mod Tests
use go_rcp.Base.{
  ℕ, ◌+◌, ◌-◌, ◌*◌, ◌/◌, ◌%◌, ◌^◌, ◌<◌, bit_and, bit_or, bit_xor, Bool, true, false, not, ◌&&◌,
  ◌||◌, Option, none, some, List, [], ◌∷◌, ◌++◌, length, get_or, take, drop, replicate, ltb, ◌==◌,
  ◌!=◌, if◌then◌else◌, Result, ok, err, reserved_bits_set, short_message, unknown_message_kind,
  length_overflow, evt_overflow, transaction_num_overflow, byte_bus_id_overflow, read_size_overflow,
  trailing_message_bytes, ◌>>=◌, ◌>>◌, reject_if,
}
use go_rcp.Base.Bytes.{AllBytes, put_be, get_be}

-- `MessageKind`, a uint8
abbrev pub kind_short : ℕ
kind_short = 1

abbrev pub kind_long : ℕ
kind_long = 2

abbrev wire_msg_type_short : ℕ
wire_msg_type_short = 0x0e

abbrev wire_msg_type_long : ℕ
wire_msg_type_long = 0x0d

-- `ControlFlags`, a uint8
abbrev pub flag_read : ℕ
flag_read = 2 ^ 7

abbrev pub flag_write : ℕ
flag_write = 2 ^ 6

abbrev pub flag_response : ℕ
flag_response = 2 ^ 5

abbrev pub flag_error : ℕ
flag_error = 2 ^ 4

abbrev pub flag_more_segments : ℕ
flag_more_segments = 2 ^ 3

abbrev pub known_flags : ℕ
known_flags =
    bit_or flag_read
      (bit_or flag_write (bit_or flag_response (bit_or flag_error flag_more_segments)))

unfoldable pub has : ℕ → ℕ → Bool
has f want = bit_and f want == want

-- `a &^ b` on a uint8
abbrev pub and_not : ℕ → ℕ → ℕ
and_not a b = bit_and a (bit_xor 0xff b)

abbrev pub descriptor_len : ℕ
descriptor_len = 8

abbrev timestamp_field_len : ℕ
timestamp_field_len = 8

abbrev pad_mask : ℕ
pad_mask = 0x03

abbrev pub max_quadlets : ℕ
max_quadlets = 0x1ff

abbrev pub max_byte_bus_id : ℕ
max_byte_bus_id = 0x7ff

abbrev pub max_transaction_num : ℕ
max_transaction_num = 0xff

abbrev pub max_read_size_or_segment : ℕ
max_read_size_or_segment = 0x0fff

abbrev pub max_evt : ℕ
max_evt = 0x0f

pub record Message : Type 0 where
  pub kind : ℕ
  pub pad : ℕ
  pub byte_bus_id : ℕ
  pub transaction_num : ℕ
  pub evt : ℕ
  pub hs : Bool
  pub cs : Bool
  pub mtv : Bool
  pub control : ℕ
  pub read_size_or_segment : ℕ
  pub timestamp : ℕ
  pub body : List ℕ

-- The widths of the Go types of a message's fields.
pub record IsMessage (m : Message) : Type 0 where
  pub byte_bus_id : m.byte_bus_id < 2 ^ 16
  pub transaction_num : m.transaction_num < 2 ^ 16
  pub evt : m.evt < 2 ^ 8
  pub control : m.control < 2 ^ 8
  pub read_size_or_segment : m.read_size_or_segment < 2 ^ 16
  pub timestamp : m.timestamp < 2 ^ 64
  pub body : AllBytes m.body

-- `Message{}`
abbrev pub no_message : Message
no_message = record {
  kind = 0;
  pad = 0;
  byte_bus_id = 0;
  transaction_num = 0;
  evt = 0;
  hs = false;
  cs = false;
  mtv = false;
  control = 0;
  read_size_or_segment = 0;
  timestamp = 0;
  body = [];
}

pub segment_number : Message → Option ℕ
unfolding has
segment_number m = if has m.control flag_more_segments then some m.read_size_or_segment else none

pub read_size : Message → Option ℕ
unfolding has
read_size m =
    if has m.control flag_read && not (has m.control flag_more_segments)
    then some m.read_size_or_segment
    else none

pub data ResponseKind : Type 0 where
  acknowledge write read error : ResponseKind

abbrev evt_response_acknowledge : ℕ
evt_response_acknowledge = 0x0f

pub response_kind : Message → ResponseKind
unfolding has
response_kind m =
    if m.evt == evt_response_acknowledge
    then acknowledge
    else if has m.control flag_error
    then error
    else if has m.control flag_write
    then write
    else read

unfoldable pub unpadded_len : Message → ℕ
unpadded_len m =
    let n = descriptor_len + length m.body in
    if m.kind == kind_long then n + timestamp_field_len else n

unfoldable pub pad_len : Message → ℕ
unfolding unpadded_len
pad_len m = (4 - unpadded_len m % 4) % 4

pub quadlet_len : Message → ℕ
unfolding pad_len
quadlet_len m = (unpadded_len m + pad_len m) / 4

-- Octet 2: pad, mtv, two reserved bits, and the top of byte_bus_id.
pub row1_flags : Message → ℕ
row1_flags m =
    bit_or (bit_or (bit_and (pad_len m) pad_mask * 2 ^ 6) (if m.mtv then 2 ^ 5 else 0))
      (bit_and (m.byte_bus_id / 2 ^ 8) 0x07)

pub row2_flags : Message → ℕ
row2_flags m = bit_or (bit_or (m.evt * 2 ^ 4 % 256) (if m.hs then 2 else 0)) (if m.cs then 1 else 0)

-- The op, rsp, err and ms bits.
pub row2_bits : ℕ → ℕ
unfolding has
row2_bits control =
    bit_or
      (bit_or
        (bit_or (if has control flag_write then 2 ^ 7 else 0)
          (if has control flag_response then 2 ^ 6 else 0))
        (if has control flag_error then 2 ^ 5 else 0))
      (if has control flag_more_segments then 2 ^ 4 else 0)

pub row2_control : ℕ → ℕ → ℕ
unfolding row2_bits
row2_control control size = bit_or (row2_bits control) (bit_and (size / 2 ^ 8) 0x0f)

pub row1 : Message → List ℕ
unfolding row1_flags quadlet_len
row1 m =
    bit_or ((if m.kind == kind_long then wire_msg_type_long else wire_msg_type_short) * 2)
      (bit_and (quadlet_len m / 2 ^ 8) 0x01)
    ∷ bit_and (quadlet_len m) 0xff
    ∷ row1_flags m
    ∷ m.byte_bus_id % 256
    ∷ []

pub row2 : Message → List ℕ
unfolding row2_flags row2_control
row2 m =
    row2_flags m
    ∷ m.transaction_num % 256
    ∷ row2_control m.control m.read_size_or_segment
    ∷ bit_and m.read_size_or_segment 0xff
    ∷ []

pub encoded : Message → List ℕ
unfolding row1 row2
encoded m =
    row1 m
    ++ ((if m.kind == kind_long then put_be 8 m.timestamp else [])
        ++ (row2 m ++ (m.body ++ replicate (pad_len m) 0)))

pub encode_message : Message → Result (List ℕ)
encode_message m = do
  reject_if (m.kind != kind_short && m.kind != kind_long) unknown_message_kind
  reject_if (and_not m.control known_flags != 0) reserved_bits_set
  reject_if (ltb max_evt m.evt) evt_overflow
  reject_if (ltb max_transaction_num m.transaction_num) transaction_num_overflow
  reject_if (ltb max_byte_bus_id m.byte_bus_id) byte_bus_id_overflow
  reject_if (ltb max_read_size_or_segment m.read_size_or_segment) read_size_overflow
  reject_if (ltb max_quadlets (quadlet_len m)) length_overflow
  ok (encoded m)
