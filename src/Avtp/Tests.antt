-- ===== src/Avtp/Tests.antt =====
-- The header codec on concrete headers.
use go_rcp.Base.{ℕ, ◌++◌, ◌≡◌, refl, true, false, List, [], ◌∷◌, ok, err, arith, short_header}
use go_rcp.Base.Bytes.{put_be}
use go_rcp.Avtp.{
  Header, IsHeader, StreamId, IsStreamId, missing, valid, encode_header, encode_timed,
  encode_untimed, decode_untimed, encode_timestamp_markers, decode_header,
}
use go_rcp.Avtp.Received.{received}
use go_rcp.Avtp.RoundTrip.{decode_header-encode_header}

abbrev pub sample_id : StreamId
sample_id = 2 ∷ 0 ∷ 0x5e ∷ 0x10 ∷ 0 ∷ 1 ∷ 0xab ∷ 0xcd ∷ []

abbrev pub sample_id-IsStreamId : IsStreamId sample_id
sample_id-IsStreamId = record { eight = refl; bytes = omega arith }

abbrev pub timed_header : Header
timed_header = record {
  timed = true;
  stream_id_valid = true;
  sequence_num = 7;
  data_length = 300;
  stream_id = sample_id;
  timestamp = 0x01020304;
  timestamp_status = valid;
}

abbrev pub untimed_header : Header
untimed_header = record timed_header { timed = false; timestamp = 0; timestamp_status = missing }

pub timed_header-IsHeader : IsHeader timed_header
timed_header-IsHeader = record {
  sequence_num = omega arith;
  data_length = omega arith;
  stream_id = sample_id-IsStreamId;
  timestamp = omega arith;
}

pub untimed_header-IsHeader : IsHeader untimed_header
untimed_header-IsHeader = record {
  sequence_num = omega arith;
  data_length = omega arith;
  stream_id = sample_id-IsStreamId;
  timestamp = omega arith;
}

abbrev timed_bytes : List ℕ
timed_bytes =
    0x05 ∷ 0x81 ∷ 7 ∷ 0 ∷ 2 ∷ 0 ∷ 0x5e ∷ 0x10 ∷ 0 ∷ 1 ∷ 0xab ∷ 0xcd ∷ 1 ∷ 2 ∷ 3 ∷ 4 ∷ 0 ∷ 0 ∷ 0 ∷ 0
    ∷ 1 ∷ 0x2c ∷ 0 ∷ 0 ∷ []

abbrev untimed_bytes : List ℕ
untimed_bytes = 0x82 ∷ 0x81 ∷ 0x2c ∷ 7 ∷ 2 ∷ 0 ∷ 0x5e ∷ 0x10 ∷ 0 ∷ 1 ∷ 0xab ∷ 0xcd ∷ []

encode_timed_header : encode_header timed_header ≡ ok timed_bytes
unfolding encode_header encode_timed encode_timestamp_markers put_be
encode_timed_header = refl

encode_untimed_header : encode_header untimed_header ≡ ok untimed_bytes
unfolding encode_header encode_untimed
encode_untimed_header = refl

pub encode_short_header :
    encode_header (record untimed_header { data_length = 20 })
    ≡ ok (0x82 ∷ 0x80 ∷ 20 ∷ 7 ∷ 2 ∷ 0 ∷ 0x5e ∷ 0x10 ∷ 0 ∷ 1 ∷ 0xab ∷ 0xcd ∷ [])
unfolding encode_header encode_untimed
encode_short_header = refl

decode_untimed_header : decode_header (untimed_bytes ++ (9 ∷ [])) ≡ ok (untimed_header, 9 ∷ [])
unfolding decode_header decode_untimed
decode_untimed_header = refl

-- A header cut short is an error.
decode_cut_header : decode_header (0x82 ∷ 0x81 ∷ 0x2c ∷ []) ≡ err short_header
unfolding decode_header
decode_cut_header = refl

decode_header-encode_header_example :
    decode_header (timed_bytes ++ (9 ∷ 8 ∷ [])) ≡ ok (received timed_header, 9 ∷ 8 ∷ [])
decode_header-encode_header_example =
    decode_header-encode_header timed_header timed_bytes (9 ∷ 8 ∷ []) timed_header-IsHeader
      encode_timed_header
