-- ===== src/Avtp/Received.antt =====
-- What a decoder sees of an encoded header, and how long the encoding is.
use go_rcp.Base.{◌≡◌, ◌++◌, length, length-append, replicate, if◌then◌else◌, arith}
use go_rcp.Base.Bytes.{put_be, length-put_be}
use go_rcp.Avtp.{Header, TimestampStatus, missing, invalid, encode_timed, encode_untimed}

-- What the wire keeps of a header: an untimed one has no timestamp, and an invalid timestamp reads
-- as a missing one.
abbrev pub received_status : TimestampStatus → TimestampStatus
received_status invalid = missing
received_status s = s

unfoldable pub received : Header → Header
received h = record h {
  timestamp = if h.timed then h.timestamp else 0;
  timestamp_status = if h.timed then received_status h.timestamp_status else missing;
}

pub length_timed : (h : Header) → length h.stream_id ≡ 8 → length (encode_timed h) ≡ 24
unfolding encode_timed
length_timed h e = omega (
  arith,
  length-append h.stream_id
      (put_be 4 h.timestamp ++ (replicate 4 0 ++ (put_be 2 h.data_length ++ replicate 2 0))),
  length-append (put_be 4 h.timestamp) (replicate 4 0 ++ (put_be 2 h.data_length ++ replicate 2 0)),
  length-append (put_be 2 h.data_length) (replicate 2 0),
  length-put_be 4 h.timestamp,
  length-put_be 2 h.data_length,
)

pub length_untimed : (h : Header) → length h.stream_id ≡ 8 → length (encode_untimed h) ≡ 12
unfolding encode_untimed
length_untimed h e = omega arith
