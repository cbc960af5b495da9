-- ===== src/Acf/Frame/Tests.antt =====
-- A concrete frame.
use go_rcp.Base.{ℕ, ◌≡◌, ◌+◌, false, some, List, [], ◌∷◌, ok, length, Result}
use go_rcp.Avtp.{header_len}
use go_rcp.Avtp.Tests.{encode_short_header, untimed_header, untimed_header-IsHeader}
use go_rcp.Avtp.Received
use go_rcp.Acf.Encodable.{received}
use go_rcp.Acf.Frame.{Frame, encode_frame, decode_frame, decode_frame_total}
use go_rcp.Acf.Frame.RoundTrip.{decode_frame-encode_frame}
use go_rcp.Acf.Tests.{write_message, write_message-IsMessage, encode_write, write_bytes}

abbrev frame_bytes : List ℕ
frame_bytes = 0x82 ∷ 0x80 ∷ 20 ∷ 7 ∷ 2 ∷ 0 ∷ 0x5e ∷ 0x10 ∷ 0 ∷ 1 ∷ 0xab ∷ 0xcd ∷ write_bytes

encode_one : encode_frame untimed_header (write_message ∷ []) ≡ ok frame_bytes
unfolding encode_frame
encode_one = rw (encode_write, encode_short_header)

decode_frame_total_example : (r : Result Frame) × (decode_frame (0x82 ∷ 0x80 ∷ []) ≡ some r)
decode_frame_total_example = decode_frame_total (0x82 ∷ 0x80 ∷ [])

decode_frame-encode_frame_example :
    (n : ℕ) × (decode_frame frame_bytes
      ≡ some (
          ok (record {
            header = Received.received (record untimed_header { data_length = n });
            messages = received write_message ∷ [];
          })))
    × (length frame_bytes ≡ n + header_len false)
decode_frame-encode_frame_example =
    decode_frame-encode_frame untimed_header (write_message ∷ []) frame_bytes
      untimed_header-IsHeader (write_message-IsMessage, tt) encode_one
