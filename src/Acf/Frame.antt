-- ===== src/Acf/Frame.antt =====
-- acf/frame.go: an AVTPDU header around a sequence of messages.
pub mod RoundTrip
mod Tests
use mathlib.Core.Option
use go_rcp.Base.{
  ℕ, zero, suc, ◌+◌, ◌%◌, ◌^◌, ◌≤◌, ◌≡◌, refl, ap, Option, none, some, List, [], ◌∷◌, ◌++◌, map,
  length, length-append, drop, drop-append, length-drop, All, ltb, ◌!=◌, if◌then◌else◌, Result, ok,
  err, frame_length_mismatch, data_length_overflow, ◌>>=◌, ◌>>◌, reject_if, arith, inl, inr,
  >>=-eq-ok, Result-cases, !=_refl, Bool-cases,
}
use go_rcp.Avtp.{
  Header, IsHeader, header_len, wire_len, max_data_length, encode_header, decode_header,
}
use go_rcp.Avtp.RoundTrip.{decode_header-encode_header, length-encode_header}
use go_rcp.Avtp.Received
use go_rcp.Acf.{Message, IsMessage, encode_message}
use go_rcp.Acf.Decode.{decode_message_prefix}
use go_rcp.Acf.Encodable.{received, length-encode_message}
use go_rcp.Acf.Accepted.{decode_message_prefix_takes}

pub record Frame : Type 0 where
  pub header : Header
  pub messages : List Message

-- The loop of `EncodeFrame` over its messages.
encode_messages : List Message → Result (List ℕ)
encode_messages [] = ok []
encode_messages (m ∷ ms) = do
  bytes ← encode_message m
  payload ← encode_messages ms
  ok (bytes ++ payload)

pub encode_frame : Header → List Message → Result (List ℕ)
unfolding encode_messages
encode_frame hdr msgs = do
  payload ← encode_messages msgs
  reject_if (ltb max_data_length (length payload)) data_length_overflow
  hdr_bytes ← encode_header (record hdr { data_length = length payload % 2 ^ 16 })
  ok (hdr_bytes ++ payload)

abbrev prepend : Message → Result (List Message) → Result (List Message)
prepend m (ok ms) = ok (m ∷ ms)
prepend m (err e) = err e

-- The loop of `DecodeFrame`; `none` is out of fuel.
decode_messages : ℕ → List ℕ → Option (Result (List Message))
decode_messages fuel [] = some (ok [])
decode_messages zero (b ∷ bs) = none
decode_messages (suc fuel) (b ∷ bs) = elim (decode_message_prefix (b ∷ bs)) [
  | err e ↦ some (err e)
  | ok (m, n) ↦ Option.map (prepend m) (decode_messages fuel (drop n (b ∷ bs)))
]

abbrev with_header : Header → Result (List Message) → Result Frame
with_header h (ok ms) = ok (record { header = h; messages = ms })
with_header h (err e) = err e

-- Each round takes at least one byte, so as many rounds as bytes are enough.
pub decode_frame : List ℕ → Option (Result Frame)
unfolding decode_messages
decode_frame b = elim (decode_header b) [
  | err e ↦ some (err e)
  | ok (h, rest) ↦
      if length rest != h.data_length
      then some (err frame_length_mismatch)
      else Option.map (with_header h) (decode_messages (length rest) rest)
]

decode_messages_total :
    (fuel : ℕ) (b : List ℕ)
    → length b ≤ fuel
    → (r : Result (List Message)) × (decode_messages fuel b ≡ some r)
unfolding decode_messages
decode_messages_total fuel [] h = (ok [], refl)
decode_messages_total zero (b ∷ bs) h = absurd (omega arith)
decode_messages_total (suc fuel) (b ∷ bs) h = elim (Result-cases (decode_message_prefix (b ∷ bs))) [
  | inr (e, eq) ↦ (err e, rw (eq, decode_messages))
  | inl ((m, n), eq) ↦
      let (r, ih) =
        decode_messages_total fuel (drop n (b ∷ bs))
          (omega (arith, decode_message_prefix_takes (b ∷ bs) m n eq, length-drop n (b ∷ bs))) in
      (prepend m r, rw (eq, decode_messages) (rw ih))
]

-- On every input, well formed or not, `decode_frame` ends with a frame or an error.
pub decode_frame_total : (b : List ℕ) → (r : Result Frame) × (decode_frame b ≡ some r)
unfolding decode_frame
decode_frame_total b = elim (Result-cases (decode_header b)) [
  | inr (e, eq) ↦ (err e, rw (eq, decode_frame))
  | inl ((h, rest), eq) ↦ elim (Bool-cases (length rest != h.data_length)) [
    | inl bad ↦ (err frame_length_mismatch, rw (eq, decode_frame) (rw bad))
    | inr good ↦
        let (r, run) = decode_messages_total (length rest) rest (omega arith) in
        (with_header h r, rw (eq, decode_frame) (rw (good, run)))
  ]
]
