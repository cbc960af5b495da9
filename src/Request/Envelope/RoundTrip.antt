-- ===== src/Request/Envelope/RoundTrip.antt =====
-- Envelopes that were encoded, read back.
use go_rcp.Base.{ℕ, ◌%◌, ◌^◌, ◌<◌, ◌≡◌, true, List, ok, arith}
use go_rcp.Base.Bytes.{put_be, get_be-put_be}
use go_rcp.Request.Kind.{is_valid_op, base}
use go_rcp.Request.Sequencer.{Conditional, IsConditional}
use go_rcp.Request.Envelope.{
  encode_conditional, decode_conditional, encode_compound, encode_compound_safety, decode_compound,
  encode_triggered, encode_triggered_safety, decode_triggered, encode_timed, decode_timed,
}

-- A timed request is read back.
pub decode_timed-encode_timed :
    (at_micros control : ℕ) (body : List ℕ)
    → at_micros < 2 ^ 64
    → decode_timed (encode_timed at_micros control body) ≡ ok (at_micros, control, body)
unfolding encode_timed decode_timed put_be
decode_timed-encode_timed at_micros control body fits = ground (arith, get_be-put_be 8 at_micros)

-- A triggered request, in its plain and its safety form, is read back; of the source's bus id the low byte.
pub decode_triggered-encode_triggered :
    (source control : ℕ) (body : List ℕ)
    → (decode_triggered (encode_triggered source control body) ≡ ok (source % 256, control, body))
      × (decode_triggered (encode_triggered_safety source control body)
          ≡ ok (source % 256, control, body))
unfolding encode_triggered encode_triggered_safety decode_triggered base
decode_triggered-encode_triggered source control body = (ground arith, ground arith)

module _ (c : Conditional) (w : IsConditional c) where
  -- A condition is read back from any bytes that begin with it, where its operator is a known one.
  decode_conditional-encode_conditional :
      is_valid_op c.op ≡ true → decode_conditional (encode_conditional c) ≡ ok c
  unfolding encode_conditional decode_conditional put_be
  decode_conditional-encode_conditional op = ground (
    arith,
    op,
    w.op,
    get_be-put_be 2 c.sequencer w.sequencer,
    get_be-put_be 4 c.operand w.operand,
    get_be-put_be 4 c.advance_on_match w.advance_on_match,
  )

  -- A compound request whose condition is within the Go types and has a known operator is read back, in
  -- its plain and its safety form.
  pub decode_compound-encode_compound :
      (control : ℕ) (body : List ℕ)
      → is_valid_op c.op ≡ true
      → (decode_compound (encode_compound c control body) ≡ ok (c, control, body))
        × (decode_compound (encode_compound_safety c control body) ≡ ok (c, control, body))
  unfolding encode_compound encode_compound_safety decode_compound encode_conditional put_be base
  decode_compound-encode_compound control body op = (
    ground (arith, decode_conditional-encode_conditional op),
    ground (arith, decode_conditional-encode_conditional op),
  )
