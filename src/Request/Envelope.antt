-- ===== src/Request/Envelope.antt =====
-- request/envelope.go: the bodies of conditional and cancellation requests. A Go `nil` body and an
-- empty one are the same list.
pub mod RoundTrip
use go_rcp.Base.{
  ℕ, ◌+◌, ◌%◌, Bool, not, List, [], ◌∷◌, ◌++◌, length, take, drop, get_or, ltb, ◌!=◌, if◌then◌else◌,
  Result, ok, short_buffer, invalid_kind, wrong_kind, trailing_bytes, invalid_compare_op, ◌>>=◌,
  ◌>>◌, reject_if,
}
use go_rcp.Base.Bytes.{put_be, get_be}
use go_rcp.Request.Kind.{
  kind_compound, kind_compound_wait, kind_triggered, kind_timed, kind_cancel_all,
  kind_cancel_transaction, kind_cancel_sequencer, kind_compound_safety, kind_compound_wait_safety,
  kind_triggered_safety, base, is_valid_kind, is_valid_op,
}
use go_rcp.Request.Sequencer.{Conditional}

unfoldable pub peek_kind : List ℕ → Result ℕ
peek_kind body = do
  reject_if (ltb (length body) 1) short_buffer
  reject_if (not (is_valid_kind (get_or body 0 0))) invalid_kind
  ok (get_or body 0 0)

abbrev conditional_len : ℕ
conditional_len = 2 + 1 + 4 + 4

unfoldable pub encode_conditional : Conditional → List ℕ
encode_conditional c =
    put_be 2 c.sequencer ++ (c.op % 256 ∷ (put_be 4 c.operand ++ put_be 4 c.advance_on_match))

unfoldable pub decode_conditional : List ℕ → Result Conditional
decode_conditional b = do
  reject_if (ltb (length b) conditional_len) short_buffer
  reject_if (not (is_valid_op (get_or b 2 0))) invalid_compare_op
  ok (record {
    sequencer = get_be (take 2 b);
    op = get_or b 2 0;
    operand = get_be (take 4 (drop 3 b));
    advance_on_match = get_be (take 4 (drop 7 b));
  })

-- `body[0] = kind`
abbrev pub retag : ℕ → List ℕ → List ℕ
retag kind [] = []
retag kind (b ∷ bs) = kind ∷ bs

unfoldable pub encode_compound : Conditional → ℕ → List ℕ → List ℕ
unfolding encode_conditional
encode_compound c inner_control inner_body =
    kind_compound ∷ (encode_conditional c ++ (inner_control ∷ inner_body))

unfoldable pub encode_compound_safety : Conditional → ℕ → List ℕ → List ℕ
unfolding encode_compound
encode_compound_safety c inner_control inner_body =
    retag kind_compound_safety (encode_compound c inner_control inner_body)

unfoldable pub decode_compound : List ℕ → Result (Conditional × ℕ × List ℕ)
unfolding decode_conditional
decode_compound body = do
  reject_if (ltb (length body) (1 + conditional_len + 1)) short_buffer
  reject_if (base (get_or body 0 0) != kind_compound) wrong_kind
  c ← decode_conditional (take conditional_len (drop 1 body))
  ok (c, get_or body (1 + conditional_len) 0, drop (1 + conditional_len + 1) body)

unfoldable pub encode_compound_wait : Conditional → List ℕ
unfolding encode_conditional
encode_compound_wait c = kind_compound_wait ∷ encode_conditional c

unfoldable pub encode_compound_wait_safety : Conditional → List ℕ
unfolding encode_compound_wait
encode_compound_wait_safety c = retag kind_compound_wait_safety (encode_compound_wait c)

unfoldable pub decode_compound_wait : List ℕ → Result Conditional
unfolding decode_conditional
decode_compound_wait body = do
  reject_if (ltb (length body) (1 + conditional_len)) short_buffer
  reject_if (base (get_or body 0 0) != kind_compound_wait) wrong_kind
  reject_if (ltb (1 + conditional_len) (length body)) trailing_bytes
  decode_conditional (drop 1 body)

-- `byte(source)` drops the upper bits of a bus id.
unfoldable pub encode_triggered : ℕ → ℕ → List ℕ → List ℕ
encode_triggered source inner_control inner_body =
    kind_triggered ∷ source % 256 ∷ inner_control ∷ inner_body

unfoldable pub encode_triggered_safety : ℕ → ℕ → List ℕ → List ℕ
unfolding encode_triggered
encode_triggered_safety source inner_control inner_body =
    retag kind_triggered_safety (encode_triggered source inner_control inner_body)

unfoldable pub decode_triggered : List ℕ → Result (ℕ × ℕ × List ℕ)
decode_triggered body = do
  reject_if (ltb (length body) 3) short_buffer
  reject_if (base (get_or body 0 0) != kind_triggered) wrong_kind
  ok (get_or body 1 0, get_or body 2 0, drop 3 body)

unfoldable pub encode_timed : ℕ → ℕ → List ℕ → List ℕ
encode_timed execute_at_micros inner_control inner_body =
    kind_timed ∷ (put_be 8 execute_at_micros ++ (inner_control ∷ inner_body))

unfoldable pub decode_timed : List ℕ → Result (ℕ × ℕ × List ℕ)
decode_timed body = do
  reject_if (ltb (length body) 10) short_buffer
  reject_if (get_or body 0 0 != kind_timed) wrong_kind
  ok (get_be (take 8 (drop 1 body)), get_or body 9 0, drop 10 body)

pub encode_cancel_all : List ℕ
encode_cancel_all = kind_cancel_all ∷ []

unfoldable pub decode_cancel_all : List ℕ → Result (Unit {0})
decode_cancel_all body = do
  reject_if (ltb (length body) 1) short_buffer
  reject_if (get_or body 0 0 != kind_cancel_all) wrong_kind
  reject_if (ltb 1 (length body)) trailing_bytes

pub encode_cancel_transaction : ℕ → List ℕ
encode_cancel_transaction txn = kind_cancel_transaction ∷ put_be 2 txn

unfoldable pub decode_cancel_transaction : List ℕ → Result ℕ
decode_cancel_transaction body = do
  reject_if (ltb (length body) 3) short_buffer
  reject_if (get_or body 0 0 != kind_cancel_transaction) wrong_kind
  reject_if (ltb 3 (length body)) trailing_bytes
  ok (get_be (take 2 (drop 1 body)))

pub encode_cancel_sequencer : ℕ → List ℕ
encode_cancel_sequencer id = kind_cancel_sequencer ∷ put_be 2 id

unfoldable pub decode_cancel_sequencer : List ℕ → Result ℕ
decode_cancel_sequencer body = do
  reject_if (ltb (length body) 3) short_buffer
  reject_if (get_or body 0 0 != kind_cancel_sequencer) wrong_kind
  reject_if (ltb 3 (length body)) trailing_bytes
  ok (get_be (take 2 (drop 1 body)))

pub record ConditionalResult : Type 0 where
  pub matched : Bool
  pub sequencer_value : ℕ

pub encode_conditional_response : ConditionalResult → List ℕ → List ℕ
encode_conditional_response res inner_body =
    (if res.matched then 1 else 0) ∷ (put_be 4 res.sequencer_value ++ inner_body)

pub decode_conditional_response : List ℕ → Result (ConditionalResult × List ℕ)
decode_conditional_response body = do
  reject_if (ltb (length body) 5) short_buffer
  ok (
    record { matched = get_or body 0 0 != 0; sequencer_value = get_be (take 4 (drop 1 body)) },
    drop 5 body,
  )

pub encode_cancel_response : ℕ → List ℕ
encode_cancel_response cancelled = put_be 2 cancelled

pub decode_cancel_response : List ℕ → Result ℕ
decode_cancel_response body = do
  reject_if (ltb (length body) 2) short_buffer
  reject_if (ltb 2 (length body)) trailing_bytes
  ok (get_be body)
