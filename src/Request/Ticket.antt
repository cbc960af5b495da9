-- ===== src/Request/Ticket.antt =====
-- request/ticket.go, and what request/dispatcher.go decodes a request into.
pub mod New
use go_rcp.Base.{
  ℕ, Bool, true, false, not, ◌&&◌, Option, none, some, List, [], ◌==◌, if◌then◌else◌, Error, Result,
  ok, err, invalid_kind, ◌>>=◌, ◌>>◌,
}
use go_rcp.Avtp.{StreamId}
use go_rcp.Acf.{Message, no_message, kind_long}
use go_rcp.Request.Kind.{
  kind_plain, kind_compound, kind_compound_wait, kind_triggered, kind_chained, kind_timed,
  kind_cancel_all, kind_cancel_transaction, kind_cancel_sequencer, base,
}
use go_rcp.Request.Sequencer.{Conditional, no_conditional}
use go_rcp.Request.Envelope.{
  peek_kind, decode_compound, decode_compound_wait, decode_triggered, decode_timed,
  decode_cancel_all, decode_cancel_transaction, decode_cancel_sequencer,
}
use go_rcp.Request.Chained.{ChainedSegment, decode_chained}

pub data State : Type 0 where
  queued started executing finalized : State

abbrev pub is_finalized : State → Bool
is_finalized finalized = true
is_finalized queued = false
is_finalized started = false
is_finalized executing = false

abbrev pub is_queued : State → Bool
is_queued queued = true
is_queued started = false
is_queued executing = false
is_queued finalized = false

abbrev pub is_started : State → Bool
is_started started = true
is_started queued = false
is_started executing = false
is_started finalized = false

-- `err` is nil as `none`.
pub record Ticket : Type 0 where
  pub id : ℕ
  pub requester : StreamId
  pub original : Message
  pub kind : ℕ
  pub state : State
  pub conditional : Conditional
  pub inner_control : ℕ
  pub inner_body : List ℕ
  pub trigger_source : ℕ
  pub execute_at_micros : ℕ
  pub segments : List ChainedSegment
  pub cancel_txn : ℕ
  pub cancel_seq : ℕ
  pub response : Message
  pub error : Option Error

-- The ticket that `Submit` starts from.
abbrev pub new_ticket : ℕ → StreamId → Message → Ticket
new_ticket id requester original = record {
  id = id;
  requester = requester;
  original = original;
  kind = kind_plain;
  state = queued;
  conditional = no_conditional;
  inner_control = 0;
  inner_body = [];
  trigger_source = 0;
  execute_at_micros = 0;
  segments = [];
  cancel_txn = 0;
  cancel_seq = 0;
  response = no_message;
  error = none;
}

unfoldable pub is_conditional_envelope : Message → Bool
is_conditional_envelope req = req.kind == kind_long && not req.mtv

-- The fields of one kind; `t` has its kind already.
decode_fields : Ticket → List ℕ → Result Ticket
decode_fields t body =
    if base t.kind == kind_compound
    then (do
      (c, ic, ib) ← decode_compound body
      ok (record t { conditional = c; inner_control = ic; inner_body = ib }))
    else if base t.kind == kind_compound_wait
    then (do c ← decode_compound_wait body; ok (record t { conditional = c }))
    else if base t.kind == kind_triggered
    then (do
      (src, ic, ib) ← decode_triggered body
      ok (record t { trigger_source = src; inner_control = ic; inner_body = ib }))
    else if base t.kind == kind_chained
    then (do segs ← decode_chained body; ok (record t { segments = segs }))
    else if base t.kind == kind_timed
    then (do
      (at, ic, ib) ← decode_timed body
      ok (record t { execute_at_micros = at; inner_control = ic; inner_body = ib }))
    else if base t.kind == kind_cancel_all
    then (do decode_cancel_all body; ok t)
    else if base t.kind == kind_cancel_transaction
    then (do txn ← decode_cancel_transaction body; ok (record t { cancel_txn = txn }))
    else if base t.kind == kind_cancel_sequencer
    then (do id ← decode_cancel_sequencer body; ok (record t { cancel_seq = id }))
    else err invalid_kind

pub decode_into : Ticket → List ℕ → Result Ticket
unfolding decode_fields
decode_into t body = do k ← peek_kind body; decode_fields (record t { kind = k }) body

-- `Submit` up to the admission of the ticket.
unfoldable pub decode_ticket : ℕ → StreamId → Message → Result Ticket
unfolding decode_into is_conditional_envelope
decode_ticket id requester req =
    let t = new_ticket id requester req in
    if not (is_conditional_envelope req)
    then ok (record t { kind = kind_plain; inner_control = req.control; inner_body = req.body })
    else decode_into t req.body
