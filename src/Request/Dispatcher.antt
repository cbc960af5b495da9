-- ===== src/Request/Dispatcher.antt =====
-- request/dispatcher.go: the request lifecycle of one endpoint. `World` is the state that the
-- endpoint's handler and the trigger pumps act on; they and the checks are the caller's code. A
-- ticket of `order` that the map lacks, a nil pointer in Go, is skipped.
pub mod Pump
pub mod Later
pub mod Runs
pub mod Purge
pub mod Admission
pub mod Reachable
mod Tests
use go_rcp.Base.{
  ℕ, ◌+◌, ◌-◌, ◌%◌, ◌^◌, bit_and, bit_or, Bool, true, false, not, ◌&&◌, ◌||◌, Option, none, some,
  List, [], ◌∷◌, ◌++◌, length, ltb, leb, ◌==◌, ◌!=◌, if◌then◌else◌, Error, Result, ok, err,
  invalid_kind, chained_segment_failed, unknown_ticket, pending, ticket_cancelled,
  purged_by_watchdog, safe_state_not_configured,
}
use go_rcp.Base.Assoc.{lookup, insert, delete, nat_eq}
use go_rcp.Avtp.{StreamId}
use go_rcp.Acf.{Message, no_message, flag_read, flag_write, flag_response}
use go_rcp.Request.Kind.{
  kind_plain, kind_compound, kind_compound_wait, kind_triggered, kind_chained, kind_timed,
  kind_cancel_all, kind_cancel_transaction, kind_cancel_sequencer, is_safety, base, priority,
}
use go_rcp.Request.Sequencer.{Sequencer, evaluate}
use go_rcp.Request.Envelope.{ConditionalResult, encode_conditional_response, encode_cancel_response}
use go_rcp.Request.Chained.{ChainedSegment, ChainedResponse, ChainedResult, encode_chained_response}
use go_rcp.Request.Ticket.{
  State, queued, started, executing, finalized, is_finalized, is_queued, is_started, Ticket,
  decode_ticket,
}

pub record Dispatcher (World : Type 0) : Type 0 where
  pub world : World
  pub handler : World → StreamId → Message → (Message × Option Error) × World
  pub seq : Sequencer
  pub access : Option (World → StreamId → Option Error)
  pub safe_state : Option (World → StreamId → Bool)
  pub pumps : List (ℕ × (World → ℕ × World))
  pub tickets : List (ℕ × Ticket)
  pub order : List ℕ
  pub next_id : ℕ

pub inner_message : Ticket → ℕ → List ℕ → Message
inner_message t control body = record no_message {
  kind = t.original.kind;
  byte_bus_id = t.original.byte_bus_id;
  transaction_num = t.original.transaction_num;
  evt = t.original.evt;
  control = control;
  read_size_or_segment = t.original.read_size_or_segment;
  timestamp = t.original.timestamp;
  body = body;
}

pub response_for : Ticket → List ℕ → Message
response_for t body = record no_message {
  kind = t.original.kind;
  byte_bus_id = t.original.byte_bus_id;
  transaction_num = t.original.transaction_num;
  control = bit_or flag_response (bit_and t.inner_control (bit_or flag_read flag_write));
  body = body;
}

conditional_response : Ticket → Bool → ℕ → List ℕ → Ticket
unfolding response_for
conditional_response t matched value inner_body = record t {
  response = response_for t (
      encode_conditional_response (record { matched = matched; sequencer_value = value })
        inner_body);
}

module _ {World : Type 0} where
  abbrev denied : Dispatcher World → StreamId → Option Error
  denied d requester = elim d.access [ none ↦ none | some check ↦ check d.world requester ]

  abbrev has_check : Option (World → StreamId → Bool) → Bool
  has_check none = false
  has_check (some check) = true

  pub register_trigger_source : Dispatcher World → ℕ → (World → ℕ × World) → Dispatcher World
  register_trigger_source d source pump = record d { pumps = insert source pump d.pumps }

  pub set_safe_state_check : Dispatcher World → Option (World → StreamId → Bool) → Dispatcher World
  set_safe_state_check d check = record d { safe_state = check }

  unfoldable pub submit : Dispatcher World → StreamId → Message → Result ℕ × Dispatcher World
  submit d requester req = elim (denied d requester) [
    | some e ↦ (err e, d)
    | none ↦ elim (decode_ticket d.next_id requester req) [
      | err e ↦ (err e, d)
      | ok t ↦
          if is_safety t.kind && not (has_check d.safe_state)
          then (err safe_state_not_configured, d)
          else (
            ok t.id,
            record d {
              next_id = (d.next_id + 1) % 2 ^ 64;
              tickets = insert t.id t d.tickets;
              order = d.order ++ (t.id ∷ []);
            },
          )
    ]
  ]

  -- The write through a ticket's pointer.
  pub put : Dispatcher World → Ticket → Dispatcher World
  put d t = record d { tickets = insert t.id t d.tickets }

  -- `finalizeWhereLocked` over the ids of `order`.
  pub finalize_where :
      Dispatcher World → Error → (Ticket → Bool) → List ℕ → List ℕ × Dispatcher World
  unfolding put
  finalize_where d e matches [] = ([], d)
  finalize_where d e matches (id ∷ ids) = elim (lookup id d.tickets) [
    | none ↦ finalize_where d e matches ids
    | some t ↦
        let skipped = finalize_where d e matches ids in
        let rest =
          finalize_where (put d (record t { state = finalized; error = some e })) e matches ids in
        if is_finalized t.state || not (matches t) then skipped else (id ∷ rest.0, rest.1)
  ]

  pub cancel_where : Dispatcher World → ℕ → (Ticket → Bool) → List ℕ × Dispatcher World
  unfolding finalize_where
  cancel_where d exclude matches =
      finalize_where d ticket_cancelled (λ t. t.id != exclude && matches t) d.order

  pub purge_non_safety : Dispatcher World → List ℕ × Dispatcher World
  unfolding finalize_where
  purge_non_safety d = finalize_where d purged_by_watchdog (λ t. not (is_safety t.kind)) d.order

  -- The handler's answer to a request of `t`.
  handle : Dispatcher World → Ticket → ℕ → List ℕ → (Message × Option Error) × Dispatcher World
  unfolding inner_message
  handle d t control body =
      let (answer, world) = d.handler d.world t.requester (inner_message t control body) in
      (answer, record d { world = world })

  execute_handler : Dispatcher World → Ticket → Ticket × Dispatcher World
  unfolding handle
  execute_handler d t =
      let ((response, error), d') = handle d t t.inner_control t.inner_body in
      (record t { response = response; error = error }, d')

  execute_compound : Dispatcher World → Ticket → Ticket × Dispatcher World
  unfolding handle conditional_response
  execute_compound d t =
      let ((matched, value), seq) = evaluate t.conditional d.seq in
      let d1 = record d { seq = seq } in
      let ((resp, error), d2) = handle d1 t t.inner_control t.inner_body in
      if not matched then (conditional_response t matched value [], d1) else elim error [
        | some e ↦ (record t { error = some e }, d2)
        | none ↦ (conditional_response t matched value resp.body, d2)
      ]

  execute_compound_wait : Dispatcher World → Ticket → Ticket × Dispatcher World
  unfolding conditional_response
  execute_compound_wait d t =
      let ((matched, value), seq) = evaluate t.conditional d.seq in
      (conditional_response t matched value [], record d { seq = seq })

  -- The segments in order, up to the first that fails; whether one did.
  run_chain :
      Dispatcher World
      → Ticket
      → List ChainedSegment
      → (List ChainedResponse × Bool) × Dispatcher World
  unfolding handle
  run_chain d t [] = (([], false), d)
  run_chain d t (seg ∷ segs) =
      let ((resp, error), d') = handle d t seg.control seg.body in
      let ((responses, failed), d'') = run_chain d' t segs in
      elim error [
        | some e ↦ ((record { body = []; failed = true } ∷ [], true), d')
        | none ↦ ((record { body = resp.body; failed = false } ∷ responses, failed), d'')
      ]

  execute_chained : Dispatcher World → Ticket → Ticket × Dispatcher World
  unfolding run_chain response_for
  execute_chained d t =
      let ((responses, failed), d') = run_chain d t t.segments in
      let result : ChainedResult = record { responses = responses; total = length t.segments } in
      (
        record t {
          error = if failed then some chained_segment_failed else t.error;
          response = response_for t (encode_chained_response result);
        },
        d',
      )

  execute_cancel :
      Dispatcher World → Ticket → (Ticket → Bool) → List ℕ × (Ticket × Dispatcher World)
  unfolding cancel_where response_for
  execute_cancel d t matches =
      let (cancelled, d') = cancel_where d t.id matches in
      (
        cancelled,
        (
          record t {
            response = response_for t (encode_cancel_response (length cancelled % 2 ^ 16));
          },
          d',
        ),
      )

  -- The ids that a cancellation finalized, the ticket with its outcome, and the dispatcher.
  pub execute : Dispatcher World → Ticket → List ℕ × (Ticket × Dispatcher World)
  unfolding execute_handler execute_compound execute_compound_wait execute_chained execute_cancel
  execute d t =
      let k = base t.kind in
      if k == kind_plain
      then ([], execute_handler d t)
      else if k == kind_compound
      then ([], execute_compound d t)
      else if k == kind_compound_wait
      then ([], execute_compound_wait d t)
      else if k == kind_triggered || k == kind_timed
      then ([], execute_handler d t)
      else if k == kind_chained
      then ([], execute_chained d t)
      else if k == kind_cancel_all
      then execute_cancel d t (λ other. true)
      else if k == kind_cancel_transaction
      then execute_cancel d t (λ other. other.original.transaction_num == t.cancel_txn)
      else if k == kind_cancel_sequencer
      then execute_cancel d t (λ other.
        (other.kind == kind_compound || other.kind == kind_compound_wait)
        && other.conditional.sequencer == t.cancel_seq)
      else ([], (record t { error = some invalid_kind }, d))
