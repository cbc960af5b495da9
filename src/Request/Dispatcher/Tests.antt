-- ===== src/Request/Dispatcher/Tests.antt =====
-- Concrete dispatchers; the handler answers with the body that it is asked with, and counts its calls.
use go_rcp.Base.{
  ℕ, ◌+◌, ◌^◌, ◌<◌, ◌≡◌, refl, sym, ap, ◌∙◌, true, false, ◌==◌, ==_iff, Bool-cases, some, none, [],
  ◌∷◌, ◌⊎◌, inl, inr, arith, ticket_cancelled,
}
use go_rcp.Base.Assoc.{lookup, insert, nat_eq}
use go_rcp.Avtp.{StreamId}
use go_rcp.Acf.{Message, no_message, flag_write}
use go_rcp.Request.Kind.{is_safety, base}
use go_rcp.Request.Ticket.{
  decode_ticket, is_conditional_envelope, Ticket, new_ticket, started, finalized,
}
use go_rcp.Request.Dispatcher.{Dispatcher, submit}
use go_rcp.Request.Dispatcher.Later.{Later, IsKeyed}
use go_rcp.Request.Dispatcher.Purge.{ended}
use go_rcp.Request.Dispatcher.Admission.{Submitted, submit-Submitted}
use go_rcp.Request.Dispatcher.Pump.{pump, forget, safe_state_ready}
use go_rcp.Request.Dispatcher.Pump.WellFormed.{IsWellFormed}
use go_rcp.Request.Dispatcher.Pump.Collected.{is_immediate}
use go_rcp.Request.Dispatcher.Pump.Finishes.{pump-finalizes}
use go_rcp.Request.Dispatcher.Reachable.{
  new_dispatcher, Reach, here, further, submitted, pumped, forgot, new_dispatcher-Reach, Fate,
  Reach-Fate,
}
use go_rcp.Request.Dispatcher.Pump.Settled.{pump-Later}
use go_rcp.Request.Dispatcher.Pump.Gated.{pump-gated}

abbrev sender : StreamId
sender = 2 ∷ 0 ∷ 0x5e ∷ 0x10 ∷ 0 ∷ 1 ∷ 0 ∷ 1 ∷ []

abbrev plain_write : Message
plain_write = record no_message {
  kind = 1;
  byte_bus_id = 5;
  transaction_num = 9;
  control = flag_write;
  body = 7 ∷ [];
}

abbrev idle : Dispatcher ℕ
idle = record {
  world = 0;
  handler = λ w from m. ((record no_message { body = m.body }, none), w + 1);
  seq = [];
  access = none;
  safe_state = some (λ w from. false);
  pumps = [];
  tickets = [];
  order = [];
  next_id = 0;
}

abbrev holding : Ticket → Dispatcher ℕ
holding t = record idle { tickets = (0, t) ∷ []; order = 0 ∷ []; next_id = 1 }

holding-IsKeyed : (t : Ticket) → t.id ≡ 0 → IsKeyed (holding t)
unfolding lookup
holding-IsKeyed t zero_id id u found = elim (Bool-cases (0 == id)) [
  | inl same ↦
      let eq : some t ≡ some u = rw same at found in
      let value : t ≡ u = cc in
      sym (ap (λ (x : Ticket). x.id) value) ∙ (zero_id ∙ (==_iff 0 id).0 same)
  | inr other ↦ absurd (let bad : none ≡ some u = rw other at found in cc)
]

abbrev plain_ticket : Ticket
plain_ticket = record (new_ticket 0 sender plain_write) {
  inner_control = flag_write;
  inner_body = 7 ∷ [];
}

abbrev safety_ticket : Ticket
safety_ticket = record plain_ticket { kind = 0x82 }

abbrev done_ticket : Ticket
done_ticket = record plain_ticket {
  state = finalized;
  response = record no_message { body = 7 ∷ [] };
}

held_plain : lookup 0 (holding plain_ticket).tickets ≡ some plain_ticket
unfolding lookup
held_plain = refl

held_safety : lookup 0 (holding safety_ticket).tickets ≡ some safety_ticket
unfolding lookup
held_safety = refl

safety_kind : is_safety safety_ticket.kind ≡ true
unfolding is_safety
safety_kind = refl

never_safe :
    (w : ℕ)
    → safe_state_ready (record (holding safety_ticket) { world = w }) safety_ticket.requester
      ≡ false
unfolding safe_state_ready
never_safe w = refl

submit-Submitted_example : Submitted idle sender plain_write (submit idle sender plain_write)
submit-Submitted_example = submit-Submitted idle sender plain_write

pump-gated_example :
    (lookup 0 (pump (holding safety_ticket) 5).1.tickets ≡ some safety_ticket)
    ⊎ ((lookup 0 (pump (holding safety_ticket) 5).1.tickets
          ≡ some (record safety_ticket { state = started }))
        ⊎ (lookup 0 (pump (holding safety_ticket) 5).1.tickets
            ≡ some (ended ticket_cancelled safety_ticket)))
pump-gated_example =
    pump-gated (holding safety_ticket) 5 0 safety_ticket (holding-IsKeyed safety_ticket refl)
      held_safety safety_kind never_safe

pump-Later_example : Later (holding plain_ticket) (pump (holding plain_ticket) 5).1
pump-Later_example = pump-Later (holding plain_ticket) 5 (holding-IsKeyed plain_ticket refl)

-- A dispatcher from its construction on.
abbrev fresh : Dispatcher ℕ
fresh = new_dispatcher 0 (λ w from m. ((record no_message { body = m.body }, none), w + 1)) [] none

abbrev one_request : Dispatcher ℕ
one_request = (submit fresh sender plain_write).1

room : fresh.next_id + 1 < 2 ^ 64
unfolding new_dispatcher
room = omega arith

fresh-Reach : Reach fresh one_request
fresh-Reach = further here (submitted sender plain_write room)

new_dispatcher-Reach_example : IsWellFormed (pump one_request 5).1
new_dispatcher-Reach_example =
    new_dispatcher-Reach 0 (λ w from m. ((record no_message { body = m.body }, none), w + 1)) []
      none (pump one_request 5).1 (further fresh-Reach (pumped 5))

one_request-IsWellFormed : IsWellFormed one_request
one_request-IsWellFormed = new_dispatcher-Reach 0 _ [] none one_request fresh-Reach

held_request : lookup 0 one_request.tickets ≡ some plain_ticket
unfolding submit new_dispatcher decode_ticket is_conditional_envelope is_safety lookup insert
held_request = refl

Reach-Fate_example : Fate 0 plain_ticket (forget (pump one_request 5).1 0)
Reach-Fate_example =
    Reach-Fate one_request (forget (pump one_request 5).1 0) 0 plain_ticket one_request-IsWellFormed
      held_request (further (further here (pumped 5)) (forgot 0))

plain-is_immediate : is_immediate plain_ticket.kind ≡ true
unfolding is_safety base
plain-is_immediate = refl

pump-finalizes_example :
    (t : Ticket) × (lookup 0 (pump one_request 5).1.tickets ≡ some t) × (t.state ≡ finalized)
pump-finalizes_example =
    pump-finalizes one_request 5 0 plain_ticket one_request-IsWellFormed held_request
      plain-is_immediate
