-- ===== src/Request/Dispatcher/Admission.antt =====
-- What `Submit` admits, and what it leaves.
use go_rcp.Base.{
  ℕ, ◌+◌, ◌%◌, ◌^◌, ◌≡◌, false, not, ◌&&◌, [], ◌∷◌, ◌++◌, Bool-cases, Option-cases, Result-cases,
  inl, inr, Error, Result, ok, err,
}
use go_rcp.Base.Assoc.{insert, nat_eq}
use go_rcp.Avtp.{StreamId}
use go_rcp.Acf.{Message}
use go_rcp.Request.Kind.{is_safety}
use go_rcp.Request.Ticket.{Ticket, decode_ticket}
use go_rcp.Request.Ticket.New.{IsNew, decode_ticket-IsNew}
use go_rcp.Request.Dispatcher.{Dispatcher, submit, denied, has_check}

module _ {World : Type 0} (d : Dispatcher World) (requester : StreamId) (req : Message) where
  -- What a submission makes of the dispatcher.
  pub data Submitted : Result ℕ × Dispatcher World → Type 0 where
    refused : (e : Error) → Submitted (err e, d)
    admitted :
        (t : Ticket)
        → IsNew d.next_id requester req t
        → (is_safety t.kind && not (has_check d.safe_state)) ≡ false
        → Submitted (
          ok t.id,
          record d {
            next_id = (d.next_id + 1) % 2 ^ 64;
            tickets = insert t.id t d.tickets;
            order = d.order ++ (t.id ∷ []);
          },
        )

  -- A submission either is refused and changes nothing, or admits one queued ticket, of that requester and
  -- that request, under the next id and last in the order; a safety request is only admitted where a check
  -- of the safe state is configured.
  pub submit-Submitted : Submitted (submit d requester req)
  unfolding submit
  submit-Submitted = elim (Option-cases (denied d requester)) [
    | inr (e, denial) ↦ rw (denial, submit) (refused e)
    | inl granted ↦ elim (Result-cases (decode_ticket d.next_id requester req)) [
      | inr (e, bad) ↦ rw (granted, bad, submit) (refused e)
      | inl (t, good) ↦ elim (Bool-cases (is_safety t.kind && not (has_check d.safe_state))) [
        | inl unsafe ↦ rw (granted, good, submit) (rw unsafe (refused _))
        | inr fine ↦
            rw (granted, good, submit)
              (rw fine (admitted t (decode_ticket-IsNew d.next_id requester req t good) fine))
      ]
    ]
  ]
