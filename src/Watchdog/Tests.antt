-- ===== src/Watchdog/Tests.antt =====
-- Two streams that share a dispatcher with one queued write; one of them has never been heard of.
use go_rcp.Base.{ℕ, ◌+◌, ◌^◌, ◌<◌, ◌≡◌, refl, true, false, some, none, [], ◌∷◌, arith}
use go_rcp.Base.Assoc.{lookup, insert, nat_eq}
use go_rcp.Avtp.{StreamId}
use go_rcp.Acf.{Message, no_message, flag_write}
use go_rcp.E2e.Supervisor.{Supervisor, new_supervisor, in_safe_state}
use go_rcp.Request.Kind.{is_safety}
use go_rcp.Request.Ticket.{decode_ticket, is_conditional_envelope, Ticket, new_ticket}
use go_rcp.Request.Dispatcher.{Dispatcher, submit}
use go_rcp.Request.Dispatcher.Pump.WellFormed.{IsWellFormed}
use go_rcp.Request.Dispatcher.Reachable.{
  new_dispatcher, here, further, submitted, new_dispatcher-Reach,
}
use go_rcp.Watchdog.{Keeper, tick}
use go_rcp.Watchdog.Purges.{AllWellFormed, after_purge, trips, tick_lem}

abbrev sender : StreamId
sender = 2 ∷ 0 ∷ 0x5e ∷ 0x10 ∷ 0 ∷ 1 ∷ 0 ∷ 1 ∷ []

abbrev plain_write : Message
plain_write = record no_message {
  kind = 1;
  byte_bus_id = 5;
  transaction_num = 9;
  control = flag_write;
  body = 7 ∷ [];
}

abbrev plain_ticket : Ticket
plain_ticket = record (new_ticket 0 sender plain_write) {
  inner_control = flag_write;
  inner_body = 7 ∷ [];
}

abbrev fresh : Dispatcher ℕ
fresh = new_dispatcher 0 (λ w from m. ((record no_message { body = m.body }, none), w + 1)) [] none

abbrev one_request : Dispatcher ℕ
one_request = (submit fresh sender plain_write).1

room : fresh.next_id + 1 < 2 ^ 64
unfolding new_dispatcher
room = omega arith

one_request-IsWellFormed : IsWellFormed one_request
one_request-IsWellFormed =
    new_dispatcher-Reach 0 _ [] none one_request (further here (submitted sender plain_write room))

held_request : lookup 0 one_request.tickets ≡ some plain_ticket
unfolding submit new_dispatcher decode_ticket is_conditional_envelope is_safety lookup insert
held_request = refl

abbrev keeper : Keeper
keeper = record { watch = (sender, 3 ∷ 4 ∷ []) ∷ [] }

abbrev supervisor : Supervisor
supervisor =
    new_supervisor (record {
      timeout = 1000;
      require_monotonic_sequence = false;
      sequence_overflow_wraps = false;
    })

-- The sender has not been heard of, which counts as the safe state.
tripped : trips 4 supervisor (λ s. 5) keeper.watch ≡ true
unfolding in_safe_state lookup
tripped = refl

tick_lem_example :
    let out = (tick keeper supervisor (λ s. 5) (λ p. one_request)).1 in
    AllWellFormed out
    × (lookup 0 (out 4).tickets
        ≡ some (after_purge (trips 4 supervisor (λ s. 5) keeper.watch) plain_ticket))
tick_lem_example =
    tick_lem 4 0 keeper supervisor (λ s. 5) (λ p. one_request) plain_ticket
      (λ p. one_request-IsWellFormed) held_request
