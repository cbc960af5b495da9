-- ===== src/Request/Dispatcher/Pump/Begun.antt =====
-- What starting the tickets and asking the trigger pumps leave as it was.
use go_rcp.Base.{
  ℕ, ◌≡◌, refl, sym, ap, ◌∙◌, not, ◌||◌, ◌==◌, ◌!=◌, ==_iff, Option, some, List, [], ◌∷◌,
  Bool-cases, Option-cases, ◌⊎◌, inl, inr,
}
use go_rcp.Base.Assoc.{lookup, insert, nat_eq, lookup-insert}
use go_rcp.Request.Kind.{base, kind_triggered}
use go_rcp.Request.Ticket.{started, Ticket, is_queued, is_started}
use go_rcp.Request.Dispatcher.{Dispatcher, put}
use go_rcp.Request.Dispatcher.Pump.{start_queued, call_pump, count_triggers, contains}
use go_rcp.Request.Dispatcher.Later.{IsKeyed, put-IsKeyed}

abbrev pub begun : Ticket → Ticket
begun t = record t { state = started }

module _ {World : Type 0} where
  -- Starting a ticket leaves the rest of the dispatcher.
  pub start_queued-safe_state :
      (ids : List ℕ) (d : Dispatcher World) → (start_queued d ids).safe_state ≡ d.safe_state
  unfolding start_queued put
  start_queued-safe_state [] d = refl
  start_queued-safe_state (i ∷ ids) d = elim (Option-cases (lookup i d.tickets)) [
    | inl gone ↦ rw (gone, start_queued) (start_queued-safe_state ids d)
    | inr (t, held) ↦ elim (Bool-cases (is_queued t.state)) [
      | inl waits ↦
          rw (held, start_queued) (rw waits (start_queued-safe_state ids (put d (begun t))))
      | inr other ↦ rw (held, start_queued) (rw other (start_queued-safe_state ids d))
    ]
  ]

  pub start_queued_at :
      (ids : List ℕ) (d : Dispatcher World) (id : ℕ) (t : Ticket)
      → IsKeyed d
      → lookup id d.tickets ≡ some t
      → (lookup id (start_queued d ids).tickets ≡ some t)
        ⊎ (lookup id (start_queued d ids).tickets ≡ some (begun t))
  unfolding start_queued put
  start_queued_at [] d id t k held = inl held
  start_queued_at (i ∷ ids) d id t k held = elim (Option-cases (lookup i d.tickets)) [
    | inl gone ↦ rw (gone, start_queued) (start_queued_at ids d id t k held)
    | inr (u, there) ↦ elim (Bool-cases (is_queued u.state)) [
      | inr other ↦ rw (there, start_queued) (rw other (start_queued_at ids d id t k held))
      | inl waits ↦
          let next : Dispatcher World = put d (begun u) in
          let keyed : IsKeyed next = put-IsKeyed d (begun u) k in
          rw (there, start_queued)
            (rw waits (elim (Bool-cases (u.id == id)) [
              | inr other ↦ start_queued_at ids next id t keyed (rw (lookup-insert, other) held)
              | inl same ↦
                  let here : some u ≡ some t =
                    sym there
                    ∙ (ap (λ j. lookup j d.tickets) (sym (k i u there) ∙ (==_iff u.id id).0 same)
                        ∙ held) in
                  let value : u ≡ t = cc in
                  let put_there : lookup id next.tickets ≡ some (begun t) =
                    rw (lookup-insert, same) (ap (λ x. some (begun x)) value) in
                  merge t (start_queued_at ids next id (begun t) keyed put_there)
            ]))
    ]
  ]
    where
      merge :
          (t : Ticket) {o : Option Ticket}
          → (o ≡ some (begun t)) ⊎ (o ≡ some (begun (begun t)))
          → (o ≡ some t) ⊎ (o ≡ some (begun t))
      merge t (inl h) = inr h
      merge t (inr h) = inr h

  pub count_triggers-keeps :
      (ids : List ℕ) (d : Dispatcher World) (available : List (ℕ × ℕ))
      → ((count_triggers d available ids).1.tickets ≡ d.tickets)
        × ((count_triggers d available ids).1.safe_state ≡ d.safe_state)
  unfolding count_triggers call_pump
  count_triggers-keeps [] d available = (refl, refl)
  count_triggers-keeps (i ∷ ids) d available = elim (Option-cases (lookup i d.tickets)) [
    | inl gone ↦ rw (gone, count_triggers) (count_triggers-keeps ids d available)
    | inr (t, held) ↦
        elim (Bool-cases (
          not (is_started t.state)
          || base t.kind != kind_triggered
          || contains (lookup t.trigger_source available))) [
            | inl skip ↦ rw (held, count_triggers) (rw skip (count_triggers-keeps ids d available))
            | inr ask ↦
                let rest =
                  count_triggers-keeps ids (call_pump d t.trigger_source).1
                    (insert t.trigger_source (call_pump d t.trigger_source).0 available) in
                let called = call_pump-keeps d t.trigger_source in
                rw (held, count_triggers) (rw ask (rest.0 ∙ called.0, rest.1 ∙ called.1))
          ]
  ]
    where
      call_pump-keeps :
          (d : Dispatcher World) (source : ℕ)
          → ((call_pump d source).1.tickets ≡ d.tickets)
            × ((call_pump d source).1.safe_state ≡ d.safe_state)
      call_pump-keeps d source = elim (Option-cases (lookup source d.pumps)) [
        | inl gone ↦ rw (gone, call_pump) (refl, refl)
        | inr (p, held) ↦ rw (held, call_pump) (refl, refl)
      ]
