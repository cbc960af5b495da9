-- ===== src/Request/Dispatcher/Pump/Gated.antt =====
-- A safety request of a requester that is not in the safe state is not run.
use go_rcp.Base.{
  ℕ, ◌≡◌, ◌≢◌, sym, ap, ◌∙◌, true, false, ◌==◌, Option, some, List, [], ◌∷◌, Bool-cases,
  Option-cases, ◌⊎◌, inl, inr, ticket_cancelled, All,
}
use go_rcp.Base.Assoc.{lookup, nat_eq, lookup-insert, ne→beq_false}
use go_rcp.Avtp.{StreamId}
use go_rcp.Request.Kind.{is_safety}
use go_rcp.Request.Ticket.{started, executing, finalized, Ticket, is_finalized, is_started}
use go_rcp.Request.Dispatcher.{Dispatcher, put, execute}
use go_rcp.Request.Dispatcher.Pump.{
  start_queued, count_triggers, take_ready, safe_state_ready, collect_ready, sort_ready, run_batch,
  pump,
}
use go_rcp.Request.Dispatcher.Later.{IsKeyed, put-IsKeyed, Later-IsKeyed}
use go_rcp.Request.Dispatcher.Runs.{execute-Ran}
use go_rcp.Request.Dispatcher.Purge.{ended}
use go_rcp.Request.Dispatcher.Pump.Settled.{start_queued-Later, count_triggers-Later, run_one-Later}
use go_rcp.Request.Dispatcher.Pump.Sorted.{All-sort_ready}
use go_rcp.Request.Dispatcher.Pump.Begun.{
  begun, start_queued-safe_state, start_queued_at, count_triggers-keeps,
}
use go_rcp.Request.Dispatcher.Pump.Spared.{IsSpared, execute-Spares}

-- Not the ticket of that id.
abbrev IsOther : ℕ → Ticket → Type 0
IsOther id u = u.id ≢ id

module _ {World : Type 0} where
  run_batch-IsSpared :
      (batch : List Ticket) (d : Dispatcher World) (id : ℕ) (t : Ticket)
      → All (IsOther id) batch
      → IsKeyed d
      → IsSpared t (lookup id d.tickets)
      → IsSpared t (lookup id (run_batch d batch).1.tickets)
  unfolding run_batch put
  run_batch-IsSpared [] d id t w k s = s
  run_batch-IsSpared (t0 ∷ batch) d id t w k s = elim (Option-cases (lookup t0.id d.tickets)) [
    | inl gone ↦ rw (gone, run_batch) (run_batch-IsSpared batch d id t w.1 k s)
    | inr (u, held) ↦ elim (Bool-cases (is_finalized u.state)) [
      | inl over ↦ rw (held, run_batch) (rw over (run_batch-IsSpared batch d id t w.1 k s))
      | inr open_ ↦
          let step = run_one-Later d t0.id u k held open_ in
          let other : (u.id == id) ≡ false =
            ne→beq_false u.id id (λ e. w.0 (sym (k t0.id u held) ∙ e)) in
          rw (held, run_batch)
            (rw open_ (
              run_batch-IsSpared batch _ id t w.1 (Later-IsKeyed step k)
                (run_one d u id t k s other)))
    ]
  ]
    where
      run_one :
          (d : Dispatcher World) (u : Ticket) (id : ℕ) (t : Ticket)
          → IsKeyed d
          → IsSpared t (lookup id d.tickets)
          → (u.id == id) ≡ false
          → let u1 : Ticket = record u { state = executing } in
            IsSpared t (
              lookup id
                (put
                  (execute (put d u1) u1).1.1
                  (record (execute (put d u1) u1).1.0 { state = finalized })).tickets)
      run_one d u id t k s other =
          let u1 : Ticket = record u { state = executing } in
          let before : IsSpared t (lookup id (put d u1).tickets) = rw (lookup-insert, other) s in
          let ran = execute-Ran (put d u1) u1 (put-IsKeyed d u1 k) in
          rw (lookup-insert, ran.same.id, other)
            (execute-Spares (put d u1) u1 id t (put-IsKeyed d u1 k) before).spared

  collect_ready-IsOther :
      (ids : List ℕ) (d : Dispatcher World) (now : ℕ) (available : List (ℕ × ℕ)) (id : ℕ)
      (t : Ticket)
      → IsKeyed d
      → lookup id d.tickets ≡ some t
      → is_safety t.kind ≡ true
      → safe_state_ready d t.requester ≡ false
      → All (IsOther id) (collect_ready d now available ids)
  unfolding collect_ready take_ready
  collect_ready-IsOther [] d now available id t k held safe closed = tt
  collect_ready-IsOther (i ∷ ids) d now available id t k held safe closed =
      elim (Option-cases (lookup i d.tickets)) [
        | inl gone ↦
            rw (gone, collect_ready)
              (collect_ready-IsOther ids d now available id t k held safe closed)
        | inr (u, there) ↦
            let rest =
              collect_ready-IsOther ids d now (take_ready d now available u).1 id t k held safe
                closed in
            elim (Bool-cases (take_ready d now available u).0) [
              | inr waits ↦ rw (there, collect_ready) (rw waits rest)
              | inl ready ↦
                  rw (there, collect_ready)
                    (rw ready (
                      λ e.
                          let here : some u ≡ some t =
                            sym there
                            ∙ (ap (λ j. lookup j d.tickets) (sym (k i u there) ∙ e) ∙ held) in
                          let same : u ≡ t = cc in
                          gated d now available t safe closed (rw same at ready),
                      rest,
                    ))
            ]
      ]
    where
      gated :
          (d : Dispatcher World) (now : ℕ) (available : List (ℕ × ℕ)) (t : Ticket)
          → is_safety t.kind ≡ true
          → safe_state_ready d t.requester ≡ false
          → (take_ready d now available t).0 ≡ true
          → ⊥
      gated d now available t safe closed ready = elim (Bool-cases (is_started t.state)) [
        | inl begun ↦ absurd (let bad : false ≡ true = rw (begun, safe, closed) at ready in cc)
        | inr not_begun ↦ absurd (let bad : false ≡ true = rw not_begun at ready in cc)
      ]

  -- In a dispatcher whose tickets stand under their own ids, a pump does not run a safety request while the
  -- check of the safe state is absent or refuses its requester, whatever the handlers and pumps do: the
  -- ticket is as it was, started, or cancelled by another request.
  pub pump-gated :
      (d : Dispatcher World) (now id : ℕ) (t : Ticket)
      → IsKeyed d
      → lookup id d.tickets ≡ some t
      → is_safety t.kind ≡ true
      → ((w : World) → safe_state_ready (record d { world = w }) t.requester ≡ false)
      → (lookup id (pump d now).1.tickets ≡ some t)
        ⊎ ((lookup id (pump d now).1.tickets ≡ some (record t { state = started }))
            ⊎ (lookup id (pump d now).1.tickets ≡ some (ended ticket_cancelled t)))
  unfolding pump safe_state_ready
  pump-gated d now id t k held safe closed =
      let d1 : Dispatcher World = start_queued d d.order in
      let d2 : Dispatcher World = (count_triggers d1 [] d1.order).1 in
      let keeps = count_triggers-keeps d1.order d1 [] in
      let check : d2.safe_state ≡ d.safe_state = keeps.1 ∙ start_queued-safe_state d.order d in
      let shut : safe_state_ready d2 t.requester ≡ false =
        same_check d d2 t.requester check (closed d2.world) in
      let k1 : IsKeyed d1 = Later-IsKeyed (start_queued-Later d d.order k) k in
      let k2 : IsKeyed d2 = Later-IsKeyed (count_triggers-Later d1 [] d1.order) k1 in
      elim (start_queued_at d.order d id t k held) [
        | inl left ↦
            let here : lookup id d2.tickets ≡ some t = ap (lookup id) keeps.0 ∙ left in
            unbegun t (batch d2 now _ id t k2 here safe shut)
        | inr first ↦
            let here : lookup id d2.tickets ≡ some (begun t) = ap (lookup id) keeps.0 ∙ first in
            was_begun t (batch d2 now _ id (begun t) k2 here safe shut)
      ]
    where
      same_check :
          (d d2 : Dispatcher World) (requester : StreamId)
          → d2.safe_state ≡ d.safe_state
          → safe_state_ready (record d { world = d2.world }) requester ≡ false
          → safe_state_ready d2 requester ≡ false
      same_check d d2 requester check shut = rw (check, safe_state_ready) shut

      batch :
          (d2 : Dispatcher World) (now : ℕ) (available : List (ℕ × ℕ)) (id : ℕ) (t : Ticket)
          → IsKeyed d2
          → lookup id d2.tickets ≡ some t
          → is_safety t.kind ≡ true
          → safe_state_ready d2 t.requester ≡ false
          → IsSpared t (
              lookup id
                (run_batch d2 (sort_ready (collect_ready d2 now available d2.order))).1.tickets)
      batch d2 now available id t k2 here safe shut =
          run_batch-IsSpared _ d2 id t
            (All-sort_ready (IsOther id) _
              (collect_ready-IsOther d2.order d2 now available id t k2 here safe shut))
            k2 (inl here)

      unbegun :
          (t : Ticket) {o : Option Ticket}
          → IsSpared t o
          → (o ≡ some t) ⊎ ((o ≡ some (begun t)) ⊎ (o ≡ some (ended ticket_cancelled t)))
      unbegun t (inl h) = inl h
      unbegun t (inr h) = inr (inr h)

      was_begun :
          (t : Ticket) {o : Option Ticket}
          → IsSpared (begun t) o
          → (o ≡ some t) ⊎ ((o ≡ some (begun t)) ⊎ (o ≡ some (ended ticket_cancelled t)))
      was_begun t (inl h) = inr (inl h)
      was_begun t (inr h) = inr (inr h)
