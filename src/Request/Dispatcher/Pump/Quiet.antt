-- ===== src/Request/Dispatcher/Pump/Quiet.antt =====
-- Between two operations, no ticket is left executing.
use go_rcp.Base.{
  ℕ, ◌≡◌, refl, sym, ap, ◌∙◌, Bool, true, false, ◌==◌, Option, some, List, [], ◌∷◌, Bool-cases,
  Option-cases, inl, inr, if◌then◌else◌, ticket_cancelled, purged_by_watchdog,
}
use go_rcp.Base.Assoc.{lookup, nat_eq, lookup-insert}
use go_rcp.Request.Ticket.{State, queued, started, executing, finalized, Ticket, is_finalized}
use go_rcp.Request.Dispatcher.{Dispatcher, put, execute, purge_non_safety}
use go_rcp.Request.Dispatcher.Later.{
  IsKeyed, Later-IsKeyed, Later-back, put-IsKeyed, finalize_where-Later,
}
use go_rcp.Request.Dispatcher.Runs.{execute-Ran}
use go_rcp.Request.Dispatcher.Purge.{ended, purge_non_safety_lem}
use go_rcp.Request.Dispatcher.Pump.{start_queued, count_triggers, run_batch, pump}
use go_rcp.Request.Dispatcher.Pump.Settled.{start_queued-Later, count_triggers-Later, run_one-Later}
use go_rcp.Request.Dispatcher.Pump.Begun.{begun, start_queued_at, count_triggers-keeps}
use go_rcp.Request.Dispatcher.Pump.Spared.{IsSpared, execute-Spares}

abbrev pub is_executing : State → Bool
is_executing executing = true
is_executing queued = false
is_executing started = false
is_executing finalized = false

found_in :
    {o : Option Ticket} (t u : Ticket)
    → o ≡ some t
    → o ≡ some u
    → is_executing u.state ≡ false
    → is_executing t.state ≡ false
found_in t u p q calm = let same : u ≡ t = cc in rw same at calm

spared_calm :
    {o : Option Ticket} (t u : Ticket)
    → o ≡ some t
    → IsSpared u o
    → is_executing u.state ≡ false
    → is_executing t.state ≡ false
spared_calm t u found (inl q) calm = found_in t u found q calm
spared_calm t u found (inr q) calm = found_in t (ended ticket_cancelled u) found q refl

chosen_calm :
    {o : Option Ticket} (t t' : Ticket) (b : Bool)
    → o ≡ some t'
    → o ≡ some (if b then ended purged_by_watchdog t else t)
    → is_executing t.state ≡ false
    → is_executing t'.state ≡ false
chosen_calm t t' true found lem calm = found_in t' (ended purged_by_watchdog t) found lem refl
chosen_calm t t' false found lem calm = found_in t' t found lem calm

module _ {World : Type 0} where
  abbrev pub IsQuiet : Dispatcher World → Type 0
  IsQuiet d = (id : ℕ) (t : Ticket) → lookup id d.tickets ≡ some t → is_executing t.state ≡ false

  start_queued-IsQuiet :
      (d : Dispatcher World) (ids : List ℕ) → IsKeyed d → IsQuiet d → IsQuiet (start_queued d ids)
  start_queued-IsQuiet d ids k q id t' found =
      let (t, held, adv) = Later-back id t' (start_queued-Later d ids k) found in
      elim (start_queued_at ids d id t k held) [
        | inl left ↦ found_in t' t found left (q id t held)
        | inr first ↦ found_in t' (begun t) found first refl
      ]

  run_one-IsQuiet :
      (d : Dispatcher World) (u : Ticket)
      → IsKeyed d
      → IsQuiet d
      → let u1 : Ticket = record u { state = executing } in
        IsQuiet (
          put
            (execute (put d u1) u1).1.1
            (record (execute (put d u1) u1).1.0 { state = finalized }))
  unfolding put
  run_one-IsQuiet d u k q id t' found =
      let u1 : Ticket = record u { state = executing } in
      let k1 : IsKeyed (put d u1) = put-IsKeyed d u1 k in
      let ran = execute-Ran (put d u1) u1 k1 in
      let u3 : Ticket = record (execute (put d u1) u1).1.0 { state = finalized } in
      elim (Bool-cases (u3.id == id)) [
        | inl same ↦
            let eq : some u3 ≡ some t' = rw (lookup-insert, same) at found in
            let value : u3 ≡ t' = cc in ap (λ (x : Ticket). is_executing x.state) (sym value)
        | inr other ↦
            let there : lookup id (execute (put d u1) u1).1.1.tickets ≡ some t' =
              rw (lookup-insert, other) at found in
            let (t, held, adv) = Later-back id t' ran.later there in
            let apart : (u.id == id) ≡ false = ap (λ (i : ℕ). i == id) (sym ran.same.id) ∙ other in
            let before : lookup id d.tickets ≡ some t = rw (lookup-insert, apart) at held in
            spared_calm t' t there (execute-Spares (put d u1) u1 id t k1 (inl held)).spared
              (q id t before)
      ]

  run_batch-IsQuiet :
      (batch : List Ticket) (d : Dispatcher World)
      → IsKeyed d
      → IsQuiet d
      → IsQuiet (run_batch d batch).1
  unfolding run_batch
  run_batch-IsQuiet [] d k q = q
  run_batch-IsQuiet (t0 ∷ batch) d k q = elim (Option-cases (lookup t0.id d.tickets)) [
    | inl gone ↦ rw (gone, run_batch) (run_batch-IsQuiet batch d k q)
    | inr (u, held) ↦ elim (Bool-cases (is_finalized u.state)) [
      | inl over ↦ rw (held, run_batch) (rw over (run_batch-IsQuiet batch d k q))
      | inr open_ ↦
          let step = run_one-Later d t0.id u k held open_ in
          rw (held, run_batch)
            (rw open_ (run_batch-IsQuiet batch _ (Later-IsKeyed step k) (run_one-IsQuiet d u k q)))
    ]
  ]

  pub pump-IsQuiet :
      (d : Dispatcher World) (now : ℕ) → IsKeyed d → IsQuiet d → IsQuiet (pump d now).1
  unfolding pump
  pump-IsQuiet d now k q =
      let d1 : Dispatcher World = start_queued d d.order in
      let d2 : Dispatcher World = (count_triggers d1 [] d1.order).1 in
      let k1 : IsKeyed d1 = Later-IsKeyed (start_queued-Later d d.order k) k in
      let k2 : IsKeyed d2 = Later-IsKeyed (count_triggers-Later d1 [] d1.order) k1 in
      let q1 : IsQuiet d1 = start_queued-IsQuiet d d.order k q in
      let q2 : IsQuiet d2 = λ id t found.
        q1 id t (ap (lookup id) (sym (count_triggers-keeps d1.order d1 []).0) ∙ found) in
      run_batch-IsQuiet _ d2 k2 q2

  pub purge-IsQuiet :
      (d : Dispatcher World) → IsKeyed d → IsQuiet d → IsQuiet (purge_non_safety d).1
  unfolding purge_non_safety
  purge-IsQuiet d k q id t' found =
      let (t, held, adv) = Later-back id t' (finalize_where-Later d _ _ d.order k) found in
      chosen_calm t t' _ found (purge_non_safety_lem d id t k held) (q id t held)
