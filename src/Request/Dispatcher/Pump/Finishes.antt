-- ===== src/Request/Dispatcher/Pump/Finishes.antt =====
-- What one pump is sure to finish.
use go_rcp.Base.{
  ℕ, ◌≡◌, refl, sym, ap, ◌∙◌, true, false, ◌==◌, ==_iff, none, some, List, [], ◌∷◌, Bool-cases,
  Option-cases, ◌⊎◌, inl, inr,
}
use go_rcp.Base.Assoc.{lookup, nat_eq, lookup-insert}
use go_rcp.Request.Ticket.{State, queued, started, executing, finalized, Ticket, is_finalized}
use go_rcp.Request.Dispatcher.{Dispatcher, put, execute}
use go_rcp.Request.Dispatcher.Later.{
  IsKeyed, Later, Later-IsKeyed, Later-forth, Advances, put-IsKeyed,
}
use go_rcp.Request.Dispatcher.Runs.{execute-Ran}
use go_rcp.Request.Dispatcher.Purge.{contains_id}
use go_rcp.Request.Dispatcher.Pump.{
  start_queued, count_triggers, collect_ready, sort_ready, run_batch, pump,
}
use go_rcp.Request.Dispatcher.Pump.Settled.{start_queued-Later, run_one-Later, count_triggers-Later}
use go_rcp.Request.Dispatcher.Pump.Begun.{begun, count_triggers-keeps}
use go_rcp.Request.Dispatcher.Pump.Quiet.{is_executing}
use go_rcp.Request.Dispatcher.Pump.WellFormed.{IsWellFormed}
use go_rcp.Request.Dispatcher.Pump.Collected.{
  has, has-sort_ready, start_queued-begun, is_immediate, collect_ready-has,
}

finalized_state : (s : State) → is_finalized s ≡ true → s ≡ finalized
finalized_state finalized e = refl
finalized_state queued e = cc
finalized_state started e = cc
finalized_state executing e = cc

module _ {World : Type 0} where
  -- The ticket of an id in the batch is finalized when the batch has run.
  run_batch_settles :
      (batch : List Ticket) (d : Dispatcher World) (id : ℕ) (t : Ticket)
      → IsKeyed d
      → lookup id d.tickets ≡ some t
      → (has id batch ≡ true) ⊎ (t.state ≡ finalized)
      → (t' : Ticket) × (lookup id (run_batch d batch).1.tickets ≡ some t') × (t'.state ≡ finalized)
  unfolding run_batch put
  run_batch_settles [] d id t k held (inl h) = cc
  run_batch_settles [] d id t k held (inr over) = (t, held, over)
  run_batch_settles (t0 ∷ batch) d id t k held h = elim (Option-cases (lookup t0.id d.tickets)) [
    | inl gone ↦
        rw (gone, run_batch)
          (run_batch_settles batch d id t k held (other_id d id t t0 batch held gone h))
    | inr (u, there) ↦ elim (Bool-cases (is_finalized u.state)) [
      | inl over ↦
          rw (there, run_batch)
            (rw over (
              run_batch_settles batch d id t k held
                (settled_id d id t t0 u batch held there over h)))
      | inr open_ ↦
          let step = run_one-Later d t0.id u k there open_ in
          let u1 : Ticket = record u { state = executing } in
          let u3 : Ticket = record (execute (put d u1) u1).1.0 { state = finalized } in
          let ran = execute-Ran (put d u1) u1 (put-IsKeyed d u1 k) in
          let u_id : u3.id ≡ t0.id = ran.same.id ∙ k t0.id u there in
          let k3 = Later-IsKeyed step k in
          rw (there, run_batch)
            (rw open_ (elim (Bool-cases (t0.id == id)) [
              | inl same ↦
                  run_batch_settles batch (put (execute (put d u1) u1).1.1 u3) id u3 k3
                    (rw (lookup-insert, u_id, same) refl) (inr refl)
              | inr apart ↦
                  let (v, after, adv) = Later-forth id t step held in
                  run_batch_settles batch (put (execute (put d u1) u1).1.1 u3) id v k3 after
                    (apart_id id t t0 v batch apart adv h)
            ]))
    ]
  ]
    where
      other_id :
          (d : Dispatcher World) (id : ℕ) (t t0 : Ticket) (batch : List Ticket)
          → lookup id d.tickets ≡ some t
          → lookup t0.id d.tickets ≡ none
          → (has id (t0 ∷ batch) ≡ true) ⊎ (t.state ≡ finalized)
          → (has id batch ≡ true) ⊎ (t.state ≡ finalized)
      other_id d id t t0 batch held gone (inr over) = inr over
      other_id d id t t0 batch held gone (inl h) = elim (Bool-cases (t0.id == id)) [
        | inl same ↦
            let eq : lookup t0.id d.tickets ≡ lookup id d.tickets =
              ap (λ j. lookup j d.tickets) ((==_iff t0.id id).0 same) in
            absurd (let bad : none ≡ some t = sym gone ∙ (eq ∙ held) in cc)
        | inr apart ↦ inl (rw apart at h)
      ]

      settled_id :
          (d : Dispatcher World) (id : ℕ) (t t0 u : Ticket) (batch : List Ticket)
          → lookup id d.tickets ≡ some t
          → lookup t0.id d.tickets ≡ some u
          → is_finalized u.state ≡ true
          → (has id (t0 ∷ batch) ≡ true) ⊎ (t.state ≡ finalized)
          → (has id batch ≡ true) ⊎ (t.state ≡ finalized)
      settled_id d id t t0 u batch held there over (inr done) = inr done
      settled_id d id t t0 u batch held there over (inl h) = elim (Bool-cases (t0.id == id)) [
        | inl same ↦
            let eq : lookup t0.id d.tickets ≡ lookup id d.tickets =
              ap (λ j. lookup j d.tickets) ((==_iff t0.id id).0 same) in
            let found : some u ≡ some t = sym there ∙ (eq ∙ held) in
            let value : u ≡ t = cc in
            inr (
              finalized_state t.state
                (ap (λ (x : Ticket). is_finalized x.state) (sym value) ∙ over))
        | inr apart ↦ inl (rw apart at h)
      ]

      apart_id :
          (id : ℕ) (t t0 v : Ticket) (batch : List Ticket)
          → (t0.id == id) ≡ false
          → Advances t v
          → (has id (t0 ∷ batch) ≡ true) ⊎ (t.state ≡ finalized)
          → (has id batch ≡ true) ⊎ (v.state ≡ finalized)
      apart_id id t t0 v batch apart adv (inl h) = inl (rw apart at h)
      apart_id id t t0 v batch apart adv (inr over) =
          inr (ap (λ (x : Ticket). x.state) (adv.settled over) ∙ over)

  -- In a well-formed dispatcher, one pump finalizes every plain request, every compound, compound-wait and
  -- chained request and every cancellation that is pending, whatever else is pending: all requests but
  -- those that wait for a trigger, for a time or for the safe state.
  pub pump-finalizes :
      (d : Dispatcher World) (now id : ℕ) (t : Ticket)
      → IsWellFormed d
      → lookup id d.tickets ≡ some t
      → is_immediate t.kind ≡ true
      → (t' : Ticket) × (lookup id (pump d now).1.tickets ≡ some t') × (t'.state ≡ finalized)
  unfolding pump
  pump-finalizes d now id t w held free =
      let d1 : Dispatcher World = start_queued d d.order in
      let available = (count_triggers d1 [] d1.order).0 in
      let d2 : Dispatcher World = (count_triggers d1 [] d1.order).1 in
      let l1 : Later d d1 = start_queued-Later d d.order w.keyed in
      let l2 : Later d1 d2 = count_triggers-Later d1 [] d1.order in
      let k2 : IsKeyed d2 = Later-IsKeyed l2 (Later-IsKeyed l1 w.keyed) in
      let in_order : contains_id id d.order ≡ true = w.listed id t held in
      let in_order2 : contains_id id d2.order ≡ true =
        ap (contains_id id) (l2.order ∙ l1.order) ∙ in_order in
      let batch = sort_ready (collect_ready d2 now available d2.order) in
      elim (state_cases t.state (w.quiet id t held)) [
        | inl over ↦
            let (t1, held1, adv1) = Later-forth id t l1 held in
            let (t2, held2, adv2) = Later-forth id t1 l2 held1 in
            let done1 = ap (λ (x : Ticket). x.state) (adv1.settled over) ∙ over in
            run_batch_settles batch d2 id t2 k2 held2
              (inr (ap (λ (x : Ticket). x.state) (adv2.settled done1) ∙ done1))
        | inr waits ↦
            let held1 = start_queued-begun d.order d id t in_order w.keyed held waits in
            let held2 : lookup id d2.tickets ≡ some (begun t) =
              ap (lookup id) (count_triggers-keeps d1.order d1 []).0 ∙ held1 in
            run_batch_settles batch d2 id (begun t) k2 held2 (
              inl (
                has-sort_ready id (collect_ready d2 now available d2.order)
                ∙ collect_ready-has d2.order d2 now available id (begun t) in_order2 k2 held2 refl
                    free))
      ]
    where
      state_cases :
          (s : State) → is_executing s ≡ false → (s ≡ finalized) ⊎ ((s ≡ queued) ⊎ (s ≡ started))
      state_cases queued e = inr (inl refl)
      state_cases started e = inr (inr refl)
      state_cases executing e = cc
      state_cases finalized e = inl refl
