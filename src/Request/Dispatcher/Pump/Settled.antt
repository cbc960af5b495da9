-- ===== src/Request/Dispatcher/Pump/Settled.antt =====
-- A pump takes tickets forward, and leaves the finalized ones as they are.
use go_rcp.Base.{
  ℕ, ◌≤◌, ◌≡◌, refl, ap, ◌∙◌, true, false, not, ◌||◌, ◌==◌, ◌!=◌, ==_iff, none, some, List, [], ◌∷◌,
  arith, Bool-cases, Option-cases, inl, inr,
}
use go_rcp.Base.Assoc.{lookup, nat_eq, lookup-insert}
use go_rcp.Request.Kind.{base, kind_triggered}
use go_rcp.Request.Ticket.{
  State, queued, started, executing, finalized, Ticket, is_finalized, is_queued, is_started,
}
use go_rcp.Request.Dispatcher.{Dispatcher, put, execute}
use go_rcp.Request.Dispatcher.Pump.{
  start_queued, call_pump, count_triggers, contains, run_batch, pump, response, state_of,
}
use go_rcp.Request.Dispatcher.Later.{
  SameRequest, Advances, Later, Later-refl, Later-same, Later-trans, IsKeyed, Later-IsKeyed,
  Later-forth, put-Later, unsettled-Advances, rank,
}
use go_rcp.Request.Dispatcher.Runs.{Ran, execute-Ran}

rank-unsettled : (s : State) → is_finalized s ≡ false → rank s ≤ 2
rank-unsettled queued e = omega arith
rank-unsettled started e = omega arith
rank-unsettled executing e = omega arith
rank-unsettled finalized e = cc

module _ {World : Type 0} where
  -- A write on a later dispatcher, of what the ticket was at first.
  put_over-Later :
      (d d' : Dispatcher World) (t t' : Ticket)
      → Later d d'
      → lookup t'.id d.tickets ≡ some t
      → Advances t t'
      → Later d (put d' t')
  unfolding put
  put_over-Later d d' t t' l held adv = record {
    order = l.order;
    next_id = l.next_id;
    at_id = λ id. elim (Bool-cases (t'.id == id)) [
      | inl same ↦
          let eq : t'.id ≡ id = (==_iff t'.id id).0 same in
          rw (lookup-insert, same) (rw (← eq, held) adv)
      | inr other ↦ rw (lookup-insert, other) (l.at_id id)
    ];
  }

  pub start_queued-Later :
      (d : Dispatcher World) (ids : List ℕ) → IsKeyed d → Later d (start_queued d ids)
  unfolding start_queued
  start_queued-Later d [] k = Later-refl d
  start_queued-Later d (id ∷ ids) k = elim (Option-cases (lookup id d.tickets)) [
    | inl gone ↦ rw (gone, start_queued) (start_queued-Later d ids k)
    | inr (t, held) ↦ elim (Bool-cases (is_queued t.state)) [
      | inr other ↦ rw (held, start_queued) (rw other (start_queued-Later d ids k))
      | inl waits ↦
          let begun : Ticket = record t { state = started } in
          let step : Later d (put d begun) =
            put-Later d t begun (simp (k id t held) held) (begun-Advances t waits) in
          rw (held, start_queued)
            (rw waits
              (Later-trans step (start_queued-Later (put d begun) ids (Later-IsKeyed step k))))
    ]
  ]
    where
      begun-Advances :
          (t : Ticket) → is_queued t.state ≡ true → Advances t (record t { state = started })
      begun-Advances t e =
          let (open_, low) = state_of_queued t.state e in
          unsettled-Advances (record { id = refl; requester = refl; original = refl; kind = refl })
            open_ low
        where
          state_of_queued :
              (s : State) → is_queued s ≡ true → (is_finalized s ≡ false) × (rank s ≤ 1)
          state_of_queued queued e = (refl, omega arith)
          state_of_queued started e = cc
          state_of_queued executing e = cc
          state_of_queued finalized e = cc

  call_pump-Later : (d : Dispatcher World) (source : ℕ) → Later d (call_pump d source).1
  unfolding call_pump
  call_pump-Later d source = elim (Option-cases (lookup source d.pumps)) [
    | inl gone ↦ rw (gone, call_pump) (Later-refl d)
    | inr (p, held) ↦ rw (held, call_pump) (Later-same d _ refl refl refl)
  ]

  pub count_triggers-Later :
      (d : Dispatcher World) (available : List (ℕ × ℕ)) (ids : List ℕ)
      → Later d (count_triggers d available ids).1
  unfolding count_triggers
  count_triggers-Later d available [] = Later-refl d
  count_triggers-Later d available (id ∷ ids) = elim (Option-cases (lookup id d.tickets)) [
    | inl gone ↦ rw (gone, count_triggers) (count_triggers-Later d available ids)
    | inr (t, held) ↦
        elim (Bool-cases (
          not (is_started t.state)
          || base t.kind != kind_triggered
          || contains (lookup t.trigger_source available))) [
            | inl skip ↦ rw (held, count_triggers) (rw skip (count_triggers-Later d available ids))
            | inr ask ↦
                rw (held, count_triggers)
                  (rw ask (
                    Later-trans (call_pump-Later d t.trigger_source)
                      (count_triggers-Later (call_pump d t.trigger_source).1 _ ids)))
          ]
  ]

  pub run_one-Later :
      (d : Dispatcher World) (id : ℕ) (t : Ticket)
      → IsKeyed d
      → lookup id d.tickets ≡ some t
      → is_finalized t.state ≡ false
      → let t1 : Ticket = record t { state = executing } in
        Later d (
          put
            (execute (put d t1) t1).1.1
            (record (execute (put d t1) t1).1.0 { state = finalized }))
  run_one-Later d id t k held open_ =
      let t1 : Ticket = record t { state = executing } in
      let same1 : SameRequest t t1 = record {
        id = refl;
        requester = refl;
        original = refl;
        kind = refl;
      } in
      let here : lookup t.id d.tickets ≡ some t = simp (k id t held) held in
      let step : Later d (put d t1) =
        put-Later d t t1 here (unsettled-Advances same1 open_ (rank-unsettled t.state open_)) in
      let ran : Ran (put d t1) t1 (execute (put d t1) t1) =
        execute-Ran (put d t1) t1 (Later-IsKeyed step k) in
      let t3 : Ticket = record (execute (put d t1) t1).1.0 { state = finalized } in
      let same3 : SameRequest t t3 = record {
        id = ran.same.id;
        requester = ran.same.requester;
        original = ran.same.original;
        kind = ran.same.kind;
      } in
      put_over-Later d (execute (put d t1) t1).1.1 t t3 (Later-trans step ran.later)
        (simp (ran.same.id, here))
        (unsettled-Advances same3 open_ (omega (arith, rank-unsettled t.state open_)))

  pub run_batch-Later :
      (batch : List Ticket) (d : Dispatcher World) → IsKeyed d → Later d (run_batch d batch).1
  unfolding run_batch
  run_batch-Later [] d k = Later-refl d
  run_batch-Later (t0 ∷ batch) d k = elim (Option-cases (lookup t0.id d.tickets)) [
    | inl gone ↦ rw (gone, run_batch) (run_batch-Later batch d k)
    | inr (t, held) ↦ elim (Bool-cases (is_finalized t.state)) [
      | inl over ↦ rw (held, run_batch) (rw over (run_batch-Later batch d k))
      | inr open_ ↦
          let step = run_one-Later d t0.id t k held open_ in
          rw (held, run_batch)
            (rw open_ (Later-trans step (run_batch-Later batch _ (Later-IsKeyed step k))))
    ]
  ]

  -- A pump of a dispatcher whose tickets stand under their own ids loses no ticket and admits none, keeps
  -- their order and their requests, takes no ticket back to an earlier state, and changes nothing of a ticket
  -- that is finalized already.
  pub pump-Later : (d : Dispatcher World) (now : ℕ) → IsKeyed d → Later d (pump d now).1
  unfolding pump
  pump-Later d now k =
      let d1 : Dispatcher World = start_queued d d.order in
      let begun : Later d d1 = start_queued-Later d d.order k in
      let counted : Later d1 (count_triggers d1 [] d1.order).1 =
        count_triggers-Later d1 [] d1.order in
      let both = Later-trans begun counted in
      Later-trans both (run_batch-Later _ (count_triggers d1 [] d1.order).1 (Later-IsKeyed both k))

  -- The response to a finalized ticket does not change by a pump, in a dispatcher whose tickets stand under
  -- their own ids.
  pub response-pump :
      (d : Dispatcher World) (now id : ℕ)
      → IsKeyed d
      → state_of d id ≡ some finalized
      → (response (pump d now).1 id ≡ response d id) × (state_of (pump d now).1 id ≡ some finalized)
  unfolding response state_of
  response-pump d now id k e = elim (Option-cases (lookup id d.tickets)) [
    | inl gone ↦ absurd (let bad : none ≡ some finalized = rw (gone, state_of) at e in cc)
    | inr (t, held) ↦
        let over : some t.state ≡ some finalized = rw (held, state_of) at e in
        let state : t.state ≡ finalized = cc in
        let (t', after, adv) = Later-forth id t (pump-Later d now k) held in
        let same : lookup id (pump d now).1.tickets ≡ some t =
          after ∙ ap some (adv.settled state) in
        (rw (held, same, response) refl, rw (same, state_of) (ap some state))
  ]
