-- ===== src/Request/Dispatcher/Pump.antt =====
-- request/dispatcher.go: `Pump`, and what is asked of a dispatcher afterwards.
pub mod Settled
pub mod Sorted
pub mod Begun
pub mod Spared
pub mod Gated
pub mod Quiet
pub mod WellFormed
pub mod Collected
pub mod Finishes
use go_rcp.Base.{
  ℕ, ◌+◌, ◌-◌, Bool, true, false, not, ◌&&◌, ◌||◌, Option, none, some, List, [], ◌∷◌, ◌++◌, length,
  ltb, leb, ◌==◌, ◌!=◌, if◌then◌else◌, Error, Result, ok, err, unknown_ticket, pending,
}
use go_rcp.Base.Assoc.{lookup, insert, delete, nat_eq}
use go_rcp.Avtp.{StreamId}
use go_rcp.Acf.{Message, no_message}
use go_rcp.Request.Kind.{kind_triggered, kind_timed, is_safety, base, priority}
use go_rcp.Request.Sequencer.{or_zero}
use go_rcp.Request.Ticket.{
  State, queued, started, executing, finalized, is_finalized, is_queued, is_started, Ticket,
}
use go_rcp.Request.Dispatcher.{Dispatcher, put, execute, submit}

abbrev contains : Option ℕ → Bool
contains none = false
contains (some n) = true

-- The first entry of `id` goes.
pub remove_first : ℕ → List ℕ → List ℕ
remove_first id [] = []
remove_first id (i ∷ ids) = let rest = remove_first id ids in if i == id then ids else i ∷ rest

module _ {World : Type 0} where
  -- Every queued ticket is started.
  pub start_queued : Dispatcher World → List ℕ → Dispatcher World
  unfolding put
  start_queued d [] = d
  start_queued d (id ∷ ids) = elim (lookup id d.tickets) [
    | none ↦ start_queued d ids
    | some t ↦
        start_queued (if is_queued t.state then put d (record t { state = started }) else d) ids
  ]

  call_pump : Dispatcher World → ℕ → ℕ × Dispatcher World
  call_pump d source = elim (lookup source d.pumps) [
    | none ↦ (0, d)
    | some pump ↦ let (n, world) = pump d.world in (n, record d { world = world })
  ]

  -- The counts of the sources that a started triggered ticket waits on, each asked for once.
  pub count_triggers : Dispatcher World → List (ℕ × ℕ) → List ℕ → List (ℕ × ℕ) × Dispatcher World
  unfolding call_pump
  count_triggers d available [] = (available, d)
  count_triggers d available (id ∷ ids) = elim (lookup id d.tickets) [
    | none ↦ count_triggers d available ids
    | some t ↦
        let (n, d') = call_pump d t.trigger_source in
        let skipped = count_triggers d available ids in
        let counted = count_triggers d' (insert t.trigger_source n available) ids in
        if not (is_started t.state)
          || base t.kind != kind_triggered
          || contains (lookup t.trigger_source available)
        then skipped
        else counted
  ]

  unfoldable pub safe_state_ready : Dispatcher World → StreamId → Bool
  safe_state_ready d requester = elim d.safe_state [
    | none ↦ false
    | some check ↦ check d.world requester
  ]

  -- Whether `t` is ready, and the counts behind it.
  pub take_ready : Dispatcher World → ℕ → List (ℕ × ℕ) → Ticket → Bool × List (ℕ × ℕ)
  unfolding safe_state_ready
  take_ready d now available t =
      let n = or_zero (lookup t.trigger_source available) in
      if not (is_started t.state)
      then (false, available)
      else if is_safety t.kind && not (safe_state_ready d t.requester)
      then (false, available)
      else if base t.kind == kind_triggered
      then (if ltb 0 n
          then (true, insert t.trigger_source (n - 1) available)
          else (false, available))
      else if base t.kind == kind_timed
      then (leb t.execute_at_micros now, available)
      else (true, available)

  pub collect_ready : Dispatcher World → ℕ → List (ℕ × ℕ) → List ℕ → List Ticket
  unfolding take_ready
  collect_ready d now available [] = []
  collect_ready d now available (id ∷ ids) = elim (lookup id d.tickets) [
    | none ↦ collect_ready d now available ids
    | some t ↦
        let (ready, left) = take_ready d now available t in
        let rest = collect_ready d now left ids in if ready then t ∷ rest else rest
  ]

  -- Runs the tickets of a batch, whose fields are read as they are at that moment.
  pub run_batch : Dispatcher World → List Ticket → List ℕ × Dispatcher World
  unfolding put execute
  run_batch d [] = ([], d)
  run_batch d (t0 ∷ batch) = elim (lookup t0.id d.tickets) [
    | none ↦ run_batch d batch
    | some t ↦
        let t1 = record t { state = executing } in
        let (cancelled, (t2, d2)) = execute (put d t1) t1 in
        let (finalized_ids, d3) = run_batch (put d2 (record t2 { state = finalized })) batch in
        let skipped = run_batch d batch in
        if is_finalized t.state then skipped else (t.id ∷ (cancelled ++ finalized_ids), d3)
  ]

-- `sort.SliceStable` by priority, by insertion: a ticket goes before those of its rank, which came later.
pub insert_ready : Ticket → List Ticket → List Ticket
insert_ready t [] = t ∷ []
insert_ready t (u ∷ us) =
    let rest = insert_ready t us in
    if ltb (priority u.kind) (priority t.kind) then u ∷ rest else t ∷ (u ∷ us)

pub sort_ready : List Ticket → List Ticket
unfolding insert_ready
sort_ready [] = []
sort_ready (t ∷ ts) = insert_ready t (sort_ready ts)

module _ {World : Type 0} where
  pub pump : Dispatcher World → ℕ → List ℕ × Dispatcher World
  unfolding start_queued count_triggers collect_ready run_batch sort_ready
  pump d now =
      let d1 = start_queued d d.order in
      let (available, d2) = count_triggers d1 [] d1.order in
      run_batch d2 (sort_ready (collect_ready d2 now available d2.order))

  -- `Response` returns a message and an error, either of which may be set.
  pub response : Dispatcher World → ℕ → Message × Option Error
  response d id = elim (lookup id d.tickets) [
    | none ↦ (no_message, some unknown_ticket)
    | some t ↦ if is_finalized t.state then (t.response, t.error) else (no_message, some pending)
  ]

  unfoldable pub state_of : Dispatcher World → ℕ → Option State
  state_of d id = elim (lookup id d.tickets) [ none ↦ none | some t ↦ some t.state ]

  pub forget : Dispatcher World → ℕ → Dispatcher World
  unfolding remove_first
  forget d id = elim (lookup id d.tickets) [
    | none ↦ d
    | some t ↦
        if is_finalized t.state
        then record d { tickets = delete id d.tickets; order = remove_first id d.order }
        else d
  ]

  count_pending : Dispatcher World → List ℕ → ℕ
  count_pending d [] = 0
  count_pending d (id ∷ ids) = elim (lookup id d.tickets) [
    | none ↦ count_pending d ids
    | some t ↦ let n = count_pending d ids in if is_finalized t.state then n else n + 1
  ]

  pub pending_count : Dispatcher World → ℕ
  unfolding count_pending
  pending_count d = count_pending d d.order

  -- `Dispatch`: one request, one pump.
  pub dispatch :
      Dispatcher World → StreamId → Message → ℕ → (Message × Option Error) × Dispatcher World
  unfolding pump response
  dispatch d requester req now =
      let (admitted, d1) = submit d requester req in
      elim admitted [
        | err e ↦ ((no_message, some e), d1)
        | ok id ↦ let d2 = (pump d1 now).1 in (response d2 id, d2)
      ]
