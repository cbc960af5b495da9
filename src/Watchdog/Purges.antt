-- ===== src/Watchdog/Purges.antt =====
-- watchdog/keeper.go: what a tick of the keeper does to each ticket.
use go_rcp.Base.{
  ℕ, ◌≡◌, refl, ap, ◌∙◌, Bool, true, false, not, ◌&&◌, ◌||◌, some, List, [], ◌∷◌, ◌==◌, ==_iff,
  if◌then◌else◌, Bool-cases, inl, inr,
}
use go_rcp.Base.Assoc.{lookup, nat_eq}
use go_rcp.Avtp.{StreamId}
use go_rcp.Base.{purged_by_watchdog}
use go_rcp.E2e.Supervisor.{Supervisor, in_safe_state}
use go_rcp.Request.Kind.{is_safety}
use go_rcp.Request.Ticket.{Ticket, is_finalized}
use go_rcp.Request.Dispatcher.{Dispatcher, purge_non_safety}
use go_rcp.Request.Dispatcher.Purge.{ended, purge_non_safety_lem}
use go_rcp.Request.Dispatcher.Pump.WellFormed.{IsWellFormed}
use go_rcp.Request.Dispatcher.Reachable.{here, further, purged, Reach-IsWellFormed}
use go_rcp.Watchdog.{Keeper, watches, store_at, purge_all, tick_streams, tick}

-- A purge finalizes a ticket of that state and kind.
abbrev pub is_purged : Ticket → Bool
is_purged t = not (is_finalized t.state) && not (is_safety t.kind)

-- The ticket after a purge, if there is one.
abbrev pub after_purge : Bool → Ticket → Ticket
after_purge b t = if b && is_purged t then ended purged_by_watchdog t else t

after_purge_twice :
    (a b : Bool) (t : Ticket) → after_purge b (after_purge a t) ≡ after_purge (a || b) t
after_purge_twice false b t = refl
after_purge_twice true false t = elim (Bool-cases (is_purged t)) [
  | inl hit ↦ rw hit
  | inr miss ↦ rw miss
]
after_purge_twice true true t = elim (Bool-cases (is_purged t)) [
  | inl hit ↦ rw hit
  | inr miss ↦ rw (miss, miss)
]

-- A stream in the safe state watches the dispatcher behind `p`.
abbrev pub trips : ℕ → Supervisor → (StreamId → ℕ) → List (StreamId × List ℕ) → Bool
trips p sup now [] = false
trips p sup now ((s, ps) ∷ rest) =
    in_safe_state sup (now s) s && watches ps p || trips p sup now rest

module _ {World : Type 0} where
  abbrev pub AllWellFormed : (ℕ → Dispatcher World) → Type 0
  AllWellFormed store = (p : ℕ) → IsWellFormed (store p)

  store_at-AllWellFormed :
      (store : ℕ → Dispatcher World) (q : ℕ)
      → AllWellFormed store
      → AllWellFormed (store_at store q (purge_non_safety (store q)).1)
  store_at-AllWellFormed store q w p = elim (Bool-cases (q == p)) [
    | inl same ↦ rw same (Reach-IsWellFormed (w q) (further here purged))
    | inr other ↦ rw other (w p)
  ]

  module _ (p id : ℕ) where
    abbrev Holds : (ℕ → Dispatcher World) → Ticket → Type 0
    Holds store t = lookup id (store p).tickets ≡ some t

    purge_at :
        (store : ℕ → Dispatcher World) (q : ℕ) (t : Ticket)
        → AllWellFormed store
        → Holds store t
        → Holds (store_at store q (purge_non_safety (store q)).1) (after_purge (q == p) t)
    purge_at store q t w held = elim (Bool-cases (q == p)) [
      | inr other ↦ rw other held
      | inl same ↦
          let there : lookup id (store q).tickets ≡ some t =
            ap (λ x. lookup id (store x).tickets) ((==_iff q p).0 same) ∙ held in
          let ended_here = purge_non_safety_lem (store q) id t (w q).keyed there in
          let listed = (w q).listed id t there in rw same (rw listed at ended_here)
    ]

    purge_all_at :
        (ps : List ℕ) (store : ℕ → Dispatcher World) (t : Ticket)
        → AllWellFormed store
        → Holds store t
        → AllWellFormed (purge_all store ps).1
          × Holds (purge_all store ps).1 (after_purge (watches ps p) t)
    unfolding purge_all
    purge_all_at [] store t w held = (w, held)
    purge_all_at (q ∷ ps) store t w held =
        let next = store_at store q (purge_non_safety (store q)).1 in
        let rest =
          purge_all_at ps next (after_purge (q == p) t) (store_at-AllWellFormed store q w)
            (purge_at store q t w held) in
        (rest.0, rest.1 ∙ ap some (after_purge_twice (q == p) (watches ps p) t))

    tick_streams_at :
        (sup : Supervisor) (now : StreamId → ℕ) (entries : List (StreamId × List ℕ))
        → (store : ℕ → Dispatcher World) (t : Ticket) → AllWellFormed store
        → Holds store t
        → let out = (tick_streams sup now store entries).1 in
          AllWellFormed out × Holds out (after_purge (trips p sup now entries) t)
    unfolding tick_streams
    tick_streams_at sup now [] store t w held = (w, held)
    tick_streams_at sup now ((s, ps) ∷ rest) store t w held =
        elim (Bool-cases (in_safe_state sup (now s) s)) [
          | inr safe ↦ rw (tick_streams, trips, safe) (tick_streams_at sup now rest store t w held)
          | inl tripped ↦
              let first = purge_all_at ps store t w held in
              let later =
                tick_streams_at sup now rest (purge_all store ps).1 (after_purge (watches ps p) t)
                  first.0 first.1 in
              rw (tick_streams, trips, tripped)
                (
                  later.0,
                  later.1 ∙ ap some (after_purge_twice (watches ps p) (trips p sup now rest) t),
                )
        ]

    -- With well-formed dispatchers, a tick finalizes, as purged by the watchdog, the tickets that are neither
    -- safety requests nor finalized of just those dispatchers that a stream in the safe state watches, and
    -- leaves every other ticket and the dispatchers well formed.
    pub tick_lem :
        (k : Keeper) (sup : Supervisor) (now : StreamId → ℕ) (store : ℕ → Dispatcher World)
        (t : Ticket)
        → AllWellFormed store
        → lookup id (store p).tickets ≡ some t
        → let out = (tick k sup now store).1 in
          AllWellFormed out
          × (lookup id (out p).tickets ≡ some (after_purge (trips p sup now k.watch) t))
    unfolding tick
    tick_lem k sup now store t w held = tick_streams_at sup now k.watch store t w held
