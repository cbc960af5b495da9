-- ===== src/Watchdog.antt =====
-- watchdog/keeper.go: the keeper, which purges the dispatchers of the streams in the safe state. A pointer to
-- a dispatcher is a number, and the store gives the dispatcher behind it, so that two streams may share
-- one. No other call stands between those of one `Tick`; the clock is read once for each stream.
pub mod Purges
mod Tests
use go_rcp.Base.{
  ℕ, Bool, true, false, not, ◌||◌, Option, none, some, List, [], ◌∷◌, ◌++◌, ◌==◌, if◌then◌else◌,
  map,
}
use go_rcp.Base.Assoc.{lookup, insert, bytes_instance}
use go_rcp.Avtp.{StreamId}
use go_rcp.E2e.Supervisor.{Supervisor, in_safe_state}
use go_rcp.Request.Dispatcher.{Dispatcher, purge_non_safety}

pub record PurgeEvent : Type 0 where
  pub stream : StreamId
  pub purged : List ℕ

-- The streams and the pointers to their dispatchers; the supervisor is an argument of `tick`.
pub record Keeper : Type 0 where
  pub watch : List (StreamId × List ℕ)

pub new_keeper : Keeper
new_keeper = record { watch = [] }

abbrev pub watches : List ℕ → ℕ → Bool
watches [] d = false
watches (existing ∷ ds) d = existing == d || watches ds d

-- `k.watch[stream]`
abbrev pub watched : Keeper → StreamId → List ℕ
watched k stream = elim (lookup stream k.watch) [ none ↦ [] | some ds ↦ ds ]

unfoldable pub watch_dispatcher : Keeper → StreamId → ℕ → Keeper
watch_dispatcher k stream d =
    if watches (watched k stream) d
    then k
    else record k { watch = insert stream (watched k stream ++ (d ∷ [])) k.watch }

pub streams : Keeper → List StreamId
streams k = map (λ entry. entry.0) k.watch

module _ {World : Type 0} where
  abbrev pub store_at : (ℕ → Dispatcher World) → ℕ → Dispatcher World → (ℕ → Dispatcher World)
  store_at store p d q = if p == q then d else store q

  -- The inner loop.
  unfoldable pub purge_all : (ℕ → Dispatcher World) → List ℕ → List ℕ × (ℕ → Dispatcher World)
  purge_all store [] = ([], store)
  purge_all store (p ∷ ps) =
      let done = purge_non_safety (store p) in
      let rest = purge_all (store_at store p done.1) ps in (done.0 ++ rest.0, rest.1)

  -- The outer loop.
  unfoldable pub tick_streams :
      Supervisor
      → (StreamId → ℕ)
      → (ℕ → Dispatcher World)
      → List (StreamId × List ℕ)
      → List PurgeEvent × (ℕ → Dispatcher World)
  tick_streams sup now store [] = ([], store)
  tick_streams sup now store ((s, ps) ∷ rest) = elim (in_safe_state sup (now s) s) [
    | false ↦ tick_streams sup now store rest
    | true ↦
        let done = purge_all store ps in
        let later = tick_streams sup now done.1 rest in
        (record { stream = s; purged = done.0 } ∷ later.0, later.1)
  ]

  unfoldable pub tick :
      Keeper
      → Supervisor
      → (StreamId → ℕ)
      → (ℕ → Dispatcher World)
      → List PurgeEvent × (ℕ → Dispatcher World)
  unfolding tick_streams
  tick k sup now store = tick_streams sup now store k.watch
