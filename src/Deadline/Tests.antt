-- ===== src/Deadline/Tests.antt =====
-- A trigger and two heartbeats, of which the last stands alone within the deadline.
use go_rcp.Base.{◌≡◌, refl, true, false, bytes_eq, if◌then◌else◌, [], ◌∷◌, List, arith}
use go_rcp.Base.Assoc.{lookup, insert, delete}
use go_rcp.Avtp.{StreamId}
use go_rcp.Deadline.{
  dead, idle, alive, DeadlineConfig, state_of, observe_heartbeat, observe_trigger, forget,
}
use go_rcp.Deadline.History.{
  trigger, heartbeat, forgotten, Entry, run, IsOrdered, heard, state_of-run,
}

abbrev sender : StreamId
sender = 2 ∷ 0 ∷ 0x5e ∷ 0x10 ∷ 0 ∷ 1 ∷ 0 ∷ 1 ∷ []

abbrev config : DeadlineConfig
config = record { deadline = 100 }

abbrev history : List Entry
history =
    record { stream = sender; at = 250; report = heartbeat }
    ∷ record { stream = sender; at = 100; report = trigger }
    ∷ record { stream = sender; at = 90; report = forgotten }
    ∷ record { stream = sender; at = 80; report = trigger }
    ∷ []

history-IsOrdered : IsOrdered 300 history
unfolding IsOrdered
history-IsOrdered = (omega arith, (omega arith, (omega arith, (omega arith, omega arith))))

is_idle : state_of (run config history) 300 sender ≡ idle
unfolding state_of run lookup insert observe_heartbeat observe_trigger forget delete bytes_eq
is_idle = refl

state_of-run_example : state_of (run config history) 300 sender ≡ (
    if heard false 100 300 sender history
    then alive
    else if heard true 100 300 sender history
    then idle
    else dead)
state_of-run_example = state_of-run config 300 sender history history-IsOrdered
