-- ===== src/Powerstate.antt =====
-- powerstate/driver.go: the driver that transmits the handshakes of a wakeup endpoint. The endpoint it points
-- to is an argument and a result of its methods; `send`, the transmitter, is the caller's, and what it
-- does to the world outside of the driver is not part of the model.
pub mod Backlog
mod Tests
use go_rcp.Base.{ℕ, Option, none, some, List, [], ◌∷◌, ◌++◌, length, Error}
use go_rcp.Avtp.{StreamId}
use go_rcp.Wakeup.{
  WakeHandshake, WakeupEvent, power_state_changed, wake_handshake, WakeupEndpoint, acknowledge_wake,
  drain_wakeup,
}

-- The wakeup endpoint and the transmitter are arguments; `Event` is its one field, a power state.
pub record Driver : Type 0 where
  pub target : StreamId
  pub pending : List WakeHandshake

pub new_driver : StreamId → Driver
new_driver target = record { target = target; pending = [] }

-- What the loop over the drained events collects.
unfoldable pub states_of : List WakeupEvent → List ℕ
states_of [] = []
states_of (power_state_changed state ∷ ts) = state ∷ states_of ts
states_of (wake_handshake h ∷ ts) = states_of ts

unfoldable pub handshakes_of : List WakeupEvent → List WakeHandshake
handshakes_of [] = []
handshakes_of (power_state_changed state ∷ ts) = handshakes_of ts
handshakes_of (wake_handshake h ∷ ts) = h ∷ handshakes_of ts

-- From the pending handshakes on.
unfoldable pub transmit :
    Driver → (StreamId → WakeHandshake → Option Error) → List WakeHandshake → Option Error × Driver
transmit d send [] = (none, record d { pending = [] })
transmit d send (next ∷ rest) = elim (send d.target next) [
  | some e ↦ (some e, record d { pending = next ∷ rest })
  | none ↦ (none, record d { pending = rest })
]

unfoldable pub pump_driver :
    Driver
    → (StreamId → WakeHandshake → Option Error)
    → WakeupEndpoint
    → (List ℕ × Option Error) × Driver × WakeupEndpoint
pump_driver d send ep =
    let drained = drain_wakeup ep in
    let out = transmit d send (d.pending ++ handshakes_of drained.0) in
    ((states_of drained.0, out.0), out.1, drained.1)

unfoldable pub acknowledge : Driver → WakeupEndpoint → Driver × WakeupEndpoint
acknowledge d ep = (record d { pending = [] }, acknowledge_wake ep)
