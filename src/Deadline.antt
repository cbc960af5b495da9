-- ===== src/Deadline.antt =====
-- deadline/: the liveness of streams, from the triggers and the heartbeats that a caller reports. The clock's
-- reading is an argument, in nanoseconds, where the source calls `now`; a duration is a number, so that a
-- negative one, which Go allows and Validate refuses, is left out.
pub mod History
mod Tests
use go_rcp.Base.{
  ℕ, ◌-◌, ◌*◌, ◌%◌, ◌^◌, Bool, true, false, ◌&&◌, not, Option, none, some, List, [], ◌∷◌, ltb, leb,
  ◌==◌, if◌then◌else◌, Error, Result, ok, err, invalid_deadline, no_heartbeat_configured,
  invalid_missed_heartbeats,
}
use go_rcp.Base.Assoc.{lookup, insert, delete, bytes_instance}
use go_rcp.Avtp.{StreamId}
use go_rcp.Regmap.{QueueConfig}

pub data LivenessState : Type 0 where
  dead idle alive : LivenessState

pub record DeadlineConfig : Type 0 where
  pub deadline : ℕ

pub validate_deadline : DeadlineConfig → Option Error
validate_deadline c = if c.deadline == 0 then some invalid_deadline else none

pub record StreamState : Type 0 where
  pub last_any : ℕ
  pub last_trigger : ℕ
  pub have_trigger : Bool

pub record Monitor : Type 0 where
  pub cfg : DeadlineConfig
  pub state : List (StreamId × StreamState)

pub new_monitor : DeadlineConfig → Result Monitor
new_monitor cfg = elim (validate_deadline cfg) [
  | some e ↦ err e
  | none ↦ ok (record { cfg = cfg; state = [] })
]

abbrev pub state_for : Monitor → StreamId → StreamState
state_for m stream = elim (lookup stream m.state) [
  | none ↦ record { last_any = 0; last_trigger = 0; have_trigger = false }
  | some st ↦ st
]

unfoldable pub observe_trigger : Monitor → ℕ → StreamId → Monitor
observe_trigger m now stream = record m {
  state =
      insert stream (record { last_any = now; last_trigger = now; have_trigger = true }) m.state;
}

unfoldable pub observe_heartbeat : Monitor → ℕ → StreamId → Monitor
observe_heartbeat m now stream = record m {
  state = insert stream (record (state_for m stream) { last_any = now }) m.state;
}

-- The tests of `State` on what is stored of a stream.
abbrev pub verdict : ℕ → ℕ → Option StreamState → LivenessState
verdict deadline now none = dead
verdict deadline now (some st) =
    if ltb deadline (now - st.last_any)
    then dead
    else if st.have_trigger && leb (now - st.last_trigger) deadline
    then alive
    else idle

unfoldable pub state_of : Monitor → ℕ → StreamId → LivenessState
state_of m now stream = verdict m.cfg.deadline now (lookup stream m.state)

unfoldable pub is_alive : Monitor → ℕ → StreamId → Bool
is_alive m now stream = elim (state_of m now stream) [ dead ↦ false | _ ↦ true ]

unfoldable pub forget : Monitor → StreamId → Monitor
forget m stream = record m { state = delete stream m.state }

-- The product is an int64, given by its bits.
pub deadline_for_queue : QueueConfig → ℕ → Result ℕ
deadline_for_queue q missed_heartbeats =
    if q.heartbeat_interval_millis == 0
    then err no_heartbeat_configured
    else if missed_heartbeats == 0
    then err invalid_missed_heartbeats
    else ok (q.heartbeat_interval_millis * missed_heartbeats * 1000000 % 2 ^ 64)
