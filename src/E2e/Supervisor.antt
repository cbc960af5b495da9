-- ===== src/E2e/Supervisor.antt =====
-- e2e/watchdog.go: the supervisor of request arrivals. The clock's reading is an argument, in
-- nanoseconds, where the source calls `now`.
pub mod Trips
use go_rcp.Base.{
  ℕ, ◌+◌, ◌-◌, ◌%◌, ◌^◌, ◌≤◌, ◌<◌, ◌≡◌, refl, sym, ap, ◌∙◌, Bool, true, false, not, ◌&&◌, ◌||◌,
  Option, none, some, List, [], ◌∷◌, ltb, ◌==◌, ◌!=◌, bytes_eq, if◌then◌else◌, arith, Error,
  sequence_violation, Bool-cases, Option-cases, ◌⊎◌, inl, inr,
}
use go_rcp.Base.Assoc.{lookup, insert, lookup-insert, bytes_instance, bytes_eq_iff}
use go_rcp.Avtp.{StreamId}

-- A negative timeout, which Go allows, is left out.
pub record StreamConfig : Type 0 where
  pub timeout : ℕ
  pub require_monotonic_sequence : Bool
  pub sequence_overflow_wraps : Bool

pub record StreamState : Type 0 where
  pub last_arrival : ℕ
  pub have_seq : Bool
  pub last_seq : ℕ
  pub tripped : Bool

pub record Supervisor : Type 0 where
  pub def_cfg : StreamConfig
  pub cfg : List (StreamId × StreamConfig)
  pub state : List (StreamId × StreamState)

abbrev pub new_supervisor : StreamConfig → Supervisor
new_supervisor def_cfg = record { def_cfg = def_cfg; cfg = []; state = [] }

abbrev pub configure : Supervisor → StreamId → StreamConfig → Supervisor
configure s stream cfg = record s { cfg = insert stream cfg s.cfg }

unfoldable pub config_for : Supervisor → StreamId → StreamConfig
config_for s stream = elim (lookup stream s.cfg) [ none ↦ s.def_cfg | some cfg ↦ cfg ]

abbrev pub zero_state : StreamState
zero_state = record { last_arrival = 0; have_seq = false; last_seq = 0; tripped = false }

abbrev pub state_for : Supervisor → StreamId → StreamState
state_for s stream = elim (lookup stream s.state) [ none ↦ zero_state | some st ↦ st ]

-- Whether `seq`, a uint32, breaks the configured rule.
unfoldable pub violates : StreamConfig → StreamState → ℕ → Bool
violates cfg st seq =
    let wrapped = cfg.sequence_overflow_wraps && (st.last_seq == 2 ^ 32 - 1 && seq == 0) in
    (cfg.require_monotonic_sequence && st.have_seq)
    && (seq != (st.last_seq + 1) % 2 ^ 32 && not wrapped)

unfoldable pub observe : Supervisor → ℕ → StreamId → ℕ → Option Error × Supervisor
unfolding config_for violates
observe s now stream seq =
    let st = state_for s stream in
    let violation = violates (config_for s stream) st seq in
    (
      if violation then some sequence_violation else none,
      record s {
        state =
            insert stream
              (record {
                last_arrival = now;
                have_seq = true;
                last_seq = seq;
                tripped = violation || st.tripped;
              })
              s.state;
      },
    )

-- A clock that reads less than at the last arrival has elapsed nothing beyond the timeout.
unfoldable pub in_safe_state : Supervisor → ℕ → StreamId → Bool
unfolding config_for
in_safe_state s now stream = elim (lookup stream s.state) [
  | none ↦ true
  | some st ↦ st.tripped || ltb (config_for s stream).timeout (now - st.last_arrival)
]

-- `CheckFunc`, at a reading of the clock.
abbrev pub check_func : Supervisor → ℕ → StreamId → Bool
check_func s now = in_safe_state s now

unfoldable pub reset : Supervisor → ℕ → StreamId → Supervisor
reset s now stream = record s {
  state = insert stream (record zero_state { last_arrival = now }) s.state;
}
