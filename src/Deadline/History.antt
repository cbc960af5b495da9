-- ===== src/Deadline/History.antt =====
-- deadline/monitor.go against the history of what a caller has reported.
use go_rcp.Base.{
  ℕ, ◌-◌, ◌≤◌, ◌≡◌, refl, ◌∙◌, Bool, true, false, ◌&&◌, ◌||◌, Option, none, some, List, [], ◌∷◌,
  leb, bytes_eq, if◌then◌else◌, arith, Bool-cases, inl, inr,
}
use go_rcp.Base.Assoc.{lookup, lookup-insert, lookup-delete, bytes_instance, bytes_eq_iff}
use go_rcp.Avtp.{StreamId}
use go_rcp.Deadline.{
  dead, idle, alive, DeadlineConfig, StreamState, Monitor, verdict, observe_trigger,
  observe_heartbeat, state_of, forget,
}

pub data Report : Type 0 where
  trigger heartbeat forgotten : Report

pub record Entry : Type 0 where
  pub stream : StreamId
  pub at : ℕ
  pub report : Report

abbrev pub recorded : ℕ → StreamId → Report → Monitor → Monitor
recorded at stream trigger m = observe_trigger m at stream
recorded at stream heartbeat m = observe_heartbeat m at stream
recorded at stream forgotten m = forget m stream

-- A history, the newest entry first.
unfoldable pub run : DeadlineConfig → List Entry → Monitor
run cfg [] = record { cfg = cfg; state = [] }
run cfg (e ∷ es) = recorded e.at e.stream e.report (run cfg es)

-- The clock did not go back, up to the reading `now`.
unfoldable pub IsOrdered : ℕ → List Entry → Type 0
IsOrdered now [] = now ≤ now
IsOrdered now (e ∷ es) = (e.at ≤ now) × IsOrdered e.at es

-- What a report makes of the answer on the reports before it.
abbrev pub extends : Bool → Bool → Report → Bool → Bool
extends beats within trigger before = within || before
extends beats within heartbeat before = (beats && within) || before
extends beats within forgotten before = false

-- Whether a report about the stream that is not forgotten lies within the deadline; of the heartbeats,
-- only if they count.
unfoldable pub heard : Bool → ℕ → ℕ → StreamId → List Entry → Bool
heard beats deadline now stream [] = false
heard beats deadline now stream (e ∷ es) =
    let before = heard beats deadline now stream es in
    if bytes_eq e.stream stream
    then extends beats (leb (now - e.at) deadline) e.report before
    else before

-- What a report leaves of its stream.
abbrev reported : ℕ → Report → Option StreamState → Option StreamState
reported at trigger before = some (record { last_any = at; last_trigger = at; have_trigger = true })
reported at heartbeat none = some (record { last_any = at; last_trigger = 0; have_trigger = false })
reported at heartbeat (some st) = some (record st { last_any = at })
reported at forgotten before = none

unfoldable tracked : StreamId → List Entry → Option StreamState
tracked stream [] = none
tracked stream (e ∷ es) =
    let before = tracked stream es in
    if bytes_eq e.stream stream then reported e.at e.report before else before

lookup-reported :
    (m : Monitor) (sender stream : StreamId) (at : ℕ) (report : Report)
    → lookup stream (recorded at sender report m).state ≡ (
        if bytes_eq sender stream
        then reported at report (lookup stream m.state)
        else lookup stream m.state)
unfolding observe_trigger observe_heartbeat forget
lookup-reported m sender stream at trigger = lookup-insert sender stream _ m.state
lookup-reported m sender stream at forgotten = lookup-delete sender stream m.state
lookup-reported m sender stream at heartbeat =
    lookup-insert sender stream _ m.state ∙ (elim (Bool-cases (bytes_eq sender stream)) [
      | inl same ↦ rw (same, (bytes_eq_iff sender stream).0 same) (kept (lookup stream m.state))
      | inr apart ↦ rw apart refl
    ])
  where
    kept :
        (o : Option StreamState)
        → some
            (record (elim o [
              | none ↦ record { last_any = 0; last_trigger = 0; have_trigger = false }
              | some st ↦ st
            ]) { last_any = at })
          ≡ reported at heartbeat o
    kept none = refl
    kept (some st) = refl

lookup-run :
    (cfg : DeadlineConfig) (stream : StreamId) (es : List Entry)
    → lookup stream (run cfg es).state ≡ tracked stream es
unfolding run lookup tracked
lookup-run cfg stream [] = refl
lookup-run cfg stream (e ∷ es) =
    lookup-reported (run cfg es) e.stream stream e.at e.report
    ∙ (rw (lookup-run cfg stream es) refl)

cfg-recorded :
    (at : ℕ) (stream : StreamId) (report : Report) (m : Monitor)
    → (recorded at stream report m).cfg ≡ m.cfg
unfolding observe_trigger observe_heartbeat forget
cfg-recorded at stream trigger m = refl
cfg-recorded at stream heartbeat m = refl
cfg-recorded at stream forgotten m = refl

cfg-run : (cfg : DeadlineConfig) (es : List Entry) → (run cfg es).cfg ≡ cfg
unfolding run
cfg-run cfg [] = refl
cfg-run cfg (e ∷ es) = cfg-recorded e.at e.stream e.report (run cfg es) ∙ cfg-run cfg es

-- What is stored of a stream gives both answers on its history.
abbrev Fits : ℕ → ℕ → ℕ → Bool → Bool → Option StreamState → Type 0
Fits bound deadline now any triggers none = (any ≡ false) × (triggers ≡ false)
Fits bound deadline now any triggers (some st) =
    ((st.last_any ≤ bound) × (st.last_trigger ≤ st.last_any))
    × (any ≡ leb (now - st.last_any) deadline)
    × (triggers ≡ (st.have_trigger && leb (now - st.last_trigger) deadline))

reported-Fits :
    (bound deadline now at : ℕ) (any triggers same : Bool) (report : Report)
    (before : Option StreamState)
    → at ≤ bound
    → bound ≤ now
    → Fits at deadline now any triggers before
    → Fits bound deadline now
        (if same then extends true (leb (now - at) deadline) report any else any)
        (if same then extends false (leb (now - at) deadline) report triggers else triggers)
        (if same then reported at report before else before)
reported-Fits bound deadline now at any triggers false report none h k f = f
reported-Fits bound deadline now at any triggers false report (some st) h k ((a, b), c, d) =
    ((omega arith, omega arith), c, d)
reported-Fits bound deadline now at any triggers true forgotten before h k f = (refl, refl)
reported-Fits bound deadline now at any triggers true trigger none h k (c, d) = ground (arith, c, d)
reported-Fits bound deadline now at any triggers true heartbeat none h k (c, d) =
    ground (arith, c, d)
reported-Fits bound deadline now at any triggers true trigger (some st) h k ((a, b), c, d) =
    ground (arith, a, b, c, d)
reported-Fits bound deadline now at any triggers true heartbeat (some st) h k ((a, b), c, d) =
    ground (arith, a, b, c, d)

tracked-Fits :
    (bound deadline now : ℕ) (stream : StreamId) (es : List Entry)
    → bound ≤ now
    → IsOrdered bound es
    → Fits bound deadline now
        (heard true deadline now stream es)
        (heard false deadline now stream es)
        (tracked stream es)
unfolding heard tracked IsOrdered
tracked-Fits bound deadline now stream [] k o = (refl, refl)
tracked-Fits bound deadline now stream (e ∷ es) k (h, o) =
    reported-Fits bound deadline now e.at (heard true deadline now stream es)
      (heard false deadline now stream es) (bytes_eq e.stream stream) e.report (tracked stream es) h
      k (tracked-Fits e.at deadline now stream es (omega arith) o)

verdict-Fits :
    (deadline now : ℕ) (any triggers : Bool) (o : Option StreamState)
    → Fits now deadline now any triggers o
    → verdict deadline now o ≡ (if triggers then alive else if any then idle else dead)
verdict-Fits deadline now any triggers none (c, d) = rw (c, d) refl
verdict-Fits deadline now any triggers (some st) ((a, b), c, d) = rw (c, d) (ground arith)

-- Where the clock does not go back, a stream is alive just if a trigger of it that was reported since it
-- was last forgotten lies within the deadline, idle if only a heartbeat does, and dead otherwise.
pub state_of-run :
    (cfg : DeadlineConfig) (now : ℕ) (stream : StreamId) (es : List Entry)
    → IsOrdered now es
    → state_of (run cfg es) now stream ≡ (
        if heard false cfg.deadline now stream es
        then alive
        else if heard true cfg.deadline now stream es
        then idle
        else dead)
unfolding state_of
state_of-run cfg now stream es o =
    rw (cfg-run cfg es, lookup-run cfg stream es)
      (verdict-Fits cfg.deadline now _ _ (tracked stream es)
        (tracked-Fits now cfg.deadline now stream es (omega arith) o))
