-- ===== src/Powerstate/Backlog.antt =====
-- powerstate/driver.go with wakeup/endpoint.go: the handshakes on their way from the endpoint to the
-- transmitter.
use go_rcp.Base.{
  ℕ, ◌≡◌, refl, ap, ◌∙◌, sym, ◌&&◌, Option, none, some, List, [], ◌∷◌, ◌++◌, append_assoc,
  append-nil, ◌==◌, if◌then◌else◌, Error, arith,
}
use go_rcp.Avtp.{StreamId}
use go_rcp.Wakeup.{
  WakeHandshake, WakeupEvent, power_state_changed, wake_handshake, WakeupEndpoint, acknowledge_wake,
  unacknowledged, repeats, as_events, start_kind, transition_to, power_sleep, power_normal,
  set_retention_lost,
}
use go_rcp.Powerstate.{Driver, handshakes_of, transmit, pump_driver, acknowledge}

-- The handshakes that are on their way, in order.
abbrev pub backlog : Driver → WakeupEndpoint → List WakeHandshake
backlog d ep = d.pending ++ handshakes_of ep.triggers

handshakes_of-append :
    (xs ys : List WakeupEvent) → handshakes_of (xs ++ ys) ≡ handshakes_of xs ++ handshakes_of ys
unfolding handshakes_of
handshakes_of-append [] ys = refl
handshakes_of-append (power_state_changed s ∷ xs) ys = handshakes_of-append xs ys
handshakes_of-append (wake_handshake h ∷ xs) ys = ap (λ t. h ∷ t) (handshakes_of-append xs ys)

handshakes_of-as_events : (hs : List WakeHandshake) → handshakes_of (as_events hs) ≡ hs
unfolding handshakes_of as_events
handshakes_of-as_events [] = refl
handshakes_of-as_events (h ∷ hs) = ap (λ t. h ∷ t) (handshakes_of-as_events hs)

handshakes_of-unacknowledged : (ts : List WakeupEvent) → handshakes_of (unacknowledged ts) ≡ []
unfolding handshakes_of unacknowledged
handshakes_of-unacknowledged [] = refl
handshakes_of-unacknowledged (power_state_changed s ∷ ts) = handshakes_of-unacknowledged ts
handshakes_of-unacknowledged (wake_handshake h ∷ ts) = handshakes_of-unacknowledged ts

-- What a request for a power state adds: all repeats, where it wakes the endpoint from its sleep.
abbrev pub woken : WakeupEndpoint → ℕ → List WakeHandshake
woken ep target =
    if ep.state == power_sleep && target == power_normal
    then repeats (start_kind ep) 0 ep.cfg.handshake_repeat_count
    else []

transition_to-handshakes :
    (ep : WakeupEndpoint) (target : ℕ)
    → handshakes_of (transition_to ep target).1.triggers
      ≡ handshakes_of ep.triggers ++ woken ep target
unfolding transition_to handshakes_of
transition_to-handshakes ep target =
    let rest = repeats (start_kind ep) 0 ep.cfg.handshake_repeat_count in
    let changed = ep.triggers ++ (power_state_changed target ∷ []) in
    let kept =
      handshakes_of-append ep.triggers (power_state_changed target ∷ [])
      ∙ append-nil (handshakes_of ep.triggers) in
    let added = handshakes_of-append changed (as_events rest) in
    let as_they_are = handshakes_of-as_events rest in
    let same = append-nil (handshakes_of ep.triggers) in
    ground (arith, kept, added, as_they_are, same)

transition_to-backlog :
    (d : Driver) (ep : WakeupEndpoint) (target : ℕ)
    → backlog d (transition_to ep target).1 ≡ backlog d ep ++ woken ep target
transition_to-backlog d ep target =
    ap (λ t. d.pending ++ t) (transition_to-handshakes ep target)
    ∙ sym (append_assoc d.pending (handshakes_of ep.triggers) (woken ep target))

-- A pump that transmits: what it takes off the backlog.
abbrev pub sent_by :
    Driver → (StreamId → WakeHandshake → Option Error) → List WakeHandshake → List WakeHandshake
sent_by d send [] = []
sent_by d send (next ∷ rest) = elim (send d.target next) [ none ↦ next ∷ [] | some e ↦ [] ]

transmit-backlog :
    (d : Driver) (send : StreamId → WakeHandshake → Option Error) (hs : List WakeHandshake)
    → sent_by d send hs ++ (transmit d send hs).1.pending ≡ hs
unfolding transmit
transmit-backlog d send [] = refl
transmit-backlog d send (next ∷ rest) = ground arith

pump_driver-backlog :
    (d : Driver) (send : StreamId → WakeHandshake → Option Error) (ep : WakeupEndpoint)
    → let out = pump_driver d send ep in
      sent_by d send (backlog d ep) ++ backlog out.1 out.2 ≡ backlog d ep
unfolding pump_driver handshakes_of
pump_driver-backlog d send ep =
    let hs = d.pending ++ handshakes_of ep.triggers in
    ap (λ x. sent_by d send hs ++ x) (append-nil (transmit d send hs).1.pending)
    ∙ transmit-backlog d send hs

acknowledge-backlog :
    (d : Driver) (ep : WakeupEndpoint) → backlog (acknowledge d ep).0 (acknowledge d ep).1 ≡ []
unfolding acknowledge acknowledge_wake
acknowledge-backlog d ep = handshakes_of-unacknowledged ep.triggers

-- What is done to an endpoint and its driver. The power state is asked for by a request; the transmitter may
-- answer a pump in any way.
pub data Operation : Type 0 where
  requests : (target : ℕ) → Operation
  loses_retention acknowledges : Operation
  pumps : (send : StreamId → WakeHandshake → Option Error) → Operation

-- The handshakes made, but for those that an acknowledgement took back, and those transmitted, in order.
pub record Trace : Type 0 where
  pub made : List WakeHandshake
  pub sent : List WakeHandshake
  pub driver : Driver
  pub ep : WakeupEndpoint

abbrev pub run : List Operation → Trace → Trace
run [] t = t
run (requests target ∷ ops) t =
    run ops (record t { made = t.made ++ woken t.ep target; ep = (transition_to t.ep target).1 })
run (loses_retention ∷ ops) t = run ops (record t { ep = set_retention_lost t.ep })
run (acknowledges ∷ ops) t =
    let out = acknowledge t.driver t.ep in
    run ops (record t { made = t.sent; driver = out.0; ep = out.1 })
run (pumps send ∷ ops) t =
    let out = pump_driver t.driver send t.ep in
    run ops (record t {
      sent = t.sent ++ sent_by t.driver send (backlog t.driver t.ep);
      driver = out.1;
      ep = out.2;
    })

-- Along any run no handshake is lost, transmitted twice or out of order: those transmitted, and then those on
-- their way, are those made, but for the ones that an acknowledgement took back.
pub run-backlog :
    (ops : List Operation) (t : Trace)
    → t.sent ++ backlog t.driver t.ep ≡ t.made
    → let out = run ops t in out.sent ++ backlog out.driver out.ep ≡ out.made
unfolding pump_driver
run-backlog [] t h = h
run-backlog (requests target ∷ ops) t h =
    run-backlog ops
      (record t { made = t.made ++ woken t.ep target; ep = (transition_to t.ep target).1 })
      (ap (λ x. t.sent ++ x) (transition_to-backlog t.driver t.ep target)
        ∙ (sym (append_assoc t.sent (backlog t.driver t.ep) (woken t.ep target))
            ∙ ap (λ x. x ++ woken t.ep target) h))
run-backlog (loses_retention ∷ ops) t h =
    run-backlog ops (record t { ep = set_retention_lost t.ep }) h
run-backlog (acknowledges ∷ ops) t h =
    let out = acknowledge t.driver t.ep in
    run-backlog ops (record t { made = t.sent; driver = out.0; ep = out.1 })
      (ap (λ x. t.sent ++ x) (acknowledge-backlog t.driver t.ep) ∙ append-nil t.sent)
run-backlog (pumps send ∷ ops) t h =
    let hs = backlog t.driver t.ep in
    let out = pump_driver t.driver send t.ep in
    run-backlog ops
      (record t { sent = t.sent ++ sent_by t.driver send hs; driver = out.1; ep = out.2 })
      (append_assoc t.sent (sent_by t.driver send hs) (backlog out.1 out.2)
        ∙ (ap (λ x. t.sent ++ x) (pump_driver-backlog t.driver send t.ep) ∙ h))
