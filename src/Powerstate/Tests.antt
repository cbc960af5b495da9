-- ===== src/Powerstate/Tests.antt =====
-- An endpoint that wakes from its sleep with two repeats, the first of which fails once.
use go_rcp.Base.{◌≡◌, refl, true, none, some, List, [], ◌∷◌, ◌++◌, incomplete}
use go_rcp.Wakeup.{WakeupEndpoint, transition_to, repeats, as_events, power_sleep}
use go_rcp.Powerstate.{new_driver, pump_driver, states_of, handshakes_of, transmit}
use go_rcp.Powerstate.Backlog.{Operation, requests, pumps, Trace, run, backlog, run-backlog}

abbrev asleep : WakeupEndpoint
asleep = record {
  addr = 9;
  cfg = record { enabled = true; handshake_interval_millis = 100; handshake_repeat_count = 2 };
  state = power_sleep;
  last_start_kind = 0;
  retention_lost = true;
  triggers = [];
}

abbrev start : Trace
start = record { made = []; sent = []; driver = new_driver []; ep = asleep }

abbrev wakes : List Operation
wakes =
    requests 0
    ∷ (pumps (λ s h. some incomplete) ∷ (pumps (λ s h. none) ∷ (pumps (λ s h. none) ∷ [])))

nothing_on_its_way : start.sent ++ backlog start.driver start.ep ≡ start.made
unfolding handshakes_of new_driver
nothing_on_its_way = refl

-- Both cold starts are transmitted, in order.
both_sent :
    (run wakes start).sent
    ≡ record { start = 2; sequence = 0 } ∷ record { start = 2; sequence = 1 } ∷ []
unfolding pump_driver transition_to repeats as_events states_of handshakes_of transmit new_driver
both_sent = refl

run-backlog_example : let out = run wakes start in out.sent ++ backlog out.driver out.ep ≡ out.made
run-backlog_example = run-backlog wakes start nothing_on_its_way
