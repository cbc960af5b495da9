-- ===== src/Server/Tests.antt =====
-- A server with one gpio endpoint, and streams that ask for changes.
use go_rcp.Base.{
  ℕ, ◌<◌, ◌≡◌, refl, Bool, true, false, Option, none, some, List, [], ◌∷◌, All, ◌⊎◌, Error,
  not_root_client, ◌==◌, arith, if◌then◌else◌,
}
use go_rcp.Base.Assoc.{lookup, insert}
use go_rcp.Avtp.{StreamId}
use go_rcp.Regmap.Codec.{encode_register_map}
use go_rcp.Regmap.{EndpointRegisters, new_register_map, validate_pins}
use go_rcp.Server.{
  unconfigured, hw_locked, fully_configured, Server, new_server, advance_to_hw_locked,
  advance_to_fully_configured, any_incomplete,
}
use go_rcp.Server.Guarded.{writes, writes_map, adds_endpoint, run}
use go_rcp.Server.History.{Event, requests, grants, claims_root, after, any_entitles, after-run}
use go_rcp.Server.Kept.{IsLocked}
use go_rcp.Server.Locked.{run-IsLocked}
use go_rcp.Server.Advance.{
  AllOnce, IsWired, IsComplete, advance_to_hw_locked-IsWired,
  advance_to_fully_configured-IsComplete,
}

abbrev root : StreamId
root = 2 ∷ 0 ∷ 0x5e ∷ 0x10 ∷ 0 ∷ 1 ∷ 0 ∷ 1 ∷ []

abbrev stranger : StreamId
stranger = 2 ∷ 0 ∷ 0x5e ∷ 0x10 ∷ 0 ∷ 1 ∷ 0 ∷ 2 ∷ []

abbrev rooted : Server
rooted = record new_server { access = record new_server.access { root = root; root_set = true } }

abbrev gpio : EndpointRegisters
gpio = record {
  generic = record { address = 5; endpoint_type = 1; enabled = true };
  functional = 7 ∷ [];
}

-- One endpoint of gpio pins at address 5, with pin 3 its first signal.
abbrev wired : Server
wired = record rooted {
  rmap = record new_register_map {
    pin_map = record { pin = 3; endpoint = 5; signal_index = 0 } ∷ [];
    queues = record { flush_threshold = 1; flush_time_millis = 0; heartbeat_interval_millis = 0 };
    endpoints = (5, gpio) ∷ [];
  };
}

-- The root client declares an endpoint, and the stranger gets a grant for another one.
abbrev history : List Event
history = requests root (adds_endpoint 5 1) ∷ grants stranger 6 ∷ claims_root root ∷ []

stranger_unentitled : any_entitles stranger (writes 5 (1 ∷ [])) history ≡ false
unfolding any_entitles go_rcp.Base.bytes_eq
stranger_unentitled = refl

after-run_example :
    (e : Error) × (run (after history) stranger (writes 5 (1 ∷ [])) ≡ (some e, after history))
after-run_example = after-run stranger (writes 5 (1 ∷ [])) history stranger_unentitled

abbrev configured : Server
configured = record wired { state = fully_configured }

run-IsLocked_example :
    IsLocked configured (run configured root (writes_map (encode_register_map new_register_map))).1
run-IsLocked_example =
    run-IsLocked configured root (writes_map (encode_register_map new_register_map))

locks : advance_to_hw_locked wired ≡ (none, record wired { state = hw_locked })
unfolding advance_to_hw_locked validate_pins lookup insert
locks = refl

advance_to_hw_locked-IsWired_example :
    (wired.state ≡ unconfigured)
    × (record wired { state = hw_locked } ≡ record wired { state = hw_locked })
    × AllOnce wired.rmap.pin_map
    × All (IsWired wired.rmap) wired.rmap.pin_map
advance_to_hw_locked-IsWired_example =
    advance_to_hw_locked-IsWired wired (record wired { state = hw_locked }) locks

abbrev locked : Server
locked = record wired { state = hw_locked }

configures : advance_to_fully_configured locked ≡ (none, record locked { state = fully_configured })
unfolding advance_to_fully_configured any_incomplete
configures = refl

advance_to_fully_configured-IsComplete_example :
    (locked.state ≡ hw_locked)
    × (record locked { state = fully_configured } ≡ record locked { state = fully_configured })
    × All IsComplete locked.rmap.endpoints
    × ((0 < locked.rmap.queues.flush_threshold) ⊎ (0 < locked.rmap.queues.flush_time_millis))
advance_to_fully_configured-IsComplete_example =
    advance_to_fully_configured-IsComplete locked (record locked { state = fully_configured })
      configures
