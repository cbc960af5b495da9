-- ===== src/Server/Locked.antt =====
-- What the lifecycle of a server locks.
use go_rcp.Base.{
  ◌+◌, ltb, ◌≡◌, refl, true, false, not, ◌&&◌, length, ◌==◌, arith, Bool-cases, Option-cases,
  Result-cases, List, ℕ, inl, inr,
}
use go_rcp.Base.Assoc.{nat_eq}
use go_rcp.Avtp.{StreamId}
use go_rcp.Regmap.Codec.{decode_register_map}
use go_rcp.Regmap.{
  is_root, can_access, RegisterMap, endpoint, StreamLimits, QueueConfig, ep0, has_endpoint,
  same_general_identity, pins_equal, same_endpoint_generics,
}
use go_rcp.Server.{
  LifecycleState, unconfigured, hw_locked, fully_configured, Server, is_unconfigured, is_hw_locked,
  is_fully_configured, is_claimant, add_endpoint, set_pin_assignment, set_stream_limits,
  set_queue_config, write_functional, write_functional_at, replace_map, write_ep0, same_limits,
  same_queues, patch, demote_to_unconfigured,
}
use go_rcp.Server.Guarded.{
  Operation, adds_endpoint, sets_pin, sets_limits, sets_queues, writes, writes_at, writes_map,
  demotes, run,
}
use go_rcp.Server.Kept.{
  IsLocked, IsLocked-refl, refuse, early-IsLocked, unfinished-IsLocked, put_functional-IsLocked,
  same_endpoint_generics-SameEndpoints,
}
use go_rcp.Server.Same.{same_general_identity-SameIdentity, pins_equal-SamePins}

same_limits-eq : (a b : StreamLimits) → same_limits a b ≡ true → a ≡ b
same_limits-eq a b h = ground (arith, h)

same_queues-eq : (a b : QueueConfig) → same_queues a b ≡ true → a ≡ b
same_queues-eq a b h = ground (arith, h)

replace_map-IsLocked : (s : Server) (incoming : RegisterMap) → IsLocked s (replace_map s incoming).1
unfolding replace_map
replace_map-IsLocked s incoming =
    refuse s (not (same_general_identity incoming.general s.rmap.general)) _ _ λ identity.
      refuse s (not (is_unconfigured s.state) && not (pins_equal incoming.pin_map s.rmap.pin_map)) _
        _
        λ pins.
          refuse s (not (is_unconfigured s.state) && not (same_endpoint_generics incoming s.rmap)) _
            _
            λ generics.
              refuse s
                (is_fully_configured s.state && not (same_limits incoming.streams s.rmap.streams)) _
                _
                λ limits.
                  refuse s
                    (is_fully_configured s.state && not (same_queues incoming.queues s.rmap.queues))
                    _ _
                    λ queues. record {
                      identity =
                          same_general_identity-SameIdentity s.rmap.general incoming.general
                            (ground (arith, identity));
                      endpoints = λ e.
                          same_endpoint_generics-SameEndpoints s.rmap incoming
                            (ground (arith, generics, e));
                      pins = λ e.
                          pins_equal-SamePins s.rmap.pin_map incoming.pin_map
                            (ground (arith, pins, e));
                      limits = λ e. (
                        same_limits-eq incoming.streams s.rmap.streams (ground (arith, limits, e)),
                        same_queues-eq incoming.queues s.rmap.queues (ground (arith, queues, e)),
                      );
                      final = λ e. refl;
                    }

write_ep0-IsLocked :
    (s : Server) (requester : StreamId) (data_bytes : List ℕ)
    → IsLocked s (write_ep0 s requester data_bytes).1
unfolding write_ep0
write_ep0-IsLocked s requester data_bytes = refuse s (not (is_root s.access requester)) _ _ λ root.
    elim (Result-cases (decode_register_map data_bytes)) [
      | inl (incoming, decoded) ↦ rw decoded (replace_map-IsLocked s incoming)
      | inr (e, bad) ↦ rw bad (IsLocked-refl s)
    ]

hw_unfinished : (st : LifecycleState) → is_hw_locked st ≡ true → is_fully_configured st ≡ false
hw_unfinished unconfigured e = refl
hw_unfinished hw_locked e = refl
hw_unfinished fully_configured e = cc

-- No operation that a stream asks for changes the fields of the general block that identify the server and what
-- it offers. Once the hardware is locked, each leaves the endpoints as many as they are, with the generic
-- blocks that they have, and the pin assignments as many as they are, each of them kept; once the server is
-- fully configured, each leaves its limits, its queues and its state as they are.
pub run-IsLocked :
    (s : Server) (requester : StreamId) (op : Operation) → IsLocked s (run s requester op).1
unfolding run add_endpoint set_pin_assignment set_stream_limits set_queue_config write_functional
    write_functional_at demote_to_unconfigured
run-IsLocked s requester (adds_endpoint addr t) =
    refuse s (not (is_root s.access requester)) _ _ λ root.
      refuse s (not (is_unconfigured s.state)) _ _ λ early. refuse s (addr == ep0) _ _ λ free.
        refuse s (has_endpoint s.rmap addr) _ _
          λ fresh. early-IsLocked s (ground (arith, early)) _ refl
run-IsLocked s requester (sets_pin a) = refuse s (not (is_root s.access requester)) _ _ λ root.
    refuse s (not (is_unconfigured s.state)) _ _
      λ early. early-IsLocked s (ground (arith, early)) _ refl
run-IsLocked s requester (sets_limits limits) =
    refuse s (not (is_root s.access requester)) _ _ λ root.
      refuse s (is_fully_configured s.state) _ _
        λ open_. unfinished-IsLocked s open_ _ refl refl refl
run-IsLocked s requester (sets_queues cfg) = refuse s (not (is_root s.access requester)) _ _ λ root.
    refuse s (is_fully_configured s.state) _ _ λ open_. unfinished-IsLocked s open_ _ refl refl refl
run-IsLocked s requester (writes addr data_bytes) =
    refuse s (not (can_access s.access requester addr)) _ _ λ granted.
      elim (Option-cases (endpoint s.rmap addr)) [
        | inl gone ↦ rw gone (IsLocked-refl s)
        | inr (ep, held) ↦ rw held (put_functional-IsLocked s addr ep data_bytes held)
      ]
run-IsLocked s requester (writes_at addr start_addr data_bytes) =
    refuse s (not (can_access s.access requester addr)) _ _ λ granted.
      elim (Option-cases (endpoint s.rmap addr)) [
        | inl gone ↦ rw gone (IsLocked-refl s)
        | inr (ep, held) ↦ rw held (elim (Bool-cases (length data_bytes == 0)) [
          | inl nothing ↦ rw nothing (IsLocked-refl s)
          | inr some_data ↦
              elim (Bool-cases (ltb (length ep.functional) (start_addr + length data_bytes))) [
                | inl outside ↦ rw (some_data, outside) (IsLocked-refl s)
                | inr inside ↦
                    rw (some_data, inside)
                      (put_functional-IsLocked s addr ep (patch ep.functional start_addr data_bytes)
                        held)
              ]
        ])
      ]
run-IsLocked s requester (writes_map data_bytes) = write_ep0-IsLocked s requester data_bytes
run-IsLocked s requester (demotes now) = refuse s (not (is_hw_locked s.state)) _ _ λ locked.
    refuse s (not (is_root s.access requester) && not (is_claimant s now requester)) _ _ λ allowed.
      unfinished-IsLocked s (hw_unfinished s.state (ground (arith, locked))) _ refl refl refl
