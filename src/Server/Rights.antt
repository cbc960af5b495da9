-- ===== src/Server/Rights.antt =====
-- What leaves the rights of the streams, the access rules and the claim of the configuration, as they are.
use go_rcp.Base.{
  ◌≡◌, refl, Bool, true, false, not, ◌&&◌, Option, some, [], length, ltb, ◌+◌, ◌==◌, if◌then◌else◌,
  Error, Bool-cases, Option-cases, Result-cases, inl, inr,
}
use go_rcp.Base.Assoc.{nat_eq, bytes_instance}
use go_rcp.Avtp.{StreamId}
use go_rcp.Regmap.{
  is_root, can_access, ep0, has_endpoint, endpoint, RegisterMap, same_general_identity, pins_equal,
  same_endpoint_generics, validate_pins, validate_queues,
}
use go_rcp.Regmap.Codec.{decode_register_map}
use go_rcp.Server.{
  Server, is_unconfigured, is_hw_locked, is_fully_configured, is_claimant, advance_to_hw_locked,
  advance_to_fully_configured, any_incomplete, add_endpoint, set_pin_assignment, set_stream_limits,
  set_queue_config, write_functional, write_functional_at, write_ep0, replace_map, same_limits,
  same_queues, demote_to_unconfigured,
}
use go_rcp.Server.Guarded.{
  Operation, adds_endpoint, sets_pin, sets_limits, sets_queues, writes, writes_at, writes_map,
  demotes, run,
}

-- No operation changes the rights themselves.
pub record KeepsRights (s s' : Server) : Type 0 where
  pub access : s'.access ≡ s.access
  pub claim : s'.claim ≡ s.claim

KeepsRights-refl : (s : Server) → KeepsRights s s
KeepsRights-refl s = record { access = refl; claim = refl }

-- Behind the guard of an operation.
refuse :
    (s : Server) (b : Bool) (e : Error) (x : Option Error × Server)
    → KeepsRights s x.1
    → KeepsRights s (if b then (some e, s) else x).1
refuse s true e x h = KeepsRights-refl s
refuse s false e x h = h

replace_map-KeepsRights :
    (s : Server) (incoming : RegisterMap) → KeepsRights s (replace_map s incoming).1
unfolding replace_map
replace_map-KeepsRights s incoming =
    refuse s (not (same_general_identity incoming.general s.rmap.general)) _ _ (
      refuse s (not (is_unconfigured s.state) && not (pins_equal incoming.pin_map s.rmap.pin_map)) _
        _
        (refuse s (not (is_unconfigured s.state) && not (same_endpoint_generics incoming s.rmap)) _
          _
          (refuse s
            (is_fully_configured s.state && not (same_limits incoming.streams s.rmap.streams)) _ _
            (refuse s
              (is_fully_configured s.state && not (same_queues incoming.queues s.rmap.queues)) _ _
              (record { access = refl; claim = refl })))))

pub run-KeepsRights :
    (s : Server) (stream : StreamId) (op : Operation) → KeepsRights s (run s stream op).1
unfolding run add_endpoint set_pin_assignment set_stream_limits set_queue_config write_functional
    write_functional_at write_ep0 demote_to_unconfigured
run-KeepsRights s stream (adds_endpoint addr t) = refuse s (not (is_root s.access stream)) _ _ (
    refuse s (not (is_unconfigured s.state)) _ _ (
      refuse s (addr == ep0) _ _
        (refuse s (has_endpoint s.rmap addr) _ _ (record { access = refl; claim = refl }))))
run-KeepsRights s stream (sets_pin a) =
    refuse s (not (is_root s.access stream)) _ _
      (refuse s (not (is_unconfigured s.state)) _ _ (record { access = refl; claim = refl }))
run-KeepsRights s stream (sets_limits limits) =
    refuse s (not (is_root s.access stream)) _ _
      (refuse s (is_fully_configured s.state) _ _ (record { access = refl; claim = refl }))
run-KeepsRights s stream (sets_queues cfg) =
    refuse s (not (is_root s.access stream)) _ _
      (refuse s (is_fully_configured s.state) _ _ (record { access = refl; claim = refl }))
run-KeepsRights s stream (writes addr b) =
    refuse s (not (can_access s.access stream addr)) _ _
      (elim (Option-cases (endpoint s.rmap addr)) [
        | inl gone ↦ rw gone (KeepsRights-refl s)
        | inr (ep, held) ↦ rw held (record { access = refl; claim = refl })
      ])
run-KeepsRights s stream (writes_at addr a b) =
    refuse s (not (can_access s.access stream addr)) _ _
      (elim (Option-cases (endpoint s.rmap addr)) [
        | inl gone ↦ rw gone (KeepsRights-refl s)
        | inr (ep, held) ↦ rw held (elim (Bool-cases (length b == 0)) [
          | inl nothing ↦ rw nothing (KeepsRights-refl s)
          | inr some_data ↦ elim (Bool-cases (ltb (length ep.functional) (a + length b))) [
            | inl outside ↦ rw (some_data, outside) (KeepsRights-refl s)
            | inr inside ↦ rw (some_data, inside) (record { access = refl; claim = refl })
          ]
        ])
      ])
run-KeepsRights s stream (writes_map b) =
    refuse s (not (is_root s.access stream)) _ _ (elim (Result-cases (decode_register_map b)) [
      | inl (incoming, decoded) ↦ rw decoded (replace_map-KeepsRights s incoming)
      | inr (e, bad) ↦ rw bad (KeepsRights-refl s)
    ])
run-KeepsRights s stream (demotes now) = refuse s (not (is_hw_locked s.state)) _ _ (
    refuse s (not (is_root s.access stream) && not (is_claimant s now stream)) _ _
      (record { access = refl; claim = refl }))

pub advance_to_hw_locked-KeepsRights : (s : Server) → KeepsRights s (advance_to_hw_locked s).1
unfolding advance_to_hw_locked
advance_to_hw_locked-KeepsRights s =
    refuse s (not (is_unconfigured s.state)) _ _
      (elim (Option-cases (validate_pins s.rmap [] s.rmap.pin_map)) [
        | inl fine ↦ rw fine (record { access = refl; claim = refl })
        | inr (e, bad) ↦ rw bad (KeepsRights-refl s)
      ])

pub advance_to_fully_configured-KeepsRights :
    (s : Server) → KeepsRights s (advance_to_fully_configured s).1
unfolding advance_to_fully_configured
advance_to_fully_configured-KeepsRights s = refuse s (not (is_hw_locked s.state)) _ _ (
    refuse s (any_incomplete s.rmap.endpoints) _ _
      (elim (Option-cases (validate_queues s.rmap.queues)) [
        | inl fine ↦ rw fine (record { access = refl; claim = refl })
        | inr (e, bad) ↦ rw bad (KeepsRights-refl s)
      ]))
