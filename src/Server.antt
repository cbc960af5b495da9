-- ===== src/Server.antt =====
-- server/server.go and server/discovery.go, with lifecycle/lifecycle.go and discovery/claim.go: the
-- register map under its lifecycle and its access rules. The clock's reading is an argument, in
-- nanoseconds, where the source calls `now`. The reads and the configuration
-- requests are in Server/Reads.antt.
pub mod Guarded
pub mod Same
pub mod Kept
pub mod Rights
pub mod History
pub mod Locked
pub mod Advance
pub mod Reads
pub mod Configured
mod Tests
use go_rcp.Base.{
  ℕ, ◌+◌, Bool, true, false, not, ◌&&◌, ◌||◌, Option, none, some, List, [], ◌∷◌, ◌++◌, length, take,
  drop, ltb, ◌==◌, bytes_eq, if◌then◌else◌, Error, ok, err, register_locked,
  general_block_read_only, reserved_address, duplicate_endpoint, unknown_endpoint, not_root_client,
  access_denied, lifecycle_out_of_order, functional_block_incomplete, demotion_not_authorized,
  configuration_claimed, not_configuration_claimant,
}
use go_rcp.Base.Assoc.{lookup, insert, nat_eq}
use go_rcp.Avtp.{StreamId}
use go_rcp.Regmap.Codec.{decode_register_map}
use go_rcp.Regmap.{
  ep0, AccessController, new_access_controller, new_register_map, is_root, claim_root, grant,
  can_access, PinAssignment, set_pin, StreamLimits, QueueConfig, validate_queues,
  same_general_identity, EndpointRegisters, RegisterMap, endpoint, has_endpoint, declare_endpoint,
  validate_pins, pins_equal, same_endpoint_generics,
}

pub data LifecycleState : Type 0 where
  unconfigured hw_locked fully_configured : LifecycleState

abbrev pub is_unconfigured : LifecycleState → Bool
is_unconfigured unconfigured = true
is_unconfigured hw_locked = false
is_unconfigured fully_configured = false

abbrev pub is_hw_locked : LifecycleState → Bool
is_hw_locked unconfigured = false
is_hw_locked hw_locked = true
is_hw_locked fully_configured = false

abbrev pub is_fully_configured : LifecycleState → Bool
is_fully_configured unconfigured = false
is_fully_configured hw_locked = false
is_fully_configured fully_configured = true

pub record Claim : Type 0 where
  pub held : Bool
  pub stream : StreamId
  pub expires : ℕ

abbrev pub is_active : Claim → ℕ → Bool
is_active c now = c.held && ltb now c.expires

-- Nanoseconds.
abbrev default_configuration_claim_timeout : ℕ
default_configuration_claim_timeout = 30_000_000_000

pub record Server : Type 0 where
  pub state : LifecycleState
  pub rmap : RegisterMap
  pub access : AccessController
  pub claim_timeout : ℕ
  pub claim : Claim

abbrev pub new_server : Server
new_server = record {
  state = unconfigured;
  rmap = new_register_map;
  access = new_access_controller;
  claim_timeout = default_configuration_claim_timeout;
  claim = record { held = false; stream = []; expires = 0 };
}

unfoldable pub server_claim_root : Server → StreamId → Option Error × Server
server_claim_root s stream =
    let (e, access) = claim_root s.access stream in (e, record s { access = access })

unfoldable pub server_grant : Server → StreamId → ℕ → Server
server_grant s stream ep = record s { access = grant s.access stream ep }

unfoldable pub advance_to_hw_locked : Server → Option Error × Server
advance_to_hw_locked s =
    if not (is_unconfigured s.state)
    then (some lifecycle_out_of_order, s)
    else elim (validate_pins s.rmap [] s.rmap.pin_map) [
      | some e ↦ (some e, s)
      | none ↦ (none, record s { state = hw_locked })
    ]

-- Whether some endpoint has no functional configuration.
unfoldable pub any_incomplete : List (ℕ × EndpointRegisters) → Bool
any_incomplete [] = false
any_incomplete ((addr, ep) ∷ rest) = length ep.functional == 0 || any_incomplete rest

unfoldable pub advance_to_fully_configured : Server → Option Error × Server
advance_to_fully_configured s =
    if not (is_hw_locked s.state)
    then (some lifecycle_out_of_order, s)
    else if any_incomplete s.rmap.endpoints
    then (some functional_block_incomplete, s)
    else elim (validate_queues s.rmap.queues) [
      | some e ↦ (some e, s)
      | none ↦ (none, record s { state = fully_configured })
    ]

abbrev pub is_claimant : Server → ℕ → StreamId → Bool
is_claimant s now requester = is_active s.claim now && bytes_eq s.claim.stream requester

unfoldable pub demote_to_unconfigured : Server → ℕ → StreamId → Option Error × Server
demote_to_unconfigured s now requester =
    if not (is_hw_locked s.state)
    then (some lifecycle_out_of_order, s)
    else if not (is_root s.access requester) && not (is_claimant s now requester)
    then (some demotion_not_authorized, s)
    else (none, record s { state = unconfigured })

unfoldable pub add_endpoint : Server → StreamId → ℕ → ℕ → Option Error × Server
add_endpoint s requester addr t =
    if not (is_root s.access requester)
    then (some not_root_client, s)
    else if not (is_unconfigured s.state)
    then (some register_locked, s)
    else if addr == ep0
    then (some reserved_address, s)
    else if has_endpoint s.rmap addr
    then (some duplicate_endpoint, s)
    else (none, record s { rmap = declare_endpoint s.rmap addr t })

unfoldable pub set_pin_assignment : Server → StreamId → PinAssignment → Option Error × Server
set_pin_assignment s requester a =
    if not (is_root s.access requester)
    then (some not_root_client, s)
    else if not (is_unconfigured s.state)
    then (some register_locked, s)
    else (none, record s { rmap = record s.rmap { pin_map = set_pin s.rmap.pin_map a } })

unfoldable pub set_stream_limits : Server → StreamId → StreamLimits → Option Error × Server
set_stream_limits s requester limits =
    if not (is_root s.access requester)
    then (some not_root_client, s)
    else if is_fully_configured s.state
    then (some register_locked, s)
    else (none, record s { rmap = record s.rmap { streams = limits } })

unfoldable pub set_queue_config : Server → StreamId → QueueConfig → Option Error × Server
set_queue_config s requester cfg =
    if not (is_root s.access requester)
    then (some not_root_client, s)
    else if is_fully_configured s.state
    then (some register_locked, s)
    else (none, record s { rmap = record s.rmap { queues = cfg } })

-- The write through the endpoint's pointer.
abbrev pub put_functional : Server → ℕ → EndpointRegisters → List ℕ → Server
put_functional s addr ep data_bytes = record s {
  rmap = record s.rmap {
    endpoints = insert addr (record ep { functional = data_bytes }) s.rmap.endpoints;
  };
}

unfoldable pub write_functional : Server → StreamId → ℕ → List ℕ → Option Error × Server
write_functional s requester addr data_bytes =
    if not (can_access s.access requester addr)
    then (some access_denied, s)
    else elim (endpoint s.rmap addr) [
      | none ↦ (some unknown_endpoint, s)
      | some ep ↦ (none, put_functional s addr ep data_bytes)
    ]

-- `copy(old[start:start+len(data)], data)`, in range.
abbrev pub patch : List ℕ → ℕ → List ℕ → List ℕ
patch old start data_bytes = take start old ++ (data_bytes ++ drop (start + length data_bytes) old)

unfoldable pub write_functional_at : Server → StreamId → ℕ → ℕ → List ℕ → Option Error × Server
write_functional_at s requester addr start_addr data_bytes =
    if not (can_access s.access requester addr)
    then (some access_denied, s)
    else elim (endpoint s.rmap addr) [
      | none ↦ (some unknown_endpoint, s)
      | some ep ↦
          if length data_bytes == 0
          then (none, s)
          else if ltb (length ep.functional) (start_addr + length data_bytes)
          then (none, s)
          else (none, put_functional s addr ep (patch ep.functional start_addr data_bytes))
    ]

abbrev pub same_limits : StreamLimits → StreamLimits → Bool
same_limits a b =
    a.max_request_streams == b.max_request_streams
    && a.max_in_flight_per_stream == b.max_in_flight_per_stream

abbrev pub same_queues : QueueConfig → QueueConfig → Bool
same_queues a b =
    a.flush_threshold == b.flush_threshold
    && (a.flush_time_millis == b.flush_time_millis
        && a.heartbeat_interval_millis == b.heartbeat_interval_millis)

-- `WriteEP0` once the map is decoded.
unfoldable pub replace_map : Server → RegisterMap → Option Error × Server
replace_map s incoming =
    if not (same_general_identity incoming.general s.rmap.general)
    then (some general_block_read_only, s)
    else if not (is_unconfigured s.state) && not (pins_equal incoming.pin_map s.rmap.pin_map)
    then (some register_locked, s)
    else if not (is_unconfigured s.state) && not (same_endpoint_generics incoming s.rmap)
    then (some register_locked, s)
    else if is_fully_configured s.state && not (same_limits incoming.streams s.rmap.streams)
    then (some register_locked, s)
    else if is_fully_configured s.state && not (same_queues incoming.queues s.rmap.queues)
    then (some register_locked, s)
    else (none, record s { rmap = incoming })

unfoldable pub write_ep0 : Server → StreamId → List ℕ → Option Error × Server
write_ep0 s requester data_bytes =
    if not (is_root s.access requester)
    then (some not_root_client, s)
    else elim (decode_register_map data_bytes) [
      | err e ↦ (some e, s)
      | ok incoming ↦ replace_map s incoming
    ]

-- A duration that is not positive is replaced with the default.
unfoldable pub set_configuration_claim_timeout : Server → ℕ → Server
set_configuration_claim_timeout s d = record s {
  claim_timeout = if d == 0 then default_configuration_claim_timeout else d;
}

unfoldable pub claim_configuration : Server → ℕ → StreamId → Option Error × Server
claim_configuration s now stream =
    if is_active s.claim now && not (bytes_eq s.claim.stream stream)
    then (some configuration_claimed, s)
    else (
      none,
      record s { claim = record { held = true; stream = stream; expires = now + s.claim_timeout } },
    )

unfoldable pub configuration_claimant : Server → ℕ → Option StreamId
configuration_claimant s now = if is_active s.claim now then some s.claim.stream else none

unfoldable pub release_configuration_claim : Server → ℕ → StreamId → Option Error × Server
release_configuration_claim s now stream =
    if not (is_active s.claim now) || not (bytes_eq s.claim.stream stream)
    then (some not_configuration_claimant, s)
    else (none, record s { claim = record { held = false; stream = []; expires = 0 } })
