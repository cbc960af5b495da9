-- ===== src/Server/Guarded.antt =====
-- Who may change the register map of a server.
use go_rcp.Base.{
  ℕ, ◌≡◌, refl, Bool, true, false, not, ◌&&◌, ◌||◌, Option, some, List, if◌then◌else◌, Error, arith,
  Bool-cases, inl, inr, not_root_client, access_denied, demotion_not_authorized,
  lifecycle_out_of_order,
}
use go_rcp.Avtp.{StreamId}
use go_rcp.Regmap.{is_root, can_access, PinAssignment, StreamLimits, QueueConfig}
use go_rcp.Server.{
  Server, is_hw_locked, is_claimant, add_endpoint, set_pin_assignment, set_stream_limits,
  set_queue_config, write_functional, write_functional_at, write_ep0, demote_to_unconfigured,
}

-- The operations that a stream asks for.
pub data Operation : Type 0 where
  adds_endpoint : (addr t : ℕ) → Operation
  sets_pin : PinAssignment → Operation
  sets_limits : StreamLimits → Operation
  sets_queues : QueueConfig → Operation
  writes : (addr : ℕ) (data_bytes : List ℕ) → Operation
  writes_at : (addr start_addr : ℕ) (data_bytes : List ℕ) → Operation
  writes_map : List ℕ → Operation
  demotes : (now : ℕ) → Operation

unfoldable pub run : Server → StreamId → Operation → Option Error × Server
run s requester (adds_endpoint addr t) = add_endpoint s requester addr t
run s requester (sets_pin a) = set_pin_assignment s requester a
run s requester (sets_limits limits) = set_stream_limits s requester limits
run s requester (sets_queues cfg) = set_queue_config s requester cfg
run s requester (writes addr data_bytes) = write_functional s requester addr data_bytes
run s requester (writes_at addr start_addr data_bytes) =
    write_functional_at s requester addr start_addr data_bytes
run s requester (writes_map data_bytes) = write_ep0 s requester data_bytes
run s requester (demotes now) = demote_to_unconfigured s now requester

-- The root client may ask for all, a stream with a grant for the writes to its endpoint, and the
-- claimant of the configuration for the demotion.
abbrev pub is_authorized : Server → StreamId → Operation → Bool
is_authorized s requester (adds_endpoint addr t) = is_root s.access requester
is_authorized s requester (sets_pin a) = is_root s.access requester
is_authorized s requester (sets_limits limits) = is_root s.access requester
is_authorized s requester (sets_queues cfg) = is_root s.access requester
is_authorized s requester (writes addr data_bytes) = can_access s.access requester addr
is_authorized s requester (writes_at addr start_addr data_bytes) =
    can_access s.access requester addr
is_authorized s requester (writes_map data_bytes) = is_root s.access requester
is_authorized s requester (demotes now) = is_root s.access requester || is_claimant s now requester

refused_by :
    (s : Server) (b : Bool) (e : Error) (x : Option Error × Server)
    → b ≡ true
    → (if b then (some e, s) else x) ≡ (some e, s)
refused_by s true e x h = refl
refused_by s false e x h = cc

-- A stream that is neither the root client, nor has a grant for the endpoint it writes to, nor is the
-- active claimant where it asks for a demotion, gets an error, and nothing of the server changes.
pub run-is_authorized :
    (s : Server) (requester : StreamId) (op : Operation)
    → is_authorized s requester op ≡ false
    → (e : Error) × (run s requester op ≡ (some e, s))
unfolding run add_endpoint set_pin_assignment set_stream_limits set_queue_config write_functional
    write_functional_at write_ep0 demote_to_unconfigured
run-is_authorized s requester (adds_endpoint addr t) h = (
  not_root_client,
  refused_by s (not (is_root s.access requester)) not_root_client _ (ground (arith, h)),
)
run-is_authorized s requester (sets_pin a) h = (
  not_root_client,
  refused_by s (not (is_root s.access requester)) not_root_client _ (ground (arith, h)),
)
run-is_authorized s requester (sets_limits limits) h = (
  not_root_client,
  refused_by s (not (is_root s.access requester)) not_root_client _ (ground (arith, h)),
)
run-is_authorized s requester (sets_queues cfg) h = (
  not_root_client,
  refused_by s (not (is_root s.access requester)) not_root_client _ (ground (arith, h)),
)
run-is_authorized s requester (writes addr data_bytes) h = (
  access_denied,
  refused_by s (not (can_access s.access requester addr)) access_denied _ (ground (arith, h)),
)
run-is_authorized s requester (writes_at addr start_addr data_bytes) h = (
  access_denied,
  refused_by s (not (can_access s.access requester addr)) access_denied _ (ground (arith, h)),
)
run-is_authorized s requester (writes_map data_bytes) h = (
  not_root_client,
  refused_by s (not (is_root s.access requester)) not_root_client _ (ground (arith, h)),
)
run-is_authorized s requester (demotes now) h = elim (Bool-cases (not (is_hw_locked s.state))) [
  | inl early ↦ (
    lifecycle_out_of_order,
    refused_by s (not (is_hw_locked s.state)) lifecycle_out_of_order _ early,
  )
  | inr locked ↦ rw locked (
    demotion_not_authorized,
    refused_by s (not (is_root s.access requester) && not (is_claimant s now requester))
        demotion_not_authorized _ (ground (arith, h)),
  )
]
