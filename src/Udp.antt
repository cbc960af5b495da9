-- ===== src/Udp.antt =====
-- udp/: what a server does with a request that it has decoded, and the error bodies of its replies
-- (errorcode.go, router.go, ep0.go). The sockets, and the clients that dial them, are not part of the model.
pub mod Answered
pub mod Served
mod Tests
use go_rcp.Base.{
  ℕ, Bool, true, false, not, Option, none, some, List, [], ◌∷◌, length, bit_and, bit_or, ◌==◌, ◌!=◌,
  if◌then◌else◌, Error, Result, ok, err, udp_unknown_endpoint, udp_duplicate_endpoint,
  udp_reserved_address, udp_wrong_endpoint, udp_must_read_or_write, udp_short_buffer, signal_lost,
  evt_reserved, evt_missing_payload, safe_state_not_configured, invalid_segment_count,
  chained_segment_failed, unknown_ticket, ticket_cancelled, purged_by_watchdog, crc_mismatch,
  access_denied, not_root_client, root_already_claimed, register_locked, general_block_read_only,
  unknown_endpoint, discovery_requires_untimed_header, discovery_request_is_acf_gbb,
}
use go_rcp.Base.Assoc.{lookup, insert, delete, nat_eq}
use go_rcp.Avtp.{StreamId, Header, Disposition, drop_frame, disposition}
use go_rcp.Acf.{
  Message, no_message, has, flag_read, flag_write, flag_response, flag_error, kind_long,
}
use go_rcp.Acf.Evt.{check_evt_payload_presence}
use go_rcp.Regmap.{ep0}
use go_rcp.Server.{Server, write_ep0}
use go_rcp.Server.Reads.{handle_discovery_request}

-- The byte of an `ErrorCode`, by the error that it stands for.
abbrev pub error_code_for : Error → ℕ
error_code_for udp_unknown_endpoint = 1
error_code_for evt_reserved = 1
error_code_for evt_missing_payload = 1
error_code_for safe_state_not_configured = 1
error_code_for invalid_segment_count = 17
error_code_for chained_segment_failed = 16
error_code_for unknown_ticket = 6
error_code_for ticket_cancelled = 5
error_code_for purged_by_watchdog = 5
error_code_for crc_mismatch = 12
error_code_for access_denied = 3
error_code_for not_root_client = 3
error_code_for root_already_claimed = 3
error_code_for register_locked = 4
error_code_for general_block_read_only = 4
error_code_for unknown_endpoint = 8
error_code_for signal_lost = 9
error_code_for _ = 15

pub encode_error_body : ℕ → List ℕ → List ℕ
encode_error_body code diagnostic = code ∷ diagnostic

pub decode_error_body : List ℕ → Result (ℕ × List ℕ)
decode_error_body [] = err udp_short_buffer
decode_error_body (code ∷ diagnostic) = ok (code, diagnostic)

abbrev pub kept_flags : Message → ℕ
kept_flags req = bit_and req.control (bit_or flag_read flag_write)

abbrev pub response_for : Message → List ℕ → Message
response_for req body = record no_message {
  kind = req.kind;
  byte_bus_id = req.byte_bus_id;
  transaction_num = req.transaction_num;
  control = bit_or flag_response (kept_flags req);
  body = body;
}

unfoldable pub handle_ep0 : Server → Header → Message → Result Message × Server
handle_ep0 s hdr req =
    if req.byte_bus_id != ep0
    then (err udp_wrong_endpoint, s)
    else if has req.control flag_write
    then (let out = write_ep0 s hdr.stream_id req.body in
        (elim out.0 [ some e ↦ err e | none ↦ ok (response_for req []) ], out.1))
    else if has req.control flag_read
    then (
      (elim (handle_discovery_request s hdr (req.kind == kind_long)) [
        | err e ↦ err e
        | ok body ↦ ok (response_for req body)
      ]),
      s,
    )
    else (err udp_must_read_or_write, s)

-- `err.Error()`, the text of an error, is the argument `text`.
abbrev pub error_response : (Error → List ℕ) → Message → Error → Message
error_response text req e = record no_message {
  kind = req.kind;
  byte_bus_id = req.byte_bus_id;
  transaction_num = req.transaction_num;
  control = bit_or (bit_or flag_response flag_error) (kept_flags req);
  body = encode_error_body (error_code_for e) (text e);
}

-- The `errors.Is` tests of `Route`.
abbrev pub is_dropped : Error → Bool
is_dropped discovery_requires_untimed_header = true
is_dropped discovery_request_is_acf_gbb = true
is_dropped _ = false

-- What is sent for an answer of a handler.
abbrev pub reply : (Error → List ℕ) → Message → Result Message → Option Message
reply text req (ok m) = some m
reply text req (err e) = if is_dropped e then none else some (error_response text req e)

-- The handlers are the caller's code: functions on a state of the world.
pub record Router (World : Type 0) : Type 0 where
  pub ep0_handler : World → Header → Message → Result Message × World
  pub time_sync_supported : Bool
  pub handlers : List (ℕ × (World → StreamId → Message → Result Message × World))

module _ {World : Type 0} where
  unfoldable pub new_router :
      (World → Header → Message → Result Message × World) → Bool → Router World
  new_router ep0_handler time_sync_supported = record {
    ep0_handler = ep0_handler;
    time_sync_supported = time_sync_supported;
    handlers = [];
  }

  unfoldable pub register :
      Router World
      → ℕ
      → (World → StreamId → Message → Result Message × World)
      → Option Error × Router World
  register r addr handler =
      if addr == ep0 then (some udp_reserved_address, r) else elim (lookup addr r.handlers) [
        | some h ↦ (some udp_duplicate_endpoint, r)
        | none ↦ (none, record r { handlers = insert addr handler r.handlers })
      ]

  pub deregister : Router World → ℕ → Router World
  deregister r addr = record r { handlers = delete addr r.handlers }

  -- The handler that a request goes to.
  unfoldable pub dispatch : Router World → World → Header → Message → Result Message × World
  dispatch r w hdr req =
      if req.byte_bus_id == ep0
      then r.ep0_handler w hdr req
      else elim (lookup req.byte_bus_id r.handlers) [
        | none ↦ (err udp_unknown_endpoint, w)
        | some h ↦ h w hdr.stream_id req
      ]

  -- No message is the answer that is not sent.
  unfoldable pub route :
      Router World → (Error → List ℕ) → World → Header → Message → Option Message × World
  route r text w hdr req = elim (disposition hdr r.time_sync_supported) [
    | drop_frame ↦ (none, w)
    | _ ↦ elim (check_evt_payload_presence req.evt (length req.body)) [
      | err e ↦ (some (error_response text req e), w)
      | ok _ ↦ let out = dispatch r w hdr req in (reply text req out.0, out.1)
    ]
  ]
