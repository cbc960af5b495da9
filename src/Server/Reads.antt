-- ===== src/Server/Reads.antt =====
-- server/server.go and server/discovery.go: what a server reads back of its register map, and the
-- configuration requests of its endpoints. An endpoint is a state of the caller with its `encode` and
-- `adopt` callbacks.
use go_rcp.Base.{
  ℕ, ◌+◌, Bool, not, Option, none, some, List, [], length, take, drop, ltb, leb, ◌&&◌,
  if◌then◌else◌, Error, Result, ok, err, ◌>>◌, reject_if, access_denied, unknown_endpoint,
  discovery_requires_untimed_header, discovery_request_is_acf_gbb,
}
use go_rcp.Avtp.{StreamId, Header}
use go_rcp.Acf.{Message, has, flag_write}
use go_rcp.Acf.Evt.{decode_config_request_body}
use go_rcp.Regmap.{can_access, endpoint, ep0}
use go_rcp.Regmap.Codec.{encode_endpoint, encode_register_map}
use go_rcp.Server.{Server, write_functional, patch}

unfoldable pub read_endpoint : Server → StreamId → ℕ → Result (List ℕ)
unfolding encode_endpoint
read_endpoint s requester addr = do
  reject_if (not (can_access s.access requester addr)) access_denied
  elim (endpoint s.rmap addr) [ none ↦ err unknown_endpoint | some ep ↦ ok (encode_endpoint ep) ]

pub read_ep0 : Server → StreamId → Result (List ℕ)
read_ep0 s requester = do
  reject_if (not (can_access s.access requester ep0)) access_denied
  ok (encode_register_map s.rmap)

unfoldable pub read_discovery : Server → List ℕ
read_discovery s = encode_register_map s.rmap

unfoldable pub handle_discovery_request : Server → Header → Bool → Result (List ℕ)
unfolding read_discovery
handle_discovery_request s hdr is_acf_gbb = do
  reject_if hdr.timed discovery_requires_untimed_header
  reject_if is_acf_gbb discovery_request_is_acf_gbb
  ok (read_discovery s)

-- What a read of `size` bytes from `start_addr` on gives.
unfoldable pub read_config : List ℕ → ℕ → ℕ → List ℕ
read_config current start_addr size =
    if leb (length current) start_addr
    then []
    else if ltb 0 size && ltb size (length (drop start_addr current))
    then take size (drop start_addr current)
    else drop start_addr current

module _ {ℓ} {E : Type ℓ} (encode : E → List ℕ) (adopt : E → List ℕ → Option Error × E) where
  -- Once the endpoint has adopted the patched block: it is written to the map, or the block in effect
  -- before is adopted again.
  unfoldable pub persist :
      Server → StreamId → ℕ → E → List ℕ → List ℕ → Result (List ℕ) × E × Server
  persist s requester addr adopted current patched =
      let written = write_functional s requester addr patched in
      elim written.0 [
        | none ↦ (ok [], adopted, written.1)
        | some e ↦ (err e, (adopt adopted current).1, written.1)
      ]

  unfoldable pub write_config :
      Server → StreamId → ℕ → E → ℕ → List ℕ → Result (List ℕ) × E × Server
  write_config s requester addr ep start_addr data_bytes =
      let current = encode ep in
      let patched = patch current start_addr data_bytes in
      let tried = adopt ep patched in
      if ltb (length current) (start_addr + length data_bytes)
      then (ok [], ep, s)
      else elim tried.0 [
        | none ↦ persist s requester addr tried.1 current patched
        | some e ↦ (err e, tried.1, s)
      ]

  unfoldable pub apply_config_request :
      Server → StreamId → ℕ → E → Message → Result (List ℕ) × E × Server
  apply_config_request s requester addr ep req = elim (decode_config_request_body req.body) [
    | ok body ↦
        if has req.control flag_write
        then write_config s requester addr ep body.0 body.1
        else (ok (read_config (encode ep) body.0 req.read_size_or_segment), ep, s)
    | err e ↦ (err e, ep, s)
  ]
