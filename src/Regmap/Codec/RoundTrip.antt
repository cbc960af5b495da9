-- ===== src/Regmap/Codec/RoundTrip.antt =====
-- The endpoints of a register map are read back from their bytes.
use go_rcp.Base.{
  ℕ, ◌^◌, ◌<◌, ◌≡◌, refl, List, [], ◌∷◌, ◌++◌, append_assoc, length, take-append, drop-append,
  length-append, All, ok, arith,
}
use go_rcp.Base.Assoc.{insert, nat_eq}
use go_rcp.Base.Bytes.{put_be, get_be-put_be}
use go_rcp.Regmap.{GenericEndpointBlock, EndpointRegisters, endpoint_type_count}
use go_rcp.Regmap.Codec.{
  encode_generic_endpoint_block, decode_generic_endpoint_block, encode_functional_block,
  decode_functional_block, encode_endpoint, decode_entries,
}

-- An endpoint whose fields fit their bytes; the address takes one of them.
pub record IsEndpoint (ep : EndpointRegisters) : Type 0 where
  pub address : ep.generic.address < 256
  pub endpoint_type : ep.generic.endpoint_type < endpoint_type_count
  pub functional : length ep.functional < 2 ^ 16

unfoldable pub encode_endpoints : List EndpointRegisters → List ℕ
encode_endpoints [] = []
encode_endpoints (ep ∷ eps) = encode_endpoint ep ++ encode_endpoints eps

-- The endpoints in a map, in place of those that it has under their addresses.
abbrev pub declared :
    List EndpointRegisters → List (ℕ × EndpointRegisters) → List (ℕ × EndpointRegisters)
declared [] out = out
declared (ep ∷ eps) out = declared eps (insert ep.generic.address ep out)

decode_generic-encode_generic :
    (g : GenericEndpointBlock) (rest : List ℕ)
    → g.address < 256
    → g.endpoint_type < endpoint_type_count
    → decode_generic_endpoint_block (encode_generic_endpoint_block g ++ rest) ≡ ok (g, rest)
unfolding decode_generic_endpoint_block encode_generic_endpoint_block
decode_generic-encode_generic g rest a t = ground (arith, a, t)

decode_functional-encode_functional :
    (data_bytes rest : List ℕ)
    → length data_bytes < 2 ^ 16
    → decode_functional_block (encode_functional_block data_bytes ++ rest) ≡ ok (data_bytes, rest)
unfolding decode_functional_block encode_functional_block put_be
decode_functional-encode_functional data_bytes rest h =
    let n = get_be-put_be 2 (length data_bytes) (omega (arith, h)) in
    let front = take-append data_bytes rest (length data_bytes) refl in
    let back = drop-append data_bytes rest (length data_bytes) refl in
    ground (arith, n, front, back, length-append data_bytes rest)

-- Endpoints whose fields fit are read back, each under its address, and what follows them is left.
pub decode_entries-encode_endpoints :
    (eps : List EndpointRegisters) (out : List (ℕ × EndpointRegisters)) (rest : List ℕ)
    → All IsEndpoint eps
    → decode_entries (length eps) out (encode_endpoints eps ++ rest) ≡ ok (declared eps out, rest)
unfolding decode_entries encode_endpoints encode_endpoint
decode_entries-encode_endpoints [] out rest tt = refl
decode_entries-encode_endpoints (ep ∷ eps) out rest (h, hs) =
    let tail = encode_endpoints eps ++ rest in
    rw
      (
        append_assoc (encode_endpoint ep) (encode_endpoints eps) rest,
        append_assoc (encode_generic_endpoint_block ep.generic)
            (encode_functional_block ep.functional) tail,
        decode_generic-encode_generic ep.generic (encode_functional_block ep.functional ++ tail)
            h.address h.endpoint_type,
        decode_functional-encode_functional ep.functional tail h.functional,
      )
      (decode_entries-encode_endpoints eps (insert ep.generic.address ep out) rest hs)
