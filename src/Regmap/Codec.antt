-- ===== src/Regmap/Codec.antt =====
-- regmap/registermap.go: the bytes of the register map and of its blocks.
pub mod RoundTrip
pub mod Pins
pub mod General
pub mod Table
pub mod Whole
mod Tests
use go_rcp.Base.{
  ℕ, zero, suc, ◌+◌, ◌-◌, ◌*◌, ◌%◌, ◌^◌, Bool, true, false, not, ◌&&◌, ◌||◌, Option, none, some,
  List, [], ◌∷◌, ◌++◌, length, take, drop, get_or, ltb, leb, ◌==◌, ◌!=◌, if◌then◌else◌, Result, ok,
  err, ◌>>=◌, ◌>>◌, reject_if, map_short_buffer, unknown_endpoint_type,
  unsupported_register_map_version, bad_magic, map_trailing_bytes,
}
use go_rcp.Base.Assoc.{lookup, insert, nat_eq}
use go_rcp.Base.Bytes.{put_be, get_be}
use go_rcp.Regmap.{
  endpoint_type_count, PinAssignment, set_pin, StreamLimits, QueueConfig, GeneralBlock,
  GenericEndpointBlock, EndpointRegisters, general_block_magic, register_map_version, RegisterMap,
}

abbrev pub general_block_len : ℕ
general_block_len = 48

unfoldable pub encode_general_block : GeneralBlock → List ℕ
encode_general_block g =
    put_be 4 g.magic
    ++ (put_be 4 g.protocol_version
        ++ (put_be 2 g.vendor_id
            ++ (put_be 2 g.device_id
                ++ (put_be 2 g.num_endpoints
                    ++ ((g.max_request_streams % 256 ∷ [])
                        ++ ((g.max_responder_streams % 256 ∷ [])
                            ++ (put_be 2 g.max_responder_queue_words
                                ++ (put_be 2 g.max_request_queue_words
                                    ++ ((g.num_sequencer_states % 256 ∷ [])
                                        ++ ((g.config_lock % 256 ∷ [])
                                            ++ ((g.options % 256 ∷ [])
                                                ++ ((g.reserved0 % 256 ∷ [])
                                                    ++ (put_be 2 g.num_io_pins
                                                        ++ (put_be 2 g.hw_config_pointer
                                                            ++ ((g.max_configurable_request_streams
                                                            % 256
                                                            ∷ [])
                                                            ++ ((g.max_configurable_response_streams
                                                            % 256
                                                            ∷ [])
                                                            ++ (put_be 2 g.client_config_pointer
                                                            ++ (put_be 2 g.queue_config_pointer
                                                            ++ (put_be 2 g.reserved1
                                                            ++ (put_be 2 g.endpoint_config_pointer
                                                            ++ (put_be 2 g.endpoint_config_length
                                                            ++ (put_be 2 g.endpoint_map_pointer
                                                            ++ ((g.endpoint_map_max_entries % 256
                                                            ∷ [])
                                                            ++ ((g.reserved2 % 256 ∷ [])
                                                            ++ (put_be 2
                                                            g.endpoint_functional_config_pointer
                                                            ++ (put_be 2
                                                            g.sequencer_state_map_pointer))))))))))))))))))))))))))

abbrev pub general_block_at : List ℕ → GeneralBlock
general_block_at b = record {
  magic = get_be (take 4 (drop 0 b));
  protocol_version = get_be (take 4 (drop 4 b));
  vendor_id = get_be (take 2 (drop 8 b));
  device_id = get_be (take 2 (drop 10 b));
  num_endpoints = get_be (take 2 (drop 12 b));
  max_request_streams = get_or b 14 0;
  max_responder_streams = get_or b 15 0;
  max_responder_queue_words = get_be (take 2 (drop 16 b));
  max_request_queue_words = get_be (take 2 (drop 18 b));
  num_sequencer_states = get_or b 20 0;
  config_lock = get_or b 21 0;
  options = get_or b 22 0;
  reserved0 = get_or b 23 0;
  num_io_pins = get_be (take 2 (drop 24 b));
  hw_config_pointer = get_be (take 2 (drop 26 b));
  max_configurable_request_streams = get_or b 28 0;
  max_configurable_response_streams = get_or b 29 0;
  client_config_pointer = get_be (take 2 (drop 30 b));
  queue_config_pointer = get_be (take 2 (drop 32 b));
  reserved1 = get_be (take 2 (drop 34 b));
  endpoint_config_pointer = get_be (take 2 (drop 36 b));
  endpoint_config_length = get_be (take 2 (drop 38 b));
  endpoint_map_pointer = get_be (take 2 (drop 40 b));
  endpoint_map_max_entries = get_or b 42 0;
  reserved2 = get_or b 43 0;
  endpoint_functional_config_pointer = get_be (take 2 (drop 44 b));
  sequencer_state_map_pointer = get_be (take 2 (drop 46 b));
}

unfoldable pub decode_general_block : List ℕ → Result (GeneralBlock × List ℕ)
decode_general_block b = do
  reject_if (ltb (length b) general_block_len) map_short_buffer
  reject_if (get_be (take 4 (drop 0 b)) != general_block_magic) bad_magic
  ok (general_block_at b, drop general_block_len b)

abbrev generic_endpoint_block_len : ℕ
generic_endpoint_block_len = 3

unfoldable pub encode_generic_endpoint_block : GenericEndpointBlock → List ℕ
encode_generic_endpoint_block g =
    g.address % 256 ∷ (g.endpoint_type % 256 ∷ ((if g.enabled then 1 else 0) ∷ []))

unfoldable pub decode_generic_endpoint_block : List ℕ → Result (GenericEndpointBlock × List ℕ)
decode_generic_endpoint_block b = do
  reject_if (ltb (length b) generic_endpoint_block_len) map_short_buffer
  reject_if (leb endpoint_type_count (get_or b 1 0)) unknown_endpoint_type
  ok (
    record { address = get_or b 0 0; endpoint_type = get_or b 1 0; enabled = get_or b 2 0 != 0 },
    drop generic_endpoint_block_len b,
  )

unfoldable pub encode_functional_block : List ℕ → List ℕ
encode_functional_block data_bytes = put_be 2 (length data_bytes) ++ data_bytes

unfoldable pub decode_functional_block : List ℕ → Result (List ℕ × List ℕ)
decode_functional_block b = do
  reject_if (ltb (length b) 2) map_short_buffer
  reject_if (ltb (length b) (2 + get_be (take 2 b))) map_short_buffer
  ok (take (get_be (take 2 b)) (drop 2 b), drop (2 + get_be (take 2 b)) b)

-- `EndpointRegisters.Encode`
unfoldable pub encode_endpoint : EndpointRegisters → List ℕ
unfolding encode_generic_endpoint_block encode_functional_block
encode_endpoint ep =
    encode_generic_endpoint_block ep.generic ++ encode_functional_block ep.functional

-- `Addresses`: the keys in ascending order.
unfoldable insert_address : ℕ → List ℕ → List ℕ
insert_address addr [] = addr ∷ []
insert_address addr (a ∷ addrs) =
    let rest = insert_address addr addrs in if ltb addr a then addr ∷ (a ∷ addrs) else a ∷ rest

pub addresses : List (ℕ × EndpointRegisters) → List ℕ
unfolding insert_address
addresses [] = []
addresses ((addr, ep) ∷ rest) = insert_address addr (addresses rest)

pub encode_entries : RegisterMap → List ℕ → List ℕ
unfolding encode_endpoint
encode_entries m [] = []
encode_entries m (addr ∷ addrs) = elim (lookup addr m.endpoints) [
  | none ↦ encode_entries m addrs
  | some ep ↦ encode_endpoint ep ++ encode_entries m addrs
]

unfoldable pub encode_endpoint_table : RegisterMap → List ℕ
unfolding encode_entries addresses
encode_endpoint_table m =
    let addrs = addresses m.endpoints in put_be 2 (length addrs) ++ encode_entries m addrs

-- `n` rounds of the loop, from the endpoints found so far.
unfoldable pub decode_entries :
    ℕ → List (ℕ × EndpointRegisters) → List ℕ → Result (List (ℕ × EndpointRegisters) × List ℕ)
decode_entries zero out b = ok (out, b)
decode_entries (suc n) out b = do
  (generic, tail) ← decode_generic_endpoint_block b
  (functional, tail2) ← decode_functional_block tail
  decode_entries n
      (insert generic.address (record { generic = generic; functional = functional }) out) tail2

unfoldable pub decode_endpoint_table : List ℕ → Result (List (ℕ × EndpointRegisters))
decode_endpoint_table b = do
  reject_if (ltb (length b) 2) map_short_buffer
  (out, rest) ← decode_entries (get_be (take 2 b)) [] (drop 2 b)
  reject_if (length rest != 0) map_trailing_bytes
  ok out

unfoldable pub encode_pins : List PinAssignment → List ℕ
encode_pins [] = []
encode_pins (a ∷ entries) =
    put_be 2 a.pin ++ (a.endpoint % 256 ∷ (a.signal_index % 256 ∷ encode_pins entries))

unfoldable pub encode_pin_map : List PinAssignment → List ℕ
encode_pin_map entries = put_be 2 (length entries) ++ encode_pins entries

-- `n` rounds of the loop.
unfoldable pub decode_pins : ℕ → List PinAssignment → List ℕ → List PinAssignment
decode_pins zero p b = p
decode_pins (suc n) p b =
    decode_pins n
      (set_pin p
        (record { pin = get_be (take 2 b); endpoint = get_or b 2 0; signal_index = get_or b 3 0 }))
      (drop 4 b)

unfoldable pub decode_pin_map : List ℕ → Result (List PinAssignment)
decode_pin_map b = do
  reject_if (ltb (length b) 2) map_short_buffer
  reject_if (length b != 2 + 4 * get_be (take 2 b)) map_short_buffer
  ok (decode_pins (get_be (take 2 b)) [] (drop 2 b))

abbrev stream_limits_len : ℕ
stream_limits_len = 3

unfoldable pub encode_stream_limits : StreamLimits → List ℕ
encode_stream_limits s = s.max_request_streams % 256 ∷ put_be 2 s.max_in_flight_per_stream

unfoldable pub decode_stream_limits : List ℕ → Result StreamLimits
decode_stream_limits b = do
  reject_if (length b != stream_limits_len) map_short_buffer
  ok (record {
    max_request_streams = get_or b 0 0;
    max_in_flight_per_stream = get_be (take 2 (drop 1 b));
  })

abbrev queue_config_len : ℕ
queue_config_len = 10

unfoldable pub encode_queue_config : QueueConfig → List ℕ
encode_queue_config q =
    put_be 2 q.flush_threshold
    ++ (put_be 4 q.flush_time_millis ++ put_be 4 q.heartbeat_interval_millis)

unfoldable pub decode_queue_config : List ℕ → Result QueueConfig
decode_queue_config b = do
  reject_if (length b != queue_config_len) map_short_buffer
  ok (record {
    flush_threshold = get_be (take 2 b);
    flush_time_millis = get_be (take 4 (drop 2 b));
    heartbeat_interval_millis = get_be (take 4 (drop 6 b));
  })

-- The general block that `EncodeRegisterMap` writes; the pointers are uint16 and wrap.
abbrev pub placed_general : RegisterMap → GeneralBlock
placed_general m =
    let pins = general_block_len + length (encode_pin_map m.pin_map) in
    let streams = pins + length (encode_stream_limits m.streams) in
    let queues = streams + length (encode_queue_config m.queues) in
    record m.general {
      magic = general_block_magic;
      protocol_version = register_map_version;
      num_endpoints = length (addresses m.endpoints) % 2 ^ 16;
      max_request_streams = m.streams.max_request_streams;
      hw_config_pointer = general_block_len;
      client_config_pointer = pins % 2 ^ 16;
      queue_config_pointer = streams % 2 ^ 16;
      endpoint_config_pointer = queues % 2 ^ 16;
      endpoint_config_length = length (encode_endpoint_table m) % 2 ^ 16;
    }

unfoldable pub encode_register_map : RegisterMap → List ℕ
unfolding encode_general_block encode_endpoint_table addresses
encode_register_map m =
    encode_general_block (placed_general m)
    ++ (encode_pin_map m.pin_map
        ++ (encode_stream_limits m.streams
            ++ (encode_queue_config m.queues ++ encode_endpoint_table m)))

-- `b[p:q]`
abbrev pub section : List ℕ → ℕ → ℕ → List ℕ
section b p q = take (q - p) (drop p b)

unfoldable pub decode_register_map : List ℕ → Result RegisterMap
unfolding decode_general_block
decode_register_map b = do
  (general, rest) ← decode_general_block b
  reject_if (general.protocol_version != register_map_version) unsupported_register_map_version
  reject_if
      (not (
        leb general_block_len general.hw_config_pointer
        && (leb general.hw_config_pointer general.client_config_pointer
            && (leb general.client_config_pointer general.queue_config_pointer
                && (leb general.queue_config_pointer general.endpoint_config_pointer
                    && leb general.endpoint_config_pointer (length b))))))
      map_short_buffer
  pin_map ← decode_pin_map (section b general.hw_config_pointer general.client_config_pointer)
  streams ←
      decode_stream_limits (section b general.client_config_pointer general.queue_config_pointer)
  queues ←
      decode_queue_config (section b general.queue_config_pointer general.endpoint_config_pointer)
  endpoints ← decode_endpoint_table (drop general.endpoint_config_pointer b)
  ok (record {
    general = general;
    pin_map = pin_map;
    streams = streams;
    queues = queues;
    endpoints = endpoints;
  })
