-- ===== src/Regmap/Codec/Tests.antt =====
-- Two endpoints, one of them without functional configuration.
use go_rcp.Base.{ℕ, refl, List, ◌≡◌, true, false, [], ◌∷◌, ok, arith}
use go_rcp.Regmap.{EndpointRegisters, RegisterMap, new_register_map}
use go_rcp.Base.Assoc.{lookup, nat_eq}
use go_rcp.Base.Bytes.{put_be}
use go_rcp.Regmap.Codec.{
  encode_pin_map, encode_pins, addresses, insert_address, placed_general, encode_register_map,
  decode_register_map,
}
use go_rcp.Regmap.Codec.Whole.{IsMap, decode_register_map-encode_register_map}
use go_rcp.Regmap.Codec.RoundTrip.{IsEndpoint}

abbrev gpio : EndpointRegisters
gpio = record {
  generic = record { address = 5; endpoint_type = 1; enabled = true };
  functional = 7 ∷ 9 ∷ [];
}

abbrev disabled : EndpointRegisters
disabled = record {
  generic = record { address = 6; endpoint_type = 2; enabled = false };
  functional = [];
}

gpio-IsEndpoint : IsEndpoint gpio
gpio-IsEndpoint = record {
  address = omega arith;
  endpoint_type = omega arith;
  functional = omega arith;
}

disabled-IsEndpoint : IsEndpoint disabled
disabled-IsEndpoint = record {
  address = omega arith;
  endpoint_type = omega arith;
  functional = omega arith;
}

abbrev two_endpoints : RegisterMap
two_endpoints = record new_register_map {
  pin_map = record { pin = 3; endpoint = 5; signal_index = 0 } ∷ [];
  streams = record { max_request_streams = 4; max_in_flight_per_stream = 16 };
  queues = record { flush_threshold = 1; flush_time_millis = 20; heartbeat_interval_millis = 1000 };
  endpoints = (6, disabled) ∷ (5, gpio) ∷ [];
}

two_endpoints-IsMap : IsMap two_endpoints
unfolding encode_pin_map encode_pins put_be
two_endpoints-IsMap = record {
  general = omega arith;
  pins = omega arith;
  once = omega arith;
  max_request_streams = omega arith;
  max_in_flight_per_stream = omega arith;
  flush_threshold = omega arith;
  flush_time_millis = omega arith;
  heartbeat_interval_millis = omega arith;
  table = ((refl, disabled-IsEndpoint), ((refl, gpio-IsEndpoint), tt));
  count = omega arith;
  placed = omega arith;
}

-- The endpoint table is written in the order of the addresses.
sorted : addresses two_endpoints.endpoints ≡ 5 ∷ 6 ∷ []
unfolding addresses insert_address
sorted = refl

decode_register_map-encode_register_map_example :
    (out : List (ℕ × EndpointRegisters)) × (decode_register_map (encode_register_map two_endpoints)
      ≡ ok (record two_endpoints { general = placed_general two_endpoints; endpoints = out }))
    × ((k : ℕ) → lookup k out ≡ lookup k two_endpoints.endpoints)
decode_register_map-encode_register_map_example =
    decode_register_map-encode_register_map two_endpoints two_endpoints-IsMap
