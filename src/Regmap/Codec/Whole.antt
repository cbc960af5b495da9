-- ===== src/Regmap/Codec/Whole.antt =====
-- A whole register map is read back from its bytes.
use go_rcp.Base.{
  ℕ, ◌+◌, ◌-◌, ◌*◌, ◌^◌, ◌<◌, ◌≤◌, ◌≡◌, refl, ap, ◌∙◌, sym, false, not, ◌&&◌, List, ◌++◌,
  append_assoc, length, drop, take-append, drop-append, length-append, leb, ◌!=◌, All, ok, arith,
}
use go_rcp.Base.Assoc.{lookup, nat_eq}
use go_rcp.Base.Bytes.{put_be, get_be-put_be}
use go_rcp.Regmap.{register_map_version, StreamLimits, QueueConfig, EndpointRegisters, RegisterMap}
use go_rcp.Regmap.Codec.{
  encode_general_block, decode_general_block, encode_pin_map, decode_pin_map, encode_stream_limits,
  decode_stream_limits, encode_queue_config, decode_queue_config, encode_endpoint_table,
  decode_endpoint_table, placed_general, encode_register_map, section, decode_register_map,
}
use go_rcp.Regmap.Codec.General.{
  IsGeneral, length-encode_general_block, decode_general_block-encode_general_block,
}
use go_rcp.Regmap.Codec.Pins.{IsPin, AllFree, length-encode_pins, decode_pin_map-encode_pin_map}
use go_rcp.Regmap.Codec.Table.{IsTable, decode_endpoint_table-encode_endpoint_table}

section-at :
    (b xs ys zs : List ℕ) (p q : ℕ)
    → b ≡ xs ++ (ys ++ zs)
    → length xs ≡ p
    → q ≡ p + length ys
    → section b p q ≡ ys
section-at b xs ys zs p q parts start stop =
    rw (parts, drop-append xs (ys ++ zs) p start) (take-append ys zs (q - p) (omega (arith, stop)))

-- A register map within the widths of its Go types and of its wire format: the endpoints stand under
-- addresses of one byte, each pin has one assignment, and the sections in front of the endpoint table end
-- below 2^16.
pub record IsMap (m : RegisterMap) : Type 0 where
  pub general : IsGeneral m.general
  pub pins : All IsPin m.pin_map
  pub once : AllFree m.pin_map
  pub max_request_streams : m.streams.max_request_streams < 2 ^ 8
  pub max_in_flight_per_stream : m.streams.max_in_flight_per_stream < 2 ^ 16
  pub flush_threshold : m.queues.flush_threshold < 2 ^ 16
  pub flush_time_millis : m.queues.flush_time_millis < 2 ^ 32
  pub heartbeat_interval_millis : m.queues.heartbeat_interval_millis < 2 ^ 32
  pub table : IsTable m.endpoints
  pub count : length m.endpoints < 2 ^ 16
  pub placed : 61 + length (encode_pin_map m.pin_map) < 2 ^ 16

decode_stream_limits-encode_stream_limits :
    (s : StreamLimits)
    → s.max_request_streams < 2 ^ 8
    → s.max_in_flight_per_stream < 2 ^ 16
    → decode_stream_limits (encode_stream_limits s) ≡ ok s
unfolding decode_stream_limits encode_stream_limits put_be
decode_stream_limits-encode_stream_limits s a b =
    ground (arith, a, get_be-put_be 2 s.max_in_flight_per_stream (omega (arith, b)))

decode_queue_config-encode_queue_config :
    (q : QueueConfig)
    → q.flush_threshold < 2 ^ 16
    → q.flush_time_millis < 2 ^ 32
    → q.heartbeat_interval_millis < 2 ^ 32
    → decode_queue_config (encode_queue_config q) ≡ ok q
unfolding decode_queue_config encode_queue_config put_be
decode_queue_config-encode_queue_config q a b c = ground (
  arith,
  get_be-put_be 2 q.flush_threshold (omega (arith, a)),
  get_be-put_be 4 q.flush_time_millis (omega (arith, b)),
  get_be-put_be 4 q.heartbeat_interval_millis (omega (arith, c)),
)

-- The order that is asked of the pointers, and their end.
in_order :
    (p1 p2 p3 p4 n : ℕ)
    → 48 ≤ p1
    → p1 ≤ p2
    → p2 ≤ p3
    → p3 ≤ p4
    → p4 ≤ n
    → not (leb 48 p1 && (leb p1 p2 && (leb p2 p3 && (leb p3 p4 && leb p4 n)))) ≡ false
in_order p1 p2 p3 p4 n h1 h2 h3 h4 h5 = ground arith

-- The sections of a buffer are read one by one.
decode_register_map-at :
    (b rest : List ℕ) (m : RegisterMap)
    → decode_general_block b ≡ ok (m.general, rest)
    → m.general.protocol_version ≡ register_map_version
    → (48 ≤ m.general.hw_config_pointer)
      × (m.general.hw_config_pointer ≤ m.general.client_config_pointer)
      × (m.general.client_config_pointer ≤ m.general.queue_config_pointer)
      × (m.general.queue_config_pointer ≤ m.general.endpoint_config_pointer)
      × (m.general.endpoint_config_pointer ≤ length b)
    → decode_pin_map (section b m.general.hw_config_pointer m.general.client_config_pointer)
      ≡ ok m.pin_map
    → decode_stream_limits
        (section b m.general.client_config_pointer m.general.queue_config_pointer)
      ≡ ok m.streams
    → decode_queue_config
        (section b m.general.queue_config_pointer m.general.endpoint_config_pointer)
      ≡ ok m.queues
    → decode_endpoint_table (drop m.general.endpoint_config_pointer b) ≡ ok m.endpoints
    → decode_register_map b ≡ ok m
unfolding decode_register_map
decode_register_map-at b rest m g v order p s q e =
    let version : (m.general.protocol_version != register_map_version) ≡ false =
      ground (arith, v) in
    let inside =
      in_order m.general.hw_config_pointer m.general.client_config_pointer
        m.general.queue_config_pointer m.general.endpoint_config_pointer (length b) order.0 order.1
        order.2 order.3 order.4 in
    rw (decode_register_map, g, version, inside, p, s, q, e) refl

-- The pointers that are written do not wrap, and each section starts where the one before ends.
pointers :
    (m : RegisterMap)
    → IsMap m
    → let g = placed_general m in
      (g.client_config_pointer ≡ 48 + length (encode_pin_map m.pin_map))
      × (g.queue_config_pointer ≡ g.client_config_pointer + 3)
      × (g.endpoint_config_pointer ≡ g.queue_config_pointer + 10)
unfolding encode_stream_limits encode_queue_config put_be
pointers m h = omega (arith, h.placed)

length_sections :
    (m : RegisterMap)
    → (length (encode_pin_map m.pin_map) ≡ 2 + 4 * length m.pin_map)
      × (length (encode_stream_limits m.streams) ≡ 3)
      × (length (encode_queue_config m.queues) ≡ 10)
unfolding encode_pin_map encode_stream_limits encode_queue_config put_be
length_sections m = (omega (arith, length-encode_pins m.pin_map), refl, refl)

placed_general-IsGeneral : (m : RegisterMap) → IsMap m → IsGeneral (placed_general m)
placed_general-IsGeneral m h = record {
  magic = omega arith;
  protocol_version = omega arith;
  vendor_id = h.general.vendor_id;
  device_id = h.general.device_id;
  num_endpoints = omega arith;
  max_request_streams = h.max_request_streams;
  max_responder_streams = h.general.max_responder_streams;
  max_responder_queue_words = h.general.max_responder_queue_words;
  max_request_queue_words = h.general.max_request_queue_words;
  num_sequencer_states = h.general.num_sequencer_states;
  config_lock = h.general.config_lock;
  options = h.general.options;
  reserved0 = h.general.reserved0;
  num_io_pins = h.general.num_io_pins;
  hw_config_pointer = omega arith;
  max_configurable_request_streams = h.general.max_configurable_request_streams;
  max_configurable_response_streams = h.general.max_configurable_response_streams;
  client_config_pointer = omega arith;
  queue_config_pointer = omega arith;
  reserved1 = h.general.reserved1;
  endpoint_config_pointer = omega arith;
  endpoint_config_length = omega arith;
  endpoint_map_pointer = h.general.endpoint_map_pointer;
  endpoint_map_max_entries = h.general.endpoint_map_max_entries;
  reserved2 = h.general.reserved2;
  endpoint_functional_config_pointer = h.general.endpoint_functional_config_pointer;
  sequencer_state_map_pointer = h.general.sequencer_state_map_pointer;
}

decoded_front :
    (m : RegisterMap)
    → IsMap m
    → decode_general_block (encode_register_map m)
      ≡ ok (placed_general m, drop 48 (encode_register_map m))
unfolding encode_register_map
decoded_front m h =
    let g = placed_general m in
    let rest =
      encode_pin_map m.pin_map
      ++ (encode_stream_limits m.streams
          ++ (encode_queue_config m.queues ++ encode_endpoint_table m)) in
    decode_general_block-encode_general_block g rest (placed_general-IsGeneral m h) refl
    ∙ ap (λ (r : List ℕ). ok (g, r))
        (sym (drop-append (encode_general_block g) rest 48 (length-encode_general_block g)))

-- Where the sections of an encoded map stand.
record Layout (m : RegisterMap) : Type 0 where
  inside :
      let g = placed_general m in
      (48 ≤ g.hw_config_pointer)
      × (g.hw_config_pointer ≤ g.client_config_pointer)
      × (g.client_config_pointer ≤ g.queue_config_pointer)
      × (g.queue_config_pointer ≤ g.endpoint_config_pointer)
      × (g.endpoint_config_pointer ≤ length (encode_register_map m))
  pins :
      let g = placed_general m in
      section (encode_register_map m) g.hw_config_pointer g.client_config_pointer
      ≡ encode_pin_map m.pin_map
  streams :
      let g = placed_general m in
      section (encode_register_map m) g.client_config_pointer g.queue_config_pointer
      ≡ encode_stream_limits m.streams
  queues :
      let g = placed_general m in
      section (encode_register_map m) g.queue_config_pointer g.endpoint_config_pointer
      ≡ encode_queue_config m.queues
  table :
      drop (placed_general m).endpoint_config_pointer (encode_register_map m)
      ≡ encode_endpoint_table m

encode_register_map-Layout : (m : RegisterMap) → IsMap m → Layout m
unfolding encode_register_map
encode_register_map-Layout m h =
    let g = placed_general m in
    let front = encode_general_block g in
    let pins = encode_pin_map m.pin_map in
    let streams = encode_stream_limits m.streams in
    let queues = encode_queue_config m.queues in
    let last = encode_endpoint_table m in
    let b = front ++ (pins ++ (streams ++ (queues ++ last))) in
    let p = pointers m h in
    let size = length-encode_general_block g in
    let size2 = length-append front pins in
    let size3 = length-append (front ++ pins) streams in
    let size4 = length-append ((front ++ pins) ++ streams) queues in
    let size5 = length-append (((front ++ pins) ++ streams) ++ queues) last in
    let b2 = sym (append_assoc front pins (streams ++ (queues ++ last))) in
    let b3 = b2 ∙ sym (append_assoc (front ++ pins) streams (queues ++ last)) in
    let b4 = b3 ∙ sym (append_assoc ((front ++ pins) ++ streams) queues last) in
    let whole = ap length b4 in
    let short = length_sections m in
    record {
      inside = omega arith;
      pins =
          section-at b front pins (streams ++ (queues ++ last)) 48 g.client_config_pointer refl size
            p.0;
      streams =
          section-at b (front ++ pins) streams (queues ++ last) g.client_config_pointer
            g.queue_config_pointer b2 (omega arith) (omega arith);
      queues =
          section-at b ((front ++ pins) ++ streams) queues last g.queue_config_pointer
            g.endpoint_config_pointer b3 (omega arith) (omega arith);
      table =
          ap (drop g.endpoint_config_pointer) b4
          ∙ drop-append (((front ++ pins) ++ streams) ++ queues) last g.endpoint_config_pointer
              (omega arith);
    }

-- A register map within the widths of its format is read back: its pins, limits and queues are those that were
-- encoded, the endpoint at each address is the same, and the general block is the one that was written.
pub decode_register_map-encode_register_map :
    (m : RegisterMap)
    → IsMap m
    → (out : List (ℕ × EndpointRegisters)) × (decode_register_map (encode_register_map m)
        ≡ ok (record m { general = placed_general m; endpoints = out }))
      × ((k : ℕ) → lookup k out ≡ lookup k m.endpoints)
decode_register_map-encode_register_map m h =
    let (out, table, known) = decode_endpoint_table-encode_endpoint_table m h.table h.count in
    let at = encode_register_map-Layout m h in
    (
      out,
      decode_register_map-at (encode_register_map m) _
          (record m { general = placed_general m; endpoints = out }) (decoded_front m h) refl
          at.inside
          (ap decode_pin_map at.pins
            ∙ decode_pin_map-encode_pin_map m.pin_map (omega (arith, length_sections m, h.placed))
                h.pins h.once)
          (ap decode_stream_limits at.streams
            ∙ decode_stream_limits-encode_stream_limits m.streams h.max_request_streams
                h.max_in_flight_per_stream)
          (ap decode_queue_config at.queues
            ∙ decode_queue_config-encode_queue_config m.queues h.flush_threshold h.flush_time_millis
                h.heartbeat_interval_millis)
          (ap decode_endpoint_table at.table ∙ table),
      known,
    )
