-- ===== src/Regmap/Codec/General.antt =====
-- The general block of a register map is read back.
use go_rcp.Base.{
  ℕ, ◌^◌, ◌<◌, ◌≤◌, ◌≡◌, refl, ap, ◌∙◌, false, List, ◌++◌, length, length-append, ltb, ◌!=◌, take,
  drop, drop-append, ok, arith,
}
use native.Mathlib.Nat.{mod-eq_of_lt}
use go_rcp.Base.Bytes.{put_be, get_be, get_be-put_be}
use go_rcp.Regmap.{GeneralBlock, general_block_magic}
use go_rcp.Regmap.Codec.{encode_general_block, decode_general_block, general_block_at}

-- The widths of the Go types of the fields.
pub record IsGeneral (g : GeneralBlock) : Type 0 where
  pub magic : g.magic < 2 ^ 32
  pub protocol_version : g.protocol_version < 2 ^ 32
  pub vendor_id : g.vendor_id < 2 ^ 16
  pub device_id : g.device_id < 2 ^ 16
  pub num_endpoints : g.num_endpoints < 2 ^ 16
  pub max_request_streams : g.max_request_streams < 2 ^ 8
  pub max_responder_streams : g.max_responder_streams < 2 ^ 8
  pub max_responder_queue_words : g.max_responder_queue_words < 2 ^ 16
  pub max_request_queue_words : g.max_request_queue_words < 2 ^ 16
  pub num_sequencer_states : g.num_sequencer_states < 2 ^ 8
  pub config_lock : g.config_lock < 2 ^ 8
  pub options : g.options < 2 ^ 8
  pub reserved0 : g.reserved0 < 2 ^ 8
  pub num_io_pins : g.num_io_pins < 2 ^ 16
  pub hw_config_pointer : g.hw_config_pointer < 2 ^ 16
  pub max_configurable_request_streams : g.max_configurable_request_streams < 2 ^ 8
  pub max_configurable_response_streams : g.max_configurable_response_streams < 2 ^ 8
  pub client_config_pointer : g.client_config_pointer < 2 ^ 16
  pub queue_config_pointer : g.queue_config_pointer < 2 ^ 16
  pub reserved1 : g.reserved1 < 2 ^ 16
  pub endpoint_config_pointer : g.endpoint_config_pointer < 2 ^ 16
  pub endpoint_config_length : g.endpoint_config_length < 2 ^ 16
  pub endpoint_map_pointer : g.endpoint_map_pointer < 2 ^ 16
  pub endpoint_map_max_entries : g.endpoint_map_max_entries < 2 ^ 8
  pub reserved2 : g.reserved2 < 2 ^ 8
  pub endpoint_functional_config_pointer : g.endpoint_functional_config_pointer < 2 ^ 16
  pub sequencer_state_map_pointer : g.sequencer_state_map_pointer < 2 ^ 16

pub length-encode_general_block : (g : GeneralBlock) → length (encode_general_block g) ≡ 48
unfolding encode_general_block put_be
length-encode_general_block g = refl

general_block_at-encode_general_block :
    (g : GeneralBlock) (rest : List ℕ)
    → IsGeneral g
    → general_block_at (encode_general_block g ++ rest) ≡ g
unfolding encode_general_block put_be
general_block_at-encode_general_block g rest h i = record {
  magic = get_be-put_be 4 g.magic h.magic i;
  protocol_version = get_be-put_be 4 g.protocol_version h.protocol_version i;
  vendor_id = get_be-put_be 2 g.vendor_id h.vendor_id i;
  device_id = get_be-put_be 2 g.device_id h.device_id i;
  num_endpoints = get_be-put_be 2 g.num_endpoints h.num_endpoints i;
  max_request_streams = mod-eq_of_lt h.max_request_streams i;
  max_responder_streams = mod-eq_of_lt h.max_responder_streams i;
  max_responder_queue_words =
      get_be-put_be 2 g.max_responder_queue_words h.max_responder_queue_words i;
  max_request_queue_words = get_be-put_be 2 g.max_request_queue_words h.max_request_queue_words i;
  num_sequencer_states = mod-eq_of_lt h.num_sequencer_states i;
  config_lock = mod-eq_of_lt h.config_lock i;
  options = mod-eq_of_lt h.options i;
  reserved0 = mod-eq_of_lt h.reserved0 i;
  num_io_pins = get_be-put_be 2 g.num_io_pins h.num_io_pins i;
  hw_config_pointer = get_be-put_be 2 g.hw_config_pointer h.hw_config_pointer i;
  max_configurable_request_streams = mod-eq_of_lt h.max_configurable_request_streams i;
  max_configurable_response_streams = mod-eq_of_lt h.max_configurable_response_streams i;
  client_config_pointer = get_be-put_be 2 g.client_config_pointer h.client_config_pointer i;
  queue_config_pointer = get_be-put_be 2 g.queue_config_pointer h.queue_config_pointer i;
  reserved1 = get_be-put_be 2 g.reserved1 h.reserved1 i;
  endpoint_config_pointer = get_be-put_be 2 g.endpoint_config_pointer h.endpoint_config_pointer i;
  endpoint_config_length = get_be-put_be 2 g.endpoint_config_length h.endpoint_config_length i;
  endpoint_map_pointer = get_be-put_be 2 g.endpoint_map_pointer h.endpoint_map_pointer i;
  endpoint_map_max_entries = mod-eq_of_lt h.endpoint_map_max_entries i;
  reserved2 = mod-eq_of_lt h.reserved2 i;
  endpoint_functional_config_pointer =
      get_be-put_be 2 g.endpoint_functional_config_pointer h.endpoint_functional_config_pointer i;
  sequencer_state_map_pointer =
      get_be-put_be 2 g.sequencer_state_map_pointer h.sequencer_state_map_pointer i;
}

long_enough : (n : ℕ) → 48 ≤ n → ltb n 48 ≡ false
long_enough n h = ground arith

differs_not : (x y : ℕ) → x ≡ y → (x != y) ≡ false
differs_not x y h = ground arith

decode_general_block-at :
    (b rest : List ℕ) (g : GeneralBlock)
    → ltb (length b) 48 ≡ false
    → get_be (take 4 b) ≡ general_block_magic
    → general_block_at b ≡ g
    → drop 48 b ≡ rest
    → decode_general_block b ≡ ok (g, rest)
unfolding decode_general_block
decode_general_block-at b rest g long magic at left =
    rw (decode_general_block, long, differs_not (get_be (take 4 b)) general_block_magic magic)
      (λ i. ok (at i, left i))

-- A general block with its magic is read back, with what follows it.
pub decode_general_block-encode_general_block :
    (g : GeneralBlock) (rest : List ℕ)
    → IsGeneral g
    → g.magic ≡ general_block_magic
    → decode_general_block (encode_general_block g ++ rest) ≡ ok (g, rest)
decode_general_block-encode_general_block g rest h magic =
    let size = length-encode_general_block g in
    let same = general_block_at-encode_general_block g rest h in
    let long = length-append (encode_general_block g) rest in
    let b = encode_general_block g ++ rest in
    decode_general_block-at b rest g (long_enough (length b) (omega (arith, size, long)))
      (ap (λ (x : GeneralBlock). x.magic) same ∙ magic) same
      (drop-append (encode_general_block g) rest 48 size)
