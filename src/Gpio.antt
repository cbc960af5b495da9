-- ===== src/Gpio.antt =====
-- gpio/: the GPIO endpoint, its configuration block (config.go), its requests (request.go, semantics.go)
-- and its pins (endpoint.go). The server that the endpoint points to is an argument and a result of the
-- methods that use it. Masks and values are uint32.
pub mod Configured
pub mod Pins
pub mod Written
pub mod Handled
mod Tests
use go_rcp.Base.{
  ℕ, ◌+◌, ◌-◌, ◌^◌, bit_and, bit_or, bit_xor, Bool, true, false, not, ◌&&◌, ◌||◌, Option, none,
  some, List, [], ◌∷◌, ◌++◌, length, take, drop, get_or, ltb, leb, ◌==◌, ◌!=◌, if◌then◌else◌, Error,
  Result, ok, err, ◌>>=◌, ◌>>◌, reject_if, gpio_short_buffer, gpio_trailing_bytes,
  pin_count_out_of_range, wrong_endpoint, request_must_read_or_write,
}
use go_rcp.Base.BitAt.{and_not}
use go_rcp.Base.Bytes.{put_be, get_be}
use go_rcp.Avtp.{StreamId}
use go_rcp.Acf.{Message, no_message, has, flag_read, flag_write, flag_response}
use go_rcp.Acf.Evt.{
  evt_class_arithmetic, EvtDisposition, action_interface, action_configure, evt_disposition,
  apply_evt_write_op,
}
use go_rcp.Server.{Server, write_functional}
use go_rcp.Server.Reads.{read_endpoint, apply_config_request}

abbrev pub max_pins : ℕ
max_pins = 32

pub record Config : Type 0 where
  pub pin_count : ℕ
  pub direction : ℕ
  pub trigger_enable : ℕ

-- `Config{}`
abbrev pub no_config : Config
no_config = record { pin_count = 0; direction = 0; trigger_enable = 0 }

abbrev pub config_len : ℕ
config_len = 9

unfoldable pub active_mask : Config → ℕ
active_mask c = if leb max_pins c.pin_count then 0xffffffff else 2 ^ c.pin_count - 1

unfoldable pub validate : Config → Option Error
validate c =
    if c.pin_count == 0 || ltb max_pins c.pin_count
    then some pin_count_out_of_range
    else if and_not c.direction (active_mask c) != 0
        || and_not c.trigger_enable (active_mask c) != 0
    then some pin_count_out_of_range
    else none

unfoldable pub encode_config : Config → List ℕ
encode_config c = c.pin_count ∷ (put_be 4 c.direction ++ put_be 4 c.trigger_enable)

unfoldable pub decode_config : List ℕ → Result Config
decode_config b = do
  reject_if (ltb (length b) config_len) gpio_short_buffer
  reject_if (ltb config_len (length b)) gpio_trailing_bytes
  ok (record {
    pin_count = get_or b 0 0;
    direction = get_be (take 4 (drop 1 b));
    trigger_enable = get_be (take 4 (drop 5 b));
  })

abbrev request_len : ℕ
request_len = 4

unfoldable pub encode_write_request : ℕ → List ℕ
encode_write_request operand = put_be request_len operand

unfoldable pub decode_write_request : List ℕ → Result ℕ
decode_write_request b = do
  reject_if (ltb (length b) request_len) gpio_short_buffer
  reject_if (ltb request_len (length b)) gpio_trailing_bytes
  ok (get_be b)

unfoldable pub encode_value : ℕ → List ℕ
encode_value v = put_be 4 v

unfoldable pub decode_value : List ℕ → Result ℕ
decode_value b = do
  reject_if (ltb (length b) 4) gpio_short_buffer
  reject_if (ltb 4 (length b)) gpio_trailing_bytes
  ok (get_be b)

-- semantics.go
unfoldable pub apply_value : ℕ → ℕ → ℕ → ℕ → Result ℕ
apply_value current operand op active = do
  v ← apply_evt_write_op op operand current active
  ok (bit_and v active)

pub record TriggerEvent : Type 0 where
  pub changed_mask : ℕ
  pub value : ℕ

pub record Endpoint : Type 0 where
  pub addr : ℕ
  pub cfg : Config
  pub value : ℕ
  pub triggers : List TriggerEvent

unfoldable pub new_endpoint : ℕ → Endpoint
new_endpoint addr = record { addr = addr; cfg = no_config; value = 0; triggers = [] }

-- `e.cfg = cfg; e.value &= cfg.activeMask()`
unfoldable pub adopt_config : Endpoint → Config → Endpoint
adopt_config e cfg = record e { cfg = cfg; value = bit_and e.value (active_mask cfg) }

unfoldable pub configure : Server → Endpoint → StreamId → Config → Option Error × Endpoint × Server
configure s e requester cfg = elim (validate cfg) [
  | some error ↦ (some error, e, s)
  | none ↦
      let written = write_functional s requester e.addr (encode_config cfg) in
      elim written.0 [
        | some error ↦ (some error, e, written.1)
        | none ↦ (none, adopt_config e cfg, written.1)
      ]
]

unfoldable pub record_change : Endpoint → ℕ → ℕ → Endpoint
record_change e before after =
    let changed = bit_and (bit_xor before after) e.cfg.trigger_enable in
    if changed == 0 then e else record e {
      triggers = e.triggers ++ (record { changed_mask = changed; value = after } ∷ []);
    }

-- `^x` on uint32.
abbrev pub complement : ℕ → ℕ
complement x = bit_xor x 0xffffffff

-- `(value &^ m) | (x & m)`
abbrev pub blend : ℕ → ℕ → ℕ → ℕ
blend value x m = bit_or (and_not value m) (bit_and x m)

unfoldable pub set_inputs : Endpoint → ℕ → ℕ × Endpoint
set_inputs e mask =
    let in_mask = bit_and (complement e.cfg.direction) (active_mask e.cfg) in
    let after = blend e.value mask in_mask in
    (after, record_change (record e { value = after }) e.value after)

unfoldable pub drain_triggers : Endpoint → List TriggerEvent × Endpoint
drain_triggers e = (e.triggers, record e { triggers = [] })

unfoldable pub apply_write : Endpoint → ℕ → ℕ → Result ℕ × Endpoint
apply_write e op operand =
    let out_mask = bit_and e.cfg.direction (active_mask e.cfg) in
    elim (apply_value e.value operand op (active_mask e.cfg)) [
      | err error ↦ (err error, e)
      | ok candidate ↦
          let after = blend e.value candidate out_mask in
          (ok after, record_change (record e { value = after }) e.value after)
    ]

unfoldable pub encode_config_block : Endpoint → List ℕ
encode_config_block e = encode_config e.cfg

unfoldable pub adopt_config_block : Endpoint → List ℕ → Option Error × Endpoint
adopt_config_block e raw = elim (decode_config raw) [
  | err error ↦ (some error, e)
  | ok cfg ↦ elim (validate cfg) [
    | some error ↦ (some error, e)
    | none ↦ (none, adopt_config e cfg)
  ]
]

unfoldable pub response_for : Message → List ℕ → Message
response_for req body = record no_message {
  kind = req.kind;
  byte_bus_id = req.byte_bus_id;
  transaction_num = req.transaction_num;
  control = bit_or flag_response (bit_and req.control (bit_or flag_read flag_write));
  body = body;
}

-- The read and write branches of `HandleRequest`.
unfoldable pub interface_request : Endpoint → Message → ℕ → Result Message × Endpoint
unfolding response_for
interface_request e req write_op =
    if has req.control flag_write
    then elim (decode_write_request req.body) [
      | err error ↦ (err error, e)
      | ok operand ↦
          let written = apply_write e write_op operand in
          elim written.0 [
            | err error ↦ (err error, written.1)
            | ok result ↦ (ok (response_for req (encode_value result)), written.1)
          ]
    ]
    else if has req.control flag_read
    then (ok (response_for req (encode_value e.value)), e)
    else (err request_must_read_or_write, e)

-- The configuration branch.
unfoldable pub configure_request :
    Server → Endpoint → StreamId → Message → Result Message × Endpoint × Server
unfolding response_for
configure_request s e requester req =
    let done =
      apply_config_request encode_config_block adopt_config_block s requester e.addr e req in
    elim done.0 [
      | err error ↦ (err error, done.1, done.2)
      | ok body ↦ (ok (response_for req body), done.1, done.2)
    ]

unfoldable pub handle_request :
    Server → Endpoint → StreamId → Message → Result Message × Endpoint × Server
handle_request s e requester req =
    if req.byte_bus_id != e.addr
    then (err wrong_endpoint, e, s)
    else elim (read_endpoint s requester e.addr) [
      | err error ↦ (err error, e, s)
      | ok block ↦ elim (evt_disposition req evt_class_arithmetic) [
        | err error ↦ (err error, e, s)
        | ok disp ↦ elim disp.action [
          | action_configure ↦ configure_request s e requester req
          | action_interface ↦
              let done = interface_request e req disp.write_op in (done.0, done.1, s)
        ]
      ]
    ]
