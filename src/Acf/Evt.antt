-- ===== src/Acf/Evt.antt =====
-- acf/evt.go: what the evt field of a request says about its payload, per class of endpoint. Selectors,
-- classes and write operators are uint8.
pub mod Table
mod Tests
use go_rcp.Base.{
  ℕ, ◌+◌, ◌-◌, bit_and, bit_or, bit_xor, Bool, true, false, not, ◌&&◌, ◌||◌, List, [], ◌∷◌, ◌++◌,
  length, take, drop, ltb, leb, ◌==◌, ◌!=◌, if◌then◌else◌, Result, ok, err, ◌>>=◌, ◌>>◌, reject_if,
  evt_reserved, evt_unknown_class, evt_missing_payload, short_config_request,
}
use go_rcp.Base.Bytes.{put_be, get_be}
use go_rcp.Acf.{Message}

abbrev pub evt_ack_request_bit : ℕ
evt_ack_request_bit = 0x08

abbrev pub evt_selector_mask : ℕ
evt_selector_mask = 0x07

abbrev evt_selector_count : ℕ
evt_selector_count = 8

abbrev pub evt_class_channel_select : ℕ
evt_class_channel_select = 0

abbrev pub evt_class_config_only : ℕ
evt_class_config_only = 1

abbrev pub evt_class_arithmetic : ℕ
evt_class_arithmetic = 2

abbrev pub evt_class_count : ℕ
evt_class_count = 3

pub is_valid_selector : ℕ → Bool
is_valid_selector s = ltb s evt_selector_count

unfoldable pub evt_selector : Message → ℕ
evt_selector m = bit_and m.evt evt_selector_mask

pub evt_ack_requested : Message → Bool
evt_ack_requested m = bit_and m.evt evt_ack_request_bit != 0

abbrev pub is_valid_class : ℕ → Bool
is_valid_class c = ltb c evt_class_count

pub data EvtAction : Type 0 where
  action_interface action_configure : EvtAction

abbrev pub evt_write_set : ℕ
evt_write_set = 0

abbrev pub evt_write_or : ℕ
evt_write_or = 1

abbrev pub evt_write_and : ℕ
evt_write_and = 2

abbrev pub evt_write_xor : ℕ
evt_write_xor = 3

abbrev pub evt_write_add_saturating : ℕ
evt_write_add_saturating = 5

abbrev pub evt_write_sub_saturating : ℕ
evt_write_sub_saturating = 6

abbrev pub is_valid_write_op : ℕ → Bool
is_valid_write_op op =
    op == evt_write_set
    || (op == evt_write_or
        || (op == evt_write_and
            || (op == evt_write_xor
                || (op == evt_write_add_saturating || op == evt_write_sub_saturating))))

pub record EvtDisposition : Type 0 where
  pub action : EvtAction
  pub channel : ℕ
  pub write_op : ℕ

-- `EVTDisposition{}`
abbrev pub zero_disposition : EvtDisposition
zero_disposition = record { action = action_interface; channel = 0; write_op = 0 }

pub classify_evt : ℕ → ℕ → Result EvtDisposition
classify_evt class evt =
    let sel = bit_and evt evt_selector_mask in
    if sel == 7
    then (if not (is_valid_class class)
        then err evt_unknown_class
        else ok (record zero_disposition { action = action_configure }))
    else if class == evt_class_channel_select
    then (if sel == 6 then err evt_reserved else ok (record zero_disposition { channel = sel }))
    else if class == evt_class_config_only
    then (if sel != 0 then err evt_reserved else ok zero_disposition)
    else if class == evt_class_arithmetic
    then (if sel == 4
        then err evt_reserved
        else if not (is_valid_write_op sel)
        then err evt_reserved
        else ok (record zero_disposition { write_op = sel }))
    else err evt_unknown_class

unfoldable pub check_evt_payload_presence : ℕ → ℕ → Result (Unit {0})
check_evt_payload_presence evt payload_len =
    reject_if (bit_and evt evt_selector_mask != 0 && payload_len == 0) evt_missing_payload

-- `Message.EVTDisposition`
pub evt_disposition : Message → ℕ → Result EvtDisposition
unfolding check_evt_payload_presence classify_evt
evt_disposition m class = do
  check_evt_payload_presence m.evt (length m.body)
  classify_evt class m.evt

-- `payload`, `current` and `saturate_at` are uint32; the sum is taken on a uint64, where it fits.
unfoldable pub apply_evt_write_op : ℕ → ℕ → ℕ → ℕ → Result ℕ
apply_evt_write_op op payload current saturate_at =
    if op == evt_write_set
    then ok payload
    else if op == evt_write_or
    then ok (bit_or payload current)
    else if op == evt_write_and
    then ok (bit_and payload current)
    else if op == evt_write_xor
    then ok (bit_xor payload current)
    else if op == evt_write_add_saturating
    then ok (if ltb saturate_at (payload + current) then saturate_at else payload + current)
    else if op == evt_write_sub_saturating
    then (if leb payload current
        then ok 0
        else if ltb saturate_at (payload - current)
        then ok saturate_at
        else ok (payload - current))
    else err evt_reserved

abbrev evt_config_start_addr_len : ℕ
evt_config_start_addr_len = 2

unfoldable pub encode_config_request_body : ℕ → List ℕ → List ℕ
encode_config_request_body start_addr data_bytes =
    put_be evt_config_start_addr_len start_addr ++ data_bytes

unfoldable pub decode_config_request_body : List ℕ → Result (ℕ × List ℕ)
decode_config_request_body b = do
  reject_if (ltb (length b) evt_config_start_addr_len) short_config_request
  ok (get_be (take evt_config_start_addr_len b), drop evt_config_start_addr_len b)
