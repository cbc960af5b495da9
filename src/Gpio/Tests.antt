-- ===== src/Gpio/Tests.antt =====
-- A GPIO endpoint of eight pins, the lower four outputs.
use go_rcp.Base.{ℕ, ◌≡◌, refl, true, false, not, ◌&&◌, [], ◌∷◌, Error, ok, err, ◌⊎◌, arith}
use go_rcp.Base.Assoc.{lookup}
use go_rcp.Base.Bytes.{put_be}
use go_rcp.Avtp.{StreamId}
use go_rcp.Acf.{Message, no_message, flag_write, has}
use go_rcp.Acf.Evt.{evt_write_xor, is_valid_write_op}
use go_rcp.Regmap.{new_register_map}
use go_rcp.Server.{Server, new_server}
use go_rcp.Server.Reads.{apply_config_request}
use go_rcp.Server.Configured.{IsShown, apply_config_request-IsShown}
use go_rcp.Gpio.{
  Config, active_mask, validate, encode_config, Endpoint, configure, encode_config_block,
  adopt_config_block, set_inputs, apply_value, apply_write, handle_request,
}
use go_rcp.Gpio.Configured.{IsReady, gpio-IsCallback}
use go_rcp.Gpio.Pins.{Driven, is_pin, is_output}
use go_rcp.Gpio.Written.{Combined, set_inputs-Driven, apply_write-Driven}
use go_rcp.Gpio.Handled.{IsServed, handle_request-IsServed}

abbrev root : StreamId
root = 2 ∷ 0 ∷ 0x5e ∷ 0x10 ∷ 0 ∷ 1 ∷ 0 ∷ 1 ∷ []

abbrev eight : Config
eight = record { pin_count = 8; direction = 0x0f; trigger_enable = 0xff }

abbrev pins : Endpoint
pins = record { addr = 5; cfg = eight; value = 0xa5; triggers = [] }

abbrev server : Server
server = record new_server {
  access = record new_server.access { root = root; root_set = true };
  rmap = record new_register_map {
    endpoints =
        (
          5,
          record {
            generic = record { address = 5; endpoint_type = 1; enabled = true };
            functional = 8 ∷ 0 ∷ 0 ∷ 0 ∷ 0x0f ∷ 0 ∷ 0 ∷ 0 ∷ 0xff ∷ [];
          },
        )
        ∷ [];
  };
}

pins-IsReady : IsReady pins
unfolding validate active_mask
pins-IsReady = record { valid = refl; value = omega arith }

pins-IsServed : IsServed server 5 pins
unfolding encode_config_block encode_config lookup put_be
pins-IsServed = record {
  is_ready = pins-IsReady;
  registers = record {
    generic = record { address = 5; endpoint_type = 1; enabled = true };
    functional = 8 ∷ 0 ∷ 0 ∷ 0 ∷ 0x0f ∷ 0 ∷ 0 ∷ 0 ∷ 0xff ∷ [];
  };
  held = refl;
  shown = refl;
}

-- The pin count is set to 4, with the masks as they are: the mask of signals is refused then.
abbrev narrows : Message
narrows = record no_message {
  byte_bus_id = 5;
  evt = 7;
  control = flag_write;
  body = 0 ∷ 0 ∷ 4 ∷ [];
}

-- Pin 0 is toggled.
abbrev toggles : Message
toggles = record no_message {
  byte_bus_id = 5;
  evt = 3;
  control = flag_write;
  body = 0 ∷ 0 ∷ 0 ∷ 1 ∷ [];
}

apply_config_request-IsShown_example :
    let out =
      apply_config_request encode_config_block adopt_config_block server root 5 pins narrows in
    IsShown encode_config_block adopt_config_block IsReady out.2 5 out.1
apply_config_request-IsShown_example =
    apply_config_request-IsShown encode_config_block adopt_config_block IsReady gpio-IsCallback
      server root 5 pins narrows (omega arith) pins-IsServed

handle_request-IsServed_example :
    let out = handle_request server pins root toggles in IsServed out.2 5 out.1
handle_request-IsServed_example =
    handle_request-IsServed server pins root toggles (omega arith) pins-IsServed

set_inputs-Driven_example :
    Driven pins (set_inputs pins 0x5a).1 (λ k. is_pin eight k && not (is_output eight k)) 0x5a
    × ((set_inputs pins 0x5a).0 ≡ (set_inputs pins 0x5a).1.value)
set_inputs-Driven_example = set_inputs-Driven pins 0x5a pins-IsReady

apply_write-Driven_example :
    ((error : Error) × (apply_write pins evt_write_xor 1 ≡ (err error, pins))
      × (is_valid_write_op evt_write_xor ≡ false))
    ⊎ ((candidate : ℕ) × Combined 8 1 0xa5 evt_write_xor candidate
        × Driven pins (apply_write pins evt_write_xor 1).1 (is_output eight) candidate
        × ((apply_write pins evt_write_xor 1).0 ≡ ok (apply_write pins evt_write_xor 1).1.value))
apply_write-Driven_example = apply_write-Driven pins evt_write_xor 1 pins-IsReady

-- The outputs of 0xa5 are 5, of which bit 0 is toggled.
toggled : (apply_write pins evt_write_xor 1).0 ≡ ok 0xa4
unfolding apply_write apply_value go_rcp.Acf.Evt.apply_evt_write_op active_mask
    go_rcp.Gpio.record_change
toggled = refl
