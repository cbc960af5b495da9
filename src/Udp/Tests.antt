-- ===== src/Udp/Tests.antt =====
-- A router with no endpoint but the address 0, in front of a new server.
use go_rcp.Base.{
  ◌%◌, ◌&&◌, ◌!=◌, not, evt_missing_payload, ℕ, ◌≡◌, refl, true, false, ◌||◌, none, some, List, [],
  ◌∷◌, length, ◌==◌, if◌then◌else◌, Error, access_denied,
}
use go_rcp.Base.Assoc.{lookup, insert}
use go_rcp.Avtp.{Header, missing, disposition}
use go_rcp.Acf.{Message, no_message, has, flag_read, flag_write, kind_long}
use go_rcp.Acf.Evt.{check_evt_payload_presence}
use go_rcp.Regmap.Codec.{encode_register_map}
use go_rcp.Server.{Server, new_server}
use go_rcp.Server.Reads.{read_endpoint}
use go_rcp.Gpio.{Endpoint, new_endpoint, handle_request}
use go_rcp.Udp.{
  Router, dispatch, handle_ep0, route, response_for, error_response, register, new_router,
}
use go_rcp.Udp.Answered.{Answers, route-discovers}
use go_rcp.Udp.Served.{gpio_router, route-Answers}

abbrev router : Router Server
router = record { ep0_handler = handle_ep0; time_sync_supported = false; handlers = [] }

abbrev header : Header
header = record {
  timed = false;
  stream_id_valid = true;
  sequence_num = 1;
  data_length = 16;
  stream_id = 2 ∷ 0 ∷ 0x5e ∷ 0x10 ∷ 0 ∷ 1 ∷ 0 ∷ 1 ∷ [];
  timestamp = 0;
  timestamp_status = missing;
}

abbrev texts : Error → List ℕ
texts e = 63 ∷ []

abbrev discovery : Message
discovery = record no_message { kind = 1; transaction_num = 4; control = flag_read }

-- A read of the endpoint at address 5, to which the stream has no access.
abbrev denied_read : Message
denied_read = record discovery { byte_bus_id = 5 }

-- The same server with a gpio endpoint at address 5.
abbrev endpoint_5 : Endpoint
endpoint_5 = new_endpoint 5

abbrev server_and_endpoint : Server × Endpoint
server_and_endpoint = (new_server, endpoint_5)

refused :
    (route (gpio_router false 5) texts server_and_endpoint header denied_read).0
    ≡ some (error_response texts denied_read access_denied)
unfolding route disposition dispatch check_evt_payload_presence lookup register new_router insert
    handle_request read_endpoint new_endpoint
refused = refl

route-Answers_example : Answers denied_read (error_response texts denied_read access_denied)
route-Answers_example =
    route-Answers false 5 texts server_and_endpoint header denied_read
      (error_response texts denied_read access_denied) refused

reads : has discovery.control flag_read ≡ true
unfolding has
reads = refl

quiet : has discovery.control flag_write ≡ false
unfolding has
quiet = refl

route-discovers_example : route router texts new_server header discovery ≡ (
  (if header.timed && not router.time_sync_supported
      then none
      else if discovery.evt % 8 != 0 && length discovery.body == 0
      then some (error_response texts discovery evt_missing_payload)
      else if header.timed || discovery.kind == kind_long
      then none
      else some (response_for discovery (encode_register_map new_server.rmap))),
  new_server,
)
route-discovers_example =
    route-discovers router texts new_server header discovery refl refl reads quiet
