-- ===== src/Regmap.antt =====
-- regmap/: the register map of a server, its pin map, and who may access it.
pub mod Codec
use go_rcp.Base.{
  ℕ, Bool, true, false, not, ◌&&◌, ◌||◌, Option, none, some, List, [], ◌∷◌, length, ltb, ◌==◌,
  bytes_eq, if◌then◌else◌, Error, pin_map_invalid, queue_config_invalid, root_already_claimed,
}
use go_rcp.Base.Assoc.{lookup, insert, delete, nat_eq, bytes_instance}
use go_rcp.Avtp.{StreamId}

-- The byte_bus_id of the server itself.
abbrev pub ep0 : ℕ
ep0 = 0

abbrev pub endpoint_type_count : ℕ
endpoint_type_count = 13

-- `EndpointType.Valid`
abbrev pub is_valid_type : ℕ → Bool
is_valid_type t = ltb 0 t && ltb t endpoint_type_count

-- The number of names that `signalNames` has for a type.
abbrev pub signal_count : ℕ → ℕ
signal_count t =
    if t == 1
    then 32
    else if t == 2
    then 9
    else if t == 4
    then 4
    else if t == 7
    then 3
    else if t == 3 || t == 6 || t == 8 || t == 9 || t == 10
    then 2
    else if t == 5 || t == 11 || t == 12
    then 1
    else 0

-- Whether `SignalName` finds a name.
abbrev pub has_signal : ℕ → ℕ → Bool
has_signal t idx = ltb idx (signal_count t)

pub record AccessController : Type 0 where
  pub root : StreamId
  pub root_set : Bool
  pub grants : List (StreamId × List (ℕ × Unit {0}))

abbrev pub new_access_controller : AccessController
new_access_controller = record { root = []; root_set = false; grants = [] }

abbrev pub is_root : AccessController → StreamId → Bool
is_root a stream = a.root_set && bytes_eq a.root stream

unfoldable pub claim_root : AccessController → StreamId → Option Error × AccessController
claim_root a stream =
    if a.root_set && not (bytes_eq a.root stream)
    then (some root_already_claimed, a)
    else (none, record a { root = stream; root_set = true })

-- A nil map reads as the empty one.
abbrev pub grants_of : AccessController → StreamId → List (ℕ × Unit {0})
grants_of a stream = elim (lookup stream a.grants) [ none ↦ [] | some set ↦ set ]

unfoldable pub grant : AccessController → StreamId → ℕ → AccessController
grant a stream ep = record a { grants = insert stream (insert ep tt (grants_of a stream)) a.grants }

pub revoke : AccessController → StreamId → ℕ → AccessController
revoke a stream ep = elim (lookup stream a.grants) [
  | none ↦ a
  | some set ↦ record a { grants = insert stream (delete ep set) a.grants }
]

abbrev pub has_grant : AccessController → StreamId → ℕ → Bool
has_grant a stream ep = elim (lookup ep (grants_of a stream)) [ none ↦ false | some granted ↦ true ]

abbrev pub can_access : AccessController → StreamId → ℕ → Bool
can_access a stream ep = is_root a stream || has_grant a stream ep

pub record PinAssignment : Type 0 where
  pub pin : ℕ
  pub endpoint : ℕ
  pub signal_index : ℕ

-- `PinMap`, its entries.
unfoldable pub set_pin : List PinAssignment → PinAssignment → List PinAssignment
set_pin [] a = a ∷ []
set_pin (e ∷ entries) a =
    let rest = set_pin entries a in if e.pin == a.pin then a ∷ entries else e ∷ rest

pub record StreamLimits : Type 0 where
  pub max_request_streams : ℕ
  pub max_in_flight_per_stream : ℕ

pub record QueueConfig : Type 0 where
  pub flush_threshold : ℕ
  pub flush_time_millis : ℕ
  pub heartbeat_interval_millis : ℕ

abbrev pub validate_queues : QueueConfig → Option Error
validate_queues q =
    if q.flush_threshold == 0 && q.flush_time_millis == 0 then some queue_config_invalid else none

pub record GeneralBlock : Type 0 where
  pub magic : ℕ
  pub protocol_version : ℕ
  pub vendor_id : ℕ
  pub device_id : ℕ
  pub num_endpoints : ℕ
  pub max_request_streams : ℕ
  pub max_responder_streams : ℕ
  pub max_responder_queue_words : ℕ
  pub max_request_queue_words : ℕ
  pub num_sequencer_states : ℕ
  pub config_lock : ℕ
  pub options : ℕ
  pub reserved0 : ℕ
  pub num_io_pins : ℕ
  pub hw_config_pointer : ℕ
  pub max_configurable_request_streams : ℕ
  pub max_configurable_response_streams : ℕ
  pub client_config_pointer : ℕ
  pub queue_config_pointer : ℕ
  pub reserved1 : ℕ
  pub endpoint_config_pointer : ℕ
  pub endpoint_config_length : ℕ
  pub endpoint_map_pointer : ℕ
  pub endpoint_map_max_entries : ℕ
  pub reserved2 : ℕ
  pub endpoint_functional_config_pointer : ℕ
  pub sequencer_state_map_pointer : ℕ

abbrev pub same_general_identity : GeneralBlock → GeneralBlock → Bool
same_general_identity a b =
    a.magic == b.magic
    && (a.vendor_id == b.vendor_id
        && (a.device_id == b.device_id
            && (a.protocol_version == b.protocol_version
                && (a.max_responder_streams == b.max_responder_streams
                    && (a.max_responder_queue_words == b.max_responder_queue_words
                        && (a.max_request_queue_words == b.max_request_queue_words
                            && (a.num_sequencer_states == b.num_sequencer_states
                                && (a.config_lock == b.config_lock
                                    && (a.options == b.options
                                        && (a.num_io_pins == b.num_io_pins
                                            && (a.max_configurable_request_streams
                                                  == b.max_configurable_request_streams
                                                && (a.max_configurable_response_streams
                                                    == b.max_configurable_response_streams))))))))))))

pub record GenericEndpointBlock : Type 0 where
  pub address : ℕ
  pub endpoint_type : ℕ
  pub enabled : Bool

abbrev pub bool_eq : Bool → Bool → Bool
bool_eq true b = b
bool_eq false b = not b

abbrev pub generic_eq : GenericEndpointBlock → GenericEndpointBlock → Bool
generic_eq a b =
    a.address == b.address && (a.endpoint_type == b.endpoint_type && bool_eq a.enabled b.enabled)

-- `functional` is the block's `Data`.
pub record EndpointRegisters : Type 0 where
  pub generic : GenericEndpointBlock
  pub functional : List ℕ

pub record RegisterMap : Type 0 where
  pub general : GeneralBlock
  pub pin_map : List PinAssignment
  pub streams : StreamLimits
  pub queues : QueueConfig
  pub endpoints : List (ℕ × EndpointRegisters)

abbrev pub general_block_magic : ℕ
general_block_magic = 0x52435030

abbrev pub register_map_version : ℕ
register_map_version = 0

abbrev pub new_register_map : RegisterMap
new_register_map = record {
  general = record {
    magic = general_block_magic;
    protocol_version = register_map_version;
    vendor_id = 0;
    device_id = 0;
    num_endpoints = 0;
    max_request_streams = 0;
    max_responder_streams = 0;
    max_responder_queue_words = 0;
    max_request_queue_words = 0;
    num_sequencer_states = 0;
    config_lock = 0;
    options = 0;
    reserved0 = 0;
    num_io_pins = 0;
    hw_config_pointer = 0;
    max_configurable_request_streams = 0;
    max_configurable_response_streams = 0;
    client_config_pointer = 0;
    queue_config_pointer = 0;
    reserved1 = 0;
    endpoint_config_pointer = 0;
    endpoint_config_length = 0;
    endpoint_map_pointer = 0;
    endpoint_map_max_entries = 0;
    reserved2 = 0;
    endpoint_functional_config_pointer = 0;
    sequencer_state_map_pointer = 0;
  };
  pin_map = [];
  streams = record { max_request_streams = 0; max_in_flight_per_stream = 0 };
  queues = record { flush_threshold = 0; flush_time_millis = 0; heartbeat_interval_millis = 0 };
  endpoints = [];
}

abbrev pub endpoint : RegisterMap → ℕ → Option EndpointRegisters
endpoint m addr = lookup addr m.endpoints

abbrev pub endpoint_type_at : RegisterMap → ℕ → Option ℕ
endpoint_type_at m addr = elim (lookup addr m.endpoints) [
  | none ↦ none
  | some ep ↦ some ep.generic.endpoint_type
]

abbrev pub has_endpoint : RegisterMap → ℕ → Bool
has_endpoint m addr = elim (lookup addr m.endpoints) [ none ↦ false | some ep ↦ true ]

abbrev pub declare_endpoint : RegisterMap → ℕ → ℕ → RegisterMap
declare_endpoint m addr t = record m {
  endpoints =
      insert addr
        (record {
          generic = record { address = addr; endpoint_type = t; enabled = true };
          functional = [];
        })
        m.endpoints;
}

-- `seenPins` is the list of the pins met.
unfoldable pub validate_pins : RegisterMap → List (ℕ × Unit {0}) → List PinAssignment → Option Error
validate_pins m seen [] = none
validate_pins m seen (a ∷ entries) =
    let rest = validate_pins m (insert a.pin tt seen) entries in
    elim (lookup a.pin seen) [
      | some met ↦ some pin_map_invalid
      | none ↦ elim (endpoint_type_at m a.endpoint) [
        | none ↦ some pin_map_invalid
        | some t ↦
            if not (is_valid_type t) || not (has_signal t a.signal_index)
            then some pin_map_invalid
            else rest
      ]
    ]

abbrev pub pin_eq : PinAssignment → PinAssignment → Bool
pin_eq a b = a.pin == b.pin && (a.endpoint == b.endpoint && a.signal_index == b.signal_index)

unfoldable pub by_pin : List (ℕ × PinAssignment) → List PinAssignment → List (ℕ × PinAssignment)
by_pin m [] = m
by_pin m (a ∷ entries) = by_pin (insert a.pin a m) entries

unfoldable pub all_by_pin : List (ℕ × PinAssignment) → List PinAssignment → Bool
all_by_pin m [] = true
all_by_pin m (a ∷ entries) =
    let rest = all_by_pin m entries in
    elim (lookup a.pin m) [ none ↦ false | some want ↦ if pin_eq want a then rest else false ]

-- `PinMap.Equal`
unfoldable pub pins_equal : List PinAssignment → List PinAssignment → Bool
unfolding by_pin all_by_pin
pins_equal m other =
    if not (length m == length other) then false else all_by_pin (by_pin [] m) other

-- The loop of `SameEndpointGenerics` over the endpoints of `a`.
unfoldable pub generics_in : List (ℕ × EndpointRegisters) → RegisterMap → Bool
generics_in [] b = true
generics_in ((addr, ea) ∷ rest) b =
    let others = generics_in rest b in
    elim (lookup addr b.endpoints) [
      | none ↦ false
      | some eb ↦ if generic_eq ea.generic eb.generic then others else false
    ]

unfoldable pub same_endpoint_generics : RegisterMap → RegisterMap → Bool
unfolding generics_in
same_endpoint_generics a b =
    if not (length a.endpoints == length b.endpoints) then false else generics_in a.endpoints b
