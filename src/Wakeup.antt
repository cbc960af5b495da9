-- ===== src/Wakeup.antt =====
-- wakeup/: the wakeup endpoint, its configuration block (config.go), its bodies (request.go) and its power
-- states (types.go, endpoint.go), which are uint8.
use go_rcp.Base.{
  ℕ, zero, suc, ◌+◌, bit_or, Bool, true, false, not, ◌&&◌, Option, none, some, List, [], ◌∷◌, ◌++◌,
  length, take, drop, get_or, ltb, ◌==◌, ◌!=◌, if◌then◌else◌, Error, Result, ok, err, ◌>>◌,
  reject_if, wakeup_short_buffer, wakeup_trailing_bytes, invalid_handshake_interval,
  invalid_handshake_repeat_count, wakeup_not_configured, wakeup_wrong_endpoint,
  wakeup_must_read_or_write, cannot_request_unpowered, invalid_power_state,
}
use go_rcp.Base.Bytes.{put_be, get_be}
use go_rcp.Avtp.{StreamId}
use go_rcp.Acf.{Message, no_message, has, flag_read, flag_write, flag_response}
use go_rcp.Server.{Server, write_functional}
use go_rcp.Server.Reads.{read_endpoint}

abbrev pub power_normal : ℕ
power_normal = 0

abbrev pub power_stand_by : ℕ
power_stand_by = 1

abbrev pub power_sleep : ℕ
power_sleep = 2

abbrev pub power_unpowered : ℕ
power_unpowered = 3

abbrev pub power_state_count : ℕ
power_state_count = 4

abbrev pub is_valid_state : ℕ → Bool
is_valid_state s = ltb s power_state_count

abbrev pub start_unknown : ℕ
start_unknown = 0

abbrev pub start_hot : ℕ
start_hot = 1

abbrev pub start_cold : ℕ
start_cold = 2

pub record WakeHandshake : Type 0 where
  pub start : ℕ
  pub sequence : ℕ

pub record WakeupConfig : Type 0 where
  pub enabled : Bool
  pub handshake_interval_millis : ℕ
  pub handshake_repeat_count : ℕ

abbrev wakeup_config_len : ℕ
wakeup_config_len = 7

unfoldable pub validate_wakeup : WakeupConfig → Option Error
validate_wakeup c =
    if not c.enabled
    then none
    else if c.handshake_interval_millis == 0
    then some invalid_handshake_interval
    else if c.handshake_repeat_count == 0
    then some invalid_handshake_repeat_count
    else none

unfoldable pub encode_wakeup_config : WakeupConfig → List ℕ
encode_wakeup_config c =
    (if c.enabled then 1 else 0)
    ∷ (put_be 4 c.handshake_interval_millis ++ put_be 2 c.handshake_repeat_count)

unfoldable pub decode_wakeup_config : List ℕ → Result WakeupConfig
decode_wakeup_config b = do
  reject_if (ltb (length b) wakeup_config_len) wakeup_short_buffer
  reject_if (ltb wakeup_config_len (length b)) wakeup_trailing_bytes
  ok (record {
    enabled = get_or b 0 0 != 0;
    handshake_interval_millis = get_be (take 4 (drop 1 b));
    handshake_repeat_count = get_be (take 2 (drop 5 b));
  })

unfoldable pub encode_power_state_request : ℕ → List ℕ
encode_power_state_request target = target ∷ []

unfoldable pub decode_power_state_request : List ℕ → Result ℕ
decode_power_state_request b = do
  reject_if (ltb (length b) 1) wakeup_short_buffer
  reject_if (ltb 1 (length b)) wakeup_trailing_bytes
  ok (get_or b 0 0)

unfoldable pub encode_wake_handshake : WakeHandshake → List ℕ
encode_wake_handshake h = h.start ∷ put_be 2 h.sequence

unfoldable pub decode_wake_handshake : List ℕ → Result WakeHandshake
decode_wake_handshake b = do
  reject_if (ltb (length b) 3) wakeup_short_buffer
  reject_if (ltb 3 (length b)) wakeup_trailing_bytes
  ok (record { start = get_or b 0 0; sequence = get_be (take 2 (drop 1 b)) })

-- The struct and its kind as one type.
pub data WakeupEvent : Type 0 where
  power_state_changed : (state : ℕ) → WakeupEvent
  wake_handshake : WakeHandshake → WakeupEvent

pub record WakeupEndpoint : Type 0 where
  pub addr : ℕ
  pub cfg : WakeupConfig
  pub state : ℕ
  pub last_start_kind : ℕ
  pub retention_lost : Bool
  pub triggers : List WakeupEvent

pub new_wakeup_endpoint : ℕ → WakeupEndpoint
new_wakeup_endpoint addr = record {
  addr = addr;
  cfg = record { enabled = false; handshake_interval_millis = 0; handshake_repeat_count = 0 };
  state = power_normal;
  last_start_kind = start_unknown;
  retention_lost = false;
  triggers = [];
}

unfoldable pub configure_wakeup :
    Server → WakeupEndpoint → StreamId → WakeupConfig → Option Error × WakeupEndpoint × Server
configure_wakeup s e requester cfg = elim (validate_wakeup cfg) [
  | some error ↦ (some error, e, s)
  | none ↦
      let written = write_functional s requester e.addr (encode_wakeup_config cfg) in
      elim written.0 [
        | some error ↦ (some error, e, written.1)
        | none ↦ (none, record e { cfg = cfg }, written.1)
      ]
]

abbrev pub set_retention_lost : WakeupEndpoint → WakeupEndpoint
set_retention_lost e = record e { retention_lost = true }

abbrev pub is_handshake : WakeupEvent → Bool
is_handshake (power_state_changed state) = false
is_handshake (wake_handshake h) = true

-- The loop that keeps what is no handshake.
unfoldable pub unacknowledged : List WakeupEvent → List WakeupEvent
unacknowledged [] = []
unacknowledged (t ∷ ts) =
    let rest = unacknowledged ts in if not (is_handshake t) then t ∷ rest else rest

unfoldable pub acknowledge_wake : WakeupEndpoint → WakeupEndpoint
acknowledge_wake e = record e { triggers = unacknowledged e.triggers }

abbrev pub drain_wakeup : WakeupEndpoint → List WakeupEvent × WakeupEndpoint
drain_wakeup e = (e.triggers, record e { triggers = [] })

-- The loop over the repeats, from `seq` on; `n` are left.
unfoldable pub repeats : ℕ → ℕ → ℕ → List WakeHandshake
repeats start seq zero = []
repeats start seq (suc n) = record { start = start; sequence = seq } ∷ repeats start (seq + 1) n

unfoldable pub as_events : List WakeHandshake → List WakeupEvent
as_events [] = []
as_events (h ∷ hs) = wake_handshake h ∷ as_events hs

abbrev pub start_kind : WakeupEndpoint → ℕ
start_kind e = if e.retention_lost then start_cold else start_hot

unfoldable pub transition_to : WakeupEndpoint → ℕ → Option Error × WakeupEndpoint
transition_to e target =
    if target == power_unpowered
    then (some cannot_request_unpowered, e)
    else if not (is_valid_state target)
    then (some invalid_power_state, e)
    else if e.state == target
    then (none, e)
    else if e.state == power_sleep && target == power_normal
    then (
      none,
      record e {
        state = target;
        retention_lost = false;
        last_start_kind = start_kind e;
        triggers =
            (e.triggers ++ (power_state_changed target ∷ []))
            ++ as_events (repeats (start_kind e) 0 e.cfg.handshake_repeat_count);
      },
    )
    else (
      none,
      record e { state = target; triggers = e.triggers ++ (power_state_changed target ∷ []) },
    )

pub wakeup_response_for : Message → ℕ → List ℕ → Message
wakeup_response_for req rw_flag body = record no_message {
  kind = req.kind;
  byte_bus_id = req.byte_bus_id;
  transaction_num = req.transaction_num;
  control = bit_or flag_response rw_flag;
  body = body;
}

pub handle_wakeup_request :
    Server → WakeupEndpoint → StreamId → Message → Result Message × WakeupEndpoint
unfolding wakeup_response_for
handle_wakeup_request s e requester req =
    if req.byte_bus_id != e.addr
    then (err wakeup_wrong_endpoint, e)
    else elim (read_endpoint s requester e.addr) [
      | err error ↦ (err error, e)
      | ok block ↦
          if not e.cfg.enabled
          then (err wakeup_not_configured, e)
          else if has req.control flag_write
          then elim (decode_power_state_request req.body) [
            | err error ↦ (err error, e)
            | ok target ↦
                let moved = transition_to e target in
                elim moved.0 [
                  | some error ↦ (err error, moved.1)
                  | none ↦ (
                    ok (wakeup_response_for req flag_write (encode_power_state_request target)),
                    moved.1,
                  )
                ]
          ]
          else if has req.control flag_read
          then (ok (wakeup_response_for req flag_read (encode_power_state_request e.state)), e)
          else (err wakeup_must_read_or_write, e)
    ]
