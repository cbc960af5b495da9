-- ===== src/Base/Errors.antt =====
-- The error values of the packages, and Go's `(value, error)` pair as a result.
use Prim.Native.Nat.{ℕ}
use mathlib.Core.Path.{◌≡◌, refl}
use mathlib.Core.Logic.{◌⊎◌, inl, inr}
use mathlib.Core.Bool.{Bool, true, false}

-- One constructor for each sentinel error that the modelled packages declare. A wrapped error
-- (`fmt.Errorf("%w …")`) is the sentinel that `errors.Is` finds. `foreign` is an error that code of
-- the caller returns: a handler, an access check.
pub data Error : Type 0 where
  -- avtp
  short_header unsupported_version unknown_subtype reserved_bits_set data_length_overflow : Error
  -- acf
  short_message unknown_message_kind length_overflow evt_overflow transaction_num_overflow : Error
  byte_bus_id_overflow read_size_overflow trailing_message_bytes frame_length_mismatch : Error
  evt_reserved evt_unknown_class evt_missing_payload short_config_request : Error
  -- prioqueue
  queue_invalid_kind : Error
  -- fragment
  invalid_max_segment_body already_fragmented too_many_segments out_of_order_segment : Error
  duplicate_segment header_mismatch sequence_complete unknown_sequence incomplete : Error
  awaiting_segments : Error
  -- request
  short_buffer invalid_kind wrong_kind trailing_bytes invalid_compare_op : Error
  invalid_segment_count chained_segment_failed unknown_ticket pending ticket_cancelled : Error
  purged_by_watchdog safe_state_not_configured : Error
  -- e2e
  short_safe_point crc_mismatch sequence_violation : Error
  -- regmap, lifecycle, discovery
  register_locked general_block_read_only pin_map_invalid queue_config_invalid : Error
  reserved_address duplicate_endpoint unknown_endpoint not_root_client : Error
  root_already_claimed access_denied : Error
  map_short_buffer unknown_endpoint_type unsupported_register_map_version bad_magic : Error
  map_trailing_bytes : Error
  lifecycle_out_of_order functional_block_incomplete demotion_not_authorized : Error
  configuration_claimed not_configuration_claimant : Error
  discovery_requires_untimed_header discovery_request_is_acf_gbb : Error
  -- gpio
  gpio_short_buffer gpio_trailing_bytes pin_count_out_of_range wrong_endpoint : Error
  request_must_read_or_write : Error
  -- wakeup
  wakeup_short_buffer wakeup_trailing_bytes invalid_handshake_interval : Error
  invalid_handshake_repeat_count wakeup_not_configured wakeup_wrong_endpoint : Error
  wakeup_must_read_or_write cannot_request_unpowered invalid_power_state : Error
  -- deadline
  invalid_deadline no_heartbeat_configured invalid_missed_heartbeats : Error
  -- authz and redundancy, over controllers
  denied closed : Error
  -- udp and pwm
  udp_unknown_endpoint udp_duplicate_endpoint udp_reserved_address udp_wrong_endpoint : Error
  udp_must_read_or_write udp_short_buffer signal_lost : Error
  foreign : ℕ → Error

pub data Result {ℓ} (A : Type ℓ) : Type ℓ where
  ok : A → Result A
  err : Error → Result A

pub Result-cases {ℓ} :
    {A : Type ℓ} (r : Result A) → ((a : A) × (r ≡ ok a)) ⊎ ((e : Error) × (r ≡ err e))
Result-cases (ok a) = inl (a, refl)
Result-cases (err e) = inr (e, refl)

-- `if bad { return err }`
abbrev pub reject_if : Bool → Error → Result (Unit {0})
reject_if true e = err e
reject_if false e = ok tt

-- The rest of a function behind `if err != nil { return err }`.
infixl 5 ◌>>=◌ ◌>>◌
abbrev pub ◌>>=◌ {ℓ κ} : {A : Type ℓ} {B : Type κ} → Result A → (A → Result B) → Result B
err e >>= rest = err e
ok a >>= rest = rest a

abbrev pub ◌>>◌ {ℓ κ} : {A : Type ℓ} {B : Type κ} → Result A → Result B → Result B
first >> rest = first >>= λ _. rest

pub >>=-eq-ok {ℓ κ} :
    {A : Type ℓ} {B : Type κ} (m : Result A) (rest : A → Result B) {b : B}
    → (m >>= rest) ≡ ok b
    → (a : A) × (m ≡ ok a) × (rest a ≡ ok b)
>>=-eq-ok (err e) rest eq = cc
>>=-eq-ok (ok a) rest eq = (a, refl, eq)
