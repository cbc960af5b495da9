-- ===== src/E2e/Tests.antt =====
-- Safe points, guards and supervisors of concrete messages and arrivals.
use go_rcp.Base.{
  ℕ, ◌+◌, ◌-◌, ◌%◌, ◌^◌, ◌<◌, ◌≤◌, ◌≡◌, ◌≢◌, refl, true, false, none, some, Error, ◌⊎◌, [], ◌∷◌,
  ◌++◌, length, bytes_eq, ok, err, crc_mismatch, arith,
}
use go_rcp.Base.Assoc.{lookup, bytes_instance}
use go_rcp.Base.Bytes.{put_be, get_be, AllBytes}
use go_rcp.Avtp.{StreamId, IsStreamId}
use go_rcp.Acf.{Message, no_message, flag_write}
use go_rcp.E2e.{
  checksum, covered, compute, zeros, pad_len_for, protect, recover_protected, try_pads,
  compute_fragmented, joined_bodies, verify, verify_fragmented,
}
use go_rcp.E2e.Protected.{IsProtected, verify-IsProtected, verify-protect}
use go_rcp.E2e.Fragmented.{verify_fragmented-verify}
use go_rcp.E2e.Guard.{Guard, new_guard, handle_request}
use go_rcp.E2e.Guard.Exchange.{IsCarried, handle_request-IsCarried}
use go_rcp.E2e.Supervisor.{
  StreamConfig, StreamState, Supervisor, new_supervisor, config_for, zero_state, observe,
  in_safe_state,
}
use go_rcp.E2e.Supervisor.Trips.{observed, cleared, apply_all, any_clears, in_safe_state_sticky}

-- The published check value, over "123456789", and no data at all.
check_value :
    checksum (0x31 ∷ 0x32 ∷ 0x33 ∷ 0x34 ∷ 0x35 ∷ 0x36 ∷ 0x37 ∷ 0x38 ∷ 0x39 ∷ []) ≡ 0x1697d06a
unfolding checksum
check_value = refl

check_empty : checksum [] ≡ 0
unfolding checksum
check_empty = refl

abbrev sender : StreamId
sender = 2 ∷ 0 ∷ 0x5e ∷ 0x10 ∷ 0 ∷ 1 ∷ 0 ∷ 1 ∷ []

sender-IsStreamId : IsStreamId sender
sender-IsStreamId = record {
  eight = refl;
  bytes = (
    omega arith,
    (
      omega arith,
      (omega arith, (omega arith, (omega arith, (omega arith, (omega arith, (omega arith, tt)))))),
    ),
  );
}

abbrev five_octets : Message
five_octets = record no_message {
  kind = 1;
  byte_bus_id = 5;
  transaction_num = 1;
  control = flag_write;
  body = 1 ∷ 2 ∷ 3 ∷ 4 ∷ 5 ∷ [];
}

verified : verify sender (protect sender five_octets) ≡ ok five_octets
unfolding verify protect pad_len_for recover_protected compute checksum covered put_be try_pads
    get_be
verified = refl

verify-IsProtected_example : IsProtected sender (protect sender five_octets) five_octets
verify-IsProtected_example =
    verify-IsProtected sender (protect sender five_octets) five_octets verified

verify-protect_example :
    (extra : ℕ) × (extra ≤ pad_len_for (length five_octets.body))
    × (verify sender (protect sender five_octets)
        ≡ ok (record five_octets { body = five_octets.body ++ zeros extra }))
    × (compute sender (record five_octets { body = five_octets.body ++ zeros extra })
        ≡ compute sender five_octets)
verify-protect_example =
    verify-protect sender five_octets sender-IsStreamId
      (omega arith, (omega arith, (omega arith, (omega arith, (omega arith, tt)))))

verify_fragmented-verify_example :
    verify_fragmented sender five_octets
      ((1 ∷ 2 ∷ []) ∷ [] ++ ((3 ∷ 4 ∷ 0 ∷ 5 ∷ 6 ∷ 7 ∷ 8 ∷ []) ∷ []))
    ≡ verify sender (record five_octets {
      body = joined_bodies ((1 ∷ 2 ∷ []) ∷ [] ++ ((3 ∷ 4 ∷ 0 ∷ 5 ∷ 6 ∷ 7 ∷ 8 ∷ []) ∷ []));
    })
verify_fragmented-verify_example =
    verify_fragmented-verify sender five_octets ((1 ∷ 2 ∷ []) ∷ []) (3 ∷ 4 ∷ 0 ∷ 5 ∷ 6 ∷ 7 ∷ 8 ∷ [])
      (omega arith)

-- The pad bytes of a message of five octets, apart from the safe point.
pads_apart :
    verify_fragmented sender five_octets
      ((1 ∷ 2 ∷ 3 ∷ 4 ∷ 5 ∷ 0 ∷ 0 ∷ 0 ∷ []) ∷ put_be 4 (compute sender five_octets) ∷ [])
    ≡ err crc_mismatch
unfolding verify_fragmented recover_protected compute checksum covered put_be joined_bodies try_pads
    compute_fragmented get_be
pads_apart = refl

-- It answers with two bytes.
abbrev two_bytes : Guard ℕ
two_bytes = new_guard (λ w from m. ((record no_message { body = 6 ∷ 7 ∷ [] }, none), w + 1))

two_bytes-AllBytes : (m : Message) → AllBytes (two_bytes.handler 0 sender m).0.0.body
two_bytes-AllBytes m = (omega arith, (omega arith, tt))

handle_request-IsCarried_example :
    (inner : Message) × IsCarried sender five_octets inner
    × (let out = handle_request two_bytes 0 sender (protect sender five_octets) in
        let answer = two_bytes.handler 0 sender inner in
        (out.1 ≡ answer.1)
        × (((e : Error) × (answer.0.1 ≡ some e) × (out.0 ≡ (no_message, some e)))
            ⊎ ((received : Message) × (answer.0.1 ≡ none)
                × (out.0.1 ≡ none)
                × IsCarried sender answer.0.0 received
                × (verify sender out.0.0 ≡ ok received))))
handle_request-IsCarried_example =
    handle_request-IsCarried two_bytes 0 sender five_octets sender-IsStreamId
      (omega arith, (omega arith, (omega arith, (omega arith, (omega arith, tt)))))
      two_bytes-AllBytes

abbrev strict : StreamConfig
strict = record { timeout = 50; require_monotonic_sequence = true; sequence_overflow_wraps = false }

abbrev at_the_top : StreamState
at_the_top = record zero_state { have_seq = true; last_seq = 2 ^ 32 - 1 }

none_cleared : any_clears sender (observed 16 sender 10 ∷ cleared 17 [] ∷ []) ≡ false
unfolding bytes_eq
none_cleared = refl

nine_skips : 9 ≢ (7 + 1) % 2 ^ 32
nine_skips = omega arith

seven_fits : 7 < 2 ^ 32
seven_fits = omega arith

abbrev new : Supervisor
new = new_supervisor strict

strictly : (config_for new sender).require_monotonic_sequence ≡ true
unfolding config_for lookup
strictly = refl

in_safe_state_sticky_example :
    in_safe_state
      (apply_all
        (observe (observe new 10 sender 7).1 15 sender 9).1
        (observed 16 sender 10 ∷ cleared 17 [] ∷ []))
      18
      sender
    ≡ true
in_safe_state_sticky_example =
    in_safe_state_sticky new 10 15 7 9 (observed 16 sender 10 ∷ cleared 17 [] ∷ []) 18 sender
      strictly seven_fits nine_skips none_cleared
