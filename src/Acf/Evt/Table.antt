-- ===== src/Acf/Evt/Table.antt =====
-- The write operators that evt fields choose, the saturating writes and the configuration bodies of acf/evt.go.
use go_rcp.Base.{
  ◌≢◌, ◌⊎◌, zero, suc, inl, inr, Bool-cases, ℕ, ◌+◌, ◌-◌, ◌%◌, ◌^◌, ◌<◌, bit_and, ◌≡◌, refl, ◌&&◌,
  List, length, ◌==◌, ◌!=◌, Result, ok, err, arith, evt_reserved, evt_missing_payload,
}
use Prim.Native.Nat.{min}
use go_rcp.Base.Bits.{and_mask}
use go_rcp.Base.Bytes.{get_be-put_be, put_be}
use go_rcp.Acf.{Message}
use go_rcp.Acf.Evt.{
  action_interface, evt_class_arithmetic, EvtDisposition, action_configure, classify_evt,
  check_evt_payload_presence, evt_disposition, apply_evt_write_op, encode_config_request_body,
  decode_config_request_body,
}

three_bits : (evt : ℕ) → bit_and evt 7 ≡ evt % 8
three_bits evt = and_mask 3 evt 7 refl

-- What an evt field with these three low bits asks of the arithmetic class.
abbrev pub IsRow : Result EvtDisposition → (sel payload current saturate_at : ℕ) → Type 0
IsRow answer sel payload current saturate_at =
    ((sel ≡ 7) × (answer ≡ ok (record { action = action_configure; channel = 0; write_op = 0 })))
    ⊎ ((v : ℕ) × (apply_evt_write_op sel payload current saturate_at ≡ ok v)
        × (answer ≡ ok (record { action = action_interface; channel = 0; write_op = sel })))
    ⊎ ((sel ≢ 7)
        × (apply_evt_write_op sel payload current saturate_at ≡ err evt_reserved)
        × (answer ≡ err evt_reserved))

classify_evt-IsRow :
    (evt payload current saturate_at sel : ℕ)
    → bit_and evt 7 ≡ sel
    → sel < 8
    → IsRow (classify_evt evt_class_arithmetic evt) sel payload current saturate_at
unfolding classify_evt apply_evt_write_op
classify_evt-IsRow evt payload current saturate_at zero s h = inr (inl (_, refl, rw s refl))
classify_evt-IsRow evt payload current saturate_at (suc zero) s h = inr (inl (_, refl, rw s refl))
classify_evt-IsRow evt payload current saturate_at (suc (suc zero)) s h =
    inr (inl (_, refl, rw s refl))
classify_evt-IsRow evt payload current saturate_at (suc (suc (suc zero))) s h =
    inr (inl (_, refl, rw s refl))
classify_evt-IsRow evt payload current saturate_at (suc (suc (suc (suc zero)))) s h =
    inr (inr ((λ e. omega arith), refl, rw s refl))
classify_evt-IsRow evt payload current saturate_at (suc (suc (suc (suc (suc zero))))) s h =
    inr (inl (_, refl, rw s refl))
classify_evt-IsRow evt payload current saturate_at (suc (suc (suc (suc (suc (suc zero)))))) s h =
    inr (inl (min saturate_at (payload - current), ground arith, rw s refl))
classify_evt-IsRow evt payload current saturate_at (suc (suc (suc (suc (suc (suc (suc zero))))))) s
      h =
    inl (refl, rw s refl)
classify_evt-IsRow evt payload current saturate_at (suc (suc (suc (suc (suc (suc (suc (suc n))))))))
      s h =
    absurd (omega (arith, h))

module _ (m : Message) (payload current saturate_at : ℕ) where
  -- What an endpoint of the arithmetic class makes of a request: a request with one of the three low bits of evt
  -- set and no payload lacks its payload; else 7 in those bits changes the configuration, and any other value
  -- chooses itself as the write operator where a write by it gives a value, and is reserved where a write
  -- by it gives an error. The bit above the three, which asks for an acknowledgement, does not matter.
  pub evt_disposition-apply_evt_write_op :
      ((m.evt % 8 ≢ 0)
        × (length m.body ≡ 0)
        × (evt_disposition m evt_class_arithmetic ≡ err evt_missing_payload))
      ⊎ (((m.evt % 8 ≡ 0) ⊎ (length m.body ≢ 0))
          × IsRow (evt_disposition m evt_class_arithmetic) (m.evt % 8) payload current saturate_at)
  unfolding evt_disposition check_evt_payload_presence
  evt_disposition-apply_evt_write_op =
      let sel : bit_and m.evt 7 ≡ m.evt % 8 = three_bits m.evt in
      elim (Bool-cases (m.evt % 8 != 0 && length m.body == 0)) [
        | inl lacks ↦
            inl
              (ground (arith, lacks), ground (arith, lacks), rw (evt_disposition, sel, lacks) refl)
        | inr has_it ↦
            let same : evt_disposition m evt_class_arithmetic
                ≡ classify_evt evt_class_arithmetic m.evt =
              rw (evt_disposition, sel, has_it) refl in
            inr (
              ground (arith, has_it),
              rw same (
                  classify_evt-IsRow m.evt payload current saturate_at (m.evt % 8) sel
                    (omega arith)),
            )
      ]

-- A saturating write stays within the bound: a sum is the true sum or the bound, whichever is less, and
-- a difference, of the payload and what is there, is 0 where it would be negative.
pub apply_evt_write_op-saturates :
    (payload current saturate_at : ℕ)
    → (apply_evt_write_op 5 payload current saturate_at ≡ ok (min saturate_at (payload + current)))
      × (apply_evt_write_op 6 payload current saturate_at
          ≡ ok (min saturate_at (payload - current)))
unfolding apply_evt_write_op
apply_evt_write_op-saturates payload current saturate_at = (ground arith, ground arith)

-- A configuration request is read back, start address and data.
pub decode_config_request_body-encode_config_request_body :
    (start_addr : ℕ) (data_bytes : List ℕ)
    → start_addr < 2 ^ 16
    → decode_config_request_body (encode_config_request_body start_addr data_bytes)
      ≡ ok (start_addr, data_bytes)
unfolding decode_config_request_body encode_config_request_body put_be
decode_config_request_body-encode_config_request_body start_addr data_bytes h =
    ground (arith, get_be-put_be 2 start_addr)
