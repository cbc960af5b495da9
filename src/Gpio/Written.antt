-- ===== src/Gpio/Written.antt =====
-- gpio/endpoint.go and gpio/semantics.go: what the inputs and the writes of a GPIO endpoint come to.
use go_rcp.Base.{
  ℕ, ◌+◌, ◌-◌, ◌^◌, ◌≤◌, ◌<◌, ◌≡◌, ap, ◌∙◌, sym, bit_and, bit_or, bit_xor, false, not, ◌&&◌, ◌%◌,
  ltb, ◌==◌, if◌then◌else◌, Error, ok, err, arith, ◌⊎◌, Bool-cases, Result-cases, inl, inr,
}
use Prim.Native.Nat.{min, max}
use native.Mathlib.Nat.{mod-eq_of_lt}
use go_rcp.Base.Bits.{and_mask}
use go_rcp.Base.BitAt.{
  bit_at, bit_at-high, bit_at-and, bit_at-or, bit_at-xor, bit_at-lt, lt_of_high,
}
use go_rcp.Acf.Evt.{
  is_valid_write_op, evt_write_set, evt_write_or, evt_write_and, evt_write_xor,
  evt_write_add_saturating, evt_write_sub_saturating, apply_evt_write_op,
}
use go_rcp.Gpio.{
  Config, active_mask, Endpoint, complement, blend, set_inputs, apply_write, apply_value,
}
use go_rcp.Gpio.Configured.{IsConfig, IsReady, validate-IsConfig}
use go_rcp.Gpio.Pins.{
  is_pin, is_output, bit_at-active, bit_at-out, bit_at-in, Driven, blend-Driven, record_change_kept,
}

fits_pins :
    (c : Config) (m : ℕ) → ((k : ℕ) → is_pin c k ≡ false → bit_at m k ≡ 0) → m < 2 ^ c.pin_count
fits_pins c m h = lt_of_high c.pin_count m λ k l. h k (ground (arith, l))

-- The inputs take the bits of the mask, the outputs and all beyond the pins keep theirs, and the change is
-- signalled.
pub set_inputs-Driven :
    (e : Endpoint) (mask : ℕ)
    → IsReady e
    → Driven e (set_inputs e mask).1 (λ k. is_pin e.cfg k && not (is_output e.cfg k)) mask
      × ((set_inputs e mask).0 ≡ (set_inputs e mask).1.value)
unfolding set_inputs
set_inputs-Driven e mask ready =
    let c = validate-IsConfig e.cfg ready.valid in
    let in_mask = bit_and (complement e.cfg.direction) (active_mask e.cfg) in
    let bits = λ (k : ℕ). bit_at-in e.cfg k c in
    let fits = fits_pins e.cfg in_mask (λ k far. ground (arith, far, bits k)) in
    let driven =
      blend-Driven e in_mask mask (λ k. is_pin e.cfg k && not (is_output e.cfg k)) ready bits
        fits in
    let after = blend e.value mask in_mask in
    (driven, sym (record_change_kept (record e { value = after }) e.value after).0)

-- A write operator on pins `n`, bit by bit or with saturation.
pub data Combined (n operand current : ℕ) : ℕ → ℕ → Type 0 where
  sets :
      (op c : ℕ)
      → op ≡ evt_write_set
      → ((k : ℕ) → bit_at c k ≡ (if ltb k n then bit_at operand k else 0))
      → Combined n operand current op c
  ors :
      (op c : ℕ)
      → op ≡ evt_write_or
      → ((k : ℕ) → bit_at c k ≡ (if ltb k n then max (bit_at operand k) (bit_at current k) else 0))
      → Combined n operand current op c
  ands :
      (op c : ℕ)
      → op ≡ evt_write_and
      → ((k : ℕ) → bit_at c k ≡ (if ltb k n then min (bit_at operand k) (bit_at current k) else 0))
      → Combined n operand current op c
  xors :
      (op c : ℕ)
      → op ≡ evt_write_xor
      → ((k : ℕ) → bit_at c k ≡ (if ltb k n then (bit_at operand k + bit_at current k) % 2 else 0))
      → Combined n operand current op c
  adds :
      (op c : ℕ)
      → op ≡ evt_write_add_saturating
      → c ≡ min (2 ^ n - 1) (operand + current)
      → Combined n operand current op c
  subs :
      (op c : ℕ)
      → op ≡ evt_write_sub_saturating
      → c ≡ min (2 ^ n - 1) (operand - current)
      → Combined n operand current op c

-- A value that does not exceed the mask has no bits beyond it.
masked :
    (cfg : Config) (v : ℕ) → IsConfig cfg → v ≤ active_mask cfg → bit_and v (active_mask cfg) ≡ v
masked cfg v c l = omega (
  arith,
  and_mask cfg.pin_count v (active_mask cfg) c.mask,
  mod-eq_of_lt {n = v} {m = 2 ^ cfg.pin_count} (omega (arith, c.mask, l)),
)

pub apply_value-Combined :
    (cfg : Config) (current operand op candidate : ℕ)
    → IsConfig cfg
    → apply_value current operand op (active_mask cfg) ≡ ok candidate
    → Combined cfg.pin_count operand current op candidate
unfolding apply_value apply_evt_write_op
apply_value-Combined cfg current operand op candidate c h =
    let active = active_mask cfg in
    let top : active ≡ 2 ^ cfg.pin_count - 1 = omega (arith, c.mask) in
    elim (Bool-cases (op == evt_write_set)) [
      | inl is_set ↦
          let v : candidate ≡ bit_and operand active = ground (arith, is_set, h) in
          sets op candidate (ground (arith, is_set)) (λ k. rw v (
            ground
              (arith, bit_at-and operand active k, bit_at-active cfg k c, bit_at-lt operand k)))
      | inr n0 ↦ elim (Bool-cases (op == evt_write_or)) [
        | inl is_or ↦
            let v : candidate ≡ bit_and (bit_or operand current) active =
              ground (arith, is_or, h) in
            ors op candidate (ground (arith, is_or)) (λ k. rw v (
              ground (
                arith,
                bit_at-and (bit_or operand current) active k,
                bit_at-or operand current k,
                bit_at-active cfg k c,
                bit_at-lt operand k,
                bit_at-lt current k,
              )))
        | inr n1 ↦ elim (Bool-cases (op == evt_write_and)) [
          | inl is_and ↦
              let v : candidate ≡ bit_and (bit_and operand current) active =
                ground (arith, is_and, h) in
              ands op candidate (ground (arith, is_and)) (λ k. rw v (
                ground (
                  arith,
                  bit_at-and (bit_and operand current) active k,
                  bit_at-and operand current k,
                  bit_at-active cfg k c,
                  bit_at-lt operand k,
                  bit_at-lt current k,
                )))
          | inr n2 ↦ elim (Bool-cases (op == evt_write_xor)) [
            | inl is_xor ↦
                let v : candidate ≡ bit_and (bit_xor operand current) active =
                  ground (arith, is_xor, h) in
                xors op candidate (ground (arith, is_xor)) (λ k. rw v (
                  ground (
                    arith,
                    bit_at-and (bit_xor operand current) active k,
                    bit_at-xor operand current k,
                    bit_at-active cfg k c,
                    bit_at-lt operand k,
                    bit_at-lt current k,
                  )))
            | inr n3 ↦ elim (Bool-cases (op == evt_write_add_saturating)) [
              | inl is_add ↦
                  let v : candidate ≡ bit_and (min active (operand + current)) active =
                    ground (arith, is_add, h) in
                  adds op candidate (ground (arith, is_add))
                    (rw (← top) (v ∙ masked cfg (min active (operand + current)) c (omega arith)))
              | inr n5 ↦
                  let is_sub : op ≡ evt_write_sub_saturating =
                    ground (arith, n0, n1, n2, n3, n5, h) in
                  let v : candidate ≡ bit_and (min active (operand - current)) active =
                    ground (arith, is_sub, h) in
                  subs op candidate is_sub
                    (rw (← top) (v ∙ masked cfg (min active (operand - current)) c (omega arith)))
            ]
          ]
        ]
      ]
    ]

apply_value_invalid :
    (current operand op active : ℕ) (error : Error)
    → apply_value current operand op active ≡ err error
    → is_valid_write_op op ≡ false
unfolding apply_value apply_evt_write_op
apply_value_invalid current operand op active error h = ground (arith, h)

-- A write with an operator that is none changes nothing. Any other leaves the inputs as they are, sets the
-- outputs to what the operator makes of the operand and the values before, signals the change, and answers
-- with the values after.
pub apply_write-Driven :
    (e : Endpoint) (op operand : ℕ)
    → IsReady e
    → ((error : Error) × (apply_write e op operand ≡ (err error, e))
        × (is_valid_write_op op ≡ false))
      ⊎ ((candidate : ℕ) × Combined e.cfg.pin_count operand e.value op candidate
          × Driven e (apply_write e op operand).1 (is_output e.cfg) candidate
          × ((apply_write e op operand).0 ≡ ok (apply_write e op operand).1.value))
unfolding apply_write
apply_write-Driven e op operand ready =
    let c = validate-IsConfig e.cfg ready.valid in
    let out_mask = bit_and e.cfg.direction (active_mask e.cfg) in
    let on : (k : ℕ) → bit_at out_mask k ≡ (if is_output e.cfg k then 1 else 0) =
      λ k. ground (arith, bit_at-out e.cfg k c, bit_at-lt e.cfg.direction k) in
    let fits = fits_pins e.cfg out_mask (λ k far. ground (
      arith,
      far,
      bit_at-out e.cfg k c,
      bit_at-high e.cfg.pin_count e.cfg.direction k c.direction,
    )) in
    elim (Result-cases (apply_value e.value operand op (active_mask e.cfg))) [
      | inr (error, bad) ↦ inl (
        error,
        rw (apply_write, bad),
        apply_value_invalid e.value operand op (active_mask e.cfg) error bad,
      )
      | inl (candidate, good) ↦
          let after = blend e.value candidate out_mask in
          inr (
            candidate,
            apply_value-Combined e.cfg e.value operand op candidate c good,
            rw (apply_write, good)
                (blend-Driven e out_mask candidate (is_output e.cfg) ready on fits),
            rw (apply_write, good)
                (ap ok (sym (record_change_kept (record e { value = after }) e.value after).0)),
          )
    ]
