-- ===== src/Gpio/Pins.antt =====
-- gpio/endpoint.go: the values of the pins, and the signals of their changes.
use go_rcp.Base.{
  ==_iff, ◌&&◌, not, ◌≢◌, ℕ, ◌^◌, ◌<◌, ◌≡◌, refl, ap, bit_and, bit_xor, Bool, [], ◌∷◌, ◌++◌, ltb,
  ◌==◌, if◌then◌else◌, arith, Bool-cases, inl, inr,
}
use go_rcp.Base.BitAt.{
  and_not, bit_at, bit_at-and_not, bit_at-and, bit_at-or, bit_at-xor, bit_at-ones, bit_at-high,
  bit_at-lt, bit_at-zero, lt_of_high,
}
use go_rcp.Gpio.{Config, active_mask, Endpoint, TriggerEvent, record_change, complement, blend}
use go_rcp.Gpio.Configured.{IsConfig, IsReady}

-- Where `m` has a bit, that of `x`, and elsewhere that of `value`.
bit_at-blend :
    (value x m k : ℕ)
    → bit_at (blend value x m) k ≡ (if bit_at m k == 1 then bit_at x k else bit_at value k)
bit_at-blend value x m k = ground (
  arith,
  bit_at-or (and_not value m) (bit_and x m) k,
  bit_at-and_not value m k,
  bit_at-and x m k,
  bit_at-lt m k,
  bit_at-lt x k,
  bit_at-lt value k,
)

-- Pin `k` is one of the endpoint.
abbrev pub is_pin : Config → ℕ → Bool
is_pin c k = ltb k c.pin_count

abbrev pub is_output : Config → ℕ → Bool
is_output c k = bit_at c.direction k == 1

pub bit_at-active :
    (c : Config) (k : ℕ) → IsConfig c → bit_at (active_mask c) k ≡ (if is_pin c k then 1 else 0)
bit_at-active c k h = bit_at-ones c.pin_count (active_mask c) k h.mask

-- The bits of the mask of outputs, and of that of inputs.
pub bit_at-out :
    (c : Config) (k : ℕ)
    → IsConfig c
    → bit_at (bit_and c.direction (active_mask c)) k ≡ bit_at c.direction k
bit_at-out c k h = elim (Bool-cases (ltb k c.pin_count)) [
  | inl pin ↦ ground (
    arith,
    pin,
    bit_at-and c.direction (active_mask c) k,
    bit_at-active c k h,
    bit_at-lt c.direction k,
  )
  | inr far ↦ ground (
    arith,
    far,
    bit_at-and c.direction (active_mask c) k,
    bit_at-active c k h,
    bit_at-high c.pin_count c.direction k h.direction (ground (arith, far)),
  )
]

pub bit_at-in :
    (c : Config) (k : ℕ)
    → IsConfig c
    → bit_at (bit_and (complement c.direction) (active_mask c)) k
      ≡ (if is_pin c k && not (is_output c k) then 1 else 0)
bit_at-in c k h = elim (Bool-cases (ltb k c.pin_count)) [
  | inl pin ↦ ground (
    arith,
    pin,
    bit_at-and (complement c.direction) (active_mask c) k,
    bit_at-active c k h,
    bit_at-xor c.direction 0xffffffff k,
    bit_at-lt c.direction k,
    bit_at-ones 32 0xffffffff k (omega arith),
    h.counted,
  )
  | inr far ↦ ground (
    arith,
    far,
    bit_at-and (complement c.direction) (active_mask c) k,
    bit_at-active c k h,
    bit_at-lt (complement c.direction) k,
  )
]

-- A change from `e` to `e'` was signalled: there is one event more, with the pins that changed of those that
-- have the signal, or there is no such pin and the events are the same.
pub data Signalled (e e' : Endpoint) : Type 0 where
  quiet :
      ((k : ℕ) → bit_at e.cfg.trigger_enable k ≡ 1 → bit_at e.value k ≡ bit_at e'.value k)
      → e'.triggers ≡ e.triggers
      → Signalled e e'
  event :
      (t : TriggerEvent)
      → ((k : ℕ)
          → bit_at t.changed_mask k ≡ (
              if bit_at e.cfg.trigger_enable k == 1 && not (bit_at e.value k == bit_at e'.value k)
              then 1
              else 0))
      → t.changed_mask ≢ 0
      → t.value ≡ e'.value
      → e'.triggers ≡ e.triggers ++ (t ∷ [])
      → Signalled e e'

bit_at-changed :
    (before after enable k : ℕ)
    → bit_at (bit_and (bit_xor before after) enable) k
      ≡ (if bit_at enable k == 1 && not (bit_at before k == bit_at after k) then 1 else 0)
bit_at-changed before after enable k = ground (
  arith,
  bit_at-and (bit_xor before after) enable k,
  bit_at-xor before after k,
  bit_at-lt before k,
  bit_at-lt after k,
  bit_at-lt enable k,
)

record_change-Signalled :
    (e : Endpoint) (after : ℕ)
    → Signalled e (record_change (record e { value = after }) e.value after)
unfolding record_change
record_change-Signalled e after =
    let changed = bit_and (bit_xor e.value after) e.cfg.trigger_enable in
    elim (Bool-cases (changed == 0)) [
      | inl same ↦
          rw (record_change, same)
            (quiet
              (λ k on. ground (
                arith,
                on,
                same,
                bit_at-changed e.value after e.cfg.trigger_enable k,
                ap (λ x. bit_at x k) ((==_iff changed 0).0 same),
                bit_at-zero k,
              ))
              refl)
      | inr some_pin ↦
          rw (record_change, some_pin)
            (event (record { changed_mask = changed; value = after })
              (λ k. bit_at-changed e.value after e.cfg.trigger_enable k)
              (λ same. ground (arith, same, some_pin)) refl refl)
    ]

-- What a change of the values to `after`, at the pins `on` to the bits of `x`, comes to.
pub record Driven (e e' : Endpoint) (on : ℕ → Bool) (x : ℕ) : Type 0 where
  pub pins : (k : ℕ) → bit_at e'.value k ≡ (if on k then bit_at x k else bit_at e.value k)
  pub configuration : e'.cfg ≡ e.cfg
  pub address : e'.addr ≡ e.addr
  pub signal : Signalled e e'
  pub ready : IsReady e'

pub record_change_kept :
    (e : Endpoint) (before after : ℕ)
    → ((record_change e before after).value ≡ e.value)
      × ((record_change e before after).cfg ≡ e.cfg)
      × ((record_change e before after).addr ≡ e.addr)
unfolding record_change
record_change_kept e before after = ground arith

pub blend-Driven :
    (e : Endpoint) (m x : ℕ) (on : ℕ → Bool)
    → IsReady e
    → ((k : ℕ) → bit_at m k ≡ (if on k then 1 else 0))
    → m < 2 ^ e.cfg.pin_count
    → Driven e
        (record_change (record e { value = blend e.value x m }) e.value (blend e.value x m))
        on
        x
blend-Driven e m x on ready mask small =
    let after = blend e.value x m in
    let kept = record_change_kept (record e { value = after }) e.value after in
    let fits : after < 2 ^ e.cfg.pin_count = lt_of_high e.cfg.pin_count after λ k l. ground (
      arith,
      bit_at-blend e.value x m k,
      bit_at-high e.cfg.pin_count e.value k ready.value l,
      bit_at-high e.cfg.pin_count m k small l,
    ) in
    record {
      pins = λ k. rw kept.0 (ground (arith, bit_at-blend e.value x m k, mask k));
      configuration = kept.1;
      address = kept.2;
      signal = record_change-Signalled e after;
      ready = record { valid = rw kept.1 ready.valid; value = rw (kept.0, kept.1) fits };
    }
