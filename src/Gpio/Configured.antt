-- ===== src/Gpio/Configured.antt =====
-- gpio/config.go and gpio/endpoint.go: the configuration of a GPIO endpoint.
use go_rcp.Base.{
  ℕ, ◌+◌, ◌^◌, ◌≤◌, ◌<◌, ◌≡◌, ap, none, some, List, [], ◌∷◌, leb, Error, ok, arith, Bool-cases,
  Result-cases, Option-cases, inl, inr, All-append, All-take, All-drop,
}
use go_rcp.Base.BitAt.{and_not, bit_at, bit_at-and_not, bit_at-high, bit_at-zero, lt_of_high}
use go_rcp.Base.Bytes.{IsByte, AllBytes, put_be, get_be, get_be-put_be, put_be-AllBytes}
use native.Mathlib.Nat.{one-le-pow, pow-le-pow_right, mod-lt}
use go_rcp.Base.Bits.{and_mask}
use go_rcp.Server.Configured.{IsCallback}
use go_rcp.Gpio.{
  Config, active_mask, validate, encode_config, decode_config, Endpoint, adopt_config,
  encode_config_block, adopt_config_block,
}

-- A mask that has bits of `m` only, of `n` ones, has `n` bits.
lt_of_and_not : (n m a : ℕ) → m + 1 ≡ 2 ^ n → and_not a m ≡ 0 → a < 2 ^ n
lt_of_and_not n m a ones masked = lt_of_high n a λ k l. omega (
  arith,
  bit_at-and_not a m k,
  bit_at-high n m k (omega (arith, ones)) l,
  ap (λ x. bit_at x k) masked,
  bit_at-zero k,
)

-- The masks of the configuration are for its pins.
pub record IsConfig (c : Config) : Type 0 where
  pub counted : c.pin_count ≤ 32
  pub mask : active_mask c + 1 ≡ 2 ^ c.pin_count
  pub direction : c.direction < 2 ^ c.pin_count
  pub trigger_enable : c.trigger_enable < 2 ^ c.pin_count

active_mask-lem : (c : Config) → c.pin_count ≤ 32 → active_mask c + 1 ≡ 2 ^ c.pin_count
unfolding active_mask
active_mask-lem c h = elim (Bool-cases (leb 32 c.pin_count)) [
  | inl full ↦
      let all : c.pin_count ≡ 32 = ground (arith, full) in
      rw full (omega (arith, ap (λ k. 2 ^ k) all))
  | inr fewer ↦ rw fewer (omega (arith, one-le-pow c.pin_count 2))
]

pub validate-IsConfig : (c : Config) → validate c ≡ none → IsConfig c
unfolding validate
validate-IsConfig c h =
    let counted : c.pin_count ≤ 32 = ground (arith, h) in
    let ones = active_mask-lem c counted in
    let d : and_not c.direction (active_mask c) ≡ 0 = ground (arith, h) in
    let t : and_not c.trigger_enable (active_mask c) ≡ 0 = ground (arith, h) in
    record {
      counted = counted;
      mask = ones;
      direction = lt_of_and_not c.pin_count (active_mask c) c.direction ones d;
      trigger_enable = lt_of_and_not c.pin_count (active_mask c) c.trigger_enable ones t;
    }

pub validate_counted : (c : Config) → validate c ≡ none → 0 < c.pin_count
unfolding validate
validate_counted c h = ground (arith, h)

word_bounds : (c : Config) → IsConfig c → (c.direction < 2 ^ 32) × (c.trigger_enable < 2 ^ 32)
word_bounds c h =
    let top = pow-le-pow_right {n = 2} (omega arith) h.counted in
    (omega (arith, h.direction, top), omega (arith, h.trigger_enable, top))

pub decode_config-encode_config : (c : Config) → IsConfig c → decode_config (encode_config c) ≡ ok c
unfolding decode_config encode_config put_be
decode_config-encode_config c h =
    let w = word_bounds c h in
    let d = get_be-put_be 4 c.direction (omega (arith, w)) in
    let t = get_be-put_be 4 c.trigger_enable (omega (arith, w)) in ground (arith, d, t)

put_be-get_be :
    (w x y z : ℕ)
    → AllBytes (w ∷ x ∷ y ∷ z ∷ [])
    → put_be 4 (get_be (w ∷ x ∷ y ∷ z ∷ [])) ≡ w ∷ x ∷ y ∷ z ∷ []
unfolding put_be get_be
put_be-get_be w x y z (hw, (hx, (hy, (hz, none_left)))) = ground (arith, hw, hx, hy, hz)

encode_config-decode_config :
    (b : List ℕ) (c : Config) → AllBytes b → decode_config b ≡ ok c → encode_config c ≡ b
unfolding encode_config decode_config
encode_config-decode_config (p ∷ d0 ∷ d1 ∷ d2 ∷ d3 ∷ t0 ∷ t1 ∷ t2 ∷ t3 ∷ []) c bytes h =
    let d =
      put_be-get_be d0 d1 d2 d3
        (All-take IsByte 4 (d0 ∷ d1 ∷ d2 ∷ d3 ∷ t0 ∷ t1 ∷ t2 ∷ t3 ∷ []) bytes.1) in
    let t =
      put_be-get_be t0 t1 t2 t3
        (All-drop IsByte 5 (p ∷ d0 ∷ d1 ∷ d2 ∷ d3 ∷ t0 ∷ t1 ∷ t2 ∷ t3 ∷ []) bytes) in
    ground (arith, h, d, t)
encode_config-decode_config b c bytes h = ground (arith, h)

encode_config-AllBytes : (c : Config) → IsConfig c → AllBytes (encode_config c)
unfolding encode_config
encode_config-AllBytes c h = (
  omega (arith, h.counted),
  All-append IsByte (put_be 4 c.direction) (put_be 4 c.trigger_enable)
      (put_be-AllBytes 4 c.direction) (put_be-AllBytes 4 c.trigger_enable),
)

-- The endpoint has a configuration that was accepted, and no value beyond its pins.
pub record IsReady (e : Endpoint) : Type 0 where
  pub valid : validate e.cfg ≡ none
  pub value : e.value < 2 ^ e.cfg.pin_count

pub adopt_config-IsReady :
    (e : Endpoint) (cfg : Config) → validate cfg ≡ none → IsReady (adopt_config e cfg)
unfolding adopt_config
adopt_config-IsReady e cfg h =
    let c = validate-IsConfig cfg h in
    record {
      valid = h;
      value = omega (
        arith,
        and_mask cfg.pin_count e.value (active_mask cfg) c.mask,
        mod-lt e.value {m = 2 ^ cfg.pin_count} (omega (arith, one-le-pow cfg.pin_count 2)),
      );
    }

-- What the adoption of a block comes to, where it is not refused.
adopt_config_block-taken :
    (e : Endpoint) (b : List ℕ)
    → (adopt_config_block e b).0 ≡ none
    → (cfg : Config) × (decode_config b ≡ ok cfg)
      × (validate cfg ≡ none)
      × ((adopt_config_block e b).1 ≡ adopt_config e cfg)
unfolding adopt_config_block
adopt_config_block-taken e b h = elim (Result-cases (decode_config b)) [
  | inr (error, bad) ↦ let no : some error ≡ none = rw (adopt_config_block, bad) at h in cc
  | inl (cfg, found) ↦ elim (Option-cases (validate cfg)) [
    | inr (error, bad) ↦ let no : some error ≡ none = rw (adopt_config_block, found, bad) at h in cc
    | inl good ↦ (cfg, found, good, rw (adopt_config_block, found, good))
  ]
]

adopt_config_block-refused :
    (e : Endpoint) (b : List ℕ) (error : Error)
    → (adopt_config_block e b).0 ≡ some error
    → (adopt_config_block e b).1 ≡ e
unfolding adopt_config_block
adopt_config_block-refused e b error h = elim (Result-cases (decode_config b)) [
  | inr (other, bad) ↦ rw (adopt_config_block, bad)
  | inl (cfg, found) ↦ elim (Option-cases (validate cfg)) [
    | inr (other, bad) ↦ rw (adopt_config_block, found, bad)
    | inl good ↦ let no : none ≡ some error = rw (adopt_config_block, found, good) at h in cc
  ]
]

IsConfig-of_ready : (e : Endpoint) → IsReady e → IsConfig e.cfg
IsConfig-of_ready e h = validate-IsConfig e.cfg h.valid

-- The callbacks of a GPIO endpoint, also of one whose configuration was never accepted, keep the promises that
-- a server relies on.
pub gpio-IsCallback : IsCallback encode_config_block adopt_config_block IsReady
unfolding encode_config_block adopt_config adopt_config_block
gpio-IsCallback = record {
  refused = adopt_config_block-refused;
  adopted = λ e b bytes h.
      let (cfg, found, good, same) = adopt_config_block-taken e b h in
      rw same (encode_config-decode_config b cfg bytes found);
  ready = λ e b bytes h.
      let (cfg, found, good, same) = adopt_config_block-taken e b h in
      rw same (adopt_config-IsReady e cfg good);
  written = λ e ready. encode_config-AllBytes e.cfg (IsConfig-of_ready e ready);
  restored = λ e between ready later. rw (
    adopt_config_block,
    decode_config-encode_config e.cfg (IsConfig-of_ready e ready),
    ready.valid,
  );
}
