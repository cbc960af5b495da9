-- ===== src/Regmap/Codec/Pins.antt =====
-- The pin map is read back from its bytes.
use go_rcp.Base.{
  ℕ, ◌*◌, ◌%◌, ◌^◌, ◌<◌, ◌≡◌, refl, ap, ◌∙◌, sym, false, List, [], ◌∷◌, ◌++◌, append_assoc,
  append-nil, length, ◌==◌, All, All-append, ok, arith,
}
use go_rcp.Base.Bytes.{put_be, get_be, get_be-put_be}
use go_rcp.Regmap.{PinAssignment, set_pin}
use go_rcp.Regmap.Codec.{encode_pins, decode_pins, encode_pin_map, decode_pin_map}

-- A pin assignment whose fields fit their bytes.
pub record IsPin (a : PinAssignment) : Type 0 where
  pub pin : a.pin < 2 ^ 16
  pub endpoint : a.endpoint < 256
  pub signal_index : a.signal_index < 256

-- No entry is for the pin.
abbrev pub IsFree : ℕ → List PinAssignment → Type 0
IsFree pin [] = Unit
IsFree pin (a ∷ entries) = ((pin == a.pin) ≡ false) × IsFree pin entries

-- No two entries are for one pin.
abbrev pub AllFree : List PinAssignment → Type 0
AllFree [] = Unit
AllFree (a ∷ entries) = IsFree a.pin entries × AllFree entries

-- No entry before is for a pin of those to come.
abbrev Apart : List PinAssignment → List PinAssignment → Type 0
Apart entries [] = Unit
Apart entries (a ∷ more) = All (λ e. (e.pin == a.pin) ≡ false) entries × Apart entries more

Apart-append :
    (entries more : List PinAssignment) (a : PinAssignment)
    → Apart entries more
    → IsFree a.pin more
    → Apart (entries ++ (a ∷ [])) more
Apart-append entries [] a h f = tt
Apart-append entries (b ∷ more) a (h, hs) (f, fs) = (
  All-append (λ e. (e.pin == b.pin) ≡ false) entries (a ∷ []) h (f, tt),
  Apart-append entries more a hs fs,
)

Apart-nil : (more : List PinAssignment) → Apart [] more
Apart-nil [] = tt
Apart-nil (a ∷ more) = (tt, Apart-nil more)

set_pin-new :
    (entries : List PinAssignment) (a : PinAssignment)
    → All (λ e. (e.pin == a.pin) ≡ false) entries
    → set_pin entries a ≡ entries ++ (a ∷ [])
unfolding set_pin
set_pin-new [] a h = refl
set_pin-new (e ∷ entries) a (h, hs) = let rest = set_pin-new entries a hs in ground (arith, h, rest)

decode_pins-encode_pins :
    (more entries : List PinAssignment)
    → All IsPin more
    → Apart entries more
    → AllFree more
    → decode_pins (length more) entries (encode_pins more) ≡ entries ++ more
unfolding decode_pins encode_pins put_be
decode_pins-encode_pins [] entries h apart free = sym (append-nil entries)
decode_pins-encode_pins (a ∷ more) entries (h, hs) (new, apart) (free, frees) =
    let later =
      decode_pins-encode_pins more (entries ++ (a ∷ [])) hs (Apart-append entries more a apart free)
        frees in
    let n = get_be-put_be 2 a.pin (omega (arith, h.pin)) in
    let placed = set_pin-new entries a new in
    let joined = append_assoc entries (a ∷ []) more in
    let same : record {
      pin = get_be (put_be 2 a.pin);
      endpoint = a.endpoint % 256;
      signal_index = a.signal_index % 256;
    }
        ≡ a =
      ground (arith, n, h.endpoint, h.signal_index) in
    ap (λ x. decode_pins (length more) (set_pin entries x) (encode_pins more)) same
    ∙ (ap (λ l. decode_pins (length more) l (encode_pins more)) placed ∙ (later ∙ joined))

pub length-encode_pins :
    (entries : List PinAssignment) → length (encode_pins entries) ≡ 4 * length entries
unfolding encode_pins put_be
length-encode_pins [] = refl
length-encode_pins (a ∷ entries) = omega (arith, length-encode_pins entries)

-- A pin map that has each pin once, in fields that fit, and whose number of entries fits is read back,
-- its entries in their order.
pub decode_pin_map-encode_pin_map :
    (entries : List PinAssignment)
    → length entries < 2 ^ 16
    → All IsPin entries
    → AllFree entries
    → decode_pin_map (encode_pin_map entries) ≡ ok entries
unfolding decode_pin_map encode_pin_map put_be
decode_pin_map-encode_pin_map entries short fit once =
    let n = get_be-put_be 2 (length entries) (omega (arith, short)) in
    let size = length-encode_pins entries in
    let back = decode_pins-encode_pins entries [] fit (Apart-nil entries) once in
    ground (arith, n, size, back)
