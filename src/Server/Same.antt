-- ===== src/Server/Same.antt =====
-- What two register maps have in common whose identities or whose pin maps pass for the same.
use go_rcp.Base.{
  none, All, ℕ, ◌≡◌, refl, ap, true, false, some, List, [], ◌∷◌, length, ◌==◌, arith, Bool-cases,
  Option-cases, ◌⊎◌, inl, inr,
}
use go_rcp.Base.Assoc.{lookup, insert, lookup-insert, nat_eq}
use go_rcp.Regmap.{
  GeneralBlock, PinAssignment, pin_eq, by_pin, all_by_pin, same_general_identity, pins_equal,
}

-- The fields of the general block that name a server and what it offers.
pub record SameIdentity (g g' : GeneralBlock) : Type 0 where
  pub magic : g'.magic ≡ g.magic
  pub vendor_id : g'.vendor_id ≡ g.vendor_id
  pub device_id : g'.device_id ≡ g.device_id
  pub protocol_version : g'.protocol_version ≡ g.protocol_version
  pub max_responder_streams : g'.max_responder_streams ≡ g.max_responder_streams
  pub max_responder_queue_words : g'.max_responder_queue_words ≡ g.max_responder_queue_words
  pub max_request_queue_words : g'.max_request_queue_words ≡ g.max_request_queue_words
  pub num_sequencer_states : g'.num_sequencer_states ≡ g.num_sequencer_states
  pub config_lock : g'.config_lock ≡ g.config_lock
  pub options : g'.options ≡ g.options
  pub num_io_pins : g'.num_io_pins ≡ g.num_io_pins
  pub max_configurable_request_streams :
      g'.max_configurable_request_streams ≡ g.max_configurable_request_streams
  pub max_configurable_response_streams :
      g'.max_configurable_response_streams ≡ g.max_configurable_response_streams

pub same_general_identity-SameIdentity :
    (g g' : GeneralBlock) → same_general_identity g' g ≡ true → SameIdentity g g'
same_general_identity-SameIdentity g g' h = record {
  magic = ground (arith, h);
  vendor_id = ground (arith, h);
  device_id = ground (arith, h);
  protocol_version = ground (arith, h);
  max_responder_streams = ground (arith, h);
  max_responder_queue_words = ground (arith, h);
  max_request_queue_words = ground (arith, h);
  num_sequencer_states = ground (arith, h);
  config_lock = ground (arith, h);
  options = ground (arith, h);
  num_io_pins = ground (arith, h);
  max_configurable_request_streams = ground (arith, h);
  max_configurable_response_streams = ground (arith, h);
}

-- `a` is one of the assignments of a pin map.
abbrev pub IsAssigned : PinAssignment → List PinAssignment → Type 0
IsAssigned a [] = ⊥
IsAssigned a (e ∷ entries) = (e ≡ a) ⊎ IsAssigned a entries

-- Every assignment of `pins` is one of `pins'`, and there are as many.
pub record SamePins (pins pins' : List PinAssignment) : Type 0 where
  pub kept : All (λ a. IsAssigned a pins') pins
  pub count : length pins' ≡ length pins

All-IsAssigned :
    (entries pins : List PinAssignment)
    → ((a : PinAssignment) → IsAssigned a entries → IsAssigned a pins)
    → All (λ a. IsAssigned a pins) entries
All-IsAssigned [] pins h = tt
All-IsAssigned (e ∷ entries) pins h =
    (h e (inl refl), All-IsAssigned entries pins (λ a m. h a (inr m)))

pub SamePins-refl : (pins : List PinAssignment) → SamePins pins pins
SamePins-refl pins = record { kept = All-IsAssigned pins pins (λ a m. m); count = refl }

-- What the map by pins holds for a pin was in it before, or is one of the entries.
lookup-by_pin :
    (p : ℕ) (m : List (ℕ × PinAssignment)) (entries : List PinAssignment) (want : PinAssignment)
    → lookup p (by_pin m entries) ≡ some want
    → (lookup p m ≡ some want) ⊎ IsAssigned want entries
unfolding by_pin
lookup-by_pin p m [] want h = inl h
lookup-by_pin p m (a ∷ entries) want h = elim (lookup-by_pin p (insert a.pin a m) entries want h) [
  | inr later ↦ inr (inr later)
  | inl here ↦ elim (Bool-cases (a.pin == p)) [
    | inl same ↦
        let value : some a ≡ some want = rw (lookup-insert, same) at here in
        inr (inl (let eq : a ≡ want = cc in eq))
    | inr apart ↦ inl (rw (lookup-insert, apart) at here)
  ]
]

pin_eq-eq : (a b : PinAssignment) → pin_eq a b ≡ true → a ≡ b
pin_eq-eq a b h = ground (arith, h)

all_by_pin-IsAssigned :
    (pins entries : List PinAssignment)
    → all_by_pin (by_pin [] pins) entries ≡ true
    → All (λ a. IsAssigned a pins) entries
unfolding all_by_pin
all_by_pin-IsAssigned pins [] h = tt
all_by_pin-IsAssigned pins (a ∷ entries) h = elim (Option-cases (lookup a.pin (by_pin [] pins))) [
  | inl gone ↦ absurd (let bad : false ≡ true = rw (gone, all_by_pin) at h in cc)
  | inr (want, there) ↦
      let checks = rw (there, all_by_pin) at h in
      elim (Bool-cases (pin_eq want a)) [
        | inr differs ↦ absurd (let bad : false ≡ true = rw differs at checks in cc)
        | inl agrees ↦
            let rest : all_by_pin (by_pin [] pins) entries ≡ true = rw agrees at checks in
            (
              elim (lookup-by_pin a.pin [] pins want there) [
                | inl none_there ↦ absurd (no_entry a.pin want none_there)
                | inr found ↦ rw (← pin_eq-eq want a agrees) found
              ],
              all_by_pin-IsAssigned pins entries rest,
            )
      ]
]
  where
    no_entry : (p : ℕ) (want : PinAssignment) → lookup p [] ≡ some want → ⊥
    no_entry p want e = let bad : none ≡ some want = unfold lookup in e in cc

pub pins_equal-SamePins :
    (pins pins' : List PinAssignment) → pins_equal pins' pins ≡ true → SamePins pins pins'
unfolding pins_equal
pins_equal-SamePins pins pins' h = record {
  kept = all_by_pin-IsAssigned pins' pins (ground (arith, h));
  count = ground (arith, h);
}

pub identity_refl : (g g' : GeneralBlock) → g' ≡ g → SameIdentity g g'
identity_refl g g' e = record {
  magic = ap (λ (x : GeneralBlock). x.magic) e;
  vendor_id = ap (λ (x : GeneralBlock). x.vendor_id) e;
  device_id = ap (λ (x : GeneralBlock). x.device_id) e;
  protocol_version = ap (λ (x : GeneralBlock). x.protocol_version) e;
  max_responder_streams = ap (λ (x : GeneralBlock). x.max_responder_streams) e;
  max_responder_queue_words = ap (λ (x : GeneralBlock). x.max_responder_queue_words) e;
  max_request_queue_words = ap (λ (x : GeneralBlock). x.max_request_queue_words) e;
  num_sequencer_states = ap (λ (x : GeneralBlock). x.num_sequencer_states) e;
  config_lock = ap (λ (x : GeneralBlock). x.config_lock) e;
  options = ap (λ (x : GeneralBlock). x.options) e;
  num_io_pins = ap (λ (x : GeneralBlock). x.num_io_pins) e;
  max_configurable_request_streams =
      ap (λ (x : GeneralBlock). x.max_configurable_request_streams) e;
  max_configurable_response_streams =
      ap (λ (x : GeneralBlock). x.max_configurable_response_streams) e;
}
