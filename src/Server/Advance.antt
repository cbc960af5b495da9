-- ===== src/Server/Advance.antt =====
-- When a server advances in its lifecycle.
use go_rcp.Base.{
  ℕ, ◌<◌, ◌≡◌, refl, ap, sym, true, false, not, ◌&&◌, ◌||◌, Option, none, some, List, [], ◌∷◌,
  length, ◌==◌, ==_iff, Error, arith, Bool-cases, Option-cases, ◌⊎◌, inl, inr, All,
  lifecycle_out_of_order, functional_block_incomplete,
}
use go_rcp.Base.Assoc.{lookup, insert, lookup-insert, nat_eq}
use go_rcp.Regmap.{
  PinAssignment, RegisterMap, EndpointRegisters, endpoint_type_at, is_valid_type, has_signal,
  validate_pins,
}
use go_rcp.Server.{
  LifecycleState, unconfigured, hw_locked, fully_configured, Server, is_unconfigured, is_hw_locked,
  advance_to_hw_locked, advance_to_fully_configured, any_incomplete,
}

-- The pins of a list are each met once, and none of those met already.
abbrev pub IsFresh : ℕ → List PinAssignment → Type 0
IsFresh pin [] = Unit
IsFresh pin (a ∷ entries) = ((a.pin == pin) ≡ false) × IsFresh pin entries

abbrev pub AllOnce : List PinAssignment → Type 0
AllOnce [] = Unit
AllOnce (a ∷ entries) = IsFresh a.pin entries × AllOnce entries

-- An assignment is to a signal that a declared endpoint of a known type has.
abbrev pub IsWired : RegisterMap → PinAssignment → Type 0
IsWired m a =
    (t : ℕ) × (endpoint_type_at m a.endpoint ≡ some t)
    × (is_valid_type t ≡ true)
    × (has_signal t a.signal_index ≡ true)

abbrev IsUnseen : List (ℕ × Unit {0}) → List PinAssignment → Type 0
IsUnseen seen [] = Unit
IsUnseen seen (a ∷ entries) = (lookup a.pin seen ≡ none) × IsUnseen seen entries

IsUnseen-after :
    (pin : ℕ) (seen : List (ℕ × Unit {0})) (entries : List PinAssignment)
    → IsUnseen (insert pin tt seen) entries
    → IsFresh pin entries × IsUnseen seen entries
IsUnseen-after pin seen [] h = (tt, tt)
IsUnseen-after pin seen (a ∷ entries) h =
    let (fresh, rest) = IsUnseen-after pin seen entries h.1 in
    elim (Bool-cases (pin == a.pin)) [
      | inl same ↦ absurd (let bad : some tt ≡ none = rw (lookup-insert, same) at h.0 in cc)
      | inr apart ↦ (
        (ground (arith, ==_iff a.pin pin, ==_iff pin a.pin, apart), fresh),
        (rw (lookup-insert, apart) at h.0, rest),
      )
    ]

validate_pins-IsWired :
    (m : RegisterMap) (seen : List (ℕ × Unit {0})) (entries : List PinAssignment)
    → validate_pins m seen entries ≡ none
    → IsUnseen seen entries × AllOnce entries × All (IsWired m) entries
unfolding validate_pins
validate_pins-IsWired m seen [] h = (tt, tt, tt)
validate_pins-IsWired m seen (a ∷ entries) h = elim (Option-cases (lookup a.pin seen)) [
  | inr (met, there) ↦ absurd (let bad : some _ ≡ none = rw (there, validate_pins) at h in cc)
  | inl new ↦
      let typed = rw (new, validate_pins) at h in
      elim (Option-cases (endpoint_type_at m a.endpoint)) [
        | inl gone ↦ absurd (let bad : some _ ≡ none = rw gone at typed in cc)
        | inr (t, declared) ↦
            let checked = rw declared at typed in
            elim (Bool-cases (not (is_valid_type t) || not (has_signal t a.signal_index))) [
              | inl wrong ↦ absurd (let bad : some _ ≡ none = rw wrong at checked in cc)
              | inr right ↦
                  let (unseen, once, wired) =
                    validate_pins-IsWired m (insert a.pin tt seen) entries (rw right at checked) in
                  let (fresh, before) = IsUnseen-after a.pin seen entries unseen in
                  (
                    (new, before),
                    (fresh, once),
                    ((t, declared, ground (arith, right), ground (arith, right)), wired),
                  )
            ]
      ]
]

-- An endpoint with a functional configuration.
abbrev pub IsComplete : ℕ × EndpointRegisters → Type 0
IsComplete (addr, ep) = 0 < length ep.functional

any_incomplete-IsComplete :
    (l : List (ℕ × EndpointRegisters)) → any_incomplete l ≡ false → All IsComplete l
unfolding any_incomplete
any_incomplete-IsComplete [] h = tt
any_incomplete-IsComplete ((addr, ep) ∷ rest) h =
    (ground (arith, h), any_incomplete-IsComplete rest (ground (arith, h)))

module _ (s s' : Server) where
  -- A server locks its hardware only from the unconfigured state, and only where each pin is assigned at most
  -- once and to a signal that a declared endpoint of a known type has; only its state changes.
  pub advance_to_hw_locked-IsWired :
      advance_to_hw_locked s ≡ (none, s')
      → (s.state ≡ unconfigured)
        × (s' ≡ record s { state = hw_locked })
        × AllOnce s.rmap.pin_map
        × All (IsWired s.rmap) s.rmap.pin_map
  unfolding advance_to_hw_locked
  advance_to_hw_locked-IsWired h = elim (Bool-cases (not (is_unconfigured s.state))) [
    | inl late ↦
        absurd (let bad : (some lifecycle_out_of_order, s) ≡ (none, s') = rw late at h in cc)
    | inr early ↦ elim (Option-cases (validate_pins s.rmap [] s.rmap.pin_map)) [
      | inr (e, wrong) ↦ absurd (let bad : (some e, s) ≡ (none, s') = rw (early, wrong) at h in cc)
      | inl valid ↦
          let value : (none, record s { state = hw_locked }) ≡ (none, s') =
            rw (early, valid) at h in
          let (unseen, once, wired) = validate_pins-IsWired s.rmap [] s.rmap.pin_map valid in
          (
            state_eq s.state (ground (arith, early)),
            ap (λ (x : Option Error × Server). x.1) (sym value),
            once,
            wired,
          )
    ]
  ]
    where
      state_eq : (st : LifecycleState) → is_unconfigured st ≡ true → st ≡ unconfigured
      state_eq unconfigured e = refl
      state_eq hw_locked e = cc
      state_eq fully_configured e = cc

  -- A server advances to the full configuration only from the state with locked hardware, and only where at
  -- that moment every endpoint has a functional configuration and the queues have a flush threshold or a flush
  -- time above 0; the advance changes only its state.
  pub advance_to_fully_configured-IsComplete :
      advance_to_fully_configured s ≡ (none, s')
      → (s.state ≡ hw_locked)
        × (s' ≡ record s { state = fully_configured })
        × All IsComplete s.rmap.endpoints
        × ((0 < s.rmap.queues.flush_threshold) ⊎ (0 < s.rmap.queues.flush_time_millis))
  unfolding advance_to_fully_configured
  advance_to_fully_configured-IsComplete h = elim (Bool-cases (not (is_hw_locked s.state))) [
    | inl early ↦
        absurd (let bad : (some lifecycle_out_of_order, s) ≡ (none, s') = rw early at h in cc)
    | inr locked ↦ elim (Bool-cases (any_incomplete s.rmap.endpoints)) [
      | inl missing ↦ absurd (
          let bad : (some functional_block_incomplete, s) ≡ (none, s') =
            rw (locked, missing) at h in
          cc)
      | inr complete ↦
          let last = rw (locked, complete) at h in
          elim (Bool-cases
            (s.rmap.queues.flush_threshold == 0 && s.rmap.queues.flush_time_millis == 0)) [
              | inl wrong ↦ absurd (let bad : (some _, s) ≡ (none, s') = rw wrong at last in cc)
              | inr valid ↦
                  let value : (none, record s { state = fully_configured }) ≡ (none, s') =
                    rw valid at last in
                  (
                    state_eq s.state (ground (arith, locked)),
                    ap (λ (x : Option Error × Server). x.1) (sym value),
                    any_incomplete-IsComplete s.rmap.endpoints complete,
                    flushed valid,
                  )
            ]
    ]
  ]
    where
      state_eq : (st : LifecycleState) → is_hw_locked st ≡ true → st ≡ hw_locked
      state_eq unconfigured e = cc
      state_eq hw_locked e = refl
      state_eq fully_configured e = cc

      flushed : {a b : ℕ} → (a == 0 && b == 0) ≡ false → (0 < a) ⊎ (0 < b)
      flushed {a} {b} e = elim (Bool-cases (a == 0)) [
        | inl zero_there ↦ inr (ground (arith, e, zero_there))
        | inr some_there ↦ inl (ground (arith, some_there))
      ]
