-- ===== src/Request/Sequencer.antt =====
-- request/sequencer.go: the bank of state registers, and the condition that reads and advances one.
-- An int32 is its two's complement, a number below 2 ^ 32.
use go_rcp.Base.{
  ℕ, ◌+◌, ◌-◌, ◌^◌, ◌<◌, ◌≤◌, ◌≡◌, Bool, true, false, not, Option, none, some, List, ltb,
  if◌then◌else◌, arith, ◌⊎◌, inl, inr, Bool-cases, refl, ◌==◌,
}
use go_rcp.Base.Assoc.{lookup, insert, nat_eq, lookup-insert}
use go_rcp.Request.Kind.{is_valid_op, evaluate_op}

-- `map[SequencerID]uint32`
abbrev pub Sequencer : Type 0
Sequencer = List (ℕ × ℕ)

abbrev pub or_zero : Option ℕ → ℕ
or_zero none = 0
or_zero (some v) = v

unfoldable pub get : Sequencer → ℕ → ℕ
get s id = or_zero (lookup id s)

pub set : Sequencer → ℕ → ℕ → Sequencer
set s id v = insert id v s

-- The sum in int64 of a uint32 and an int32, cut to the uint32 range. A negative delta is
-- `2 ^ 32 - delta` below 0.
unfoldable pub saturating_add : ℕ → ℕ → ℕ
saturating_add current delta =
    if ltb delta (2 ^ 31)
    then (if ltb (2 ^ 32 - 1) (current + delta) then 2 ^ 32 - 1 else current + delta)
    else if ltb current (2 ^ 32 - delta)
    then 0
    else current - (2 ^ 32 - delta)

-- The new value, and the bank behind it.
unfoldable pub advance : Sequencer → ℕ → ℕ → ℕ × Sequencer
unfolding saturating_add get
advance s id delta = let next = saturating_add (get s id) delta in (next, insert id next s)

pub record Conditional : Type 0 where
  pub sequencer : ℕ
  pub op : ℕ
  pub operand : ℕ
  pub advance_on_match : ℕ

-- `Conditional{}`
abbrev pub no_conditional : Conditional
no_conditional = record { sequencer = 0; op = 0; operand = 0; advance_on_match = 0 }

-- The widths of the Go types.
pub record IsConditional (c : Conditional) : Type 0 where
  pub sequencer : c.sequencer < 2 ^ 16
  pub op : c.op < 2 ^ 8
  pub operand : c.operand < 2 ^ 32
  pub advance_on_match : c.advance_on_match < 2 ^ 32

pub is_valid : Conditional → Bool
unfolding is_valid_op
is_valid c = is_valid_op c.op

-- Whether the condition matched, the register's value afterwards, and the bank.
unfoldable pub evaluate : Conditional → Sequencer → (Bool × ℕ) × Sequencer
unfolding advance get evaluate_op
evaluate c s =
    let current = get s c.sequencer in
    if not (evaluate_op c.op current c.operand)
    then ((false, current), s)
    else let (next, s') = advance s c.sequencer c.advance_on_match in ((true, next), s')

-- How far a register moves: by the whole delta, or to the bound of the uint32 range that is in the way.
abbrev pub IsMoved : ℕ → ℕ → ℕ → Type 0
IsMoved current delta next =
    ((delta < 2 ^ 31)
      × (((current + delta < 2 ^ 32) × (next ≡ current + delta))
          ⊎ ((2 ^ 32 ≤ current + delta) × (next ≡ 2 ^ 32 - 1))))
    ⊎ ((2 ^ 31 ≤ delta)
        × (((2 ^ 32 ≤ current + delta) × (next + 2 ^ 32 ≡ current + delta))
            ⊎ ((current + delta < 2 ^ 32) × (next ≡ 0))))

-- Advancing a uint32 register by an int32 delta, as its two's complement, writes what it returns and stays
-- in the uint32 range: it moves up by a delta that is not negative or stops at the top, and moves down by
-- `2 ^ 32 - delta` or stops at 0; every other register keeps its value.
pub advance_bounds :
    (s : Sequencer) (id delta : ℕ)
    → get s id < 2 ^ 32
    → delta < 2 ^ 32
    → IsMoved (get s id) delta (advance s id delta).0
      × ((advance s id delta).0 < 2 ^ 32)
      × ((other : ℕ)
          → get (advance s id delta).1 other
            ≡ (if id == other then (advance s id delta).0 else get s other))
unfolding advance saturating_add get
advance_bounds s id delta small fits =
    (moved (get s id) delta fits, in_range (get s id) delta small, λ other. others other)
  where
    moved :
        (current delta : ℕ) → delta < 2 ^ 32 → IsMoved current delta (saturating_add current delta)
    moved current delta fits = ground arith

    in_range : (current delta : ℕ) → current < 2 ^ 32 → saturating_add current delta < 2 ^ 32
    in_range current delta small = ground arith

    others :
        (other : ℕ)
        → get (advance s id delta).1 other
          ≡ (if id == other then (advance s id delta).0 else get s other)
    others other = elim (Bool-cases (id == other)) [
      | inl same ↦ rw (lookup-insert, same) refl
      | inr apart ↦ rw (lookup-insert, apart) refl
    ]
