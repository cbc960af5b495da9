-- ===== src/Redundancy.antt =====
-- redundancy/redundancy.go: the pair of a primary and a standby controller. A pointer to a controller is a
-- number, and `inner` gives the controller behind it. A request is the call of the active controller and,
-- behind it, `conclude`: other requests may run between the two.
pub mod Failover
mod Tests
use go_rcp.Base.{
  ℕ, ◌+◌, ◌%◌, ◌^◌, Bool, true, false, not, ◌||◌, Option, none, some, List, [], ◌∷◌, ◌==◌,
  if◌then◌else◌, Error, Result, ok, err, closed,
}
use go_rcp.Avtp.{StreamId}
use go_rcp.Acf.{Message, flag_read, flag_write}
use go_rcp.Controller.{Controller}

-- `failovers` is an int32, given by its bits.
pub record Pair : Type 0 where
  pub primary : ℕ
  pub standby : ℕ
  pub failovers : ℕ
  pub is_closed : Bool

pub new_pair : ℕ → ℕ → Pair
new_pair primary standby = record {
  primary = primary;
  standby = standby;
  failovers = 0;
  is_closed = false;
}

-- `c.policy == nil || c.policy(err)`
abbrev pub qualifies : Option (Error → Bool) → Error → Bool
qualifies none e = true
qualifies (some policy) e = policy e

abbrev pub swap : Pair → Pair
swap c = record c {
  primary = c.standby;
  standby = c.primary;
  failovers = (c.failovers + 1) % 2 ^ 32;
}

-- What follows the answer of `active`: its error, where it has one.
unfoldable pub conclude : Option (Error → Bool) → Pair → ℕ → Option Error → Pair
conclude policy c active none = c
conclude policy c active (some e) =
    if not (qualifies policy e) then c else if c.primary == active then swap c else c

-- `errs = append(errs, err)`, of an error.
abbrev pub failed : Option Error → List Error → List Error
failed none errors = errors
failed (some e) errors = e ∷ errors

abbrev pub error_of : Result Message → Option Error
error_of (ok m) = none
error_of (err e) = some e

module _ {World : Type 0} (inner : ℕ → Controller World) (policy : Option (Error → Bool)) where
  unfoldable pub request : Pair → World → ℕ → ℕ → List ℕ → Result Message × Pair × World
  request c w addr control body =
      if c.is_closed
      then (err closed, c, w)
      else let out = (inner c.primary).request w addr control body in
        (out.0, conclude policy c c.primary (error_of out.0), out.1)

  pub read : Pair → World → ℕ → Result Message × Pair × World
  read c w addr = request c w addr flag_read []

  pub write : Pair → World → ℕ → List ℕ → Result Message × Pair × World
  write c w addr body = request c w addr flag_write body

  pub stream_id : Pair → StreamId
  stream_id c = (inner c.primary).stream_id

  -- The errors of the two controllers, in the order of their calls; none is a nil error.
  unfoldable pub close : Pair → World → List Error × Pair × World
  close c w =
      if c.is_closed
      then ([], c, w)
      else let first = (inner c.primary).close w in
        let second = (inner c.standby).close first.1 in
        (failed first.0 (failed second.0 []), record c { is_closed = true }, second.1)
