-- ===== src/Redundancy/Tests.antt =====
-- Three requests overlap, of which the first and the last fail.
use go_rcp.Base.{
  ◌≡◌, ◌≢◌, false, some, none, [], ◌∷◌, List, Option, if◌then◌else◌, Error, closed, denied, arith,
}
use go_rcp.Redundancy.{Pair, swap}
use go_rcp.Redundancy.Failover.{conclude_all, any_failure, conclude_all-once}

abbrev pair : Pair
pair = record { primary = 7; standby = 8; failovers = 0; is_closed = false }

abbrev answers : List (Option Error)
answers = some denied ∷ none ∷ some closed ∷ []

seven_apart : pair.primary ≢ pair.standby
seven_apart h = omega arith

conclude_all-once_example :
    conclude_all none pair 7 answers ≡ (if any_failure none answers then swap pair else pair)
conclude_all-once_example = conclude_all-once none pair answers seven_apart
