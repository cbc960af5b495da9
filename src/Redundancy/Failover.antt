-- ===== src/Redundancy/Failover.antt =====
-- The failovers of redundancy/redundancy.go under requests that overlap.
use go_rcp.Base.{
  ℕ, ◌≡◌, ◌≢◌, refl, ◌∙◌, Bool, true, false, ◌||◌, Option, none, some, List, [], ◌∷◌, ◌==◌,
  if◌then◌else◌, Error, arith, Bool-cases, inl, inr, ==_refl,
}
use go_rcp.Redundancy.{Pair, qualifies, swap, conclude}

module _ (policy : Option (Error → Bool)) where
  -- The answers that the requests of one active controller get, one after the other.
  unfoldable pub conclude_all : Pair → ℕ → List (Option Error) → Pair
  conclude_all c active [] = c
  conclude_all c active (answer ∷ answers) =
      conclude_all (conclude policy c active answer) active answers

  abbrev pub is_failure : Option Error → Bool
  is_failure none = false
  is_failure (some e) = qualifies policy e

  unfoldable pub any_failure : List (Option Error) → Bool
  any_failure [] = false
  any_failure (answer ∷ answers) = is_failure answer || any_failure answers

  conclude_eq :
      (c : Pair) (active : ℕ) (answer : Option Error)
      → conclude policy c active answer
        ≡ (if is_failure answer then (if c.primary == active then swap c else c) else c)
  unfolding conclude
  conclude_eq c active none = refl
  conclude_eq c active (some e) = elim (Bool-cases (qualifies policy e)) [
    | inl fails ↦ rw fails refl
    | inr holds ↦ rw holds refl
  ]

  conclude_all-standby :
      (c : Pair) (active : ℕ) (answers : List (Option Error))
      → (c.primary == active) ≡ false
      → conclude_all c active answers ≡ c
  unfolding conclude_all
  conclude_all-standby c active [] h = refl
  conclude_all-standby c active (answer ∷ answers) h =
      let same : conclude policy c active answer ≡ c =
        conclude_eq c active answer ∙ (rw h (kept (is_failure answer))) in
      rw same (conclude_all-standby c active answers h)
    where
      kept : (b : Bool) → (if b then c else c) ≡ c
      kept true = refl
      kept false = refl

  -- However many requests to the primary controller overlap, and however many of them fail, the pair
  -- swaps once if a failure qualifies, and not at all otherwise.
  pub conclude_all-once :
      (c : Pair) (answers : List (Option Error))
      → c.primary ≢ c.standby
      → conclude_all c c.primary answers ≡ (if any_failure answers then swap c else c)
  unfolding conclude_all any_failure
  conclude_all-once c [] apart = refl
  conclude_all-once c (answer ∷ answers) apart = elim (Bool-cases (is_failure answer)) [
    | inl fails ↦
        let same : conclude policy c c.primary answer ≡ swap c =
          conclude_eq c c.primary answer ∙ (rw (fails, ==_refl c.primary) refl) in
        let other : (c.standby == c.primary) ≡ false = ground (arith, apart) in
        rw (same, fails) (conclude_all-standby (swap c) c.primary answers other)
    | inr holds ↦
        let same : conclude policy c c.primary answer ≡ c =
          conclude_eq c c.primary answer ∙ (rw holds refl) in
        rw (same, holds) (conclude_all-once c answers apart)
  ]
