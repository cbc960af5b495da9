-- ===== src/Fragment/Reassembler/Sweep.antt =====
-- What a sweep of the reassembler removes and what it keeps.
use go_rcp.Base.{
  ℕ, ◌+◌, ◌≡◌, refl, Option, none, some, List, [], ◌∷◌, length, if◌then◌else◌, arith, Bool-cases,
  inl, inr,
}
use go_rcp.Base.Assoc.{lookup, Every, Unique}
use go_rcp.Fragment.{Key, key_instance, key_eq, key_eq_iff}
use go_rcp.Fragment.Reassembler.{
  Sequence, Reassembler, sweep, sweep_kept, sweep_purged, is_stale, pending,
}
use go_rcp.Fragment.Reassembler.Keeps.{IsWellFormed, IsBounded}

sweep-Every :
    (P : Key → Sequence → Type 0) (r : Reassembler) (now : ℕ) (l : List (Key × Sequence))
    → Every P l
    → Every P (sweep_kept r now l)
unfolding sweep_kept
sweep-Every P r now [] h = tt
sweep-Every P r now ((k, s) ∷ l) h = elim (Bool-cases (is_stale r now s)) [
  | inl stale ↦ rw stale (sweep-Every P r now l h.1)
  | inr fresh ↦ rw fresh (h.0, sweep-Every P r now l h.1)
]

-- What a sweep leaves under a key, and what it reports.
abbrev pub swept : Reassembler → ℕ → Option Sequence → Option Sequence
swept r now none = none
swept r now (some s) = if is_stale r now s then none else some s

lookup-sweep_kept :
    (r : Reassembler) (now : ℕ) (k : Key) (l : List (Key × Sequence))
    → Unique l
    → lookup k (sweep_kept r now l) ≡ swept r now (lookup k l)
unfolding sweep_kept lookup
lookup-sweep_kept r now k [] u = refl
lookup-sweep_kept r now k ((j, s) ∷ l) u = elim (Bool-cases (key_eq j k)) [
  | inl same_key ↦
      let eq : j ≡ k = (key_eq_iff j k).0 same_key in
      let gone : lookup k l ≡ none = rw eq at u.0 in
      elim (Bool-cases (is_stale r now s)) [
        | inl stale ↦ rw (stale, same_key, lookup-sweep_kept r now k l u.1, gone) (rw stale)
        | inr fresh ↦ rw (fresh, same_key) (rw fresh)
      ]
  | inr other ↦ elim (Bool-cases (is_stale r now s)) [
    | inl stale ↦ rw (stale, other, lookup-sweep_kept r now k l u.1)
    | inr fresh ↦ rw (fresh, other, lookup-sweep_kept r now k l u.1)
  ]
]

sweep_kept-Unique :
    (r : Reassembler) (now : ℕ) (l : List (Key × Sequence)) → Unique l → Unique (sweep_kept r now l)
unfolding sweep_kept
sweep_kept-Unique r now [] u = tt
sweep_kept-Unique r now ((k, s) ∷ l) u = elim (Bool-cases (is_stale r now s)) [
  | inl stale ↦ rw stale (sweep_kept-Unique r now l u.1)
  | inr fresh ↦
      rw fresh ((rw (lookup-sweep_kept r now k l u.1, u.0)), sweep_kept-Unique r now l u.1)
]

sweep_count :
    (r : Reassembler) (now : ℕ) (l : List (Key × Sequence))
    → length (sweep_purged r now l) + length (sweep_kept r now l) ≡ length l
unfolding sweep_kept sweep_purged
sweep_count r now [] = refl
sweep_count r now ((k, s) ∷ l) =
    let rest : length (sweep_purged r now l) + length (sweep_kept r now l) ≡ length l =
      sweep_count r now l in
    elim (Bool-cases (is_stale r now s)) [
      | inl stale ↦ rw stale (omega (arith, rest))
      | inr fresh ↦ rw fresh (omega (arith, rest))
    ]

-- A sweep of a well-formed reassembler leaves it well formed, drops a key's sequence when that is incomplete and
-- older than the timeout and keeps it otherwise, and names as many keys as it drops sequences.
pub sweep-IsWellFormed :
    (r : Reassembler) (now : ℕ)
    → IsWellFormed r
    → IsWellFormed (sweep r now).1
      × (((k : Key) → lookup k (sweep r now).1.seqs ≡ swept r now (lookup k r.seqs))
          × (length (sweep r now).0 + pending (sweep r now).1 ≡ pending r))
unfolding sweep pending
sweep-IsWellFormed r now w = (
  record {
    positive = w.positive;
    unique = sweep_kept-Unique r now r.seqs w.unique;
    bounded = sweep-Every (IsBounded r.max_segments) r now r.seqs w.bounded;
  },
  (λ k. lookup-sweep_kept r now k r.seqs w.unique, sweep_count r now r.seqs),
)
