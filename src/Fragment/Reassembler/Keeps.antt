-- ===== src/Fragment/Reassembler/Keeps.antt =====
-- What every operation of the reassembler keeps, and what it leaves alone.
use go_rcp.Base.{
  ◌⊎◌, inl, inr, ℕ, ◌+◌, ◌≤◌, ◌<◌, ◌≡◌, ◌≢◌, refl, Bool, true, false, ◌&&◌, [], ◌∷◌, ◌++◌, length,
  length-append, Result, if◌then◌else◌, get_or, bytes_eq, ltb, ◌==◌, ◌!=◌, arith, Bool-cases,
  Option-cases, inl, inr,
}
use go_rcp.Base.Assoc.{
  lookup, lookup-insert, lookup-delete, Every, Every-insert, Every-delete, Unique, Unique-insert,
  Unique-delete, ne→beq_false,
}
use go_rcp.Avtp.{StreamId}
use go_rcp.Acf.{Message, has, flag_more_segments}
use go_rcp.Fragment.{key_eq_iff, key_eq, Key, key_of, key_instance}
use go_rcp.Fragment.Reassembler.{
  Sequence, Reassembler, new_reassembler, put, abandon, header_matches, add_first, add_complete,
  append_segment, add_next, add, finish,
}

-- A sequence has a segment at least, and no more than the reassembler allows.
abbrev pub IsBounded : ℕ → Key → Sequence → Type 0
IsBounded limit key s = (0 < length s.bodies) × (length s.bodies ≤ limit)

pub record IsWellFormed (r : Reassembler) : Type 0 where
  pub positive : 0 < r.max_segments
  pub unique : Unique r.seqs
  pub bounded : Every (IsBounded r.max_segments) r.seqs

pub new_reassembler-IsWellFormed : (t n : ℕ) → IsWellFormed (new_reassembler t n)
unfolding new_reassembler
new_reassembler-IsWellFormed t n = record { positive = ground arith; unique = tt; bounded = tt }

put-IsWellFormed :
    (r : Reassembler) (k : Key) (s : Sequence)
    → IsWellFormed r
    → IsBounded r.max_segments k s
    → IsWellFormed (put r k s)
unfolding put
put-IsWellFormed r k s w b = record {
  positive = w.positive;
  unique = Unique-insert k s r.seqs w.unique;
  bounded = Every-insert (IsBounded r.max_segments) k s r.seqs b w.bounded;
}

abandon-IsWellFormed : (r : Reassembler) (k : Key) → IsWellFormed r → IsWellFormed (abandon r k)
unfolding abandon
abandon-IsWellFormed r k w = record {
  positive = w.positive;
  unique = Unique-delete k r.seqs w.unique;
  bounded = Every-delete (IsBounded r.max_segments) k r.seqs w.bounded;
}

-- What adding makes of the state: nothing, a write under the message's key, or a removal there.
data Outcome (r : Reassembler) (key : Key) (after : Reassembler) : Type 0 where
  same : after ≡ r → Outcome r key after
  written :
      (s : Sequence) → IsBounded r.max_segments key s → after ≡ put r key s → Outcome r key after
  removed : after ≡ abandon r key → Outcome r key after

module _ {r : Reassembler} {key : Key} where
  Outcome-if :
      (b : Bool) (x y : Result Bool × Reassembler)
      → (b ≡ true → Outcome r key x.1)
      → (b ≡ false → Outcome r key y.1)
      → Outcome r key (if b then x else y).1
  Outcome-if true x y f g = f refl
  Outcome-if false x y f g = g refl

  Outcome-IsWellFormed :
      {after : Reassembler} → Outcome r key after → IsWellFormed r → IsWellFormed after
  Outcome-IsWellFormed (same e) w = rw e w
  Outcome-IsWellFormed (written s b e) w = rw e (put-IsWellFormed r key s w b)
  Outcome-IsWellFormed (removed e) w = rw e (abandon-IsWellFormed r key w)

  Outcome-lookup :
      {after : Reassembler} (j : Key)
      → Outcome r key after
      → key ≢ j
      → lookup j after.seqs ≡ lookup j r.seqs
  unfolding put abandon
  Outcome-lookup j (same e) n = rw e
  Outcome-lookup j (written s b e) n = rw (e, lookup-insert, ne→beq_false key j n)
  Outcome-lookup j (removed e) n = rw (e, lookup-delete, ne→beq_false key j n)

add_complete-state : (r : Reassembler) (s : Sequence) (m : Message) → (add_complete r s m).1 ≡ r
unfolding add_complete
add_complete-state r s m = ground arith

module _ (r : Reassembler) (now : ℕ) (key : Key) (m : Message) (w : IsWellFormed r) where
  abbrev flagged : Bool
  flagged = has m.control flag_more_segments

  add_first-Outcome : Outcome r key (add_first r now key m).1
  unfolding add_first
  add_first-Outcome = elim (Bool-cases flagged) [
    | inl f ↦ rw f (elim (Bool-cases (m.read_size_or_segment != 0)) [
      | inl z ↦ rw z (same refl)
      | inr z ↦ rw z (written _ (omega arith, w.positive) refl)
    ])
    | inr f ↦ rw f (written _ (omega arith, w.positive) refl)
  ]

  append_segment-Outcome : (s : Sequence) → Outcome r key (append_segment r now key s m).1
  unfolding append_segment
  append_segment-Outcome s =
      let more : length (s.bodies ++ (m.body ∷ [])) ≡ length s.bodies + 1 =
        omega (arith, length-append s.bodies (m.body ∷ [])) in
      elim (Bool-cases (ltb r.max_segments (length s.bodies + 1))) [
        | inl full ↦ rw full (removed refl)
        | inr room ↦
            let fits : length s.bodies + 1 ≤ r.max_segments = ground (arith, room) in
            elim (Bool-cases flagged) [
              | inl f ↦
                  rw (room, f) (written _ (omega (arith, more), omega (arith, more, fits)) refl)
              | inr f ↦
                  rw (room, f) (written _ (omega (arith, more), omega (arith, more, fits)) refl)
            ]
      ]

  add_next-Outcome : (s : Sequence) → Outcome r key (add_next r now key s m).1
  unfolding add_next
  add_next-Outcome s =
      elim (Bool-cases (flagged && m.read_size_or_segment + 1 == length s.bodies)) [
        | inl again ↦
            rw again
              (elim (Bool-cases (bytes_eq (get_or s.bodies m.read_size_or_segment []) m.body)) [
                | inl eq ↦ rw eq (same refl)
                | inr ne ↦ rw ne (removed refl)
              ])
        | inr new ↦
            rw new (elim (Bool-cases (flagged && m.read_size_or_segment != length s.bodies)) [
              | inl gap ↦ rw gap (removed refl)
              | inr next ↦ rw next (append_segment-Outcome s)
            ])
      ]

module _ (r : Reassembler) (now : ℕ) (stream : StreamId) (m : Message) (w : IsWellFormed r) where
  add-Outcome : Outcome r (key_of stream m) (add r now stream m).1
  unfolding add
  add-Outcome = elim (Option-cases (lookup (key_of stream m) r.seqs)) [
    | inl e ↦ rw (e, add) (add_first-Outcome r now (key_of stream m) m w)
    | inr (s, e) ↦
        rw (e, add)
          (elim (Bool-cases (header_matches s m)) [
            | inr no_match ↦ rw no_match (removed refl)
            | inl matches ↦ rw matches (
                Outcome-if s.ready (add_complete r s m) (add_next r now (key_of stream m) s m)
                  (λ _. same (add_complete-state r s m))
                  (λ _. add_next-Outcome r now (key_of stream m) m w s))
          ])
  ]

  -- Adding a message keeps the reassembler well formed, and touches no sequence but its own.
  pub add-IsWellFormed :
      IsWellFormed (add r now stream m).1
      × ((j : Key)
          → (key_of stream m ≡ j) ⊎ (lookup j (add r now stream m).1.seqs ≡ lookup j r.seqs))
  add-IsWellFormed = (
    Outcome-IsWellFormed add-Outcome w,
    λ j. elim (Bool-cases (key_eq (key_of stream m) j)) [
      | inl equal ↦ inl ((key_eq_iff (key_of stream m) j).0 equal)
      | inr other ↦ inr (Outcome-lookup j add-Outcome (apart j other))
    ],
  )
    where
      apart : (j : Key) → key_eq (key_of stream m) j ≡ false → key_of stream m ≢ j
      apart j other e = let bad = (key_eq_iff (key_of stream m) j).1 e in cc

pub finish-IsWellFormed :
    (r : Reassembler) (key : Key) → IsWellFormed r → IsWellFormed (finish r key).1
unfolding finish
finish-IsWellFormed r key w = elim (Option-cases (lookup key r.seqs)) [
  | inl e ↦ rw (e, finish) w
  | inr (s, e) ↦ elim (Bool-cases s.ready) [
    | inl done ↦ rw (e, finish) (simp done (abandon-IsWellFormed r key w))
    | inr wait ↦ rw (e, finish) (simp wait w)
  ]
]
