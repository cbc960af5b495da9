-- ===== src/Request/Dispatcher/Purge.antt =====
-- What a purge, or a cancellation, does to each ticket.
use go_rcp.Base.{
  ℕ, ◌≡◌, refl, Bool, true, false, not, ◌&&◌, ◌||◌, ◌==◌, ==_iff, Option, none, some, List, [], ◌∷◌,
  arith, Bool-cases, Option-cases, inl, inr, Error, if◌then◌else◌, purged_by_watchdog,
  ticket_cancelled, ◌!=◌, ==_refl,
}
use go_rcp.Base.Assoc.{lookup, nat_eq, lookup-insert}
use go_rcp.Request.Kind.{is_safety}
use go_rcp.Request.Ticket.{finalized, Ticket, is_finalized}
use go_rcp.Request.Dispatcher.{Dispatcher, put, finalize_where, cancel_where, purge_non_safety}
use go_rcp.Request.Dispatcher.Later.{IsKeyed, put-IsKeyed}

abbrev pub contains_id : ℕ → List ℕ → Bool
contains_id id [] = false
contains_id id (i ∷ ids) = i == id || contains_id id ids

abbrev pub ended : Error → Ticket → Ticket
ended e t = record t { state = finalized; error = some e }

abbrev pub is_hit : (Ticket → Bool) → Ticket → Bool
is_hit matches t = not (is_finalized t.state) && matches t

module _ {World : Type 0} (e : Error) (matches : Ticket → Bool) where
  -- The ticket under `id` after one step of the loop, at `i`.
  abbrev step : Dispatcher World → ℕ → Dispatcher World
  step d i = elim (lookup i d.tickets) [
    | none ↦ d
    | some t ↦ if is_finalized t.state || not (matches t) then d else put d (ended e t)
  ]

  finalize_where-step :
      (d : Dispatcher World) (i : ℕ) (ids : List ℕ)
      → (finalize_where d e matches (i ∷ ids)).1 ≡ (finalize_where (step d i) e matches ids).1
  unfolding finalize_where
  finalize_where-step d i ids = elim (Option-cases (lookup i d.tickets)) [
    | inl gone ↦ rw (gone, finalize_where, step) refl
    | inr (t, held) ↦ elim (Bool-cases (is_finalized t.state || not (matches t))) [
      | inl skip ↦ rw (held, finalize_where, step) (rw skip refl)
      | inr hit ↦ rw (held, finalize_where, step) (rw hit refl)
    ]
  ]

  step-IsKeyed : (d : Dispatcher World) (i : ℕ) → IsKeyed d → IsKeyed (step d i)
  unfolding put
  step-IsKeyed d i k = elim (Option-cases (lookup i d.tickets)) [
    | inl gone ↦ rw (gone, step) k
    | inr (t, held) ↦ elim (Bool-cases (is_finalized t.state || not (matches t))) [
      | inl skip ↦ rw (held, step) (rw skip k)
      | inr hit ↦ rw (held, step) (rw hit (put-IsKeyed d (ended e t) k))
    ]
  ]

  step_at :
      (d : Dispatcher World) (i id : ℕ) (t : Ticket)
      → IsKeyed d
      → lookup id d.tickets ≡ some t
      → lookup id (step d i).tickets ≡ some (if i == id && is_hit matches t then ended e t else t)
  unfolding put
  step_at d i id t k held = elim (Bool-cases (i == id)) [
    | inl same ↦
        let eq : i ≡ id = (==_iff i id).0 same in
        let here : lookup i d.tickets ≡ some t = simp (eq, held) in
        elim (Bool-cases (is_finalized t.state || not (matches t))) [
          | inl skip ↦
              let miss : is_hit matches t ≡ false = ground (arith, skip) in
              rw (here, step, same, miss) (rw skip held)
          | inr hit ↦
              let hits : is_hit matches t ≡ true = ground (arith, hit) in
              rw (here, step, same, hits)
                (rw hit (rw (lookup-insert, k id t held, ==_refl id) refl))
        ]
    | inr other ↦ rw other (elim (Option-cases (lookup i d.tickets)) [
      | inl gone ↦ rw (gone, step) held
      | inr (u, there) ↦ elim (Bool-cases (is_finalized u.state || not (matches u))) [
        | inl skip ↦ rw (there, step) (rw skip held)
        | inr hit ↦ rw (there, step) (rw hit (rw (lookup-insert, k i u there, other) held))
      ]
    ])
  ]

  finalize_where_at :
      (ids : List ℕ) (d : Dispatcher World) (id : ℕ) (t : Ticket)
      → IsKeyed d
      → lookup id d.tickets ≡ some t
      → lookup id (finalize_where d e matches ids).1.tickets
        ≡ some (if contains_id id ids && is_hit matches t then ended e t else t)
  finalize_where_at [] d id t k held = unfold finalize_where in held
  finalize_where_at (i ∷ ids) d id t k held =
      rw (finalize_where-step d i ids) (elim (Bool-cases (i == id && is_hit matches t)) [
        | inl hit ↦
            let now : lookup id (step d i).tickets ≡ some (ended e t) =
              rw hit at (step_at d i id t k held) in
            let rest = finalize_where_at ids (step d i) id (ended e t) (step-IsKeyed d i k) now in
            let whole : ((i == id || contains_id id ids) && is_hit matches t) ≡ true =
              ground (arith, hit) in
            rw whole (ended_twice t (contains_id id ids) rest)
        | inr miss ↦
            let now : lookup id (step d i).tickets ≡ some t =
              rw miss at (step_at d i id t k held) in
            let rest = finalize_where_at ids (step d i) id t (step-IsKeyed d i k) now in
            let whole : ((i == id || contains_id id ids) && is_hit matches t)
                ≡ (contains_id id ids && is_hit matches t) =
              ground (arith, miss) in
            rw whole rest
      ])
    where
      ended_twice :
          (t : Ticket) (b : Bool) {o : Option Ticket}
          → o ≡ some (if b && false then ended e (ended e t) else ended e t)
          → o ≡ some (ended e t)
      ended_twice t true h = h
      ended_twice t false h = h

module _ {World : Type 0} (d : Dispatcher World) (id : ℕ) (t : Ticket) (k : IsKeyed d)
    (held : lookup id d.tickets ≡ some t) where
  -- In a dispatcher whose tickets stand under their own ids, a purge finalizes, as purged by the watchdog,
  -- just those tickets of the order that are neither safety requests nor finalized, and leaves any other
  -- ticket as it was.
  pub purge_non_safety_lem :
      lookup id (purge_non_safety d).1.tickets
      ≡ some (
          if contains_id id d.order && (not (is_finalized t.state) && not (is_safety t.kind))
          then ended purged_by_watchdog t
          else t)
  unfolding purge_non_safety
  purge_non_safety_lem =
      finalize_where_at purged_by_watchdog (λ u. not (is_safety u.kind)) d.order d id t k held

  -- In a dispatcher whose tickets stand under their own ids, a cancellation finalizes, as cancelled, just
  -- those tickets of the order that match, are not finalized and are not the cancelling ticket, and leaves
  -- any other ticket as it was.
  pub cancel_where_lem :
      (exclude : ℕ) (matches : Ticket → Bool)
      → lookup id (cancel_where d exclude matches).1.tickets
        ≡ some (
            if contains_id id d.order
              && (not (is_finalized t.state) && (t.id != exclude && matches t))
            then ended ticket_cancelled t
            else t)
  unfolding cancel_where
  cancel_where_lem exclude matches =
      finalize_where_at ticket_cancelled (λ u. u.id != exclude && matches u) d.order d id t k held
