-- ===== src/Request/Dispatcher/Pump/Sorted.antt =====
-- The order in which a pump runs the tickets that are ready.
use go_rcp.Base.{
  ℕ, ◌≤◌, ◌≡◌, refl, ap, ◌∙◌, List, [], ◌∷◌, ltb, ◌==◌, if◌then◌else◌, arith, Bool-cases, inl, inr,
  All,
}
use go_rcp.Request.Kind.{priority}
use go_rcp.Request.Ticket.{Ticket}
use go_rcp.Request.Dispatcher.Pump.{insert_ready, sort_ready}

-- Each ticket is of a rank no later than all behind it.
abbrev pub IsSorted : List Ticket → Type 0
IsSorted [] = Unit
IsSorted (t ∷ ts) = All (λ u. priority t.kind ≤ priority u.kind) ts × IsSorted ts

-- The tickets of one rank, in their order.
abbrev pub of_rank : ℕ → List Ticket → List Ticket
of_rank r [] = []
of_rank r (t ∷ ts) = if priority t.kind == r then t ∷ of_rank r ts else of_rank r ts

All-insert_ready :
    (P : Ticket → Type 0) (t : Ticket) (ts : List Ticket)
    → P t
    → All P ts
    → All P (insert_ready t ts)
unfolding insert_ready
All-insert_ready P t [] p h = (p, tt)
All-insert_ready P t (u ∷ us) p h = elim (Bool-cases (ltb (priority u.kind) (priority t.kind))) [
  | inl later ↦ rw later (h.0, All-insert_ready P t us p h.1)
  | inr first ↦ rw first (p, h)
]

pub All-sort_ready : (P : Ticket → Type 0) (ts : List Ticket) → All P ts → All P (sort_ready ts)
unfolding sort_ready
All-sort_ready P [] h = tt
All-sort_ready P (t ∷ ts) h = All-insert_ready P t (sort_ready ts) h.0 (All-sort_ready P ts h.1)

All-weaken :
    (m n : ℕ) (ts : List Ticket)
    → m ≤ n
    → All (λ u. n ≤ priority u.kind) ts
    → All (λ u. m ≤ priority u.kind) ts
All-weaken m n [] l h = tt
All-weaken m n (t ∷ ts) l h = (omega (arith, h.0), All-weaken m n ts l h.1)

insert_ready-IsSorted : (t : Ticket) (ts : List Ticket) → IsSorted ts → IsSorted (insert_ready t ts)
unfolding insert_ready
insert_ready-IsSorted t [] h = (tt, tt)
insert_ready-IsSorted t (u ∷ us) h = elim (Bool-cases (ltb (priority u.kind) (priority t.kind))) [
  | inl later ↦ rw later (
    All-insert_ready (λ v. priority u.kind ≤ priority v.kind) t us (ground (arith, later)) h.0,
    insert_ready-IsSorted t us h.1,
  )
  | inr first ↦
      let low : priority t.kind ≤ priority u.kind = ground (arith, first) in
      rw first ((low, All-weaken (priority t.kind) (priority u.kind) us low h.0), h)
]

of_rank-insert_ready :
    (r : ℕ) (t : Ticket) (ts : List Ticket) → of_rank r (insert_ready t ts) ≡ of_rank r (t ∷ ts)
unfolding insert_ready
of_rank-insert_ready r t [] = refl
of_rank-insert_ready r t (u ∷ us) = elim (Bool-cases (ltb (priority u.kind) (priority t.kind))) [
  | inl later ↦ ground (arith, later, of_rank-insert_ready r t us)
  | inr first ↦ rw first refl
]

-- The tickets that are ready run in the order of their ranks, and those of one rank as they were
-- admitted: none is lost, added or moved before one of its own rank.
pub sort_ready-IsSorted :
    (ts : List Ticket)
    → IsSorted (sort_ready ts) × ((r : ℕ) → of_rank r (sort_ready ts) ≡ of_rank r ts)
unfolding sort_ready
sort_ready-IsSorted [] = (tt, λ r. refl)
sort_ready-IsSorted (t ∷ ts) =
    let (sorted, same) = sort_ready-IsSorted ts in
    (
      insert_ready-IsSorted t (sort_ready ts) sorted,
      λ r.
          of_rank-insert_ready r t (sort_ready ts)
          ∙ ap (λ l. if priority t.kind == r then t ∷ l else l) (same r),
    )
