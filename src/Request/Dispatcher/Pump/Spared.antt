-- ===== src/Request/Dispatcher/Pump/Spared.antt =====
-- Running one ticket leaves another alone, or cancels it.
use go_rcp.Base.{
  ℕ, ◌≡◌, refl, Bool, true, false, not, ◌&&◌, ◌||◌, ◌==◌, ◌!=◌, Option, some, List, [], ◌∷◌,
  Bool-cases, Option-cases, ◌⊎◌, inl, inr, if◌then◌else◌, ticket_cancelled,
}
use go_rcp.Base.Assoc.{lookup, nat_eq}
use go_rcp.Request.Kind.{base}
use go_rcp.Request.Sequencer.{evaluate}
use go_rcp.Request.Chained.{ChainedSegment}
use go_rcp.Request.Ticket.{Ticket, is_finalized}
use go_rcp.Request.Dispatcher.{
  Dispatcher, handle, execute_handler, execute_compound, execute_compound_wait, run_chain,
  execute_chained, execute_cancel, execute, cancel_where,
}
use go_rcp.Request.Dispatcher.Later.{IsKeyed}
use go_rcp.Request.Dispatcher.Purge.{ended, cancel_where_lem, contains_id}

-- Left alone, or cancelled.
abbrev pub IsSpared : Ticket → Option Ticket → Type 0
IsSpared t o = (o ≡ some t) ⊎ (o ≡ some (ended ticket_cancelled t))

module _ {World : Type 0} where
  cancel_where-IsSpared :
      (d : Dispatcher World) (id exclude : ℕ) (t : Ticket) (matches : Ticket → Bool)
      → IsKeyed d
      → IsSpared t (lookup id d.tickets)
      → IsSpared t (lookup id (cancel_where d exclude matches).1.tickets)
  cancel_where-IsSpared d id exclude t matches k (inl held) =
      choose
        (contains_id id d.order && (not (is_finalized t.state) && (t.id != exclude && matches t)))
        (cancel_where_lem d id t k held exclude matches)
    where
      choose :
          (b : Bool) {o : Option Ticket}
          → o ≡ some (if b then ended ticket_cancelled t else t)
          → IsSpared t o
      choose true h = inr h
      choose false h = inl h
  cancel_where-IsSpared d id exclude t matches k (inr over) = inr (
      stays (contains_id id d.order)
        (cancel_where_lem d id (ended ticket_cancelled t) k over exclude matches))
    where
      stays :
          (b : Bool) {o : Option Ticket}
          → o
            ≡ some (
                if b && false
                then ended ticket_cancelled (ended ticket_cancelled t)
                else ended ticket_cancelled t)
          → o ≡ some (ended ticket_cancelled t)
      stays true h = h
      stays false h = h

  -- What running another ticket `u` leaves.
  pub record Spares (d : Dispatcher World) (id : ℕ) (t : Ticket)
      (out : List ℕ × (Ticket × Dispatcher World)) : Type 0 where
    pub spared : IsSpared t (lookup id out.1.1.tickets)

  Spares-if :
      (d : Dispatcher World) (id : ℕ) (t : Ticket) (b : Bool)
      (x y : List ℕ × (Ticket × Dispatcher World))
      → Spares d id t x
      → Spares d id t y
      → Spares d id t (if b then x else y)
  Spares-if d id t true x y p q = p
  Spares-if d id t false x y p q = q

  run_chain-tickets :
      (d : Dispatcher World) (u : Ticket) (segs : List ChainedSegment)
      → (run_chain d u segs).1.tickets ≡ d.tickets
  unfolding run_chain handle
  run_chain-tickets d u [] = refl
  run_chain-tickets d u (seg ∷ segs) = elim (Option-cases (handle d u seg.control seg.body).0.1) [
    | inl fine ↦ rw (fine, run_chain) (run_chain-tickets (handle d u seg.control seg.body).1 u segs)
    | inr (e, failed) ↦ rw (failed, run_chain) refl
  ]

  execute_compound-tickets :
      (d : Dispatcher World) (u : Ticket) → (execute_compound d u).1.tickets ≡ d.tickets
  unfolding execute_compound handle
  execute_compound-tickets d u =
      let d1 : Dispatcher World = record d { seq = (evaluate u.conditional d.seq).1 } in
      elim (Bool-cases (not (evaluate u.conditional d.seq).0.0)) [
        | inl unmatched ↦ rw unmatched refl
        | inr matched ↦
            rw matched (elim (Option-cases (handle d1 u u.inner_control u.inner_body).0.1) [
              | inl fine ↦ rw fine refl
              | inr (e, failed) ↦ rw failed refl
            ])
      ]

  pub execute-Spares :
      (d : Dispatcher World) (u : Ticket) (id : ℕ) (t : Ticket)
      → IsKeyed d
      → IsSpared t (lookup id d.tickets)
      → Spares d id t (execute d u)
  unfolding execute execute_handler handle execute_compound_wait execute_chained execute_cancel
  execute-Spares d u id t k s =
      let kind : ℕ = base u.kind in
      let plain : Spares d id t ([], execute_handler d u) = record { spared = s } in
      let cancels : (matches : Ticket → Bool) → Spares d id t (execute_cancel d u matches) =
        λ matches. record { spared = cancel_where-IsSpared d id u.id t matches k s } in
      Spares-if d id t (kind == 0) _ _ plain (
        Spares-if d id t (kind == 1) _ _ (record { spared = rw (execute_compound-tickets d u) s })
          (Spares-if d id t (kind == 2) _ _ (record { spared = s })
            (Spares-if d id t (kind == 3 || kind == 5) _ _ plain (
              Spares-if d id t (kind == 4) _ _
                (record { spared = rw (run_chain-tickets d u u.segments) s })
                (Spares-if d id t (kind == 6) _ _ (cancels _) (
                  Spares-if d id t (kind == 7) _ _ (cancels _)
                    (Spares-if d id t (kind == 8) _ _ (cancels _) (record { spared = s }))))))))
