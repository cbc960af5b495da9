-- ===== src/Request/Dispatcher/Runs.antt =====
-- Running a ticket keeps every other ticket's request, and never runs a state backwards.
use go_rcp.Base.{
  ℕ, refl, Bool, true, false, not, ◌||◌, ◌==◌, List, [], ◌∷◌, Bool-cases, Option-cases, inl, inr,
  if◌then◌else◌,
}
use go_rcp.Base.Assoc.{nat_eq}
use go_rcp.Request.Kind.{base}
use go_rcp.Request.Sequencer.{evaluate}
use go_rcp.Request.Chained.{ChainedSegment}
use go_rcp.Request.Ticket.{Ticket}
use go_rcp.Request.Dispatcher.{
  Dispatcher, cancel_where, handle, execute_handler, execute_compound, execute_compound_wait,
  run_chain, execute_chained, execute_cancel, execute, conditional_response,
}
use go_rcp.Request.Dispatcher.Later.{
  SameRequest, Later, Later-refl, Later-same, Later-trans, IsKeyed, finalize_where-Later,
}

module _ {World : Type 0} where
  -- What running `t` makes of the dispatcher, and of its own copy of the ticket.
  pub record Ran (d : Dispatcher World) (t : Ticket) (out : List ℕ × (Ticket × Dispatcher World))
      : Type 0 where
    pub later : Later d out.1.1
    pub same : SameRequest t out.1.0

  run_chain-Later :
      (d : Dispatcher World) (t : Ticket) (segs : List ChainedSegment)
      → Later d (run_chain d t segs).1
  unfolding run_chain handle
  run_chain-Later d t [] = Later-refl d
  run_chain-Later d t (seg ∷ segs) =
      let step : Later d (handle d t seg.control seg.body).1 = Later-same d _ refl refl refl in
      elim (Option-cases (handle d t seg.control seg.body).0.1) [
        | inl fine ↦
            rw (fine, run_chain)
              (Later-trans step (run_chain-Later (handle d t seg.control seg.body).1 t segs))
        | inr (e, failed) ↦ rw (failed, run_chain) step
      ]

  execute_compound-Ran : (d : Dispatcher World) (t : Ticket) → Ran d t ([], execute_compound d t)
  unfolding execute_compound handle conditional_response
  execute_compound-Ran d t =
      let d1 : Dispatcher World = record d { seq = (evaluate t.conditional d.seq).1 } in
      elim (Bool-cases (not (evaluate t.conditional d.seq).0.0)) [
        | inl unmatched ↦ rw unmatched (record {
          later = Later-same d _ refl refl refl;
          same = record { id = refl; requester = refl; original = refl; kind = refl };
        })
        | inr matched ↦
            rw matched (elim (Option-cases (handle d1 t t.inner_control t.inner_body).0.1) [
              | inl fine ↦ rw fine (record {
                later = Later-same d _ refl refl refl;
                same = record { id = refl; requester = refl; original = refl; kind = refl };
              })
              | inr (e, failed) ↦ rw failed (record {
                later = Later-same d _ refl refl refl;
                same = record { id = refl; requester = refl; original = refl; kind = refl };
              })
            ])
      ]

  execute_cancel-Ran :
      (d : Dispatcher World) (t : Ticket) (matches : Ticket → Bool)
      → IsKeyed d
      → Ran d t (execute_cancel d t matches)
  unfolding execute_cancel cancel_where
  execute_cancel-Ran d t matches k = record {
    later = finalize_where-Later d _ _ d.order k;
    same = record { id = refl; requester = refl; original = refl; kind = refl };
  }

  Ran-if :
      (d : Dispatcher World) (t : Ticket) (b : Bool) (x y : List ℕ × (Ticket × Dispatcher World))
      → Ran d t x
      → Ran d t y
      → Ran d t (if b then x else y)
  Ran-if d t true x y p q = p
  Ran-if d t false x y p q = q

  pub execute-Ran : (d : Dispatcher World) (t : Ticket) → IsKeyed d → Ran d t (execute d t)
  unfolding execute execute_handler handle execute_compound_wait conditional_response
      execute_chained
  execute-Ran d t k =
      let plain : Ran d t ([], execute_handler d t) = record {
        later = Later-same d _ refl refl refl;
        same = record { id = refl; requester = refl; original = refl; kind = refl };
      } in
      let kind : ℕ = base t.kind in
      Ran-if d t (kind == 0) _ _ plain (
        Ran-if d t (kind == 1) _ _ (execute_compound-Ran d t) (
          Ran-if d t (kind == 2) _ _
            (record {
              later = Later-same d (execute_compound_wait d t).1 refl refl refl;
              same = record { id = refl; requester = refl; original = refl; kind = refl };
            })
            (Ran-if d t (kind == 3 || kind == 5) _ _ plain (
              Ran-if d t (kind == 4) _ _
                (record {
                  later = run_chain-Later d t t.segments;
                  same = record { id = refl; requester = refl; original = refl; kind = refl };
                })
                (Ran-if d t (kind == 6) _ _ (execute_cancel-Ran d t _ k) (
                  Ran-if d t (kind == 7) _ _ (execute_cancel-Ran d t _ k) (
                    Ran-if d t (kind == 8) _ _ (execute_cancel-Ran d t _ k) (record {
                      later = Later-refl d;
                      same = record { id = refl; requester = refl; original = refl; kind = refl };
                    }))))))))
