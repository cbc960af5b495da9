-- ===== src/E2e/Guard.antt =====
-- e2e/guard.go: a handler behind the safe points. `World` is the state that the wrapped handler, the
-- caller's code, acts on.
pub mod Exchange
use go_rcp.Base.{Option, none, some, Error, ok, err}
use go_rcp.Avtp.{StreamId}
use go_rcp.Acf.{Message, no_message}
use go_rcp.E2e.{verify, protect}

pub record Guard (World : Type 0) : Type 0 where
  pub handler : World → StreamId → Message → (Message × Option Error) × World

module _ {World : Type 0} where
  abbrev pub new_guard :
      (World → StreamId → Message → (Message × Option Error) × World) → Guard World
  new_guard h = record { handler = h }

  unfoldable pub handle_request :
      Guard World → World → StreamId → Message → (Message × Option Error) × World
  handle_request g world requester req = elim (verify requester req) [
    | err e ↦ ((no_message, some e), world)
    | ok inner ↦
        let ((resp, error), world') = g.handler world requester inner in
        elim error [
          | some e ↦ ((no_message, some e), world')
          | none ↦ ((protect requester resp, none), world')
        ]
  ]
