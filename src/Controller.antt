-- ===== src/Controller.antt =====
-- The controllers that authz/ and redundancy/ wrap, as they see them: the methods of udp.Controller that they
-- call, on a state of the world. The socket and the remote server behind it are not part of the model, so that
-- an instance of the interface is a parameter of the definitions.
use go_rcp.Base.{ℕ, Option, List, Error, Result}
use go_rcp.Avtp.{StreamId}
use go_rcp.Acf.{Message}

pub record Controller (World : Type 0) : Type 0 where
  pub stream_id : StreamId
  -- The address, the control flags and the body.
  pub request : World → ℕ → ℕ → List ℕ → Result Message × World
  pub discover : World → Result (List ℕ) × World
  pub close : World → Option Error × World
