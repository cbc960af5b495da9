-- ===== src/E2e/Guard/Exchange.antt =====
-- A request and its answer through the guard of e2e/guard.go, with the safe points of e2e/crc.go at both ends.
use go_rcp.Base.{
  ℕ, ◌≤◌, ◌≡◌, refl, none, some, ◌++◌, length, Error, ok, Option-cases, ◌⊎◌, inl, inr,
}
use go_rcp.Base.Bytes.{AllBytes}
use go_rcp.Avtp.{StreamId, IsStreamId}
use go_rcp.Acf.{Message, no_message}
use go_rcp.E2e.{compute, verify, protect, zeros, pad_len_for}
use go_rcp.E2e.Protected.{verify-protect}
use go_rcp.E2e.Guard.{Guard, handle_request}

-- What the padding may add to a message on its way: zero bytes that its safe point does not tell apart.
pub record IsCarried (stream : StreamId) (sent received : Message) : Type 0 where
  pub extra : ℕ
  pub few : extra ≤ pad_len_for (length sent.body)
  pub message : received ≡ record sent { body = sent.body ++ zeros extra }
  pub same : compute stream received ≡ compute stream sent

verify-protect-IsCarried :
    (stream : StreamId) (m : Message)
    → IsStreamId stream
    → AllBytes m.body
    → (received : Message) × IsCarried stream m received
      × (verify stream (protect stream m) ≡ ok received)
verify-protect-IsCarried stream m id w =
    let (extra, few, back, same) = verify-protect stream m id w in
    (
      record m { body = m.body ++ zeros extra },
      record { extra = extra; few = few; message = refl; same = same },
      back,
    )

module _ {World : Type 0} (g : Guard World) (world : World) (requester : StreamId) where
  -- A protected request reaches the handler as it was sent, but for zero bytes at the end that its safe point
  -- does not tell apart, and nothing else acts on the world. Where the handler answers, the answer that
  -- goes out passes its own safe point, and is in the same way the handler's; where the handler fails, its
  -- error goes out with no message.
  pub handle_request-IsCarried :
      (req : Message)
      → IsStreamId requester
      → AllBytes req.body
      → ((m : Message) → AllBytes (g.handler world requester m).0.0.body)
      → (inner : Message) × IsCarried requester req inner
        × (let out = handle_request g world requester (protect requester req) in
            let answer = g.handler world requester inner in
            (out.1 ≡ answer.1)
            × (((e : Error) × (answer.0.1 ≡ some e) × (out.0 ≡ (no_message, some e)))
                ⊎ ((received : Message) × (answer.0.1 ≡ none)
                    × (out.0.1 ≡ none)
                    × IsCarried requester answer.0.0 received
                    × (verify requester out.0.0 ≡ ok received))))
  unfolding handle_request
  handle_request-IsCarried req id w bytes =
      let (inner, carried, good) = verify-protect-IsCarried requester req id w in
      let (received, back, passes) =
        verify-protect-IsCarried requester (g.handler world requester inner).0.0 id (bytes inner) in
      (
        inner,
        carried,
        elim (Option-cases (g.handler world requester inner).0.1) [
          | inl fine ↦ (
            rw (good, handle_request) (rw fine refl),
            inr (
              received,
              fine,
              rw (good, handle_request) (rw fine refl),
              back,
              rw (good, handle_request) (rw fine passes),
            ),
          )
          | inr (e, wrong) ↦ (
            rw (good, handle_request) (rw wrong refl),
            inl (e, wrong, rw (good, handle_request) (rw wrong refl)),
          )
        ],
      )
