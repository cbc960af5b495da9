-- ===== src/Request/Ticket/New.antt =====
-- A ticket that was decoded from a request.
use go_rcp.Base.{
  ℕ, ◌≡◌, refl, sym, ap, ◌∙◌, Bool, true, false, ◌==◌, List, Bool-cases, inl, inr, Error, Result,
  ok, err, if◌then◌else◌, ◌>>=◌, >>=-eq-ok, invalid_kind,
}
use go_rcp.Base.Assoc.{nat_eq}
use go_rcp.Avtp.{StreamId}
use go_rcp.Acf.{Message}
use go_rcp.Request.Kind.{base}
use go_rcp.Request.Envelope.{peek_kind}
use go_rcp.Request.Ticket.{
  queued, Ticket, new_ticket, is_conditional_envelope, decode_fields, decode_into, decode_ticket,
}

pub record IsNew (i : ℕ) (from : StreamId) (req : Message) (t : Ticket) : Type 0 where
  pub id : t.id ≡ i
  pub requester : t.requester ≡ from
  pub original : t.original ≡ req
  pub state : t.state ≡ queued

-- Where the result is a ticket, it is of the same request and state.
record Kept (t : Ticket) (r : Result Ticket) : Type 0 where
  kept :
      (t' : Ticket)
      → r ≡ ok t'
      → (t'.id ≡ t.id)
        × (t'.requester ≡ t.requester)
        × (t'.original ≡ t.original)
        × (t'.state ≡ t.state)

module _ (t : Ticket) where
  Kept-ok :
      (u : Ticket)
      → (u.id ≡ t.id)
        × (u.requester ≡ t.requester)
        × (u.original ≡ t.original)
        × (u.state ≡ t.state)
      → Kept t (ok u)
  Kept-ok u h = record {
    kept = λ t' e.
        let same : u ≡ t' = cc in
        (
          sym (ap (λ (x : Ticket). x.id) same) ∙ h.0,
          sym (ap (λ (x : Ticket). x.requester) same) ∙ h.1,
          sym (ap (λ (x : Ticket). x.original) same) ∙ h.2,
          sym (ap (λ (x : Ticket). x.state) same) ∙ h.3,
        );
  }

  Kept-err : (e : Error) → Kept t (err e)
  Kept-err e = record { kept = λ t' bad. absurd (let no_way : err e ≡ ok t' = bad in cc) }

  Kept->>= {ℓ} :
      {A : Type ℓ} (m : Result A) (f : A → Result Ticket)
      → ((a : A) → Kept t (f a))
      → Kept t (m >>= f)
  Kept->>= (ok a) f h = h a
  Kept->>= (err e) f h = Kept-err e

  Kept-if : (b : Bool) (x y : Result Ticket) → Kept t x → Kept t y → Kept t (if b then x else y)
  Kept-if true x y p q = p
  Kept-if false x y p q = q

  decode_fields-Kept : (body : List ℕ) → Kept t (decode_fields t body)
  unfolding decode_fields
  decode_fields-Kept body =
      let k : ℕ = base t.kind in
      Kept-if (k == 1) _ _ (Kept->>= _ _ λ a. Kept-ok _ (refl, refl, refl, refl)) (
        Kept-if (k == 2) _ _ (Kept->>= _ _ λ a. Kept-ok _ (refl, refl, refl, refl)) (
          Kept-if (k == 3) _ _ (Kept->>= _ _ λ a. Kept-ok _ (refl, refl, refl, refl)) (
            Kept-if (k == 4) _ _ (Kept->>= _ _ λ a. Kept-ok _ (refl, refl, refl, refl)) (
              Kept-if (k == 5) _ _ (Kept->>= _ _ λ a. Kept-ok _ (refl, refl, refl, refl)) (
                Kept-if (k == 6) _ _ (Kept->>= _ _ λ a. Kept-ok _ (refl, refl, refl, refl)) (
                  Kept-if (k == 7) _ _ (Kept->>= _ _ λ a. Kept-ok _ (refl, refl, refl, refl)) (
                    Kept-if (k == 8) _ _ (Kept->>= _ _ λ a. Kept-ok _ (refl, refl, refl, refl))
                      (Kept-err invalid_kind))))))))

pub decode_ticket-IsNew :
    (id : ℕ) (requester : StreamId) (req : Message) (t : Ticket)
    → decode_ticket id requester req ≡ ok t
    → IsNew id requester req t
unfolding decode_ticket decode_into
decode_ticket-IsNew id requester req t e = elim (Bool-cases (is_conditional_envelope req)) [
  | inr plain ↦
      let same : ok (record (new_ticket id requester req) {
        kind = 0;
        inner_control = req.control;
        inner_body = req.body;
      })
          ≡ ok t =
        rw plain at e in
      let h = (Kept-ok (new_ticket id requester req) _ (refl, refl, refl, refl)).kept t same in
      record { id = h.0; requester = h.1; original = h.2; state = h.3 }
  | inl envelope ↦
      let decoded : decode_into (new_ticket id requester req) req.body ≡ ok t = rw envelope at e in
      let (kind, peeked, fields) = >>=-eq-ok (peek_kind req.body) _ decoded in
      let h =
        (decode_fields-Kept (record (new_ticket id requester req) { kind = kind }) req.body).kept t
          fields in
      record { id = h.0; requester = h.1; original = h.2; state = h.3 }
]
