-- ===== src/Request/Dispatcher/Later.antt =====
-- How a dispatcher's tickets may change between two moments, other than by admission and forgetting.
use go_rcp.Base.{
  ℕ, ◌≤◌, ◌≡◌, refl, sym, ap, ◌∙◌, Bool, true, false, not, ◌||◌, ◌==◌, ==_iff, Option, none, some,
  List, [], ◌∷◌, arith, Bool-cases, Option-cases, inl, inr, Error,
}
use go_rcp.Base.Assoc.{lookup, nat_eq, lookup-insert}
use go_rcp.Request.Ticket.{State, queued, started, executing, finalized, Ticket, is_finalized}
use go_rcp.Request.Dispatcher.{Dispatcher, put, finalize_where}

-- The place of a state in the life of a ticket.
abbrev pub rank : State → ℕ
rank queued = 0
rank started = 1
rank executing = 2
rank finalized = 3

pub record SameRequest (t t' : Ticket) : Type 0 where
  pub id : t'.id ≡ t.id
  pub requester : t'.requester ≡ t.requester
  pub original : t'.original ≡ t.original
  pub kind : t'.kind ≡ t.kind

-- A ticket goes forward through its states, and stays as it is once it is finalized.
pub record Advances (t t' : Ticket) : Type 0 where
  pub request : SameRequest t t'
  pub forward : rank t.state ≤ rank t'.state
  pub settled : t.state ≡ finalized → t' ≡ t

abbrev pub After : Option Ticket → Option Ticket → Type 0
After none none = Unit
After none (some t') = ⊥
After (some t) none = ⊥
After (some t) (some t') = Advances t t'

pub record Later {World : Type 0} (d d' : Dispatcher World) : Type 0 where
  pub order : d'.order ≡ d.order
  pub next_id : d'.next_id ≡ d.next_id
  pub at_id : (id : ℕ) → After (lookup id d.tickets) (lookup id d'.tickets)

pub SameRequest-refl : (t : Ticket) → SameRequest t t
SameRequest-refl t = record { id = refl; requester = refl; original = refl; kind = refl }

pub SameRequest-trans : {a b c : Ticket} → SameRequest a b → SameRequest b c → SameRequest a c
SameRequest-trans p q = record {
  id = q.id ∙ p.id;
  requester = q.requester ∙ p.requester;
  original = q.original ∙ p.original;
  kind = q.kind ∙ p.kind;
}

pub Advances-refl : (t : Ticket) → Advances t t
Advances-refl t = record {
  request = SameRequest-refl t;
  forward = omega arith;
  settled = λ _. refl;
}

pub Advances-trans : {a b c : Ticket} → Advances a b → Advances b c → Advances a c
Advances-trans p q = record {
  request = SameRequest-trans p.request q.request;
  forward = omega (arith, p.forward, q.forward);
  settled = λ e. q.settled (ap (λ (x : Ticket). x.state) (p.settled e) ∙ e) ∙ p.settled e;
}

After-refl : (t : Option Ticket) → After t t
After-refl none = tt
After-refl (some t) = Advances-refl t

After-trans : (a b c : Option Ticket) → After a b → After b c → After a c
After-trans none none none p q = tt
After-trans none none (some c) p q = q
After-trans none (some b) c p q = absurd p
After-trans (some a) none c p q = absurd p
After-trans (some a) (some b) none p q = q
After-trans (some a) (some b) (some c) p q = Advances-trans p q

-- A ticket that is not finalized may become any later state of the same request.
pub unsettled-Advances :
    {t t' : Ticket}
    → SameRequest t t'
    → is_finalized t.state ≡ false
    → rank t.state ≤ rank t'.state
    → Advances t t'
unsettled-Advances {t} same open_ forward = record {
  request = same;
  forward = forward;
  settled = λ e. absurd (let bad : true ≡ false = sym (ap is_finalized e) ∙ open_ in cc);
}

module _ {World : Type 0} where
  -- Every ticket stands under its own id.
  abbrev pub IsKeyed : Dispatcher World → Type 0
  IsKeyed d = (id : ℕ) (t : Ticket) → lookup id d.tickets ≡ some t → t.id ≡ id

  pub Later-same :
      (d d' : Dispatcher World)
      → d'.tickets ≡ d.tickets
      → d'.order ≡ d.order
      → d'.next_id ≡ d.next_id
      → Later d d'
  Later-same d d' t o n = record {
    order = o;
    next_id = n;
    at_id = λ id. rw t (After-refl (lookup id d.tickets));
  }

  pub Later-refl : (d : Dispatcher World) → Later d d
  Later-refl d = Later-same d d refl refl refl

  pub Later-trans : {a b c : Dispatcher World} → Later a b → Later b c → Later a c
  Later-trans {a} {b} {c} p q = record {
    order = q.order ∙ p.order;
    next_id = q.next_id ∙ p.next_id;
    at_id = λ id.
        After-trans (lookup id a.tickets) (lookup id b.tickets) (lookup id c.tickets) (p.at_id id)
          (q.at_id id);
  }

  -- The ticket that a later dispatcher holds, in terms of the earlier one's.
  pub Later-back :
      {d d' : Dispatcher World} (id : ℕ) (t' : Ticket)
      → Later d d'
      → lookup id d'.tickets ≡ some t'
      → (t : Ticket) × (lookup id d.tickets ≡ some t) × Advances t t'
  Later-back {d} id t' l e = elim (Option-cases (lookup id d.tickets)) [
    | inl gone ↦ absurd (rw (gone, e) at (l.at_id id))
    | inr (t, held) ↦ (t, held, rw (held, e) at (l.at_id id))
  ]

  pub Later-forth :
      {d d' : Dispatcher World} (id : ℕ) (t : Ticket)
      → Later d d'
      → lookup id d.tickets ≡ some t
      → (t' : Ticket) × (lookup id d'.tickets ≡ some t') × Advances t t'
  Later-forth {d} {d'} id t l e = elim (Option-cases (lookup id d'.tickets)) [
    | inl gone ↦ absurd (rw (e, gone) at (l.at_id id))
    | inr (t', held) ↦ (t', held, rw (e, held) at (l.at_id id))
  ]

  pub Later-IsKeyed : {d d' : Dispatcher World} → Later d d' → IsKeyed d → IsKeyed d'
  Later-IsKeyed l k id t' e =
      let (t, held, adv) = Later-back id t' l e in adv.request.id ∙ k id t held

  pub put-Later :
      (d : Dispatcher World) (t t' : Ticket)
      → lookup t'.id d.tickets ≡ some t
      → Advances t t'
      → Later d (put d t')
  unfolding put
  put-Later d t t' held adv = record {
    order = refl;
    next_id = refl;
    at_id = λ id. elim (Bool-cases (t'.id == id)) [
      | inl same ↦
          let eq : t'.id ≡ id = (==_iff t'.id id).0 same in
          rw (lookup-insert, same) (rw (← eq, held) adv)
      | inr other ↦ rw (lookup-insert, other) (After-refl (lookup id d.tickets))
    ];
  }

  pub finalize_where-Later :
      (d : Dispatcher World) (e : Error) (matches : Ticket → Bool) (ids : List ℕ)
      → IsKeyed d
      → Later d (finalize_where d e matches ids).1
  unfolding finalize_where
  finalize_where-Later d e matches [] k = Later-refl d
  finalize_where-Later d e matches (id ∷ ids) k = elim (Option-cases (lookup id d.tickets)) [
    | inl gone ↦ rw (gone, finalize_where) (finalize_where-Later d e matches ids k)
    | inr (t, held) ↦
        let ended : Ticket = record t { state = finalized; error = some e } in
        elim (Bool-cases (is_finalized t.state || not (matches t))) [
          | inl skip ↦ rw (held, finalize_where) (rw skip (finalize_where-Later d e matches ids k))
          | inr hit ↦
              let open_ : is_finalized t.state ≡ false = ground (arith, hit) in
              let step : Later d (put d ended) = put-Later d t ended (simp (k id t held) held) (
                unsettled-Advances
                  (record { id = refl; requester = refl; original = refl; kind = refl }) open_
                  (rank-max t.state)) in
              rw (held, finalize_where)
                (rw hit (
                  Later-trans step
                    (finalize_where-Later (put d ended) e matches ids (Later-IsKeyed step k))))
        ]
  ]
    where
      rank-max : (s : State) → rank s ≤ 3
      rank-max queued = omega arith
      rank-max started = omega arith
      rank-max executing = omega arith
      rank-max finalized = omega arith

  pub put-IsKeyed : (d : Dispatcher World) (t : Ticket) → IsKeyed d → IsKeyed (put d t)
  unfolding put
  put-IsKeyed d t k id u found = elim (Bool-cases (t.id == id)) [
    | inl same ↦
        let eq : some t ≡ some u = rw (lookup-insert, same) at found in
        let value : t ≡ u = cc in sym (ap (λ (x : Ticket). x.id) value) ∙ (==_iff t.id id).0 same
    | inr other ↦ k id u (rw (lookup-insert, other) at found)
  ]
