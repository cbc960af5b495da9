-- ===== src/Request/Dispatcher/Reachable.antt =====
-- request/dispatcher.go: the moments that a dispatcher goes through, from `NewDispatcher` on. The
-- mutex makes each operation one step; between two steps the world that the endpoint, the checks and the
-- trigger pumps act on may change in any way.
use go_rcp.Base.{
  ℕ, ◌+◌, ◌^◌, ◌<◌, ◌≡◌, refl, sym, ap, ◌∙◌, Bool, true, false, Option, none, some, [], ◌==◌,
  ==_iff, inl, inr, arith, Bool-cases, Option-cases, Error, Result,
}
use go_rcp.Base.Assoc.{lookup, nat_eq, lookup-insert, lookup-delete}
use go_rcp.Avtp.{StreamId}
use go_rcp.Acf.{Message}
use go_rcp.Request.Sequencer.{Sequencer}
use go_rcp.Request.Ticket.{Ticket, is_finalized}
use go_rcp.Request.Dispatcher.{
  Dispatcher, submit, register_trigger_source, set_safe_state_check, purge_non_safety,
}
use go_rcp.Request.Dispatcher.Later.{
  Advances, Advances-refl, Advances-trans, Later, Later-same, Later-forth, Later-back,
  finalize_where-Later,
}
use go_rcp.Request.Dispatcher.Admission.{Submitted, refused, admitted, submit-Submitted}
use go_rcp.Request.Dispatcher.Pump.{pump, forget}
use go_rcp.Request.Dispatcher.Pump.Settled.{pump-Later}
use go_rcp.Request.Dispatcher.Pump.Quiet.{pump-IsQuiet, purge-IsQuiet}
use go_rcp.Request.Dispatcher.Pump.WellFormed.{
  IsWellFormed, Later-IsWellFormed, admit-IsWellFormed, Forgotten, kept, removed, forget-Forgotten,
  forget-IsWellFormed,
}

module _ {World : Type 0} where
  -- `NewDispatcher`, with the world that the handler and the check act on.
  unfoldable pub new_dispatcher :
      World
      → (World → StreamId → Message → (Message × Option Error) × World)
      → Sequencer
      → Option (World → StreamId → Option Error)
      → Dispatcher World
  new_dispatcher world handler seq access = record {
    world = world;
    handler = handler;
    seq = seq;
    access = access;
    safe_state = none;
    pumps = [];
    tickets = [];
    order = [];
    next_id = 0;
  }

  -- One operation. A submission counts as a step while the next id, a uint64, does not wrap.
  pub data Step (d : Dispatcher World) : Dispatcher World → Type 0 where
    submitted :
        (requester : StreamId) (req : Message)
        → d.next_id + 1 < 2 ^ 64
        → Step d (submit d requester req).1
    pumped : (now : ℕ) → Step d (pump d now).1
    purged : Step d (purge_non_safety d).1
    forgot : (id : ℕ) → Step d (forget d id)
    registered :
        (source : ℕ) (source_pump : World → ℕ × World)
        → Step d (register_trigger_source d source source_pump)
    checked : (check : Option (World → StreamId → Bool)) → Step d (set_safe_state_check d check)
    moved : (world : World) → Step d (record d { world = world })

  pub data Reach (d : Dispatcher World) : Dispatcher World → Type 0 where
    here : Reach d d
    further : {a b : Dispatcher World} → Reach d a → Step a b → Reach d b

  new_dispatcher-IsWellFormed :
      (world : World)
      → (handler : World → StreamId → Message → (Message × Option Error) × World)
      → (seq : Sequencer) → (access : Option (World → StreamId → Option Error))
      → IsWellFormed (new_dispatcher world handler seq access)
  unfolding new_dispatcher lookup
  new_dispatcher-IsWellFormed world handler seq access = record {
    keyed = λ id t found. absurd (let bad : none ≡ some t = found in cc);
    listed = λ id t found. absurd (let bad : none ≡ some t = found in cc);
    held = λ id h. absurd (let bad : false ≡ true = h in cc);
    below = λ id h. absurd (let bad : false ≡ true = h in cc);
    distinct = tt;
    quiet = λ id t found. absurd (let bad : none ≡ some t = found in cc);
  }

  -- An operation leaves the tickets, but for later states, or adds one, or drops one that is finalized.
  purge-Later : (d : Dispatcher World) → IsWellFormed d → Later d (purge_non_safety d).1
  unfolding purge_non_safety
  purge-Later d w = finalize_where-Later d _ _ d.order w.keyed

  Step-IsWellFormed : {d d' : Dispatcher World} → IsWellFormed d → Step d d' → IsWellFormed d'
  unfolding register_trigger_source set_safe_state_check
  Step-IsWellFormed {d} w (submitted requester req room) = left (submit-Submitted d requester req)
    where
      left :
          {out : Result ℕ × Dispatcher World} → Submitted d requester req out → IsWellFormed out.1
      left (refused e) = w
      left (admitted t fresh safe) = admit-IsWellFormed d t fresh.id fresh.state room w
  Step-IsWellFormed {d} w (pumped now) =
      Later-IsWellFormed (pump-Later d now w.keyed) (pump-IsQuiet d now w.keyed w.quiet) w
  Step-IsWellFormed {d} w purged =
      Later-IsWellFormed (purge-Later d w) (purge-IsQuiet d w.keyed w.quiet) w
  Step-IsWellFormed {d} w (forgot id) = forget-IsWellFormed d id w
  Step-IsWellFormed {d} w (registered source source_pump) =
      Later-IsWellFormed (Later-same d _ refl refl refl) w.quiet w
  Step-IsWellFormed {d} w (checked check) =
      Later-IsWellFormed (Later-same d _ refl refl refl) w.quiet w
  Step-IsWellFormed {d} w (moved world) =
      Later-IsWellFormed (Later-same d _ refl refl refl) w.quiet w

  pub Reach-IsWellFormed : {d d' : Dispatcher World} → IsWellFormed d → Reach d d' → IsWellFormed d'
  Reach-IsWellFormed w here = w
  Reach-IsWellFormed w (further before s) = Step-IsWellFormed (Reach-IsWellFormed w before) s

  -- At every moment since its construction, each of a dispatcher's tickets stands under its own id and in
  -- the order of admission, each id of the order has a ticket, is below the next id and stands there once,
  -- and no ticket is left executing.
  pub new_dispatcher-Reach :
      (world : World)
      → (handler : World → StreamId → Message → (Message × Option Error) × World)
      → (seq : Sequencer) → (access : Option (World → StreamId → Option Error))
      → (d : Dispatcher World) → Reach (new_dispatcher world handler seq access) d
      → IsWellFormed d
  new_dispatcher-Reach world handler seq access d run =
      Reach-IsWellFormed (new_dispatcher-IsWellFormed world handler seq access) run

  -- What may stand under the id of a ticket afterwards.
  pub data Fate (id : ℕ) (t : Ticket) (d : Dispatcher World) : Type 0 where
    lives : (t' : Ticket) → lookup id d.tickets ≡ some t' → Advances t t' → Fate id t d
    forgotten :
        (t' : Ticket)
        → Advances t t'
        → is_finalized t'.state ≡ true
        → lookup id d.tickets ≡ none
        → id < d.next_id
        → Fate id t d

  Later-Fate :
      {d d' : Dispatcher World} {id : ℕ} {t : Ticket} → Later d d' → Fate id t d → Fate id t d'
  Later-Fate {id} l (lives t' found adv) =
      let (u, there, more) = Later-forth id t' l found in lives u there (Advances-trans adv more)
  Later-Fate {d} {d'} {id} l (forgotten last adv over gone low) =
      elim (Option-cases (lookup id d'.tickets)) [
        | inl still ↦ forgotten last adv over still (omega (arith, l.next_id))
        | inr (u, there) ↦
            let (v, before, back) = Later-back id u l there in
            absurd (let bad : none ≡ some v = sym gone ∙ before in cc)
      ]

  Step-Fate :
      {d d' : Dispatcher World} {id : ℕ} {t : Ticket}
      → IsWellFormed d
      → Fate id t d
      → Step d d'
      → Fate id t d'
  unfolding register_trigger_source set_safe_state_check
  Step-Fate {d} {d'} {id} {t} w f (submitted requester req room) =
      left f (submit-Submitted d requester req)
    where
      left :
          {out : Result ℕ × Dispatcher World}
          → Fate id t d
          → Submitted d requester req out
          → Fate id t out.1
      left f (refused e) = f
      left (lives t' found adv) (admitted u fresh safe) =
          let low = w.below id (w.listed id t' found) in
          let apart : (u.id == id) ≡ false = ground (arith, ==_iff u.id id, fresh.id) in
          lives t' (rw (lookup-insert, apart) found) adv
      left (forgotten last adv over gone low) (admitted u fresh safe) =
          let apart : (u.id == id) ≡ false = ground (arith, ==_iff u.id id, fresh.id) in
          forgotten last adv over (rw (lookup-insert, apart) gone) (omega (arith, room))
  Step-Fate {d} w f (pumped now) = Later-Fate (pump-Later d now w.keyed) f
  Step-Fate {d} w f purged = Later-Fate (purge-Later d w) f
  Step-Fate {d} {d'} {id} {t} w f (forgot other) = left f (forget-Forgotten d other)
    where
      left : {e : Dispatcher World} → Fate id t d → Forgotten d other e → Fate id t e
      left f kept = f
      left (lives t' found adv) (removed u there over) = elim (Bool-cases (other == id)) [
        | inl same ↦
            let here : some t' ≡ some u =
              sym found ∙ (ap (λ j. lookup j d.tickets) (sym ((==_iff other id).0 same)) ∙ there) in
            let value : t' ≡ u = cc in
            forgotten t' adv (ap (λ (x : Ticket). is_finalized x.state) value ∙ over)
              (rw (lookup-delete, same) refl) (w.below id (w.listed id t' found))
        | inr apart ↦ lives t' (rw (lookup-delete, apart) found) adv
      ]
      left (forgotten last adv done gone low) (removed u there over) =
          elim (Bool-cases (other == id)) [
            | inl same ↦ forgotten last adv done (rw (lookup-delete, same) refl) low
            | inr apart ↦ forgotten last adv done (rw (lookup-delete, apart) gone) low
          ]
  Step-Fate {d} w f (registered source source_pump) = Later-Fate (Later-same d _ refl refl refl) f
  Step-Fate {d} w f (checked check) = Later-Fate (Later-same d _ refl refl refl) f
  Step-Fate {d} w f (moved world) = Later-Fate (Later-same d _ refl refl refl) f

  -- From a well-formed dispatcher on, a ticket keeps its id and its request, never goes back to an earlier
  -- state, and stays as it is from when it is finalized, response and error included, until it is
  -- forgotten, which takes a finalized one; an id that was forgotten is never given out again.
  pub Reach-Fate :
      (d d' : Dispatcher World) (id : ℕ) (t : Ticket)
      → IsWellFormed d
      → lookup id d.tickets ≡ some t
      → Reach d d'
      → Fate id t d'
  Reach-Fate d d' id t w found here = lives t found (Advances-refl t)
  Reach-Fate d d' id t w found (further {a} before s) =
      Step-Fate (Reach-IsWellFormed w before) (Reach-Fate d a id t w found before) s
