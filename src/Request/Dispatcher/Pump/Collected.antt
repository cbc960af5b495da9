-- ===== src/Request/Dispatcher/Pump/Collected.antt =====
-- The requests that a pump is sure to run.
use go_rcp.Base.{
  ℕ, ◌≡◌, refl, sym, ap, ◌∙◌, Bool, true, false, not, ◌&&◌, ◌||◌, ◌==◌, ==_iff, Option, some, List,
  [], ◌∷◌, arith, Bool-cases, Option-cases, ◌⊎◌, inl, inr, if◌then◌else◌,
}
use go_rcp.Base.Assoc.{lookup, nat_eq, lookup-insert}
use go_rcp.Request.Kind.{is_safety, base, kind_triggered, kind_timed}
use go_rcp.Request.Ticket.{queued, started, Ticket, is_queued}
use go_rcp.Request.Dispatcher.{Dispatcher, put}
use go_rcp.Request.Dispatcher.Later.{IsKeyed, put-IsKeyed}
use go_rcp.Request.Dispatcher.Purge.{contains_id}
use go_rcp.Request.Dispatcher.Pump.{
  start_queued, take_ready, collect_ready, insert_ready, sort_ready,
}
use go_rcp.Request.Dispatcher.Pump.Begun.{begun, start_queued_at}

-- Whether a batch has a ticket of this id.
abbrev pub has : ℕ → List Ticket → Bool
has id [] = false
has id (t ∷ ts) = t.id == id || has id ts

has-insert_ready :
    (id : ℕ) (t : Ticket) (ts : List Ticket) → has id (insert_ready t ts) ≡ has id (t ∷ ts)
unfolding insert_ready
has-insert_ready id t [] = refl
has-insert_ready id t (u ∷ us) = ground (arith, has-insert_ready id t us)

pub has-sort_ready : (id : ℕ) (ts : List Ticket) → has id (sort_ready ts) ≡ has id ts
unfolding sort_ready
has-sort_ready id [] = refl
has-sort_ready id (t ∷ ts) =
    has-insert_ready id t (sort_ready ts) ∙ ap (λ b. t.id == id || b) (has-sort_ready id ts)

started_state : (t : Ticket) → t.state ≡ started → begun t ≡ t
started_state t e = ap (λ s. let u : Ticket = record t { state = s } in u) (sym e)

-- A request that a pump need not wait for: neither a safety request nor triggered nor timed.
abbrev pub is_immediate : ℕ → Bool
is_immediate k = not (is_safety k) && (not (base k == kind_triggered) && not (base k == kind_timed))

module _ {World : Type 0} where
  pub start_queued-begun :
      (ids : List ℕ) (d : Dispatcher World) (id : ℕ) (t : Ticket)
      → contains_id id ids ≡ true
      → IsKeyed d
      → lookup id d.tickets ≡ some t
      → (t.state ≡ queued) ⊎ (t.state ≡ started)
      → lookup id (start_queued d ids).tickets ≡ some (begun t)
  unfolding start_queued put
  start_queued-begun [] d id t h k held s = cc
  start_queued-begun (i ∷ ids) d id t h k held (inr on) =
      elim (start_queued_at (i ∷ ids) d id t k held) [
        | inl left ↦ left ∙ ap some (sym (started_state t on))
        | inr first ↦ first
      ]
  start_queued-begun (i ∷ ids) d id t h k held (inl waits) = elim (Bool-cases (i == id)) [
    | inl same ↦
        let eq : i ≡ id = (==_iff i id).0 same in
        let there : lookup i d.tickets ≡ some t = ap (λ j. lookup j d.tickets) eq ∙ held in
        let now : lookup id (put d (begun t)).tickets ≡ some (begun t) = put_at d id t k held in
        rw (there, start_queued)
          (rw waits (
            again t
              (start_queued_at ids (put d (begun t)) id (begun t) (put-IsKeyed d (begun t) k) now)))
    | inr other ↦
        let rest : contains_id id ids ≡ true = rw other at h in
        elim (Option-cases (lookup i d.tickets)) [
          | inl gone ↦
              rw (gone, start_queued) (start_queued-begun ids d id t rest k held (inl waits))
          | inr (u, there) ↦ elim (Bool-cases (is_queued u.state)) [
            | inr on ↦
                rw (there, start_queued)
                  (rw on (start_queued-begun ids d id t rest k held (inl waits)))
            | inl first ↦
                let apart : (u.id == id) ≡ false = ap (λ j. j == id) (k i u there) ∙ other in
                rw (there, start_queued)
                  (rw first (
                    start_queued-begun ids (put d (begun u)) id t rest (put-IsKeyed d (begun u) k)
                      (put_apart d id t u held apart) (inl waits)))
          ]
        ]
  ]
    where
      put_at :
          (d : Dispatcher World) (id : ℕ) (t : Ticket)
          → IsKeyed d
          → lookup id d.tickets ≡ some t
          → lookup id (put d (begun t)).tickets ≡ some (begun t)
      put_at d id t k held = rw (lookup-insert, (==_iff t.id id).1 (k id t held)) refl

      put_apart :
          (d : Dispatcher World) (id : ℕ) (t u : Ticket)
          → lookup id d.tickets ≡ some t
          → (u.id == id) ≡ false
          → lookup id (put d (begun u)).tickets ≡ some t
      put_apart d id t u held apart = rw (lookup-insert, apart) held

      again :
          (t : Ticket) {o : Option Ticket}
          → (o ≡ some (begun t)) ⊎ (o ≡ some (begun (begun t)))
          → o ≡ some (begun t)
      again t (inl h) = h
      again t (inr h) = h

  pub collect_ready-has :
      (ids : List ℕ) (d : Dispatcher World) (now : ℕ) (available : List (ℕ × ℕ)) (id : ℕ)
      (t : Ticket)
      → contains_id id ids ≡ true
      → IsKeyed d
      → lookup id d.tickets ≡ some t
      → t.state ≡ started
      → is_immediate t.kind ≡ true
      → has id (collect_ready d now available ids) ≡ true
  unfolding collect_ready take_ready
  collect_ready-has [] d now available id t h k held on free = cc
  collect_ready-has (i ∷ ids) d now available id t h k held on free = elim (Bool-cases (i == id)) [
    | inl same ↦
        let eq : i ≡ id = (==_iff i id).0 same in
        let there : lookup i d.tickets ≡ some t = ap (λ j. lookup j d.tickets) eq ∙ held in
        let mine : t.id ≡ id = k id t held in
        let (quick, no_trigger, no_time) = immediate_parts t.kind free in
        rw (there, collect_ready)
          (rw (on, quick, no_trigger, no_time) (ground (arith, ==_iff t.id id, mine)))
    | inr other ↦
        let rest : contains_id id ids ≡ true = rw other at h in
        elim (Option-cases (lookup i d.tickets)) [
          | inl gone ↦
              rw (gone, collect_ready)
                (collect_ready-has ids d now available id t rest k held on free)
          | inr (u, there) ↦
              rw (there, collect_ready)
                (keep id u (take_ready d now available u).0 _ (
                  collect_ready-has ids d now (take_ready d now available u).1 id t rest k held on
                    free))
        ]
  ]
    where
      keep :
          (id : ℕ) (u : Ticket) (b : Bool) (ts : List Ticket)
          → has id ts ≡ true
          → has id (if b then u ∷ ts else ts) ≡ true
      keep id u true ts h = ground (arith, h)
      keep id u false ts h = h

      immediate_parts :
          (k : ℕ)
          → is_immediate k ≡ true
          → (is_safety k ≡ false)
            × ((base k == kind_triggered) ≡ false)
            × ((base k == kind_timed) ≡ false)
      immediate_parts k h = (ground (arith, h), ground (arith, h), ground (arith, h))
