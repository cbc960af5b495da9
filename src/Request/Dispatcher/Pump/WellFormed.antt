-- ===== src/Request/Dispatcher/Pump/WellFormed.antt =====
-- What holds of a dispatcher between two operations, and what each operation makes of it.
use go_rcp.Base.{
  ℕ, ◌+◌, ◌%◌, ◌^◌, ◌<◌, ◌≡◌, refl, sym, ap, ◌∙◌, true, false, not, ◌&&◌, ◌||◌, ◌==◌, ==_iff, none,
  some, List, [], ◌∷◌, ◌++◌, arith, Bool-cases, Option-cases, inl, inr,
}
use go_rcp.Base.Assoc.{lookup, insert, delete, nat_eq, lookup-insert, lookup-delete}
use go_rcp.Request.Ticket.{queued, Ticket, is_finalized}
use go_rcp.Request.Dispatcher.{Dispatcher}
use go_rcp.Request.Dispatcher.Later.{Later, IsKeyed, Later-IsKeyed, Later-back, Later-forth}
use go_rcp.Request.Dispatcher.Purge.{contains_id}
use go_rcp.Request.Dispatcher.Pump.{forget, remove_first}
use go_rcp.Request.Dispatcher.Pump.Quiet.{IsQuiet, is_executing}

-- No id stands twice.
abbrev pub IsDistinct : List ℕ → Type 0
IsDistinct [] = Unit
IsDistinct (i ∷ ids) = (contains_id i ids ≡ false) × IsDistinct ids

contains_id-append :
    (id new : ℕ) (ids : List ℕ)
    → contains_id id (ids ++ (new ∷ [])) ≡ (contains_id id ids || new == id)
contains_id-append id new [] = ground arith
contains_id-append id new (i ∷ ids) = ground (arith, contains_id-append id new ids)

append-IsDistinct :
    (new : ℕ) (ids : List ℕ)
    → contains_id new ids ≡ false
    → IsDistinct ids
    → IsDistinct (ids ++ (new ∷ []))
append-IsDistinct new [] h w = (refl, tt)
append-IsDistinct new (i ∷ ids) h w = (
  ground (arith, contains_id-append i new ids, w.0, ==_iff i new, ==_iff new i),
  append-IsDistinct new ids (ground (arith, h)) w.1,
)

contains_id-remove_first :
    (id j : ℕ) (ids : List ℕ)
    → IsDistinct ids
    → contains_id j (remove_first id ids) ≡ (contains_id j ids && not (id == j))
unfolding remove_first
contains_id-remove_first id j [] w = refl
contains_id-remove_first id j (i ∷ ids) w =
    ground (arith, contains_id-remove_first id j ids w.1, w.0, ==_iff i id, ==_iff i j, ==_iff id j)

remove_first-IsDistinct :
    (id : ℕ) (ids : List ℕ) → IsDistinct ids → IsDistinct (remove_first id ids)
unfolding remove_first
remove_first-IsDistinct id [] w = tt
remove_first-IsDistinct id (i ∷ ids) w = elim (Bool-cases (i == id)) [
  | inl same ↦ rw same w.1
  | inr other ↦ rw other (
    ground (arith, contains_id-remove_first id i ids w.1, w.0),
    remove_first-IsDistinct id ids w.1,
  )
]

module _ {World : Type 0} where
  -- Every ticket stands under its own id and is listed in the order, every id of the order has a ticket,
  -- is below the next id and stands there once, and no ticket is executing.
  pub record IsWellFormed (d : Dispatcher World) : Type 0 where
    pub keyed : IsKeyed d
    pub listed :
        (id : ℕ) (t : Ticket) → lookup id d.tickets ≡ some t → contains_id id d.order ≡ true
    pub held :
        (id : ℕ) → contains_id id d.order ≡ true → (t : Ticket) × (lookup id d.tickets ≡ some t)
    pub below : (id : ℕ) → contains_id id d.order ≡ true → id < d.next_id
    pub distinct : IsDistinct d.order
    pub quiet : IsQuiet d

  pub Later-IsWellFormed :
      {d d' : Dispatcher World} → Later d d' → IsQuiet d' → IsWellFormed d → IsWellFormed d'
  Later-IsWellFormed {d} {d'} l q w = record {
    keyed = Later-IsKeyed l w.keyed;
    listed = λ id t' found.
        let (t, there, adv) = Later-back id t' l found in
        ap (contains_id id) l.order ∙ w.listed id t there;
    held = λ id h.
        let (t, there) = w.held id (ap (contains_id id) (sym l.order) ∙ h) in
        let (t', found, adv) = Later-forth id t l there in (t', found);
    below = λ id h. omega (arith, l.next_id, w.below id (ap (contains_id id) (sym l.order) ∙ h));
    distinct = rw l.order w.distinct;
    quiet = q;
  }

  -- The dispatcher with a new ticket, under the next id.
  abbrev pub admit : Dispatcher World → Ticket → Dispatcher World
  admit d t = record d {
    next_id = (d.next_id + 1) % 2 ^ 64;
    tickets = insert t.id t d.tickets;
    order = d.order ++ (t.id ∷ []);
  }

  pub admit-IsWellFormed :
      (d : Dispatcher World) (t : Ticket)
      → t.id ≡ d.next_id
      → t.state ≡ queued
      → d.next_id + 1 < 2 ^ 64
      → IsWellFormed d
      → IsWellFormed (admit d t)
  admit-IsWellFormed d t id_eq state room w = record {
    keyed = λ id u found. elim (Bool-cases (t.id == id)) [
      | inl same ↦
          let eq : some t ≡ some u = rw (lookup-insert, same) at found in
          let value : t ≡ u = cc in sym (ap (λ (x : Ticket). x.id) value) ∙ (==_iff t.id id).0 same
      | inr other ↦ w.keyed id u (rw (lookup-insert, other) at found)
    ];
    listed = λ id u found. elim (Bool-cases (t.id == id)) [
      | inl same ↦ ground (arith, contains_id-append id t.id d.order, same)
      | inr other ↦ ground (
        arith,
        contains_id-append id t.id d.order,
        w.listed id u (rw (lookup-insert, other) at found),
      )
    ];
    held = λ id h. elim (Bool-cases (t.id == id)) [
      | inl same ↦ (t, rw (lookup-insert, same) refl)
      | inr other ↦
          let (u, there) =
            w.held id (ground (arith, contains_id-append id t.id d.order, h, other)) in
          (u, rw (lookup-insert, other) there)
    ];
    below = λ id h.
        ground
          (arith, contains_id-append id t.id d.order, h, w.below id, ==_iff t.id id, id_eq, room);
    distinct = append-IsDistinct t.id d.order (ground (arith, w.below t.id, id_eq)) w.distinct;
    quiet = λ id u found. elim (Bool-cases (t.id == id)) [
      | inl same ↦
          let eq : some t ≡ some u = rw (lookup-insert, same) at found in
          let value : t ≡ u = cc in
          ap (λ (x : Ticket). is_executing x.state) (sym value) ∙ ap is_executing state
      | inr other ↦ w.quiet id u (rw (lookup-insert, other) at found)
    ];
  }

  -- The dispatcher without the ticket of `id`.
  abbrev pub dropped : Dispatcher World → ℕ → Dispatcher World
  dropped d id = record d { tickets = delete id d.tickets; order = remove_first id d.order }

  dropped-found :
      (d : Dispatcher World) (id j : ℕ) (u : Ticket)
      → lookup j (dropped d id).tickets ≡ some u
      → ((id == j) ≡ false) × (lookup j d.tickets ≡ some u)
  dropped-found d id j u found = elim (Bool-cases (id == j)) [
    | inl same ↦ absurd (let bad : none ≡ some u = rw (lookup-delete, same) at found in cc)
    | inr other ↦ (other, rw (lookup-delete, other) at found)
  ]

  dropped-IsWellFormed :
      (d : Dispatcher World) (id : ℕ) → IsWellFormed d → IsWellFormed (dropped d id)
  dropped-IsWellFormed d id w = record {
    keyed = λ j u found. w.keyed j u (dropped-found d id j u found).1;
    listed = λ j u found.
        let (other, there) = dropped-found d id j u found in
        ground (arith, contains_id-remove_first id j d.order w.distinct, other, w.listed j u there);
    held = λ j h.
        let left = contains_id-remove_first id j d.order w.distinct in
        let (u, there) = w.held j (ground (arith, left, h)) in
        let other : (id == j) ≡ false = ground (arith, left, h) in
        (u, rw (lookup-delete, other) there);
    below = λ j h. w.below j (ground (arith, contains_id-remove_first id j d.order w.distinct, h));
    distinct = remove_first-IsDistinct id d.order w.distinct;
    quiet = λ j u found. w.quiet j u (dropped-found d id j u found).1;
  }

  -- Forgetting drops a ticket that is finalized, and no other.
  pub data Forgotten (d : Dispatcher World) (id : ℕ) : Dispatcher World → Type 0 where
    kept : Forgotten d id d
    removed :
        (t : Ticket)
        → lookup id d.tickets ≡ some t
        → is_finalized t.state ≡ true
        → Forgotten d id (dropped d id)

  pub forget-Forgotten : (d : Dispatcher World) (id : ℕ) → Forgotten d id (forget d id)
  unfolding forget
  forget-Forgotten d id = elim (Option-cases (lookup id d.tickets)) [
    | inl gone ↦ rw (gone, forget) kept
    | inr (t, there) ↦ elim (Bool-cases (is_finalized t.state)) [
      | inl over ↦ rw (there, forget) (rw over (removed t there over))
      | inr open_ ↦ rw (there, forget) (rw open_ kept)
    ]
  ]

  pub forget-IsWellFormed :
      (d : Dispatcher World) (id : ℕ) → IsWellFormed d → IsWellFormed (forget d id)
  forget-IsWellFormed d id w = forgotten w (forget-Forgotten d id)
    where
      forgotten : {d' : Dispatcher World} → IsWellFormed d → Forgotten d id d' → IsWellFormed d'
      forgotten w kept = w
      forgotten w (removed t there over) = dropped-IsWellFormed d id w
