-- ===== src/Prioqueue/Refines.antt =====
-- The queue as one line of items per rank.
use go_rcp.Base.{
  queue_invalid_kind, ℕ, suc, zero, ◌+◌, ◌%◌, ◌^◌, ◌≤◌, ◌<◌, ◌≡◌, refl, ap, Option, none, some,
  List, [], ◌∷◌, ◌++◌, length, ◌==◌, if◌then◌else◌, All, arith, Bool-cases, inl, inr, ◌&&◌,
  All-append, All-map,
}
use go_rcp.Avtp.{StreamId}
use go_rcp.Acf.{Message}
use go_rcp.Request.Kind.{priority}
use go_rcp.Prioqueue.{Item, Queue, valid_kind, less, push, take_least, pop, pop_rounds, pop_all}

-- The abstract queue: the items of a rank, in the order of their pushes.
unfoldable pub line : ℕ → List Item → List Item
line r [] = []
line r (it ∷ items) = let rest = line r items in if priority it.kind == r then it ∷ rest else rest

-- The items were pushed in the order of their numbers, none of which is above the queue's.
abbrev pub Ascending : List Item → Type 0
Ascending [] = Unit
Ascending (it ∷ items) = All (λ other. it.seq < other.seq) items × Ascending items

pub record IsWellFormed (q : Queue) : Type 0 where
  pub ascending : Ascending q.h
  pub numbered : All (λ it. it.seq ≤ q.seq) q.h

-- The least item is the first of its line, and of the least rank; the other lines stay.
pub record Taken (items : List Item) (it : Item) (rest : List Item) : Type 1 where
  pub lines :
      (r : ℕ) → line r items ≡ (if priority it.kind == r then it ∷ line r rest else line r rest)
  pub least : All (λ other. priority it.kind ≤ priority other.kind) items
  pub fewer : length items ≡ suc (length rest)
  pub every : (P : Item → Type 0) → All P items → P it × All P rest
  pub ascending : Ascending items → Ascending rest

take_least-Taken :
    (it : Item) (items : List Item)
    → Ascending (it ∷ items)
    → Taken (it ∷ items) (take_least it items).0 (take_least it items).1
unfolding take_least line
take_least-Taken it [] w = record {
  lines = λ r. refl;
  least = (omega arith, tt);
  fewer = refl;
  every = λ P h. h;
  ascending = λ h. h.1;
}
take_least-Taken it (x ∷ xs) w =
    let t = take_least-Taken x xs w.1 in
    let least : Item = (take_least x xs).0 in
    let rest : List Item = (take_least x xs).1 in
    let after : it.seq < least.seq = (t.every (λ other. it.seq < other.seq) w.0).0 in
    elim (Bool-cases (less least it)) [
      | inl lower ↦
          let below : priority least.kind < priority it.kind = ground (arith, lower, after) in
          rw lower (record {
            lines = λ r. spread r it least (x ∷ xs) rest (t.lines r) below;
            least = (omega arith, t.least);
            fewer = ap suc t.fewer;
            every = λ P h. ((t.every P h.1).0, (h.0, (t.every P h.1).1));
            ascending = λ h. ((t.every (λ other. it.seq < other.seq) h.0).1, t.ascending h.1);
          })
      | inr first ↦
          let above : priority it.kind ≤ priority least.kind = ground (arith, first, after) in
          rw first (record {
            lines = λ r. refl;
            least = (omega arith, All-map (λ other h. omega (arith, h, above)) (x ∷ xs) t.least);
            fewer = refl;
            every = λ P h. h;
            ascending = λ h. h.1;
          })
    ]
  where
    spread :
        (r : ℕ) (it least : Item) (items rest : List Item)
        → line r items ≡ (if priority least.kind == r then least ∷ line r rest else line r rest)
        → priority least.kind < priority it.kind
        → line r (it ∷ items)
          ≡ (if priority least.kind == r then least ∷ line r (it ∷ rest) else line r (it ∷ rest))
    spread r it least items rest e below = rw e (ground (arith, below))

-- What taking an item out does to the queue.
pub data Popped (q : Queue) : Option Item × Queue → Type 1 where
  nothing : q.h ≡ [] → Popped q (none, q)
  taken :
      (it : Item) (rest : List Item)
      → Taken q.h it rest
      → IsWellFormed (record q { h = rest })
      → Popped q (some it, record q { h = rest })

-- Taking an item out of a well-formed queue leaves it well formed: an empty queue gives none, and any other
-- the first item of the line of the least rank, whose line is shorter by it, while all other lines stay.
pub pop-Popped : (q : Queue) → IsWellFormed q → Popped q (pop q)
unfolding pop
pop-Popped q w = go q.h q.seq w
  where
    go :
        (h : List Item) (seq : ℕ)
        → IsWellFormed (record { h = h; seq = seq })
        → Popped (record { h = h; seq = seq }) (pop (record { h = h; seq = seq }))
    go [] seq w = nothing refl
    go (it ∷ items) seq w =
        let t = take_least-Taken it items w.ascending in
        taken (take_least it items).0 (take_least it items).1 t (record {
          ascending = t.ascending w.ascending;
          numbered = (t.every (λ other. other.seq ≤ seq) w.numbered).1;
        })

abbrev pub IsSorted : List Item → Type 0
IsSorted [] = Unit
IsSorted (it ∷ items) = All (λ other. priority it.kind ≤ priority other.kind) items × IsSorted items

pub record Drained (q : Queue) (out : List Item × Queue) : Type 1 where
  pub sorted : IsSorted out.0
  pub lines : (r : ℕ) → line r out.0 ≡ line r q.h
  pub every : (P : Item → Type 0) → All P q.h → All P out.0
  pub left : out.1.h ≡ []

pop_rounds-Drained :
    (k : ℕ) (q : Queue) → IsWellFormed q → length q.h ≡ k → Drained q (pop_rounds k q)
unfolding pop_rounds line
pop_rounds-Drained zero q w e =
    let empty : q.h ≡ [] = no_items q.h e in
    record { sorted = tt; lines = λ r. rw empty refl; every = λ P h. tt; left = empty }
  where
    no_items : (items : List Item) → length items ≡ 0 → items ≡ []
    no_items [] e = refl
    no_items (it ∷ items) e = absurd (omega (arith, e))
pop_rounds-Drained (suc k) q w e = go (λ q'. pop_rounds-Drained k q') (pop q) (pop-Popped q w)
  where
    go :
        ((q' : Queue) → IsWellFormed q' → length q'.h ≡ k → Drained q' (pop_rounds k q'))
        → (o : Option Item × Queue) → Popped q o
        → Drained q (
            let (out, q'') = pop_rounds k o.1 in
            elim o.0 [ none ↦ ([], q) | some it ↦ (it ∷ out, q'') ])
    go ih o (nothing empty) = absurd (omega (arith, e, ap length empty))
    go ih o (taken it rest t w') =
        let d = ih (record q { h = rest }) w' (omega (arith, e, t.fewer)) in
        record {
          sorted = (
            d.every (λ other. priority it.kind ≤ priority other.kind)
                (t.every (λ other. priority it.kind ≤ priority other.kind) t.least).1,
            d.sorted,
          );
          lines = λ r. rw (t.lines r, d.lines r) refl;
          every = λ P h. ((t.every P h).0, d.every P (t.every P h).1);
          left = d.left;
        }

-- Draining a well-formed queue leaves it empty and gives its items in the order of their ranks, and the
-- items of each rank in the order of their pushes: none is lost, added or moved within its rank.
pub pop_all-line :
    (q : Queue)
    → IsWellFormed q
    → IsSorted (pop_all q).0
      × ((r : ℕ) → line r (pop_all q).0 ≡ line r q.h)
      × ((pop_all q).1.h ≡ [])
unfolding pop_all
pop_all-line q w = let d = pop_rounds-Drained (length q.h) q w refl in (d.sorted, d.lines, d.left)

line-append :
    (r : ℕ) (it : Item) (items : List Item)
    → line r (items ++ (it ∷ []))
      ≡ (if priority it.kind == r then line r items ++ (it ∷ []) else line r items)
unfolding line
line-append r it [] = refl
line-append r it (x ∷ xs) = ground (arith, line-append r it xs)

append-Ascending :
    (it : Item) (items : List Item)
    → Ascending items
    → All (λ other. other.seq < it.seq) items
    → Ascending (items ++ (it ∷ []))
append-Ascending it [] w h = (tt, tt)
append-Ascending it (x ∷ xs) w h = (
  All-append (λ other. x.seq < other.seq) xs (it ∷ []) w.0 (h.0, tt),
  append-Ascending it xs w.1 h.1,
)

-- A queue that has not yet numbered 2^64 - 1 items stays well formed by a push. A push of an unknown kind gives
-- the error for it and leaves every line and the count; any other gives no error, adds its item at the end
-- of the line of its rank, and leaves the other lines.
pub push-line :
    (q : Queue) (kind : ℕ) (requester : StreamId) (msg : Message)
    → IsWellFormed q
    → q.seq + 1 < 2 ^ 64
    → ((push q kind requester msg).0 ≡ (if valid_kind kind then none else some queue_invalid_kind))
      × ((push q kind requester msg).1.seq ≡ (if valid_kind kind then q.seq + 1 else q.seq))
      × IsWellFormed (push q kind requester msg).1
      × ((r : ℕ)
          → line r (push q kind requester msg).1.h ≡ (
              if valid_kind kind && priority kind == r
              then line r q.h
                ++ (record { kind = kind; requester = requester; message = msg; seq = q.seq + 1 }
                    ∷ [])
              else line r q.h))
unfolding push
push-line q kind requester msg w room = elim (Bool-cases (valid_kind kind)) [
  | inr unknown ↦ rw unknown (refl, refl, w, λ r. refl)
  | inl known ↦
      let n : (q.seq + 1) % 2 ^ 64 ≡ q.seq + 1 = omega (arith, room) in
      let it : Item = record {
        kind = kind;
        requester = requester;
        message = msg;
        seq = q.seq + 1;
      } in
      rw (known, n)
        (
          refl,
          refl,
          record {
            ascending =
                append-Ascending it q.h w.ascending
                  (All-map (λ other h. omega (arith, h)) q.h w.numbered);
            numbered =
                All-append (λ other. other.seq ≤ q.seq + 1) q.h (it ∷ [])
                  (All-map (λ other h. omega (arith, h)) q.h w.numbered) (omega arith, tt);
          },
          λ r. line-append r it q.h,
        )
]
