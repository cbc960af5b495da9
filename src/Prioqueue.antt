-- ===== src/Prioqueue.antt =====
-- prioqueue/queue.go: requests that a client holds back, released by priority. container/heap is taken as
-- what its interface promises: a collection, from which `Pop` takes an item that none is less than.
-- The order of `h` is that of the pushes.
pub mod Refines
mod Tests
use go_rcp.Base.{
  ℕ, suc, zero, ◌+◌, ◌%◌, ◌^◌, Bool, true, false, not, ◌||◌, Option, none, some, List, [], ◌∷◌,
  ◌++◌, length, ltb, ◌==◌, ◌!=◌, if◌then◌else◌, Error, queue_invalid_kind,
}
use go_rcp.Avtp.{StreamId}
use go_rcp.Acf.{Message}
use go_rcp.Request.Kind.{kind_plain, is_valid_kind, priority}

pub record Item : Type 0 where
  pub kind : ℕ
  pub requester : StreamId
  pub message : Message
  pub seq : ℕ

pub record Queue : Type 0 where
  pub h : List Item
  pub seq : ℕ

abbrev pub new_queue : Queue
new_queue = record { h = []; seq = 0 }

unfoldable pub valid_kind : ℕ → Bool
valid_kind k = k == kind_plain || is_valid_kind k

-- `itemHeap.Less`
abbrev pub less : Item → Item → Bool
less i j =
    let pi = priority i.kind in
    let pj = priority j.kind in if pi != pj then ltb pi pj else ltb i.seq j.seq

unfoldable pub push : Queue → ℕ → StreamId → Message → Option Error × Queue
unfolding valid_kind
push q kind requester msg =
    let n = (q.seq + 1) % 2 ^ 64 in
    if not (valid_kind kind) then (some queue_invalid_kind, q) else (
      none,
      record {
        h = q.h ++ (record { kind = kind; requester = requester; message = msg; seq = n } ∷ []);
        seq = n;
      },
    )

-- The least item, and the others in their order.
pub take_least : Item → List Item → Item × List Item
take_least it [] = (it, [])
take_least it (x ∷ xs) =
    let (least, rest) = take_least x xs in
    if less least it then (least, it ∷ rest) else (it, x ∷ xs)

pub pop : Queue → Option Item × Queue
unfolding take_least
pop q = elim q.h [
  | [] ↦ (none, q)
  | it ∷ items ↦ let (least, rest) = take_least it items in (some least, record q { h = rest })
]

-- `k` rounds of the loop of `PopAll`.
pop_rounds : ℕ → Queue → List Item × Queue
unfolding pop
pop_rounds zero q = ([], q)
pop_rounds (suc k) q =
    let (popped, q') = pop q in
    let (out, q'') = pop_rounds k q' in elim popped [ none ↦ ([], q) | some it ↦ (it ∷ out, q'') ]

pub pop_all : Queue → List Item × Queue
unfolding pop_rounds
pop_all q = pop_rounds (length q.h) q

abbrev pub len : Queue → ℕ
len q = length q.h
