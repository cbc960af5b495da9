-- ===== src/Prioqueue/Tests.antt =====
-- A queue of two requests.
use go_rcp.Base.{
  ℕ, none, some, queue_invalid_kind, ◌+◌, ◌^◌, ◌<◌, ◌≡◌, ◌&&◌, ◌==◌, ◌++◌, [], ◌∷◌, if◌then◌else◌,
  arith,
}
use go_rcp.Avtp.{StreamId}
use go_rcp.Acf.{no_message}
use go_rcp.Request.Kind.{priority, kind_plain, kind_timed}
use go_rcp.Prioqueue.{Queue, new_queue, valid_kind, push, pop_all}
use go_rcp.Prioqueue.Refines.{IsWellFormed, line, push-line, IsSorted, pop_all-line}

abbrev sender : StreamId
sender = 2 ∷ 0 ∷ 0x5e ∷ 0x10 ∷ 0 ∷ 1 ∷ 0 ∷ 1 ∷ []

abbrev plain_waits : Queue
plain_waits = (push new_queue kind_plain sender no_message).1

new_queue-IsWellFormed : IsWellFormed new_queue
new_queue-IsWellFormed = record { ascending = tt; numbered = tt }

plain_waits-IsWellFormed : IsWellFormed plain_waits
plain_waits-IsWellFormed =
    (push-line new_queue kind_plain sender no_message new_queue-IsWellFormed (omega arith)).2

plain_waits-room : plain_waits.seq + 1 < 2 ^ 64
unfolding push valid_kind
plain_waits-room = omega arith

abbrev two_wait : Queue
two_wait = (push plain_waits kind_timed sender no_message).1

push-line_example :
    ((push plain_waits kind_timed sender no_message).0
      ≡ (if valid_kind kind_timed then none else some queue_invalid_kind))
    × ((push plain_waits kind_timed sender no_message).1.seq
        ≡ (if valid_kind kind_timed then plain_waits.seq + 1 else plain_waits.seq))
    × IsWellFormed (push plain_waits kind_timed sender no_message).1
    × ((r : ℕ)
        → line r (push plain_waits kind_timed sender no_message).1.h ≡ (
            if valid_kind kind_timed && priority kind_timed == r
            then line r plain_waits.h
              ++ (record {
                kind = kind_timed;
                requester = sender;
                message = no_message;
                seq = plain_waits.seq + 1;
              }
                  ∷ [])
            else line r plain_waits.h))
push-line_example =
    push-line plain_waits kind_timed sender no_message plain_waits-IsWellFormed plain_waits-room

two_wait-IsWellFormed : IsWellFormed two_wait
two_wait-IsWellFormed =
    (push-line plain_waits kind_timed sender no_message plain_waits-IsWellFormed plain_waits-room).2

pop_all-line_example :
    IsSorted (pop_all two_wait).0
    × ((r : ℕ) → line r (pop_all two_wait).0 ≡ line r two_wait.h)
    × ((pop_all two_wait).1.h ≡ [])
pop_all-line_example = pop_all-line two_wait two_wait-IsWellFormed
