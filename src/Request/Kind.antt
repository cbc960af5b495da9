-- ===== src/Request/Kind.antt =====
-- request/kind.go: request kinds and comparison operators, both uint8.
use go_rcp.Base.{
  ℕ, bit_and, bit_or, bit_xor, Bool, false, ◌&&◌, ◌||◌, ltb, leb, ◌==◌, ◌!=◌, if◌then◌else◌,
}

abbrev pub kind_plain : ℕ
kind_plain = 0

abbrev pub kind_compound : ℕ
kind_compound = 1

abbrev pub kind_compound_wait : ℕ
kind_compound_wait = 2

abbrev pub kind_triggered : ℕ
kind_triggered = 3

abbrev pub kind_chained : ℕ
kind_chained = 4

abbrev pub kind_timed : ℕ
kind_timed = 5

abbrev pub kind_cancel_all : ℕ
kind_cancel_all = 6

abbrev pub kind_cancel_transaction : ℕ
kind_cancel_transaction = 7

abbrev pub kind_cancel_sequencer : ℕ
kind_cancel_sequencer = 8

abbrev kind_count : ℕ
kind_count = 9

abbrev pub kind_safety_flag : ℕ
kind_safety_flag = 0x80

abbrev pub kind_compound_safety : ℕ
kind_compound_safety = bit_or kind_compound kind_safety_flag

abbrev pub kind_compound_wait_safety : ℕ
kind_compound_wait_safety = bit_or kind_compound_wait kind_safety_flag

abbrev pub kind_triggered_safety : ℕ
kind_triggered_safety = bit_or kind_triggered kind_safety_flag

unfoldable pub is_safety : ℕ → Bool
is_safety k = bit_and k kind_safety_flag != 0

-- `k &^ KindSafetyFlag`
unfoldable pub base : ℕ → ℕ
base k = bit_and k (bit_xor 0xff kind_safety_flag)

unfoldable pub is_valid_kind : ℕ → Bool
unfolding is_safety base
is_valid_kind k =
    if is_safety k
    then (base k == kind_compound || (base k == kind_compound_wait || base k == kind_triggered))
    else ltb kind_plain k && ltb k kind_count

pub is_cancellation : ℕ → Bool
is_cancellation k =
    k == kind_cancel_all || (k == kind_cancel_transaction || k == kind_cancel_sequencer)

-- The map `priorityRank`; a key that it lacks reads as 0.
priority_rank : ℕ → ℕ
priority_rank k =
    if k == kind_triggered
    then 1
    else if k == kind_timed
    then 2
    else if k == kind_compound
    then 3
    else if k == kind_compound_wait
    then 4
    else if k == kind_chained
    then 5
    else if k == kind_plain
    then 6
    else 0

unfoldable pub priority : ℕ → ℕ
unfolding priority_rank base
priority k = priority_rank (base k)

abbrev pub compare_equal : ℕ
compare_equal = 0

abbrev pub compare_not_equal : ℕ
compare_not_equal = 1

abbrev pub compare_less : ℕ
compare_less = 2

abbrev pub compare_less_or_equal : ℕ
compare_less_or_equal = 3

abbrev pub compare_greater : ℕ
compare_greater = 4

abbrev pub compare_greater_or_equal : ℕ
compare_greater_or_equal = 5

abbrev compare_op_count : ℕ
compare_op_count = 6

unfoldable pub is_valid_op : ℕ → Bool
is_valid_op op = ltb op compare_op_count

unfoldable pub evaluate_op : ℕ → ℕ → ℕ → Bool
evaluate_op op current operand =
    if op == compare_equal
    then current == operand
    else if op == compare_not_equal
    then current != operand
    else if op == compare_less
    then ltb current operand
    else if op == compare_less_or_equal
    then leb current operand
    else if op == compare_greater
    then ltb operand current
    else if op == compare_greater_or_equal
    then leb operand current
    else false
