-- ===== src/Fragment/Reassembler/Tests.antt =====
-- Fragmentation of concrete messages.
use go_rcp.Base.{
  ℕ, ◌++◌, Bool, true, ◌&&◌, ltb, ◌⊎◌, ◌≡◌, ◌≤◌, refl, none, List, [], ◌∷◌, ok, err, length, arith,
  invalid_max_segment_body,
}
use go_rcp.Base.Assoc.{lookup}
use go_rcp.Base.Bytes.{AllBytes, put_be}
use go_rcp.Avtp.{StreamId, IsStreamId}
use go_rcp.E2e.{zeros, pad_len_for, last_body, compute, checksum, covered, protect}
use go_rcp.Fragment.Reassembler.Protected.{finish_protected, finish_protected-split}
use go_rcp.Acf.{Message, no_message, kind_short, flag_write, flag_more_segments}
use go_rcp.Fragment.{Key, key_of, key_instance, segment, segments, split}
use go_rcp.Fragment.Split.{Cut, split-Cut}
use go_rcp.Fragment.Reassembler.{Reassembler, new_reassembler, add, finish}
use go_rcp.Fragment.Reassembler.Together.{
  segment_bodies, add_all, rebuilt, run_results, finish-split,
}
use go_rcp.Fragment.Reassembler.Keeps.{IsWellFormed, new_reassembler-IsWellFormed, add-IsWellFormed}

all_below_256 : List ℕ → Bool
all_below_256 [] = true
all_below_256 (b ∷ bs) = ltb b 256 && all_below_256 bs

all_bytes : (bs : List ℕ) → all_below_256 bs ≡ true → AllBytes bs
unfolding all_below_256
all_bytes [] h = tt
all_bytes (b ∷ bs) h = (ground (arith, h), all_bytes bs (ground (arith, h)))

abbrev five_octets : Message
five_octets = record no_message {
  kind = kind_short;
  byte_bus_id = 5;
  transaction_num = 1;
  evt = 2;
  control = flag_write;
  read_size_or_segment = 5;
  body = 1 ∷ 2 ∷ 3 ∷ 4 ∷ 5 ∷ [];
}

abbrev first_two : Message
first_two = record five_octets { control = 0x48; read_size_or_segment = 0; body = 1 ∷ 2 ∷ [] }

abbrev three_segments : List Message
three_segments =
    first_two
    ∷ record first_two { read_size_or_segment = 1; body = 3 ∷ 4 ∷ [] }
    ∷ record five_octets { body = 5 ∷ [] }
    ∷ []

abbrev sender : StreamId
sender = 2 ∷ 0 ∷ 0x5e ∷ 0x10 ∷ 0 ∷ 1 ∷ 0 ∷ 1 ∷ []

abbrev empty : Reassembler
empty = new_reassembler 0 0

split_five : split five_octets 2 ≡ ok three_segments
unfolding split go_rcp.Acf.has
split_five = refl

split_by_zero : split five_octets 0 ≡ err invalid_max_segment_body
unfolding split
split_by_zero = refl

nothing_held : lookup (key_of sender five_octets) empty.seqs ≡ none
unfolding new_reassembler lookup
nothing_held = refl

enough_segments : length three_segments ≤ empty.max_segments
unfolding new_reassembler
enough_segments = omega arith

split-Cut_example : Cut five_octets 2 three_segments
split-Cut_example = split-Cut five_octets 2 three_segments (omega arith) split_five

finish-split_example :
    ((add_all empty (λ i. i) sender 0 three_segments).0 ≡ run_results three_segments)
    × ((finish (add_all empty (λ i. i) sender 0 three_segments).1 (key_of sender five_octets)).0
        ≡ ok (rebuilt five_octets five_octets.body))
finish-split_example =
    finish-split five_octets 2 three_segments empty sender (λ i. i) (omega arith) split_five
      nothing_held enough_segments

abbrev one_waiting : Reassembler
one_waiting = (add empty 10 sender first_two).1

one_waiting-IsWellFormed : IsWellFormed one_waiting
one_waiting-IsWellFormed =
    (add-IsWellFormed empty 10 sender first_two (new_reassembler-IsWellFormed 0 0)).0

add-IsWellFormed_example :
    IsWellFormed (add one_waiting 11 sender five_octets).1
    × ((j : Key)
        → (key_of sender five_octets ≡ j)
          ⊎ (lookup j (add one_waiting 11 sender five_octets).1.seqs ≡ lookup j one_waiting.seqs))
add-IsWellFormed_example =
    add-IsWellFormed one_waiting 11 sender five_octets one_waiting-IsWellFormed

-- Five octets with their padding and safe point, in segments of at most seven octets.
abbrev longer : Message
longer = record five_octets { body = 1 ∷ 2 ∷ 3 ∷ 4 ∷ 5 ∷ 6 ∷ 7 ∷ 8 ∷ 9 ∷ 10 ∷ [] }

abbrev protected_segments : List Message
protected_segments =
    segment (protect sender longer) 9 2 0 ∷ segment (protect sender longer) 9 2 1 ∷ []

split_protected : split (protect sender longer) 9 ≡ ok protected_segments
unfolding split segments protect pad_len_for compute checksum covered put_be go_rcp.Acf.has
split_protected = refl

last_long_enough : 7 ≤ length (last_body (segment_bodies protected_segments))
unfolding segment protect pad_len_for compute checksum covered put_be
last_long_enough = omega arith

nothing_held_longer : lookup (key_of sender longer) empty.seqs ≡ none
unfolding new_reassembler lookup
nothing_held_longer = refl

enough_segments_longer : length protected_segments ≤ empty.max_segments
unfolding new_reassembler
enough_segments_longer = omega arith

sender-IsStreamId : IsStreamId sender
unfolding all_below_256
sender-IsStreamId = record { eight = refl; bytes = all_bytes sender refl }

longer-AllBytes : AllBytes longer.body
unfolding all_below_256
longer-AllBytes = all_bytes longer.body refl

finish_protected-split_example :
    ((add_all empty (λ i. i) sender 0 protected_segments).0 ≡ run_results protected_segments)
    × (extra : ℕ) × (extra ≤ pad_len_for (length longer.body))
    × ((finish_protected
          (add_all empty (λ i. i) sender 0 protected_segments).1
          sender
          (key_of sender longer)).0
        ≡ ok (rebuilt longer (longer.body ++ zeros extra)))
    × (compute sender (record longer { body = longer.body ++ zeros extra }) ≡ compute sender longer)
finish_protected-split_example =
    finish_protected-split longer 9 protected_segments empty sender (λ i. i) sender-IsStreamId
      longer-AllBytes (omega arith) split_protected nothing_held_longer enough_segments_longer
      last_long_enough
