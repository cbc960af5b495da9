-- ===== src/Fragment/Gateway/Tests.antt =====
-- A fragmented request, given to a gateway in front of a dispatcher.
use go_rcp.Base.{ℕ, ◌+◌, ◌≤◌, ◌≡◌, refl, none, List, [], ◌∷◌, ok, length, arith}
use go_rcp.Base.Assoc.{lookup}
use go_rcp.Avtp.{StreamId}
use go_rcp.Acf.{Message, no_message, has}
use go_rcp.Fragment.{key_of, key_instance, segment, segments, split}
use go_rcp.Fragment.Reassembler.{new_reassembler}
use go_rcp.Fragment.Reassembler.Together.{rebuilt}
use go_rcp.Fragment.Gateway.{
  dispatcher_submitter, Gateway, new_gateway, gateway_results, submit_all, submit_all-split,
}
use go_rcp.Request.Dispatcher.{Dispatcher}
use go_rcp.Request.Dispatcher.Reachable.{new_dispatcher}

abbrev sender : StreamId
sender = 2 ∷ 0 ∷ 0x5e ∷ 0x10 ∷ 0 ∷ 1 ∷ 0 ∷ 1 ∷ []

abbrev three_octets : Message
three_octets = record no_message {
  kind = 1;
  byte_bus_id = 5;
  control = 0x40;
  body = 1 ∷ 2 ∷ 3 ∷ [];
}

abbrev two_segments : List Message
two_segments = segment three_octets 2 2 0 ∷ segment three_octets 2 2 1 ∷ []

split_three : split three_octets 2 ≡ ok two_segments
unfolding split segments has
split_three = refl

abbrev idle : Dispatcher ℕ
idle = new_dispatcher 0 (λ w from m. ((record no_message { body = m.body }, none), w + 1)) [] none

abbrev front : Gateway (Dispatcher ℕ)
front = new_gateway dispatcher_submitter idle (new_reassembler 0 0) 0

nothing_held : lookup (key_of sender three_octets) front.reassembler.seqs ≡ none
unfolding new_gateway new_reassembler lookup
nothing_held = refl

enough_segments : length two_segments ≤ front.reassembler.max_segments
unfolding new_gateway new_reassembler
enough_segments = omega arith

submit_all-split_example :
    ((submit_all front (λ i. i) sender 0 two_segments).0
      ≡ gateway_results two_segments
          (front.dispatcher.submit_whole front.world sender
            (rebuilt three_octets three_octets.body)).0)
    × ((submit_all front (λ i. i) sender 0 two_segments).1.world
        ≡ (front.dispatcher.submit_whole front.world sender
            (rebuilt three_octets three_octets.body)).1)
submit_all-split_example =
    submit_all-split front three_octets 2 two_segments sender (λ i. i) (omega arith) split_three
      nothing_held enough_segments
