-- ===== src/Fragment/Reassembler/Protected.antt =====
-- fragment/reassembler.go: `FinishProtected`, and what it makes of a protected message that was split.
use go_rcp.Base.{
  ℕ, ◌≤◌, ◌<◌, ◌≡◌, refl, sym, ap, ◌∙◌, not, none, some, List, [], ◌∷◌, ◌++◌, length, if◌then◌else◌,
  Result, ok, err, arith, unknown_sequence, incomplete,
}
use go_rcp.Base.Assoc.{lookup}
use go_rcp.Base.Bytes.{AllBytes, put_be}
use go_rcp.Avtp.{StreamId, IsStreamId}
use go_rcp.Acf.{Message}
use go_rcp.Fragment.{Key, key_of, key_instance, split}
use go_rcp.Fragment.Split.{Cut, split-Cut}
use go_rcp.Fragment.Reassembler.{Reassembler, abandon, message_for, concat_bodies}
use go_rcp.Fragment.Reassembler.Together.{
  add_all, add_all-split, rebuilt, segment_bodies, run_results, concat-segment_bodies,
}
use go_rcp.E2e.{
  zeros, compute, covered, pad_len_for, protect, verify, joined_bodies, last_body,
  verify_fragmented,
}
use go_rcp.E2e.Protected.{verify-protect}
use go_rcp.E2e.Fragmented.{verify_fragmented-verify}

pub finish_protected : Reassembler → StreamId → Key → Result Message × Reassembler
finish_protected r stream key = elim (lookup key r.seqs) [
  | none ↦ (err unknown_sequence, r)
  | some s ↦
      if not s.ready
      then (err incomplete, r)
      else (verify_fragmented stream (message_for s key) s.bodies, abandon r key)
]

-- All bodies but the last, in front of it.
earlier_bodies :
    (b : List ℕ) (bs : List (List ℕ))
    → (earlier : List (List ℕ)) × (b ∷ bs ≡ earlier ++ (last_body (b ∷ bs) ∷ []))
earlier_bodies b [] = ([], refl)
earlier_bodies b (c ∷ bs) =
    let (earlier, e) = earlier_bodies c bs in (b ∷ earlier, ap (λ t. b ∷ t) e)

joined_bodies-concat : (bs : List (List ℕ)) → joined_bodies bs ≡ concat_bodies bs
unfolding joined_bodies concat_bodies
joined_bodies-concat [] = refl
joined_bodies-concat (b ∷ bs) = ap (λ t. b ++ t) (joined_bodies-concat bs)

verify_fragmented-whole :
    (stream : StreamId) (header : Message) (bodies : List (List ℕ))
    → 7 ≤ length (last_body bodies)
    → verify_fragmented stream header bodies
      ≡ verify stream (record header { body = concat_bodies bodies })
verify_fragmented-whole stream header [] room = absurd (omega (arith, room))
verify_fragmented-whole stream header (b ∷ bs) room =
    let (earlier, e) = earlier_bodies b bs in
    ap (verify_fragmented stream header) e
    ∙ (verify_fragmented-verify stream header earlier (last_body (b ∷ bs)) room
        ∙ ap (λ l. verify stream (record header { body = l }))
            (ap joined_bodies (sym e) ∙ joined_bodies-concat (b ∷ bs)))

-- The safe point covers none of the fields that reassembly clears.
compute-rebuilt :
    (stream : StreamId) (m : Message) (body : List ℕ)
    → compute stream (rebuilt m body) ≡ compute stream (record m { body = body })
unfolding compute covered
compute-rebuilt stream m body = refl

protect-rebuilt :
    (stream : StreamId) (m : Message)
    → rebuilt m (protect stream m).body ≡ protect stream (rebuilt m m.body)
unfolding protect
protect-rebuilt stream m =
    ap (λ crc. rebuilt m (m.body ++ (zeros (pad_len_for (length m.body)) ++ put_be 4 crc)))
      (sym (compute-rebuilt stream m m.body))

module _ (m : Message) (max_body : ℕ) (segs : List Message) (r : Reassembler) (stream : StreamId)
    (clock : ℕ → ℕ) where
  -- The segments that `split` makes of a protected message of bytes, whose last one has seven bytes or more,
  -- delivered in order and at any times to a reassembler that holds nothing under its key and allows as
  -- many segments: each but the last waits, the last completes the sequence, and `finish_protected` accepts
  -- the safe point. It returns the message with the pad, evt, hs, cs and mtv fields cleared, its body
  -- followed by at most as many zero bytes as the padding has, and by one or more only where that
  -- longer body has the same safe point.
  pub finish_protected-split :
      IsStreamId stream
      → AllBytes m.body
      → m.control < 256
      → split (protect stream m) max_body ≡ ok segs
      → lookup (key_of stream m) r.seqs ≡ none
      → length segs ≤ r.max_segments
      → 7 ≤ length (last_body (segment_bodies segs))
      → ((add_all r clock stream 0 segs).0 ≡ run_results segs)
        × (extra : ℕ) × (extra ≤ pad_len_for (length m.body))
        × ((finish_protected (add_all r clock stream 0 segs).1 stream (key_of stream m)).0
            ≡ ok (rebuilt m (m.body ++ zeros extra)))
        × (compute stream (record m { body = m.body ++ zeros extra }) ≡ compute stream m)
  unfolding finish_protected protect message_for
  finish_protected-split id w c e held f room =
      let pm : Message = protect stream m in
      let cut : Cut pm max_body segs = split-Cut pm max_body segs c e in
      let (results, now, done) = add_all-split pm max_body segs r stream clock c e held f in
      let (extra, few, back, same) = verify-protect stream (rebuilt m m.body) id w in
      let whole : concat_bodies (segment_bodies segs) ≡ pm.body =
        concat-segment_bodies segs ∙ cut.whole in
      (
        results,
        extra,
        few,
        rw (done, finish_protected)
            (verify_fragmented-whole stream (rebuilt m []) (segment_bodies segs) room
              ∙ (ap (λ b. verify stream (rebuilt m b)) whole
                  ∙ (ap (verify stream) (protect-rebuilt stream m) ∙ back))),
        sym (compute-rebuilt stream m (m.body ++ zeros extra))
            ∙ (same ∙ compute-rebuilt stream m m.body),
      )
