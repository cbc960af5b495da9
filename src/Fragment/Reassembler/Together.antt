-- ===== src/Fragment/Reassembler/Together.antt =====
-- A run of segments, delivered in order, is put together again.
use go_rcp.Base.{
  ℕ, suc, ◌+◌, ◌≤◌, ◌<◌, bit_and, bit_or, ◌≡◌, refl, ap, ◌∙◌, Bool, true, false, none, some, List,
  [], ◌∷◌, ◌++◌, append_assoc, map, length, length-append, Result, ok, arith,
}
use go_rcp.Base.Assoc.{lookup, insert, lookup-insert_self}
use go_rcp.Base.Bits.{agree_below, agree_below→eq}
use go_rcp.Avtp.{StreamId}
use go_rcp.Acf.{Message, has, and_not, flag_more_segments}
use go_rcp.Fragment.{Key, key_of, key_instance, split}
use go_rcp.Fragment.Split.{
  SameDescriptor, IsRun, joined, split-Cut, split-eq-ok, set_table, clear_table,
}
use go_rcp.Fragment.Reassembler.{Sequence, Reassembler, concat_bodies, add, finish}

-- The i-th segment arrives at `clock i`.
unfoldable pub add_all :
    Reassembler → (ℕ → ℕ) → StreamId → ℕ → List Message → List (Result Bool) × Reassembler
add_all r clock stream i [] = ([], r)
add_all r clock stream i (s ∷ rest) =
    let (done, r') = add r (clock i) stream s in
    let (more, r'') = add_all r' clock stream (suc i) rest in (done ∷ more, r'')

-- Only the last segment completes the sequence.
abbrev pub run_results : List Message → List (Result Bool)
run_results [] = []
run_results (s ∷ []) = ok true ∷ []
run_results (s ∷ t ∷ rest) = ok false ∷ run_results (t ∷ rest)

-- What `finish` rebuilds: the evt, hs, cs and mtv fields are not kept.
abbrev pub rebuilt : Message → List ℕ → Message
rebuilt m body = record m { pad = 0; evt = 0; hs = false; cs = false; mtv = false; body = body }

-- The sequence after some of a run's segments, and after all of them.
abbrev pub partial : Message → List (List ℕ) → ℕ → Sequence
partial m bodies now = record {
  kind = m.kind;
  timestamp = m.timestamp;
  base_control = m.control;
  final_read_size_or_segment = 0;
  bodies = bodies;
  ready = false;
  updated = now;
}

abbrev pub complete : Message → List (List ℕ) → ℕ → Sequence
complete m bodies now = record (partial m bodies now) {
  final_read_size_or_segment = m.read_size_or_segment;
  ready = true;
}

set_read : (c : ℕ) → c < 256 → bit_and (bit_or c 8) 8 ≡ 8
unfolding agree_below
set_read = agree_below→eq _ _ 256 refl

set_clear : (c : ℕ) → c < 256 → bit_and (bit_or c 8) 247 ≡ bit_and c 247
unfolding agree_below
set_clear = agree_below→eq _ _ 256 refl

module _ (m : Message) (w : m.control < 256)
    (whole : has m.control flag_more_segments ≡ false) where
  control_inner :
      (has (bit_or m.control 8) 8 ≡ true)
      × (and_not (bit_or m.control 8) 8 ≡ m.control)
      × (and_not m.control 8 ≡ m.control)
  unfolding has
  control_inner = ground (
    arith,
    set_read m.control w,
    set_clear m.control w,
    clear_table m.control w,
    set_table m.control w,
  )

  module _ (r : Reassembler) (now : ℕ) (stream : StreamId) where
    -- The first segment of several, and a message that is not cut at all.
    add_opening :
        (s : Message)
        → lookup (key_of stream m) r.seqs ≡ none
        → SameDescriptor m s
        → s.control ≡ bit_or m.control flag_more_segments
        → s.read_size_or_segment ≡ 0
        → add r now stream s ≡ (
          ok false,
          record r { seqs = insert (key_of stream m) (partial m (s.body ∷ []) now) r.seqs },
        )
    unfolding add
    add_opening s e d c n = ground (arith, control_inner, whole)

    add_whole :
        (s : Message)
        → lookup (key_of stream m) r.seqs ≡ none
        → SameDescriptor m s
        → s.control ≡ m.control
        → s.read_size_or_segment ≡ m.read_size_or_segment
        → add r now stream s ≡ (
          ok true,
          record r { seqs = insert (key_of stream m) (complete m (s.body ∷ []) now) r.seqs },
        )
    unfolding add
    add_whole s e d c n = ground (arith, control_inner, whole)

    add_inner :
        (s : Message) (bodies : List (List ℕ)) (before : ℕ)
        → lookup (key_of stream m) r.seqs ≡ some (partial m bodies before)
        → SameDescriptor m s
        → s.control ≡ bit_or m.control flag_more_segments
        → s.read_size_or_segment ≡ length bodies
        → length bodies + 1 ≤ r.max_segments
        → add r now stream s ≡ (
          ok false,
          record r {
            seqs = insert (key_of stream m) (partial m (bodies ++ (s.body ∷ [])) now) r.seqs;
          },
        )
    unfolding add
    add_inner s bodies before e d c n f = ground (arith, control_inner, whole)

    add_terminal :
        (s : Message) (bodies : List (List ℕ)) (before : ℕ)
        → lookup (key_of stream m) r.seqs ≡ some (partial m bodies before)
        → SameDescriptor m s
        → s.control ≡ m.control
        → s.read_size_or_segment ≡ m.read_size_or_segment
        → length bodies + 1 ≤ r.max_segments
        → add r now stream s ≡ (
          ok true,
          record r {
            seqs = insert (key_of stream m) (complete m (bodies ++ (s.body ∷ [])) now) r.seqs;
          },
        )
    unfolding add
    add_terminal s bodies before e d c n f = ground (arith, control_inner, whole)

abbrev pub segment_bodies : List Message → List (List ℕ)
segment_bodies segs = map (λ s. s.body) segs

pub concat-segment_bodies :
    (segs : List Message) → concat_bodies (segment_bodies segs) ≡ joined segs
unfolding concat_bodies joined
concat-segment_bodies [] = refl
concat-segment_bodies (s ∷ rest) = ap (λ t. s.body ++ t) (concat-segment_bodies rest)

module _ (m : Message) (w : m.control < 256) (whole : has m.control flag_more_segments ≡ false)
    (stream : StreamId) (clock : ℕ → ℕ) where
  abbrev the_key : Key
  the_key = key_of stream m

  abbrev Assembled : Reassembler → ℕ → List Message → List (List ℕ) → Type 0
  Assembled r i segs bodies =
      ((add_all r clock stream i segs).0 ≡ run_results segs)
      × (now : ℕ) × (lookup the_key (add_all r clock stream i segs).1.seqs
          ≡ some (complete m bodies now))

  run_rest :
      (segs : List Message) (r : Reassembler) (i before : ℕ) (bodies : List (List ℕ))
      → lookup the_key r.seqs ≡ some (partial m bodies before)
      → IsRun m (length bodies) segs
      → length bodies + length segs ≤ r.max_segments
      → Assembled r i segs (bodies ++ segment_bodies segs)
  unfolding add_all
  run_rest [] r i before bodies e run f = absurd run
  run_rest (s ∷ []) r i before bodies e (d, c, n) f =
      rw (add_terminal m w whole r (clock i) stream s bodies before e d c n (omega arith))
        (refl, clock i, lookup-insert_self the_key _ r.seqs)
  run_rest (s ∷ t ∷ rest) r i before bodies e (d, c, n, run) f =
      let bodies' : List (List ℕ) = bodies ++ (s.body ∷ []) in
      let r' : Reassembler = record r {
        seqs = insert the_key (partial m bodies' (clock i)) r.seqs;
      } in
      let len : length bodies' ≡ suc (length bodies) =
        omega (arith, length-append bodies (s.body ∷ [])) in
      let (results, now, held) =
        run_rest (t ∷ rest) r' (suc i) (clock i) bodies' (lookup-insert_self the_key _ r.seqs)
          (rw len run) (omega arith) in
      rw (add_inner m w whole r (clock i) stream s bodies before e d c n (omega arith))
        (ap (λ l. ok false ∷ l) results, now, rw append_assoc at held)

  run_all :
      (segs : List Message) (r : Reassembler)
      → lookup the_key r.seqs ≡ none
      → IsRun m 0 segs
      → length segs ≤ r.max_segments
      → Assembled r 0 segs (segment_bodies segs)
  unfolding add_all
  run_all [] r e run f = absurd run
  run_all (s ∷ []) r e (d, c, n) f =
      rw (add_whole m w whole r (clock 0) stream s e d c n)
        (refl, clock 0, lookup-insert_self the_key _ r.seqs)
  run_all (s ∷ t ∷ rest) r e (d, c, n, run) f =
      let r' : Reassembler = record r {
        seqs = insert the_key (partial m (s.body ∷ []) (clock 0)) r.seqs;
      } in
      let (results, now, held) =
        run_rest (t ∷ rest) r' 1 (clock 0) (s.body ∷ []) (lookup-insert_self the_key _ r.seqs) run
          (omega arith) in
      rw (add_opening m w whole r (clock 0) stream s e d c n)
        (ap (λ l. ok false ∷ l) results, now, held)

  finish-complete :
      (r : Reassembler) (bodies : List (List ℕ)) (now : ℕ)
      → lookup the_key r.seqs ≡ some (complete m bodies now)
      → (finish r the_key).0 ≡ ok (rebuilt m (concat_bodies bodies))
  unfolding finish
  finish-complete r bodies now e = rw (e, finish)

-- After the delivery, the reassembler holds the whole sequence.
pub add_all-split :
    (m : Message) (max_body : ℕ) (segs : List Message) (r : Reassembler) (stream : StreamId)
    (clock : ℕ → ℕ)
    → m.control < 256
    → split m max_body ≡ ok segs
    → lookup (key_of stream m) r.seqs ≡ none
    → length segs ≤ r.max_segments
    → ((add_all r clock stream 0 segs).0 ≡ run_results segs)
      × (now : ℕ) × (lookup (key_of stream m) (add_all r clock stream 0 segs).1.seqs
          ≡ some (complete m (segment_bodies segs) now))
add_all-split m max_body segs r stream clock w e held f =
    let cut = split-Cut m max_body segs w e in
    let whole = (split-eq-ok m max_body segs e).1 in
    run_all m w whole stream clock segs r held cut.run f

-- The segments that `split` makes of a message, delivered in order and at any times to a reassembler
-- that holds nothing under its key and allows as many segments: each but the last waits, the last
-- completes the sequence, and `finish` returns the message with its whole body, its descriptor, flags
-- and size, and with the pad, evt, hs, cs and mtv fields cleared.
pub finish-split :
    (m : Message) (max_body : ℕ) (segs : List Message) (r : Reassembler) (stream : StreamId)
    (clock : ℕ → ℕ)
    → m.control < 256
    → split m max_body ≡ ok segs
    → lookup (key_of stream m) r.seqs ≡ none
    → length segs ≤ r.max_segments
    → ((add_all r clock stream 0 segs).0 ≡ run_results segs)
      × ((finish (add_all r clock stream 0 segs).1 (key_of stream m)).0 ≡ ok (rebuilt m m.body))
finish-split m max_body segs r stream clock w e held f =
    let cut = split-Cut m max_body segs w e in
    let whole = (split-eq-ok m max_body segs e).1 in
    let (results, now, done) = add_all-split m max_body segs r stream clock w e held f in
    (
      results,
      finish-complete m w whole stream clock (add_all r clock stream 0 segs).1 (segment_bodies segs)
            now done
          ∙ ap (λ b. ok (rebuilt m b)) (concat-segment_bodies segs ∙ cut.whole),
    )
