-- ===== src/Fragment/Gateway.antt =====
-- fragment/gateway.go: reassembly in front of a dispatcher. `Submitter` is the interface of what admits
-- whole messages; `World` is its state.
mod Tests
use go_rcp.Base.{
  ℕ, suc, ◌≤◌, ◌<◌, ◌≡◌, refl, ap, ◌∙◌, sym, Bool, true, false, not, none, some, List, [], ◌∷◌,
  length, leb, if◌then◌else◌, All, Error, Result, ok, err, awaiting_segments, arith,
}
use go_rcp.Base.Assoc.{lookup}
use go_rcp.Avtp.{StreamId}
use go_rcp.Acf.{Message}
use go_rcp.Fragment.{Key, key_of, key_instance, split, default_max_segment_body}
use go_rcp.Fragment.Split.{SameDescriptor, IsRun, Cut, split-Cut}
use go_rcp.Fragment.Reassembler.{Reassembler, add, finish}
use go_rcp.Fragment.Reassembler.Together.{add_all, rebuilt, run_results, finish-split}
use go_rcp.Request.Dispatcher.{Dispatcher, submit}

pub record Submitter (World : Type 0) : Type 0 where
  pub submit_whole : World → StreamId → Message → Result ℕ × World

-- The request dispatcher is one.
abbrev pub dispatcher_submitter : {World : Type 0} → Submitter (Dispatcher World)
dispatcher_submitter = record { submit_whole = submit }

pub record Gateway (World : Type 0) : Type 0 where
  pub dispatcher : Submitter World
  pub world : World
  pub reassembler : Reassembler
  pub max_segment_body : ℕ

-- Only the last segment leads to a ticket, or to the dispatcher's error.
abbrev pub gateway_results : List Message → Result ℕ → List (Result ℕ)
gateway_results [] final = []
gateway_results (s ∷ []) final = final ∷ []
gateway_results (s ∷ t ∷ rest) final = err awaiting_segments ∷ gateway_results (t ∷ rest) final

key_same :
    (stream : StreamId) (m s : Message) → SameDescriptor m s → key_of stream s ≡ key_of stream m
key_same stream m s d = rw (d.byte_bus_id, d.transaction_num) refl

IsRun-keys :
    (m : Message) (stream : StreamId) (i : ℕ) (segs : List Message)
    → IsRun m i segs
    → All (λ s. key_of stream s ≡ key_of stream m) segs
IsRun-keys m stream i [] run = absurd run
IsRun-keys m stream i (s ∷ []) (d, c, n) = (key_same stream m s d, tt)
IsRun-keys m stream i (s ∷ t ∷ rest) (d, c, n, run) =
    (key_same stream m s d, IsRun-keys m stream (suc i) (t ∷ rest) run)

run_positive : (m : Message) (i : ℕ) (segs : List Message) → IsRun m i segs → 0 < length segs
run_positive m i [] run = absurd run
run_positive m i (s ∷ rest) run = omega arith

module _ {World : Type 0} where
  unfoldable pub new_gateway : Submitter World → World → Reassembler → ℕ → Gateway World
  new_gateway dispatcher world re max_segment_body = record {
    dispatcher = dispatcher;
    world = world;
    reassembler = re;
    max_segment_body =
        if leb max_segment_body 0 then default_max_segment_body else max_segment_body;
  }

  -- `Gateway.Submit`; `now` is the reassembler's clock.
  pub submit_segment : Gateway World → ℕ → StreamId → Message → Result ℕ × Gateway World
  submit_segment g now requester req =
      let (added, r1) = add g.reassembler now requester req in
      let (finished, r2) = finish r1 (key_of requester req) in
      elim added [
        | err e ↦ (err e, record g { reassembler = r1 })
        | ok complete ↦
            if not complete
            then (err awaiting_segments, record g { reassembler = r1 })
            else elim finished [
              | err e ↦ (err e, record g { reassembler = r2 })
              | ok combined ↦
                  let (id, world) = g.dispatcher.submit_whole g.world requester combined in
                  (id, record g { reassembler = r2; world = world })
            ]
      ]

  -- `Gateway.Response`
  unfoldable pub split_response : Gateway World → Message → Result (List Message)
  split_response g resp = split resp g.max_segment_body

  -- The i-th segment arrives at `clock i`.
  pub submit_all :
      Gateway World → (ℕ → ℕ) → StreamId → ℕ → List Message → List (Result ℕ) × Gateway World
  submit_all g clock stream i [] = ([], g)
  submit_all g clock stream i (s ∷ rest) =
      let (id, g') = submit_segment g (clock i) stream s in
      let (more, g'') = submit_all g' clock stream (suc i) rest in (id ∷ more, g'')

  submit_segment-waits :
      (g : Gateway World) (now : ℕ) (stream : StreamId) (s : Message)
      → (add g.reassembler now stream s).0 ≡ ok false
      → submit_segment g now stream s
        ≡ (err awaiting_segments, record g { reassembler = (add g.reassembler now stream s).1 })
  unfolding submit_segment
  submit_segment-waits g now stream s e = rw (e, submit_segment) refl

  submit_segment-whole :
      (g : Gateway World) (now : ℕ) (stream : StreamId) (s combined : Message)
      → (add g.reassembler now stream s).0 ≡ ok true
      → (finish (add g.reassembler now stream s).1 (key_of stream s)).0 ≡ ok combined
      → let final = g.dispatcher.submit_whole g.world stream combined in
        ((submit_segment g now stream s).0 ≡ final.0)
        × ((submit_segment g now stream s).1.world ≡ final.1)
  unfolding submit_segment
  submit_segment-whole g now stream s combined e f = rw (e, f, submit_segment) (refl, refl)

  -- What the deliveries come to, if the reassembler takes them as a run and then gives `combined`.
  submit_all-run :
      (segs : List Message) (g : Gateway World) (clock : ℕ → ℕ) (stream : StreamId) (i : ℕ)
      (key : Key) (combined : Message)
      → 0 < length segs
      → All (λ s. key_of stream s ≡ key) segs
      → (add_all g.reassembler clock stream i segs).0 ≡ run_results segs
      → (finish (add_all g.reassembler clock stream i segs).1 key).0 ≡ ok combined
      → let final = g.dispatcher.submit_whole g.world stream combined in
        ((submit_all g clock stream i segs).0 ≡ gateway_results segs final.0)
        × ((submit_all g clock stream i segs).1.world ≡ final.1)
  unfolding submit_all add_all
  submit_all-run [] g clock stream i key combined pos keys results done =
      absurd (omega (arith, pos))
  submit_all-run (s ∷ []) g clock stream i key combined pos keys results done =
      let complete : (add g.reassembler (clock i) stream s).0 ≡ ok true = cc in
      let whole : (finish (add g.reassembler (clock i) stream s).1 (key_of stream s)).0
          ≡ ok combined =
        ap (λ k. (finish (add g.reassembler (clock i) stream s).1 k).0) keys.0 ∙ done in
      let (id, world) = submit_segment-whole g (clock i) stream s combined complete whole in
      (ap (λ x. x ∷ []) id, world)
  submit_all-run (s ∷ t ∷ rest) g clock stream i key combined pos keys results done =
      let waits : (add g.reassembler (clock i) stream s).0 ≡ ok false = cc in
      let r1 : Reassembler = (add g.reassembler (clock i) stream s).1 in
      let more : (add_all r1 clock stream (suc i) (t ∷ rest)).0 ≡ run_results (t ∷ rest) = cc in
      let (ids, world) =
        submit_all-run (t ∷ rest) (record g { reassembler = r1 }) clock stream (suc i) key combined
          (omega arith) keys.1 more done in
      rw (submit_segment-waits g (clock i) stream s waits)
        (ap (λ l. err awaiting_segments ∷ l) ids, world)

  -- A fragmented request is admitted as one. The segments that `split` makes of a message, given to the
  -- gateway in order and at any times, where its reassembler holds nothing under the message's key and
  -- allows as many segments: each but the last is answered with awaiting_segments and leaves the
  -- dispatcher alone, and the last leads to just one submission, of the message with the pad, evt,
  -- hs, cs and mtv fields cleared, whose answer is returned.
  pub submit_all-split :
      (g : Gateway World) (m : Message) (max_body : ℕ) (segs : List Message) (stream : StreamId)
      (clock : ℕ → ℕ)
      → m.control < 256
      → split m max_body ≡ ok segs
      → lookup (key_of stream m) g.reassembler.seqs ≡ none
      → length segs ≤ g.reassembler.max_segments
      → let final = g.dispatcher.submit_whole g.world stream (rebuilt m m.body) in
        ((submit_all g clock stream 0 segs).0 ≡ gateway_results segs final.0)
        × ((submit_all g clock stream 0 segs).1.world ≡ final.1)
  submit_all-split g m max_body segs stream clock w e held f =
      let run = (split-Cut m max_body segs w e).run in
      let (results, done) = finish-split m max_body segs g.reassembler stream clock w e held f in
      submit_all-run segs g clock stream 0 (key_of stream m) (rebuilt m m.body)
        (run_positive m 0 segs run) (IsRun-keys m stream 0 segs run) results done
