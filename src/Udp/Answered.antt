-- ===== src/Udp/Answered.antt =====
-- Which requests udp/router.go answers, and with what.
use go_rcp.Base.{
  ◌+◌, bit_or, not, evt_missing_payload, bit_and, ◌%◌, ◌&&◌, ℕ, ◌≡◌, refl, sym, ◌∙◌, Bool, true,
  false, ◌||◌, Option, none, some, List, [], length, if◌then◌else◌, Error, Result, ok, err, ◌==◌,
  Bool-cases, Option-cases, inl, inr, udp_unknown_endpoint, udp_wrong_endpoint,
  udp_must_read_or_write, ◌!=◌, arith,
}
use go_rcp.Base.Assoc.{lookup, nat_eq}
use go_rcp.Base.BitAt.{eq_of_bits_fuel, bit_at-and, bit_at-or}
use go_rcp.Base.Bits.{and_mask}
use go_rcp.Avtp.{
  TimestampStatus, missing, valid, invalid, uncertain, StreamId, Header, Disposition, best_effort,
  scheduled, drop_frame, disposition,
}
use go_rcp.Acf.{flag_response, flag_error, Message, has, flag_read, flag_write, kind_long}
use go_rcp.Acf.Evt.{check_evt_payload_presence}
use go_rcp.Regmap.{ep0}
use go_rcp.Regmap.Codec.{encode_register_map}
use go_rcp.Server.{Server, write_ep0}
use go_rcp.Server.Reads.{handle_discovery_request, read_discovery}
use go_rcp.Udp.{
  kept_flags, Router, dispatch, reply, error_response, response_for, is_dropped, route, handle_ep0,
}

-- A reply that says so, with the fields by which a client finds the request that it belongs to.
pub record Answers (req resp : Message) : Type 0 where
  pub kind : resp.kind ≡ req.kind
  pub byte_bus_id : resp.byte_bus_id ≡ req.byte_bus_id
  pub transaction_num : resp.transaction_num ≡ req.transaction_num
  pub response : has resp.control flag_response ≡ true

-- A flag is set in what it was joined with.
has-bit_or : (f e x : ℕ) → bit_and (bit_or (bit_or f e) x) f ≡ f
has-bit_or f e x =
    eq_of_bits_fuel (bit_and (bit_or (bit_or f e) x) f + f) (bit_and (bit_or (bit_or f e) x) f) f
      (omega arith) (omega arith)
      λ k.
        omega (
          arith,
          bit_at-and (bit_or (bit_or f e) x) f k,
          bit_at-or (bit_or f e) x k,
          bit_at-or f e k,
        )

pub has_response : (e x : ℕ) → has (bit_or (bit_or flag_response e) x) flag_response ≡ true
unfolding has
has_response e x = rw (has-bit_or flag_response e x) refl

response_for-Answers : (req : Message) (body : List ℕ) → Answers req (response_for req body)
response_for-Answers req body = record {
  kind = refl;
  byte_bus_id = refl;
  transaction_num = refl;
  response = has_response flag_response (kept_flags req);
}

-- What the handlers owe.
pub record IsCorrelating {World : Type 0} (r : Router World) : Type 0 where
  pub ep0 :
      (w : World) (hdr : Header) (req m : Message)
      → (r.ep0_handler w hdr req).0 ≡ ok m
      → Answers req m
  pub others :
      (addr : ℕ) (h : World → StreamId → Message → Result Message × World)
      → lookup addr r.handlers ≡ some h
      → (w : World) (from : StreamId) (req m : Message) → (h w from req).0 ≡ ok m
      → Answers req m

some-Answers :
    {m resp : Message} (req : Message) → Answers req m → some m ≡ some resp → Answers req resp
some-Answers {m} {resp} req a h = let same : m ≡ resp = cc in rw (sym same) a

module _ (text : Error → List ℕ) where
  error_response-Answers : (req : Message) (e : Error) → Answers req (error_response text req e)
  error_response-Answers req e = record {
    kind = refl;
    byte_bus_id = refl;
    transaction_num = refl;
    response = has_response flag_error (kept_flags req);
  }

  reply-Answers :
      (req : Message) (answer : Result Message)
      → ((m : Message) → answer ≡ ok m → Answers req m)
      → (resp : Message) → reply text req answer ≡ some resp
      → Answers req resp
  reply-Answers req (ok m) owes resp h = some-Answers req (owes m refl) h
  reply-Answers req (err e) owes resp h = sent (is_dropped e) h
    where
      sent :
          (b : Bool)
          → (if b then none else some (error_response text req e)) ≡ some resp
          → Answers req resp
      sent true g = cc
      sent false g = some-Answers req (error_response-Answers req e) g

dispatch-Answers :
    {World : Type 0} (r : Router World)
    → IsCorrelating r
    → (w : World) (hdr : Header) (req m : Message) → (dispatch r w hdr req).0 ≡ ok m
    → Answers req m
unfolding dispatch
dispatch-Answers r owes w hdr req m h = elim (Bool-cases (req.byte_bus_id == ep0)) [
  | inl here ↦ owes.ep0 w hdr req m (rw here at h)
  | inr there ↦ elim (Option-cases (lookup req.byte_bus_id r.handlers)) [
    | inl none_known ↦
        let absurd : err udp_unknown_endpoint ≡ ok m = rw (there, none_known) at h in cc
    | inr (handler, known) ↦
        owes.others req.byte_bus_id handler known w hdr.stream_id req m (rw (there, known) at h)
  ]
]

checked-Answers :
    {World : Type 0} (r : Router World) (text : Error → List ℕ)
    → IsCorrelating r
    → (w : World) (hdr : Header) (req resp : Message) (checked : Result (Unit {0}))
    → (elim checked as (λ c. Option Message × World) [
      | err e ↦ (some (error_response text req e), w)
      | ok _ ↦ (reply text req (dispatch r w hdr req).0, (dispatch r w hdr req).1)
    ]).0
      ≡ some resp
    → Answers req resp
checked-Answers r text owes w hdr req resp (err e) h =
    some-Answers req (error_response-Answers text req e) h
checked-Answers r text owes w hdr req resp (ok _) h =
    reply-Answers text req (dispatch r w hdr req).0 (dispatch-Answers r owes w hdr req) resp h

pub route-IsCorrelating :
    {World : Type 0} (r : Router World) (text : Error → List ℕ)
    → IsCorrelating r
    → (w : World) (hdr : Header) (req resp : Message) → (route r text w hdr req).0 ≡ some resp
    → Answers req resp
unfolding route
route-IsCorrelating {World} r text owes w hdr req resp h =
    sent (disposition hdr r.time_sync_supported) h
  where
    sent :
        (d : Disposition)
        → (elim d as (λ c. Option Message × World) [
          | drop_frame ↦ (none, w)
          | _ ↦
              elim (check_evt_payload_presence req.evt (length req.body))
                as (λ c. Option Message × World) [
                  | err e ↦ (some (error_response text req e), w)
                  | ok _ ↦ (reply text req (dispatch r w hdr req).0, (dispatch r w hdr req).1)
                ]
        ]).0
          ≡ some resp
        → Answers req resp
    sent drop_frame g = cc
    sent best_effort g = checked-Answers r text owes w hdr req resp _ g
    sent scheduled g = checked-Answers r text owes w hdr req resp _ g

pub handle_ep0-Answers :
    (s : Server) (hdr : Header) (req m : Message) → (handle_ep0 s hdr req).0 ≡ ok m → Answers req m
unfolding handle_ep0
handle_ep0-Answers s hdr req m h = elim (Bool-cases (req.byte_bus_id != ep0)) [
  | inl there ↦ let absurd : err udp_wrong_endpoint ≡ ok m = rw there at h in cc
  | inr here ↦ elim (Bool-cases (has req.control flag_write)) [
    | inl writes ↦ written (write_ep0 s hdr.stream_id req.body).0 (rw (here, writes) at h)
    | inr quiet ↦ elim (Bool-cases (has req.control flag_read)) [
      | inl reads ↦
          found (handle_discovery_request s hdr (req.kind == kind_long))
            (rw (here, quiet, reads) at h)
      | inr neither ↦
          let absurd : err udp_must_read_or_write ≡ ok m = rw (here, quiet, neither) at h in cc
    ]
  ]
]
  where
    answered : (body : List ℕ) → ok (response_for req body) ≡ ok m → Answers req m
    answered body g =
        let same : response_for req body ≡ m = cc in rw (sym same) (response_for-Answers req body)

    written :
        (o : Option Error)
        → (elim o as (λ x. Result Message) [ some e ↦ err e | none ↦ ok (response_for req []) ])
          ≡ ok m
        → Answers req m
    written none g = answered [] g
    written (some e) g = cc

    found :
        (o : Result (List ℕ))
        → (elim o as (λ x. Result Message) [ err e ↦ err e | ok body ↦ ok (response_for req body) ])
          ≡ ok m
        → Answers req m
    found (ok body) g = answered body g
    found (err e) g = cc

-- What a discovery is answered.
abbrev discovered : Server → Header → Message → Option Message
discovered s hdr req =
    if hdr.timed || req.kind == kind_long
    then none
    else some (response_for req (encode_register_map s.rmap))

handle_ep0-discovered :
    (text : Error → List ℕ) (s : Server) (hdr : Header) (req : Message)
    → req.byte_bus_id ≡ ep0
    → has req.control flag_read ≡ true
    → has req.control flag_write ≡ false
    → ((handle_ep0 s hdr req).1 ≡ s)
      × (reply text req (handle_ep0 s hdr req).0 ≡ discovered s hdr req)
unfolding handle_ep0 handle_discovery_request read_discovery
handle_ep0-discovered text s hdr req addr reads quiet =
    let here : (req.byte_bus_id != ep0) ≡ false = ground (arith, addr) in
    elim (Bool-cases hdr.timed) [
      | inl timed ↦ (
        rw (handle_ep0, here, quiet, reads) refl,
        rw (handle_ep0, here, quiet, reads, handle_discovery_request, timed) refl,
      )
      | inr untimed ↦ elim (Bool-cases (req.kind == kind_long)) [
        | inl long ↦ (
          rw (handle_ep0, here, quiet, reads) refl,
          rw (handle_ep0, here, quiet, reads, handle_discovery_request, untimed, long) refl,
        )
        | inr short ↦ (
          rw (handle_ep0, here, quiet, reads) refl,
          rw (handle_ep0, here, quiet, reads, handle_discovery_request, untimed, short) refl,
        )
      ]
    ]

-- What follows the test of the header, where it is of a kind that a timed header does not change.
settled :
    (s : Server) (timed sync : Bool) (status : TimestampStatus) (x : Option Message × Server)
    → (elim (if not timed
          then best_effort
          else if not sync
          then drop_frame
          else elim status [ valid ↦ scheduled | _ ↦ best_effort ])
        as (λ c. Option Message × Server) [ drop_frame ↦ (none, s) | _ ↦ x ])
      ≡ (if timed && not sync then (none, s) else x)
settled s false sync status x = refl
settled s true false status x = refl
settled s true true missing x = refl
settled s true true valid x = refl
settled s true true invalid x = refl
settled s true true uncertain x = refl

-- A request to the address 0 that reads and does not write is the discovery, where the router hands that address
-- to the server. A timestamped one that comes without time synchronization gets no reply. Of the others, one
-- with one of the three low bits of evt set and no payload gets an error reply; else a timestamped one, or one
-- of the long kind, gets no reply, and any other one the whole register map of the server, to every stream and
-- in every state. None changes the server.
pub route-discovers :
    (r : Router Server) (text : Error → List ℕ) (s : Server) (hdr : Header) (req : Message)
    → r.ep0_handler ≡ handle_ep0
    → req.byte_bus_id ≡ ep0
    → has req.control flag_read ≡ true
    → has req.control flag_write ≡ false
    → route r text s hdr req ≡ (
      (if hdr.timed && not r.time_sync_supported
          then none
          else if req.evt % 8 != 0 && length req.body == 0
          then some (error_response text req evt_missing_payload)
          else if hdr.timed || req.kind == kind_long
          then none
          else some (response_for req (encode_register_map s.rmap))),
      s,
    )
unfolding route disposition check_evt_payload_presence dispatch
route-discovers r text s hdr req own addr reads quiet =
    let here : (req.byte_bus_id == ep0) ≡ true = ground (arith, addr) in
    let told = handle_ep0-discovered text s hdr req addr reads quiet in
    let sent : dispatch r s hdr req ≡ handle_ep0 s hdr req = rw (dispatch, here, own) refl in
    let bits : bit_and req.evt 7 ≡ req.evt % 8 = and_mask 3 req.evt 7 refl in
    settled s hdr.timed r.time_sync_supported hdr.timestamp_status _
    ∙ elim (Bool-cases (hdr.timed && not r.time_sync_supported)) [
      | inl dropped ↦ rw dropped refl
      | inr kept ↦ elim (Bool-cases (req.evt % 8 != 0 && length req.body == 0)) [
        | inl lacks ↦ rw (kept, bits, lacks) refl
        | inr present ↦ rw (kept, bits, present, sent, told.1, told.0) refl
      ]
    ]
