-- ===== src/Udp/Served.antt =====
-- udp/router.go in front of a server (udp/ep0.go) and of one GPIO endpoint of it (gpio/endpoint.go).
use go_rcp.Base.{
  ℕ, ◌≡◌, refl, Bool, true, false, Option, none, some, List, [], ◌∷◌, Error, Result, ok, err, ◌==◌,
  ◌!=◌, Bool-cases, Result-cases, inl, inr, if◌then◌else◌, udp_reserved_address, wrong_endpoint,
  request_must_read_or_write,
}
use go_rcp.Base.Assoc.{lookup, insert, nat_eq}
use go_rcp.Avtp.{StreamId, Header}
use go_rcp.Acf.{flag_response, Message, has, flag_read, flag_write}
use go_rcp.Acf.Evt.{
  EvtAction, action_interface, action_configure, EvtDisposition, evt_disposition,
  evt_class_arithmetic,
}
use go_rcp.Regmap.{ep0}
use go_rcp.Server.{Server}
use go_rcp.Server.Reads.{read_endpoint, apply_config_request}
use go_rcp.Gpio.{
  Endpoint, apply_write, decode_write_request, interface_request, configure_request,
  encode_config_block, adopt_config_block, response_for, handle_request, encode_value,
}
use go_rcp.Udp.{kept_flags, Router, new_router, register, handle_ep0, route}
use go_rcp.Udp.Answered.{
  has_response, Answers, IsCorrelating, route-IsCorrelating, handle_ep0-Answers,
}

abbrev pub ep0_on : Server × Endpoint → Header → Message → Result Message × (Server × Endpoint)
ep0_on w hdr req = let out = handle_ep0 w.0 hdr req in (out.0, (out.1, w.1))

abbrev pub gpio_on : Server × Endpoint → StreamId → Message → Result Message × (Server × Endpoint)
gpio_on w from req = let out = handle_request w.0 w.1 from req in (out.0, (out.2, out.1))

-- A router with the endpoint registered at an address.
abbrev pub gpio_router : Bool → ℕ → Router (Server × Endpoint)
gpio_router time_sync_supported addr =
    (register (new_router ep0_on time_sync_supported) addr gpio_on).1

answered :
    {m : Message} (req : Message) (body : List ℕ)
    → ok (response_for req body) ≡ ok m
    → Answers req m
unfolding response_for
answered {m} req body h =
    let same : response_for req body ≡ m = cc in
    rw (← same) (record {
      kind = refl;
      byte_bus_id = refl;
      transaction_num = refl;
      response = has_response flag_response (kept_flags req);
    })

interface_request-Answers :
    (e : Endpoint) (req m : Message) (op : ℕ)
    → (interface_request e req op).0 ≡ ok m
    → Answers req m
unfolding interface_request
interface_request-Answers e req m op h = elim (Bool-cases (has req.control flag_write)) [
  | inl writes ↦ elim (Result-cases (decode_write_request req.body)) [
    | inr (x, bad) ↦ let absurd : err x ≡ ok m = rw (writes, bad) at h in cc
    | inl (operand, good) ↦ elim (Result-cases (apply_write e op operand).0) [
      | inr (x, bad) ↦ let absurd : err x ≡ ok m = rw (writes, good, bad) at h in cc
      | inl (result, done) ↦ answered req (encode_value result) (rw (writes, good, done) at h)
    ]
  ]
  | inr quiet ↦ elim (Bool-cases (has req.control flag_read)) [
    | inl reads ↦ answered req (encode_value e.value) (rw (quiet, reads) at h)
    | inr neither ↦
        let absurd : err request_must_read_or_write ≡ ok m = rw (quiet, neither) at h in cc
  ]
]

configure_request-Answers :
    (s : Server) (e : Endpoint) (from : StreamId) (req m : Message)
    → (configure_request s e from req).0 ≡ ok m
    → Answers req m
unfolding configure_request
configure_request-Answers s e from req m h =
    elim (Result-cases
      (apply_config_request encode_config_block adopt_config_block s from e.addr e req).0) [
        | inr (x, bad) ↦ let absurd : err x ≡ ok m = rw (configure_request, bad) at h in cc
        | inl (body, good) ↦ answered req body (rw (configure_request, good) at h)
      ]

gpio_on-Answers :
    (w : Server × Endpoint) (from : StreamId) (req m : Message)
    → (gpio_on w from req).0 ≡ ok m
    → Answers req m
unfolding handle_request
gpio_on-Answers (s, e) from req m h = elim (Bool-cases (req.byte_bus_id != e.addr)) [
  | inl there ↦ let absurd : err wrong_endpoint ≡ ok m = rw there at h in cc
  | inr here ↦ elim (Result-cases (read_endpoint s from e.addr)) [
    | inr (x, bad) ↦ let absurd : err x ≡ ok m = rw (here, bad) at h in cc
    | inl (block, held) ↦ elim (Result-cases (evt_disposition req evt_class_arithmetic)) [
      | inr (x, bad) ↦ let absurd : err x ≡ ok m = rw (here, held, bad) at h in cc
      | inl (disp, good) ↦ by_action disp disp.action refl (rw (here, held, good) at h)
    ]
  ]
]
  where
    by_action :
        (disp : EvtDisposition) (a : EvtAction)
        → disp.action ≡ a
        → (elim disp.action as (λ x. Result Message × Endpoint × Server) [
          | action_configure ↦ configure_request s e from req
          | action_interface ↦
              let done = interface_request e req disp.write_op in (done.0, done.1, s)
        ]).0
          ≡ ok m
        → Answers req m
    by_action disp action_configure eq g = configure_request-Answers s e from req m (rw eq at g)
    by_action disp action_interface eq g =
        interface_request-Answers e req m disp.write_op (rw eq at g)

one_handler :
    (addr k : ℕ) (h : Server × Endpoint → StreamId → Message → Result Message × (Server × Endpoint))
    → lookup k ((addr, gpio_on) ∷ []) ≡ some h
    → (w : Server × Endpoint) (from : StreamId) (req m : Message) → (h w from req).0 ≡ ok m
    → Answers req m
unfolding lookup
one_handler addr k h found w from req m g = elim (Bool-cases (addr == k)) [
  | inr apart ↦ let absurd : none ≡ some h = rw (lookup, apart) at found in cc
  | inl same ↦
      let value : some gpio_on ≡ some h = rw (lookup, same) at found in
      let eq : gpio_on ≡ h = cc in gpio_on-Answers w from req m (rw (← eq) at g)
]

gpio_router-IsCorrelating : (sync : Bool) (addr : ℕ) → IsCorrelating (gpio_router sync addr)
unfolding register new_router lookup insert
gpio_router-IsCorrelating sync addr = either (addr == ep0)
  where
    by_ep0 :
        (w : Server × Endpoint) (hdr : Header) (req m : Message)
        → (ep0_on w hdr req).0 ≡ ok m
        → Answers req m
    by_ep0 w hdr req m h = handle_ep0-Answers w.0 hdr req m h

    either :
        (b : Bool)
        → IsCorrelating
            (if◌then◌else◌ {A = Option Error × Router (Server × Endpoint)} b
              (some udp_reserved_address, new_router ep0_on sync)
              (none, record (new_router ep0_on sync) { handlers = (addr, gpio_on) ∷ [] })).1
    either true = record { ep0 = by_ep0; others = λ k h found. cc }
    either false = record { ep0 = by_ep0; others = one_handler addr }

-- Every reply of a router in front of a server and of one GPIO endpoint of it is flagged as a response and
-- carries the kind, the address and the transaction number of its request: those of the server and of the
-- endpoint, and those for a request that either of them or the router refuses.
pub route-Answers :
    (sync : Bool) (addr : ℕ) (text : Error → List ℕ) (w : Server × Endpoint) (hdr : Header)
    (req resp : Message)
    → (route (gpio_router sync addr) text w hdr req).0 ≡ some resp
    → Answers req resp
route-Answers sync addr text w hdr req resp h =
    route-IsCorrelating (gpio_router sync addr) text (gpio_router-IsCorrelating sync addr) w hdr req
      resp h
