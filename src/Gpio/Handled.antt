-- ===== src/Gpio/Handled.antt =====
-- gpio/endpoint.go: the requests to a GPIO endpoint and the server whose register map has its configuration.
use go_rcp.Base.{
  ℕ, ◌≡◌, refl, ap, ◌∙◌, sym, none, some, ◌!=◌, Error, Result, Bool-cases, Result-cases,
  Option-cases, inl, inr, ◌⊎◌,
}
use go_rcp.Base.Bytes.{AllBytes}
use go_rcp.Avtp.{StreamId}
use go_rcp.Acf.{Message, has, flag_read, flag_write}
use go_rcp.Acf.Evt.{
  evt_class_arithmetic, EvtAction, action_interface, action_configure, evt_disposition,
}
use go_rcp.Server.{Server, write_functional}
use go_rcp.Server.Reads.{read_endpoint, apply_config_request}
use go_rcp.Server.Configured.{IsShown, write_functional-IsShown, apply_config_request-IsShown}
use go_rcp.Gpio.{
  Config, validate, encode_config, decode_write_request, Endpoint, configure, adopt_config,
  encode_config_block, adopt_config_block, apply_write, interface_request, configure_request,
  handle_request,
}
use go_rcp.Gpio.Configured.{IsReady, adopt_config-IsReady, gpio-IsCallback}
use go_rcp.Gpio.Written.{apply_write-Driven}

EvtAction-cases : (a : EvtAction) → (a ≡ action_configure) ⊎ (a ≡ action_interface)
EvtAction-cases action_configure = inl refl
EvtAction-cases action_interface = inr refl

-- The endpoint has an accepted configuration and no value beyond its pins, and the register map of the server
-- has that configuration at `addr`.
abbrev pub IsServed : Server → ℕ → Endpoint → Type 0
IsServed = IsShown encode_config_block adopt_config_block IsReady

-- An endpoint of the same configuration whose values are within its pins is served too.
same_config-IsServed :
    (s : Server) (addr : ℕ) (e e' : Endpoint)
    → e'.cfg ≡ e.cfg
    → IsReady e'
    → IsServed s addr e
    → IsServed s addr e'
unfolding encode_config_block
same_config-IsServed s addr e e' same ready served = record {
  is_ready = ready;
  registers = served.registers;
  held = served.held;
  shown = served.shown ∙ ap encode_config (sym same);
}

-- A configuration that is accepted, by the endpoint and by the server, is served, whatever the endpoint was
-- before; one that is not changes nothing of the endpoint.
pub configure-IsServed :
    (s : Server) (e : Endpoint) (requester : StreamId) (cfg : Config)
    → let out = configure s e requester cfg in
      ((error : Error) × (out.0 ≡ some error) × (out.1 ≡ e))
      ⊎ ((out.0 ≡ none) × (out.1.cfg ≡ cfg) × IsServed out.2 e.addr out.1)
unfolding configure adopt_config encode_config_block
configure-IsServed s e requester cfg = elim (Option-cases (validate cfg)) [
  | inr (error, bad) ↦ inl (error, rw (configure, bad), rw (configure, bad))
  | inl good ↦ elim (Option-cases (write_functional s requester e.addr (encode_config cfg)).0) [
    | inr (error, bad) ↦ inl (error, rw (configure, good, bad), rw (configure, good, bad))
    | inl written ↦ inr (
      rw (configure, good, written),
      rw (configure, good, written) refl,
      rw (configure, good, written)
          (write_functional-IsShown encode_config_block adopt_config_block IsReady s requester
            e.addr (encode_config cfg) (adopt_config e cfg) refl (adopt_config-IsReady e cfg good)
            written),
    )
  ]
]

interface_request-IsServed :
    (s : Server) (addr : ℕ) (e : Endpoint) (req : Message) (write_op : ℕ)
    → IsServed s addr e
    → IsServed s addr (interface_request e req write_op).1
unfolding interface_request
interface_request-IsServed s addr e req write_op served =
    elim (Bool-cases (has req.control flag_write)) [
      | inr other ↦ elim (Bool-cases (has req.control flag_read)) [
        | inl read ↦ rw (interface_request, other, read) served
        | inr neither ↦ rw (interface_request, other, neither) served
      ]
      | inl write ↦ elim (Result-cases (decode_write_request req.body)) [
        | inr (error, bad) ↦ rw (interface_request, write, bad) served
        | inl (operand, found) ↦ elim (apply_write-Driven e write_op operand served.is_ready) [
          | inl (error, bad, invalid) ↦
              rw
                (
                  interface_request,
                  write,
                  found,
                  ap (λ (w : Result ℕ × Endpoint). w.0) bad,
                  ap (λ (w : Result ℕ × Endpoint). w.1) bad,
                )
                served
          | inr (candidate, combined, driven, answer) ↦
              rw (interface_request, write, found, answer)
                (same_config-IsServed s addr e (apply_write e write_op operand).1
                  driven.configuration driven.ready served)
        ]
      ]
    ]

configure_request-IsServed :
    (s : Server) (e : Endpoint) (requester : StreamId) (req : Message)
    → AllBytes req.body
    → IsServed s e.addr e
    → let out = configure_request s e requester req in IsServed out.2 e.addr out.1
unfolding configure_request
configure_request-IsServed s e requester req bytes served =
    let done =
      apply_config_request encode_config_block adopt_config_block s requester e.addr e req in
    let kept =
      apply_config_request-IsShown encode_config_block adopt_config_block IsReady gpio-IsCallback s
        requester e.addr e req bytes served in
    elim (Result-cases done.0) [
      | inl (body, good) ↦ rw (configure_request, good) kept
      | inr (error, bad) ↦ rw (configure_request, bad) kept
    ]

-- A request to an endpoint that is served, of any kind and also one that is refused, leaves it served.
pub handle_request-IsServed :
    (s : Server) (e : Endpoint) (requester : StreamId) (req : Message)
    → AllBytes req.body
    → IsServed s e.addr e
    → let out = handle_request s e requester req in IsServed out.2 e.addr out.1
unfolding handle_request
handle_request-IsServed s e requester req bytes served =
    elim (Bool-cases (req.byte_bus_id != e.addr)) [
      | inl other ↦ rw (handle_request, other) served
      | inr mine ↦ elim (Result-cases (read_endpoint s requester e.addr)) [
        | inr (error, denied) ↦ rw (handle_request, mine, denied) served
        | inl (block, granted) ↦ elim (Result-cases (evt_disposition req evt_class_arithmetic)) [
          | inr (error, bad) ↦ rw (handle_request, mine, granted, bad) served
          | inl (disp, good) ↦ elim (EvtAction-cases disp.action) [
            | inl configures ↦
                rw (handle_request, mine, granted, good, configures)
                  (configure_request-IsServed s e requester req bytes served)
            | inr reads ↦
                rw (handle_request, mine, granted, good, reads)
                  (interface_request-IsServed s e.addr e req disp.write_op served)
          ]
        ]
      ]
    ]
