-- ===== src/Server/Configured.antt =====
-- Server/Reads.antt: an endpoint and the functional block that the register map has of it.
use go_rcp.Base.Bytes.{IsByte, AllBytes}
use go_rcp.Base.{
  arith, ok, ◌∙◌, sym, All-append, All-take, All-drop, take, drop, ◌++◌, ℕ, ◌+◌, ◌≡◌, refl, Option,
  none, some, List, length, ltb, Error, Bool-cases, Option-cases, Result-cases, inl, inr, ap, ◌⊎◌,
  access_denied, unknown_endpoint,
}
use go_rcp.Base.Assoc.{nat_eq, lookup-insert_self}
use go_rcp.Avtp.{StreamId}
use go_rcp.Acf.{Message, has, flag_write}
use go_rcp.Acf.Evt.{decode_config_request_body}
use go_rcp.Regmap.{can_access, endpoint, EndpointRegisters}
use go_rcp.Server.{Server, put_functional, write_functional, patch}
use go_rcp.Server.Reads.{persist, write_config, apply_config_request}

-- A functional write to an endpoint that the server has is refused, and changes nothing, or puts the data in
-- its block.
write_functional-cases :
    (s : Server) (requester : StreamId) (addr : ℕ) (data_bytes : List ℕ)
    → ((e : Error) × (write_functional s requester addr data_bytes ≡ (some e, s)))
      ⊎ ((ep : EndpointRegisters) × (write_functional s requester addr data_bytes
            ≡ (none, put_functional s addr ep data_bytes)))
unfolding write_functional
write_functional-cases s requester addr data_bytes =
    elim (Bool-cases (can_access s.access requester addr)) [
      | inl granted ↦ elim (Option-cases (endpoint s.rmap addr)) [
        | inl gone ↦ inl (unknown_endpoint, rw (granted, gone) refl)
        | inr (ep, held) ↦ inr (ep, rw (granted, held) refl)
      ]
      | inr denied ↦ inl (access_denied, rw denied refl)
    ]

decoded-AllBytes :
    (b : List ℕ) (body : ℕ × List ℕ)
    → decode_config_request_body b ≡ ok body
    → AllBytes b
    → AllBytes body.1
unfolding decode_config_request_body
decoded-AllBytes b body found bytes =
    let rest : body.1 ≡ drop 2 b = ground (arith, found) in rw rest (All-drop IsByte 2 b bytes)

patch-AllBytes :
    (old data_bytes : List ℕ) (start_addr : ℕ)
    → AllBytes old
    → AllBytes data_bytes
    → AllBytes (patch old start_addr data_bytes)
patch-AllBytes old data_bytes start_addr o d =
    All-append IsByte (take start_addr old)
      (data_bytes ++ drop (start_addr + length data_bytes) old) (All-take IsByte start_addr old o)
      (All-append IsByte data_bytes (drop (start_addr + length data_bytes) old) d
        (All-drop IsByte (start_addr + length data_bytes) old o))

module _ {ℓ} {E : Type ℓ} (encode : E → List ℕ) (adopt : E → List ℕ → Option Error × E)
    (IsReady : E → Type ℓ) where
  -- What the callbacks of an endpoint promise: a block that is refused changes nothing, and one that is
  -- adopted is what the endpoint has then. An endpoint that is ready has a block of bytes, and goes back to
  -- it from one that it has adopted.
  pub record IsCallback : Type ℓ where
    pub refused : (ep : E) (b : List ℕ) (e : Error) → (adopt ep b).0 ≡ some e → (adopt ep b).1 ≡ ep
    pub adopted :
        (ep : E) (b : List ℕ) → AllBytes b → (adopt ep b).0 ≡ none → encode (adopt ep b).1 ≡ b
    pub ready : (ep : E) (b : List ℕ) → AllBytes b → (adopt ep b).0 ≡ none → IsReady (adopt ep b).1
    pub written : (ep : E) → IsReady ep → AllBytes (encode ep)
    pub restored :
        (ep between : E) → IsReady ep → IsReady between → (adopt between (encode ep)).0 ≡ none

  -- The endpoint is ready, and the register map has its block.
  pub record IsShown (s : Server) (addr : ℕ) (ep : E) : Type ℓ where
    pub is_ready : IsReady ep
    pub registers : EndpointRegisters
    pub held : endpoint s.rmap addr ≡ some registers
    pub shown : registers.functional ≡ encode ep

  put_functional-IsShown :
      (s : Server) (addr : ℕ) (regs : EndpointRegisters) (b : List ℕ) (ep : E)
      → b ≡ encode ep
      → IsReady ep
      → IsShown (put_functional s addr regs b) addr ep
  put_functional-IsShown s addr regs b ep same ready = record {
    is_ready = ready;
    registers = record regs { functional = b };
    held = lookup-insert_self addr (record regs { functional = b }) s.rmap.endpoints;
    shown = same;
  }

  -- A write of the block of an endpoint that is ready is refused, and changes nothing, or shows it.
  pub write_functional-IsShown :
      (s : Server) (requester : StreamId) (addr : ℕ) (b : List ℕ) (ep : E)
      → b ≡ encode ep
      → IsReady ep
      → (write_functional s requester addr b).0 ≡ none
      → IsShown (write_functional s requester addr b).1 addr ep
  write_functional-IsShown s requester addr b ep same ready accepted =
      elim (write_functional-cases s requester addr b) [
        | inl (e, bad) ↦ cc
        | inr (regs, good) ↦
            rw (ap (λ (w : Option Error × Server). w.1) good)
              (put_functional-IsShown s addr regs b ep same ready)
      ]

  persist-IsShown :
      IsCallback
      → (s : Server) (requester : StreamId) (addr : ℕ) (ep adopted : E) (patched : List ℕ)
      → IsReady adopted
      → encode adopted ≡ patched
      → IsShown s addr ep
      → let out = persist encode adopt s requester addr adopted (encode ep) patched in
        IsShown out.2 addr out.1
  unfolding persist
  persist-IsShown laws s requester addr ep adopted patched ready same shown =
      elim (write_functional-cases s requester addr patched) [
        | inl (e, bad) ↦
            let block = laws.written ep shown.is_ready in
            let back = laws.restored ep adopted shown.is_ready ready in
            rw
              (
                persist,
                ap (λ (w : Option Error × Server). w.0) bad,
                ap (λ (w : Option Error × Server). w.1) bad,
              )
              record {
                is_ready = laws.ready adopted (encode ep) block back;
                registers = shown.registers;
                held = shown.held;
                shown = shown.shown ∙ sym (laws.adopted adopted (encode ep) block back);
              }
        | inr (regs, good) ↦
            rw
              (
                persist,
                ap (λ (w : Option Error × Server). w.0) good,
                ap (λ (w : Option Error × Server). w.1) good,
              )
              (put_functional-IsShown s addr regs patched adopted (sym same) ready)
      ]

  write_config-IsShown :
      IsCallback
      → (s : Server) (requester : StreamId) (addr : ℕ) (ep : E) (start_addr : ℕ)
        (data_bytes : List ℕ)
      → AllBytes data_bytes
      → IsShown s addr ep
      → let out = write_config encode adopt s requester addr ep start_addr data_bytes in
        IsShown out.2 addr out.1
  unfolding write_config
  write_config-IsShown laws s requester addr ep start_addr data_bytes bytes shown =
      let patched = patch (encode ep) start_addr data_bytes in
      let block =
        patch-AllBytes (encode ep) data_bytes start_addr (laws.written ep shown.is_ready) bytes in
      elim (Bool-cases (ltb (length (encode ep)) (start_addr + length data_bytes))) [
        | inl outside ↦ rw (write_config, outside) shown
        | inr inside ↦ elim (Option-cases (adopt ep patched).0) [
          | inl taken ↦
              rw (write_config, inside, taken)
                (persist-IsShown laws s requester addr ep (adopt ep patched).1 patched
                  (laws.ready ep patched block taken) (laws.adopted ep patched block taken) shown)
          | inr (e, bad) ↦ rw (write_config, inside, bad, laws.refused ep patched e bad) shown
        ]
      ]

  -- A configuration request leaves an endpoint that is ready so, and the register map with its block, where
  -- it had it before: also one that is refused, by the endpoint or by the server.
  pub apply_config_request-IsShown :
      IsCallback
      → (s : Server) (requester : StreamId) (addr : ℕ) (ep : E) (req : Message) → AllBytes req.body
      → IsShown s addr ep
      → let out = apply_config_request encode adopt s requester addr ep req in
        IsShown out.2 addr out.1
  unfolding apply_config_request
  apply_config_request-IsShown laws s requester addr ep req bytes shown =
      elim (Result-cases (decode_config_request_body req.body)) [
        | inl (body, found) ↦ elim (Bool-cases (has req.control flag_write)) [
          | inl write ↦
              rw (apply_config_request, found, write)
                (write_config-IsShown laws s requester addr ep body.0 body.1
                  (decoded-AllBytes req.body body found bytes) shown)
          | inr read ↦ rw (apply_config_request, found, read) shown
        ]
        | inr (e, bad) ↦ rw (apply_config_request, bad) shown
      ]
