-- ===== src/Authz.antt =====
-- authz/authz.go: the policy over principals, streams and endpoints, and the controller that holds a caller to
-- it. A principal is the bytes of its name; the one that a context carries is an argument of a request.
pub mod Decided
mod Tests
use go_rcp.Base.{
  ℕ, Bool, true, false, not, ◌&&◌, ◌||◌, Option, none, some, List, [], ◌∷◌, ◌++◌, ◌==◌, bytes_eq,
  if◌then◌else◌, Error, Result, ok, err, denied, closed,
}
use go_rcp.Avtp.{StreamId}
use go_rcp.Acf.{Message, flag_read, flag_write}
use go_rcp.Controller.{Controller}

abbrev pub endpoint_any : ℕ
endpoint_any = 0xff

abbrev pub stream_any : StreamId
stream_any = 0xff ∷ 0xff ∷ 0xff ∷ 0xff ∷ 0xff ∷ 0xff ∷ 0xff ∷ 0xff ∷ []

pub data Action : Type 0 where
  allow deny : Action

pub record Entry : Type 0 where
  pub principal : List ℕ
  pub stream : StreamId
  pub endpoint : ℕ
  pub action : Action

abbrev pub new_policy : List Entry
new_policy = []

pub add_allow : List Entry → List ℕ → StreamId → ℕ → List Entry
add_allow entries principal stream endpoint =
    entries
    ++ (record { principal = principal; stream = stream; endpoint = endpoint; action = allow } ∷ [])

pub add_deny : List Entry → List ℕ → StreamId → ℕ → List Entry
add_deny entries principal stream endpoint =
    entries
    ++ (record { principal = principal; stream = stream; endpoint = endpoint; action = deny } ∷ [])

-- The entries are copied.
pub set_entries : List Entry → List Entry → List Entry
set_entries policy entries = entries

abbrev pub match_principal : List ℕ → List ℕ → Bool
match_principal pattern actual = bytes_eq pattern [] || bytes_eq pattern actual

abbrev pub match_stream : StreamId → StreamId → Bool
match_stream pattern actual = bytes_eq pattern stream_any || bytes_eq pattern actual

abbrev pub match_endpoint : ℕ → ℕ → Bool
match_endpoint pattern actual = pattern == endpoint_any || pattern == actual

-- The three tests of the loop.
abbrev pub matches : Entry → List ℕ → StreamId → ℕ → Bool
matches e principal stream endpoint =
    match_principal e.principal principal
    && (match_stream e.stream stream && match_endpoint e.endpoint endpoint)

abbrev pub permits : Action → Bool
permits allow = true
permits deny = false

unfoldable pub evaluate : List Entry → List ℕ → StreamId → ℕ → Bool
evaluate [] principal stream endpoint = false
evaluate (e ∷ entries) principal stream endpoint =
    let rest = evaluate entries principal stream endpoint in
    if matches e principal stream endpoint then permits e.action else rest

-- The wrapped controller is an argument of the methods.
pub record Guarded : Type 0 where
  pub policy : List Entry
  pub principal : List ℕ
  pub is_closed : Bool

pub new_controller : List Entry → List ℕ → Guarded
new_controller policy principal = record {
  policy = policy;
  principal = principal;
  is_closed = false;
}

-- The principal of the context, unless it has none or an empty one.
abbrev pub principal_for : Guarded → Option (List ℕ) → List ℕ
principal_for c none = c.principal
principal_for c (some []) = c.principal
principal_for c (some (b ∷ bs)) = b ∷ bs

module _ {World : Type 0} (inner : Controller World) where
  unfoldable pub request :
      Guarded → Option (List ℕ) → World → ℕ → ℕ → List ℕ → Result Message × World
  request c named w addr control body =
      if c.is_closed
      then (err closed, w)
      else if not (evaluate c.policy (principal_for c named) inner.stream_id addr)
      then (err denied, w)
      else inner.request w addr control body

  pub read : Guarded → Option (List ℕ) → World → ℕ → Result Message × World
  read c named w addr = request c named w addr flag_read []

  pub write : Guarded → Option (List ℕ) → World → ℕ → List ℕ → Result Message × World
  write c named w addr body = request c named w addr flag_write body

  pub discover : Guarded → World → Result (List ℕ) × World
  discover c w = inner.discover w

  unfoldable pub close : Guarded → World → Option Error × Guarded × World
  close c w =
      if c.is_closed
      then (none, c, w)
      else let out = inner.close w in (out.0, record c { is_closed = true }, out.1)
