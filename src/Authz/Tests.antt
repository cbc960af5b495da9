-- ===== src/Authz/Tests.antt =====
-- A policy that denies a principal one endpoint and allows everyone all others.
use go_rcp.Base.{
  ℕ, ◌≡◌, refl, ◌⊎◌, ◌+◌, ok, err, denied, none, true, false, [], ◌∷◌, List, bytes_eq,
}
use go_rcp.Avtp.{StreamId}
use go_rcp.Acf.{no_message}
use go_rcp.Controller.{Controller}
use go_rcp.Authz.{Entry, allow, deny, endpoint_any, stream_any, evaluate, Guarded, request}
use go_rcp.Authz.Decided.{IsAllowed, request-IsAllowed}

abbrev sender : StreamId
sender = 2 ∷ 0 ∷ 0x5e ∷ 0x10 ∷ 0 ∷ 1 ∷ 0 ∷ 1 ∷ []

abbrev alice : List ℕ
alice = 97 ∷ 108 ∷ []

abbrev entries : List Entry
entries =
    record { principal = alice; stream = stream_any; endpoint = 5; action = deny }
    ∷ record { principal = []; stream = sender; endpoint = endpoint_any; action = allow }
    ∷ []

refused : evaluate entries alice sender 5 ≡ false
unfolding evaluate bytes_eq
refused = refl

permitted : evaluate entries alice sender 6 ≡ true
unfolding evaluate bytes_eq
permitted = refl

-- A wrapped controller that counts its requests.
abbrev counting : Controller ℕ
counting = record {
  stream_id = sender;
  request = λ w addr control body. (ok (record no_message { body = body }), w + 1);
  discover = λ w. (ok [], w);
  close = λ w. (none, w);
}

abbrev guarded : Guarded
guarded = record { policy = entries; principal = alice; is_closed = false }

request-IsAllowed_example :
    (IsAllowed alice sender 6 entries
      × (request counting guarded none 3 6 1 [] ≡ counting.request 3 6 1 []))
    ⊎ ((¬ IsAllowed alice sender 6 entries)
        × (request counting guarded none 3 6 1 [] ≡ (err denied, 3)))
request-IsAllowed_example = request-IsAllowed counting guarded none 3 6 1 [] refl
