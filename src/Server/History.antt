-- ===== src/Server/History.antt =====
-- Who may change the register map of a server, by the history of the server.
use go_rcp.Base.{
  ℕ, ◌≡◌, refl, sym, ap, ◌∙◌, Bool, true, false, not, ◌&&◌, ◌||◌, Option, none, some, List, [], ◌∷◌,
  bytes_eq, ◌==◌, if◌then◌else◌, Error, arith, Bool-cases, inl, inr,
}
use go_rcp.Base.Assoc.{lookup, lookup-insert, nat_eq, bytes_instance, bytes_eq_iff}
use go_rcp.Avtp.{StreamId}
use go_rcp.Regmap.{is_root, claim_root, grant, grants_of, has_grant}
use go_rcp.Server.{
  Server, Claim, new_server, is_active, server_claim_root, server_grant, advance_to_hw_locked,
  advance_to_fully_configured, claim_configuration, release_configuration_claim,
  set_configuration_claim_timeout,
}
use go_rcp.Server.Guarded.{
  Operation, adds_endpoint, sets_pin, sets_limits, sets_queues, writes, writes_at, writes_map,
  demotes, run, run-is_authorized, is_authorized,
}
use go_rcp.Server.Rights.{
  run-KeepsRights, advance_to_hw_locked-KeepsRights, advance_to_fully_configured-KeepsRights,
}

-- What happens to a server.
pub data Event : Type 0 where
  claims_root : StreamId → Event
  grants : StreamId → ℕ → Event
  claims_configuration : (now : ℕ) → StreamId → Event
  releases_configuration : (now : ℕ) → StreamId → Event
  sets_timeout : ℕ → Event
  locks_hardware completes : Event
  requests : StreamId → Operation → Event

unfoldable pub apply : Server → Event → Server
apply s (claims_root stream) = (server_claim_root s stream).1
apply s (grants stream addr) = server_grant s stream addr
apply s (claims_configuration now stream) = (claim_configuration s now stream).1
apply s (releases_configuration now stream) = (release_configuration_claim s now stream).1
apply s (sets_timeout d) = set_configuration_claim_timeout s d
apply s locks_hardware = (advance_to_hw_locked s).1
apply s completes = (advance_to_fully_configured s).1
apply s (requests stream op) = (run s stream op).1

-- A history, the newest event first.
unfoldable pub after : List Event → Server
after [] = new_server
after (e ∷ es) = apply (after es) e

-- Whether an event may give a stream the right to an operation: a claim of the root, a grant of the endpoint that it
-- writes to, or a claim of the configuration, for a demotion.
abbrev pub entitles : StreamId → Operation → Event → Bool
entitles st op (claims_root stream) = bytes_eq stream st
entitles st (writes addr b) (grants stream ep) = bytes_eq stream st && ep == addr
entitles st (writes_at addr a b) (grants stream ep) = bytes_eq stream st && ep == addr
entitles st (demotes now) (claims_configuration at stream) = bytes_eq stream st
entitles st op e = false

unfoldable pub any_entitles : StreamId → Operation → List Event → Bool
any_entitles st op [] = false
any_entitles st op (e ∷ es) = entitles st op e || any_entitles st op es

access_either :
    (s : Server) (b : Bool) (x y : Option Error × Server)
    → x.1.access ≡ s.access
    → y.1.access ≡ s.access
    → (if b then x else y).1.access ≡ s.access
access_either s true x y h k = h
access_either s false x y h k = k

claims-access :
    (s : Server) (now : ℕ) (stream : StreamId)
    → ((claim_configuration s now stream).1.access ≡ s.access)
      × ((release_configuration_claim s now stream).1.access ≡ s.access)
unfolding claim_configuration release_configuration_claim
claims-access s now stream = (
  access_either s (is_active s.claim now && not (bytes_eq s.claim.stream stream)) _ _ refl refl,
  access_either s (not (is_active s.claim now) || not (bytes_eq s.claim.stream stream)) _ _ refl
      refl,
)

abbrev has_claimed : Claim → StreamId → Bool
has_claimed c st = c.held && bytes_eq c.stream st

claim_either :
    (st : StreamId) (b : Bool) (x y : Option Error × Server)
    → has_claimed x.1.claim st ≡ false
    → has_claimed y.1.claim st ≡ false
    → has_claimed (if b then x else y).1.claim st ≡ false
claim_either st true x y h k = h
claim_either st false x y h k = k

chosen : {A : Type 0} (b : Bool) (x y : A) → b ≡ true → (if b then x else y) ≡ x
chosen true x y h = refl
chosen false x y h = cc

otherwise : {A : Type 0} (b : Bool) (x y : A) → b ≡ false → (if b then x else y) ≡ y
otherwise true x y h = cc
otherwise false x y h = refl

abbrev set_of : Option (List (ℕ × Unit {0})) → List (ℕ × Unit {0})
set_of o = elim o [ none ↦ [] | some set ↦ set ]

abbrev known : Option (Unit {0}) → Bool
known o = elim o [ none ↦ false | some granted ↦ true ]

abbrev knows : List (ℕ × Unit {0}) → ℕ → Bool
knows set addr = known (lookup addr set)

-- Each right, through one event that does not give it.
module _ (s : Server) (st : StreamId) where
  is_root-apply :
      (op : Operation) (e : Event)
      → entitles st op e ≡ false
      → is_root s.access st ≡ false
      → is_root (apply s e).access st ≡ false
  unfolding apply server_claim_root claim_root server_grant grant set_configuration_claim_timeout
  is_root-apply op (claims_root stream) g k =
      elim (Bool-cases (s.access.root_set && not (bytes_eq s.access.root stream))) [
        | inl taken ↦ rw taken k
        | inr free ↦ rw free g
      ]
  is_root-apply op (grants stream ep) g k = k
  is_root-apply op (claims_configuration now stream) g k = rw (claims-access s now stream).0 k
  is_root-apply op (releases_configuration now stream) g k = rw (claims-access s now stream).1 k
  is_root-apply op (sets_timeout d) g k = k
  is_root-apply op locks_hardware g k = rw (advance_to_hw_locked-KeepsRights s).access k
  is_root-apply op completes g k = rw (advance_to_fully_configured-KeepsRights s).access k
  is_root-apply op (requests stream o) g k = rw (run-KeepsRights s stream o).access k

  has_grant-apply :
      (addr : ℕ) (b : List ℕ) (e : Event)
      → entitles st (writes addr b) e ≡ false
      → has_grant s.access st addr ≡ false
      → has_grant (apply s e).access st addr ≡ false
  unfolding apply server_claim_root claim_root server_grant grant set_configuration_claim_timeout
  has_grant-apply addr b (claims_root stream) g k =
      elim (Bool-cases (s.access.root_set && not (bytes_eq s.access.root stream))) [
        | inl taken ↦ rw taken k
        | inr free ↦ rw free k
      ]
  has_grant-apply addr b (grants stream ep) g k = elim (Bool-cases (bytes_eq stream st)) [
    | inr apart ↦
        ap (λ o. knows (set_of o) addr)
          (lookup-insert stream st _ s.access.grants ∙ otherwise _ _ _ apart)
        ∙ k
    | inl same ↦
        let eq : stream ≡ st = (bytes_eq_iff stream st).0 same in
        let other : (ep == addr) ≡ false = rw same at g in
        ap (λ o. knows (set_of o) addr)
          (lookup-insert stream st _ s.access.grants ∙ chosen _ _ _ same)
        ∙ (ap known (lookup-insert ep addr tt (grants_of s.access stream) ∙ otherwise _ _ _ other)
            ∙ (ap (λ x. has_grant s.access x addr) eq ∙ k))
  ]
  has_grant-apply addr b (claims_configuration now stream) g k = rw (claims-access s now stream).0 k
  has_grant-apply addr b (releases_configuration now stream) g k =
      rw (claims-access s now stream).1 k
  has_grant-apply addr b (sets_timeout d) g k = k
  has_grant-apply addr b locks_hardware g k = rw (advance_to_hw_locked-KeepsRights s).access k
  has_grant-apply addr b completes g k = rw (advance_to_fully_configured-KeepsRights s).access k
  has_grant-apply addr b (requests stream o) g k = rw (run-KeepsRights s stream o).access k

  has_claimed-apply :
      (now : ℕ) (e : Event)
      → entitles st (demotes now) e ≡ false
      → has_claimed s.claim st ≡ false
      → has_claimed (apply s e).claim st ≡ false
  unfolding apply server_claim_root claim_root server_grant set_configuration_claim_timeout
      claim_configuration release_configuration_claim
  has_claimed-apply now (claims_root stream) g k = k
  has_claimed-apply now (grants stream ep) g k = k
  has_claimed-apply now (claims_configuration at stream) g k =
      claim_either st (is_active s.claim at && not (bytes_eq s.claim.stream stream)) _ _ k g
  has_claimed-apply now (releases_configuration at stream) g k =
      claim_either st (not (is_active s.claim at) || not (bytes_eq s.claim.stream stream)) _ _ k
        refl
  has_claimed-apply now (sets_timeout d) g k = k
  has_claimed-apply now locks_hardware g k = rw (advance_to_hw_locked-KeepsRights s).claim k
  has_claimed-apply now completes g k = rw (advance_to_fully_configured-KeepsRights s).claim k
  has_claimed-apply now (requests stream o) g k = rw (run-KeepsRights s stream o).claim k

-- Along a history without an event that gives the right.
module _ (st : StreamId) where
  after-is_root :
      (op : Operation) (es : List Event)
      → any_entitles st op es ≡ false
      → is_root (after es).access st ≡ false
  unfolding after any_entitles
  after-is_root op [] h = refl
  after-is_root op (e ∷ es) h =
      is_root-apply (after es) st op e (ground (arith, h)) (after-is_root op es (ground (arith, h)))

  after-has_grant :
      (addr : ℕ) (b : List ℕ) (es : List Event)
      → any_entitles st (writes addr b) es ≡ false
      → has_grant (after es).access st addr ≡ false
  unfolding after any_entitles lookup
  after-has_grant addr b [] h = refl
  after-has_grant addr b (e ∷ es) h =
      has_grant-apply (after es) st addr b e (ground (arith, h))
        (after-has_grant addr b es (ground (arith, h)))

  after-has_claimed :
      (now : ℕ) (es : List Event)
      → any_entitles st (demotes now) es ≡ false
      → has_claimed (after es).claim st ≡ false
  unfolding after any_entitles
  after-has_claimed now [] h = refl
  after-has_claimed now (e ∷ es) h =
      has_claimed-apply (after es) st now e (ground (arith, h))
        (after-has_claimed now es (ground (arith, h)))

  entitles-writes :
      (addr a : ℕ) (b : List ℕ) (e : Event)
      → entitles st (writes_at addr a b) e ≡ entitles st (writes addr b) e
  entitles-writes addr a b (claims_root stream) = refl
  entitles-writes addr a b (grants stream ep) = refl
  entitles-writes addr a b (claims_configuration now stream) = refl
  entitles-writes addr a b (releases_configuration now stream) = refl
  entitles-writes addr a b (sets_timeout d) = refl
  entitles-writes addr a b locks_hardware = refl
  entitles-writes addr a b completes = refl
  entitles-writes addr a b (requests stream op) = refl

  any_entitles-writes :
      (addr a : ℕ) (b : List ℕ) (es : List Event)
      → any_entitles st (writes_at addr a b) es ≡ any_entitles st (writes addr b) es
  unfolding any_entitles
  any_entitles-writes addr a b [] = refl
  any_entitles-writes addr a b (e ∷ es) =
      rw (entitles-writes addr a b e, any_entitles-writes addr a b es) refl

  after-is_authorized :
      (op : Operation) (es : List Event)
      → any_entitles st op es ≡ false
      → is_authorized (after es) st op ≡ false
  after-is_authorized (adds_endpoint addr t) es h = after-is_root _ es h
  after-is_authorized (sets_pin a) es h = after-is_root _ es h
  after-is_authorized (sets_limits l) es h = after-is_root _ es h
  after-is_authorized (sets_queues q) es h = after-is_root _ es h
  after-is_authorized (writes_map b) es h = after-is_root _ es h
  after-is_authorized (writes addr b) es h =
      rw (after-is_root (writes addr b) es h) (after-has_grant addr b es h)
  after-is_authorized (writes_at addr a b) es h =
      rw (after-is_root (writes_at addr a b) es h)
        (after-has_grant addr b es (sym (any_entitles-writes addr a b es) ∙ h))
  after-is_authorized (demotes now) es h =
      let claim : has_claimed (after es).claim st ≡ false = after-has_claimed now es h in
      rw (after-is_root (demotes now) es h) (ground (arith, claim))

-- A stream that has neither claimed the root of a server, nor, where it writes to an endpoint, been granted that
-- endpoint, nor, where it asks for a demotion, claimed the configuration, in all of the server's history, gets an
-- error for the operation, and nothing of the server changes.
pub after-run :
    (st : StreamId) (op : Operation) (es : List Event)
    → any_entitles st op es ≡ false
    → (e : Error) × (run (after es) st op ≡ (some e, after es))
after-run st op es h = run-is_authorized (after es) st op (after-is_authorized st op es h)
