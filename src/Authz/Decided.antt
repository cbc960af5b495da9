-- ===== src/Authz/Decided.antt =====
-- What the policy of authz/authz.go decides.
use go_rcp.Base.{
  ℕ, ◌≡◌, refl, sym, ◌∙◌, ◌⊎◌, ap, ◌↔◌, Bool, true, false, ◌||◌, Option, List, err, denied, [], ◌∷◌,
  ◌++◌, Bool-cases, inl, inr,
}
use go_rcp.Avtp.{StreamId}
use go_rcp.Controller.{Controller}
use go_rcp.Authz.{
  Guarded, principal_for, request, Action, allow, deny, Entry, matches, permits, evaluate,
}

module _ (principal : List ℕ) (stream : StreamId) (endpoint : ℕ) where
  abbrev pub matched : Entry → Bool
  matched e = matches e principal stream endpoint

  unfoldable pub any_matches : List Entry → Bool
  any_matches [] = false
  any_matches (e ∷ es) = matched e || any_matches es

  -- An entry that allows, and no entry before it that matches.
  pub record IsAllowed (entries : List Entry) : Type 0 where
    pub before : List Entry
    pub decisive : Entry
    pub after : List Entry
    pub split : entries ≡ before ++ (decisive ∷ after)
    pub unmatched : any_matches before ≡ false
    pub matching : matched decisive ≡ true
    pub allows : decisive.action ≡ allow

  allows-of_permits : (a : Action) → permits a ≡ true → a ≡ allow
  allows-of_permits allow h = refl
  allows-of_permits deny h = cc

  evaluate-IsAllowed :
      (entries : List Entry) → evaluate entries principal stream endpoint ≡ true → IsAllowed entries
  unfolding evaluate any_matches
  evaluate-IsAllowed [] h = cc
  evaluate-IsAllowed (e ∷ es) h = elim (Bool-cases (matched e)) [
    | inl hit ↦
        let rest_h : permits e.action ≡ true = rw hit at h in
        record {
          before = [];
          decisive = e;
          after = es;
          split = refl;
          unmatched = refl;
          matching = hit;
          allows = allows-of_permits e.action rest_h;
        }
    | inr miss ↦
        let rest_h : evaluate es principal stream endpoint ≡ true = rw miss at h in
        let rest = evaluate-IsAllowed es rest_h in
        record {
          before = e ∷ rest.before;
          decisive = rest.decisive;
          after = rest.after;
          split = ap (λ l. e ∷ l) rest.split;
          unmatched = rw (miss, rest.unmatched) refl;
          matching = rest.matching;
          allows = rest.allows;
        }
  ]

  evaluate-append :
      (before : List Entry) (e : Entry) (after : List Entry)
      → any_matches before ≡ false
      → matched e ≡ true
      → e.action ≡ allow
      → evaluate (before ++ (e ∷ after)) principal stream endpoint ≡ true
  unfolding evaluate any_matches
  evaluate-append [] e after h hit eq = rw (hit, eq) refl
  evaluate-append (b ∷ bs) e after h hit eq = elim (Bool-cases (matched b)) [
    | inl hit ↦ let absurd : true ≡ false = rw hit at h in cc
    | inr miss ↦
        let rest_h : any_matches bs ≡ false = rw miss at h in
        rw (evaluate, miss) (evaluate-append bs e after rest_h hit eq)
  ]

  evaluate_iff :
      (entries : List Entry)
      → (evaluate entries principal stream endpoint ≡ true) ↔ IsAllowed entries
  evaluate_iff entries = (
    evaluate-IsAllowed entries,
    λ a. rw a.split (evaluate-append a.before a.decisive a.after a.unmatched a.matching a.allows),
  )

-- What an open controller asks of the controller that it wraps: a request that an entry of the policy
-- matches and allows, with no matching entry before that one, gets the answer of the wrapped
-- controller, and any other request is denied and leaves the world as it is.
pub request-IsAllowed :
    {World : Type 0} (inner : Controller World) (c : Guarded) (named : Option (List ℕ)) (w : World)
    (addr control : ℕ) (body : List ℕ)
    → c.is_closed ≡ false
    → (IsAllowed (principal_for c named) inner.stream_id addr c.policy
        × (request inner c named w addr control body ≡ inner.request w addr control body))
      ⊎ ((¬ IsAllowed (principal_for c named) inner.stream_id addr c.policy)
          × (request inner c named w addr control body ≡ (err denied, w)))
unfolding request
request-IsAllowed inner c named w addr control body opened =
    let decides = evaluate_iff (principal_for c named) inner.stream_id addr c.policy in
    elim (Bool-cases (evaluate c.policy (principal_for c named) inner.stream_id addr)) [
      | inl hit ↦ inl (decides.0 hit, rw (opened, hit) refl)
      | inr miss ↦
          inr (
            λ a. let absurd : true ≡ false = sym (decides.1 a) ∙ miss in cc,
            rw (opened, miss) refl,
          )
    ]
