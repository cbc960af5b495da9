-- ===== src/Server/Kept.antt =====
-- What an operation may leave of a server whose configuration is locked.
use go_rcp.Base.{
  ℕ, suc, ◌≡◌, refl, sym, ap, ◌∙◌, Bool, true, false, Option, some, List, [], ◌∷◌, length, ◌==◌,
  ==_iff, if◌then◌else◌, Error, arith, Bool-cases, Option-cases, inl, inr,
}
use go_rcp.Base.Assoc.{lookup, insert, lookup-insert, nat_eq}
use go_rcp.Regmap.{
  generic_eq, GenericEndpointBlock, EndpointRegisters, RegisterMap, generics_in,
  same_endpoint_generics,
}
use go_rcp.Server.Same.{SameIdentity, identity_refl, SamePins, SamePins-refl}
use go_rcp.Server.{
  LifecycleState, unconfigured, hw_locked, fully_configured, Server, is_unconfigured,
  is_fully_configured, put_functional,
}

-- Every endpoint of `m'` was one of `m`, with the same generic block, and there are as many.
pub record SameEndpoints (m m' : RegisterMap) : Type 0 where
  pub from :
      (addr : ℕ) (ep' : EndpointRegisters)
      → lookup addr m'.endpoints ≡ some ep'
      → (ep : EndpointRegisters) × (lookup addr m.endpoints ≡ some ep) × (ep'.generic ≡ ep.generic)
  pub count : length m'.endpoints ≡ length m.endpoints

pub record IsLocked (s s' : Server) : Type 0 where
  pub identity : SameIdentity s.rmap.general s'.rmap.general
  pub endpoints : is_unconfigured s.state ≡ false → SameEndpoints s.rmap s'.rmap
  pub pins : is_unconfigured s.state ≡ false → SamePins s.rmap.pin_map s'.rmap.pin_map
  pub limits :
      is_fully_configured s.state ≡ true
      → (s'.rmap.streams ≡ s.rmap.streams) × (s'.rmap.queues ≡ s.rmap.queues)
  pub final : is_fully_configured s.state ≡ true → s'.state ≡ s.state

SameEndpoints-refl : (m : RegisterMap) → SameEndpoints m m
SameEndpoints-refl m = record { from = λ addr ep found. (ep, found, refl); count = refl }

pub IsLocked-refl : (s : Server) → IsLocked s s
IsLocked-refl s = record {
  identity = identity_refl s.rmap.general s.rmap.general refl;
  endpoints = λ e. SameEndpoints-refl s.rmap;
  pins = λ e. SamePins-refl s.rmap.pin_map;
  limits = λ e. (refl, refl);
  final = λ e. refl;
}

-- Behind one guard.
pub refuse :
    (s : Server) (b : Bool) (e : Error) (x : Option Error × Server)
    → (b ≡ false → IsLocked s x.1)
    → IsLocked s (if b then (some e, s) else x).1
refuse s true e x h = IsLocked-refl s
refuse s false e x h = h refl

-- Before the hardware is locked, and before the server is fully configured.
pub early-IsLocked :
    (s : Server)
    → is_unconfigured s.state ≡ true
    → (s' : Server) → s'.rmap.general ≡ s.rmap.general
    → IsLocked s s'
early-IsLocked s early s' general = record {
  identity = identity_refl s.rmap.general s'.rmap.general general;
  endpoints = λ e. absurd (let bad : true ≡ false = sym early ∙ e in cc);
  pins = λ e. absurd (let bad : true ≡ false = sym early ∙ e in cc);
  limits = λ e. absurd (not_both s.state early e);
  final = λ e. absurd (not_both s.state early e);
}
  where
    not_both : (st : LifecycleState) → is_unconfigured st ≡ true → is_fully_configured st ≡ true → ⊥
    not_both unconfigured e f = let bad : false ≡ true = f in cc
    not_both hw_locked e f = let bad : false ≡ true = f in cc
    not_both fully_configured e f = let bad : false ≡ true = e in cc

pub unfinished-IsLocked :
    (s : Server)
    → is_fully_configured s.state ≡ false
    → (s' : Server) → s'.rmap.general ≡ s.rmap.general
    → s'.rmap.endpoints ≡ s.rmap.endpoints
    → s'.rmap.pin_map ≡ s.rmap.pin_map
    → IsLocked s s'
unfinished-IsLocked s open_ s' general endpoints pins = record {
  identity = identity_refl s.rmap.general s'.rmap.general general;
  endpoints = λ e. record {
    from = λ addr ep' found. (ep', ap (lookup addr) (sym endpoints) ∙ found, refl);
    count = ap length endpoints;
  };
  pins = λ e. rw pins (SamePins-refl s.rmap.pin_map);
  limits = λ e. absurd (let bad : true ≡ false = sym e ∙ open_ in cc);
  final = λ e. absurd (let bad : true ≡ false = sym e ∙ open_ in cc);
}

length-insert :
    {V : Type 0} (k : ℕ) (v w : V) (l : List (ℕ × V))
    → lookup k l ≡ some w
    → length (insert k v l) ≡ length l
unfolding lookup insert
length-insert k v w [] h = cc
length-insert k v w ((j, x) ∷ l) h = elim (Bool-cases (j == k)) [
  | inl same ↦ rw same refl
  | inr other ↦ rw other (ap suc (length-insert k v w l (rw other at h)))
]

pub put_functional-IsLocked :
    (s : Server) (addr : ℕ) (ep : EndpointRegisters) (data_bytes : List ℕ)
    → lookup addr s.rmap.endpoints ≡ some ep
    → IsLocked s (put_functional s addr ep data_bytes)
put_functional-IsLocked s addr ep data_bytes held = record {
  identity = identity_refl s.rmap.general s.rmap.general refl;
  endpoints = λ e. record {
    from = λ other ep' found. elim (Bool-cases (addr == other)) [
      | inl same ↦
          let value : some (record ep { functional = data_bytes }) ≡ some ep' =
            rw (lookup-insert, same) at found in
          let eq : record ep { functional = data_bytes } ≡ ep' = cc in
          let here : lookup other s.rmap.endpoints ≡ some ep =
            ap (λ a. lookup a s.rmap.endpoints) (sym ((==_iff addr other).0 same)) ∙ held in
          (ep, here, ap (λ (x : EndpointRegisters). x.generic) (sym eq))
      | inr apart ↦ (ep', rw (lookup-insert, apart) at found, refl)
    ];
    count = length-insert addr (record ep { functional = data_bytes }) ep s.rmap.endpoints held;
  };
  pins = λ e. SamePins-refl s.rmap.pin_map;
  limits = λ e. (refl, refl);
  final = λ e. refl;
}

generic_eq-eq : (a b : GenericEndpointBlock) → generic_eq a b ≡ true → a ≡ b
generic_eq-eq a b h = ground (arith, h)

generics_in-lookup :
    (l : List (ℕ × EndpointRegisters)) (m : RegisterMap) (addr : ℕ) (ep' : EndpointRegisters)
    → generics_in l m ≡ true
    → lookup addr l ≡ some ep'
    → (ep : EndpointRegisters) × (lookup addr m.endpoints ≡ some ep) × (ep'.generic ≡ ep.generic)
unfolding generics_in lookup
generics_in-lookup [] m addr ep' h found = cc
generics_in-lookup ((a, ea) ∷ rest) m addr ep' h found =
    elim (Option-cases (lookup a m.endpoints)) [
      | inl gone ↦ absurd (let bad : false ≡ true = rw (gone, generics_in) at h in cc)
      | inr (eb, there) ↦
          let checks = rw (there, generics_in) at h in
          elim (Bool-cases (generic_eq ea.generic eb.generic)) [
            | inr differs ↦ absurd (let bad : false ≡ true = rw differs at checks in cc)
            | inl agrees ↦
                let others : generics_in rest m ≡ true = rw agrees at checks in
                elim (Bool-cases (a == addr)) [
                  | inl same ↦
                      let value : some ea ≡ some ep' = rw same at found in
                      let eq : ea ≡ ep' = cc in
                      let here : lookup addr m.endpoints ≡ some eb =
                        ap (λ k. lookup k m.endpoints) (sym ((==_iff a addr).0 same)) ∙ there in
                      (
                        eb,
                        here,
                        ap (λ (x : EndpointRegisters). x.generic) (sym eq)
                            ∙ generic_eq-eq ea.generic eb.generic agrees,
                      )
                  | inr apart ↦ generics_in-lookup rest m addr ep' others (rw apart at found)
                ]
          ]
    ]

pub same_endpoint_generics-SameEndpoints :
    (m incoming : RegisterMap) → same_endpoint_generics incoming m ≡ true → SameEndpoints m incoming
unfolding same_endpoint_generics
same_endpoint_generics-SameEndpoints m incoming h =
    let parts : (length incoming.endpoints ≡ length m.endpoints)
        × (generics_in incoming.endpoints m ≡ true) =
      (ground (arith, h), ground (arith, h)) in
    record {
      from = λ addr ep' found. generics_in-lookup incoming.endpoints m addr ep' parts.1 found;
      count = parts.0;
    }
