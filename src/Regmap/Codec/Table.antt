-- ===== src/Regmap/Codec/Table.antt =====
-- The endpoint table of a register map is read back, as a map.
use go_rcp.Base.{
  ℕ, suc, ◌^◌, ◌<◌, ◌≡◌, refl, ap, ◌∙◌, sym, Bool, true, false, ◌||◌, none, some, List, [], ◌∷◌,
  ◌++◌, append-nil, length, ◌==◌, if◌then◌else◌, All, ok, arith, Bool-cases, Option-cases, inl, inr,
  ==_iff,
}
use go_rcp.Base.Assoc.{lookup, insert, lookup-insert, nat_eq, Every, Every-lookup}
use go_rcp.Base.Bytes.{put_be, get_be-put_be}
use go_rcp.Regmap.{EndpointRegisters, RegisterMap}
use go_rcp.Regmap.Codec.{
  insert_address, addresses, encode_entries, encode_endpoint_table, decode_entries,
  decode_endpoint_table,
}
use go_rcp.Regmap.Codec.RoundTrip.{
  IsEndpoint, encode_endpoints, declared, decode_entries-encode_endpoints,
}

-- Every endpoint stands under its address, and its fields fit.
abbrev pub IsPlaced : ℕ → EndpointRegisters → Type 0
IsPlaced addr ep = (ep.generic.address ≡ addr) × IsEndpoint ep

abbrev pub IsTable : List (ℕ × EndpointRegisters) → Type 0
IsTable = Every IsPlaced

contains : ℕ → List ℕ → Bool
contains k [] = false
contains k (a ∷ addrs) = a == k || contains k addrs

contains-insert_address :
    (k a : ℕ) (addrs : List ℕ) → contains k (insert_address a addrs) ≡ (a == k || contains k addrs)
unfolding contains insert_address
contains-insert_address k a [] = refl
contains-insert_address k a (b ∷ addrs) = ground (arith, contains-insert_address k a addrs)

-- The addresses are those of the endpoints.
contains-addresses :
    (k : ℕ) (l : List (ℕ × EndpointRegisters))
    → contains k (addresses l) ≡ (elim (lookup k l) [ none ↦ false | some ep ↦ true ])
unfolding contains addresses lookup
contains-addresses k [] = refl
contains-addresses k ((a, ep) ∷ l) =
    ground (arith, contains-insert_address k a (addresses l), contains-addresses k l)

length-insert_address :
    (a : ℕ) (addrs : List ℕ) → length (insert_address a addrs) ≡ suc (length addrs)
unfolding insert_address
length-insert_address a [] = refl
length-insert_address a (b ∷ addrs) = ground (arith, length-insert_address a addrs)

pub length-addresses : (l : List (ℕ × EndpointRegisters)) → length (addresses l) ≡ length l
unfolding addresses
length-addresses [] = refl
length-addresses ((a, ep) ∷ l) =
    omega (arith, length-insert_address a (addresses l), length-addresses l)

-- The endpoints at the addresses.
registers_at : List (ℕ × EndpointRegisters) → List ℕ → List EndpointRegisters
registers_at l [] = []
registers_at l (a ∷ addrs) = elim (lookup a l) [
  | none ↦ registers_at l addrs
  | some ep ↦ ep ∷ registers_at l addrs
]

abbrev Held : List (ℕ × EndpointRegisters) → ℕ → Type 0
Held l a = (ep : EndpointRegisters) × (lookup a l ≡ some ep)

Held-of_contains :
    (l : List (ℕ × EndpointRegisters)) (addrs : List ℕ)
    → ((k : ℕ) → contains k addrs ≡ true → Held l k)
    → All (Held l) addrs
unfolding contains
Held-of_contains l [] h = tt
Held-of_contains l (a ∷ addrs) h =
    (h a (ground arith), Held-of_contains l addrs (λ k found. h k (ground (arith, found))))

addresses-Held : (l : List (ℕ × EndpointRegisters)) → All (Held l) (addresses l)
addresses-Held l = Held-of_contains l (addresses l) λ k found. elim (Option-cases (lookup k l)) [
  | inr (ep, held) ↦ (ep, held)
  | inl gone ↦ ground (arith, found, gone, contains-addresses k l)
]

registers_at-held :
    (l : List (ℕ × EndpointRegisters)) (a : ℕ) (ep : EndpointRegisters) (addrs : List ℕ)
    → lookup a l ≡ some ep
    → registers_at l (a ∷ addrs) ≡ ep ∷ registers_at l addrs
unfolding registers_at
registers_at-held l a ep addrs held = rw (registers_at, held)

encode_entries-registers_at :
    (m : RegisterMap) (addrs : List ℕ)
    → encode_entries m addrs ≡ encode_endpoints (registers_at m.endpoints addrs)
unfolding encode_entries encode_endpoints registers_at
encode_entries-registers_at m [] = refl
encode_entries-registers_at m (a ∷ addrs) = ground (arith, encode_entries-registers_at m addrs)

length-registers_at :
    (l : List (ℕ × EndpointRegisters)) (addrs : List ℕ)
    → All (Held l) addrs
    → length (registers_at l addrs) ≡ length addrs
unfolding registers_at
length-registers_at l [] h = refl
length-registers_at l (a ∷ addrs) ((ep, held), h) =
    rw (registers_at-held l a ep addrs held) (ap suc (length-registers_at l addrs h))

registers_at-IsEndpoint :
    (l : List (ℕ × EndpointRegisters)) (addrs : List ℕ)
    → IsTable l
    → All (Held l) addrs
    → All IsEndpoint (registers_at l addrs)
unfolding registers_at
registers_at-IsEndpoint l [] t h = tt
registers_at-IsEndpoint l (a ∷ addrs) t ((ep, held), h) =
    rw (registers_at-held l a ep addrs held)
      ((Every-lookup IsPlaced a ep l held t).1, registers_at-IsEndpoint l addrs t h)

lookup-declared :
    (l : List (ℕ × EndpointRegisters)) (k : ℕ) (addrs : List ℕ) (out : List (ℕ × EndpointRegisters))
    → IsTable l
    → All (Held l) addrs
    → lookup k (declared (registers_at l addrs) out)
      ≡ (if contains k addrs then lookup k l else lookup k out)
unfolding registers_at contains
lookup-declared l k [] out t h = refl
lookup-declared l k (a ∷ addrs) out t ((ep, held), h) =
    let tag : (ep.generic.address == k) ≡ (a == k) =
      ap (λ x. x == k) (Every-lookup IsPlaced a ep l held t).0 in
    let put = lookup-insert ep.generic.address k ep out in
    rw (registers_at-held l a ep addrs held) (
      lookup-declared l k addrs (insert ep.generic.address ep out) t h
      ∙ elim (Bool-cases (a == k)) [
        | inl here ↦
            let found : lookup k l ≡ some ep =
              ap (λ x. lookup x l) (sym ((==_iff a k).0 here)) ∙ held in
            ground (arith, here, found, tag, put)
        | inr apart ↦ ground (arith, apart, tag, put)
      ])

lookup_known :
    (l : List (ℕ × EndpointRegisters)) (k : ℕ)
    → (if contains k (addresses l) then lookup k l else lookup k []) ≡ lookup k l
unfolding lookup
lookup_known l k = elim (Option-cases (lookup k l)) [
  | inl gone ↦ ground (arith, gone, contains-addresses k l)
  | inr (ep, held) ↦ ground (arith, held, contains-addresses k l)
]

decode_endpoint_table-at :
    (n : ℕ) (entries : List ℕ) (out : List (ℕ × EndpointRegisters))
    → n < 2 ^ 16
    → decode_entries n [] entries ≡ ok (out, [])
    → decode_endpoint_table (put_be 2 n ++ entries) ≡ ok out
unfolding decode_endpoint_table put_be
decode_endpoint_table-at n entries out small found =
    rw (decode_endpoint_table, get_be-put_be 2 n (omega (arith, small)), found) (ground arith)

-- A table whose endpoints stand under their addresses, with fields that fit, and whose number fits is read
-- back, with the same endpoint at each address.
pub decode_endpoint_table-encode_endpoint_table :
    (m : RegisterMap)
    → IsTable m.endpoints
    → length m.endpoints < 2 ^ 16
    → (out : List (ℕ × EndpointRegisters)) × (decode_endpoint_table (encode_endpoint_table m)
        ≡ ok out)
      × ((k : ℕ) → lookup k out ≡ lookup k m.endpoints)
unfolding encode_endpoint_table
decode_endpoint_table-encode_endpoint_table m t small =
    let addrs = addresses m.endpoints in
    let held = addresses-Held m.endpoints in
    let eps = registers_at m.endpoints addrs in
    let n = length-registers_at m.endpoints addrs held in
    let read =
      decode_entries-encode_endpoints eps [] []
        (registers_at-IsEndpoint m.endpoints addrs t held) in
    let found : decode_entries (length addrs) [] (encode_entries m addrs)
        ≡ ok (declared eps [], []) =
      rw (encode_entries-registers_at m addrs, ← n, ← append-nil (encode_endpoints eps)) read in
    (
      declared eps [],
      decode_endpoint_table-at (length addrs) (encode_entries m addrs) (declared eps [])
          (omega (arith, length-addresses m.endpoints, small)) found,
      λ k. lookup-declared m.endpoints k addrs [] t held ∙ lookup_known m.endpoints k,
    )
