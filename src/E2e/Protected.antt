-- ===== src/E2e/Protected.antt =====
-- What `Verify` accepts, and what it gives back of what `Protect` sent.
use go_rcp.Base.{
  ℕ, zero, suc, ◌+◌, ◌-◌, ◌≤◌, ◌≡◌, refl, sym, ap, ◌∙◌, true, false, some, List, [], ◌∷◌, ◌++◌,
  append_assoc, append-nil, length, take, drop, take-append-drop, take-append, drop-append,
  length-append, length-replicate, length-drop, ltb, ==_iff, Bool-cases, Option-cases, inl, inr,
  arith, ok, err,
}
use go_rcp.Base.Bytes.{AllBytes, put_be, get_be, length-put_be, get_be-put_be}
use go_rcp.Avtp.{StreamId, IsStreamId}
use go_rcp.Acf.{Message}
use go_rcp.E2e.{
  len, compute, pad_len_for, protect, zeros, all_zero, max_pad, recover_protected, verify,
}
use go_rcp.E2e.Bounds.{compute-lt}
use go_rcp.E2e.Recover.{
  IsFound, cut_at, rest_at, recover_protected-IsFound, recover_protected_finds,
}

all_zero-replicate : (n : ℕ) → all_zero (zeros n) ≡ true
all_zero-replicate zero = refl
all_zero-replicate (suc n) = all_zero-replicate n

replicate-all_zero : (xs : List ℕ) → all_zero xs ≡ true → xs ≡ zeros (length xs)
replicate-all_zero [] h = refl
replicate-all_zero (x ∷ xs) h =
    let first : x ≡ 0 = ground (arith, h, ==_iff x 0) in
    let rest : xs ≡ zeros (length xs) = replicate-all_zero xs (ground (arith, h)) in
    rw first (ap (λ t. 0 ∷ t) rest)

length-zeros : (n : ℕ) → length (zeros n) ≡ n
length-zeros n = length-replicate n _

pub drop_all : (n : ℕ) (xs : List ℕ) → length xs ≤ n → drop n xs ≡ []
drop_all zero [] h = refl
drop_all zero (x ∷ xs) h = absurd (omega arith)
drop_all (suc n) [] h = refl
drop_all (suc n) (x ∷ xs) h = drop_all n xs (omega arith)

pub take_past : (n : ℕ) (xs ys : List ℕ) → take (length xs + n) (xs ++ ys) ≡ xs ++ take n ys
take_past n [] ys = ap (λ k. take k ys) {x = 0 + n} {y = n} (omega arith)
take_past n (x ∷ xs) ys =
    ap (λ k. take k (x ∷ xs ++ ys)) {x = suc (length xs) + n} {y = suc (length xs + n)}
      (omega arith)
    ∙ ap (λ t. x ∷ t) (take_past n xs ys)

take-replicate : (n k : ℕ) → n ≤ k → take n (zeros k) ≡ zeros n
take-replicate zero k h = refl
take-replicate (suc n) zero h = absurd (omega arith)
take-replicate (suc n) (suc k) h = ap (λ t. 0 ∷ t) (take-replicate n k (omega arith))

-- At most three bytes, and no more than there are, are pad bytes.
IsFound-whole :
    (w : List ℕ) (got : ℕ) (crc : List ℕ → ℕ) (real : List ℕ)
    → (f : IsFound w got crc 0 (max_pad w + 1) real) → (f.pads ≤ 3) × (w ≡ real ++ zeros f.pads)
IsFound-whole w got crc real f =
    let fits : (f.pads ≤ 3) × (f.pads ≤ length w) = ground (arith, f.under) in
    let len_rest : length (rest_at w f.pads) ≡ f.pads =
      omega (arith, length-drop (length w - f.pads) w, fits.1) in
    let tail : rest_at w f.pads ≡ zeros f.pads = elim f.zeros [
      | inl none_there ↦
          drop_all (length w - f.pads) w (omega (arith, none_there))
          ∙ ap (λ n. zeros n) (sym none_there)
      | inr blank ↦ replicate-all_zero (rest_at w f.pads) blank ∙ ap (λ n. zeros n) len_rest
    ] in
    (
      fits.0,
      sym (take-append-drop (length w - f.pads) w)
          ∙ (ap (λ t. cut_at w f.pads ++ t) tail ∙ ap (λ t. t ++ zeros f.pads) (sym f.cut)),
    )

-- A body in front of its pad bytes and its safe point.
pub record IsProtected (stream : StreamId) (m inner : Message) : Type 0 where
  pub pads : ℕ
  pub trailer : List ℕ
  pub few : pads ≤ 3
  pub four : length trailer ≡ 4
  pub header : inner ≡ record m { body = inner.body }
  pub body : m.body ≡ inner.body ++ (zeros pads ++ trailer)
  pub safe_point : get_be trailer ≡ compute stream inner

-- A message that `verify` accepts ends with the safe point of the message that it returns, which has the
-- same header, behind at most three zero bytes.
pub verify-IsProtected :
    (stream : StreamId) (m inner : Message)
    → verify stream m ≡ ok inner
    → IsProtected stream m inner
unfolding verify
verify-IsProtected stream m inner e = elim (Bool-cases (ltb (length m.body) len)) [
  | inl short ↦ absurd (let bad : err _ ≡ ok inner = rw short at e in cc)
  | inr room ↦
      let w : List ℕ = take (length m.body - len) m.body in
      let got : ℕ = get_be (drop (length m.body - len) m.body) in
      let crc : List ℕ → ℕ = λ candidate. compute stream (record m { body = candidate }) in
      elim (Option-cases (recover_protected w got crc)) [
        | inl missing ↦ absurd (let bad : err _ ≡ ok inner = rw (room, missing) at e in cc)
        | inr (real, found) ↦
            let value : ok (record m { body = real }) ≡ ok inner = rw (room, found) at e in
            let same : record m { body = real } ≡ inner = cc in
            let f = recover_protected-IsFound w got crc real found in
            let (few, whole) = IsFound-whole w got crc real f in
            rw (← same) (record {
              pads = f.pads;
              trailer = drop (length m.body - len) m.body;
              few = few;
              four = ground (arith, length-drop (length m.body - len) m.body, room);
              header = refl;
              body =
                  sym (take-append-drop (length m.body - len) m.body)
                  ∙ (ap (λ t. t ++ drop (length m.body - len) m.body) whole
                      ∙ append_assoc real (zeros f.pads) _);
              safe_point = sym f.matches;
            })
      ]
]

-- `verify` of a body whose last four bytes are set apart.
verify_cut :
    (stream : StreamId) (m : Message) (w trailer real : List ℕ)
    → m.body ≡ w ++ trailer
    → length trailer ≡ 4
    → recover_protected w
        (get_be trailer)
        (λ candidate. compute stream (record m { body = candidate }))
      ≡ some real
    → verify stream m ≡ ok (record m { body = real })
unfolding verify
verify_cut stream m w trailer real e four found =
    let total : length m.body ≡ length w + 4 =
      omega (arith, ap length e, length-append w trailer, four) in
    let room : ltb (length m.body) len ≡ false = ground (arith, total) in
    let cut : length m.body - len ≡ length w = omega (arith, total) in
    let front : take (length w) m.body ≡ w = rw e (take-append w trailer (length w) refl) in
    let back : drop (length w) m.body ≡ trailer = rw e (drop-append w trailer (length w) refl) in
    rw (room, cut, front, back, found) refl

module _ (stream : StreamId) (m : Message) (id : IsStreamId stream) (w : AllBytes m.body) where
  abbrev pads_of : ℕ
  pads_of = pad_len_for (length m.body)

  abbrev padded : List ℕ
  padded = m.body ++ zeros pads_of

  pads_few : pads_of ≤ 3
  unfolding pad_len_for
  pads_few = omega arith

  length-padded : length padded ≡ length m.body + pads_of
  length-padded = omega (arith, length-append m.body (zeros pads_of), length-zeros pads_of)

  body-protect : (protect stream m).body ≡ padded ++ put_be 4 (compute stream m)
  unfolding protect
  body-protect = sym (append_assoc m.body (zeros pads_of) (put_be len (compute stream m)))

  cut_padded : (j : ℕ) → j ≤ pads_of → cut_at padded j ≡ m.body ++ zeros (pads_of - j)
  cut_padded j h =
      ap (λ n. take n padded) {x = length padded - j} {y = length m.body + (pads_of - j)}
        (omega (arith, length-padded, h))
      ∙ (take_past (pads_of - j) m.body (zeros pads_of)
          ∙ ap (λ t. m.body ++ t) (take-replicate (pads_of - j) pads_of (omega arith)))

  cut_body : cut_at padded pads_of ≡ m.body
  cut_body =
      cut_padded pads_of (omega arith)
      ∙ (ap (λ n. m.body ++ zeros n) {x = pads_of - pads_of} {y = 0} (omega arith)
          ∙ append-nil m.body)

  rest_padded : all_zero (rest_at padded pads_of) ≡ true
  rest_padded =
      ap all_zero (
        ap (λ n. drop n padded) {x = length padded - pads_of} {y = length m.body}
          (omega (arith, length-padded))
        ∙ drop-append m.body (zeros pads_of) (length m.body) refl)
      ∙ all_zero-replicate pads_of

  -- `verify` accepts what `protect` sends for a message whose body is of bytes, on a stream id of eight
  -- bytes: it returns the message, its body followed by at most as many zero bytes as the padding
  -- has, and by one or more only where that longer body has the very same safe point.
  pub verify-protect :
      (extra : ℕ) × (extra ≤ pad_len_for (length m.body))
      × (verify stream (protect stream m) ≡ ok (record m { body = m.body ++ zeros extra }))
      × (compute stream (record m { body = m.body ++ zeros extra }) ≡ compute stream m)
  unfolding protect
  verify-protect =
      let crc : List ℕ → ℕ = λ candidate. compute stream (record m { body = candidate }) in
      let trailer : get_be (put_be 4 (compute stream m)) ≡ compute stream m =
        get_be-put_be 4 (compute stream m) (compute-lt stream m id.bytes w) in
      let (real, found, f) =
        recover_protected_finds padded (get_be (put_be 4 (compute stream m))) crc pads_of
          (ground (arith, pads_few, length-padded)) rest_padded (ap crc cut_body ∙ sym trailer) in
      let few : f.pads ≤ pads_of = omega (arith, f.under) in
      let shape : real ≡ m.body ++ zeros (pads_of - f.pads) = f.cut ∙ cut_padded f.pads few in
      (
        pads_of - f.pads,
        omega arith,
        verify_cut stream (protect stream m) padded (put_be 4 (compute stream m)) real body-protect
              (length-put_be 4 (compute stream m)) found
            ∙ ap (λ b. ok (record m { body = b })) shape,
        ap crc (sym shape) ∙ (f.matches ∙ trailer),
      )
