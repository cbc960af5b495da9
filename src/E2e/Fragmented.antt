-- ===== src/E2e/Fragmented.antt =====
-- A safe point over a message that came in several segments.
use go_rcp.Base.{
  ℕ, zero, suc, ◌+◌, ◌-◌, ◌≤◌, ◌≡◌, refl, sym, ap, ◌∙◌, Bool, true, false, not, ◌&&◌, Option, none,
  some, List, [], ◌∷◌, ◌++◌, append_assoc, append-nil, length, take, drop, take-append,
  length-append, length-take, ltb, ◌==◌, arith, if◌then◌else◌, ok, err, crc_mismatch,
}
use go_rcp.Base.Bytes.{get_be}
use go_rcp.Avtp.{StreamId}
use go_rcp.Acf.{Message}
use go_rcp.E2e.{
  compute, compute_fragmented, joined_bodies, all_zero, try_pads, recover_protected, verify,
  init_bodies, last_body, verify_fragmented,
}
use go_rcp.E2e.Protected.{take_past}

drop_past : (n : ℕ) (xs ys : List ℕ) → drop (length xs + n) (xs ++ ys) ≡ drop n ys
drop_past n [] ys = ap (λ k. drop k ys) {x = 0 + n} {y = n} (omega arith)
drop_past n (x ∷ xs) ys =
    ap (λ k. drop k (x ∷ xs ++ ys)) {x = suc (length xs) + n} {y = suc (length xs + n)}
      (omega arith)
    ∙ drop_past n xs ys

last_body-append :
    (earlier : List (List ℕ)) (last : List ℕ) → last_body (earlier ++ (last ∷ [])) ≡ last
last_body-append [] last = refl
last_body-append (b ∷ []) last = refl
last_body-append (b ∷ c ∷ bs) last = last_body-append (c ∷ bs) last

init_bodies-append :
    (earlier : List (List ℕ)) (last : List ℕ) → init_bodies (earlier ++ (last ∷ [])) ≡ earlier
init_bodies-append earlier last =
    take-append earlier (last ∷ []) (length (earlier ++ (last ∷ [])) - 1)
      (omega (arith, length-append earlier (last ∷ [])))

joined_bodies-append :
    (earlier : List (List ℕ)) (last : List ℕ)
    → joined_bodies (earlier ++ (last ∷ [])) ≡ joined_bodies earlier ++ last
unfolding joined_bodies
joined_bodies-append [] last = append-nil last
joined_bodies-append (b ∷ bs) last =
    ap (λ t. b ++ t) (joined_bodies-append bs last) ∙ sym (append_assoc b (joined_bodies bs) last)

abbrev behind : List ℕ → Option (List ℕ) → Option (List ℕ)
behind j none = none
behind j (some c) = some (j ++ c)

-- The search behind some more bytes.
try_pads-behind :
    (j w : List ℕ) (got : ℕ) (crc inner : List ℕ → ℕ) (k pad : ℕ)
    → ((c : List ℕ) → inner c ≡ crc (j ++ c))
    → pad + k ≤ length w + 1
    → try_pads (j ++ w) got crc k pad ≡ behind j (try_pads w got inner k pad)
unfolding try_pads
try_pads-behind j w got crc inner zero pad same fits = refl
try_pads-behind j w got crc inner (suc k) pad same fits =
    let at : length (j ++ w) - pad ≡ length j + (length w - pad) =
      omega (arith, length-append j w, fits) in
    let cut : take (length (j ++ w) - pad) (j ++ w) ≡ j ++ take (length w - pad) w =
      ap (λ n. take n (j ++ w)) at ∙ take_past (length w - pad) j w in
    let rest : drop (length (j ++ w) - pad) (j ++ w) ≡ drop (length w - pad) w =
      ap (λ n. drop n (j ++ w)) at ∙ drop_past (length w - pad) j w in
    let more = try_pads-behind j w got crc inner k (suc pad) same (omega (arith, fits)) in
    let here : crc (take (length (j ++ w) - pad) (j ++ w)) ≡ inner (take (length w - pad) w) =
      ap crc cut ∙ sym (same _) in
    rw (rest, here, cut, more)
      (spread (ltb 0 pad && not (all_zero (drop (length w - pad) w)))
        (inner (take (length w - pad) w) == got) (take (length w - pad) w)
        (try_pads w got inner k (suc pad)))
  where
    spread :
        (skip match : Bool) (c : List ℕ) (found : Option (List ℕ))
        → (if skip then behind j found else if match then some (j ++ c) else behind j found)
          ≡ behind j (if skip then found else if match then some c else found)
    spread true match c found = refl
    spread false true c found = refl
    spread false false c found = refl

recover_protected-behind :
    (j w : List ℕ) (got : ℕ) (crc inner : List ℕ → ℕ)
    → ((c : List ℕ) → inner c ≡ crc (j ++ c))
    → 3 ≤ length w
    → recover_protected (j ++ w) got crc ≡ behind j (recover_protected w got inner)
unfolding recover_protected
recover_protected-behind j w got crc inner same room =
    let long : ltb (length (j ++ w)) 3 ≡ false = ground (arith, length-append j w, room) in
    let short : ltb (length w) 3 ≡ false = ground (arith, room) in
    rw (long, short) (try_pads-behind j w got crc inner (3 + 1) 0 same (omega (arith, room)))

-- Where the last segment has seven bytes or more, so that the pad bytes and the safe point are all in it,
-- checking the segments' bodies gives just what checking the joined body as one message gives: the same
-- message, or the same error.
pub verify_fragmented-verify :
    (stream : StreamId) (header : Message) (earlier : List (List ℕ)) (last : List ℕ)
    → 7 ≤ length last
    → verify_fragmented stream header (earlier ++ (last ∷ []))
      ≡ verify stream (record header { body = joined_bodies (earlier ++ (last ∷ [])) })
unfolding verify verify_fragmented compute_fragmented
verify_fragmented-verify stream header earlier last room =
    let j : List ℕ = joined_bodies earlier in
    let n : ℕ = length last - 4 in
    let w : List ℕ = take n last in
    let whole : joined_bodies (earlier ++ (last ∷ [])) ≡ j ++ last =
      joined_bodies-append earlier last in
    let at : length (j ++ last) - 4 ≡ length j + n = omega (arith, length-append j last, room) in
    let front : take (length (j ++ last) - 4) (j ++ last) ≡ j ++ w =
      ap (λ k. take k (j ++ last)) at ∙ take_past n j last in
    let back : drop (length (j ++ last) - 4) (j ++ last) ≡ drop n last =
      ap (λ k. drop k (j ++ last)) at ∙ drop_past n j last in
    let enough : ltb (length (j ++ last)) 4 ≡ false = ground (arith, length-append j last, room) in
    let enough_last : ltb (length last) 4 ≡ false = ground (arith, room) in
    let crc : List ℕ → ℕ = λ c. compute stream (record header { body = c }) in
    let inner : List ℕ → ℕ = λ c. compute_fragmented stream header (earlier ++ (c ∷ [])) in
    let found =
      recover_protected-behind j w (get_be (drop n last)) crc inner (inner_eq j)
        (omega (arith, length-take n last, room)) in
    rw
      (
        last_body-append,
        init_bodies-append earlier last,
        whole,
        enough,
        enough_last,
        front,
        back,
        found,
      )
      (answer (init_bodies (earlier ++ (last ∷ [])))
        (recover_protected w (get_be (drop n last)) inner) (init_bodies-append earlier last))
  where
    inner_eq :
        (j : List ℕ) (c : List ℕ)
        → compute_fragmented stream header (earlier ++ (c ∷ []))
          ≡ compute stream (record header { body = joined_bodies earlier ++ c })
    inner_eq j c =
        ap (λ b. compute stream (record header { body = b })) (joined_bodies-append earlier c)

    answer :
        (first : List (List ℕ)) (o : Option (List ℕ))
        → first ≡ earlier
        → (elim o [
          | none ↦ err crc_mismatch
          | some real ↦ ok (record header { body = joined_bodies (first ++ (real ∷ [])) })
        ])
          ≡ (elim (behind (joined_bodies earlier) o) [
            | none ↦ err crc_mismatch
            | some real ↦ ok (record header { body = real })
          ])
    answer first none e = refl
    answer first (some real) e =
        ap (λ bs. ok (record header { body = joined_bodies (bs ++ (real ∷ [])) })) e
        ∙ ap (λ b. ok (record header { body = b })) (joined_bodies-append earlier real)
