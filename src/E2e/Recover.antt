-- ===== src/E2e/Recover.antt =====
-- What `Verify` accepts, and what it gives back of what `Protect` sent.
use go_rcp.Base.{
  ℕ, zero, suc, ◌+◌, ◌-◌, ◌≤◌, ◌<◌, ◌≡◌, refl, sym, ◌∙◌, true, false, not, ◌&&◌, some, List, length,
  take, drop, ltb, ◌==◌, ==_iff, Bool-cases, ◌⊎◌, inl, inr, arith,
}
use go_rcp.E2e.{all_zero, try_pads, max_pad, recover_protected}

abbrev pub cut_at : List ℕ → ℕ → List ℕ
cut_at w pad = take (length w - pad) w

abbrev pub rest_at : List ℕ → ℕ → List ℕ
rest_at w pad = drop (length w - pad) w

-- A candidate that is accepted, between two numbers of pad bytes.
pub record IsFound (w : List ℕ) (got : ℕ) (crc : List ℕ → ℕ) (low high : ℕ) (real : List ℕ)
    : Type 0 where
  pub pads : ℕ
  pub above : low ≤ pads
  pub under : pads < high
  pub cut : real ≡ cut_at w pads
  pub zeros : (pads ≡ 0) ⊎ (all_zero (rest_at w pads) ≡ true)
  pub matches : crc real ≡ got

module _ (w : List ℕ) (got : ℕ) (crc : List ℕ → ℕ) where
  later-IsFound :
      {low high : ℕ} {real : List ℕ}
      → IsFound w got crc (suc low) high real
      → IsFound w got crc low high real
  later-IsFound f = record {
    pads = f.pads;
    above = omega (arith, f.above);
    under = f.under;
    cut = f.cut;
    zeros = f.zeros;
    matches = f.matches;
  }

  -- The candidate at hand.
  this-IsFound :
      (pad high : ℕ)
      → pad < high
      → (ltb 0 pad && not (all_zero (rest_at w pad))) ≡ false
      → (crc (cut_at w pad) == got) ≡ true
      → IsFound w got crc pad high (cut_at w pad)
  this-IsFound pad high small fits match = record {
    pads = pad;
    above = omega arith;
    under = small;
    cut = refl;
    zeros = elim (Bool-cases (ltb 0 pad)) [
      | inl some_pad ↦ inr (ground (arith, fits, some_pad))
      | inr no_pad ↦ inl (ground (arith, no_pad))
    ];
    matches = (==_iff (crc (cut_at w pad)) got).0 match;
  }

  try_pads-IsFound :
      (k pad : ℕ) (real : List ℕ)
      → try_pads w got crc k pad ≡ some real
      → IsFound w got crc pad (pad + k) real
  unfolding try_pads
  try_pads-IsFound zero pad real e = cc
  try_pads-IsFound (suc k) pad real e =
      let again : try_pads w got crc k (suc pad) ≡ some real
          → IsFound w got crc pad (pad + suc k) real =
        λ found. later-IsFound (
          let next = try_pads-IsFound k (suc pad) real found in
          record {
            pads = next.pads;
            above = next.above;
            under = omega (arith, next.under);
            cut = next.cut;
            zeros = next.zeros;
            matches = next.matches;
          }) in
      elim (Bool-cases (ltb 0 pad && not (all_zero (rest_at w pad)))) [
        | inl skip ↦ again (rw skip at e)
        | inr fits ↦ elim (Bool-cases (crc (cut_at w pad) == got)) [
          | inr miss ↦ again (rw (fits, miss) at e)
          | inl match ↦
              let value : some (cut_at w pad) ≡ some real = rw (fits, match) at e in
              let same : cut_at w pad ≡ real = cc in
              rw (← same) (this-IsFound pad (pad + suc k) (omega arith) fits match)
        ]
      ]

  -- A candidate that fits is found, or one with fewer pad bytes.
  try_pads_finds :
      (k pad j : ℕ)
      → pad ≤ j
      → j < pad + k
      → all_zero (rest_at w j) ≡ true
      → crc (cut_at w j) ≡ got
      → (real : List ℕ) × (try_pads w got crc k pad ≡ some real)
        × IsFound w got crc pad (suc j) real
  unfolding try_pads
  try_pads_finds zero pad j low high z m = absurd (omega (arith, low, high))
  try_pads_finds (suc k) pad j low high z m =
      elim (Bool-cases (ltb 0 pad && not (all_zero (rest_at w pad)))) [
        | inr fits ↦ elim (Bool-cases (crc (cut_at w pad) == got)) [
          | inl match ↦ (
            cut_at w pad,
            rw (fits, match) refl,
            this-IsFound pad (suc j) (omega arith) fits match,
          )
          | inr miss ↦
              let passed : pad < j = elim (Bool-cases (pad == j)) [
                | inl same ↦
                    let eq : pad ≡ j = (==_iff pad j).0 same in
                    absurd (
                      let bad : true ≡ false =
                        sym ((==_iff (crc (cut_at w pad)) got).1 (rw eq m)) ∙ miss in
                      cc)
                | inr apart ↦ ground (arith, apart, low)
              ] in
              let (real, found, f) =
                try_pads_finds k (suc pad) j passed (omega (arith, high)) z m in
              (real, rw (fits, miss) found, later-IsFound f)
        ]
        | inl skip ↦
            let passed : pad < j = elim (Bool-cases (pad == j)) [
              | inl same ↦
                  let eq : pad ≡ j = (==_iff pad j).0 same in
                  let zero_here : all_zero (rest_at w pad) ≡ true = rw eq z in
                  ground (arith, skip, zero_here)
              | inr apart ↦ ground (arith, apart, low)
            ] in
            let (real, found, f) = try_pads_finds k (suc pad) j passed (omega (arith, high)) z m in
            (real, rw skip found, later-IsFound f)
      ]

  pub recover_protected-IsFound :
      (real : List ℕ)
      → recover_protected w got crc ≡ some real
      → IsFound w got crc 0 (max_pad w + 1) real
  unfolding recover_protected
  recover_protected-IsFound real e =
      let f = try_pads-IsFound (max_pad w + 1) 0 real e in
      record {
        pads = f.pads;
        above = f.above;
        under = omega (arith, f.under);
        cut = f.cut;
        zeros = f.zeros;
        matches = f.matches;
      }

  pub recover_protected_finds :
      (j : ℕ)
      → j ≤ max_pad w
      → all_zero (rest_at w j) ≡ true
      → crc (cut_at w j) ≡ got
      → (real : List ℕ) × (recover_protected w got crc ≡ some real)
        × IsFound w got crc 0 (suc j) real
  unfolding recover_protected
  recover_protected_finds j h z m =
      try_pads_finds (max_pad w + 1) 0 j (omega arith) (omega (arith, h)) z m
