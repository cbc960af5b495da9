-- ===== src/Fragment/Split.antt =====
-- What `split` makes of a message.
use native.Mathlib.Nat.{div-add-mod, mod-lt}
use go_rcp.Base.{
  ℕ, zero, suc, ◌+◌, ◌-◌, ◌*◌, ◌/◌, ◌%◌, ◌≤◌, ◌<◌, bit_and, bit_or, ◌≡◌, refl, ap, ◌∙◌, false, List,
  [], ◌∷◌, ◌++◌, append-nil, length, take, drop, take-append-drop, drop-drop, length-take, All, ok,
  arith, ◌⊎◌, inl, inr,
}
use go_rcp.Base.Bits.{agree_below, agree_below→eq}
use go_rcp.Acf.{Message, has, flag_more_segments}
use go_rcp.Fragment.{segment, segments, segment_count, split}

pub record SameDescriptor (m s : Message) : Type 0 where
  pub kind : s.kind ≡ m.kind
  pub byte_bus_id : s.byte_bus_id ≡ m.byte_bus_id
  pub transaction_num : s.transaction_num ≡ m.transaction_num
  pub timestamp : s.timestamp ≡ m.timestamp

-- The segments of `m` from the i-th on, in order: all but the last carry the flag and their number,
-- and the last has the flags and the size of `m`.
abbrev pub IsRun : Message → ℕ → List Message → Type 0
IsRun m i [] = ⊥
IsRun m i (s ∷ []) =
    SameDescriptor m s × (s.control ≡ m.control) × (s.read_size_or_segment ≡ m.read_size_or_segment)
IsRun m i (s ∷ t ∷ rest) =
    SameDescriptor m s
    × (s.control ≡ bit_or m.control flag_more_segments)
    × (s.read_size_or_segment ≡ i)
    × IsRun m (suc i) (t ∷ rest)

unfoldable pub joined : List Message → List ℕ
joined [] = []
joined (s ∷ rest) = s.body ++ joined rest

pub set_table : (c : ℕ) → c < 256 → bit_and c 8 ≡ c / 8 % 2 * 8
unfolding agree_below
set_table = agree_below→eq _ _ 256 refl

pub clear_table : (c : ℕ) → c < 256 → bit_and c 247 ≡ c - c / 8 % 2 * 8
unfolding agree_below
clear_table = agree_below→eq _ _ 256 refl

-- As many segments as needed, and no more.
segment_count_bounds :
    (m : Message) (k : ℕ)
    → 0 < length m.body
    → (length m.body ≤ segment_count m (suc k) * suc k)
      × (segment_count m (suc k) * suc k < length m.body + suc k)
segment_count_bounds m k h = grind (
  arith,
  div-add-mod (length m.body + suc k - 1) (suc k),
  mod-lt (length m.body + suc k - 1) {m = suc k},
)

drop_past : (n : ℕ) (xs : List ℕ) → length xs ≤ n → drop n xs ≡ []
drop_past zero [] h = refl
drop_past zero (x ∷ xs) h = absurd (omega arith)
drop_past (suc n) [] h = refl
drop_past (suc n) (x ∷ xs) h = drop_past n xs (omega arith)

module _ (m : Message) (max_body n : ℕ) where
  joined-segments :
      (k i : ℕ)
      → i + k ≡ n
      → length m.body ≤ n * max_body
      → joined (segments m max_body n k i) ≡ drop (i * max_body) m.body
  unfolding joined segments segment
  joined-segments zero i e h =
      rw (drop_past (i * max_body) m.body (omega (arith, ap (λ (t : ℕ). t * max_body) e))) refl
  joined-segments (suc k) i e h =
      ap (λ t. take max_body (drop (i * max_body) m.body) ++ t)
        (joined-segments k (suc i) (omega arith) h)
      ∙ rw (← step) (take-append-drop max_body (drop (i * max_body) m.body))
    where
      step : drop max_body (drop (i * max_body) m.body) ≡ drop (suc i * max_body) m.body
      step = drop-drop max_body (i * max_body) m.body ∙ ap (λ t. drop t m.body) (omega arith)

  bodies_short : (k i : ℕ) → All (λ s. length s.body ≤ max_body) (segments m max_body n k i)
  unfolding segments segment
  bodies_short zero i = tt
  bodies_short (suc k) i =
      (omega (arith, length-take max_body (drop (i * max_body) m.body)), bodies_short k (suc i))

  segments-IsRun :
      (k i : ℕ)
      → i + suc k ≡ n
      → has m.control flag_more_segments ≡ false
      → m.control < 256
      → IsRun m i (segments m max_body n (suc k) i)
  unfolding segments segment has
  segments-IsRun zero i e f c = (
    record { kind = refl; byte_bus_id = refl; transaction_num = refl; timestamp = refl },
    ground (arith, set_table m.control, clear_table m.control),
    ground arith,
  )
  segments-IsRun (suc k) i e f c = (
    record { kind = refl; byte_bus_id = refl; transaction_num = refl; timestamp = refl },
    ground arith,
    ground arith,
    segments-IsRun k (suc i) (omega arith) f c,
  )

length-segments : (m : Message) (max_body n k i : ℕ) → length (segments m max_body n k i) ≡ k
unfolding segments
length-segments m max_body n zero i = refl
length-segments m max_body n (suc k) i = ap suc (length-segments m max_body n k (suc i))

pub record Cut (m : Message) (max_body : ℕ) (segs : List Message) : Type 0 where
  pub run : IsRun m 0 segs
  pub whole : joined segs ≡ m.body
  pub short : All (λ s. length s.body ≤ max_body) segs
  pub minimal : (segs ≡ m ∷ []) ⊎ ((length segs - 1) * max_body < length m.body)

Cut-many :
    (m : Message) (k n : ℕ)
    → m.control < 256
    → has m.control flag_more_segments ≡ false
    → suc k < length m.body
    → segment_count m (suc k) ≡ suc n
    → Cut m (suc k) (segments m (suc k) (suc n) (suc n) 0)
Cut-many m k n c f l e = record {
  run = segments-IsRun m (suc k) (suc n) n 0 (omega arith) f c;
  whole =
      joined-segments m (suc k) (suc n) (suc n) 0 (omega arith)
        (rw e at ((segment_count_bounds m k (omega arith)).0))
      ∙ ap (λ t. drop t m.body) {x = 0 * suc k} {y = 0} (omega arith);
  short = bodies_short m (suc k) (suc n) (suc n) 0;
  minimal = inr (rw length-segments (few (rw e at ((segment_count_bounds m k (omega arith)).1))));
}
  where
    few : suc n * suc k < length m.body + suc k → (suc n - 1) * suc k < length m.body
    few h = grind (arith, h)

Cut-one : (m : Message) (max_body : ℕ) → length m.body ≤ max_body → Cut m max_body (m ∷ [])
unfolding joined
Cut-one m max_body h = record {
  run = (
    record { kind = refl; byte_bus_id = refl; transaction_num = refl; timestamp = refl },
    refl,
    refl,
  );
  whole = append-nil m.body;
  short = (h, tt);
  minimal = inl refl;
}

count_positive :
    (m : Message) (k : ℕ) → suc k < length m.body → (n : ℕ) × (segment_count m (suc k) ≡ suc n)
count_positive m k h = go (segment_count m (suc k)) refl
  where
    go : (c : ℕ) → segment_count m (suc k) ≡ c → (n : ℕ) × (segment_count m (suc k) ≡ suc n)
    go zero e = absurd (omega (arith, rw e at ((segment_count_bounds m k (omega arith)).0)))
    go (suc n) e = (n, e)

pub split-eq-ok :
    (m : Message) (max_body : ℕ) (segs : List Message)
    → split m max_body ≡ ok segs
    → (0 < max_body)
      × (has m.control flag_more_segments ≡ false)
      × (((length m.body ≤ max_body) × (segs ≡ m ∷ []))
          ⊎ ((max_body < length m.body)
              × (segs
                  ≡ segments m max_body (segment_count m max_body) (segment_count m max_body) 0)))
unfolding split
split-eq-ok m max_body segs e = ground arith

-- What `split` returns is a run of segments of the message, whose bodies are each within the limit and make up
-- the message's body. It is the message itself, or one segment less could not hold that body.
pub split-Cut :
    (m : Message) (max_body : ℕ) (segs : List Message)
    → m.control < 256
    → split m max_body ≡ ok segs
    → Cut m max_body segs
split-Cut m zero segs c e = absurd (omega (arith, (split-eq-ok m zero segs e).0))
split-Cut m (suc k) segs c e =
    let (_, f, which) = split-eq-ok m (suc k) segs e in
    elim which [
      | inl (short, eq) ↦ rw eq (Cut-one m (suc k) short)
      | inr (long, eq) ↦
          let (n, count) = count_positive m k long in rw (eq, count) (Cut-many m k n c f long count)
    ]
