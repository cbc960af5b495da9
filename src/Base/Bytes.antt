-- ===== src/Base/Bytes.antt =====
-- Byte strings, and the big-endian fields of encoding/binary.
use Prim.Native.Nat.{ℕ, zero, suc, ◌+◌, ◌*◌, ◌/◌, ◌%◌, ◌^◌, ◌≤◌, ◌<◌}
use mathlib.Core.Path.{◌≡◌, refl, ◌∙◌, ap}
use mathlib.Core.List.{List, [], ◌∷◌, ◌++◌}
use native.Mathlib.Omega.{arith}
use native.Mathlib.Nat.{pow-suc}
use go_rcp.Base.Lists.{
  length, length-append, length-take, length-drop, take, drop, get_or, All, All-append, All-take,
  All-drop,
}

abbrev pub IsByte : ℕ → Type 0
IsByte b = b < 256

abbrev pub AllBytes : List ℕ → Type 0
AllBytes = All IsByte

-- `binary.BigEndian.PutUint16` and its like write these n bytes.
unfoldable pub put_be : ℕ → ℕ → List ℕ
put_be zero v = []
put_be (suc n) v = put_be n (v / 256) ++ (v % 256 ∷ [])

get_be_from : ℕ → List ℕ → ℕ
get_be_from acc [] = acc
get_be_from acc (b ∷ bs) = get_be_from (acc * 256 + b) bs

-- `binary.BigEndian.Uint16` and its like, on a slice of exactly that many bytes.
unfoldable pub get_be : List ℕ → ℕ
unfolding get_be_from
get_be bs = get_be_from 0 bs

pub length-put_be : (n v : ℕ) → length (put_be n v) ≡ n
unfolding put_be
length-put_be zero v = refl
length-put_be (suc n) v =
    omega (arith, length-append (put_be n (v / 256)) (v % 256 ∷ []), length-put_be n (v / 256))

pub put_be-AllBytes : (n v : ℕ) → AllBytes (put_be n v)
unfolding put_be
put_be-AllBytes zero v = tt
put_be-AllBytes (suc n) v =
    All-append IsByte (put_be n (v / 256)) (v % 256 ∷ []) (put_be-AllBytes n (v / 256))
      (omega arith)

get_be_from-append :
    (acc : ℕ) (xs : List ℕ) (b : ℕ)
    → get_be_from acc (xs ++ (b ∷ [])) ≡ get_be_from acc xs * 256 + b
unfolding get_be_from
get_be_from-append acc [] b = refl
get_be_from-append acc (x ∷ xs) b = get_be_from-append (acc * 256 + x) xs b

-- A number that fits n bytes is read back.
pub get_be-put_be : (n v : ℕ) → v < 256 ^ n → get_be (put_be n v) ≡ v
unfolding get_be put_be
get_be-put_be zero v h = omega arith
get_be-put_be (suc n) v h =
    get_be_from-append 0 (put_be n (v / 256)) (v % 256)
    ∙ omega (arith, get_be-put_be n (v / 256) (omega (arith, pow-suc 256 n)))

get_be_from-lt :
    (acc : ℕ) (bs : List ℕ) (m : ℕ)
    → AllBytes bs
    → acc < m
    → get_be_from acc bs < m * 256 ^ length bs
unfolding get_be_from
get_be_from-lt acc [] m h k = omega arith
get_be_from-lt acc (b ∷ bs) m (hb, h) k = omega (
  arith,
  pow-suc 256 (length bs),
  ap (λ (t : ℕ). m * t) (pow-suc 256 (length bs)),
  get_be_from-lt (acc * 256 + b) bs (m * 256) h (omega arith),
)

pub get_be-lt : (bs : List ℕ) → AllBytes bs → get_be bs < 256 ^ length bs
unfolding get_be
get_be-lt bs h = omega (arith, get_be_from-lt 0 bs 1 h (omega arith))

-- A field of n bytes at offset i, and a single byte.
pub field_at-lt :
    (b : List ℕ) (n i : ℕ) → n + i ≤ length b → AllBytes b → get_be (take n (drop i b)) < 256 ^ n
field_at-lt b n i h w =
    rw length-take-eq at
      (get_be-lt (take n (drop i b)) (All-take IsByte n (drop i b) (All-drop IsByte i b w)))
  where
    length-take-eq : length (take n (drop i b)) ≡ n
    length-take-eq = omega (arith, length-take n (drop i b), length-drop i b)

pub get_or-lt : (b : List ℕ) (i : ℕ) → AllBytes b → get_or b i 0 < 256
get_or-lt [] i w = omega arith
get_or-lt (x ∷ xs) zero w = w.0
get_or-lt (x ∷ xs) (suc i) w = get_or-lt xs i w.1
