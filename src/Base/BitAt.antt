-- ===== src/Base/BitAt.antt =====
-- The single bits of a number, and those of `&`, `|`, `^` and `&^` of two numbers.
use Prim.Native.Nat.{
  ℕ, zero, suc, ◌+◌, ◌-◌, ◌*◌, ◌/◌, ◌%◌, ◌^◌, ◌≤◌, ◌<◌, max, min, bit_and, bit_or, bit_xor, digits,
  differ, bit_and-bitwise, bit_or-bitwise, bit_xor-bitwise,
}
use native.Mathlib.Nat.{pow-suc, one-le-pow}
use mathlib.Core.Path.{◌≡◌, refl, ap, ◌∙◌, sym}
use native.Mathlib.Omega.{arith}
use go_rcp.Base.Tests.{ltb, if◌then◌else◌}

-- Bit `k` of `a`.
abbrev pub bit_at : ℕ → ℕ → ℕ
bit_at a zero = a % 2
bit_at a (suc k) = bit_at (a / 2) k

-- An operation on the digits, `g` on two of them and `z` once the first number has run out.
module _ (z : ℕ → ℕ) (g : ℕ → ℕ → ℕ) where
  -- Any count of digits that is enough gives the same.
  enough_digits : (n m a b : ℕ) → a ≤ n → a ≤ m → digits z g n a b ≡ digits z g m a b
  enough_digits n m zero b p q = run_out n ∙ sym (run_out m)
    where
      run_out : (n : ℕ) → digits z g n zero b ≡ z b
      run_out zero = refl
      run_out (suc n) = refl
  enough_digits zero m (suc a) b p q = absurd (omega arith)
  enough_digits (suc n) zero (suc a) b p q = absurd (omega arith)
  enough_digits (suc n) (suc m) (suc a) b p q =
      ap (λ (t : ℕ). t * 2 + g (suc a % 2) (b % 2))
        (enough_digits n m (suc a / 2) (b / 2) (omega arith) (omega arith))

  -- The lowest digit of the result is that of the lowest digits, the rest that of the halves.
  digits_halve :
      ((b : ℕ) → z b ≡ z (b / 2) * 2 + g 0 (b % 2))
      → (a b : ℕ) → digits z g a a b ≡ digits z g (a / 2) (a / 2) (b / 2) * 2 + g (a % 2) (b % 2)
  digits_halve ends zero b = ends b
  digits_halve ends (suc a) b =
      ap (λ (t : ℕ). t * 2 + g (suc a % 2) (b % 2))
        (enough_digits a (suc a / 2) (suc a / 2) (b / 2) (omega arith) (omega arith))

bit_and_halve : (a b : ℕ) → bit_and a b ≡ bit_and (a / 2) (b / 2) * 2 + min (a % 2) (b % 2)
bit_and_halve a b = omega (
  arith,
  bit_and-bitwise a b,
  bit_and-bitwise (a / 2) (b / 2),
  digits_halve (λ (b : ℕ). zero) min (λ (b : ℕ). omega arith) a b,
)

bit_or_halve : (a b : ℕ) → bit_or a b ≡ bit_or (a / 2) (b / 2) * 2 + max (a % 2) (b % 2)
bit_or_halve a b = omega (
  arith,
  bit_or-bitwise a b,
  bit_or-bitwise (a / 2) (b / 2),
  digits_halve (λ (b : ℕ). b) max (λ (b : ℕ). omega arith) a b,
)

bit_xor_halve : (a b : ℕ) → bit_xor a b ≡ bit_xor (a / 2) (b / 2) * 2 + differ (a % 2) (b % 2)
bit_xor_halve a b = omega (
  arith,
  bit_xor-bitwise a b,
  bit_xor-bitwise (a / 2) (b / 2),
  digits_halve (λ (b : ℕ). b) differ (λ (b : ℕ). omega arith) a b,
)

pub bit_at-and : (a b k : ℕ) → bit_at (bit_and a b) k ≡ min (bit_at a k) (bit_at b k)
bit_at-and a b zero = omega (arith, bit_and_halve a b)
bit_at-and a b (suc k) =
    let half : bit_and a b / 2 ≡ bit_and (a / 2) (b / 2) = omega (arith, bit_and_halve a b) in
    rw half (bit_at-and (a / 2) (b / 2) k)

pub bit_at-or : (a b k : ℕ) → bit_at (bit_or a b) k ≡ max (bit_at a k) (bit_at b k)
bit_at-or a b zero = omega (arith, bit_or_halve a b)
bit_at-or a b (suc k) =
    let half : bit_or a b / 2 ≡ bit_or (a / 2) (b / 2) = omega (arith, bit_or_halve a b) in
    rw half (bit_at-or (a / 2) (b / 2) k)

differ_digits : (x y : ℕ) → x < 2 → y < 2 → differ x y ≡ (x + y) % 2
differ_digits zero y h l = omega arith
differ_digits (suc zero) zero h l = omega arith
differ_digits (suc zero) (suc zero) h l = omega arith
differ_digits (suc zero) (suc (suc y)) h l = absurd (omega arith)
differ_digits (suc (suc x)) y h l = absurd (omega arith)

pub bit_at-lt : (a k : ℕ) → bit_at a k < 2
bit_at-lt a zero = omega arith
bit_at-lt a (suc k) = bit_at-lt (a / 2) k

pub bit_at-xor : (a b k : ℕ) → bit_at (bit_xor a b) k ≡ (bit_at a k + bit_at b k) % 2
bit_at-xor a b zero =
    omega (arith, bit_xor_halve a b, differ_digits (a % 2) (b % 2) (omega arith) (omega arith))
bit_at-xor a b (suc k) =
    let d = differ_digits (a % 2) (b % 2) (omega arith) (omega arith) in
    let half : bit_xor a b / 2 ≡ bit_xor (a / 2) (b / 2) = omega (arith, bit_xor_halve a b, d) in
    rw half (bit_at-xor (a / 2) (b / 2) k)

-- `x &^ y`
abbrev pub and_not : ℕ → ℕ → ℕ
and_not a b = bit_xor a (bit_and a b)

pub bit_at-and_not : (a b k : ℕ) → bit_at (and_not a b) k ≡ min (bit_at a k) (1 - bit_at b k)
bit_at-and_not a b k =
    omega (arith, bit_at-xor a (bit_and a b) k, bit_at-and a b k, bit_at-lt a k, bit_at-lt b k)

-- Numbers with the same bits are equal.
pub eq_of_bits_fuel : (n a b : ℕ) → a ≤ n → b ≤ n → ((k : ℕ) → bit_at a k ≡ bit_at b k) → a ≡ b
eq_of_bits_fuel zero a b h l same = omega arith
eq_of_bits_fuel (suc n) a b h l same = omega (
  arith,
  same 0,
  eq_of_bits_fuel n (a / 2) (b / 2) (omega arith) (omega arith) (λ k. same (suc k)),
)

pub bit_at-zero : (k : ℕ) → bit_at 0 k ≡ 0
bit_at-zero zero = refl
bit_at-zero (suc k) = bit_at-zero k

-- A number of `n` bits has no bit from `n` on, and the other way round.
pub bit_at-high : (n a k : ℕ) → a < 2 ^ n → n ≤ k → bit_at a k ≡ 0
bit_at-high zero a k h l = let none_left : a ≡ 0 = omega arith in rw none_left (bit_at-zero k)
bit_at-high (suc n) a zero h l = absurd (omega arith)
bit_at-high (suc n) a (suc k) h l =
    bit_at-high n (a / 2) k (omega (arith, pow-suc 2 n)) (omega arith)

lt_of_high_fuel : (m n a : ℕ) → a ≤ m → ((k : ℕ) → n ≤ k → bit_at a k ≡ 0) → a < 2 ^ n
lt_of_high_fuel zero n a l h = omega (arith, one-le-pow n 2)
lt_of_high_fuel (suc m) zero a l h = omega (
  arith,
  h 0 (omega arith),
  lt_of_high_fuel m zero (a / 2) (omega arith) (λ k p. h (suc k) (omega arith)),
)
lt_of_high_fuel (suc m) (suc n) a l h =
    omega (
      arith,
      pow-suc 2 n,
      lt_of_high_fuel m n (a / 2) (omega arith) (λ k p. h (suc k) (omega arith)),
    )

pub lt_of_high : (n a : ℕ) → ((k : ℕ) → n ≤ k → bit_at a k ≡ 0) → a < 2 ^ n
lt_of_high n a h = lt_of_high_fuel a n a (omega arith) h

-- The mask of `n` ones.
pub bit_at-ones : (n m k : ℕ) → m + 1 ≡ 2 ^ n → bit_at m k ≡ (if ltb k n then 1 else 0)
bit_at-ones zero m k h =
    let no_bits : m ≡ 0 = omega arith in rw no_bits (ground (arith, bit_at-zero k))
bit_at-ones (suc n) m zero h = ground (arith, pow-suc 2 n, one-le-pow n 2)
bit_at-ones (suc n) m (suc k) h =
    ground (arith, bit_at-ones n (m / 2) k (omega (arith, pow-suc 2 n, one-le-pow n 2)))
