-- ===== src/Base/Bits.antt =====
-- Bit operations as arithmetic: tables over a byte's values, checked by evaluation, and `|` of two
-- fields that do not overlap, at every width.
use Prim.Native.Nat.{
  ℕ, zero, suc, ◌+◌, ◌*◌, ◌/◌, ◌%◌, ◌^◌, ◌≤◌, ◌<◌, max, min, bit_and, bit_or, bit_xor, digits,
  differ, bit_and-bitwise, bit_or-bitwise, bit_xor-bitwise,
}
use native.Mathlib.Nat.{pow-suc, le_refl, div-add-mod', mod-lt, one-le-pow}
use mathlib.Core.Path.{◌≡◌, refl, ap, ◌∙◌}
use mathlib.Core.Bool.{Bool, true, ◌&&◌}
use native.Mathlib.Omega.{arith}
use go_rcp.Base.Tests.{◌==◌, ==_iff}

all_below : ℕ → (ℕ → Bool) → Bool
all_below zero p = true
all_below (suc n) p = p n && all_below n p

all_below_at : (p : ℕ → Bool) (i n : ℕ) → i < n → all_below n p ≡ true → p i ≡ true
unfolding all_below
all_below_at p i zero small e = absurd (omega arith)
all_below_at p i (suc n) small e = ground (arith, all_below_at p i n)

module _ (f g : ℕ → ℕ) where
  unfoldable pub agree_below : ℕ → Bool
  unfolding all_below
  agree_below n = all_below n (λ i. f i == g i)

  pub agree_below→eq : (n : ℕ) → agree_below n ≡ true → (i : ℕ) → i < n → f i ≡ g i
  unfolding agree_below
  agree_below→eq n e i h = (==_iff (f i) (g i)).0 (all_below_at _ i n h e)

double_power : (q k : ℕ) → q * 2 ^ suc k ≡ q * 2 ^ k * 2
double_power q k = omega (arith, ap (λ (t : ℕ). q * t) (pow-suc 2 k))

-- The digits of an upper field `a`, which ends in `k` zeros, and of a lower one of `k` digits.
or_digits : (n k q r a : ℕ) → a ≤ n → a ≡ q * 2 ^ k → r < 2 ^ k → digits (λ b. b) max n a r ≡ a + r
or_digits zero k q r a h e l = omega arith
or_digits (suc n) k q r zero h e l = omega arith
or_digits (suc n) zero q r (suc a) h e l = omega (
  arith,
  or_digits n zero (suc a / 2) (r / 2) (suc a / 2) (omega arith) (omega arith) (omega arith),
)
or_digits (suc n) (suc k) q r (suc a) h e l = omega (
  arith,
  double_power q k,
  or_digits n k q (r / 2) (suc a / 2) (omega arith) (omega (arith, double_power q k))
      (omega (arith, pow-suc 2 k)),
)

-- `x << k | r` is a sum where `r` fits `k` bits.
pub or_fields : (k q r : ℕ) → r < 2 ^ k → bit_or (q * 2 ^ k) r ≡ q * 2 ^ k + r
or_fields k q r l =
    (λ i. bit_or-bitwise (q * 2 ^ k) r i)
    ∙ or_digits (q * 2 ^ k) k q r (q * 2 ^ k) (le_refl _) refl l

-- A number `a` with the lower field `s`, under a mask `r` of `k` ones.
and_digits :
    (n k q s a r : ℕ)
    → a ≤ n
    → a ≡ q * 2 ^ k + s
    → s < 2 ^ k
    → r + 1 ≡ 2 ^ k
    → digits (λ b. zero) min n a r ≡ s
and_digits zero k q s a r h e l m = omega arith
and_digits (suc n) k q s zero r h e l m = omega arith
and_digits (suc n) zero q s (suc a) r h e l m = omega (
  arith,
  and_digits n zero (suc a / 2) 0 (suc a / 2) (r / 2) (omega arith) (omega arith) (omega arith)
      (omega arith),
)
and_digits (suc n) (suc k) q s (suc a) r h e l m = omega (
  arith,
  double_power q k,
  pow-suc 2 k,
  one-le-pow k 2,
  and_digits n k q (s / 2) (suc a / 2) (r / 2) (omega arith) (omega (arith, double_power q k))
      (omega (arith, pow-suc 2 k)) (omega (arith, pow-suc 2 k)),
)

-- `x & (1<<k - 1)` is the remainder by `2 ^ k`.
pub and_mask : (k a r : ℕ) → r + 1 ≡ 2 ^ k → bit_and a r ≡ a % 2 ^ k
and_mask k a r m =
    (λ i. bit_and-bitwise a r i)
    ∙ and_digits a k (a / 2 ^ k) (a % 2 ^ k) a r (le_refl _) (omega (arith, div-add-mod' a (2 ^ k)))
        (mod-lt a (omega (arith, m))) m

differ_digit : (x y : ℕ) → x < 2 → y < 2 → differ x y < 2
differ_digit zero y h l = l
differ_digit (suc zero) zero h l = omega arith
differ_digit (suc zero) (suc zero) h l = omega arith
differ_digit (suc zero) (suc (suc y)) h l = absurd (omega arith)
differ_digit (suc (suc x)) y h l = absurd (omega arith)

differ-digits-lt : (k n a b : ℕ) → a < 2 ^ k → b < 2 ^ k → digits (λ b. b) differ n a b < 2 ^ k
differ-digits-lt k zero a b h l = l
differ-digits-lt k (suc n) zero b h l = l
differ-digits-lt zero (suc n) (suc a) b h l = absurd (omega arith)
differ-digits-lt (suc k) (suc n) (suc a) b h l = omega (
  arith,
  pow-suc 2 k,
  differ_digit (suc a % 2) (b % 2) (omega arith) (omega arith),
  differ-digits-lt k n (suc a / 2) (b / 2) (omega (arith, pow-suc 2 k))
      (omega (arith, pow-suc 2 k)),
)

-- `^` of two k-bit numbers has k bits.
pub bit_xor-lt : (k a b : ℕ) → a < 2 ^ k → b < 2 ^ k → bit_xor a b < 2 ^ k
bit_xor-lt k a b h l = omega (arith, bit_xor-bitwise a b, differ-digits-lt k a a b h l)
