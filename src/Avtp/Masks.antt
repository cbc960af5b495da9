-- ===== src/Avtp/Masks.antt =====
-- The flag octets of the header, as arithmetic on a byte.
use go_rcp.Base.{ℕ, ◌+◌, ◌*◌, ◌/◌, ◌%◌, ◌<◌, ◌≡◌, refl, bit_and, bit_or}
use go_rcp.Base.Bits.{agree_below, agree_below→eq}

pub and_rsv : (b : ℕ) → b < 256 → bit_and b 0x06 ≡ b / 2 % 4 * 2
unfolding agree_below
and_rsv = agree_below→eq _ _ 256 refl

pub and_octet3 : (b : ℕ) → b < 256 → bit_and b 0xfe ≡ b / 2 * 2
unfolding agree_below
and_octet3 = agree_below→eq _ _ 256 refl

pub and_low : (b : ℕ) → b < 256 → bit_and b 0x01 ≡ b % 2
unfolding agree_below
and_low = agree_below→eq _ _ 256 refl

pub and_sv : (b : ℕ) → b < 256 → bit_and b 0x80 ≡ b / 128 * 128
unfolding agree_below
and_sv = agree_below→eq _ _ 256 refl

pub and_version : (b : ℕ) → b < 256 → bit_and (b / 16) 0x07 ≡ b / 16 % 8
unfolding agree_below
and_version = agree_below→eq _ _ 256 refl

pub and_reserved : (b : ℕ) → b < 256 → bit_and b 0x08 ≡ b / 8 % 2 * 8
unfolding agree_below
and_reserved = agree_below→eq _ _ 256 refl

pub and_len_high : (b : ℕ) → b < 256 → bit_and b 0x07 ≡ b % 8
unfolding agree_below
and_len_high = agree_below→eq _ _ 256 refl

pub sv-or_len_high : (x : ℕ) → x < 8 → bit_or 0x80 x ≡ 128 + x
unfolding agree_below
sv-or_len_high = agree_below→eq _ _ 8 refl

pub zero-or_len_high : (x : ℕ) → x < 8 → bit_or 0 x ≡ x
unfolding agree_below
zero-or_len_high = agree_below→eq _ _ 8 refl
