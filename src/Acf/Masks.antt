-- ===== src/Acf/Masks.antt =====
-- The flag octets of a message, read back from what was written.
use go_rcp.Base.{
  ℕ, ◌+◌, ◌*◌, ◌/◌, ◌%◌, ◌^◌, ◌<◌, ◌≡◌, refl, bit_and, bit_or, Bool, true, false, if◌then◌else◌,
  ◌!=◌, arith,
}
use go_rcp.Acf.{row2_bits, row2_control, flag_read, flag_write, has}
use go_rcp.Acf.Decode.{decode_control}
use go_rcp.Base.Bits.{agree_below, agree_below→eq, or_fields, and_mask}

pub and_bit0 : (b : ℕ) → b < 256 → bit_and b 1 ≡ b % 2
unfolding agree_below
and_bit0 = agree_below→eq _ _ 256 refl

pub and_bit1 : (b : ℕ) → b < 256 → bit_and b 2 ≡ b / 2 % 2 * 2
unfolding agree_below
and_bit1 = agree_below→eq _ _ 256 refl

pub and_bits23 : (b : ℕ) → b < 256 → bit_and b 12 ≡ b / 4 % 4 * 4
unfolding agree_below
and_bits23 = agree_below→eq _ _ 256 refl

pub and_bits34 : (b : ℕ) → b < 256 → bit_and b 24 ≡ b / 8 % 4 * 8
unfolding agree_below
and_bits34 = agree_below→eq _ _ 256 refl

pub and_bit5 : (b : ℕ) → b < 256 → bit_and b 32 ≡ b / 32 % 2 * 32
unfolding agree_below
and_bit5 = agree_below→eq _ _ 256 refl

-- Octet 2 of a message.
pub record Row1Read (pad : ℕ) (mtv : Bool) (bus_high b : ℕ) : Type 0 where
  pub pad_read : bit_and (b / 2 ^ 6) 0x03 ≡ pad
  pub mtv_read : (bit_and b (2 ^ 5) != 0) ≡ mtv
  pub no_reserved : (bit_and b (0x03 * 2 ^ 3) != 0) ≡ false
  pub bus_read : bit_and b 0x07 ≡ bus_high

pub row1_value :
    (pad : ℕ) (mtv : Bool) (x : ℕ)
    → pad < 4
    → x < 8
    → bit_or (bit_or (bit_and pad 0x03 * 2 ^ 6) (if mtv then 2 ^ 5 else 0)) x
      ≡ pad * 64 + (if mtv then 32 else 0) + x
row1_value pad true x h k =
    ground (arith, and_mask 2 pad 3, or_fields 6 pad 32, or_fields 5 (pad * 2 + 1) x)
row1_value pad false x h k =
    ground (arith, and_mask 2 pad 3, or_fields 6 pad 0, or_fields 5 (pad * 2) x)

pub row1_read :
    (pad : ℕ) (mtv : Bool) (x b : ℕ)
    → pad < 4
    → x < 8
    → b ≡ pad * 64 + (if mtv then 32 else 0) + x
    → Row1Read pad mtv x b
row1_read pad true x b h k e =
    ground (arith, and_mask 2 (b / 64) 3, and_bit5 b, and_bits34 b, and_mask 3 b 7)
row1_read pad false x b h k e =
    ground (arith, and_mask 2 (b / 64) 3, and_bit5 b, and_bits34 b, and_mask 3 b 7)

-- The first octet of the second word.
pub record Row2Read (evt : ℕ) (hs cs : Bool) (b : ℕ) : Type 0 where
  pub evt_read : b / 2 ^ 4 ≡ evt
  pub no_reserved : (bit_and b (0x03 * 2 ^ 2) != 0) ≡ false
  pub hs_read : (bit_and b (2 ^ 1) != 0) ≡ hs
  pub cs_read : (bit_and b 1 != 0) ≡ cs

pub row2_value :
    (evt : ℕ) (hs cs : Bool)
    → evt < 16
    → bit_or (bit_or (evt * 2 ^ 4 % 256) (if hs then 2 else 0)) (if cs then 1 else 0)
      ≡ evt * 16 + (if hs then 2 else 0) + (if cs then 1 else 0)
row2_value evt true true h = ground (arith, or_fields 4 evt 2, or_fields 1 (evt * 8 + 1) 1)
row2_value evt true false h = ground (arith, or_fields 4 evt 2, or_fields 1 (evt * 8 + 1) 0)
row2_value evt false true h = ground (arith, or_fields 4 evt 0, or_fields 1 (evt * 8) 1)
row2_value evt false false h = ground (arith, or_fields 4 evt 0, or_fields 1 (evt * 8) 0)

pub row2_read :
    (evt : ℕ) (hs cs : Bool) (b : ℕ)
    → evt < 16
    → b ≡ evt * 16 + (if hs then 2 else 0) + (if cs then 1 else 0)
    → Row2Read evt hs cs b
row2_read evt true true b h e = ground (arith, and_bits23 b, and_bit1 b, and_bit0 b)
row2_read evt true false b h e = ground (arith, and_bits23 b, and_bit1 b, and_bit0 b)
row2_read evt false true b h e = ground (arith, and_bits23 b, and_bit1 b, and_bit0 b)
row2_read evt false false b h e = ground (arith, and_bits23 b, and_bit1 b, and_bit0 b)

-- The flags that come back: a message that is no write is a read.
unfoldable pub received_control : ℕ → ℕ
unfolding has
received_control c = bit_or (if has c flag_write then flag_write else flag_read) (bit_and c 0x38)

nibble_table : (c : ℕ) → c < 256 → row2_bits c ≡ row2_bits c / 16 * 16
unfolding agree_below row2_bits
nibble_table = agree_below→eq _ _ 256 refl

nibble-lt_table : (c : ℕ) → c < 256 → row2_bits c / 256 ≡ 0
unfolding agree_below row2_bits
nibble-lt_table = agree_below→eq _ _ 256 refl

control_table : (c : ℕ) → c < 256 → decode_control (row2_bits c) ≡ received_control c
unfolding agree_below row2_bits decode_control received_control
control_table = agree_below→eq _ _ 256 refl

upper_table : (r : ℕ) → r < 256 → decode_control r ≡ decode_control (r / 16 * 16)
unfolding agree_below decode_control
upper_table = agree_below→eq _ _ 256 refl

pub control_value :
    (c size : ℕ) → c < 256 → size < 4096 → row2_control c size ≡ row2_bits c + size / 256
unfolding row2_control
control_value c size h k =
    ground (
      arith,
      nibble_table c,
      and_mask 4 (size / 256) 15,
      or_fields 4 (row2_bits c / 16) (size / 256),
    )

pub record ControlRead (c size b : ℕ) : Type 0 where
  pub control_read : decode_control b ≡ received_control c
  pub size_read : bit_and b 0x0f ≡ size / 256

pub control_read :
    (c size b : ℕ) → c < 256 → size < 4096 → b ≡ row2_bits c + size / 256 → ControlRead c size b
control_read c size b h k e =
    ground
      (arith, nibble_table c, nibble-lt_table c, control_table c, upper_table b, and_mask 4 b 15)
