-- ===== src/E2e/Bounds.antt =====
-- A safe point is a uint32.
use go_rcp.Base.{
  ℕ, zero, suc, ◌/◌, ◌%◌, ◌^◌, ◌<◌, bit_and, bit_xor, ◌≡◌, refl, Bool, true, false, List, [], ◌∷◌,
  ◌==◌, if◌then◌else◌, arith, All-append,
}
use go_rcp.Base.Bits.{bit_xor-lt}
use go_rcp.Base.Bytes.{IsByte, AllBytes, put_be, put_be-AllBytes}
use go_rcp.Avtp.{StreamId}
use go_rcp.Acf.{Message}
use go_rcp.E2e.{
  reflect32, crc32p4_normal_poly, crc_step, crc_steps, table_entry, crc_update, checksum, covered,
  compute,
}

-- The polynomial that the table is made from.
pub reflected_poly : reflect32 crc32p4_normal_poly ≡ 0xc8df352f
unfolding reflect32
reflected_poly = refl

module _ (poly : ℕ) (small : poly < 2 ^ 32) where
  crc_step-lt : (crc : ℕ) → crc < 2 ^ 32 → crc_step poly crc < 2 ^ 32
  unfolding crc_step
  crc_step-lt crc h = choose (bit_and crc 1 == 1)
    where
      choose : (b : Bool) → (if b then bit_xor (crc / 2) poly else crc / 2) < 2 ^ 32
      choose true = bit_xor-lt 32 (crc / 2) poly (omega (arith, h)) small
      choose false = omega (arith, h)

  crc_steps-lt : (k crc : ℕ) → crc < 2 ^ 32 → crc_steps poly k crc < 2 ^ 32
  unfolding crc_steps
  crc_steps-lt zero crc h = h
  crc_steps-lt (suc k) crc h = crc_steps-lt k (crc_step poly crc) (crc_step-lt crc h)

  crc_update-lt :
      (bs : List ℕ) (crc : ℕ) → AllBytes bs → crc < 2 ^ 32 → crc_update poly crc bs < 2 ^ 32
  unfolding crc_update table_entry
  crc_update-lt [] crc w h = h
  crc_update-lt (b ∷ bs) crc w h = crc_update-lt bs _ w.1 (
      bit_xor-lt 32 (crc_steps poly 8 (bit_xor (crc % 2 ^ 8) b)) (crc / 2 ^ 8)
        (crc_steps-lt 8 (bit_xor (crc % 2 ^ 8) b)
          (omega (arith, bit_xor-lt 8 (crc % 2 ^ 8) b (omega arith) w.0)))
        (omega (arith, h)))

checksum-lt : (bs : List ℕ) → AllBytes bs → checksum bs < 2 ^ 32
unfolding checksum
checksum-lt bs w =
    bit_xor-lt 32 (crc_update (reflect32 crc32p4_normal_poly) 0xffffffff bs) 0xffffffff
      (crc_update-lt (reflect32 crc32p4_normal_poly) (omega (arith, reflected_poly)) bs 0xffffffff w
        (omega arith))
      (omega arith)

covered-AllBytes :
    (stream : StreamId) (m : Message)
    → AllBytes stream
    → AllBytes m.body
    → AllBytes (covered stream m)
unfolding covered
covered-AllBytes stream m w v = All-append IsByte stream _ w (
  omega arith,
  (
    omega arith,
    All-append IsByte (put_be 2 m.transaction_num) _ (put_be-AllBytes 2 m.transaction_num) (
      omega arith,
      All-append IsByte (put_be 2 m.read_size_or_segment) _
          (put_be-AllBytes 2 m.read_size_or_segment)
          (All-append IsByte (put_be 8 m.timestamp) m.body (put_be-AllBytes 8 m.timestamp) v),
    ),
  ),
)

pub compute-lt :
    (stream : StreamId) (m : Message)
    → AllBytes stream
    → AllBytes m.body
    → compute stream m < 2 ^ 32
unfolding compute
compute-lt stream m w v = checksum-lt (covered stream m) (covered-AllBytes stream m w v)
