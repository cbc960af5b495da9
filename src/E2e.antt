-- ===== src/E2e.antt =====
-- e2e/crc.go: the CRC32P4 safe points of messages, whole and fragmented, over hash/crc32 as it is used.
pub mod Bounds
pub mod Recover
pub mod Guard
pub mod Supervisor
pub mod Protected
pub mod Fragmented
mod Tests
use go_rcp.Base.{
  ℕ, zero, suc, ◌+◌, ◌-◌, ◌*◌, ◌/◌, ◌%◌, ◌^◌, bit_and, bit_or, bit_xor, Bool, true, false, not,
  ◌&&◌, Option, none, some, List, [], ◌∷◌, ◌++◌, length, take, drop, replicate, ltb, ◌==◌,
  if◌then◌else◌, Result, ok, err, short_safe_point, crc_mismatch,
}
use go_rcp.Base.Bytes.{put_be, get_be}
use go_rcp.Avtp.{StreamId}
use go_rcp.Acf.{Message}

abbrev pub len : ℕ
len = 4

abbrev crc32p4_normal_poly : ℕ
crc32p4_normal_poly = 0xf4acfb13

-- `k` rounds of the loop, from `r`.
reflect_from : ℕ → ℕ → ℕ → ℕ
reflect_from zero r v = r
reflect_from (suc k) r v = reflect_from k (bit_or (r * 2 % 2 ^ 32) (bit_and v 1)) (v / 2)

pub reflect32 : ℕ → ℕ
unfolding reflect_from
reflect32 v = reflect_from 32 0 v

-- One bit of the reflected division by the polynomial.
unfoldable pub crc_step : ℕ → ℕ → ℕ
crc_step poly crc = if bit_and crc 1 == 1 then bit_xor (crc / 2) poly else crc / 2

crc_steps : ℕ → ℕ → ℕ → ℕ
unfolding crc_step
crc_steps poly zero crc = crc
crc_steps poly (suc k) crc = crc_steps poly k (crc_step poly crc)

-- An entry of `crc32.MakeTable`'s table.
table_entry : ℕ → ℕ → ℕ
unfolding crc_steps
table_entry poly i = crc_steps poly 8 i

-- The digest of `crc32.New` before its final inversion, over more bytes.
crc_update : ℕ → ℕ → List ℕ → ℕ
unfolding table_entry
crc_update poly crc [] = crc
crc_update poly crc (b ∷ bs) =
    crc_update poly (bit_xor (table_entry poly (bit_xor (crc % 2 ^ 8) b)) (crc / 2 ^ 8)) bs

-- `crc32.New(crc32P4Table)`, `Write` and `Sum32`.
unfoldable pub checksum : List ℕ → ℕ
unfolding crc_update reflect32
checksum bs = bit_xor (crc_update (reflect32 crc32p4_normal_poly) 0xffffffff bs) 0xffffffff

-- The bytes that `writeCovered` hashes.
unfoldable pub covered : StreamId → Message → List ℕ
covered stream m =
    stream
    ++ (m.kind % 2 ^ 8
        ∷ (m.byte_bus_id % 2 ^ 8
            ∷ (put_be 2 m.transaction_num
                ++ (m.control % 2 ^ 8
                    ∷ (put_be 2 m.read_size_or_segment ++ (put_be 8 m.timestamp ++ m.body))))))

unfoldable pub compute : StreamId → Message → ℕ
unfolding checksum covered
compute stream m = checksum (covered stream m)

-- The segments' bodies in a row, as the loops over `combined` append them.
unfoldable pub joined_bodies : List (List ℕ) → List ℕ
joined_bodies [] = []
joined_bodies (b ∷ bs) = b ++ joined_bodies bs

pub compute_fragmented : StreamId → Message → List (List ℕ) → ℕ
unfolding joined_bodies
compute_fragmented stream header bodies =
    compute stream (record header { body = joined_bodies bodies })

abbrev pub zeros : ℕ → List ℕ
zeros n = replicate n 0

unfoldable pub pad_len_for : ℕ → ℕ
pad_len_for payload_len = (4 - payload_len % 4) % 4

unfoldable pub protect : StreamId → Message → Message
unfolding pad_len_for
protect stream m = record m {
  body = m.body ++ (zeros (pad_len_for (length m.body)) ++ put_be len (compute stream m));
}

abbrev pub all_zero : List ℕ → Bool
all_zero [] = true
all_zero (b ∷ bs) = b == 0 && all_zero bs

-- `k` rounds of the loop, from `pad` on.
pub try_pads : List ℕ → ℕ → (List ℕ → ℕ) → ℕ → ℕ → Option (List ℕ)
try_pads without_crc got try_crc zero pad = none
try_pads without_crc got try_crc (suc k) pad =
    let real_len = length without_crc - pad in
    let candidate = take real_len without_crc in
    let rest = try_pads without_crc got try_crc k (suc pad) in
    if ltb 0 pad && not (all_zero (drop real_len without_crc))
    then rest
    else if try_crc candidate == got
    then some candidate
    else rest

abbrev max_pad : List ℕ → ℕ
max_pad without_crc = if ltb (length without_crc) 3 then length without_crc else 3

unfoldable pub recover_protected : List ℕ → ℕ → (List ℕ → ℕ) → Option (List ℕ)
recover_protected without_crc got try_crc =
    try_pads without_crc got try_crc (max_pad without_crc + 1) 0

unfoldable pub verify : StreamId → Message → Result Message
verify stream m =
    let without_crc = take (length m.body - len) m.body in
    let got = get_be (drop (length m.body - len) m.body) in
    if ltb (length m.body) len
    then err short_safe_point
    else elim (recover_protected without_crc got
        (λ candidate. compute stream (record m { body = candidate }))) [
          | none ↦ err crc_mismatch
          | some real ↦ ok (record m { body = real })
        ]

-- The bodies but for the last, and the last one.
abbrev pub init_bodies : List (List ℕ) → List (List ℕ)
init_bodies bodies = take (length bodies - 1) bodies

abbrev pub last_body : List (List ℕ) → List ℕ
last_body [] = []
last_body (b ∷ []) = b
last_body (b ∷ c ∷ bs) = last_body (c ∷ bs)

-- No bodies, as well as a short last one, are `ErrShortSafePoint`.
unfoldable pub verify_fragmented : StreamId → Message → List (List ℕ) → Result Message
unfolding joined_bodies
verify_fragmented stream header bodies =
    let last = last_body bodies in
    let without_crc = take (length last - len) last in
    let got = get_be (drop (length last - len) last) in
    if ltb (length last) len
    then err short_safe_point
    else elim (recover_protected without_crc got
        (λ candidate. compute_fragmented stream header (init_bodies bodies ++ (candidate ∷ [])))) [
          | none ↦ err crc_mismatch
          | some real ↦
              ok (record header { body = joined_bodies (init_bodies bodies ++ (real ∷ [])) })
        ]
