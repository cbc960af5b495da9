-- ===== src/Avtp/RoundTrip.antt =====
-- A header that was encoded, read back.
use go_rcp.Base.{
  ℕ, ◌+◌, ◌*◌, ◌/◌, ◌%◌, ◌^◌, ◌≤◌, ◌<◌, ◌≡◌, refl, bit_and, bit_or, Bool, true, false, List, [],
  ◌∷◌, ◌++◌, length, length-append, take-append, drop-append, ◌!=◌, if◌then◌else◌, ok, arith, ◌⊎◌,
  inl, inr,
}
use go_rcp.Base.Bits.{or_fields}
use go_rcp.Base.Bytes.{AllBytes}
use go_rcp.Avtp.{
  Header, IsHeader, IsStreamId, new_stream_id, mac, suffix, max_data_length, wire_len, encode_flags,
  encode_timed, encode_untimed, encode_header, decode_untimed, decode_header,
}
use go_rcp.Avtp.Masks.{
  and_sv, and_version, and_reserved, and_len_high, sv-or_len_high, zero-or_len_high,
}
use go_rcp.Avtp.Received.{received, length_timed, length_untimed}
use go_rcp.Avtp.Timed.{flag_bits, decode_header-encode_timed}

decode_header_untimed :
    (b1 lo sq : ℕ) (tail : List ℕ)
    → 8 ≤ length tail
    → (bit_and (b1 / 16) 0x07 != 0) ≡ false
    → decode_header (0x82 ∷ b1 ∷ lo ∷ sq ∷ tail) ≡ decode_untimed (0x82 ∷ b1 ∷ lo ∷ sq ∷ tail)
unfolding decode_header
decode_header_untimed b1 lo sq tail n v = ground arith

-- Octet 1 of an untimed header: the flags and the top three bits of the length.
record UntimedRead (sv : Bool) (len_high b1 : ℕ) : Type 0 where
  no_reserved : (bit_and b1 0x08 != 0) ≡ false
  sv_read : (bit_and b1 0x80 != 0) ≡ sv
  version_read : (bit_and (b1 / 16) 0x07 != 0) ≡ false
  len_read : bit_and b1 0x07 ≡ len_high

octet_cells : (sv : Bool) (b x : ℕ) → x < 8 → b ≡ (if sv then 128 else 0) + x → UntimedRead sv x b
octet_cells true b x n e = ground (arith, and_reserved b, and_sv b, and_version b, and_len_high b)
octet_cells false b x n e = ground (arith, and_reserved b, and_sv b, and_version b, and_len_high b)

untimed_octet : (sv : Bool) (x : ℕ) → x < 8 → UntimedRead sv x (bit_or (flag_bits sv) x)
untimed_octet true x n = rw (sv-or_len_high x n) (octet_cells true (128 + x) x n (omega arith))
untimed_octet false x n = rw (zero-or_len_high x n) (octet_cells false x x n (omega arith))

module _ (h : Header) (w : IsHeader h) (rest : List ℕ)
    (fits : h.data_length ≤ max_data_length) where
  len_high : ℕ
  len_high = bit_and (h.data_length / 2 ^ 8 % 256) 0x07

  len_high_lt : (len_high ≡ h.data_length / 256) × (len_high < 8)
  unfolding len_high
  len_high_lt = omega (arith, and_len_high (h.data_length / 2 ^ 8 % 256) (omega arith))

  untimed_read :
      UntimedRead h.stream_id_valid len_high (bit_or (flag_bits h.stream_id_valid) len_high)
  untimed_read = untimed_octet h.stream_id_valid len_high len_high_lt.1

  untimed_length : bit_or (len_high * 2 ^ 8) (h.data_length % 256) ≡ h.data_length
  untimed_length =
      omega (arith, or_fields 8 len_high (h.data_length % 256) (omega arith), len_high_lt.0)

  encode_untimed-append :
      encode_untimed h ++ rest
      ≡ 0x82
        ∷ bit_or (flag_bits h.stream_id_valid) len_high
        ∷ h.data_length % 256
        ∷ h.sequence_num
        ∷ (h.stream_id ++ rest)
  unfolding encode_untimed encode_flags len_high
  encode_untimed-append = refl

  decode-encode_untimed :
      h.timed ≡ false → decode_header (encode_untimed h ++ rest) ≡ ok (received h, rest)
  decode-encode_untimed t =
      let u : UntimedRead h.stream_id_valid len_high
          (bit_or (flag_bits h.stream_id_valid) len_high) =
        untimed_read in
      rw
        (
          encode_untimed-append,
          decode_header_untimed _ _ _ (h.stream_id ++ rest) enough u.version_read,
        )
        (unfold decode_untimed received in
          rw
            (
              u.no_reserved,
              u.sv_read,
              u.len_read,
              untimed_length,
              take-append h.stream_id rest 8 w.stream_id.eight,
              drop-append h.stream_id rest 8 w.stream_id.eight,
            )
            (ground arith))
    where
      enough : 8 ≤ length (h.stream_id ++ rest)
      enough = omega (arith, length-append h.stream_id rest, w.stream_id.eight)

-- What `encode_header` writes, and when.
encode_header-eq-ok :
    (h : Header) (buf : List ℕ)
    → encode_header h ≡ ok buf
    → ((h.timed ≡ true) × (buf ≡ encode_timed h))
      ⊎ ((h.timed ≡ false) × (h.data_length ≤ max_data_length) × (buf ≡ encode_untimed h))
unfolding encode_header
encode_header-eq-ok h buf e = ground arith

-- A header that `encode_header` accepts is read back by `decode_header`, up to what the wire does
-- not carry (`received`), and the bytes behind it are left untouched.
pub decode_header-encode_header :
    (h : Header) (buf rest : List ℕ)
    → IsHeader h
    → encode_header h ≡ ok buf
    → decode_header (buf ++ rest) ≡ ok (received h, rest)
decode_header-encode_header h buf rest w e = elim (encode_header-eq-ok h buf e) [
  | inl (t, e') ↦ rw e' (decode_header-encode_timed h w rest t)
  | inr (t, fits, e') ↦ rw e' (decode-encode_untimed h w rest fits t)
]

-- The encoding takes 12 octets, or 24 when timed.
pub length-encode_header :
    (h : Header) (buf : List ℕ) → IsHeader h → encode_header h ≡ ok buf → length buf ≡ wire_len h
unfolding encode_header wire_len
length-encode_header h buf w e = ground (arith, length_timed h, length_untimed h, w.stream_id.eight)

-- The MAC address and the suffix of a stream id that was built from them.
pub new_stream_id_parts :
    (m : List ℕ) (s : ℕ)
    → length m ≡ 6
    → AllBytes m
    → s < 2 ^ 16
    → IsStreamId (new_stream_id m s)
      × (mac (new_stream_id m s) ≡ m)
      × (suffix (new_stream_id m s) ≡ s)
unfolding new_stream_id mac suffix
new_stream_id_parts (a ∷ b ∷ c ∷ d ∷ e ∷ f ∷ []) s n w h = (
  record { eight = refl; bytes = omega arith },
  refl,
  omega (arith, or_fields 8 (s / 2 ^ 8 % 256) (s % 256) (omega arith)),
)
new_stream_id_parts m s n w h = absurd (omega arith)
