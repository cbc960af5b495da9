-- ===== src/Avtp/Accepted.antt =====
-- What `decode_header` accepts: the fields are in range, no byte is lost, and an untimed header has
-- one encoding only.
use go_rcp.Base.{
  ℕ, ◌+◌, ◌*◌, ◌/◌, ◌%◌, ◌^◌, ◌≤◌, ◌<◌, ◌≡◌, ◌↔◌, ◌⊎◌, get_or, bit_and, bit_or, Bool, true, false,
  List, ◌∷◌, ◌++◌, length, take, drop, length-take, length-drop, All-take, All-drop, ◌!=◌,
  take-append-drop, if◌then◌else◌, ok, arith, inl, inr,
}
use go_rcp.Base.Bits.{or_fields}
use go_rcp.Base.Bytes.{IsByte, AllBytes, field_at-lt, get_or-lt}
use go_rcp.Avtp.{
  Header, IsHeader, IsStreamId, scheduled, drop_frame, valid, wire_len, encode_flags,
  encode_untimed, encode_header, decode_timed, decode_untimed, decode_header, disposition,
}
use go_rcp.Avtp.Masks.{
  and_sv, and_version, and_reserved, and_len_high, sv-or_len_high, zero-or_len_high,
}

-- A successful decoding is that of a variant, whose header the bytes hold whole.
decode_header-cases :
    (b rest : List ℕ) (h : Header)
    → decode_header b ≡ ok (h, rest)
    → ((12 ≤ length b) × (decode_untimed b ≡ ok (h, rest)))
      ⊎ ((24 ≤ length b) × (decode_timed b ≡ ok (h, rest)))
unfolding decode_header
decode_header-cases b rest h e = ground arith

stream_id_at : (b : List ℕ) → 12 ≤ length b → AllBytes b → IsStreamId (take 8 (drop 4 b))
stream_id_at b n w = record {
  eight = omega (arith, length-take 8 (drop 4 b), length-drop 4 b);
  bytes = All-take IsByte 8 (drop 4 b) (All-drop IsByte 4 b w);
}

record Received (b rest : List ℕ) (h : Header) : Type 0 where
  in_range : IsHeader h
  all_read : length b ≡ wire_len h + length rest

decode_timed-Received :
    (b rest : List ℕ) (h : Header)
    → AllBytes b
    → 24 ≤ length b
    → decode_timed b ≡ ok (h, rest)
    → Received b rest h
unfolding decode_timed wire_len
decode_timed-Received b rest h w n e =
    ground (
      arith,
      stream_id_at b,
      field_at-lt b 2 20,
      field_at-lt b 4 12,
      get_or-lt b 2,
      length-drop 24 b,
    )

decode_untimed-Received :
    (b rest : List ℕ) (h : Header)
    → AllBytes b
    → 12 ≤ length b
    → decode_untimed b ≡ ok (h, rest)
    → Received b rest h
unfolding decode_untimed wire_len
decode_untimed-Received b rest h w n e = ground (
  arith,
  stream_id_at b,
  get_or-lt b 1,
  get_or-lt b 2,
  get_or-lt b 3,
  length-drop 12 b,
  and_len_high (get_or b 1 0),
  or_fields 8 (bit_and (get_or b 1 0) 0x07) (get_or b 2 0),
)

-- A header that `decode_header` takes from bytes has every field within its Go type, and no byte is
-- lost: the header's own length and what is left over add up to the input.
pub decode_header-Received :
    (b rest : List ℕ) (h : Header)
    → AllBytes b
    → decode_header b ≡ ok (h, rest)
    → IsHeader h × (length b ≡ wire_len h + length rest)
decode_header-Received b rest h w e = elim (decode_header-cases b rest h e) [
  | inl (n, u) ↦ let r = decode_untimed-Received b rest h w n u in (r.in_range, r.all_read)
  | inr (n, t) ↦ let r = decode_timed-Received b rest h w n t in (r.in_range, r.all_read)
]

-- Octet 1 of an accepted untimed header is rebuilt from what was read from it.
octet_rebuilt :
    (b1 : ℕ)
    → b1 < 256
    → (bit_and b1 0x08 != 0) ≡ false
    → (bit_and (b1 / 16) 0x07 != 0) ≡ false
    → bit_or (if bit_and b1 0x80 != 0 then 0x80 else 0) (b1 % 8) ≡ b1
octet_rebuilt b1 w r v = ground (
  arith,
  and_reserved b1,
  and_version b1,
  and_sv b1,
  sv-or_len_high (b1 % 8),
  zero-or_len_high (b1 % 8),
)

record UntimedOctets (b1 b2 b3 : ℕ) (tail rest : List ℕ) (h : Header) : Type 0 where
  untimed : h.timed ≡ false
  no_reserved : (bit_and b1 0x08 != 0) ≡ false
  version_zero : (bit_and (b1 / 16) 0x07 != 0) ≡ false
  sv_octet : h.stream_id_valid ≡ (bit_and b1 0x80 != 0)
  length_octets : h.data_length ≡ b1 % 8 * 256 + b2
  sequence_octet : h.sequence_num ≡ b3
  id_octets : h.stream_id ≡ take 8 tail
  rest_octets : rest ≡ drop 8 tail

untimed-UntimedOctets :
    (b0 b1 b2 b3 : ℕ) (tail rest : List ℕ) (h : Header)
    → AllBytes (b0 ∷ b1 ∷ b2 ∷ b3 ∷ tail)
    → h.timed ≡ false
    → decode_header (b0 ∷ b1 ∷ b2 ∷ b3 ∷ tail) ≡ ok (h, rest)
    → UntimedOctets b1 b2 b3 tail rest h × (b0 ≡ 0x82)
unfolding decode_header decode_timed decode_untimed
untimed-UntimedOctets b0 b1 b2 b3 tail rest h w t e =
    ground (arith, and_len_high b1, or_fields 8 (b1 % 8) b2)

reencoded :
    (b1 b2 b3 : ℕ) (tail rest : List ℕ) (h : Header)
    → AllBytes (b1 ∷ b2 ∷ b3 ∷ tail)
    → UntimedOctets b1 b2 b3 tail rest h
    → (encode_header h ≡ ok (encode_untimed h))
      × (encode_untimed h ++ rest ≡ 0x82 ∷ b1 ∷ b2 ∷ b3 ∷ tail)
unfolding encode_header encode_untimed encode_flags
reencoded b1 b2 b3 tail rest h w o = (
  ground arith,
  ground (
    arith,
    octet_rebuilt b1,
    and_len_high (h.data_length / 2 ^ 8 % 256),
    take-append-drop 8 tail,
  ),
)

too_short : (b rest : List ℕ) (h : Header) → decode_header b ≡ ok (h, rest) → length b < 4 → ⊥
unfolding decode_header
too_short b rest h e n = ground arith

-- An accepted untimed header has one encoding: encoding the decoded header again gives back the very
-- bytes that were decoded.
pub encode_header-decode_header :
    (b rest : List ℕ) (h : Header)
    → AllBytes b
    → h.timed ≡ false
    → decode_header b ≡ ok (h, rest)
    → (buf : List ℕ) × (encode_header h ≡ ok buf) × (buf ++ rest ≡ b)
encode_header-decode_header (b0 ∷ b1 ∷ b2 ∷ b3 ∷ tail) rest h w t e =
    let (o, s) = untimed-UntimedOctets b0 b1 b2 b3 tail rest h w t e in
    let (enc, bytes) = reencoded b1 b2 b3 tail rest h w.1 o in
    (encode_untimed h, enc, ground (arith, bytes, s))
encode_header-decode_header b rest h w t e = absurd (too_short b rest h e (ground arith))

-- A frame is scheduled exactly if it is timed, its timestamp is valid and the server can synchronise;
-- it is dropped exactly if it is timed and the server cannot; else it is executed at once.
pub disposition_cases :
    (h : Header) (sync : Bool)
    → ((disposition h sync ≡ scheduled)
        ↔ ((h.timed ≡ true) × (h.timestamp_status ≡ valid) × (sync ≡ true)))
      × ((disposition h sync ≡ drop_frame) ↔ ((h.timed ≡ true) × (sync ≡ false)))
unfolding disposition
disposition_cases h sync = ground arith
