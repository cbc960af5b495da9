-- ===== src/Request/Chained/RoundTrip.antt =====
-- A chain that was encoded, read back.
use go_rcp.Base.{
  ℕ, ◌^◌, ◌<◌, ◌≡◌, refl, List, [], ◌∷◌, length, length-append, take-append, drop-append, ok, arith,
  All,
}
use go_rcp.Base.Bytes.{put_be, get_be-put_be}
use go_rcp.Request.Chained.{
  ChainedSegment, encode_segments, encode_chained, decode_segments, decode_chained,
}

-- A body whose length fits the field.
abbrev pub IsShort : ChainedSegment → Type 0
IsShort seg = length seg.body < 2 ^ 16

decode_segments-encode_segments :
    (segs : List ChainedSegment)
    → All IsShort segs
    → decode_segments (length segs) (encode_segments segs) ≡ ok (segs, [])
unfolding decode_segments encode_segments put_be
decode_segments-encode_segments [] w = refl
decode_segments-encode_segments (seg ∷ segs) w = ground (
  arith,
  w.0,
  get_be-put_be 2 (length seg.body) w.0,
  length-append seg.body (encode_segments segs),
  take-append seg.body (encode_segments segs) (length seg.body) refl,
  drop-append seg.body (encode_segments segs) (length seg.body) refl,
  decode_segments-encode_segments segs w.1,
)

-- A chain that `encode_chained` accepts, 1 to 255 segments, is read back in order, where no body is longer
-- than its length field can say.
pub decode_chained-encode_chained :
    (segs : List ChainedSegment) (buf : List ℕ)
    → All IsShort segs
    → encode_chained segs ≡ ok buf
    → decode_chained buf ≡ ok segs
unfolding encode_chained decode_chained
decode_chained-encode_chained segs buf w e =
    ground (arith, decode_segments-encode_segments segs w, e)
