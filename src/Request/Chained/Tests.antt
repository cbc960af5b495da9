-- ===== src/Request/Chained/Tests.antt =====
-- A concrete chain.
use go_rcp.Base.{ℕ, ◌≡◌, refl, List, [], ◌∷◌, ok, arith, All}
use go_rcp.Base.Bytes.{put_be}
use go_rcp.Request.Chained.{ChainedSegment, encode_chained, decode_chained}
use go_rcp.Request.Chained.RoundTrip.{IsShort, decode_chained-encode_chained}

abbrev two_writes : List ChainedSegment
two_writes =
    record { control = 0x40; body = 1 ∷ 2 ∷ [] } ∷ record { control = 0x80; body = [] } ∷ []

abbrev two_writes_bytes : List ℕ
two_writes_bytes = 4 ∷ 2 ∷ 0x40 ∷ 0 ∷ 2 ∷ 1 ∷ 2 ∷ 0x80 ∷ 0 ∷ 0 ∷ []

encode_two_writes : encode_chained two_writes ≡ ok two_writes_bytes
unfolding encode_chained put_be
encode_two_writes = refl

two_writes-IsShort : All IsShort two_writes
two_writes-IsShort = omega arith

decode_chained-encode_chained_example : decode_chained two_writes_bytes ≡ ok two_writes
decode_chained-encode_chained_example =
    decode_chained-encode_chained two_writes two_writes_bytes two_writes-IsShort encode_two_writes
