-- ===== src/Request/Chained.antt =====
-- request/chained.go: several requests in one envelope.
pub mod RoundTrip
mod Tests
use go_rcp.Base.{
  ℕ, zero, suc, ◌+◌, ◌%◌, Bool, List, [], ◌∷◌, ◌++◌, length, take, drop, get_or, ltb, ◌==◌, ◌!=◌,
  ◌||◌, if◌then◌else◌, Result, ok, short_buffer, wrong_kind, trailing_bytes, invalid_segment_count,
  ◌>>=◌, ◌>>◌, reject_if,
}
use go_rcp.Base.Bytes.{put_be, get_be}
use go_rcp.Request.Kind.{kind_chained}

pub record ChainedSegment : Type 0 where
  pub control : ℕ
  pub body : List ℕ

abbrev max_chained_segments : ℕ
max_chained_segments = 255

-- The length field wraps around at 2 ^ 16, as `uint16(len(seg.Body))` does.
encode_segments : List ChainedSegment → List ℕ
encode_segments [] = []
encode_segments (seg ∷ rest) =
    (seg.control ∷ put_be 2 (length seg.body)) ++ (seg.body ++ encode_segments rest)

pub encode_chained : List ChainedSegment → Result (List ℕ)
unfolding encode_segments
encode_chained segs = do
  reject_if (length segs == 0 || ltb max_chained_segments (length segs)) invalid_segment_count
  ok (kind_chained ∷ length segs % 256 ∷ encode_segments segs)

-- The loop with `count` segments to go, on the bytes from the offset on.
decode_segments : ℕ → List ℕ → Result (List ChainedSegment × List ℕ)
decode_segments zero b = ok ([], b)
decode_segments (suc count) b = do
  reject_if (ltb (length b) 3) short_buffer
  let seg_len = get_be (take 2 (drop 1 b))
  reject_if (ltb (length b) (3 + seg_len)) short_buffer
  (rest, left) ← decode_segments count (drop seg_len (drop 3 b))
  ok (record { control = get_or b 0 0; body = take seg_len (drop 3 b) } ∷ rest, left)

pub decode_chained : List ℕ → Result (List ChainedSegment)
unfolding decode_segments
decode_chained body = do
  reject_if (ltb (length body) 2) short_buffer
  reject_if (get_or body 0 0 != kind_chained) wrong_kind
  reject_if (get_or body 1 0 == 0) invalid_segment_count
  (segs, left) ← decode_segments (get_or body 1 0) (drop 2 body)
  reject_if (length left != 0) trailing_bytes
  ok segs

pub record ChainedResponse : Type 0 where
  pub body : List ℕ
  pub failed : Bool

pub record ChainedResult : Type 0 where
  pub responses : List ChainedResponse
  pub total : ℕ

encode_responses : List ChainedResponse → List ℕ
encode_responses [] = []
encode_responses (resp ∷ rest) =
    ((if resp.failed then 1 else 0) ∷ put_be 2 (length resp.body))
    ++ (resp.body ++ encode_responses rest)

pub encode_chained_response : ChainedResult → List ℕ
unfolding encode_responses
encode_chained_response r = length r.responses % 256 ∷ r.total % 256 ∷ encode_responses r.responses
