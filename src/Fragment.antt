-- ===== src/Fragment.antt =====
-- fragment/types.go and segment.go: reassembly keys, and cutting a message into segments.
pub mod Split
pub mod Reassembler
pub mod Gateway
use go_rcp.Base.{
  ℕ, zero, suc, ◌+◌, ◌-◌, ◌*◌, ◌/◌, bit_or, ◌≡◌, ◌↔◌, Bool, true, ◌&&◌, List, [], ◌∷◌, length, take,
  drop, ltb, leb, ◌==◌, ==_iff, bytes_eq, if◌then◌else◌, Result, ok, invalid_max_segment_body,
  already_fragmented, too_many_segments, ◌>>=◌, ◌>>◌, reject_if, arith,
}
use go_rcp.Base.Assoc.{Eq, bytes_eq_iff}
use go_rcp.Avtp.{StreamId}
use go_rcp.Acf.{Message, has, and_not, flag_more_segments}

pub record Key : Type 0 where
  pub stream : StreamId
  pub bus : ℕ
  pub txn : ℕ

abbrev pub key_of : StreamId → Message → Key
key_of stream m = record { stream = stream; bus = m.byte_bus_id; txn = m.transaction_num }

abbrev pub key_eq : Key → Key → Bool
key_eq a b = bytes_eq a.stream b.stream && (a.bus == b.bus && a.txn == b.txn)

pub key_eq_iff : (a b : Key) → (key_eq a b ≡ true) ↔ (a ≡ b)
key_eq_iff a b = ground (arith, bytes_eq_iff a.stream b.stream)

instance abbrev pub key_instance : Eq Key
key_instance = record { beq = key_eq; beq_iff = key_eq_iff }

abbrev pub default_max_segment_body : ℕ
default_max_segment_body = 1400

-- Nanoseconds.
abbrev pub default_reassembly_timeout : ℕ
default_reassembly_timeout = 5_000_000_000

abbrev pub default_max_segments : ℕ
default_max_segments = 4096

abbrev pub max_segment_index : ℕ
max_segment_index = 0xffff

-- The i-th of n segments. A slice's end is cut to the length, as `take` does.
pub segment : Message → ℕ → ℕ → ℕ → Message
segment m max_body n i =
    let last = leb (n - 1) i in
    record m {
      pad = 0;
      body = take max_body (drop (i * max_body) m.body);
      control =
          if last
          then and_not m.control flag_more_segments
          else bit_or m.control flag_more_segments;
      read_size_or_segment = if last then m.read_size_or_segment else i;
    }

-- The loop from segment i on, with k segments to go.
pub segments : Message → ℕ → ℕ → ℕ → ℕ → List Message
segments m max_body n zero i = []
segments m max_body n (suc k) i = segment m max_body n i ∷ segments m max_body n k (suc i)

abbrev pub segment_count : Message → ℕ → ℕ
segment_count m max_body = (length m.body + max_body - 1) / max_body

-- A negative `maxBody` takes the branch of 0.
pub split : Message → ℕ → Result (List Message)
unfolding segments segment
split m max_body = do
  reject_if (leb max_body 0) invalid_max_segment_body
  reject_if (has m.control flag_more_segments) already_fragmented
  if leb (length m.body) max_body then ok (m ∷ []) else do
    reject_if (ltb max_segment_index (segment_count m max_body - 1)) too_many_segments
    ok (segments m max_body (segment_count m max_body) (segment_count m max_body) 0)
