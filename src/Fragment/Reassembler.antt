-- ===== src/Fragment/Reassembler.antt =====
-- fragment/reassembler.go; the CRC-checked finish is in Protected. A method takes the clock's reading where
-- the source calls `now`, and returns its result with the new state.
pub mod Together
pub mod Keeps
pub mod Sweep
pub mod Protected
mod Tests
use go_rcp.Base.{
  ℕ, ◌+◌, ◌-◌, Bool, true, false, not, ◌&&◌, ◌||◌, Option, none, some, List, [], ◌∷◌, ◌++◌, map,
  filter, length, get_or, ltb, ◌==◌, ◌!=◌, bytes_eq, if◌then◌else◌, Result, ok, err,
  out_of_order_segment, duplicate_segment, header_mismatch, sequence_complete, too_many_segments,
  unknown_sequence, incomplete,
}
use go_rcp.Base.Assoc.{lookup, insert, delete}
use go_rcp.Avtp.{StreamId}
use go_rcp.Acf.{Message, no_message, has, and_not, flag_more_segments}
use go_rcp.Fragment.{Key, key_of, key_instance, default_reassembly_timeout, default_max_segments}

pub record Sequence : Type 0 where
  pub kind : ℕ
  pub timestamp : ℕ
  pub base_control : ℕ
  pub final_read_size_or_segment : ℕ
  pub bodies : List (List ℕ)
  pub ready : Bool
  pub updated : ℕ

pub record Reassembler : Type 0 where
  pub timeout : ℕ
  pub max_segments : ℕ
  pub seqs : List (Key × Sequence)

-- A field that is not positive is replaced with its default.
unfoldable pub new_reassembler : ℕ → ℕ → Reassembler
new_reassembler timeout max_segments = record {
  timeout = if timeout == 0 then default_reassembly_timeout else timeout;
  max_segments = if max_segments == 0 then default_max_segments else max_segments;
  seqs = [];
}

pub header_matches : Sequence → Message → Bool
header_matches s m =
    m.kind == s.kind
    && (m.timestamp == s.timestamp && and_not m.control flag_more_segments == s.base_control)

unfoldable pub message_for : Sequence → Key → Message
message_for s key = record no_message {
  kind = s.kind;
  byte_bus_id = key.bus;
  transaction_num = key.txn;
  control = s.base_control;
  read_size_or_segment = s.final_read_size_or_segment;
  timestamp = s.timestamp;
}

unfoldable pub concat_bodies : List (List ℕ) → List ℕ
concat_bodies [] = []
concat_bodies (b ∷ bs) = b ++ concat_bodies bs

put : Reassembler → Key → Sequence → Reassembler
put r key s = record r { seqs = insert key s r.seqs }

unfoldable pub abandon : Reassembler → Key → Reassembler
abandon r key = record r { seqs = delete key r.seqs }

-- No sequence is held for the key.
add_first : Reassembler → ℕ → Key → Message → Result Bool × Reassembler
unfolding put
add_first r now key m =
    if not (has m.control flag_more_segments)
    then (
      ok true,
      put r key (record {
        kind = m.kind;
        timestamp = m.timestamp;
        base_control = m.control;
        final_read_size_or_segment = m.read_size_or_segment;
        bodies = m.body ∷ [];
        ready = true;
        updated = now;
      }),
    )
    else if m.read_size_or_segment != 0
    then (err out_of_order_segment, r)
    else (
      ok false,
      put r key (record {
        kind = m.kind;
        timestamp = m.timestamp;
        base_control = and_not m.control flag_more_segments;
        final_read_size_or_segment = 0;
        bodies = m.body ∷ [];
        ready = false;
        updated = now;
      }),
    )

-- The sequence has its terminal segment.
add_complete : Reassembler → Sequence → Message → Result Bool × Reassembler
add_complete r s m =
    if not (has m.control flag_more_segments)
      && (bytes_eq (get_or s.bodies (length s.bodies - 1) []) m.body
          && m.read_size_or_segment == s.final_read_size_or_segment)
    then (ok true, r)
    else (err sequence_complete, r)

append_segment : Reassembler → ℕ → Key → Sequence → Message → Result Bool × Reassembler
unfolding put abandon
append_segment r now key s m =
    if ltb r.max_segments (length s.bodies + 1)
    then (err too_many_segments, abandon r key)
    else if not (has m.control flag_more_segments)
    then (
      ok true,
      put r key (record s {
        bodies = s.bodies ++ (m.body ∷ []);
        updated = now;
        final_read_size_or_segment = m.read_size_or_segment;
        ready = true;
      }),
    )
    else (ok false, put r key (record s { bodies = s.bodies ++ (m.body ∷ []); updated = now }))

-- `idx == next-1` is `idx + 1 == next`.
add_next : Reassembler → ℕ → Key → Sequence → Message → Result Bool × Reassembler
unfolding abandon append_segment
add_next r now key s m =
    let idx = m.read_size_or_segment in
    let next = length s.bodies in
    if has m.control flag_more_segments && idx + 1 == next
    then if bytes_eq (get_or s.bodies idx []) m.body
      then (ok false, r)
      else (err duplicate_segment, abandon r key)
    else if has m.control flag_more_segments && idx != next
    then (err out_of_order_segment, abandon r key)
    else append_segment r now key s m

pub add : Reassembler → ℕ → StreamId → Message → Result Bool × Reassembler
unfolding abandon add_first add_complete add_next header_matches
add r now stream m =
    let key = key_of stream m in
    elim (lookup key r.seqs) [
      | none ↦ add_first r now key m
      | some s ↦
          if not (header_matches s m)
          then (err header_mismatch, abandon r key)
          else if s.ready
          then add_complete r s m
          else add_next r now key s m
    ]

pub finish : Reassembler → Key → Result Message × Reassembler
unfolding abandon message_for concat_bodies
finish r key = elim (lookup key r.seqs) [
  | none ↦ (err unknown_sequence, r)
  | some s ↦
      if not s.ready
      then (err incomplete, r)
      else (ok (record (message_for s key) { body = concat_bodies s.bodies }), abandon r key)
]

-- Still incomplete, and no segment within the timeout.
pub is_stale : Reassembler → ℕ → Sequence → Bool
is_stale r now s = not s.ready && ltb r.timeout (now - s.updated)

sweep_kept : Reassembler → ℕ → List (Key × Sequence) → List (Key × Sequence)
unfolding is_stale
sweep_kept r now [] = []
sweep_kept r now ((k, s) ∷ l) =
    let rest = sweep_kept r now l in if is_stale r now s then rest else (k, s) ∷ rest

sweep_purged : Reassembler → ℕ → List (Key × Sequence) → List Key
unfolding is_stale
sweep_purged r now [] = []
sweep_purged r now ((k, s) ∷ l) =
    let rest = sweep_purged r now l in if is_stale r now s then k ∷ rest else rest

pub sweep : Reassembler → ℕ → List Key × Reassembler
unfolding sweep_kept sweep_purged
sweep r now = (sweep_purged r now r.seqs, record r { seqs = sweep_kept r now r.seqs })

pub pending : Reassembler → ℕ
pending r = length r.seqs
