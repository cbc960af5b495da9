-- ===== src/E2e/Supervisor/Trips.antt =====
-- When the supervisor calls for the safe state.
use go_rcp.Base.{
  ℕ, ◌+◌, ◌-◌, ◌%◌, ◌^◌, ◌<◌, ◌≡◌, ◌≢◌, bytes_eq_refl, refl, sym, ap, ◌∙◌, Bool, true, false, ◌&&◌,
  ◌||◌, Option, none, some, List, [], ◌∷◌, ltb, ◌==◌, ◌!=◌, bytes_eq, if◌then◌else◌, arith,
  Bool-cases, inl, inr,
}
use go_rcp.Base.Assoc.{lookup, lookup-insert, bytes_instance, bytes_eq_iff}
use go_rcp.Avtp.{StreamId}
use go_rcp.E2e.Supervisor.{
  StreamConfig, StreamState, Supervisor, configure, config_for, state_for, zero_state, violates,
  observe, in_safe_state, reset,
}

-- What the stored state of a stream says at a reading of the clock.
abbrev pub verdict : StreamConfig → Option StreamState → ℕ → Bool
verdict cfg none now = true
verdict cfg (some st) now = st.tripped || ltb cfg.timeout (now - st.last_arrival)

module _ (s : Supervisor) where
  -- A stream is in the safe state just when it was never observed or reset, or a violation was observed
  -- since its last reset, or more time than its timeout has gone since its last arrival or reset; an
  -- arrival, a violation included, starts the time anew for its own stream and leaves all others alone.
  pub in_safe_state-observe :
      (now later seq : ℕ) (stream other : StreamId)
      → (in_safe_state s later other ≡ verdict (config_for s other) (lookup other s.state) later)
        × (in_safe_state (observe s now stream seq).1 later other ≡ (
            if bytes_eq stream other
            then (violates (config_for s stream) (state_for s stream) seq
                || (state_for s stream).tripped)
              || ltb (config_for s stream).timeout (later - now)
            else in_safe_state s later other))
  unfolding in_safe_state observe
  in_safe_state-observe now later seq stream other = (
    told (config_for s other) (lookup other s.state),
    elim (Bool-cases (bytes_eq stream other)) [
      | inl same ↦
          let eq : stream ≡ other = (bytes_eq_iff stream other).0 same in
          let cfg : config_for s other ≡ config_for s stream = ap (config_for s) (sym eq) in
          rw (lookup-insert, same, in_safe_state) (rw cfg refl)
      | inr apart ↦ rw (lookup-insert, apart, in_safe_state) refl
    ],
  )
    where
      told :
          (cfg : StreamConfig) (o : Option StreamState)
          → (elim o [
            | none ↦ true
            | some st ↦ st.tripped || ltb cfg.timeout (later - st.last_arrival)
          ])
            ≡ verdict cfg o later
      told cfg none = refl
      told cfg (some st) = refl

-- Without a wrap of the counter or with one, a configured flag for the overflow changes no verdict: the
-- successor of the largest uint32 is 0 already.
pub violates-wraps :
    (cfg : StreamConfig) (st : StreamState) (seq : ℕ) (flag : Bool)
    → st.last_seq < 2 ^ 32
    → violates (record cfg { sequence_overflow_wraps = flag }) st seq ≡ (
        (cfg.require_monotonic_sequence && st.have_seq)
        && (seq != (if st.last_seq == 2 ^ 32 - 1 then 0 else st.last_seq + 1)))
unfolding violates
violates-wraps cfg st seq flag h = ground (arith, h)

pub data Event : Type 0 where
  observed : ℕ → StreamId → ℕ → Event
  configured : StreamId → StreamConfig → Event
  cleared : ℕ → StreamId → Event

pub apply : Supervisor → Event → Supervisor
apply s (observed now stream seq) = (observe s now stream seq).1
apply s (configured stream cfg) = configure s stream cfg
apply s (cleared now stream) = reset s now stream

pub apply_all : Supervisor → List Event → Supervisor
unfolding apply
apply_all s [] = s
apply_all s (e ∷ es) = apply_all (apply s e) es

abbrev pub clears : StreamId → Event → Bool
clears id (observed now stream seq) = false
clears id (configured stream cfg) = false
clears id (cleared now stream) = bytes_eq stream id

abbrev pub any_clears : StreamId → List Event → Bool
any_clears id [] = false
any_clears id (e ∷ es) = clears id e || any_clears id es

abbrev pub is_tripped : Supervisor → StreamId → Bool
is_tripped s id = elim (lookup id s.state) [ none ↦ false | some st ↦ st.tripped ]

tripped_state :
    (s : Supervisor) (id : StreamId) → is_tripped s id ≡ true → (state_for s id).tripped ≡ true
tripped_state s id t = go (lookup id s.state) t
  where
    go :
        (o : Option StreamState)
        → (elim o [ none ↦ false | some st ↦ st.tripped ]) ≡ true
        → (elim o as (λ x. StreamState) [ none ↦ zero_state | some st ↦ st ]).tripped ≡ true
    go none h = cc
    go (some st) h = h

apply-is_tripped :
    (s : Supervisor) (e : Event) (id : StreamId)
    → clears id e ≡ false
    → is_tripped s id ≡ true
    → is_tripped (apply s e) id ≡ true
unfolding apply observe reset
apply-is_tripped s (configured stream cfg) id c t = t
apply-is_tripped s (cleared now stream) id c t = rw (lookup-insert, c, is_tripped) t
apply-is_tripped s (observed now stream seq) id c t = elim (Bool-cases (bytes_eq stream id)) [
  | inr apart ↦ rw (lookup-insert, apart, is_tripped) t
  | inl same ↦
      let eq : stream ≡ id = (bytes_eq_iff stream id).0 same in
      let before : is_tripped s stream ≡ true = ap (is_tripped s) eq ∙ t in
      rw (lookup-insert, same, is_tripped) (ground (arith, tripped_state s stream before))
]

stays_tripped :
    (s : Supervisor) (es : List Event) (now : ℕ) (id : StreamId)
    → is_tripped s id ≡ true
    → any_clears id es ≡ false
    → in_safe_state (apply_all s es) now id ≡ true
unfolding apply_all in_safe_state
stays_tripped s [] now id t c =
    (in_safe_state-observe s now now 0 id id).0 ∙ told (lookup id s.state) t
  where
    told :
        (o : Option StreamState)
        → (elim o [ none ↦ false | some st ↦ st.tripped ]) ≡ true
        → verdict (config_for s id) o now ≡ true
    told none h = cc
    told (some st) h = ground (arith, h)
stays_tripped s (e ∷ es) now id t c =
    stays_tripped (apply s e) es now id (apply-is_tripped s e id (ground (arith, c)) t)
      (ground (arith, c))

-- What one arrival leaves of its stream.
state_for-observe :
    (s : Supervisor) (now seq : ℕ) (id : StreamId)
    → lookup id (observe s now id seq).1.state
      ≡ some (record {
        last_arrival = now;
        have_seq = true;
        last_seq = seq;
        tripped = violates (config_for s id) (state_for s id) seq || (state_for s id).tripped;
      })
unfolding observe
state_for-observe s now seq id = rw (lookup-insert, bytes_eq_refl id) refl

violates-skip :
    (cfg : StreamConfig) (last seq next : ℕ) (tripped : Bool)
    → cfg.require_monotonic_sequence ≡ true
    → seq < 2 ^ 32
    → next ≢ (seq + 1) % 2 ^ 32
    → violates cfg
        (record { last_arrival = last; have_seq = true; last_seq = seq; tripped = tripped })
        next
      ≡ true
unfolding violates
violates-skip cfg last seq next tripped strict width skips = ground (arith, strict, width, skips)

config_for-observe :
    (s : Supervisor) (now seq : ℕ) (id : StreamId)
    → config_for (observe s now id seq).1 id ≡ config_for s id
unfolding observe config_for
config_for-observe s now seq id = refl

is_tripped-observe :
    (s : Supervisor) (first then_ seq next : ℕ) (id : StreamId)
    → (config_for s id).require_monotonic_sequence ≡ true
    → seq < 2 ^ 32
    → next ≢ (seq + 1) % 2 ^ 32
    → is_tripped (observe (observe s first id seq).1 then_ id next).1 id ≡ true
is_tripped-observe s first then_ seq next id strict width skips =
    rw
      (
        is_tripped,
        state_for-observe (observe s first id seq).1 then_ next id,
        state_for,
        state_for-observe s first seq id,
        config_for-observe s first seq id,
        violates-skip (config_for s id) first seq next _ strict width skips,
      )
      refl

-- Where a stream has to count its requests one by one, an arrival whose number does not follow the one of the
-- arrival before it, modulo 2^32, puts the stream into the safe state, in which it stays whatever arrives
-- afterwards, whatever is configured and at any time, until the stream itself is reset.
pub in_safe_state_sticky :
    (s : Supervisor) (first then_ seq next : ℕ) (es : List Event) (now : ℕ) (id : StreamId)
    → (config_for s id).require_monotonic_sequence ≡ true
    → seq < 2 ^ 32
    → next ≢ (seq + 1) % 2 ^ 32
    → any_clears id es ≡ false
    → in_safe_state (apply_all (observe (observe s first id seq).1 then_ id next).1 es) now id
      ≡ true
in_safe_state_sticky s first then_ seq next es now id strict width skips quiet =
    stays_tripped (observe (observe s first id seq).1 then_ id next).1 es now id
      (is_tripped-observe s first then_ seq next id strict width skips) quiet
