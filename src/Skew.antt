-- ===== src/Skew.antt =====
-- The bound on an incoming counter (pkg/sync/crdt_reconstruct_skew.go).
use sovereign.Prelude.{
  ℕ, ◌-◌, ◌+◌, ◌^◌, ◌≤◌, ◌<◌, ◌≡◌, true, false, ◌&&◌, ltb, if◌then◌else◌, arith,
}
use Prim.Native.Nat.{min}
use sovereign.Float64.{Float64}

abbrev pub max_uint64 : ℕ
max_uint64 = 2 ^ 64 - 1

module _ (fl : Float64) where
  open fl use {Float, zero_float, mul, ceil, positive, is_huge, to_u64, to_u64-lt}

  -- `LamportSnapshot`
  pub record LamportSnapshot : Type 0 where
    pub lamport : ℕ
    pub observed_inbound_rate : Float
    pub horizon_seconds : Float
    pub absolute_slack : ℕ

  -- The envelope of `MaxAcceptableDotCounter`.
  unfoldable pub envelope_of : LamportSnapshot → ℕ
  envelope_of s =
      let rate_envelope =
        if positive s.observed_inbound_rate && positive s.horizon_seconds
        then ceil (mul s.observed_inbound_rate s.horizon_seconds)
        else zero_float in
      if is_huge rate_envelope
      then max_uint64
      else if positive rate_envelope
      then to_u64 rate_envelope
      else 0

  -- `MaxAcceptableDotCounter`
  unfoldable pub max_acceptable_dot_counter : LamportSnapshot → ℕ
  unfolding envelope_of
  max_acceptable_dot_counter s =
      let envelope = envelope_of s in
      if ltb (max_uint64 - s.lamport) envelope
      then max_uint64
      else let bound = s.lamport + envelope in
        if ltb (max_uint64 - bound) s.absolute_slack then max_uint64 else bound + s.absolute_slack

  envelope_of-lt : (s : LamportSnapshot) → envelope_of s ≤ max_uint64
  unfolding envelope_of
  envelope_of-lt s =
      let r =
        if positive s.observed_inbound_rate && positive s.horizon_seconds
        then ceil (mul s.observed_inbound_rate s.horizon_seconds)
        else zero_float in
      bounded r (to_u64-lt r)
    where
      bounded :
          (r : Float)
          → (positive r ≡ true → is_huge r ≡ false → to_u64 r < 2 ^ 64)
          → (if is_huge r then max_uint64 else if positive r then to_u64 r else 0) ≤ max_uint64
      bounded r h = ground (arith, h)

  -- The bound is the sum of the clock, the envelope and the slack, held at the largest uint64: it
  -- does not wrap, it is never below the receiver's own clock, and the envelope is a uint64.
  pub max_acceptable_dot_counter_lem :
      (s : LamportSnapshot)
      → s.lamport ≤ max_uint64
      → (max_acceptable_dot_counter s
          ≡ min max_uint64 (s.lamport + envelope_of s + s.absolute_slack))
        × (s.lamport ≤ max_acceptable_dot_counter s)
        × (envelope_of s ≤ max_uint64)
  unfolding max_acceptable_dot_counter
  max_acceptable_dot_counter_lem s h = (ground arith, ground arith, envelope_of-lt s)
