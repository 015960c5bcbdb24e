-- ===== src/WallClock.antt =====
-- The wall-time cap, pkg/clock/admission.go, in front of the Lamport clock. The local wall clock's
-- reading is an argument.
use sovereign.Prelude.{
  ℕ, ◌+◌, ◌-◌, ◌^◌, ◌≤◌, ◌<◌, ◌≡◌, true, false, Bool, leb, ltb, if◌then◌else◌, arith,
}
use sovereign.Prelude.Int.{ℤ, pos, negsuc, ◌-ℤ◌, ◌+ℤ◌, pos_part, neg_part, ltb_ℤ}
use sovereign.Float64.{Float64}
use sovereign.Dominance.Horizon.{wrap_int64}
use sovereign.Lamport.{Clock, advance_lamport_to}

-- `maxDriftEpsilon`, in microseconds
abbrev pub max_drift_epsilon : ℤ
max_drift_epsilon = pos 2000

-- Go's conversion of a uint64 to int64.
abbrev pub int64_of : ℕ → ℤ
int64_of n = if ltb n (2 ^ 63) then pos n else negsuc (2 ^ 64 - 1 - n)

-- The test of `Admit`, whose difference wraps.
unfoldable pub is_late_enough : ℤ → ℤ → Bool
unfolding wrap_int64 ◌-ℤ◌
is_late_enough local incoming =
    if ltb_ℤ max_drift_epsilon (wrap_int64 (incoming -ℤ local)) then false else true

module _ (fl : Float64) where
  -- `Admit`
  unfoldable pub admit : ℤ → ℤ → ℕ → Clock fl → Bool × Clock fl
  unfolding is_late_enough
  admit local incoming logical c =
      if is_late_enough local incoming then (true, advance_lamport_to fl logical c) else (false, c)

-- Where the local time is not negative and the difference does not wrap, `Admit` accepts a frame just
-- when its time is at most 2000 microseconds ahead of the local one.
is_late_enough_lem :
    (local incoming : ℤ)
    → neg_part local ≡ 0
    → pos_part local < 2 ^ 63
    → pos_part incoming < 2 ^ 63
    → neg_part incoming + pos_part local ≤ 2 ^ 63
    → is_late_enough local incoming ≡ leb (pos_part incoming) (pos_part local + 2000)
unfolding is_late_enough wrap_int64 ◌-ℤ◌ ◌+ℤ◌
is_late_enough_lem (pos a) (pos b) h1 h2 h3 h4 = ground arith
is_late_enough_lem (pos a) (negsuc b) h1 h2 h3 h4 = ground arith
is_late_enough_lem (negsuc a) incoming h1 h2 h3 h4 = absurd (omega arith)
