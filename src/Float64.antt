-- ===== src/Float64.antt =====
-- The operations on float64 that the code uses. There are no floats in the model: the type and its
-- operations are parameters, with what the code relies on as laws.
use sovereign.Prelude.{ℕ, ◌^◌, ◌<◌, ◌≡◌, Bool, true, false}

pub record Float64 : Type 1 where
  pub Float : Type 0
  pub zero_float : Float
  -- the literals 0.1 and 1.0 - 0.1
  pub tenth : Float
  pub nine_tenths : Float
  -- float64(x) for a uint64 x
  pub from_u64 : ℕ → Float
  pub add : Float → Float → Float
  pub mul : Float → Float → Float
  -- math.Ceil
  pub ceil : Float → Float
  -- f > 0
  pub positive : Float → Bool
  -- f >= float64(math.MaxUint64)
  pub is_huge : Float → Bool
  -- uint64(f)
  pub to_u64 : Float → ℕ
  -- A positive float64 below 2^64 converts to a uint64.
  pub to_u64-lt : (f : Float) → positive f ≡ true → is_huge f ≡ false → to_u64 f < 2 ^ 64
