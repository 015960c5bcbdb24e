-- ===== src/Dominance.antt =====
-- The pruning of superseded rows in a compaction, `DominancePrune` of internal/database/l1_compactor.go,
-- and the horizon that it is given. An int64 is an integer; of the horizon's arithmetic the one
-- difference that can wrap is written out.
pub mod Batches
pub mod Reference
pub mod Horizon
use sovereign.Prelude.{
  ℕ, ◌-◌, ◌*◌, ◌%◌, ◌^◌, List, [], ◌∷◌, ◌++◌, map, Bool, true, false, not, ◌&&◌, ◌||◌, ltb,
  if◌then◌else◌,
}
use sovereign.Prelude.Int.{ℤ, pos, pos_part, neg_part, ltb_ℤ, ◌-ℤ◌}
use sovereign.Prelude.Members.{any, filter}

-- `mergedRowT`
pub record Row : Type 0 where
  pub frag : List ℕ
  pub sys_t : ℤ
  pub vs : ℤ
  pub ve : ℤ
  pub ast : ℤ
  pub h3 : ℕ
  pub pdz : List ℕ
  pub eid : List ℕ
  pub pld : List ℕ

pub record LiveInterval : Type 0 where
  pub vs : ℤ
  pub ve : ℤ

-- a ≤ b and a == b on int64
abbrev pub leb_ℤ : ℤ → ℤ → Bool
leb_ℤ a b = not (ltb_ℤ b a)

abbrev pub eq_ℤ : ℤ → ℤ → Bool
eq_ℤ a b = leb_ℤ a b && leb_ℤ b a

-- A maximal run of rows with one system time.
pub record Batch : Type 0 where
  pub batch_sys : ℤ
  pub rows : List Row

unfoldable pub cons_row : Row → List Batch → List Batch
cons_row r [] = record { batch_sys = r.sys_t; rows = r ∷ [] } ∷ []
cons_row r (b ∷ rest) =
    if eq_ℤ r.sys_t b.batch_sys
    then record b { rows = r ∷ b.rows } ∷ rest
    else record { batch_sys = r.sys_t; rows = r ∷ [] } ∷ b ∷ rest

unfoldable pub batches : List Row → List Batch
unfolding cons_row
batches [] = []
batches (r ∷ rest) = cons_row r (batches rest)

-- The probe: some live interval contains the row's.
unfoldable pub is_covered : List LiveInterval → Row → Bool
is_covered live r = any (λ (l : LiveInterval). leb_ℤ l.vs r.vs && leb_ℤ r.ve l.ve) live

abbrev pub interval_of : Row → LiveInterval
interval_of r = record { vs = r.vs; ve = r.ve }

-- The live intervals and the rows that are kept, after the batches of a list, last batch first.
pub record SweepState : Type 0 where
  pub live : List LiveInterval
  pub kept : List Row

unfoldable pub sweep_batch : ℤ → Batch → SweepState → SweepState
unfolding is_covered
sweep_batch horizon b s =
    let survivors = filter (λ (r : Row). not (is_covered s.live r)) b.rows in
    record {
      live = if leb_ℤ b.batch_sys horizon then s.live ++ map interval_of survivors else s.live;
      kept = survivors ++ s.kept;
    }

unfoldable pub sweep : ℤ → List Batch → SweepState
unfolding sweep_batch
sweep horizon [] = record { live = []; kept = [] }
sweep horizon (b ∷ rest) = sweep_batch horizon b (sweep horizon rest)

-- `DominancePrune`
unfoldable pub dominance_prune : List Row → ℤ → List Row
unfolding sweep batches
dominance_prune rows horizon =
    if leb_ℤ horizon (pos 0) then rows else (sweep horizon (batches rows)).kept
