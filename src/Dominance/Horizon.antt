-- ===== src/Dominance/Horizon.antt =====
-- The horizon of the pruning (internal/database/l1_compactor.go): the constructor's coercion, and the
-- inferrer that raises the horizon behind the observed queries. The lister, the uploader, the
-- allocator and the gauges hold no value that these operations read.
use sovereign.Prelude.{
  ◌^◌, ◌≡◌, refl, Bool, true, false, ◌&&◌, inl, inr, Bool-cases, if◌then◌else◌, arith,
}
use sovereign.Prelude.Int.{ℤ, pos, ltb_ℤ, ◌-ℤ◌, ◌+ℤ◌, ◌≤ℤ◌}
use sovereign.Dominance.{leb_ℤ}

pub record CompactionConfig : Type 0 where
  pub l0_files_per_entity_trigger : ℤ
  pub max_l1_files_per_entity : ℤ
  pub enable_dominance_pruning : Bool
  pub pruning_horizon : ℤ
  pub prune_backoff : ℤ

-- `DefaultCompactionConfig`
unfoldable pub default_compaction_config : CompactionConfig
default_compaction_config = record {
  l0_files_per_entity_trigger = pos 64;
  max_l1_files_per_entity = pos 4;
  enable_dominance_pruning = false;
  pruning_horizon = pos 0;
  prune_backoff = pos 0;
}

-- The compactor's state, with the fields of its `horizonInferrer`.
pub record L1Compactor : Type 0 where
  pub cfg : CompactionConfig
  pub operator_floor : ℤ
  pub backoff : ℤ

-- A count that is not positive becomes the default.
abbrev pub positive_or : ℤ → ℤ → ℤ
positive_or default n = if leb_ℤ n (pos 0) then default else n

-- `NewL1Compactor`
unfoldable pub new_l1_compactor : CompactionConfig → L1Compactor
new_l1_compactor cfg =
    let counted = record cfg {
      l0_files_per_entity_trigger = positive_or (pos 64) cfg.l0_files_per_entity_trigger;
      max_l1_files_per_entity = positive_or (pos 4) cfg.max_l1_files_per_entity;
    } in
    if cfg.enable_dominance_pruning && leb_ℤ cfg.pruning_horizon (pos 0)
    then record {
      cfg = record counted { enable_dominance_pruning = false; pruning_horizon = pos 0 };
      operator_floor = pos 0;
      backoff = cfg.prune_backoff;
    }
    else record { cfg = counted; operator_floor = cfg.pruning_horizon; backoff = cfg.prune_backoff }

-- The int64 of a difference of two int64s.
unfoldable pub wrap_int64 : ℤ → ℤ
unfolding ◌-ℤ◌ ◌+ℤ◌
wrap_int64 z =
    if ltb_ℤ z (pos 0 -ℤ pos (2 ^ 63))
    then z +ℤ pos (2 ^ 64)
    else if ltb_ℤ z (pos (2 ^ 63))
    then z
    else z -ℤ pos (2 ^ 64)

-- `EffectiveHorizon`
unfoldable pub effective_horizon : ℤ → L1Compactor → ℤ
unfolding wrap_int64 ◌-ℤ◌
effective_horizon observed c =
    let inferred = wrap_int64 (observed -ℤ c.backoff) in
    if ltb_ℤ inferred c.operator_floor then c.operator_floor else inferred

-- `SetInferredHorizon`: the horizon that it returns, and the compactor.
unfoldable pub set_inferred_horizon : ℤ → L1Compactor → ℤ × L1Compactor
set_inferred_horizon candidate c =
    let current = c.cfg.pruning_horizon in
    if leb_ℤ candidate current
    then (current, c)
    else (candidate, record c { cfg = record c.cfg { pruning_horizon = candidate } })

-- `InferHorizon` with a resolver whose observed frontier is given
unfoldable pub infer_horizon : ℤ → L1Compactor → L1Compactor
unfolding set_inferred_horizon effective_horizon
infer_horizon observed c = (set_inferred_horizon (effective_horizon observed c) c).1

-- The operator's floor holds, and pruning is on only with a positive horizon.
pub record IsSafe (c : L1Compactor) : Type 0 where
  pub floored : c.operator_floor ≤ℤ c.cfg.pruning_horizon
  pub positive : c.cfg.enable_dominance_pruning ≡ true → ltb_ℤ (pos 0) c.cfg.pruning_horizon ≡ true

-- Whatever the configuration, the constructor's compactor keeps the horizon at or above the
-- operator's floor and never prunes with a horizon that is not positive.
pub new_l1_compactor-IsSafe : (cfg : CompactionConfig) → IsSafe (new_l1_compactor cfg)
unfolding new_l1_compactor
new_l1_compactor-IsSafe cfg = record { floored = ground arith; positive = ground arith }

-- Any candidate leaves the horizon where it was or higher.
set_inferred_horizon_lem :
    (candidate : ℤ) (c : L1Compactor)
    → IsSafe c
    → let c' = (set_inferred_horizon candidate c).1 in
      (c.cfg.pruning_horizon ≤ℤ c'.cfg.pruning_horizon)
      × (c'.operator_floor ≡ c.operator_floor)
      × (c'.backoff ≡ c.backoff)
      × (c'.cfg.enable_dominance_pruning ≡ c.cfg.enable_dominance_pruning)
      × IsSafe c'
unfolding set_inferred_horizon
set_inferred_horizon_lem candidate c s = elim (Bool-cases (leb_ℤ candidate c.cfg.pruning_horizon)) [
  | inl e ↦ rw e (ground arith, refl, refl, refl, s)
  | inr e ↦ rw e (
    ground arith,
    refl,
    refl,
    refl,
    record { floored = ground (arith, s.floored); positive = λ on. ground (arith, s.positive on) },
  )
]

-- Whatever frontier was observed, and also where the difference wraps, an inference never lowers
-- the horizon, leaves the floor, the backoff and the pruning switch as they were, and keeps the safety.
pub infer_horizon-IsSafe :
    (observed : ℤ) (c : L1Compactor)
    → IsSafe c
    → let c' = infer_horizon observed c in
      (c.cfg.pruning_horizon ≤ℤ c'.cfg.pruning_horizon)
      × (c'.operator_floor ≡ c.operator_floor)
      × (c'.backoff ≡ c.backoff)
      × (c'.cfg.enable_dominance_pruning ≡ c.cfg.enable_dominance_pruning)
      × IsSafe c'
unfolding infer_horizon
infer_horizon-IsSafe observed c s = set_inferred_horizon_lem (effective_horizon observed c) c s
