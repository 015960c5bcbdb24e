-- ===== src/Tests/CompactionTests.antt =====
-- The two compactors at concrete rows and records.
use sovereign.Prelude.{◌≡◌, ◌⊎◌, inl, length, refl, List, [], ◌∷◌, true, arith}
use sovereign.Prelude.Int.{ℤ, pos, ◌≤ℤ◌}
use sovereign.Prelude.Members.{Mem}
use sovereign.Bytes.{All}
use sovereign.Entry.{compare_bytes}
use sovereign.Tombstones.{TombstoneRecord, EpochCompactor, prune_tombstones}
use sovereign.Tombstones.Prune.{is_known, prune_tombstones-kept, prune_tombstones-dropped, IsStable}
use sovereign.Dominance.{Row, dominance_prune}
use sovereign.Dominance.Batches.{IsAscending}
use sovereign.Dominance.Reference.{prune_reference, dominance_prune-reference}
use sovereign.Dominance.Horizon.{
  CompactionConfig, IsSafe, new_l1_compactor, infer_horizon, new_l1_compactor-IsSafe,
  infer_horizon-IsSafe,
}

abbrev row : ℤ → ℤ → ℤ → Row
row t a b = record {
  frag = [];
  sys_t = t;
  vs = a;
  ve = b;
  ast = pos 0;
  h3 = 0;
  pdz = [];
  eid = [];
  pld = [];
}

abbrev rows : List Row
rows = row (pos 1) (pos 2) (pos 3) ∷ row (pos 4) (pos 0) (pos 9) ∷ row (pos 8) (pos 0) (pos 9) ∷ []

rows-IsAscending : IsAscending rows
rows-IsAscending = ((refl, (refl, tt)), ((refl, tt), (tt, tt)))

dominance_prune-reference_example : dominance_prune rows (pos 5) ≡ prune_reference rows (pos 5)
dominance_prune-reference_example = dominance_prune-reference rows (pos 5) rows-IsAscending refl

abbrev config : CompactionConfig
config = record {
  l0_files_per_entity_trigger = pos 0;
  max_l1_files_per_entity = pos 2;
  enable_dominance_pruning = true;
  pruning_horizon = pos 100;
  prune_backoff = pos 10;
}

infer_horizon-IsSafe_example :
    ((new_l1_compactor config).cfg.pruning_horizon
      ≤ℤ (infer_horizon (pos 500) (new_l1_compactor config)).cfg.pruning_horizon)
    × ((infer_horizon (pos 500) (new_l1_compactor config)).operator_floor
        ≡ (new_l1_compactor config).operator_floor)
    × ((infer_horizon (pos 500) (new_l1_compactor config)).backoff
        ≡ (new_l1_compactor config).backoff)
    × ((infer_horizon (pos 500) (new_l1_compactor config)).cfg.enable_dominance_pruning
        ≡ (new_l1_compactor config).cfg.enable_dominance_pruning)
    × IsSafe (infer_horizon (pos 500) (new_l1_compactor config))
infer_horizon-IsSafe_example =
    infer_horizon-IsSafe (pos 500) (new_l1_compactor config) (new_l1_compactor-IsSafe config)

abbrev stone : TombstoneRecord
stone = record { entity_id = 1 ∷ []; epoch = 3; node_id = []; counter = 0; timestamp = 0 }

abbrev compactor : EpochCompactor
compactor = record {
  current_epoch = 9;
  stability_lag = 2;
  peer_epochs = (1 ∷ [], 6) ∷ (2 ∷ [], 8) ∷ [];
  tombstones = stone ∷ [];
  total_pruned = 0;
  total_inserted = 1;
  last_prune_time = 0;
}

prune_tombstones-kept_example :
    ((prune_tombstones 0 compactor).remaining
      ≡ length (prune_tombstones 0 compactor).compactor.tombstones)
    × All
        (λ (t : TombstoneRecord). Mem t (stone ∷ []) × (¬ IsStable compactor t))
        (prune_tombstones 0 compactor).compactor.tombstones
prune_tombstones-kept_example = prune_tombstones-kept 0 compactor (omega arith, (omega arith, tt))

prune_tombstones-dropped_example :
    Mem stone (prune_tombstones 0 compactor).compactor.tombstones
    ⊎ (Mem (1 ∷ []) (prune_tombstones 0 compactor).pruned × IsStable compactor stone)
prune_tombstones-dropped_example =
    prune_tombstones-dropped 0 compactor stone (omega arith) (inl refl)

known : is_known (1 ∷ []) compactor.peer_epochs ≡ true
unfolding compare_bytes
known = refl
