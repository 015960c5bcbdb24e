-- ===== src/Tombstones.antt =====
-- The epoch-based collector of tombstones, `EpochCompactor` of internal/database/compactor.go.
-- The peers' map is an association list with each peer once; clock readings are arguments.
pub mod Prune
use sovereign.Prelude.{ℕ, ◌+◌, ◌-◌, ◌%◌, ◌^◌, List, [], ◌∷◌, ◌++◌, ◌==◌, ltb, length, if◌then◌else◌}
use sovereign.EntryMap.{same_key}

pub record TombstoneRecord : Type 0 where
  pub entity_id : List ℕ
  pub epoch : ℕ
  pub node_id : List ℕ
  pub counter : ℕ
  pub timestamp : ℕ

abbrev pub Peer : Type 0
Peer = List ℕ × ℕ

pub record EpochCompactor : Type 0 where
  pub current_epoch : ℕ
  pub stability_lag : ℕ
  pub peer_epochs : List Peer
  pub tombstones : List TombstoneRecord
  pub total_pruned : ℕ
  pub total_inserted : ℕ
  pub last_prune_time : ℕ

abbrev pub default_stability_lag : ℕ
default_stability_lag = 2

-- `NewEpochCompactor`
unfoldable pub new_epoch_compactor : ℕ → EpochCompactor
new_epoch_compactor lag = record {
  current_epoch = 0;
  stability_lag = if lag == 0 then default_stability_lag else lag;
  peer_epochs = [];
  tombstones = [];
  total_pruned = 0;
  total_inserted = 0;
  last_prune_time = 0;
}

-- `BumpEpoch`
unfoldable pub bump_epoch : EpochCompactor → ℕ × EpochCompactor
bump_epoch c =
    let next = (c.current_epoch + 1) % 2 ^ 64 in (next, record c { current_epoch = next })

-- The map after `AdvancePeerEpoch`: an unknown peer is added, a known one only goes forward.
unfoldable pub advance_peer : List ℕ → ℕ → List Peer → List Peer
advance_peer id epoch [] = (id, epoch) ∷ []
advance_peer id epoch ((j, current) ∷ peers) =
    let rest = advance_peer id epoch peers in
    if same_key id j
    then (j, (if ltb current epoch then epoch else current)) ∷ peers
    else (j, current) ∷ rest

-- `AdvancePeerEpoch`
unfoldable pub advance_peer_epoch : List ℕ → ℕ → EpochCompactor → EpochCompactor
unfolding advance_peer
advance_peer_epoch id epoch c = record c { peer_epochs = advance_peer id epoch c.peer_epochs }

unfoldable pub min_loop : ℕ → List Peer → ℕ
min_loop least [] = least
min_loop least ((j, e) ∷ peers) = min_loop (if ltb e least then e else least) peers

-- `StableEpoch`
unfoldable pub stable_epoch : List Peer → ℕ
unfolding min_loop
stable_epoch [] = 0
stable_epoch (p ∷ peers) = min_loop (2 ^ 64 - 1) (p ∷ peers)

-- `InsertTombstone`, at the clock reading `now`
unfoldable pub insert_tombstone : List ℕ → List ℕ → ℕ → ℕ → EpochCompactor → EpochCompactor
insert_tombstone entity_id node_id counter now c =
    let t : TombstoneRecord = record {
      entity_id = entity_id;
      epoch = c.current_epoch;
      node_id = node_id;
      counter = counter;
      timestamp = now;
    } in
    record c {
      tombstones = c.tombstones ++ (t ∷ []);
      total_inserted = (c.total_inserted + 1) % 2 ^ 64;
    }

-- The filter loop: what it keeps, and the entities of what it does not. The set of pruned entities
-- is a list of them, which may name one twice.
pub record Swept : Type 0 where
  pub kept : List TombstoneRecord
  pub pruned : List (List ℕ)

unfoldable pub sweep : ℕ → List TombstoneRecord → Swept
sweep threshold [] = record { kept = []; pruned = [] }
sweep threshold (t ∷ rest) =
    let later = sweep threshold rest in
    if ltb threshold t.epoch
    then record later { kept = t ∷ later.kept }
    else record later { pruned = t.entity_id ∷ later.pruned }

pub record PruneResult : Type 0 where
  pub pruned : List (List ℕ)
  pub remaining : ℕ
  pub compactor : EpochCompactor

-- `PruneTombstones`, at the clock reading `now`
unfoldable pub prune_tombstones : ℕ → EpochCompactor → PruneResult
unfolding sweep stable_epoch
prune_tombstones now c =
    let stable = stable_epoch c.peer_epochs in
    if ltb stable c.stability_lag
    then record { pruned = []; remaining = length c.tombstones; compactor = c }
    else let s = sweep (stable - c.stability_lag) c.tombstones in
      let pruned_count = length c.tombstones - length s.kept in
      let c' = record c { tombstones = s.kept } in
      record {
        pruned = s.pruned;
        remaining = length s.kept;
        compactor =
            if ltb 0 pruned_count
            then record c' {
              total_pruned = (c.total_pruned + pruned_count) % 2 ^ 64;
              last_prune_time = now;
            }
            else c';
      }
