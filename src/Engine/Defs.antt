-- ===== src/Engine/Defs.antt =====
-- The engine's state and its operations outside `Join` (pkg/sync/crdt.go, pkg/sync/point_get.go).
-- Each compare-and-swap of a shard root succeeds at its first attempt. The arena, the epochs of the
-- reclamation and the pools hold no value that an operation reads, and are left out.
use sovereign.Prelude.{
  ℕ, zero, suc, ◌+◌, ◌-◌, ◌%◌, List, [], ◌∷◌, Option, none, some, Bool, false, ◌==◌, ltb, length,
  get_elem?, replicate, if◌then◌else◌,
}
use Prim.Native.Nat.{bit_and}
use sovereign.Float64.{Float64}
use sovereign.Entry.{CausalDot, CrdtEntry}
use sovereign.EntryMap.{EntryMap, Pair}
use sovereign.Merge.Defs.{merge_block, insertion_sort_last_entry}
use sovereign.Lamport.{Clock, u64_mod, next_dot, new_clock}

-- A Go call that may panic.
pub data Outcome {ℓ} (A : Type ℓ) : Type ℓ where
  done : A → Outcome A
  panic : Outcome A

abbrev pub default_shard_count : ℕ
default_shard_count = 256

-- `hash` is maphash with the engine's route seed: a uint64 for each string.
module _ (fl : Float64) (em : EntryMap) (hash : List ℕ → ℕ) where
  open em use {Map, empty, get, set, for_each}

  pub record Engine : Type 0 where
    pub shards : List Map
    pub local_node_id : List ℕ
    pub clock : Clock fl
    pub closing : Bool
    pub entries_inserted : ℕ
    pub entries_skipped : ℕ
    pub deltas_applied : ℕ

  -- `routeShard` among n shards
  unfoldable pub route_shard : ℕ → List ℕ → ℕ
  route_shard n entity_id =
      if n == 0
      then 0
      else if bit_and n (n - 1) == 0
      then bit_and (hash entity_id) (n - 1)
      else hash entity_id % n

  -- The entries that a set of shards holds for an entity.
  unfoldable pub entries_at : List Map → List ℕ → List CrdtEntry
  entries_at shards entity_id = elim (get_elem? shards (route_shard (length shards) entity_id)) [
    | none ↦ []
    | some m ↦ get m entity_id
  ]

  -- `PointGet`
  unfoldable pub point_get : Engine → List ℕ → List CrdtEntry
  unfolding entries_at
  point_get e entity_id = entries_at e.shards entity_id

  -- `initShardsLocked`
  unfoldable pub init_shards : ℕ → List Map
  init_shards n = replicate n empty

  -- `NewDeltaCRDTEngine`, with the counter file that it finds
  unfoldable pub new_engine : List ℕ → ℕ → Option (List ℕ) → Engine
  unfolding init_shards
  new_engine node_id initial_counter file = record {
    shards = init_shards default_shard_count;
    local_node_id = node_id;
    clock = new_clock fl initial_counter file;
    closing = false;
    entries_inserted = 0;
    entries_skipped = 0;
    deltas_applied = 0;
  }

  -- Replace the root of a shard; a position out of range is not reached.
  unfoldable pub update_shard : (Map → Map) → ℕ → List Map → List Map
  update_shard f i [] = []
  update_shard f zero (m ∷ shards) = f m ∷ shards
  update_shard f (suc i) (m ∷ shards) = m ∷ update_shard f i shards

  -- The dot fields that `InsertLocal` writes.
  unfoldable pub stamp : Engine → CausalDot → CrdtEntry → CrdtEntry
  stamp e d entry = record entry {
    dot_node_id = d.node_id;
    dot_counter = d.counter;
    origin_node_id = e.local_node_id;
  }

  -- `InsertLocal`
  unfoldable pub insert_local : List ℕ → CrdtEntry → Engine → Outcome (CausalDot × Engine)
  unfolding stamp update_shard
  insert_local entity_id entry e =
      if e.closing
      then panic
      else let (d, clock') = next_dot fl e.local_node_id e.clock in
        let entry' = stamp e d entry in
        let i = route_shard (length e.shards) entity_id in
        let put = λ (current : Map).
          set current entity_id (insertion_sort_last_entry (get current entity_id) entry') in
        done (
          d,
          record e {
            shards = update_shard put i e.shards;
            clock = clock';
            entries_inserted = (e.entries_inserted + 1) % u64_mod;
          },
        )

  -- `mergeExistingDot`; the flag `added` is that of the shared merge loop.
  unfoldable pub merge_existing_dot : Map → List ℕ → List CrdtEntry → Map
  merge_existing_dot base entity_id incoming =
      let r = merge_block (get base entity_id) incoming in
      if r.added then set base entity_id r.merged else base

  -- One pair of an old root, set into the new shards.
  unfoldable pub re_emit : List Map → List Pair → List Map
  unfolding merge_existing_dot update_shard
  re_emit shards [] = shards
  re_emit shards ((entity_id, entries) ∷ rest) =
      let i = route_shard (length shards) entity_id in
      re_emit (update_shard (λ m. merge_existing_dot m entity_id entries) i shards) rest

  unfoldable pub re_emit_all : List Map → List Map → List Map
  unfolding re_emit
  re_emit_all shards [] = shards
  re_emit_all shards (root ∷ old) = re_emit_all (re_emit shards (for_each root)) old

  -- `SetShardCount`
  unfoldable pub set_shard_count : ℕ → Engine → Outcome Engine
  unfolding re_emit_all init_shards
  set_shard_count n e =
      if ltb n 1
      then panic
      else if bit_and n (n - 1) == 0
      then (if length e.shards == n
          then done e
          else done (record e { shards = re_emit_all (init_shards n) e.shards }))
      else panic
