-- ===== src/Engine/Join.antt =====
-- `Join` (pkg/sync/crdt.go): sort the delta's entries by entity and dot, drop repeated dots, and
-- merge the blocks of each entity into the shards, shard by shard.
use sovereign.Prelude.{
  ℕ, ◌+◌, ◌-◌, ◌%◌, List, [], ◌∷◌, Option, none, some, Bool, true, false, ◌&&◌, ◌||◌, Ordering,
  ◌==◌, ltb, length, get_elem?, set as set_elem, if◌then◌else◌,
}
use sovereign.Float64.{Float64}
use sovereign.Entry.{CrdtEntry, IncomingEntry, dot, compare_dots}
use sovereign.EntryMap.{EntryMap, same_key}
use sovereign.Merge.Defs.{merge_block}
use sovereign.Lamport.{Clock, u64_mod, advance_lamport_to}
use sovereign.Engine.Defs.{Engine, Outcome, done, panic, route_shard}
use sovereign.Engine.Sorter.{Sorter}

-- The dedup loop's test: another entity, or another dot.
abbrev pub is_repeat : IncomingEntry → IncomingEntry → Bool
is_repeat x y =
    same_key x.entity_id y.entity_id
    && elim (compare_dots (dot x.entry) (dot y.entry)) [ Ordering.eq ↦ true | _ ↦ false ]

-- `prev` is incoming[k-1], the last entry that was kept.
unfoldable pub dedup_loop : IncomingEntry → List IncomingEntry → List IncomingEntry
dedup_loop prev [] = []
dedup_loop prev (x ∷ xs) = elim (is_repeat x prev) [
  | true ↦ dedup_loop prev xs
  | false ↦ x ∷ dedup_loop x xs
]

unfoldable pub dedup_incoming : List IncomingEntry → List IncomingEntry
dedup_incoming [] = []
dedup_incoming (x ∷ xs) = x ∷ dedup_loop x xs

-- A run of entries with one entity.
pub record Block : Type 0 where
  pub entity_id : List ℕ
  pub entries : List CrdtEntry

unfoldable pub cons_block : IncomingEntry → List Block → List Block
cons_block x [] = record { entity_id = x.entity_id; entries = x.entry ∷ [] } ∷ []
cons_block x (b ∷ rest) =
    if same_key x.entity_id b.entity_id
    then record b { entries = x.entry ∷ b.entries } ∷ rest
    else record { entity_id = x.entity_id; entries = x.entry ∷ [] } ∷ b ∷ rest

unfoldable pub group_blocks : List IncomingEntry → List Block
unfolding cons_block
group_blocks [] = []
group_blocks (x ∷ xs) = cons_block x (group_blocks xs)

-- The keys of `shardBatches`, each once and in increasing order.
unfoldable pub insert_index : ℕ → List ℕ → List ℕ
insert_index i [] = i ∷ []
insert_index i (j ∷ rest) =
    let later = insert_index i rest in
    if ltb i j then i ∷ j ∷ rest else if i == j then j ∷ rest else j ∷ later

module _ (fl : Float64) (em : EntryMap) (hash : List ℕ → ℕ) where
  open em use {Map, get, set}

  -- The clock after the callback of `delta.Entries` has seen every entry.
  unfoldable pub advance_all : List IncomingEntry → Clock fl → Clock fl
  advance_all [] c = c
  advance_all (x ∷ xs) c = advance_all xs (advance_lamport_to fl x.entry.dot_counter c)

  -- `shardBatches[idx]`, among n shards
  unfoldable pub batches_of : ℕ → ℕ → List Block → List Block
  batches_of n idx [] = []
  batches_of n idx (b ∷ blocks) =
      let rest = batches_of n idx blocks in
      if route_shard fl em hash n b.entity_id == idx then b ∷ rest else rest

  -- `shardOrder`
  unfoldable pub shard_order : ℕ → List Block → List ℕ
  unfolding insert_index
  shard_order n [] = []
  shard_order n (b ∷ blocks) =
      insert_index (route_shard fl em hash n b.entity_id) (shard_order n blocks)

  pub record ShardMerge : Type 0 where
    pub modified : Map
    pub inserted : ℕ
    pub skipped : ℕ
    pub added_any : Bool

  -- One block of `perShardMerge`.
  unfoldable pub merge_step : Block → ShardMerge → ShardMerge
  merge_step b s =
      let r = merge_block (get s.modified b.entity_id) b.entries in
      record {
        modified = if r.added then set s.modified b.entity_id r.merged else s.modified;
        inserted = s.inserted + r.inserted;
        skipped = s.skipped + r.skipped;
        added_any = r.added || s.added_any;
      }

  unfoldable pub merge_blocks : List Block → ShardMerge → ShardMerge
  unfolding merge_step
  merge_blocks [] s = s
  merge_blocks (b ∷ blocks) s = merge_blocks blocks (merge_step b s)

  unfoldable pub per_shard_merge : Map → List Block → ShardMerge
  unfolding merge_blocks
  per_shard_merge base batches =
      merge_blocks batches record { modified = base; inserted = 0; skipped = 0; added_any = false }

  pub record Totals : Type 0 where
    pub shards : List Map
    pub total_inserted : ℕ
    pub total_skipped : ℕ

  -- One shard of the loop over `shardOrder`; the root is replaced only where something was added.
  unfoldable pub join_shard : ℕ → List Block → Totals → Totals
  unfolding per_shard_merge batches_of
  join_shard idx blocks t = elim (get_elem? t.shards idx) [
    | none ↦ t
    | some current ↦
        let r = per_shard_merge current (batches_of (length t.shards) idx blocks) in
        if r.added_any
        then record {
          shards = set_elem t.shards idx r.modified;
          total_inserted = t.total_inserted + r.inserted;
          total_skipped = t.total_skipped + r.skipped;
        }
        else record t { total_skipped = t.total_skipped + r.skipped }
  ]

  unfoldable pub join_shards : List ℕ → List Block → Totals → Totals
  unfolding join_shard
  join_shards [] blocks t = t
  join_shards (idx ∷ order) blocks t = join_shards order blocks (join_shard idx blocks t)

  module _ (so : Sorter) where
    open so use {sort}

    -- The part of `Join` behind the callback, on the entries that it gathered, of which there is one.
    unfoldable pub join_incoming : List IncomingEntry → Engine fl em hash → Engine fl em hash
    unfolding dedup_incoming group_blocks shard_order join_shards
    join_incoming gathered e =
        let incoming = dedup_incoming (sort gathered) in
        let repeats = length gathered - length incoming in
        let blocks = group_blocks incoming in
        let t =
          join_shards (shard_order (length e.shards) blocks) blocks
            record { shards = e.shards; total_inserted = 0; total_skipped = 0 } in
        record e {
          shards = t.shards;
          entries_skipped = (e.entries_skipped + repeats + t.total_skipped) % u64_mod;
          entries_inserted = (e.entries_inserted + t.total_inserted) % u64_mod;
          deltas_applied = (e.deltas_applied + 1) % u64_mod;
        }

    -- `Join`; `none` is a delta with no iterator.
    unfoldable pub join :
        Option (List IncomingEntry) → Engine fl em hash → Outcome (Engine fl em hash)
    unfolding join_incoming advance_all
    join delta e = if e.closing then panic else elim delta [
      | none ↦ done e
      | some [] ↦ done e
      | some (x ∷ xs) ↦
          done (join_incoming (x ∷ xs) (record e { clock = advance_all (x ∷ xs) e.clock }))
    ]
