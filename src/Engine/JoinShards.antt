-- ===== src/Engine/JoinShards.antt =====
-- The loop of `Join` over the shards, and `Join` itself, at each entity and dot.
use sovereign.Prelude.{
  ℕ, ◌<◌, List, [], ◌∷◌, Option, none, true, false, ◌≡◌, ◌≢◌, refl, sym, ap, ◌∙◌, inl, inr,
  Bool-cases, Option-cases, ◌==◌, length, get_elem?, if◌then◌else◌, arith,
}
use sovereign.Bytes.{All}
use sovereign.Float64.{Float64}
use sovereign.Entry.{CausalDot, CrdtEntry}
use sovereign.EntryMap.{EntryMap, same_key, same_key_refl, key_eq}
use sovereign.Merge.Defs.{merge_block}
use sovereign.Merge.Find.{find, or_else}
use sovereign.Engine.Defs.{route_shard, entries_at, update_shard}
use sovereign.Engine.Join.{
  Block, ShardMerge, merge_step, Totals, batches_of, merge_blocks, per_shard_merge, join_shard,
  join_shards,
}
use sovereign.Engine.Incoming.{find_blocks}
use sovereign.Engine.Blocks.{AllSorted}
use sovereign.Engine.Shards.{
  length-update_shard, entries_at-update, update_shard-none, update_shard-some, update_shard_same,
  All-get_elem?, All-update_shard,
}
use sovereign.Engine.Merging.{SortedIn, find-merge_blocks, or_else-none}

module _ (fl : Float64) (em : EntryMap) (hash : List ℕ → ℕ) where
  open em use {Map, get, set}

  added_stays :
      (blocks : List Block) (s : ShardMerge fl em hash)
      → s.added_any ≡ true
      → (merge_blocks fl em hash blocks s).added_any ≡ true
  unfolding merge_blocks
  added_stays [] s h = h
  added_stays (b ∷ blocks) s h = added_stays blocks (merge_step fl em hash b s) (ground arith)

  -- Where nothing was added the map is the one that the loop began with.
  not_added :
      (blocks : List Block) (s : ShardMerge fl em hash)
      → (merge_blocks fl em hash blocks s).added_any ≡ false
      → (merge_blocks fl em hash blocks s).modified ≡ s.modified
  unfolding merge_blocks
  not_added [] s h = refl
  not_added (b ∷ blocks) s h =
      elim (Bool-cases (merge_block (get s.modified b.entity_id) b.entries).added) [
        | inl e ↦ cc (h, added_stays blocks (merge_step fl em hash b s) (rw e))
        | inr e ↦ not_added blocks (merge_step fl em hash b s) h ∙ rw e
      ]

  abbrev pub shard_step : ℕ → ℕ → List Block → Map → Map
  shard_step n idx blocks m =
      (per_shard_merge fl em hash m (batches_of fl em hash n idx blocks)).modified

  -- One round of the loop, on the shards.
  unfoldable pub round : ℕ → List Block → List Map → List Map
  round idx blocks shards =
      update_shard fl em hash (shard_step (length shards) idx blocks) idx shards

  unfoldable pub rounds : List ℕ → List Block → List Map → List Map
  unfolding round
  rounds [] blocks shards = shards
  rounds (idx ∷ order) blocks shards = rounds order blocks (round idx blocks shards)

  shards-join_shard :
      (idx : ℕ) (blocks : List Block) (t : Totals fl em hash)
      → (join_shard fl em hash idx blocks t).shards ≡ round idx blocks t.shards
  unfolding join_shard round
  shards-join_shard idx blocks t = elim (Option-cases (get_elem? t.shards idx)) [
    | inl e ↦ rw (e, join_shard) (sym (update_shard-none fl em hash _ idx t.shards e))
    | inr (m, e) ↦
        let r = per_shard_merge fl em hash m (batches_of fl em hash (length t.shards) idx blocks) in
        elim (Bool-cases r.added_any) [
          | inl a ↦
              rw (e, join_shard, a)
                (sym (update_shard-some fl em hash _ idx t.shards m r.modified e refl))
          | inr n ↦
              rw (e, join_shard, n)
                (sym (
                  update_shard_same fl em hash _ idx t.shards m e (
                    unfold per_shard_merge in
                    not_added (batches_of fl em hash (length t.shards) idx blocks) _ n)))
        ]
  ]

  pub shards-join_shards :
      (order : List ℕ) (blocks : List Block) (t : Totals fl em hash)
      → (join_shards fl em hash order blocks t).shards ≡ rounds order blocks t.shards
  unfolding join_shards rounds
  shards-join_shards [] blocks t = refl
  shards-join_shards (idx ∷ order) blocks t =
      shards-join_shards order blocks (join_shard fl em hash idx blocks t)
      ∙ ap (rounds order blocks) (shards-join_shard idx blocks t)

  -- The blocks of a shard hold what the blocks hold, for the entities that are routed there.
  find-batches_of :
      (n idx : ℕ) (blocks : List Block) (k : List ℕ) (d : CausalDot)
      → find_blocks k d (batches_of fl em hash n idx blocks)
        ≡ (if idx == route_shard fl em hash n k then find_blocks k d blocks else none)
  unfolding batches_of
  find-batches_of n idx [] k d = ground arith
  find-batches_of n idx (b ∷ blocks) k d = elim (Bool-cases (same_key k b.entity_id)) [
    | inl e ↦
        rw (key_eq k b.entity_id e)
          (ground (arith, same_key_refl k, find-batches_of n idx blocks k d))
    | inr e ↦ ground (arith, e, find-batches_of n idx blocks k d)
  ]

  AllSorted-batches_of :
      (n idx : ℕ) (blocks : List Block)
      → AllSorted blocks
      → AllSorted (batches_of fl em hash n idx blocks)
  unfolding batches_of
  AllSorted-batches_of n idx [] a = tt
  AllSorted-batches_of n idx (b ∷ blocks) a = ground (arith, AllSorted-batches_of n idx blocks)

  -- What round idx gives to the entity `k`.
  abbrev pub share : ℕ → ℕ → List Block → List ℕ → CausalDot → Option CrdtEntry
  share n idx blocks k d =
      if idx == route_shard fl em hash n k then find_blocks k d blocks else none

  share-ne :
      (n idx : ℕ) (blocks : List Block) (k : List ℕ) (d : CausalDot)
      → idx ≢ route_shard fl em hash n k
      → share n idx blocks k d ≡ none
  share-ne n idx blocks k d h = ground arith

  find-psm :
      (m : Map) (blocks : List Block) (k : List ℕ) (d : CausalDot)
      → AllSorted blocks
      → SortedIn fl em hash m
      → (find d (get (per_shard_merge fl em hash m blocks).modified k)
          ≡ or_else (find d (get m k)) (find_blocks k d blocks))
        × SortedIn fl em hash (per_shard_merge fl em hash m blocks).modified
  unfolding per_shard_merge
  find-psm m blocks k d a h = find-merge_blocks fl em hash blocks _ k d a h

  pub find-round :
      (idx : ℕ) (blocks : List Block) (shards : List Map) (k : List ℕ) (d : CausalDot)
      → idx < length shards
      → AllSorted blocks
      → All (SortedIn fl em hash) shards
      → find d (entries_at fl em hash (round idx blocks shards) k)
        ≡ or_else (find d (entries_at fl em hash shards k)) (share (length shards) idx blocks k d)
  unfolding round
  find-round idx blocks shards k d lt a h =
      elim (entries_at-update fl em hash (shard_step (length shards) idx blocks) idx shards k lt) [
        | inl (same, (m, found, old, new)) ↦
            rw (new, old)
              ((find-psm m (batches_of fl em hash (length shards) idx blocks) k d
                  (AllSorted-batches_of (length shards) idx blocks a)
                  (All-get_elem? fl em hash (SortedIn fl em hash) shards idx m found h)).0
                ∙ ap (or_else (find d (get m k))) (find-batches_of (length shards) idx blocks k d))
        | inr (other, new) ↦ rw new (
            sym (
              ap (or_else (find d (entries_at fl em hash shards k)))
                (share-ne (length shards) idx blocks k d other)
              ∙ or_else-none (find d (entries_at fl em hash shards k))))
      ]

  pub AllSortedIn-round :
      (idx : ℕ) (blocks : List Block) (shards : List Map)
      → AllSorted blocks
      → All (SortedIn fl em hash) shards
      → All (SortedIn fl em hash) (round idx blocks shards)
  unfolding round
  AllSortedIn-round idx blocks shards a h =
      All-update_shard fl em hash (SortedIn fl em hash) (shard_step (length shards) idx blocks) idx
        shards
        (λ m _ s k.
          (find-psm m (batches_of fl em hash (length shards) idx blocks) k
              record { node_id = []; counter = 0 }
              (AllSorted-batches_of (length shards) idx blocks a) s).1
            k)
        h

  pub length-round :
      (idx : ℕ) (blocks : List Block) (shards : List Map)
      → length (round idx blocks shards) ≡ length shards
  unfolding round
  length-round idx blocks shards = length-update_shard fl em hash _ idx shards
