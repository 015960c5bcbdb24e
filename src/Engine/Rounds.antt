-- ===== src/Engine/Rounds.antt =====
-- All rounds of the loop over `shardOrder`: every shard that a block is routed to has its round.
use sovereign.Prelude.{
  ℕ, ◌<◌, List, [], ◌∷◌, Option, none, Bool, false, ◌||◌, ◌≡◌, refl, sym, ap, ◌∙◌, inl, inr,
  Bool-cases, ◌==◌, length, if◌then◌else◌, arith,
}
use sovereign.Bytes.{All}
use sovereign.Float64.{Float64}
use sovereign.Entry.{CausalDot, CrdtEntry}
use sovereign.EntryMap.{EntryMap, same_key, key_eq}
use sovereign.Merge.Find.{find, or_else}
use sovereign.Engine.Defs.{route_shard, entries_at}
use sovereign.Engine.Join.{Block, Totals, insert_index, shard_order, join_shards}
use sovereign.Engine.Incoming.{find_blocks}
use sovereign.Engine.Blocks.{AllSorted}
use sovereign.Engine.Shards.{route_shard-lt}
use sovereign.Engine.Merging.{SortedIn, or_else-none}
use sovereign.Engine.JoinShards.{
  round, rounds, length-round, find-round, AllSortedIn-round, shards-join_shards,
}

abbrev has_index : ℕ → List ℕ → Bool
has_index i [] = false
has_index i (j ∷ rest) = j == i || has_index i rest

has_index-insert :
    (i j : ℕ) (l : List ℕ) → has_index i (insert_index j l) ≡ (j == i || has_index i l)
unfolding insert_index
has_index-insert i j [] = refl
has_index-insert i j (x ∷ rest) = ground (arith, has_index-insert i j rest)

abbrev AllBelow : ℕ → List ℕ → Type 0
AllBelow n l = All (λ i. i < n) l

AllBelow-insert : (n j : ℕ) (l : List ℕ) → j < n → AllBelow n l → AllBelow n (insert_index j l)
unfolding insert_index
AllBelow-insert n j [] h a = (h, tt)
AllBelow-insert n j (x ∷ rest) h a = ground (arith, AllBelow-insert n j rest)

or_else_again :
    (a f : Option CrdtEntry) (b c : Bool)
    → or_else (or_else a (if b then f else none)) (if c then f else none)
      ≡ or_else a (if b || c then f else none)
or_else_again a f b c = ground arith

module _ (fl : Float64) (em : EntryMap) (hash : List ℕ → ℕ) where
  open em use {Map}

  AllBelow-shard_order :
      (n : ℕ) (blocks : List Block) → 0 < n → AllBelow n (shard_order fl em hash n blocks)
  unfolding shard_order
  AllBelow-shard_order n [] h = tt
  AllBelow-shard_order n (b ∷ blocks) h =
      AllBelow-insert n _ _ (route_shard-lt fl em hash n b.entity_id h)
        (AllBelow-shard_order n blocks h)

  -- An entity whose shard has no round is in no block.
  find-not_routed :
      (n : ℕ) (blocks : List Block) (k : List ℕ) (d : CausalDot)
      → (if has_index (route_shard fl em hash n k) (shard_order fl em hash n blocks)
          then find_blocks k d blocks
          else none)
        ≡ find_blocks k d blocks
  unfolding shard_order
  find-not_routed n [] k d = refl
  find-not_routed n (b ∷ blocks) k d =
      rw has_index-insert (elim (Bool-cases (same_key k b.entity_id)) [
        | inl e ↦ rw (key_eq k b.entity_id e) (ground arith)
        | inr e ↦ rw e (ground (arith, find-not_routed n blocks k d))
      ])

  length-rounds :
      (order : List ℕ) (blocks : List Block) (shards : List Map)
      → length (rounds fl em hash order blocks shards) ≡ length shards
  unfolding rounds
  length-rounds [] blocks shards = refl
  length-rounds (idx ∷ order) blocks shards =
      length-rounds order blocks (round fl em hash idx blocks shards)
      ∙ length-round fl em hash idx blocks shards

  find-rounds :
      (order : List ℕ) (blocks : List Block) (shards : List Map) (k : List ℕ) (d : CausalDot)
      → AllBelow (length shards) order
      → AllSorted blocks
      → All (SortedIn fl em hash) shards
      → (find d (entries_at fl em hash (rounds fl em hash order blocks shards) k)
          ≡ or_else (find d (entries_at fl em hash shards k)) (
              if has_index (route_shard fl em hash (length shards) k) order
              then find_blocks k d blocks
              else none))
        × All (SortedIn fl em hash) (rounds fl em hash order blocks shards)
  unfolding rounds
  find-rounds [] blocks shards k d o a h = (sym (or_else-none _), h)
  find-rounds (idx ∷ order) blocks shards k d o a h =
      let (later, sorted) =
        find-rounds order blocks (round fl em hash idx blocks shards) k d
          (rw (length-round fl em hash idx blocks shards) o.1) a
          (AllSortedIn-round fl em hash idx blocks shards a h) in
      let i = route_shard fl em hash (length shards) k in
      (
        later
            ∙ rw
                (
                  length-round fl em hash idx blocks shards,
                  find-round fl em hash idx blocks shards k d o.0 a h,
                )
                (or_else_again (find d (entries_at fl em hash shards k)) (find_blocks k d blocks)
                  (idx == i) (has_index i order)),
        sorted,
      )

  -- After the loop each shard answers with what it had, and else with the blocks.
  pub find-join_shards :
      (blocks : List Block) (t : Totals fl em hash) (k : List ℕ) (d : CausalDot)
      → 0 < length t.shards
      → AllSorted blocks
      → All (SortedIn fl em hash) t.shards
      → let order = shard_order fl em hash (length t.shards) blocks in
        (find d (entries_at fl em hash (join_shards fl em hash order blocks t).shards k)
          ≡ or_else (find d (entries_at fl em hash t.shards k)) (find_blocks k d blocks))
        × All (SortedIn fl em hash) (join_shards fl em hash order blocks t).shards
        × (length (join_shards fl em hash order blocks t).shards ≡ length t.shards)
  find-join_shards blocks t k d pos a h =
      let order = shard_order fl em hash (length t.shards) blocks in
      let (found, sorted) =
        find-rounds order blocks t.shards k d (AllBelow-shard_order (length t.shards) blocks pos) a
          h in
      rw (shards-join_shards fl em hash order blocks t) (
        found
            ∙ ap (or_else (find d (entries_at fl em hash t.shards k)))
                (find-not_routed (length t.shards) blocks k d),
        sorted,
        length-rounds order blocks t.shards,
      )
