-- ===== src/Engine/ShardCount.antt =====
-- `SetShardCount` moves every entry to its new shard.
use sovereign.Prelude.{
  ℕ, ◌-◌, ◌<◌, List, [], ◌∷◌, true, false, ◌≡◌, ◌≢◌, refl, sym, ap, ◌∙◌, inl, inr, Bool-cases, ◌==◌,
  ==_iff, length, ltb, length-replicate, arith,
}
use mathlib.Core.Path.{subst}
use Prim.Native.Nat.{bit_and}
use sovereign.Bytes.{All}
use sovereign.Float64.{Float64}
use sovereign.Entry.{CausalDot, CrdtEntry}
use sovereign.EntryMap.{EntryMap, Pair, same_key, key_eq}
use sovereign.Merge.Find.{find, or_else}
use sovereign.Merge.Sorted.{IsSorted, sorted_ext}
use sovereign.Engine.Defs.{
  Engine, done, route_shard, entries_at, init_shards, re_emit, re_emit_all, set_shard_count,
  point_get, merge_existing_dot,
}
use sovereign.Engine.Merging.{SortedIn, get-merge_existing_dot}
use sovereign.Engine.Start.{entries_at-init_shards, All-replicate}
use sovereign.Engine.Valid.{IsValid, entries_at-IsSorted}
use sovereign.Engine.Routed.{IsRouted, update_shard-IsRouted, init_shards-IsRouted}
use sovereign.Engine.Reshard.{emitted, find_roots, find-re_emit_all, find-routed}

module _ (fl : Float64) (em : EntryMap) (hash : List ℕ → ℕ) where
  open em use {Map, empty, get, for_each, get-empty}

  pub other_key :
      (m : Map) (j k : List ℕ) (es : List CrdtEntry) (n : ℕ)
      → route_shard fl em hash n j ≢ route_shard fl em hash n k
      → get m k ≡ []
      → get (merge_existing_dot fl em hash m j es) k ≡ []
  other_key m j k es n ne h = elim (Bool-cases (same_key j k)) [
    | inl e ↦ absurd (ne (ap (route_shard fl em hash n) (sym (key_eq j k e))))
    | inr e ↦ rw (get-merge_existing_dot fl em hash m j k es, e) h
  ]

  re_emit-IsRouted :
      (ps : List Pair) (shards : List Map)
      → IsRouted fl em hash shards
      → IsRouted fl em hash (re_emit fl em hash shards ps)
  unfolding re_emit
  re_emit-IsRouted [] shards r = r
  re_emit-IsRouted ((j, es) ∷ ps) shards r = re_emit-IsRouted ps (emitted fl em hash shards j es) (
      update_shard-IsRouted fl em hash (λ m. merge_existing_dot fl em hash m j es)
        (route_shard fl em hash (length shards) j) shards
        (λ m k _ ne h. other_key m j k es (length shards) ne h) r)

  pub re_emit_all-IsRouted :
      (old shards : List Map)
      → IsRouted fl em hash shards
      → IsRouted fl em hash (re_emit_all fl em hash shards old)
  unfolding re_emit_all
  re_emit_all-IsRouted [] shards r = r
  re_emit_all-IsRouted (m ∷ old) shards r =
      re_emit_all-IsRouted old (re_emit fl em hash shards (for_each m))
        (re_emit-IsRouted (for_each m) shards r)

  -- The shards that replace the old ones.
  abbrev resharded : ℕ → Engine fl em hash → List Map
  resharded n e = re_emit_all fl em hash (init_shards fl em hash n) e.shards

  fresh-SortedIn : (n : ℕ) → All (SortedIn fl em hash) (init_shards fl em hash n)
  unfolding init_shards
  fresh-SortedIn n =
      All-replicate (SortedIn fl em hash) n empty (λ k. subst IsSorted (sym (get-empty k)) tt)

  length-fresh : (n : ℕ) → length (init_shards fl em hash n) ≡ n
  unfolding init_shards
  length-fresh n = length-replicate n empty

  find-resharded :
      (n : ℕ) (e : Engine fl em hash) (k : List ℕ) (d : CausalDot)
      → 0 < n
      → IsValid fl em hash e
      → IsRouted fl em hash e.shards
      → (find d (entries_at fl em hash (resharded n e) k)
          ≡ find d (entries_at fl em hash e.shards k))
        × All (SortedIn fl em hash) (resharded n e)
        × (length (resharded n e) ≡ n)
  find-resharded n e k d pos v r =
      let (now, sorted, len) =
        find-re_emit_all fl em hash e.shards (init_shards fl em hash n) k d
          (rw (length-fresh n) pos) v.sorted (fresh-SortedIn n) in
      (
        now
            ∙ ap (λ (es : List CrdtEntry). or_else (find d es) (find_roots fl em hash k d e.shards))
                (entries_at-init_shards fl em hash n k)
            ∙ (unfold find in find-routed fl em hash k d e.shards r),
        sorted,
        len ∙ length-fresh n,
      )

  resharded-IsValid :
      (n : ℕ) (e : Engine fl em hash)
      → 0 < n
      → IsValid fl em hash e
      → IsRouted fl em hash e.shards
      → IsValid fl em hash (record e { shards = resharded n e })
  resharded-IsValid n e pos v r =
      let (_, sorted, len) = find-resharded n e [] record { node_id = []; counter = 0 } pos v r in
      record {
        some_shards = rw len pos;
        sorted = sorted;
        covered = λ k d x h. v.covered k d x (sym (find-resharded n e k d pos v r).0 ∙ h);
        saved = v.saved;
      }

  ltb-suc : (n : ℕ) → 0 < n → ltb n 1 ≡ false
  ltb-suc n pos = ground arith

  set_shard_count_same :
      (n : ℕ) (e : Engine fl em hash)
      → 0 < n
      → bit_and n (n - 1) ≡ 0
      → length e.shards == n ≡ true
      → set_shard_count fl em hash n e ≡ done e
  unfolding set_shard_count
  set_shard_count_same n e pos power same = rw (ltb-suc n pos, power, same) refl

  set_shard_count_other :
      (n : ℕ) (e : Engine fl em hash)
      → 0 < n
      → bit_and n (n - 1) ≡ 0
      → length e.shards == n ≡ false
      → set_shard_count fl em hash n e ≡ done (record e { shards = resharded n e })
  unfolding set_shard_count
  set_shard_count_other n e pos power other = rw (ltb-suc n pos, power, other) refl

  -- On a valid engine whose entries stand in their shards, `SetShardCount` of a power of two returns
  -- a valid engine with so many shards, whose entries stand in their shards and which answers every
  -- entity as before.
  pub set_shard_count_lem :
      (n : ℕ) (e : Engine fl em hash)
      → 0 < n
      → bit_and n (n - 1) ≡ 0
      → IsValid fl em hash e
      → IsRouted fl em hash e.shards
      → (e' : Engine fl em hash) × (set_shard_count fl em hash n e ≡ done e')
        × (length e'.shards ≡ n)
        × IsValid fl em hash e'
        × IsRouted fl em hash e'.shards
        × ((k : List ℕ) → point_get fl em hash e' k ≡ point_get fl em hash e k)
  unfolding set_shard_count point_get
  set_shard_count_lem n e pos power v r = elim (Bool-cases (length e.shards == n)) [
    | inl same ↦ (
      e,
      set_shard_count_same n e pos power same,
      (==_iff (length e.shards) n).0 same,
      v,
      r,
      λ k. refl,
    )
    | inr other ↦ (
      record e { shards = resharded n e },
      set_shard_count_other n e pos power other,
      (find-resharded n e [] record { node_id = []; counter = 0 } pos v r).2,
      resharded-IsValid n e pos v r,
      re_emit_all-IsRouted e.shards (init_shards fl em hash n) (init_shards-IsRouted fl em hash n),
      λ k.
          sorted_ext _ _
            (entries_at-IsSorted fl em hash (resharded n e) k
              (resharded-IsValid n e pos v r).sorted)
            (entries_at-IsSorted fl em hash e.shards k v.sorted)
            (λ d. (find-resharded n e k d pos v r).0),
    )
  ]
