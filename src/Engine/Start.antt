-- ===== src/Engine/Start.antt =====
-- A new engine is valid and holds nothing.
use sovereign.Prelude.{
  ℕ, zero, suc, ◌<◌, List, [], Option, none, some, ◌≡◌, refl, sym, inl, inr, ◌⊎◌, length, get_elem?,
  replicate, length-replicate, arith,
}
use mathlib.Core.Path.{subst}
use sovereign.Bytes.{All}
use sovereign.Float64.{Float64}
use sovereign.Entry.{CausalDot, CrdtEntry}
use sovereign.EntryMap.{EntryMap}
use sovereign.Merge.Find.{find}
use sovereign.Merge.Sorted.{IsSorted}
use sovereign.Lamport.{u64_mod, new_clock}
use sovereign.Lamport.Monotone.{IsFile, start_counter-lt}
use sovereign.Engine.Defs.{
  route_shard, entries_at, point_get, init_shards, new_engine, default_shard_count,
}
use sovereign.Engine.Merging.{SortedIn}
use sovereign.Engine.Valid.{IsValid}

get_elem?-replicate {ℓ} :
    {A : Type ℓ} (n i : ℕ) (a : A)
    → (get_elem? (replicate n a) i ≡ none) ⊎ (get_elem? (replicate n a) i ≡ some a)
get_elem?-replicate zero i a = inl refl
get_elem?-replicate (suc n) zero a = inr refl
get_elem?-replicate (suc n) (suc i) a = get_elem?-replicate n i a

pub All-replicate {ℓ κ} :
    {A : Type ℓ} (P : A → Type κ) (n : ℕ) (a : A) → P a → All P (replicate n a)
All-replicate P zero a h = tt
All-replicate P (suc n) a h = (h, All-replicate P n a h)

nothing : (d : CausalDot) (x : CrdtEntry) → find d [] ≡ some x → ⊥
unfolding find
nothing d x e = cc

module _ (fl : Float64) (em : EntryMap) (hash : List ℕ → ℕ) where
  open em use {Map, empty, get, get-empty}

  pub entries_at-init_shards :
      (n : ℕ) (k : List ℕ) → entries_at fl em hash (init_shards fl em hash n) k ≡ []
  unfolding entries_at init_shards
  entries_at-init_shards n k =
      elim (get_elem?-replicate n (route_shard fl em hash (length (replicate n empty)) k) empty) [
        | inl e ↦ rw (e, entries_at)
        | inr e ↦ rw (e, entries_at) (get-empty k)
      ]

  -- A new engine, whatever counter file it finds, holds no entry and satisfies the invariant.
  pub new_engine-IsValid :
      (node : List ℕ) (initial : ℕ) (file : Option (List ℕ))
      → initial < u64_mod
      → IsFile file
      → IsValid fl em hash (new_engine fl em hash node initial file)
        × ((k : List ℕ) → point_get fl em hash (new_engine fl em hash node initial file) k ≡ [])
  unfolding new_engine point_get init_shards
  new_engine-IsValid node initial file h f = (
    record {
      some_shards = rw length-replicate (omega arith);
      sorted =
          All-replicate (SortedIn fl em hash) default_shard_count empty
            (λ k. subst IsSorted (sym (get-empty k)) tt);
      covered =
          λ k d x e. absurd (nothing d x (rw (entries_at-init_shards default_shard_count k) at e));
      saved =
          unfold new_clock in
          record { covered = omega arith; fits = start_counter-lt initial file h f };
    },
    entries_at-init_shards default_shard_count,
  )
