-- ===== src/Engine/Routed.antt =====
-- Each entity's entries stand only in the shard that it is routed to, and every operation keeps that.
use sovereign.Prelude.{
  ℕ, zero, suc, List, [], ◌∷◌, none, some, ◌≡◌, ◌≢◌, refl, sym, ◌∙◌, inl, inr, Bool-cases, ◌==◌,
  ==_iff, length, get_elem?, arith, replicate,
}
use sovereign.Float64.{Float64}
use sovereign.Entry.{CausalDot, CrdtEntry, dot}
use sovereign.Entry.Order.{compare_dots_refl}
use sovereign.EntryMap.{EntryMap}
use sovereign.Merge.Find.{find}
use sovereign.Engine.Defs.{route_shard, update_shard, init_shards}
use sovereign.Engine.Shards.{length-update_shard, update_shard_ne}

-- A list without any dot is empty.
pub find-all_none : (xs : List CrdtEntry) → ((d : CausalDot) → find d xs ≡ none) → xs ≡ []
unfolding find
find-all_none [] h = refl
find-all_none (x ∷ xs) h = ground (arith, h (dot x), compare_dots_refl (dot x))

module _ (fl : Float64) (em : EntryMap) (hash : List ℕ → ℕ) where
  open em use {Map, get, empty, get-empty}

  abbrev pub IsRouted : List Map → Type 0
  IsRouted shards =
      (i : ℕ) (m : Map) (k : List ℕ)
      → get_elem? shards i ≡ some m
      → i ≢ route_shard fl em hash (length shards) k
      → get m k ≡ []

  found_in :
      (f : Map → Map) (i : ℕ) (shards : List Map) (m' : Map)
      → get_elem? (update_shard fl em hash f i shards) i ≡ some m'
      → (m : Map) × (get_elem? shards i ≡ some m) × (f m ≡ m')
  unfolding update_shard
  found_in f i [] m' h = cc
  found_in f zero (x ∷ shards) m' h = (x, refl, cc)
  found_in f (suc i) (x ∷ shards) m' h = found_in f i shards m' h

  -- A change of one shard that gives entries only to entities that are routed there.
  pub update_shard-IsRouted :
      (f : Map → Map) (i : ℕ) (shards : List Map)
      → ((m : Map) (k : List ℕ)
          → get_elem? shards i ≡ some m
          → i ≢ route_shard fl em hash (length shards) k
          → get m k ≡ []
          → get (f m) k ≡ [])
      → IsRouted shards
      → IsRouted (update_shard fl em hash f i shards)
  update_shard-IsRouted f i shards keep r j m' k h ne =
      let other = rw (length-update_shard fl em hash f i shards) at ne in
      elim (Bool-cases (i == j)) [
        | inl e ↦
            let same : i ≡ j = (==_iff i j).0 e in
            let there = rw (← same) at h in
            let elsewhere = rw (← same) at other in
            let (m, was, now) = found_in f i shards m' there in
            rw (← now) (keep m k was elsewhere (r i m k was elsewhere))
        | inr e ↦
            r j m' k
              (sym (update_shard_ne fl em hash f i j shards (λ p. cc (e, (==_iff i j).1 p))) ∙ h)
              other
      ]

  replicate-elem : (n i : ℕ) (a m : Map) → get_elem? (replicate n a) i ≡ some m → m ≡ a
  replicate-elem zero i a m h = cc
  replicate-elem (suc n) zero a m h = cc
  replicate-elem (suc n) (suc i) a m h = replicate-elem n i a m h

  pub init_shards-IsRouted : (n : ℕ) → IsRouted (init_shards fl em hash n)
  unfolding init_shards
  init_shards-IsRouted n i m k h ne = rw (replicate-elem n i empty m h) (get-empty k)
