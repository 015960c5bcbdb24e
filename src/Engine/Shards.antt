-- ===== src/Engine/Shards.antt =====
-- Where an entity's entries are, and what a change of one shard does to them.
use sovereign.Prelude.{
  ℕ, zero, suc, ◌-◌, ◌<◌, List, [], ◌∷◌, none, some, ◌≡◌, ◌≢◌, refl, ap, inl, inr, ◌⊎◌, Bool-cases,
  Option-cases, ◌==◌, ==_iff, length, get_elem?, set as set_elem, arith,
}
use mathlib.Core.Path.{subst}
use sovereign.Bytes.{All}
use native.Mathlib.Nat.{mod-lt}
use sovereign.Prelude.Bits.{bit_and-le}
use sovereign.Float64.{Float64}
use sovereign.EntryMap.{EntryMap}
use sovereign.Engine.Defs.{route_shard, entries_at, update_shard}

get_elem?-lt {ℓ} : {A : Type ℓ} (xs : List A) (i : ℕ) → i < length xs → get_elem? xs i ≢ none
get_elem?-lt [] i h = absurd (omega arith)
get_elem?-lt (x ∷ xs) zero h = λ e. cc
get_elem?-lt (x ∷ xs) (suc i) h = get_elem?-lt xs i (omega arith)

module _ (fl : Float64) (em : EntryMap) (hash : List ℕ → ℕ) where
  open em use {Map, get}

  -- Where there is a shard, the route of an entity is one of the shards, whatever its hash.
  pub route_shard-lt : (n : ℕ) (k : List ℕ) → 0 < n → route_shard fl em hash n k < n
  unfolding route_shard
  route_shard-lt n k h = ground (arith, bit_and-le (hash k) (n - 1), mod-lt (hash k) h)

  pub length-update_shard :
      (f : Map → Map) (i : ℕ) (shards : List Map)
      → length (update_shard fl em hash f i shards) ≡ length shards
  unfolding update_shard
  length-update_shard f i [] = refl
  length-update_shard f zero (m ∷ shards) = refl
  length-update_shard f (suc i) (m ∷ shards) = ap suc (length-update_shard f i shards)

  -- In the shard that a change is made in, and in the others.
  pub update_shard_self :
      (f : Map → Map) (i : ℕ) (shards : List Map) (m : Map)
      → get_elem? shards i ≡ some m
      → get_elem? (update_shard fl em hash f i shards) i ≡ some (f m)
  unfolding update_shard
  update_shard_self f i [] m e = cc
  update_shard_self f zero (x ∷ shards) m e = cc
  update_shard_self f (suc i) (x ∷ shards) m e = update_shard_self f i shards m e

  pub update_shard_ne :
      (f : Map → Map) (i j : ℕ) (shards : List Map)
      → i ≢ j
      → get_elem? (update_shard fl em hash f i shards) j ≡ get_elem? shards j
  unfolding update_shard
  update_shard_ne f i j [] h = refl
  update_shard_ne f zero zero (m ∷ shards) h = absurd (h refl)
  update_shard_ne f zero (suc j) (m ∷ shards) h = refl
  update_shard_ne f (suc i) zero (m ∷ shards) h = refl
  update_shard_ne f (suc i) (suc j) (m ∷ shards) h =
      update_shard_ne f i j shards (λ p. h (ap suc p))

  -- An update is a write of the new value, and none where the value stays or there is no shard.
  pub update_shard-none :
      (f : Map → Map) (i : ℕ) (shards : List Map)
      → get_elem? shards i ≡ none
      → update_shard fl em hash f i shards ≡ shards
  unfolding update_shard
  update_shard-none f i [] e = refl
  update_shard-none f zero (m ∷ shards) e = cc
  update_shard-none f (suc i) (m ∷ shards) e =
      ap (λ (r : List Map). m ∷ r) (update_shard-none f i shards e)

  pub update_shard-some :
      (f : Map → Map) (i : ℕ) (shards : List Map) (m m' : Map)
      → get_elem? shards i ≡ some m
      → f m ≡ m'
      → update_shard fl em hash f i shards ≡ set_elem shards i m'
  unfolding update_shard
  update_shard-some f i [] m m' e h = refl
  update_shard-some f zero (x ∷ shards) m m' e h = rw (← h) (cc)
  update_shard-some f (suc i) (x ∷ shards) m m' e h =
      ap (λ (r : List Map). x ∷ r) (update_shard-some f i shards m m' e h)

  pub update_shard_same :
      (f : Map → Map) (i : ℕ) (shards : List Map) (m : Map)
      → get_elem? shards i ≡ some m
      → f m ≡ m
      → update_shard fl em hash f i shards ≡ shards
  unfolding update_shard
  update_shard_same f i [] m e h = refl
  update_shard_same f zero (x ∷ shards) m e h = cc
  update_shard_same f (suc i) (x ∷ shards) m e h =
      ap (λ (r : List Map). x ∷ r) (update_shard_same f i shards m e h)

  -- A shard that exists can be named.
  pub shard_at :
      (shards : List Map) (i : ℕ) → i < length shards → (m : Map) × (get_elem? shards i ≡ some m)
  shard_at shards i h = elim (Option-cases (get_elem? shards i)) [
    | inl e ↦ absurd (get_elem?-lt shards i h e)
    | inr found ↦ found
  ]

  -- What a change of shard i does to the entries of each entity: `get` is read through it there,
  -- and elsewhere nothing changes.
  pub entries_at-update :
      (f : Map → Map) (i : ℕ) (shards : List Map) (k : List ℕ)
      → i < length shards
      → ((i ≡ route_shard fl em hash (length shards) k)
          × ((m : Map) × (get_elem? shards i ≡ some m)
              × (entries_at fl em hash shards k ≡ get m k)
              × (entries_at fl em hash (update_shard fl em hash f i shards) k ≡ get (f m) k)))
        ⊎ ((i ≢ route_shard fl em hash (length shards) k)
            × (entries_at fl em hash (update_shard fl em hash f i shards) k
                ≡ entries_at fl em hash shards k))
  unfolding entries_at
  entries_at-update f i shards k h =
      elim (Bool-cases (i == route_shard fl em hash (length shards) k)) [
        | inl e ↦
            let same = (==_iff _ _).0 e in
            let (m, found) = shard_at shards i h in
            inl (
              same,
              (
                m,
                found,
                rw (← same, found, entries_at),
                rw (
                  length-update_shard f i shards,
                  ← same,
                  update_shard_self f i shards m found,
                  entries_at,
                ),
              ),
            )
        | inr e ↦
            let other : i ≢ route_shard fl em hash (length shards) k =
              λ p. cc (e, (==_iff i (route_shard fl em hash (length shards) k)).1 p) in
            inr (
              other,
              rw (length-update_shard f i shards, update_shard_ne f i _ shards other, entries_at),
            )
      ]

  -- A property of all shards, at one of them and after a change that keeps it.
  pub All-get_elem? {κ} :
      (P : Map → Type κ) (shards : List Map) (i : ℕ) (m : Map)
      → get_elem? shards i ≡ some m
      → All P shards
      → P m
  All-get_elem? P [] i m e h = cc
  All-get_elem? P (x ∷ shards) zero m e h = let same : x ≡ m = cc in subst P same h.0
  All-get_elem? P (x ∷ shards) (suc i) m e h = All-get_elem? P shards i m e h.1

  pub All-update_shard {κ} :
      (P : Map → Type κ) (f : Map → Map) (i : ℕ) (shards : List Map)
      → ((m : Map) → get_elem? shards i ≡ some m → P m → P (f m))
      → All P shards
      → All P (update_shard fl em hash f i shards)
  unfolding update_shard
  All-update_shard P f i [] keep h = tt
  All-update_shard P f zero (m ∷ shards) keep h = (keep m refl h.0, h.1)
  All-update_shard P f (suc i) (m ∷ shards) keep h = (h.0, All-update_shard P f i shards keep h.1)
