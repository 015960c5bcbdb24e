-- ===== src/Engine/Merging.antt =====
-- `perShardMerge` and the loop over the shards: at each entity and dot the entry that was there
-- stays, and else the delta's entry is taken.
use sovereign.Prelude.{
  ℕ, List, [], ◌∷◌, Option, none, some, Bool, true, false, ◌≡◌, refl, sym, ap, ◌∙◌, inl, inr, ◌⊎◌,
  Bool-cases, if◌then◌else◌, arith,
}
use sovereign.Float64.{Float64}
use sovereign.Entry.{CausalDot, CrdtEntry}
use sovereign.EntryMap.{EntryMap, same_key, key_eq, same_key_comm}
use sovereign.Merge.Defs.{merge_loop, merge_block}
use sovereign.Merge.Find.{find, or_else, merge, merged-merge_block}
use sovereign.Merge.Sorted.{IsSorted, find-merge, merge-IsSorted}
use sovereign.Merge.Count.{merge-not_added}
use sovereign.Engine.Defs.{merge_existing_dot}
use sovereign.Engine.Join.{Block, ShardMerge, merge_step, merge_blocks}
use sovereign.Engine.Incoming.{find_blocks}
use sovereign.Engine.Blocks.{AllSorted}

List-cases {ℓ} : {A : Type ℓ} (xs : List A) → (xs ≡ []) ⊎ ((x : A) × ((r : List A) × (xs ≡ x ∷ r)))
List-cases [] = inl refl
List-cases (x ∷ xs) = inr (x, (xs, refl))

-- A merge that adds an entry is not empty.
merge-nonempty : (xs ys : List CrdtEntry) → merge xs ys ≡ [] → (merge_block xs ys).added ≡ false
unfolding merge merge_block merge_loop
merge-nonempty [] [] h = refl
merge-nonempty [] (y ∷ ys) h = cc
merge-nonempty (x ∷ xs) [] h = cc
merge-nonempty (x ∷ xs) (y ∷ ys) h = ground arith

pub or_else-none : (o : Option CrdtEntry) → or_else o none ≡ o
or_else-none none = refl
or_else-none (some x) = refl

pub or_else_assoc : (a b c : Option CrdtEntry) → or_else (or_else a b) c ≡ or_else a (or_else b c)
or_else_assoc none b c = refl
or_else_assoc (some x) b c = refl

pub or_else-some :
    (a b : Option CrdtEntry) (x : CrdtEntry) → or_else a b ≡ some x → (a ≡ some x) ⊎ (b ≡ some x)
or_else-some none b x h = inr h
or_else-some (some y) b x h = inl h

module _ (fl : Float64) (em : EntryMap) (hash : List ℕ → ℕ) where
  open em use {Map, get, set, get-set}

  if_same_key :
      (k j : List ℕ) (a b c : List CrdtEntry)
      → (j ≡ k → a ≡ b)
      → (if same_key k j then a else c) ≡ (if same_key k j then b else c)
  if_same_key k j a b c h = elim (Bool-cases (same_key k j)) [
    | inl e ↦ rw e (h (key_eq k j e))
    | inr e ↦ rw e
  ]

  get-unchanged :
      (m : Map) (k j : List ℕ) (es : List CrdtEntry)
      → merge (get m k) es ≡ get m k
      → get m j ≡ (if same_key k j then merge (get m j) es else get m j)
  get-unchanged m k j es h = elim (Bool-cases (same_key k j)) [
    | inl e ↦ rw (e, key_eq k j e, h)
    | inr e ↦ rw e
  ]

  -- `mergeExistingDot`: the entries of its entity are merged, the others stay.
  pub get-merge_existing_dot :
      (m : Map) (k j : List ℕ) (es : List CrdtEntry)
      → get (merge_existing_dot fl em hash m k es) j
        ≡ (if same_key k j then merge (get m j) es else get m j)
  unfolding merge_existing_dot
  get-merge_existing_dot m k j es = elim (Bool-cases (merge_block (get m k) es).added) [
    | inl e ↦ elim (List-cases (merge (get m k) es)) [
      | inl empty ↦ cc (e, merge-nonempty (get m k) es empty)
      | inr (x, (r, c)) ↦
          rw (e, merged-merge_block, c, get-set m k j x r)
            (if_same_key k j (x ∷ r) (merge (get m j) es) (get m j) (λ p. rw p (sym c)))
    ]
    | inr e ↦ rw e (get-unchanged m k j es (merge-not_added (get m k) es e))
  ]

  abbrev pub SortedIn : Map → Type 0
  SortedIn m = (k : List ℕ) → IsSorted (get m k)

  IsSorted-if :
      (b : Bool) (xs ys : List CrdtEntry)
      → IsSorted xs
      → IsSorted ys
      → IsSorted (if b then xs else ys)
  IsSorted-if true xs ys s t = s
  IsSorted-if false xs ys s t = t

  pub merge_existing_dot-SortedIn :
      (m : Map) (k : List ℕ) (es : List CrdtEntry)
      → IsSorted es
      → SortedIn m
      → SortedIn (merge_existing_dot fl em hash m k es)
  merge_existing_dot-SortedIn m k es s h j = rw (get-merge_existing_dot m k j es) (
      IsSorted-if (same_key k j) (merge (get m j) es) (get m j)
        (merge-IsSorted (get m j) es (h j) s) (h j))

  -- At each entity and dot the entry that was there stays.
  pub find-merge_existing_dot :
      (m : Map) (k j : List ℕ) (es : List CrdtEntry) (d : CausalDot)
      → IsSorted es
      → SortedIn m
      → find d (get (merge_existing_dot fl em hash m k es) j)
        ≡ or_else (find d (get m j)) (if same_key j k then find d es else none)
  find-merge_existing_dot m k j es d s h =
      rw (get-merge_existing_dot m k j es, same_key_comm j k)
        (elim (Bool-cases (same_key k j)) [
          | inl e ↦ rw e (find-merge d (get m j) es (h j) s)
          | inr e ↦ rw e (sym (or_else-none (find d (get m j))))
        ])

  pub find-merge_blocks :
      (blocks : List Block) (s : ShardMerge fl em hash) (k : List ℕ) (d : CausalDot)
      → AllSorted blocks
      → SortedIn s.modified
      → (find d (get (merge_blocks fl em hash blocks s).modified k)
          ≡ or_else (find d (get s.modified k)) (find_blocks k d blocks))
        × SortedIn (merge_blocks fl em hash blocks s).modified
  unfolding merge_blocks merge_existing_dot
  find-merge_blocks [] s k d a h = (sym (or_else-none (find d (get s.modified k))), h)
  find-merge_blocks (b ∷ blocks) s k d a h =
      let (now, sorted) =
        find-merge_blocks blocks (merge_step fl em hash b s) k d a.1
          (merge_existing_dot-SortedIn s.modified b.entity_id b.entries a.0 h) in
      (
        now
            ∙ ap (λ (o : Option CrdtEntry). or_else o (find_blocks k d blocks))
                (find-merge_existing_dot s.modified b.entity_id k b.entries d a.0 h)
            ∙ or_else_assoc (find d (get s.modified k))
                (if same_key k b.entity_id then find d b.entries else none)
                (find_blocks k d blocks),
        sorted,
      )
