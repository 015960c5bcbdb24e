-- ===== src/Engine/Insert.antt =====
-- What `InsertLocal` promises: a fresh dot, the invariant, and the new entry beside all others.
use sovereign.Prelude.{
  ℕ, ◌+◌, ◌%◌, Bool, ◌<◌, List, [], ◌∷◌, none, some, false, ◌≡◌, refl, sym, ap, ◌∙◌, inl, inr,
  Bool-cases, Option-cases, Ordering-cases, length, get_elem?, if◌then◌else◌, arith,
}
use sovereign.Bytes.{All}
use sovereign.Float64.{Float64}
use sovereign.Entry.{CausalDot, CrdtEntry, dot, compare_dots}
use sovereign.Entry.Order.{compare_dots-eq, compare_dots-flip}
use sovereign.EntryMap.{EntryMap, same_key, key_eq}
use sovereign.Merge.Defs.{insertion_sort_last_entry}
use sovereign.Merge.Find.{find, or_else, merge}
use sovereign.Merge.Sorted.{IsSorted, merge-IsSorted, find-merge}
use sovereign.Merge.Insertion.{Fresh, insertion_sort-merge}
use sovereign.Lamport.{u64_mod, save_step, next_dot}
use sovereign.Lamport.Monotone.{next_dot_lem}
use sovereign.Engine.Defs.{
  Engine, done, route_shard, entries_at, update_shard, stamp, point_get, insert_local,
}
use sovereign.Engine.Shards.{
  route_shard-lt, length-update_shard, entries_at-update, All-get_elem?, All-update_shard,
}
use sovereign.Engine.Merging.{SortedIn, or_else-none, or_else-some}
use sovereign.Engine.Valid.{IsValid}

-- Where the dot is not found no entry has it.
Fresh-of_none : (d : CausalDot) (xs : List CrdtEntry) → find d xs ≡ none → Fresh d xs
unfolding find
Fresh-of_none d [] h = tt
Fresh-of_none d (x ∷ xs) h = ground (arith, compare_dots-flip (dot x) d, Fresh-of_none d xs)

merge-one :
    (xs : List CrdtEntry) (y : CrdtEntry)
    → (z : CrdtEntry) × ((zs : List CrdtEntry) × (merge xs (y ∷ []) ≡ z ∷ zs))
unfolding merge
merge-one [] y = (y, ([], refl))
merge-one (x ∷ xs) y = elim (Ordering-cases (compare_dots (dot x) (dot y))) [
  | inl e ↦ (x, (merge xs (y ∷ []), rw (e, merge)))
  | inr (inl e) ↦ (x, (merge xs [], rw (e, merge)))
  | inr (inr e) ↦ (y, (merge (x ∷ xs) [], rw (e, merge)))
]

find-one-counter :
    (b : Bool) (d : CausalDot) (y x : CrdtEntry)
    → (if b then find d (y ∷ []) else none) ≡ some x
    → d.counter ≡ y.dot_counter
unfolding find
find-one-counter b d y x h = ground (arith, compare_dots-eq d (dot y))

module _ (fl : Float64) (em : EntryMap) (hash : List ℕ → ℕ) where
  open em use {Map, get, set, get-set}

  -- The new root of the shard.
  put : List ℕ → CrdtEntry → Map → Map
  put k y m = set m k (insertion_sort_last_entry (get m k) y)

  get-put :
      (m : Map) (k j : List ℕ) (y : CrdtEntry)
      → IsSorted (get m k)
      → Fresh (dot y) (get m k)
      → get (put k y m) j ≡ (if same_key k j then merge (get m k) (y ∷ []) else get m j)
  unfolding put
  get-put m k j y s f =
      let (z, (zs, e)) = merge-one (get m k) y in
      rw (put, insertion_sort-merge (get m k) y s f, e) (get-set m k j z zs)

  put-SortedIn :
      (m : Map) (k : List ℕ) (y : CrdtEntry)
      → SortedIn fl em hash m
      → Fresh (dot y) (get m k)
      → SortedIn fl em hash (put k y m)
  put-SortedIn m k y s f j = rw (get-put m k j y (s k) f) (elim (Bool-cases (same_key k j)) [
    | inl e ↦ rw e (merge-IsSorted (get m k) (y ∷ []) (s k) (tt, tt))
    | inr e ↦ rw e (s j)
  ])

  find-put :
      (m : Map) (k j : List ℕ) (y : CrdtEntry) (d : CausalDot)
      → SortedIn fl em hash m
      → Fresh (dot y) (get m k)
      → find d (get (put k y m) j)
        ≡ or_else (find d (get m j)) (if same_key k j then find d (y ∷ []) else none)
  find-put m k j y d s f = rw (get-put m k j y (s k) f) (elim (Bool-cases (same_key k j)) [
    | inl e ↦ rw (e, key_eq k j e) (find-merge d (get m k) (y ∷ []) (s k) (tt, tt))
    | inr e ↦ rw e (sym (or_else-none (find d (get m j))))
  ])

  fresh_in :
      (shards : List Map) (k : List ℕ) (m : Map) (d : CausalDot)
      → get_elem? shards (route_shard fl em hash (length shards) k) ≡ some m
      → find d (entries_at fl em hash shards k) ≡ none
      → find d (get m k) ≡ none
  unfolding entries_at
  fresh_in shards k m d found h = rw (found, entries_at) at h

  -- The shards after the insertion of an entry whose dot is new there.
  put-shards :
      (shards : List Map) (k : List ℕ) (y : CrdtEntry)
      → 0 < length shards
      → All (SortedIn fl em hash) shards
      → find (dot y) (entries_at fl em hash shards k) ≡ none
      → let shards' =
          update_shard fl em hash (put k y) (route_shard fl em hash (length shards) k) shards in
        All (SortedIn fl em hash) shards'
        × (length shards' ≡ length shards)
        × ((j : List ℕ) (d : CausalDot)
            → find d (entries_at fl em hash shards' j)
              ≡ or_else
                  (find d (entries_at fl em hash shards j))
                  (if same_key k j then find d (y ∷ []) else none))
  put-shards shards k y pos a new =
      let i = route_shard fl em hash (length shards) k in
      let lt = route_shard-lt fl em hash (length shards) k pos in
      let fresh = λ (m : Map) (found : get_elem? shards i ≡ some m).
        Fresh-of_none (dot y) (get m k) (fresh_in shards k m (dot y) found new) in
      (
        All-update_shard fl em hash (SortedIn fl em hash) (put k y) i shards
            (λ m found s. put-SortedIn m k y s (fresh m found)) a,
        length-update_shard fl em hash (put k y) i shards,
        λ j d. elim (entries_at-update fl em hash (put k y) i shards j lt) [
          | inl (same, (m, found, old, now)) ↦
              rw (now, old)
                (find-put m k j y d
                  (All-get_elem? fl em hash (SortedIn fl em hash) shards i m found a)
                  (fresh m found))
          | inr (other, now) ↦ rw now (elim (Bool-cases (same_key k j)) [
            | inl e ↦
                absurd (other (ap (route_shard fl em hash (length shards)) (sym (key_eq k j e))))
            | inr e ↦ rw e (sym (or_else-none (find d (entries_at fl em hash shards j))))
          ])
        ],
      )

  -- The dot of this node one above its clock.
  abbrev pub fresh_dot : Engine fl em hash → CausalDot
  fresh_dot e = record { node_id = e.local_node_id; counter = e.clock.lamport_counter + 1 }

  find-fresh_dot :
      (e : Engine fl em hash) (k : List ℕ)
      → IsValid fl em hash e
      → find (fresh_dot e) (entries_at fl em hash e.shards k) ≡ none
  find-fresh_dot e k v =
      elim (Option-cases (find (fresh_dot e) (entries_at fl em hash e.shards k))) [
        | inl h ↦ h
        | inr (x, h) ↦ absurd (omega (arith, v.covered k (fresh_dot e) x h))
      ]

  abbrev inserted : List ℕ → CrdtEntry → Engine fl em hash → Engine fl em hash
  inserted k entry e = record e {
    shards =
        update_shard fl em hash (put k (stamp fl em hash e (fresh_dot e) entry))
          (route_shard fl em hash (length e.shards) k) e.shards;
    clock = (next_dot fl e.local_node_id e.clock).1;
    entries_inserted = (e.entries_inserted + 1) % u64_mod;
  }

  insert_local-inserted :
      (k : List ℕ) (entry : CrdtEntry) (e : Engine fl em hash)
      → e.closing ≡ false
      → (next_dot fl e.local_node_id e.clock).0 ≡ fresh_dot e
      → insert_local fl em hash k entry e ≡ done (fresh_dot e, inserted k entry e)
  unfolding insert_local put
  insert_local-inserted k entry e o h = rw (o, h)

  inserted-IsValid :
      (k : List ℕ) (entry : CrdtEntry) (e : Engine fl em hash)
      → e.clock.lamport_counter + 1 + save_step < u64_mod
      → IsValid fl em hash e
      → IsValid fl em hash (inserted k entry e)
  unfolding stamp
  inserted-IsValid k entry e room v =
      let (_, next, _, ok) = next_dot_lem fl e.local_node_id e.clock room v.saved in
      let y = stamp fl em hash e (fresh_dot e) entry in
      let (sorted, len, at) =
        put-shards e.shards k y v.some_shards v.sorted (find-fresh_dot e k v) in
      record {
        some_shards = rw len v.some_shards;
        sorted = sorted;
        covered = λ j d x h.
            elim (or_else-some (find d (entries_at fl em hash e.shards j)) _ x (sym (at j d) ∙ h)) [
              | inl old ↦ omega (arith, v.covered j d x old, next)
              | inr now ↦ omega (arith, find-one-counter (same_key k j) d y x now, next)
            ];
        saved = ok;
      }

  -- On a valid engine that is open and has room for a counter, `InsertLocal` returns the dot of
  -- this node one above the clock, which no stored entry of the entity has; the engine is valid
  -- again, and holds the stamped entry at that entity and dot and what it held everywhere else.
  pub insert_local_lem :
      (k : List ℕ) (entry : CrdtEntry) (e : Engine fl em hash)
      → e.closing ≡ false
      → e.clock.lamport_counter + 1 + save_step < u64_mod
      → IsValid fl em hash e
      → (e' : Engine fl em hash) × (insert_local fl em hash k entry e ≡ done (fresh_dot e, e'))
        × IsValid fl em hash e'
        × (find (fresh_dot e) (point_get fl em hash e k) ≡ none)
        × ((j : List ℕ) (c : CausalDot)
            → find c (point_get fl em hash e' j)
              ≡ or_else (find c (point_get fl em hash e j)) (
                  if same_key k j
                  then find c (stamp fl em hash e (fresh_dot e) entry ∷ [])
                  else none))
  unfolding point_get stamp
  insert_local_lem k entry e o room v =
      let (same, _, _, _) = next_dot_lem fl e.local_node_id e.clock room v.saved in
      let y = stamp fl em hash e (fresh_dot e) entry in
      let (_, _, at) = put-shards e.shards k y v.some_shards v.sorted (find-fresh_dot e k v) in
      (
        inserted k entry e,
        insert_local-inserted k entry e o same,
        inserted-IsValid k entry e room v,
        find-fresh_dot e k v,
        at,
      )
