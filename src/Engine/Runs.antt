-- ===== src/Engine/Runs.antt =====
-- The runs of an engine, as a step relation: it starts, and its operations follow in any order. In
-- every engine of a run an entity's entries stand only in the shard that the entity is routed to.
use sovereign.Prelude.{
  ℕ, ◌-◌, List, [], ◌∷◌, Option, none, some, true, false, ◌≡◌, ◌≢◌, refl, sym, ap, ◌∙◌, inl, inr,
  Bool-cases, Ordering-cases, ◌==◌, ==_iff, length, ltb,
}
use mathlib.Core.Path.{subst}
use Prim.Native.Nat.{bit_and}
use sovereign.Float64.{Float64}
use sovereign.Entry.{CausalDot, CrdtEntry, IncomingEntry, dot, compare_dots}
use sovereign.EntryMap.{EntryMap, same_key, key_eq}
use sovereign.Merge.Defs.{rev_onto, shift_loop, insertion_sort_last_entry}
use sovereign.Lamport.{next_dot}
use sovereign.Engine.Defs.{
  Engine, Outcome, done, panic, route_shard, update_shard, stamp, init_shards, insert_local,
  set_shard_count, merge_existing_dot, new_engine, default_shard_count,
}
use sovereign.Engine.Sorter.{Sorter}
use sovereign.Engine.Join.{
  Block, ShardMerge, merge_step, batches_of, merge_blocks, per_shard_merge, shard_order,
  join_incoming, join, dedup_incoming, group_blocks, advance_all,
}
use sovereign.Engine.JoinShards.{round, rounds, shard_step, shards-join_shards}
use sovereign.Engine.Routed.{IsRouted, update_shard-IsRouted, init_shards-IsRouted}
use sovereign.Engine.ShardCount.{other_key, re_emit_all-IsRouted}

abbrev IsCons : List CrdtEntry → Type 0
IsCons xs = (z : CrdtEntry) × ((zs : List CrdtEntry) × (xs ≡ z ∷ zs))

rev_onto-IsCons :
    (pre : List CrdtEntry) (x : CrdtEntry) (suf : List CrdtEntry) → IsCons (rev_onto pre (x ∷ suf))
unfolding rev_onto
rev_onto-IsCons [] x suf = (x, (suf, refl))
rev_onto-IsCons (y ∷ pre) x suf = rev_onto-IsCons pre y (x ∷ suf)

shift_loop-IsCons :
    (pre : List CrdtEntry) (y : CrdtEntry) (suf : List CrdtEntry) → IsCons (shift_loop pre y suf)
unfolding shift_loop
shift_loop-IsCons [] y suf = (y, (suf, refl))
shift_loop-IsCons (x ∷ pre) y suf = elim (Ordering-cases (compare_dots (dot x) (dot y))) [
  | inl e ↦ rw (e, shift_loop) (rev_onto-IsCons (x ∷ pre) y suf)
  | inr (inl e) ↦ rw (e, shift_loop) (rev_onto-IsCons (x ∷ pre) y suf)
  | inr (inr e) ↦ rw (e, shift_loop) (shift_loop-IsCons pre y (x ∷ suf))
]

module _ (fl : Float64) (em : EntryMap) (hash : List ℕ → ℕ) (so : Sorter) where
  open em use {Map, get, set, get-set, for_each}

  set_other_key :
      (m : Map) (j k : List ℕ) (es : List CrdtEntry) (n : ℕ)
      → IsCons es
      → route_shard fl em hash n j ≢ route_shard fl em hash n k
      → get m k ≡ []
      → get (set m j es) k ≡ []
  set_other_key m j k es n (z, (zs, c)) ne h = elim (Bool-cases (same_key j k)) [
    | inl e ↦ absurd (ne (ap (route_shard fl em hash n) (sym (key_eq j k e))))
    | inr e ↦ rw (c, get-set m j k z zs, e) h
  ]

  insert_local-IsRouted :
      (k : List ℕ) (entry : CrdtEntry) (e e' : Engine fl em hash) (d : CausalDot)
      → insert_local fl em hash k entry e ≡ done (d, e')
      → IsRouted fl em hash e.shards
      → IsRouted fl em hash e'.shards
  unfolding insert_local
  insert_local-IsRouted k entry e e' d h r = elim (Bool-cases e.closing) [
    | inl c ↦ absurd (let no = rw c at h in cc)
    | inr c ↦
        let y = stamp fl em hash e (next_dot fl e.local_node_id e.clock).0 entry in
        let put = λ (m : Map). set m k (insertion_sort_last_entry (get m k) y) in
        let i = route_shard fl em hash (length e.shards) k in
        let opened = rw c at h in
        let same : update_shard fl em hash put i e.shards ≡ e'.shards =
          ap
            (λ (o : Outcome (CausalDot × Engine fl em hash)). elim o [
              | done x ↦ (x.1).shards
              | panic ↦ []
            ])
            opened in
        subst (IsRouted fl em hash) same (
          update_shard-IsRouted fl em hash put i e.shards
            (λ m j _ ne g.
              set_other_key m k j (insertion_sort_last_entry (get m k) y) (length e.shards)
                (unfold insertion_sort_last_entry in shift_loop-IsCons (rev_onto (get m k) []) y [])
                ne g)
            r)
  ]

  -- The blocks of another shard leave an entity without entries.
  merge_batches-other :
      (n idx : ℕ) (blocks : List Block) (s : ShardMerge fl em hash) (k : List ℕ)
      → idx ≢ route_shard fl em hash n k
      → get s.modified k ≡ []
      → get (merge_blocks fl em hash (batches_of fl em hash n idx blocks) s).modified k ≡ []
  unfolding merge_blocks batches_of merge_existing_dot
  merge_batches-other n idx [] s k ne h = h
  merge_batches-other n idx (b ∷ blocks) s k ne h =
      elim (Bool-cases (route_shard fl em hash n b.entity_id == idx)) [
        | inl e ↦
            let here : route_shard fl em hash n b.entity_id ≡ idx =
              (==_iff (route_shard fl em hash n b.entity_id) idx).0 e in
            rw (e, merge_blocks)
              (merge_batches-other n idx blocks (merge_step fl em hash b s) k ne
                (other_key fl em hash s.modified b.entity_id k b.entries n (rw here ne) h))
        | inr e ↦ rw e (merge_batches-other n idx blocks s k ne h)
      ]

  rounds-IsRouted :
      (order : List ℕ) (blocks : List Block) (shards : List Map)
      → IsRouted fl em hash shards
      → IsRouted fl em hash (rounds fl em hash order blocks shards)
  unfolding rounds round per_shard_merge
  rounds-IsRouted [] blocks shards r = r
  rounds-IsRouted (idx ∷ order) blocks shards r =
      rounds-IsRouted order blocks (round fl em hash idx blocks shards) (
        update_shard-IsRouted fl em hash (shard_step fl em hash (length shards) idx blocks) idx
          shards (λ m k _ ne h. merge_batches-other (length shards) idx blocks _ k ne h) r)

  join_incoming-IsRouted :
      (xs : List IncomingEntry) (e : Engine fl em hash)
      → IsRouted fl em hash e.shards
      → IsRouted fl em hash (join_incoming fl em hash so xs e).shards
  unfolding join_incoming
  join_incoming-IsRouted xs e r =
      let blocks = group_blocks (dedup_incoming (so.sort xs)) in
      let order = shard_order fl em hash (length e.shards) blocks in
      rw
        (shards-join_shards fl em hash order blocks
          record { shards = e.shards; total_inserted = 0; total_skipped = 0 })
        (rounds-IsRouted order blocks e.shards r)

  -- What holds of the engine that an operation returns.
  abbrev Returned : Outcome (Engine fl em hash) → Type 0
  Returned (done e) = IsRouted fl em hash e.shards
  Returned panic = Unit

  join-Returned :
      (xs : Option (List IncomingEntry)) (e : Engine fl em hash)
      → IsRouted fl em hash e.shards
      → e.closing ≡ false
      → Returned (join fl em hash so xs e)
  unfolding join
  join-Returned none e r c = rw c r
  join-Returned (some []) e r c = rw c r
  join-Returned (some (x ∷ xs)) e r c = rw c (
      join_incoming-IsRouted (x ∷ xs) (record e { clock = advance_all fl em hash (x ∷ xs) e.clock })
        r)

  join-panic :
      (xs : Option (List IncomingEntry)) (e : Engine fl em hash)
      → e.closing ≡ true
      → join fl em hash so xs e ≡ panic
  unfolding join
  join-panic xs e c = rw c

  join-IsRouted :
      (xs : Option (List IncomingEntry)) (e e' : Engine fl em hash)
      → join fl em hash so xs e ≡ done e'
      → IsRouted fl em hash e.shards
      → IsRouted fl em hash e'.shards
  join-IsRouted xs e e' h r = elim (Bool-cases e.closing) [
    | inl c ↦ absurd (let no = sym (join-panic xs e c) ∙ h in cc)
    | inr c ↦ subst Returned h (join-Returned xs e r c)
  ]

  set_shard_count-Returned :
      (n : ℕ) (e : Engine fl em hash)
      → IsRouted fl em hash e.shards
      → Returned (set_shard_count fl em hash n e)
  unfolding set_shard_count
  set_shard_count-Returned n e r = elim (Bool-cases (ltb n 1)) [
    | inl z ↦ rw z tt
    | inr z ↦ elim (Bool-cases (bit_and n (n - 1) == 0)) [
      | inr p ↦ rw (z, p) tt
      | inl p ↦ elim (Bool-cases (length e.shards == n)) [
        | inl same ↦ rw (z, p, same) r
        | inr other ↦
            rw (z, p, other)
              (re_emit_all-IsRouted fl em hash e.shards (init_shards fl em hash n)
                (init_shards-IsRouted fl em hash n))
      ]
    ]
  ]

  -- One call that returns.
  pub data Step : Engine fl em hash → Engine fl em hash → Type 0 where
    inserts :
        (k : List ℕ) (entry : CrdtEntry) (d : CausalDot) (e e' : Engine fl em hash)
        → insert_local fl em hash k entry e ≡ done (d, e')
        → Step e e'
    joins :
        (xs : Option (List IncomingEntry)) (e e' : Engine fl em hash)
        → join fl em hash so xs e ≡ done e'
        → Step e e'
    reshards :
        (n : ℕ) (e e' : Engine fl em hash) → set_shard_count fl em hash n e ≡ done e' → Step e e'

  -- The engines of a run that `NewDeltaCRDTEngine` begins.
  pub data Reach (node : List ℕ) (initial : ℕ) (file : Option (List ℕ))
      : Engine fl em hash → Type 0 where
    starts : Reach node initial file (new_engine fl em hash node initial file)
    next :
        {e e' : Engine fl em hash}
        → Reach node initial file e
        → Step e e'
        → Reach node initial file e'

  Step-IsRouted :
      {e e' : Engine fl em hash}
      → Step e e'
      → IsRouted fl em hash e.shards
      → IsRouted fl em hash e'.shards
  Step-IsRouted (inserts k entry d e e' h) r = insert_local-IsRouted k entry e e' d h r
  Step-IsRouted (joins xs e e' h) r = join-IsRouted xs e e' h r
  Step-IsRouted (reshards n e e' h) r = subst Returned h (set_shard_count-Returned n e r)

  new_engine-IsRouted :
      (node : List ℕ) (initial : ℕ) (file : Option (List ℕ))
      → IsRouted fl em hash (new_engine fl em hash node initial file).shards
  unfolding new_engine
  new_engine-IsRouted node initial file = init_shards-IsRouted fl em hash default_shard_count

  -- In every engine that a run of inserts, joins and changes of the shard count reaches from a new
  -- engine, a shard holds entries only for entities that `routeShard` sends to it.
  pub Reach-IsRouted :
      (node : List ℕ) (initial : ℕ) (file : Option (List ℕ)) (e : Engine fl em hash)
      → Reach node initial file e
      → IsRouted fl em hash e.shards
  Reach-IsRouted node initial file _ starts = new_engine-IsRouted node initial file
  Reach-IsRouted node initial file e' (next {e} p s) =
      Step-IsRouted s (Reach-IsRouted node initial file e p)
