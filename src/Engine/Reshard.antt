-- ===== src/Engine/Reshard.antt =====
-- The loops of `SetShardCount`, at each entity and dot.
use sovereign.Prelude.{
  ℕ, zero, suc, ◌<◌, List, [], ◌∷◌, Option, none, some, true, false, Bool, ◌≡◌, ◌≢◌, refl, sym, ap,
  ◌∙◌, inl, inr, Bool-cases, length, get_elem?, if◌then◌else◌, arith,
}
use mathlib.Core.Path.{subst}
use sovereign.Bytes.{All}
use sovereign.Float64.{Float64}
use sovereign.Entry.{CausalDot, CrdtEntry}
use sovereign.EntryMap.{EntryMap, Pair, entries_of, same_key, key_eq}
use sovereign.Merge.Find.{find, or_else}
use sovereign.Merge.Sorted.{IsSorted}
use sovereign.Engine.Defs.{
  route_shard, entries_at, update_shard, merge_existing_dot, re_emit, re_emit_all,
}
use sovereign.Engine.Shards.{
  route_shard-lt, length-update_shard, entries_at-update, All-get_elem?, All-update_shard,
}
use sovereign.Engine.Merging.{
  SortedIn, merge_existing_dot-SortedIn, find-merge_existing_dot, or_else-none, or_else_assoc,
}
use sovereign.Engine.Routed.{IsRouted}

-- The first entry of the pairs with the entity and the dot.
abbrev pub find_pairs : List ℕ → CausalDot → List Pair → Option CrdtEntry
find_pairs k d [] = none
find_pairs k d ((j, es) ∷ rest) =
    or_else (if same_key k j then find d es else none) (find_pairs k d rest)

abbrev PairsSorted : List Pair → Type 0
PairsSorted ps = All (λ (p : Pair). IsSorted p.1) ps

find-nil : (d : CausalDot) → find d [] ≡ none
unfolding find
find-nil d = refl

-- Each pair of the key has the entries `es`.
abbrev Agrees : List ℕ → List CrdtEntry → List Pair → Type 0
Agrees k es ps = All (λ (p : Pair). same_key k p.0 ≡ true → p.1 ≡ es) ps

or_else-pair :
    (a b c : Option CrdtEntry) (s : Bool)
    → (s ≡ true → b ≡ a)
    → or_else a c ≡ a
    → or_else a (or_else (if s then b else none) c) ≡ a
or_else-pair none b c true h e = ground (arith, h)
or_else-pair none b c false h e = e
or_else-pair (some x) b c s h e = refl

find_pairs-covered :
    (k : List ℕ) (d : CausalDot) (es : List CrdtEntry) (ps : List Pair)
    → Agrees k es ps
    → or_else (find d es) (find_pairs k d ps) ≡ find d es
find_pairs-covered k d es [] a = or_else-none (find d es)
find_pairs-covered k d es ((j, fs) ∷ ps) a =
    or_else-pair (find d es) (find d fs) (find_pairs k d ps) (same_key k j)
      (λ h. ap (find d) (a.0 h)) (find_pairs-covered k d es ps a.1)

find_pairs-agree :
    (k : List ℕ) (d : CausalDot) (es : List CrdtEntry) (ps : List Pair)
    → Agrees k es ps
    → entries_of k ps ≡ es
    → find_pairs k d ps ≡ find d es
find_pairs-agree k d es [] a e = rw (← e) (unfold find in refl)
find_pairs-agree k d es ((j, fs) ∷ ps) a e = elim (Bool-cases (same_key k j)) [
  | inl h ↦ rw (h, a.0 h) (find_pairs-covered k d es ps a.1)
  | inr h ↦ rw h (find_pairs-agree k d es ps a.1 (rw (h, entries_of) at e))
]

module _ (fl : Float64) (em : EntryMap) (hash : List ℕ → ℕ) where
  open em use {Map, get, for_each, get-for_each, for_each-get}

  emit : List ℕ → List CrdtEntry → Map → Map
  emit j es m = merge_existing_dot fl em hash m j es

  abbrev pub emitted : List Map → List ℕ → List CrdtEntry → List Map
  emitted shards j es =
      update_shard fl em hash (λ m. merge_existing_dot fl em hash m j es)
        (route_shard fl em hash (length shards) j) shards

  find-emitted :
      (shards : List Map) (j k : List ℕ) (es : List CrdtEntry) (d : CausalDot)
      → 0 < length shards
      → IsSorted es
      → All (SortedIn fl em hash) shards
      → find d (entries_at fl em hash (emitted shards j es) k)
        ≡ or_else
            (find d (entries_at fl em hash shards k))
            (if same_key k j then find d es else none)
  find-emitted shards j k es d pos s a =
      let i = route_shard fl em hash (length shards) j in
      elim (entries_at-update fl em hash (λ m. merge_existing_dot fl em hash m j es) i shards k
        (route_shard-lt fl em hash (length shards) j pos)) [
          | inl (same, (m, found, old, new)) ↦
              rw (new, old)
                (find-merge_existing_dot fl em hash m j k es d s
                  (All-get_elem? fl em hash (SortedIn fl em hash) shards i m found a))
          | inr (other, new) ↦ rw new (elim (Bool-cases (same_key k j)) [
            | inl e ↦ absurd (other (ap (route_shard fl em hash (length shards)) (key_eq k j e)))
            | inr e ↦ rw e (sym (or_else-none _))
          ])
        ]

  abbrev pub Emission : List Map → List ℕ → CausalDot → Option CrdtEntry → List Map → Type 0
  Emission shards k d o shards' =
      (find d (entries_at fl em hash shards' k)
        ≡ or_else (find d (entries_at fl em hash shards k)) o)
      × All (SortedIn fl em hash) shards'
      × (length shards' ≡ length shards)

  find-re_emit :
      (ps : List Pair) (shards : List Map) (k : List ℕ) (d : CausalDot)
      → 0 < length shards
      → PairsSorted ps
      → All (SortedIn fl em hash) shards
      → Emission shards k d (find_pairs k d ps) (re_emit fl em hash shards ps)
  unfolding re_emit
  find-re_emit [] shards k d pos s a = (sym (or_else-none _), a, refl)
  find-re_emit ((j, es) ∷ ps) shards k d pos s a =
      let len =
        length-update_shard fl em hash (λ m. merge_existing_dot fl em hash m j es)
          (route_shard fl em hash (length shards) j) shards in
      let sorted =
        All-update_shard fl em hash (SortedIn fl em hash) _
          (route_shard fl em hash (length shards) j) shards
          (λ m _ h. merge_existing_dot-SortedIn fl em hash m j es s.0 h) a in
      let (now, sorted', len') =
        find-re_emit ps (emitted shards j es) k d (rw len pos) s.1 sorted in
      (
        now
            ∙ ap (λ (o : Option CrdtEntry). or_else o (find_pairs k d ps))
                (find-emitted shards j k es d pos s.0 a)
            ∙ or_else_assoc (find d (entries_at fl em hash shards k)) _ (find_pairs k d ps),
        sorted',
        len' ∙ len,
      )

  -- What the roots hold, one after the other.
  abbrev pub find_roots : List ℕ → CausalDot → List Map → Option CrdtEntry
  find_roots k d [] = none
  find_roots k d (m ∷ old) = or_else (find d (get m k)) (find_roots k d old)

  pairs_agree :
      (m : Map) (k : List ℕ) (ps : List Pair)
      → All (λ (p : Pair). get m p.0 ≡ p.1) ps
      → Agrees k (get m k) ps
  pairs_agree m k [] a = tt
  pairs_agree m k ((j, es) ∷ ps) a =
      (λ h. sym a.0 ∙ ap (get m) (key_eq k j h), pairs_agree m k ps a.1)

  find-for_each :
      (m : Map) (k : List ℕ) (d : CausalDot) → find_pairs k d (for_each m) ≡ find d (get m k)
  find-for_each m k d =
      find_pairs-agree k d (get m k) (for_each m) (pairs_agree m k (for_each m) (for_each-get m))
        (sym (get-for_each m k))

  pairs_sorted :
      (m : Map) (ps : List Pair)
      → SortedIn fl em hash m
      → All (λ (p : Pair). get m p.0 ≡ p.1) ps
      → PairsSorted ps
  pairs_sorted m [] s a = tt
  pairs_sorted m ((j, es) ∷ ps) s a = (subst IsSorted a.0 (s j), pairs_sorted m ps s a.1)

  pub find-re_emit_all :
      (old shards : List Map) (k : List ℕ) (d : CausalDot)
      → 0 < length shards
      → All (SortedIn fl em hash) old
      → All (SortedIn fl em hash) shards
      → Emission shards k d (find_roots k d old) (re_emit_all fl em hash shards old)
  unfolding re_emit_all
  find-re_emit_all [] shards k d pos s a = (sym (or_else-none _), a, refl)
  find-re_emit_all (m ∷ old) shards k d pos s a =
      let (first, sorted, len) =
        find-re_emit (for_each m) shards k d pos (pairs_sorted m (for_each m) s.0 (for_each-get m))
          a in
      let (now, sorted', len') =
        find-re_emit_all old (re_emit fl em hash shards (for_each m)) k d (rw len pos) s.1 sorted in
      (
        now
            ∙ ap (λ (o : Option CrdtEntry). or_else o (find_roots k d old))
                (first ∙ ap (or_else _) (find-for_each m k d))
            ∙ or_else_assoc (find d (entries_at fl em hash shards k)) _ (find_roots k d old),
        sorted',
        len' ∙ len,
      )

  -- Where only the root `r` can hold the entity, the roots hold what that root holds.
  no_root :
      (k : List ℕ) (d : CausalDot) (old : List Map)
      → ((i : ℕ) (m : Map) → get_elem? old i ≡ some m → get m k ≡ [])
      → find_roots k d old ≡ none
  no_root k d [] f = refl
  no_root k d (m ∷ old) f = rw (f 0 m refl, find-nil d) (no_root k d old (λ i. f (suc i)))

  abbrev found_at : List ℕ → CausalDot → Option Map → Option CrdtEntry
  found_at k d none = none
  found_at k d (some m) = find d (get m k)

  one_root :
      (k : List ℕ) (d : CausalDot) (old : List Map) (r : ℕ)
      → ((i : ℕ) (m : Map) → get_elem? old i ≡ some m → i ≢ r → get m k ≡ [])
      → find_roots k d old ≡ found_at k d (get_elem? old r)
  one_root k d [] r f = refl
  one_root k d (m ∷ old) zero f =
      ap (or_else (find d (get m k))) (no_root k d old (λ i n h. f (suc i) n h (λ p. omega arith)))
      ∙ or_else-none _
  one_root k d (m ∷ old) (suc r) f =
      rw (f 0 m refl (λ p. omega arith), find-nil d)
        (one_root k d old r (λ i n h ne. f (suc i) n h (λ p. ne (omega arith))))

  found_entries :
      (k : List ℕ) (d : CausalDot) (o : Option Map)
      → found_at k d o ≡ find d (elim o [ none ↦ [] | some m ↦ get m k ])
  unfolding find
  found_entries k d none = refl
  found_entries k d (some m) = refl

  pub find-routed :
      (k : List ℕ) (d : CausalDot) (old : List Map)
      → IsRouted fl em hash old
      → find_roots k d old ≡ find d (entries_at fl em hash old k)
  unfolding entries_at
  find-routed k d old r =
      let i = route_shard fl em hash (length old) k in
      one_root k d old i (λ n m h. r n m k h) ∙ found_entries k d (get_elem? old i)
