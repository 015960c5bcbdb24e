-- ===== src/Engine/Incoming.antt =====
-- What `Join` makes of the delta's entries before it merges them: for each entity and dot the
-- first entry of the sorted delta, in blocks whose entries are sorted.
use sovereign.Prelude.{
  ℕ, List, [], ◌∷◌, Option, none, some, true, Ordering, ◌≡◌, refl, ◌∙◌, ap, inl, inr, Bool-cases,
  if◌then◌else◌, arith,
}
use sovereign.Entry.{CausalDot, CrdtEntry, IncomingEntry, dot, compare_dots}
use sovereign.Entry.Order.{compare_bytes-eq, compare_dots-eq}
use sovereign.EntryMap.{same_key}
use sovereign.Merge.Find.{find, or_else}
use sovereign.Engine.Join.{is_repeat, dedup_loop, dedup_incoming, Block, cons_block, group_blocks}

-- The entry, if it is of the entity and the dot.
unfoldable pub hit : List ℕ → CausalDot → IncomingEntry → Option CrdtEntry
hit k d x =
    if same_key k x.entity_id
    then (elim (compare_dots d (dot x.entry)) [ Ordering.eq ↦ some x.entry | _ ↦ none ])
    else none

-- The first entry of the list with the entity and the dot.
abbrev pub find_incoming : List ℕ → CausalDot → List IncomingEntry → Option CrdtEntry
find_incoming k d [] = none
find_incoming k d (x ∷ xs) = or_else (hit k d x) (find_incoming k d xs)

abbrev pub find_blocks : List ℕ → CausalDot → List Block → Option CrdtEntry
find_blocks k d [] = none
find_blocks k d (b ∷ rest) =
    or_else (if same_key k b.entity_id then find d b.entries else none) (find_blocks k d rest)

module _ (k : List ℕ) (d : CausalDot) where
  -- A repeat of an entry hits only where that entry does.
  hit-repeat :
      (x prev : IncomingEntry) → is_repeat x prev ≡ true → hit k d prev ≡ none → hit k d x ≡ none
  unfolding hit
  hit-repeat x prev r h = ground (
    arith,
    compare_bytes-eq x.entity_id prev.entity_id,
    compare_dots-eq (dot x.entry) (dot prev.entry),
  )

  absorb :
      (a b o : Option CrdtEntry) → (a ≡ none → b ≡ none) → or_else a o ≡ or_else a (or_else b o)
  absorb none b o h = rw (h refl)
  absorb (some x) b o h = refl

  find-dedup_loop :
      (prev : IncomingEntry) (xs : List IncomingEntry)
      → find_incoming k d (prev ∷ dedup_loop prev xs) ≡ find_incoming k d (prev ∷ xs)
  unfolding dedup_loop
  find-dedup_loop prev [] = refl
  find-dedup_loop prev (x ∷ xs) = elim (Bool-cases (is_repeat x prev)) [
    | inl e ↦
        rw (e, dedup_loop)
          (find-dedup_loop prev xs
            ∙ absorb (hit k d prev) (hit k d x) (find_incoming k d xs) (hit-repeat x prev e))
    | inr e ↦ rw (e, dedup_loop) (ap (or_else (hit k d prev)) (find-dedup_loop x xs))
  ]

  pub find-dedup_incoming :
      (xs : List IncomingEntry) → find_incoming k d (dedup_incoming xs) ≡ find_incoming k d xs
  unfolding dedup_incoming
  find-dedup_incoming [] = refl
  find-dedup_incoming (x ∷ xs) = find-dedup_loop x xs

  find-cons_block :
      (x : IncomingEntry) (blocks : List Block)
      → find_blocks k d (cons_block x blocks) ≡ or_else (hit k d x) (find_blocks k d blocks)
  unfolding cons_block hit find
  find-cons_block x [] = ground arith
  find-cons_block x (b ∷ rest) = ground (arith, compare_bytes-eq x.entity_id b.entity_id)

  pub find-group_blocks :
      (xs : List IncomingEntry) → find_blocks k d (group_blocks xs) ≡ find_incoming k d xs
  unfolding group_blocks
  find-group_blocks [] = refl
  find-group_blocks (x ∷ xs) = rw (find-cons_block x (group_blocks xs), find-group_blocks xs)

  -- Dropping repeats and grouping keep the first entry of each entity and dot.
  pub find-blocks :
      (xs : List IncomingEntry)
      → find_blocks k d (group_blocks (dedup_incoming xs)) ≡ find_incoming k d xs
  find-blocks xs = find-group_blocks (dedup_incoming xs) ∙ find-dedup_incoming xs
