-- ===== src/Engine/Blocks.antt =====
-- The blocks that `Join` merges hold entries in strictly increasing order of their dots.
use sovereign.Prelude.{
  List, [], ◌∷◌, true, false, Ordering, ◌≡◌, ◌≢◌, refl, inl, inr, Bool-cases, arith,
}
use sovereign.Bytes.{All}
use sovereign.Entry.{CrdtEntry, IncomingEntry, dot, compare_dots, cmp_incoming_entries}
use sovereign.Entry.Order.{compare_bytes-eq, compare_bytes-flip, compare_dots-eq, compare_dots-flip}
use sovereign.EntryMap.{same_key, key_eq}
use sovereign.Merge.Sorted.{IsSorted, Below-trans}
use sovereign.Engine.Sorter.{Ascends, AllAscend}
use sovereign.Engine.Join.{is_repeat, dedup_loop, dedup_incoming, Block, cons_block, group_blocks}

-- Each entry is below the next one.
abbrev Climbs : IncomingEntry → List IncomingEntry → Type 0
Climbs x [] = Unit
Climbs x (y ∷ ys) = (cmp_incoming_entries x y ≡ Ordering.lt) × Climbs y ys

-- A repeat compares as the entry that it repeats.
repeat-cmp :
    (x prev y : IncomingEntry)
    → is_repeat x prev ≡ true
    → cmp_incoming_entries prev y ≡ cmp_incoming_entries x y
unfolding cmp_incoming_entries
repeat-cmp x prev y r = ground (
  arith,
  compare_bytes-eq x.entity_id prev.entity_id,
  compare_dots-eq (dot x.entry) (dot prev.entry),
)

new-cmp :
    (x prev : IncomingEntry)
    → is_repeat x prev ≡ false
    → cmp_incoming_entries prev x ≢ Ordering.gt
    → cmp_incoming_entries prev x ≡ Ordering.lt
unfolding cmp_incoming_entries
new-cmp x prev r h = ground (
  arith,
  compare_bytes-flip prev.entity_id x.entity_id,
  compare_dots-flip (dot prev.entry) (dot x.entry),
)

Ascends-repeat :
    (x prev : IncomingEntry) (xs : List IncomingEntry)
    → is_repeat x prev ≡ true
    → Ascends x xs
    → Ascends prev xs
Ascends-repeat x prev [] r a = tt
Ascends-repeat x prev (y ∷ ys) r a = (rw (repeat-cmp x prev y r) a.0, a.1)

Climbs-dedup_loop :
    (prev : IncomingEntry) (xs : List IncomingEntry)
    → Ascends prev xs
    → Climbs prev (dedup_loop prev xs)
unfolding dedup_loop
Climbs-dedup_loop prev [] a = tt
Climbs-dedup_loop prev (x ∷ xs) a = elim (Bool-cases (is_repeat x prev)) [
  | inl e ↦ rw (e, dedup_loop) (Climbs-dedup_loop prev xs (Ascends-repeat x prev xs e a.1))
  | inr e ↦ rw (e, dedup_loop) (new-cmp x prev e a.0, Climbs-dedup_loop x xs a.1)
]

abbrev Heads : CrdtEntry → List CrdtEntry → Type 0
Heads x [] = ⊥
Heads x (e ∷ es) = e ≡ x

-- The first block is of the entity of `x`, with the entry of `x` in front.
abbrev Leads : IncomingEntry → List Block → Type 0
Leads x [] = ⊥
Leads x (b ∷ rest) = (b.entity_id ≡ x.entity_id) × Heads x.entry b.entries

abbrev pub AllSorted : List Block → Type 0
AllSorted blocks = All (λ (b : Block). IsSorted b.entries) blocks

IsSorted-cons :
    (x y : CrdtEntry) (es : List CrdtEntry)
    → compare_dots (dot x) (dot y) ≡ Ordering.lt
    → Heads y es
    → IsSorted es
    → IsSorted (x ∷ es)
IsSorted-cons x y [] h e s = absurd e
IsSorted-cons x y (z ∷ es) h e s =
    let k = rw (← e) at h in ((k, Below-trans (dot x) (dot z) es k s.0), s)

same-entity :
    (x y : IncomingEntry)
    → cmp_incoming_entries x y ≡ Ordering.lt
    → same_key x.entity_id y.entity_id ≡ true
    → compare_dots (dot x.entry) (dot y.entry) ≡ Ordering.lt
unfolding cmp_incoming_entries
same-entity x y h k = ground arith

cons_block-ok :
    (x y : IncomingEntry) (blocks : List Block)
    → cmp_incoming_entries x y ≡ Ordering.lt
    → Leads y blocks
    → AllSorted blocks
    → Leads x (cons_block x blocks) × AllSorted (cons_block x blocks)
unfolding cons_block
cons_block-ok x y [] h l s = absurd l
cons_block-ok x y (b ∷ rest) h l s = elim (Bool-cases (same_key x.entity_id b.entity_id)) [
  | inl e ↦
      let below = same-entity x y h (rw (l.0) at e) in
      rw e (
        (key_eq x.entity_id b.entity_id e, refl),
        (IsSorted-cons x.entry y.entry b.entries below l.1 s.0, s.1),
      )
  | inr e ↦ rw e ((refl, refl), ((tt, tt), s))
]

group_blocks-ok :
    (x : IncomingEntry) (xs : List IncomingEntry)
    → Climbs x xs
    → Leads x (group_blocks (x ∷ xs)) × AllSorted (group_blocks (x ∷ xs))
unfolding group_blocks cons_block
group_blocks-ok x [] c = ((refl, refl), ((tt, tt), tt))
group_blocks-ok x (y ∷ ys) c =
    let (l, s) = group_blocks-ok y ys c.1 in cons_block-ok x y (group_blocks (y ∷ ys)) c.0 l s

-- Every block that is made of an ascending list is sorted.
pub dedup-sorted :
    (ys : List IncomingEntry) → AllAscend ys → AllSorted (group_blocks (dedup_incoming ys))
unfolding dedup_incoming
dedup-sorted [] a = unfold group_blocks in tt
dedup-sorted (y ∷ ys) a = (group_blocks-ok y (dedup_loop y ys) (Climbs-dedup_loop y ys a)).1
