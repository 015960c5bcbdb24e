-- ===== src/Merge/Find.antt =====
-- The entry of a dot in a list of entries, and the plain merge that the loop computes.
use sovereign.Prelude.{◌≡◌, refl, ◌∙◌, Option, none, some, List, [], ◌∷◌, ◌++◌, Ordering, arith}
use mathlib.Core.List.{append_assoc, append-nil}
use sovereign.Entry.{CausalDot, CrdtEntry, dot, compare_dots}
use sovereign.Merge.Defs.{MergeState, init, keep, insert, tie, merge_loop, merge_block}

-- The first entry with the dot `d`.
unfoldable pub find : CausalDot → List CrdtEntry → Option CrdtEntry
find d [] = none
find d (x ∷ xs) =
    let rest = find d xs in elim (compare_dots d (dot x)) [ Ordering.eq ↦ some x | _ ↦ rest ]

abbrev pub or_else : Option CrdtEntry → Option CrdtEntry → Option CrdtEntry
or_else none o = o
or_else (some x) o = some x

-- The merge with no accumulator.
unfoldable pub merge : List CrdtEntry → List CrdtEntry → List CrdtEntry
merge [] ys = ys
merge (x ∷ xs) [] = x ∷ xs
merge (x ∷ xs) (y ∷ ys) = elim (compare_dots (dot x) (dot y)) [
  | Ordering.lt ↦ x ∷ merge xs (y ∷ ys)
  | Ordering.gt ↦ y ∷ merge (x ∷ xs) ys
  | Ordering.eq ↦ x ∷ merge xs ys
]

pub merge-nil : (xs : List CrdtEntry) → merge xs [] ≡ xs
unfolding merge
merge-nil [] = refl
merge-nil (x ∷ xs) = refl

-- One more element behind what the loop has written.
snoc_append :
    (out rest : List CrdtEntry) (x : CrdtEntry) → (out ++ (x ∷ [])) ++ rest ≡ out ++ (x ∷ rest)
snoc_append out rest x = append_assoc out (x ∷ []) rest

pub merged-merge_loop :
    (xs ys : List CrdtEntry) (s : MergeState)
    → (merge_loop xs ys s).merged ≡ s.merged ++ merge xs ys
unfolding merge_loop merge
merged-merge_loop [] [] s = rw append-nil
merged-merge_loop [] (y ∷ ys) s = merged-merge_loop [] ys (insert s y) ∙ snoc_append s.merged ys y
merged-merge_loop (x ∷ xs) [] s =
    merged-merge_loop xs [] (keep s x) ∙ rw merge-nil (snoc_append s.merged xs x)
merged-merge_loop (x ∷ xs) (y ∷ ys) s = ground (
  arith,
  merged-merge_loop xs (y ∷ ys) (keep s x),
  merged-merge_loop (x ∷ xs) ys (insert s y),
  merged-merge_loop xs ys (tie s x),
  snoc_append s.merged (merge xs (y ∷ ys)) x,
  snoc_append s.merged (merge (x ∷ xs) ys) y,
  snoc_append s.merged (merge xs ys) x,
)

-- What the loop leaves in `merged` is the plain merge.
pub merged-merge_block : (xs ys : List CrdtEntry) → (merge_block xs ys).merged ≡ merge xs ys
unfolding merge_block
merged-merge_block xs ys = merged-merge_loop xs ys init
