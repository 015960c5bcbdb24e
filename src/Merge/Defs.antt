-- ===== src/Merge/Defs.antt =====
-- The entries of one entity, kept in the order of their dots (pkg/sync/crdt.go): the two-pointer
-- merge that `Join` and `mergeExistingDot` share, and `insertionSortLastEntry`.
use sovereign.Prelude.{ℕ, ◌+◌, List, [], ◌∷◌, ◌++◌, Bool, true, false, Ordering}
use sovereign.Entry.{CrdtEntry, dot, compare_dots}

-- The variables of the merge loop. The counters count list elements, so they cannot wrap.
pub record MergeState : Type 0 where
  pub merged : List CrdtEntry
  pub inserted : ℕ
  pub skipped : ℕ
  pub added : Bool

abbrev pub init : MergeState
init = record { merged = []; inserted = 0; skipped = 0; added = false }

-- `merged = append(merged, existing[p1]); p1++`
abbrev pub keep : MergeState → CrdtEntry → MergeState
keep s x = record s { merged = s.merged ++ (x ∷ []) }

-- `merged = append(merged, incomingBlock[p2]); p2++; added = true; inserted++`
abbrev pub insert : MergeState → CrdtEntry → MergeState
insert s y = record s { merged = s.merged ++ (y ∷ []); inserted = s.inserted + 1; added = true }

-- The dots are the same: the existing entry stays and the incoming one is skipped.
abbrev pub tie : MergeState → CrdtEntry → MergeState
tie s x = record s { merged = s.merged ++ (x ∷ []); skipped = s.skipped + 1 }

-- The lists are what the pointers p1 and p2 have not passed. The first clauses are the two loops
-- that drain one list when the other is used up.
unfoldable pub merge_loop : List CrdtEntry → List CrdtEntry → MergeState → MergeState
merge_loop [] [] s = s
merge_loop [] (y ∷ ys) s = merge_loop [] ys (insert s y)
merge_loop (x ∷ xs) [] s = merge_loop xs [] (keep s x)
merge_loop (x ∷ xs) (y ∷ ys) s = elim (compare_dots (dot x) (dot y)) [
  | Ordering.lt ↦ merge_loop xs (y ∷ ys) (keep s x)
  | Ordering.gt ↦ merge_loop (x ∷ xs) ys (insert s y)
  | Ordering.eq ↦ merge_loop xs ys (tie s x)
]

-- `merge_block existing incoming`
unfoldable pub merge_block : List CrdtEntry → List CrdtEntry → MergeState
merge_block existing incoming = merge_loop existing incoming init

-- `for i := len(pre) - 1 down to 0`: `pre` is dst[0..j] with dst[j] first, and `suf` is what the
-- loop has shifted to the right.
unfoldable pub rev_onto : List CrdtEntry → List CrdtEntry → List CrdtEntry
rev_onto [] suf = suf
rev_onto (x ∷ pre) suf = rev_onto pre (x ∷ suf)

unfoldable pub shift_loop : List CrdtEntry → CrdtEntry → List CrdtEntry → List CrdtEntry
unfolding rev_onto
shift_loop [] last suf = last ∷ suf
shift_loop (x ∷ pre) last suf = elim (compare_dots (dot x) (dot last)) [
  | Ordering.gt ↦ shift_loop pre last (x ∷ suf)
  | _ ↦ rev_onto (x ∷ pre) (last ∷ suf)
]

-- `insertionSortLastEntry` of the slice that holds `existing` and then `last`.
unfoldable pub insertion_sort_last_entry : List CrdtEntry → CrdtEntry → List CrdtEntry
unfolding shift_loop rev_onto
insertion_sort_last_entry existing last = shift_loop (rev_onto existing []) last []
