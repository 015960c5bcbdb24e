-- ===== src/Merge/Count.antt =====
-- What the merge loop reports: how many entries were new, how many were there, and `added`.
use sovereign.Prelude.{◌+◌, ◌≡◌, refl, List, [], ◌∷◌, true, false, length, length-append, arith}
use sovereign.Entry.{CrdtEntry}
use sovereign.Merge.Defs.{MergeState, init, keep, insert, tie, merge_loop, merge_block}
use sovereign.Merge.Find.{merge}

-- Every incoming entry is counted once, and every new one makes the list longer by one.
pub merge_loop_counts :
    (xs ys : List CrdtEntry) (s : MergeState)
    → let r = merge_loop xs ys s in
      (r.inserted + r.skipped ≡ s.inserted + s.skipped + length ys)
      × (length r.merged + s.inserted ≡ length s.merged + length xs + r.inserted)
unfolding merge_loop
merge_loop_counts [] [] s = omega arith
merge_loop_counts [] (y ∷ ys) s =
    omega (arith, merge_loop_counts [] ys (insert s y), length-append s.merged (y ∷ []))
merge_loop_counts (x ∷ xs) [] s =
    omega (arith, merge_loop_counts xs [] (keep s x), length-append s.merged (x ∷ []))
merge_loop_counts (x ∷ xs) (y ∷ ys) s = ground (
  arith,
  merge_loop_counts xs (y ∷ ys) (keep s x),
  merge_loop_counts (x ∷ xs) ys (insert s y),
  merge_loop_counts xs ys (tie s x),
  length-append s.merged (x ∷ []),
  length-append s.merged (y ∷ []),
)

added_stays :
    (xs ys : List CrdtEntry) (s : MergeState) → s.added ≡ true → (merge_loop xs ys s).added ≡ true
unfolding merge_loop
added_stays [] [] s h = h
added_stays [] (y ∷ ys) s h = added_stays [] ys (insert s y) refl
added_stays (x ∷ xs) [] s h = added_stays xs [] (keep s x) h
added_stays (x ∷ xs) (y ∷ ys) s h = ground (
  arith,
  added_stays xs (y ∷ ys) (keep s x),
  added_stays (x ∷ xs) ys (insert s y),
  added_stays xs ys (tie s x),
)

not_added :
    (xs ys : List CrdtEntry) (s : MergeState)
    → (merge_loop xs ys s).added ≡ false
    → merge xs ys ≡ xs
unfolding merge_loop merge
not_added [] [] s h = refl
not_added [] (y ∷ ys) s h = cc (added_stays [] ys (insert s y) refl)
not_added (x ∷ xs) [] s h = refl
not_added (x ∷ xs) (y ∷ ys) s h = ground (
  arith,
  not_added xs (y ∷ ys) (keep s x),
  added_stays (x ∷ xs) ys (insert s y),
  not_added xs ys (tie s x),
)

-- Where the loop reports nothing added, the merge is the list that was there.
pub merge-not_added :
    (xs ys : List CrdtEntry) → (merge_block xs ys).added ≡ false → merge xs ys ≡ xs
unfolding merge_block
merge-not_added xs ys h = not_added xs ys init h

-- The merge counts each incoming entry once, as inserted or as skipped, and leaves a list that is
-- longer than the existing one by the inserted entries.
merge_block_counts :
    (xs ys : List CrdtEntry)
    → ((merge_block xs ys).inserted + (merge_block xs ys).skipped ≡ length ys)
      × (length (merge_block xs ys).merged ≡ length xs + (merge_block xs ys).inserted)
unfolding merge_block
merge_block_counts xs ys = omega (arith, merge_loop_counts xs ys init)
