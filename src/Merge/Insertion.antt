-- ===== src/Merge/Insertion.antt =====
-- `insertionSortLastEntry` puts a new entry where the merge with its singleton puts it.
use sovereign.Prelude.{◌≡◌, ◌≢◌, refl, sym, ◌∙◌, List, [], ◌∷◌, Ordering, arith}
use sovereign.Entry.{CausalDot, CrdtEntry, dot, compare_dots}
use sovereign.Entry.Order.{compare_dots-flip, compare_dots_trans}
use sovereign.Merge.Defs.{merge_block, rev_onto, shift_loop, insertion_sort_last_entry}
use sovereign.Merge.Find.{merge, merge-nil, merged-merge_block}
use sovereign.Merge.Sorted.{Below, IsSorted, merge-IsSorted}

-- Every dot of the list is under `d`.
abbrev Under : CausalDot → List CrdtEntry → Type 0
Under d [] = Unit
Under d (x ∷ xs) = (compare_dots (dot x) d ≡ Ordering.lt) × Under d xs

Under-trans :
    (c d : CausalDot) (xs : List CrdtEntry)
    → Under c xs
    → compare_dots c d ≡ Ordering.lt
    → Under d xs
Under-trans c d [] u h = tt
Under-trans c d (x ∷ xs) u h = (compare_dots_trans (dot x) c d u.0 h, Under-trans c d xs u.1 h)

-- No entry of the list has the dot `d`.
abbrev pub Fresh : CausalDot → List CrdtEntry → Type 0
Fresh d [] = Unit
Fresh d (x ∷ xs) = (compare_dots (dot x) d ≢ Ordering.eq) × Fresh d xs

IsSorted-rev_onto : (pre suf : List CrdtEntry) → IsSorted (rev_onto pre suf) → IsSorted suf
unfolding rev_onto
IsSorted-rev_onto [] suf s = s
IsSorted-rev_onto (x ∷ pre) suf s = (IsSorted-rev_onto pre (x ∷ suf) s).1

Under-rev_onto :
    (pre : List CrdtEntry) (x : CrdtEntry) (suf : List CrdtEntry)
    → IsSorted (rev_onto pre (x ∷ suf))
    → Under (dot x) pre
unfolding rev_onto
Under-rev_onto [] x suf s = tt
Under-rev_onto (z ∷ pre) x suf s =
    let (b, _) = IsSorted-rev_onto pre (z ∷ x ∷ suf) s in
    (b.0, Under-trans (dot z) (dot x) pre (Under-rev_onto pre z (x ∷ suf) s) b.0)

Fresh-tail : (d : CausalDot) (pre suf : List CrdtEntry) → Fresh d (rev_onto pre suf) → Fresh d suf
unfolding rev_onto
Fresh-tail d [] suf f = f
Fresh-tail d (x ∷ pre) suf f = (Fresh-tail d pre (x ∷ suf) f).1

Fresh-rev_onto :
    (d : CausalDot) (pre suf : List CrdtEntry) → Fresh d (rev_onto pre suf) → Fresh d pre
unfolding rev_onto
Fresh-rev_onto d [] suf f = tt
Fresh-rev_onto d (x ∷ pre) suf f =
    ((Fresh-tail d pre (x ∷ suf) f).0, Fresh-rev_onto d pre (x ∷ suf) f)

merge-above :
    (last : CrdtEntry) (suf : List CrdtEntry)
    → Below (dot last) suf
    → merge suf (last ∷ []) ≡ last ∷ suf
unfolding merge
merge-above last [] b = refl
merge-above last (x ∷ suf) b = ground (arith, compare_dots-flip (dot last) (dot x), merge-nil suf)

-- What is under the new entry stays in front of it.
merge-rev_onto :
    (last : CrdtEntry) (pre suf out : List CrdtEntry)
    → Under (dot last) pre
    → merge suf (last ∷ []) ≡ out
    → merge (rev_onto pre suf) (last ∷ []) ≡ rev_onto pre out
unfolding rev_onto
merge-rev_onto last [] suf out u e = e
merge-rev_onto last (x ∷ pre) suf out u e =
    merge-rev_onto last pre (x ∷ suf) (x ∷ out) u.1 (unfold merge in ground arith)

shift_loop-merge :
    (last : CrdtEntry) (pre suf : List CrdtEntry)
    → IsSorted (rev_onto pre suf)
    → Fresh (dot last) pre
    → Below (dot last) suf
    → shift_loop pre last suf ≡ merge (rev_onto pre suf) (last ∷ [])
unfolding shift_loop rev_onto
shift_loop-merge last [] suf s f b = sym (merge-above last suf b)
shift_loop-merge last (x ∷ pre) suf s f b = ground (
  arith,
  compare_dots-flip (dot last) (dot x),
  shift_loop-merge last pre (x ∷ suf) s,
  Under-trans (dot x) (dot last) pre (Under-rev_onto pre x suf s),
  merge-rev_onto last (x ∷ pre) suf (last ∷ suf),
  merge-above last suf b,
)

rev_onto-rev_onto : (pre out : List CrdtEntry) → rev_onto (rev_onto pre out) [] ≡ rev_onto out pre
unfolding rev_onto
rev_onto-rev_onto [] out = refl
rev_onto-rev_onto (x ∷ pre) out = rev_onto-rev_onto pre (x ∷ out)

rev_onto_involutive : (xs : List CrdtEntry) → rev_onto (rev_onto xs []) [] ≡ xs
unfolding rev_onto
rev_onto_involutive xs = rev_onto-rev_onto xs []

Fresh-onto :
    (d : CausalDot) (pre suf : List CrdtEntry)
    → Fresh d pre
    → Fresh d suf
    → Fresh d (rev_onto pre suf)
unfolding rev_onto
Fresh-onto d [] suf f g = g
Fresh-onto d (x ∷ pre) suf f g = Fresh-onto d pre (x ∷ suf) f.1 (f.0, g)

-- Where the dot is new, the insertion is the merge with the one new entry.
pub insertion_sort-merge :
    (existing : List CrdtEntry) (last : CrdtEntry)
    → IsSorted existing
    → Fresh (dot last) existing
    → insertion_sort_last_entry existing last ≡ merge existing (last ∷ [])
unfolding insertion_sort_last_entry
insertion_sort-merge existing last s f =
    let back = rev_onto_involutive existing in
    rw back at (
      shift_loop-merge last (rev_onto existing []) [] (rw back s) (Fresh-onto _ existing [] f tt)
        tt)

-- An entry whose dot a sorted list does not have: `insertionSortLastEntry` leaves what the merge
-- loop leaves of the list and that one entry, a sorted list.
pub insertion_sort-merge_block :
    (existing : List CrdtEntry) (last : CrdtEntry)
    → IsSorted existing
    → Fresh (dot last) existing
    → (insertion_sort_last_entry existing last ≡ (merge_block existing (last ∷ [])).merged)
      × IsSorted (insertion_sort_last_entry existing last)
insertion_sort-merge_block existing last s f =
    let same = insertion_sort-merge existing last s f in
    (
      same ∙ sym (merged-merge_block existing (last ∷ [])),
      rw same (merge-IsSorted existing (last ∷ []) s (tt, tt)),
    )
