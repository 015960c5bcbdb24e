-- ===== src/Merge/Semilattice.antt =====
-- The merge is a join: associative, idempotent, and commutative where the two lists agree on the
-- dots that they share. So replicas that receive the same entries hold the same list.
use sovereign.Prelude.{◌≡◌, Option, none, some, List, arith}
use sovereign.Entry.{CausalDot, CrdtEntry}
use sovereign.Merge.Defs.{merge_block}
use sovereign.Merge.Find.{find, or_else, merge, merged-merge_block}
use sovereign.Merge.Sorted.{IsSorted, find-merge, merge-IsSorted, sorted_ext}

or_else_assoc : (a b c : Option CrdtEntry) → or_else (or_else a b) c ≡ or_else a (or_else b c)
or_else_assoc a b c = ground arith

-- Where both lists have an entry of one dot, it is the same entry.
abbrev pub Agree : List CrdtEntry → List CrdtEntry → Type 0
Agree xs ys = (d : CausalDot) (x y : CrdtEntry) → find d xs ≡ some x → find d ys ≡ some y → x ≡ y

or_else_comm :
    (a b : Option CrdtEntry)
    → ((x y : CrdtEntry) → a ≡ some x → b ≡ some y → x ≡ y)
    → or_else a b ≡ or_else b a
or_else_comm none none h = ground arith
or_else_comm none (some y) h = ground arith
or_else_comm (some x) none h = ground arith
or_else_comm (some x) (some y) h = ground (arith, h x y)

merge_assoc :
    (xs ys zs : List CrdtEntry)
    → IsSorted xs
    → IsSorted ys
    → IsSorted zs
    → merge (merge xs ys) zs ≡ merge xs (merge ys zs)
merge_assoc xs ys zs s t u =
    let st = merge-IsSorted xs ys s t in
    let tu = merge-IsSorted ys zs t u in
    sorted_ext (merge (merge xs ys) zs) (merge xs (merge ys zs)) (merge-IsSorted _ zs st u)
      (merge-IsSorted xs _ s tu)
      λ d.
        rw
          (
            find-merge d _ zs st u,
            find-merge d xs ys s t,
            find-merge d xs _ s tu,
            find-merge d ys zs t u,
          )
          (or_else_assoc (find d xs) (find d ys) (find d zs))

merge_comm :
    (xs ys : List CrdtEntry) → IsSorted xs → IsSorted ys → Agree xs ys → merge xs ys ≡ merge ys xs
merge_comm xs ys s t agree =
    sorted_ext (merge xs ys) (merge ys xs) (merge-IsSorted xs ys s t) (merge-IsSorted ys xs t s)
      λ d.
        rw (find-merge d xs ys s t, find-merge d ys xs t s)
          (or_else_comm (find d xs) (find d ys) (agree d))

merge_idem : (xs : List CrdtEntry) → IsSorted xs → merge xs xs ≡ xs
merge_idem xs s =
    sorted_ext (merge xs xs) xs (merge-IsSorted xs xs s s) s
      λ d. rw (find-merge d xs xs s s) (ground arith)

-- On sorted lists the merge loop of the code is associative in what it leaves.
pub merge_block_assoc :
    (xs ys zs : List CrdtEntry)
    → IsSorted xs
    → IsSorted ys
    → IsSorted zs
    → (merge_block (merge_block xs ys).merged zs).merged
      ≡ (merge_block xs (merge_block ys zs).merged).merged
merge_block_assoc xs ys zs s t u =
    rw
      (
        merged-merge_block (merge_block xs ys).merged zs,
        merged-merge_block xs (merge_block ys zs).merged,
        merged-merge_block xs ys,
        merged-merge_block ys zs,
      )
      (merge_assoc xs ys zs s t u)

-- On sorted lists that have the same entry at each dot that they share, the merge loop leaves the
-- same whichever list is the existing one.
pub merge_block_comm :
    (xs ys : List CrdtEntry)
    → IsSorted xs
    → IsSorted ys
    → Agree xs ys
    → (merge_block xs ys).merged ≡ (merge_block ys xs).merged
merge_block_comm xs ys s t agree =
    rw (merged-merge_block xs ys, merged-merge_block ys xs) (merge_comm xs ys s t agree)

-- A sorted list merged with itself stays as it is.
merge_block_idem : (xs : List CrdtEntry) → IsSorted xs → (merge_block xs xs).merged ≡ xs
merge_block_idem xs s = rw merged-merge_block (merge_idem xs s)
