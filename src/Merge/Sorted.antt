-- ===== src/Merge/Sorted.antt =====
-- Lists in strictly increasing order of their dots: the invariant of every entry list.
use sovereign.Prelude.{◌≡◌, refl, ap, none, List, [], ◌∷◌, Ordering, arith}
use sovereign.Entry.{CausalDot, CrdtEntry, dot, compare_dots}
use sovereign.Entry.Order.{
  compare_dots_refl, compare_dots-flip, compare_dots-eq, compare_dots_trans,
}
use sovereign.Merge.Find.{find, or_else, merge}

-- Every dot of the list is above `d`.
abbrev pub Below : CausalDot → List CrdtEntry → Type 0
Below d [] = Unit
Below d (x ∷ xs) = (compare_dots d (dot x) ≡ Ordering.lt) × Below d xs

abbrev pub IsSorted : List CrdtEntry → Type 0
IsSorted [] = Unit
IsSorted (x ∷ xs) = Below (dot x) xs × IsSorted xs

pub Below-trans :
    (c d : CausalDot) (xs : List CrdtEntry)
    → compare_dots c d ≡ Ordering.lt
    → Below d xs
    → Below c xs
Below-trans c d [] h b = tt
Below-trans c d (x ∷ xs) h b = (compare_dots_trans c d (dot x) h b.0, Below-trans c d xs h b.1)

pub find-Below : (d : CausalDot) (xs : List CrdtEntry) → Below d xs → find d xs ≡ none
unfolding find
find-Below d [] b = refl
find-Below d (x ∷ xs) b = ground (arith, find-Below d xs)

pub merge-Below :
    (d : CausalDot) (xs ys : List CrdtEntry) → Below d xs → Below d ys → Below d (merge xs ys)
unfolding merge
merge-Below d [] ys b c = c
merge-Below d (x ∷ xs) [] b c = b
merge-Below d (x ∷ xs) (y ∷ ys) b c =
    ground (arith, merge-Below d xs (y ∷ ys), merge-Below d (x ∷ xs) ys, merge-Below d xs ys)

-- The merge of two sorted lists is sorted.
pub merge-IsSorted : (xs ys : List CrdtEntry) → IsSorted xs → IsSorted ys → IsSorted (merge xs ys)
unfolding merge
merge-IsSorted [] ys s t = t
merge-IsSorted (x ∷ xs) [] s t = s
merge-IsSorted (x ∷ xs) (y ∷ ys) s t = ground (
  arith,
  compare_dots-flip (dot x) (dot y),
  compare_dots-eq (dot x) (dot y),
  Below-trans (dot x) (dot y) ys,
  Below-trans (dot y) (dot x) xs,
  merge-Below (dot x) xs (y ∷ ys),
  merge-Below (dot y) (x ∷ xs) ys,
  merge-Below (dot x) xs ys,
  merge-IsSorted xs (y ∷ ys),
  merge-IsSorted (x ∷ xs) ys,
  merge-IsSorted xs ys,
)

-- A dot below a sorted list is not in it.
pub find-lt :
    (d : CausalDot) (x : CrdtEntry) (xs : List CrdtEntry)
    → Below (dot x) xs
    → compare_dots d (dot x) ≡ Ordering.lt
    → find d xs ≡ none
find-lt d x xs b h = find-Below d xs (Below-trans d (dot x) xs h b)

-- The merged list answers with the existing entry of a dot, and else with the incoming one.
pub find-merge :
    (d : CausalDot) (xs ys : List CrdtEntry)
    → IsSorted xs
    → IsSorted ys
    → find d (merge xs ys) ≡ or_else (find d xs) (find d ys)
unfolding merge find
find-merge d [] ys s t = refl
find-merge d (x ∷ xs) [] s t = ground arith
find-merge d (x ∷ xs) (y ∷ ys) s t = ground (
  arith,
  compare_dots-flip (dot x) (dot y),
  compare_dots-eq (dot x) (dot y),
  compare_dots-eq d (dot x),
  compare_dots-eq d (dot y),
  find-lt d x xs,
  find-lt d y ys,
  find-merge d xs (y ∷ ys),
  find-merge d (x ∷ xs) ys,
  find-merge d xs ys,
)

-- In a sorted list the entry found at a dot of the tail is not the head.
find-tail :
    (d : CausalDot) (x y : CrdtEntry) (xs ys : List CrdtEntry)
    → IsSorted (x ∷ xs)
    → IsSorted (y ∷ ys)
    → dot x ≡ dot y
    → find d (x ∷ xs) ≡ find d (y ∷ ys)
    → find d xs ≡ find d ys
unfolding find
find-tail d x y xs ys s t e h =
    ground (
      arith,
      compare_dots-eq d (dot x),
      compare_dots-eq d (dot y),
      find-Below d xs,
      find-Below d ys,
    )

heads :
    (x y : CrdtEntry) (xs ys : List CrdtEntry)
    → IsSorted (x ∷ xs)
    → IsSorted (y ∷ ys)
    → find (dot x) (x ∷ xs) ≡ find (dot x) (y ∷ ys)
    → find (dot y) (x ∷ xs) ≡ find (dot y) (y ∷ ys)
    → x ≡ y
unfolding find
heads x y xs ys s t h k = ground (
  arith,
  compare_dots_refl (dot x),
  compare_dots_refl (dot y),
  compare_dots-flip (dot x) (dot y),
  find-lt (dot x) y ys,
  find-lt (dot y) x xs,
)

-- A sorted list is determined by what it answers at each dot.
pub sorted_ext :
    (xs ys : List CrdtEntry)
    → IsSorted xs
    → IsSorted ys
    → ((d : CausalDot) → find d xs ≡ find d ys)
    → xs ≡ ys
sorted_ext [] [] s t h = refl
sorted_ext [] (y ∷ ys) s t h = unfold find in ground (arith, h (dot y), compare_dots_refl (dot y))
sorted_ext (x ∷ xs) [] s t h = unfold find in ground (arith, h (dot x), compare_dots_refl (dot x))
sorted_ext (x ∷ xs) (y ∷ ys) s t h =
    let same : x ≡ y = heads x y xs ys s t (h (dot x)) (h (dot y)) in
    let rest : xs ≡ ys =
      sorted_ext xs ys s.1 t.1 (λ d. find-tail d x y xs ys s t (ap dot same) (h d)) in
    cc (same, rest)
