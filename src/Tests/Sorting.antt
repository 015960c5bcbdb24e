-- ===== src/Tests/Sorting.antt =====
-- An insertion sort of delta entries, which shows that what is asked of the standard library's sort
-- can hold.
use sovereign.Prelude.{List, [], ◌∷◌, Ordering, ◌≡◌, ◌≢◌, refl, inl, inr, Ordering-cases, arith}
use mathlib.Core.List.{Permᴰ}
use mathlib.Core.List.Permᴰ
use sovereign.Entry.{IncomingEntry, cmp_incoming_entries, dot}
use sovereign.Entry.Order.{flip, compare_bytes-flip, compare_dots-flip}
use sovereign.Engine.Sorter.{Sorter, Ascends, AllAscend}

unfoldable pub insert_entry : IncomingEntry → List IncomingEntry → List IncomingEntry
insert_entry x [] = x ∷ []
insert_entry x (y ∷ ys) =
    let rest = insert_entry x ys in
    elim (cmp_incoming_entries x y) [ Ordering.gt ↦ y ∷ rest | _ ↦ x ∷ y ∷ ys ]

unfoldable pub sort_entries : List IncomingEntry → List IncomingEntry
sort_entries [] = []
sort_entries (x ∷ xs) = insert_entry x (sort_entries xs)

cmp-flip : (x y : IncomingEntry) → cmp_incoming_entries y x ≡ flip (cmp_incoming_entries x y)
unfolding cmp_incoming_entries
cmp-flip x y = ground (
  arith,
  compare_bytes-flip x.entity_id y.entity_id,
  compare_dots-flip (dot x.entry) (dot y.entry),
)

Ascends-insert :
    (z x : IncomingEntry) (ys : List IncomingEntry)
    → cmp_incoming_entries z x ≢ Ordering.gt
    → Ascends z ys
    → Ascends z (insert_entry x ys)
unfolding insert_entry
Ascends-insert z x [] h a = (h, tt)
Ascends-insert z x (y ∷ ys) h a = ground (arith, cmp-flip x y, Ascends-insert y x ys)

AllAscend-insert :
    (x : IncomingEntry) (ys : List IncomingEntry) → AllAscend ys → AllAscend (insert_entry x ys)
unfolding insert_entry
AllAscend-insert x [] a = tt
AllAscend-insert x (y ∷ ys) a = ground (arith, cmp-flip x y, Ascends-insert y x ys)

pub AllAscend-sort : (xs : List IncomingEntry) → AllAscend (sort_entries xs)
unfolding sort_entries
AllAscend-sort [] = tt
AllAscend-sort (x ∷ xs) = AllAscend-insert x (sort_entries xs) (AllAscend-sort xs)

insert-Perm : (x : IncomingEntry) (ys : List IncomingEntry) → Permᴰ (insert_entry x ys) (x ∷ ys)
unfolding insert_entry
insert-Perm x [] = Permᴰ.refl (x ∷ [])
insert-Perm x (y ∷ ys) = elim (Ordering-cases (cmp_incoming_entries x y)) [
  | inl e ↦ rw (e, insert_entry) (Permᴰ.refl (x ∷ y ∷ ys))
  | inr (inl e) ↦ rw (e, insert_entry) (Permᴰ.refl (x ∷ y ∷ ys))
  | inr (inr e) ↦
      rw (e, insert_entry) (Permᴰ.trans (Permᴰ.cons refl (insert-Perm x ys)) (Permᴰ.swap refl refl))
]

pub sort-Perm : (xs : List IncomingEntry) → Permᴰ (sort_entries xs) xs
unfolding sort_entries
sort-Perm [] = Permᴰ.nil
sort-Perm (x ∷ xs) = Permᴰ.trans (insert-Perm x (sort_entries xs)) (Permᴰ.cons refl (sort-Perm xs))

abbrev pub insertion_sorter : Sorter
insertion_sorter = record { sort = sort_entries; ascending = AllAscend-sort; perm = sort-Perm }
