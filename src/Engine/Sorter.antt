-- ===== src/Engine/Sorter.antt =====
-- `slices.SortFunc` of the standard library on the delta's entries, as `Join` (pkg/sync/crdt.go)
-- calls it with `cmpIncomingEntries`: a parameter, which does not say in which order it leaves two
-- entries that compare as equal.
use sovereign.Prelude.{List, [], ◌∷◌, Ordering, ◌≢◌, refl, sym, ◌∙◌, inl, inr}
use sovereign.Prelude.Members.{Mem}
use sovereign.Bytes.{All}
use mathlib.Core.Path.{subst}
use mathlib.Core.List.{Permᴰ}
use sovereign.Entry.{IncomingEntry, cmp_incoming_entries}

-- Each entry is at most the next one.
abbrev pub Ascends : IncomingEntry → List IncomingEntry → Type 0
Ascends x [] = Unit
Ascends x (y ∷ ys) = (cmp_incoming_entries x y ≢ Ordering.gt) × Ascends y ys

abbrev pub AllAscend : List IncomingEntry → Type 0
AllAscend [] = Unit
AllAscend (x ∷ xs) = Ascends x xs

-- What the library documents of the function: the result is the same entries, in ascending order.
pub record Sorter : Type 0 where
  pub sort : List IncomingEntry → List IncomingEntry
  pub ascending : (xs : List IncomingEntry) → AllAscend (sort xs)
  pub perm : (xs : List IncomingEntry) → Permᴰ (sort xs) xs

pub Mem-Perm : {xs ys : List IncomingEntry} (x : IncomingEntry) → Permᴰ xs ys → Mem x xs → Mem x ys
Mem-Perm x Permᴰ.nil m = m
Mem-Perm x (Permᴰ.cons e p) (inl h) = inl (h ∙ e)
Mem-Perm x (Permᴰ.cons e p) (inr m) = inr (Mem-Perm x p m)
Mem-Perm x (Permᴰ.swap e f) (inl h) = inr (inl (h ∙ e))
Mem-Perm x (Permᴰ.swap e f) (inr (inl h)) = inl (h ∙ f)
Mem-Perm x (Permᴰ.swap e f) (inr (inr m)) = inr (inr m)
Mem-Perm x (Permᴰ.trans p q) m = Mem-Perm x q (Mem-Perm x p m)

All-Mem :
    (P : IncomingEntry → Type 0) (xs : List IncomingEntry)
    → ((x : IncomingEntry) → Mem x xs → P x)
    → All P xs
All-Mem P [] h = tt
All-Mem P (x ∷ xs) h = (h x (inl refl), All-Mem P xs λ y m. h y (inr m))

Mem-All :
    (P : IncomingEntry → Type 0) (xs : List IncomingEntry) (x : IncomingEntry)
    → All P xs
    → Mem x xs
    → P x
Mem-All P [] x a m = elim m [ ]
Mem-All P (y ∷ xs) x a (inl e) = subst P (sym e) a.0
Mem-All P (y ∷ xs) x a (inr m) = Mem-All P xs x a.1 m

pub All-Perm :
    (P : IncomingEntry → Type 0) (xs ys : List IncomingEntry) → Permᴰ ys xs → All P xs → All P ys
All-Perm P xs ys p a = All-Mem P ys λ x m. Mem-All P xs x a (Mem-Perm x p m)
