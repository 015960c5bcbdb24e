-- ===== src/Prelude/Members.antt =====
-- Membership in a list, and the Boolean filter and search.
use mathlib.Core.Path.{◌≡◌, refl}
use mathlib.Core.Logic.{◌⊎◌, inl, inr}
use mathlib.Core.Bool.{Bool, true, false, ◌||◌}
use mathlib.Core.List.{List, [], ◌∷◌, ◌++◌}
use native.Mathlib.Omega.{arith}

module _ {A : Type 0} where
  abbrev pub Mem : A → List A → Type 0
  Mem x [] = ⊥
  Mem x (y ∷ ys) = (x ≡ y) ⊎ Mem x ys

  abbrev pub any : (A → Bool) → List A → Bool
  any p [] = false
  any p (x ∷ xs) = p x || any p xs

  abbrev pub filter : (A → Bool) → List A → List A
  filter p [] = []
  filter p (x ∷ xs) = let rest = filter p xs in elim (p x) [ true ↦ x ∷ rest | false ↦ rest ]

  pub any-append : (p : A → Bool) (xs ys : List A) → any p (xs ++ ys) ≡ (any p xs || any p ys)
  any-append p [] ys = refl
  any-append p (x ∷ xs) ys = ground (arith, any-append p xs ys)

  pub filter-append :
      (p : A → Bool) (xs ys : List A) → filter p (xs ++ ys) ≡ filter p xs ++ filter p ys
  filter-append p [] ys = refl
  filter-append p (x ∷ xs) ys = ground (arith, filter-append p xs ys)

  pub filter_keep :
      (p : A → Bool) (x : A) (xs : List A) → p x ≡ true → filter p (x ∷ xs) ≡ x ∷ filter p xs
  filter_keep p x xs h = rw (h, filter)

  pub filter_drop :
      (p : A → Bool) (x : A) (xs : List A) → p x ≡ false → filter p (x ∷ xs) ≡ filter p xs
  filter_drop p x xs h = rw (h, filter)

  pub Mem-append : (x : A) (xs ys : List A) → Mem x xs ⊎ Mem x ys → Mem x (xs ++ ys)
  Mem-append x [] ys (inl m) = elim m [ ]
  Mem-append x [] ys (inr m) = m
  Mem-append x (y ∷ xs) ys (inl (inl e)) = inl e
  Mem-append x (y ∷ xs) ys (inl (inr m)) = inr (Mem-append x xs ys (inl m))
  Mem-append x (y ∷ xs) ys (inr m) = inr (Mem-append x xs ys (inr m))

  pub Mem-split : (x : A) (xs ys : List A) → Mem x (xs ++ ys) → Mem x xs ⊎ Mem x ys
  Mem-split x [] ys m = inr m
  Mem-split x (z ∷ xs) ys (inl e) = inl (inl e)
  Mem-split x (z ∷ xs) ys (inr m) = elim (Mem-split x xs ys m) [
    | inl h ↦ inl (inr h)
    | inr h ↦ inr h
  ]
