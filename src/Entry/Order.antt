-- ===== src/Entry/Order.antt =====
-- The orders on byte strings, on dots and on incoming entries are total orders.
use sovereign.Prelude.{ℕ, List, [], ◌∷◌, Ordering, ◌≡◌, refl, arith}
use sovereign.Entry.{CausalDot, compare_bytes, compare_dots}

-- The answer with the arguments exchanged.
abbrev pub flip : Ordering → Ordering
flip Ordering.lt = Ordering.gt
flip Ordering.gt = Ordering.lt
flip Ordering.eq = Ordering.eq

pub compare_bytes-flip : (a b : List ℕ) → compare_bytes b a ≡ flip (compare_bytes a b)
unfolding compare_bytes
compare_bytes-flip [] [] = refl
compare_bytes-flip [] (b ∷ ys) = refl
compare_bytes-flip (a ∷ xs) [] = refl
compare_bytes-flip (a ∷ xs) (b ∷ ys) = ground (arith, compare_bytes-flip xs ys)

pub compare_bytes_refl : (a : List ℕ) → compare_bytes a a ≡ Ordering.eq
unfolding compare_bytes
compare_bytes_refl [] = refl
compare_bytes_refl (a ∷ xs) = ground (arith, compare_bytes_refl xs)

pub compare_bytes-eq : (a b : List ℕ) → compare_bytes a b ≡ Ordering.eq → a ≡ b
unfolding compare_bytes
compare_bytes-eq [] [] h = refl
compare_bytes-eq [] (b ∷ ys) h = cc
compare_bytes-eq (a ∷ xs) [] h = cc
compare_bytes-eq (a ∷ xs) (b ∷ ys) h = ground (arith, compare_bytes-eq xs ys)

pub compare_bytes_trans :
    (a b c : List ℕ)
    → compare_bytes a b ≡ Ordering.lt
    → compare_bytes b c ≡ Ordering.lt
    → compare_bytes a c ≡ Ordering.lt
unfolding compare_bytes
compare_bytes_trans [] b [] h k = ground (arith, compare_bytes-flip [] b)
compare_bytes_trans [] b (z ∷ zs) h k = refl
compare_bytes_trans (a ∷ xs) [] c h k = cc
compare_bytes_trans (a ∷ xs) (b ∷ ys) [] h k = cc
compare_bytes_trans (a ∷ xs) (b ∷ ys) (z ∷ zs) h k = ground (arith, compare_bytes_trans xs ys zs)

pub compare_dots-flip : (a b : CausalDot) → compare_dots b a ≡ flip (compare_dots a b)
unfolding compare_dots
compare_dots-flip a b = ground (arith, compare_bytes-flip a.node_id b.node_id)

pub compare_dots_refl : (a : CausalDot) → compare_dots a a ≡ Ordering.eq
unfolding compare_dots
compare_dots_refl a = ground (arith, compare_bytes_refl a.node_id)

pub compare_dots-eq : (a b : CausalDot) → compare_dots a b ≡ Ordering.eq → a ≡ b
unfolding compare_dots
compare_dots-eq a b h = ground (arith, compare_bytes-eq a.node_id b.node_id)

pub compare_dots_trans :
    (a b c : CausalDot)
    → compare_dots a b ≡ Ordering.lt
    → compare_dots b c ≡ Ordering.lt
    → compare_dots a c ≡ Ordering.lt
unfolding compare_dots
compare_dots_trans a b c h k = ground (
  arith,
  compare_bytes_trans a.node_id b.node_id c.node_id,
  compare_bytes-eq a.node_id b.node_id,
  compare_bytes-eq b.node_id c.node_id,
)
