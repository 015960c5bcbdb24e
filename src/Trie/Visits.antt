-- ===== src/Trie/Visits.antt =====
-- The entries of a key among the pairs that `ForEach` visits.
use sovereign.Prelude.{
  ℕ, zero, suc, ◌≡◌, refl, ◌∙◌, List, [], ◌∷◌, ◌++◌, Bool, true, false, if◌then◌else◌, arith,
  Bool-cases, inl, inr,
}
use sovereign.Bytes.{All}
use sovereign.EntryMap.{Pair, same_key, entries_of}
use sovereign.Trie.Defs.{
  Leaf, Node, Nodes, nil, cons, find_leaf, has_bit, rank, leaf_pairs, node_pairs, nodes_pairs,
}
use sovereign.Trie.Bits.{Walk}
use sovereign.Trie.Pairs.{nth_pairs, All-append}

pub find_leaf-entries_of :
    (k : List ℕ) (ls : List Leaf) → find_leaf k ls ≡ entries_of k (leaf_pairs ls)
unfolding find_leaf
find_leaf-entries_of k [] = refl
find_leaf-entries_of k (l ∷ ls) = ground (arith, find_leaf-entries_of k ls)

entries_of-append_left :
    (k : List ℕ) (xs ys : List Pair)
    → All (λ (p : Pair). same_key k p.0 ≡ false) xs
    → entries_of k (xs ++ ys) ≡ entries_of k ys
entries_of-append_left k [] ys a = refl
entries_of-append_left k ((j, es) ∷ xs) ys a = ground (arith, entries_of-append_left k xs ys)

entries_of-append_right :
    (k : List ℕ) (xs ys : List Pair)
    → entries_of k ys ≡ []
    → entries_of k (xs ++ ys) ≡ entries_of k xs
entries_of-append_right k [] ys e = e
entries_of-append_right k ((j, es) ∷ xs) ys e = ground (arith, entries_of-append_right k xs ys e)

pub All-imp :
    {P Q : Pair → Type 0} (xs : List Pair) → ((p : Pair) → P p → Q p) → All P xs → All Q xs
All-imp [] f a = tt
All-imp (p ∷ xs) f a = (f p a.0, All-imp xs f a.1)

module _ (k : List ℕ) where
  not_here :
      (Q : Pair → Type 0) (p : Pair)
      → (Q p → same_key k p.0 ≡ true → ⊥)
      → Q p
      → same_key k p.0 ≡ false
  not_here Q p f q = elim (Bool-cases (same_key k p.0)) [ inl e ↦ absurd (f q e) | inr e ↦ e ]

  -- Children none of which can hold the key, and children of which one can.
  no_child :
      (Q : ℕ → Pair → Type 0) (bits : List Bool) (cs : Nodes)
      → Walk (λ n c. All (Q n) (node_pairs c)) bits cs
      → ((n : ℕ) (p : Pair) → Q n p → same_key k p.0 ≡ true → ⊥)
      → entries_of k (nodes_pairs cs) ≡ []
  unfolding nodes_pairs
  no_child Q [] nil w f = refl
  no_child Q [] (cons c cs) w f = absurd w
  no_child Q (false ∷ bits) cs w f = no_child (λ n. Q (suc n)) bits cs w (λ n. f (suc n))
  no_child Q (true ∷ bits) nil w f = refl
  no_child Q (true ∷ bits) (cons c cs) w f =
      entries_of-append_left k (node_pairs c) (nodes_pairs cs)
        (All-imp (node_pairs c) (λ p. not_here (Q 0) p (f 0 p)) w.0)
      ∙ no_child (λ n. Q (suc n)) bits cs w.1 (λ n. f (suc n))

  pub one_child :
      (Q : ℕ → Pair → Type 0) (bits : List Bool) (s : ℕ) (cs : Nodes)
      → Walk (λ n c. All (Q n) (node_pairs c)) bits cs
      → ((n : ℕ) (p : Pair) → Q n p → same_key k p.0 ≡ true → n ≡ s)
      → entries_of k (nodes_pairs cs)
        ≡ (if has_bit bits s then entries_of k (nth_pairs (rank bits s) cs) else [])
  unfolding nodes_pairs
  one_child Q [] s nil w f = refl
  one_child Q [] s (cons c cs) w f = absurd w
  one_child Q (false ∷ bits) zero cs w f =
      no_child (λ n. Q (suc n)) bits cs w (λ n p q e. absurd (omega (arith, f (suc n) p q e)))
  one_child Q (false ∷ bits) (suc s) cs w f =
      one_child (λ n. Q (suc n)) bits s cs w (λ n p q e. omega (arith, f (suc n) p q e))
  one_child Q (true ∷ bits) s nil w f = absurd w
  one_child Q (true ∷ bits) zero (cons c cs) w f =
      entries_of-append_right k (node_pairs c) (nodes_pairs cs)
        (no_child (λ n. Q (suc n)) bits cs w.1 (λ n p q e. absurd (omega (arith, f (suc n) p q e))))
  one_child Q (true ∷ bits) (suc s) (cons c cs) w f =
      entries_of-append_left k (node_pairs c) (nodes_pairs cs) (
        All-imp (node_pairs c) (λ p. not_here (Q 0) p (λ q e. absurd (omega (arith, f 0 p q e))))
          w.0)
      ∙ one_child (λ n. Q (suc n)) bits s cs w.1 (λ n p q e. omega (arith, f (suc n) p q e))

-- A property of the pairs of each child holds of all pairs.
pub All-children :
    (R : Pair → Type 0) (P : ℕ → Node → Type 0) (bits : List Bool) (cs : Nodes)
    → Walk P bits cs
    → ((n : ℕ) → has_bit bits n ≡ true → All R (nth_pairs (rank bits n) cs))
    → All R (nodes_pairs cs)
unfolding nodes_pairs
All-children R P bits nil w f = tt
All-children R P [] (cons c cs) w f = absurd w
All-children R P (false ∷ bits) (cons c cs) w f =
    All-children R (λ n. P (suc n)) bits (cons c cs) w (λ n. f (suc n))
All-children R P (true ∷ bits) (cons c cs) w f =
    All-append R (node_pairs c) (nodes_pairs cs) (f 0 refl)
      (All-children R (λ n. P (suc n)) bits cs w.1 (λ n. f (suc n)))
