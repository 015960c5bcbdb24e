-- ===== src/Trie/ForEach.antt =====
-- `ForEach` visits just what `Get` answers.
use sovereign.Prelude.{
  some, ℕ, zero, suc, ◌+◌, ◌<◌, ◌≡◌, refl, ◌∙◌, sym, List, [], ◌∷◌, Bool, true, false, arith,
}
use sovereign.Bytes.{All}
use sovereign.EntryMap.{Pair, same_key, key_eq, same_key_refl, same_key_comm, entries_of}
use sovereign.Trie.Defs.{
  Leaf, Node, leaf, inner, Nodes, nil, cons, segment, hamt_max_depth, has_key, find_leaf, has_bit,
  rank, leaf_pairs, node_pairs, node_get, nth_get, trie_get,
}
use sovereign.Trie.Bits.{Walk}
use sovereign.Trie.Valid.{Distinct, LeadsTo, IsWellFormed, AllWellFormed}
use sovereign.Trie.Children.{inner-get}
use sovereign.Trie.Pairs.{nth_pairs, Walk-child}
use sovereign.Trie.Visits.{find_leaf-entries_of, one_child, All-children}

module _ (hash : List ℕ → ℕ) where
  abbrev At : ℕ → ℕ → Pair → Type 0
  At depth i p = segment (hash p.0) depth ≡ i

  leads :
      (k : List ℕ) (depth n : ℕ) (p : Pair)
      → At depth n p
      → same_key k p.0 ≡ true
      → n ≡ segment (hash k) depth
  leads k depth n p e h = ground (arith, key_eq k p.0)

  inner_entries :
      (k : List ℕ) (depth : ℕ) (bits : List Bool) (cs : Nodes)
      → depth < hamt_max_depth
      → Walk (LeadsTo hash depth) bits cs
      → nth_get k (hash k) (depth + 1) (rank bits (segment (hash k) depth)) cs
        ≡ entries_of k (nth_pairs (rank bits (segment (hash k) depth)) cs)
      → node_get k (hash k) depth (inner bits cs) ≡ entries_of k (node_pairs (inner bits cs))
  unfolding node_pairs
  inner_entries k depth bits cs lt w e =
      inner-get k (hash k) depth bits cs lt
      ∙ rw e (sym (one_child k (At depth) bits (segment (hash k) depth) cs w (leads k depth)))

  leaf_entries :
      (k : List ℕ) (depth : ℕ) (l : Leaf) (ls : List Leaf)
      → node_get k (hash k) depth (leaf l ls) ≡ entries_of k (node_pairs (leaf l ls))
  unfolding node_pairs node_get
  leaf_entries k depth l ls = find_leaf-entries_of k (l ∷ ls)

  nth_nil : (k : List ℕ) (depth n : ℕ) → nth_get k (hash k) depth n nil ≡ []
  unfolding nth_get
  nth_nil k depth n = refl

  nth_first :
      (k : List ℕ) (depth : ℕ) (c : Node) (cs : Nodes)
      → nth_get k (hash k) depth 0 (cons c cs) ≡ node_get k (hash k) depth c
  unfolding nth_get
  nth_first k depth c cs = refl

  nth_next :
      (k : List ℕ) (depth n : ℕ) (c : Node) (cs : Nodes)
      → nth_get k (hash k) depth (suc n) (cons c cs) ≡ nth_get k (hash k) depth n cs
  unfolding nth_get
  nth_next k depth n c cs = refl

  mutual
    unfolding IsWellFormed

    pub node_get-entries_of :
        (k : List ℕ) (depth : ℕ) (t : Node)
        → IsWellFormed hash depth t
        → node_get k (hash k) depth t ≡ entries_of k (node_pairs t)
    node_get-entries_of k depth (leaf l ls) w = leaf_entries k depth l ls
    node_get-entries_of k depth (inner bits cs) (lt, len, w, a) =
        inner_entries k depth bits cs lt w
          (nth_get-entries_of k (depth + 1) (rank bits (segment (hash k) depth)) cs a)

    nth_get-entries_of :
        (k : List ℕ) (depth n : ℕ) (cs : Nodes)
        → AllWellFormed hash depth cs
        → nth_get k (hash k) depth n cs ≡ entries_of k (nth_pairs n cs)
    nth_get-entries_of k depth n nil a = nth_nil k depth n
    nth_get-entries_of k depth zero (cons c cs) a =
        nth_first k depth c cs ∙ node_get-entries_of k depth c a.0
    nth_get-entries_of k depth (suc n) (cons c cs) a =
        nth_next k depth n c cs ∙ nth_get-entries_of k depth n cs a.1

  -- Each pair of some leaves is what is found at its key, in leaves with distinct keys.
  later_leaf :
      (l : Leaf) (ls : List Leaf) (p : Pair)
      → same_key p.0 l.entity_id ≡ false
      → find_leaf p.0 ls ≡ p.1
      → find_leaf p.0 (l ∷ ls) ≡ p.1
  unfolding find_leaf
  later_leaf l ls p h e = ground arith

  other_keys :
      (l : Leaf) (ls : List Leaf)
      → has_key l.entity_id ls ≡ false
      → All (λ (p : Pair). same_key p.0 l.entity_id ≡ false) (leaf_pairs ls)
  other_keys l [] h = tt
  other_keys l (m ∷ ls) h = ground (arith, other_keys l ls, same_key_comm l.entity_id m.entity_id)

  All-both :
      {P Q R : Pair → Type 0} (xs : List Pair)
      → ((p : Pair) → P p → Q p → R p)
      → All P xs
      → All Q xs
      → All R xs
  All-both [] f a b = tt
  All-both (p ∷ xs) f a b = (f p a.0 b.0, All-both xs f a.1 b.1)

  leaves_visited :
      (ls : List Leaf) → Distinct ls → All (λ (p : Pair). find_leaf p.0 ls ≡ p.1) (leaf_pairs ls)
  leaves_visited [] d = tt
  leaves_visited (l ∷ ls) d = (
    unfold find_leaf in rw (same_key_refl l.entity_id) refl,
    All-both (leaf_pairs ls) (later_leaf l ls) (other_keys l ls d.0) (leaves_visited ls d.1),
  )

  inner_visited :
      (depth : ℕ) (bits : List Bool) (cs : Nodes) (n : ℕ) (p : Pair)
      → depth < hamt_max_depth
      → has_bit bits n ≡ true
      → At depth n p
      → nth_get p.0 (hash p.0) (depth + 1) (rank bits n) cs ≡ p.1
      → node_get p.0 (hash p.0) depth (inner bits cs) ≡ p.1
  inner_visited depth bits cs n p lt h e g = inner-get p.0 (hash p.0) depth bits cs lt ∙ rw (e, h) g

  leaf_visited :
      (depth : ℕ) (l : Leaf) (ls : List Leaf)
      → Distinct (l ∷ ls)
      → All (λ (p : Pair). node_get p.0 (hash p.0) depth (leaf l ls) ≡ p.1) (node_pairs (leaf l ls))
  unfolding node_pairs node_get
  leaf_visited depth l ls d = leaves_visited (l ∷ ls) d

  first_visited :
      (depth : ℕ) (c : Node) (cs : Nodes)
      → All (λ (p : Pair). node_get p.0 (hash p.0) depth c ≡ p.1) (node_pairs c)
      → All (λ (p : Pair). nth_get p.0 (hash p.0) depth 0 (cons c cs) ≡ p.1) (node_pairs c)
  unfolding nth_get
  first_visited depth c cs a = a

  next_visited :
      (depth n : ℕ) (c : Node) (cs : Nodes)
      → All (λ (p : Pair). nth_get p.0 (hash p.0) depth n cs ≡ p.1) (nth_pairs n cs)
      → All (λ (p : Pair). nth_get p.0 (hash p.0) depth (suc n) (cons c cs) ≡ p.1) (nth_pairs n cs)
  unfolding nth_get
  next_visited depth n c cs a = a

  children_visited :
      (depth : ℕ) (bits : List Bool) (cs : Nodes)
      → depth < hamt_max_depth
      → Walk (LeadsTo hash depth) bits cs
      → ((n : ℕ)
          → All
              (λ (p : Pair). nth_get p.0 (hash p.0) (depth + 1) (rank bits n) cs ≡ p.1)
              (nth_pairs (rank bits n) cs))
      → All
          (λ (p : Pair). node_get p.0 (hash p.0) depth (inner bits cs) ≡ p.1)
          (node_pairs (inner bits cs))
  unfolding node_pairs
  children_visited depth bits cs lt w f = All-children _ (LeadsTo hash depth) bits cs w (λ n h.
      All-both (nth_pairs (rank bits n) cs) (λ p. inner_visited depth bits cs n p lt h)
        (Walk-child (At depth) bits n cs w h) (f n))

  mutual
    unfolding IsWellFormed

    pub node_visited :
        (depth : ℕ) (t : Node)
        → IsWellFormed hash depth t
        → All (λ (p : Pair). node_get p.0 (hash p.0) depth t ≡ p.1) (node_pairs t)
    node_visited depth (leaf l ls) w = leaf_visited depth l ls w.1
    node_visited depth (inner bits cs) (lt, len, w, a) =
        children_visited depth bits cs lt w (λ n. nth_visited (depth + 1) (rank bits n) cs a)

    nth_visited :
        (depth n : ℕ) (cs : Nodes)
        → AllWellFormed hash depth cs
        → All (λ (p : Pair). nth_get p.0 (hash p.0) depth n cs ≡ p.1) (nth_pairs n cs)
    nth_visited depth n nil a = tt
    nth_visited depth zero (cons c cs) a = first_visited depth c cs (node_visited depth c a.0)
    nth_visited depth (suc n) (cons c cs) a = next_visited depth n c cs (nth_visited depth n cs a.1)

  -- On a trie that is well formed, `Get` answers each key with the entries of the first pair of that
  -- key that `ForEach` visits, nil where there is none, and every pair visited is what `Get` answers.
  pub trie_for_each-get :
      (t : Node)
      → IsWellFormed hash 0 t
      → ((k : List ℕ) → trie_get hash (some t) k ≡ entries_of k (node_pairs t))
        × All (λ (p : Pair). trie_get hash (some t) p.0 ≡ p.1) (node_pairs t)
  unfolding trie_get
  trie_for_each-get t w = (λ k. node_get-entries_of k 0 t w, node_visited 0 t w)
