-- ===== src/Trie/Pairs.antt =====
-- The pairs that `ForEach` visits, after `Set`.
use sovereign.Prelude.{
  ℕ, zero, suc, ◌+◌, ◌-◌, ◌≡◌, List, [], ◌∷◌, ◌++◌, Option, none, some, Bool, true, false, ◌==◌,
  set, arith, Bool-cases, inl, inr, ltb,
}
use sovereign.Bytes.{All}
use sovereign.Entry.{CrdtEntry}
use sovereign.EntryMap.{Pair}
use sovereign.Trie.Defs.{
  Leaf, Node, leaf, inner, Nodes, nil, cons, hamt_max_depth, segment, has_key, new_leaf, put_leaf,
  drop_leaf, leaf_node, has_bit, rank, insert_at, replace_at, remove_at, any_bit, with_child,
  add_child, expand_leaf, update_leaf_entry, set_collision, leaf_pairs, node_pairs, nodes_pairs,
  node_set, nth_set,
}
use sovereign.Trie.Bits.{Walk}

-- The pairs below a pointer.
abbrev pub AllBelow : (Pair → Type 0) → Option Node → Type 0
AllBelow P none = Unit
AllBelow P (some t) = All P (node_pairs t)

module _ (P : Pair → Type 0) where
  pub All-append : (xs ys : List Pair) → All P xs → All P ys → All P (xs ++ ys)
  All-append [] ys h g = g
  All-append (x ∷ xs) ys h g = (h.0, All-append xs ys h.1 g)

  pub All-left : (xs ys : List Pair) → All P (xs ++ ys) → All P xs
  All-left [] ys h = tt
  All-left (x ∷ xs) ys h = (h.0, All-left xs ys h.1)

  pub All-right : (xs ys : List Pair) → All P (xs ++ ys) → All P ys
  All-right [] ys h = h
  All-right (x ∷ xs) ys h = All-right xs ys h.1

  put_leaf-All :
      (k : List ℕ) (x : Leaf) (ls : List Leaf)
      → P (x.entity_id, x.entries)
      → All P (leaf_pairs ls)
      → All P (leaf_pairs (put_leaf k x ls))
  unfolding put_leaf
  put_leaf-All k x [] p a = tt
  put_leaf-All k x (l ∷ ls) p a = ground (arith, put_leaf-All k x ls)

  drop_leaf-All :
      (k : List ℕ) (ls : List Leaf) → All P (leaf_pairs ls) → All P (leaf_pairs (drop_leaf k ls))
  unfolding drop_leaf
  drop_leaf-All k [] a = tt
  drop_leaf-All k (l ∷ ls) a = ground (arith, drop_leaf-All k ls)

  leaf_node-All : (ls : List Leaf) → All P (leaf_pairs ls) → AllBelow P (leaf_node ls)
  unfolding node_pairs
  leaf_node-All [] a = tt
  leaf_node-All (l ∷ ls) a = a

  pub update_leaf_entry-All :
      (k : List ℕ) (h : ℕ) (es : List CrdtEntry) (ls : List Leaf)
      → P (k, es)
      → All P (leaf_pairs ls)
      → AllBelow P (update_leaf_entry k h es ls)
  unfolding update_leaf_entry
  update_leaf_entry-All k h [] ls p a = leaf_node-All (drop_leaf k ls) (drop_leaf-All k ls a)
  update_leaf_entry-All k h (e ∷ es) ls p a =
      leaf_node-All (put_leaf k (new_leaf k h (e ∷ es)) ls)
        (put_leaf-All k (new_leaf k h (e ∷ es)) ls p a)

  pub append-All :
      (ls : List Leaf) (x : Leaf)
      → All P (leaf_pairs ls)
      → P (x.entity_id, x.entries)
      → All P (leaf_pairs (ls ++ (x ∷ [])))
  append-All [] x a p = (p, tt)
  append-All (l ∷ ls) x a p = (a.0, append-All ls x a.1 p)

  pub set_collision-All :
      (levels depth : ℕ) (l : Leaf) (ls : List Leaf) (x : Leaf)
      → All P (leaf_pairs (l ∷ ls))
      → P (x.entity_id, x.entries)
      → All P (node_pairs (set_collision levels depth l ls x))
  unfolding set_collision node_pairs
  set_collision-All zero depth l ls x a p = append-All (l ∷ ls) x a p
  set_collision-All (suc levels) depth l ls x a p =
      elim (Bool-cases (segment l.hash depth == segment x.hash depth)) [
        | inl e ↦ rw e (All-append _ [] (set_collision-All levels (depth + 1) l ls x a p) tt)
        | inr e ↦ elim (Bool-cases (ltb (segment l.hash depth) (segment x.hash depth))) [
          | inl b ↦ rw (e, b) (All-append (leaf_pairs (l ∷ ls)) _ a (p, tt))
          | inr b ↦ rw (e, b) (p, All-append (leaf_pairs (l ∷ ls)) [] a tt)
        ]
      ]

  insert_at-All :
      (n : ℕ) (x : Node) (cs : Nodes)
      → All P (node_pairs x)
      → All P (nodes_pairs cs)
      → All P (nodes_pairs (insert_at n x cs))
  unfolding nodes_pairs
  insert_at-All zero x cs p a = All-append (node_pairs x) (nodes_pairs cs) p a
  insert_at-All (suc n) x nil p a = All-append (node_pairs x) [] p tt
  insert_at-All (suc n) x (cons c cs) p a =
      All-append (node_pairs c) _ (All-left (node_pairs c) _ a)
        (insert_at-All n x cs p (All-right (node_pairs c) _ a))

  replace_at-All :
      (n : ℕ) (x : Node) (cs : Nodes)
      → All P (node_pairs x)
      → All P (nodes_pairs cs)
      → All P (nodes_pairs (replace_at n x cs))
  unfolding nodes_pairs
  replace_at-All n x nil p a = tt
  replace_at-All zero x (cons c cs) p a =
      All-append (node_pairs x) _ p (All-right (node_pairs c) _ a)
  replace_at-All (suc n) x (cons c cs) p a =
      All-append (node_pairs c) _ (All-left (node_pairs c) _ a)
        (replace_at-All n x cs p (All-right (node_pairs c) _ a))

  remove_at-All :
      (n : ℕ) (cs : Nodes) → All P (nodes_pairs cs) → All P (nodes_pairs (remove_at n cs))
  unfolding nodes_pairs
  remove_at-All n nil a = tt
  remove_at-All zero (cons c cs) a = All-right (node_pairs c) _ a
  remove_at-All (suc n) (cons c cs) a =
      All-append (node_pairs c) _ (All-left (node_pairs c) _ a)
        (remove_at-All n cs (All-right (node_pairs c) _ a))

  expand_leaf-All :
      (k : List ℕ) (h : ℕ) (es : List CrdtEntry) (depth : ℕ) (l : Leaf) (ls : List Leaf)
      → P (k, es)
      → All P (leaf_pairs (l ∷ ls))
      → All P (node_pairs (expand_leaf k h es depth l ls))
  unfolding expand_leaf
  expand_leaf-All k h [] depth l ls p a = unfold node_pairs in a
  expand_leaf-All k h (e ∷ es) depth l ls p a =
      set_collision-All (hamt_max_depth - depth) depth l ls (new_leaf k h (e ∷ es)) a p

  with_child-All :
      (bits : List Bool) (cs : Nodes) (i : ℕ) (c : Option Node)
      → AllBelow P c
      → All P (nodes_pairs cs)
      → AllBelow P (with_child bits cs i c)
  unfolding with_child node_pairs
  with_child-All bits cs i (some c) p a = replace_at-All (rank bits i) c cs p a
  with_child-All bits cs i none p a = elim (Bool-cases (any_bit (set bits i false))) [
    | inl e ↦ rw e (remove_at-All (rank bits i) cs a)
    | inr e ↦ rw e tt
  ]

  add_child-All :
      (k : List ℕ) (h : ℕ) (es : List CrdtEntry) (i : ℕ) (bits : List Bool) (cs : Nodes)
      → P (k, es)
      → All P (nodes_pairs cs)
      → All P (node_pairs (add_child k h es i bits cs))
  unfolding add_child node_pairs
  add_child-All k h [] i bits cs p a = a
  add_child-All k h (e ∷ es) i bits cs p a =
      insert_at-All (rank bits i) (leaf (new_leaf k h (e ∷ es)) []) cs (p, tt) a

  -- A property of all pairs below a node, and of the new pair, holds below the new node.
  mutual
    unfolding node_set node_pairs

    pub node_set-All :
        (k : List ℕ) (h : ℕ) (es : List CrdtEntry) (depth : ℕ) (t : Node)
        → P (k, es)
        → All P (node_pairs t)
        → AllBelow P (node_set k h es depth t)
    node_set-All k h es depth (leaf l ls) p a = elim (Bool-cases (has_key k (l ∷ ls))) [
      | inl e ↦ rw e (update_leaf_entry-All k h es (l ∷ ls) p a)
      | inr e ↦ rw e (expand_leaf-All k h es depth l ls p a)
    ]
    node_set-All k h es depth (inner bits cs) p a =
        let i = segment h depth in
        elim (Bool-cases (has_bit bits i)) [
          | inl e ↦ rw e (
              with_child-All bits cs i (nth_set k h es (depth + 1) (rank bits i) cs)
                (nth_set-All k h es (depth + 1) (rank bits i) cs p a) a)
          | inr e ↦ rw e (add_child-All k h es i bits cs p a)
        ]

    pub nth_set-All :
        (k : List ℕ) (h : ℕ) (es : List CrdtEntry) (depth n : ℕ) (cs : Nodes)
        → P (k, es)
        → All P (nodes_pairs cs)
        → AllBelow P (nth_set k h es depth n cs)
    nth_set-All k h es depth n nil p a = tt
    nth_set-All k h es depth zero (cons c cs) p a =
        node_set-All k h es depth c p (All-left (node_pairs c) _ a)
    nth_set-All k h es depth (suc n) (cons c cs) p a =
        nth_set-All k h es depth n cs p (All-right (node_pairs c) _ a)

-- The pairs of one child.
abbrev pub nth_pairs : ℕ → Nodes → List Pair
nth_pairs n nil = []
nth_pairs zero (cons c cs) = node_pairs c
nth_pairs (suc n) (cons c cs) = nth_pairs n cs

pub nth_set-child :
    (P : Pair → Type 0) (k : List ℕ) (h : ℕ) (es : List CrdtEntry) (depth n : ℕ) (cs : Nodes)
    → P (k, es)
    → All P (nth_pairs n cs)
    → AllBelow P (nth_set k h es depth n cs)
unfolding nth_set
nth_set-child P k h es depth n nil p a = tt
nth_set-child P k h es depth zero (cons c cs) p a = node_set-All P k h es depth c p a
nth_set-child P k h es depth (suc n) (cons c cs) p a = nth_set-child P k h es depth n cs p a

pub Walk-child :
    (Q : ℕ → Pair → Type 0) (bits : List Bool) (i : ℕ) (cs : Nodes)
    → Walk (λ n c. All (Q n) (node_pairs c)) bits cs
    → has_bit bits i ≡ true
    → All (Q i) (nth_pairs (rank bits i) cs)
Walk-child Q [] i cs w h = cc
Walk-child Q (true ∷ bits) i nil w h = absurd w
Walk-child Q (true ∷ bits) zero (cons c cs) w h = w.0
Walk-child Q (true ∷ bits) (suc i) (cons c cs) w h = Walk-child (λ n. Q (suc n)) bits i cs w.1 h
Walk-child Q (false ∷ bits) zero cs w h = cc
Walk-child Q (false ∷ bits) (suc i) cs w h = Walk-child (λ n. Q (suc n)) bits i cs w h
