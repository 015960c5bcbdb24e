-- ===== src/Trie/Invariant.antt =====
-- `Set` and `Delete` keep the trie well formed.
use sovereign.Prelude.{
  ℕ, zero, suc, ◌+◌, ◌-◌, ◌≤◌, ◌≡◌, refl, ◌∙◌, List, [], ◌∷◌, Option, none, some, Bool, true, false,
  length-set, set, arith, Bool-cases, inl, inr,
}
use sovereign.Entry.{CrdtEntry}
use sovereign.EntryMap.{Pair}
use sovereign.Trie.Defs.{
  Leaf, Node, leaf, inner, Nodes, nil, cons, hamt_max_depth, segment, has_key, new_leaf, has_bit,
  rank, insert_at, replace_at, remove_at, any_bit, with_child, add_child, expand_leaf, node_pairs,
  node_set, nth_set, trie_set,
}
use sovereign.Trie.Bits.{Walk-insert, Walk-replace, Walk-remove}
use sovereign.Trie.Valid.{segment-lt, LeadsTo, IsWellFormed, AllWellFormed}
use sovereign.Trie.Pairs.{AllBelow, nth_set-child, Walk-child}
use sovereign.Trie.Keeps.{
  PointerWellFormed, update_leaf_entry-IsWellFormed, set_collision-IsWellFormed,
}

module _ (hash : List ℕ → ℕ) where
  insert_at-AllWellFormed :
      (depth n : ℕ) (x : Node) (cs : Nodes)
      → IsWellFormed hash depth x
      → AllWellFormed hash depth cs
      → AllWellFormed hash depth (insert_at n x cs)
  unfolding AllWellFormed
  insert_at-AllWellFormed depth zero x cs p a = (p, a)
  insert_at-AllWellFormed depth (suc n) x nil p a = (p, tt)
  insert_at-AllWellFormed depth (suc n) x (cons c cs) p a =
      (a.0, insert_at-AllWellFormed depth n x cs p a.1)

  replace_at-AllWellFormed :
      (depth n : ℕ) (x : Node) (cs : Nodes)
      → IsWellFormed hash depth x
      → AllWellFormed hash depth cs
      → AllWellFormed hash depth (replace_at n x cs)
  unfolding AllWellFormed
  replace_at-AllWellFormed depth n x nil p a = tt
  replace_at-AllWellFormed depth zero x (cons c cs) p a = (p, a.1)
  replace_at-AllWellFormed depth (suc n) x (cons c cs) p a =
      (a.0, replace_at-AllWellFormed depth n x cs p a.1)

  remove_at-AllWellFormed :
      (depth n : ℕ) (cs : Nodes)
      → AllWellFormed hash depth cs
      → AllWellFormed hash depth (remove_at n cs)
  unfolding AllWellFormed
  remove_at-AllWellFormed depth n nil a = tt
  remove_at-AllWellFormed depth zero (cons c cs) a = a.1
  remove_at-AllWellFormed depth (suc n) (cons c cs) a =
      (a.0, remove_at-AllWellFormed depth n cs a.1)

  expand_leaf-IsWellFormed :
      (k : List ℕ) (es : List CrdtEntry) (depth : ℕ) (l : Leaf) (ls : List Leaf)
      → depth ≤ hamt_max_depth
      → IsWellFormed hash depth (leaf l ls)
      → has_key k (l ∷ ls) ≡ false
      → IsWellFormed hash depth (expand_leaf k (hash k) es depth l ls)
  unfolding expand_leaf
  expand_leaf-IsWellFormed k [] depth l ls d w f = w
  expand_leaf-IsWellFormed k (e ∷ es) depth l ls d w f =
      set_collision-IsWellFormed hash (hamt_max_depth - depth) depth l ls
        (new_leaf k (hash k) (e ∷ es)) (omega arith) w refl f

  abbrev At : ℕ → ℕ → Pair → Type 0
  At depth i p = segment (hash p.0) depth ≡ i

  with_child-IsWellFormed :
      (depth : ℕ) (bits : List Bool) (cs : Nodes) (i : ℕ) (c : Option Node)
      → IsWellFormed hash depth (inner bits cs)
      → has_bit bits i ≡ true
      → PointerWellFormed hash (depth + 1) c
      → AllBelow (At depth i) c
      → PointerWellFormed hash depth (with_child bits cs i c)
  unfolding with_child IsWellFormed
  with_child-IsWellFormed depth bits cs i (some c) (lt, len, w, a) h p b = (
    lt,
    len,
    Walk-replace (LeadsTo hash depth) bits i c cs h b w,
    replace_at-AllWellFormed (depth + 1) (rank bits i) c cs p a,
  )
  with_child-IsWellFormed depth bits cs i none (lt, len, w, a) h p b =
      elim (Bool-cases (any_bit (set bits i false))) [
        | inl e ↦ rw e (
          lt,
          length-set bits i false ∙ len,
          Walk-remove (LeadsTo hash depth) bits i cs h w,
          remove_at-AllWellFormed (depth + 1) (rank bits i) cs a,
        )
        | inr e ↦ rw e tt
      ]

  add_child-IsWellFormed :
      (k : List ℕ) (es : List CrdtEntry) (depth : ℕ) (bits : List Bool) (cs : Nodes)
      → IsWellFormed hash depth (inner bits cs)
      → has_bit bits (segment (hash k) depth) ≡ false
      → IsWellFormed hash depth (add_child k (hash k) es (segment (hash k) depth) bits cs)
  unfolding add_child IsWellFormed
  add_child-IsWellFormed k [] depth bits cs w h = w
  add_child-IsWellFormed k (e ∷ es) depth bits cs (lt, len, w, a) h =
      let i = segment (hash k) depth in
      let x = leaf (new_leaf k (hash k) (e ∷ es)) [] in
      (
        lt,
        length-set bits i true ∙ len,
        Walk-insert (LeadsTo hash depth) bits i x cs (rw len (segment-lt (hash k) depth)) h
            (unfold node_pairs in (refl, tt)) w,
        insert_at-AllWellFormed (depth + 1) (rank bits i) x cs ((refl, tt), (refl, tt), tt) a,
      )

  mutual
    unfolding node_set IsWellFormed

    node_set-IsWellFormed :
        (k : List ℕ) (es : List CrdtEntry) (depth : ℕ) (t : Node)
        → depth ≤ hamt_max_depth
        → IsWellFormed hash depth t
        → PointerWellFormed hash depth (node_set k (hash k) es depth t)
    node_set-IsWellFormed k es depth (leaf l ls) d w = elim (Bool-cases (has_key k (l ∷ ls))) [
      | inl e ↦ rw e (update_leaf_entry-IsWellFormed hash k es depth (l ∷ ls) w)
      | inr e ↦ rw e (expand_leaf-IsWellFormed k es depth l ls d w e)
    ]
    node_set-IsWellFormed k es depth (inner bits cs) d w =
        let i = segment (hash k) depth in
        elim (Bool-cases (has_bit bits i)) [
          | inl e ↦ rw e (
              with_child-IsWellFormed depth bits cs i
                (nth_set k (hash k) es (depth + 1) (rank bits i) cs) w e
                (nth_set-IsWellFormed k es (depth + 1) (rank bits i) cs (omega arith) w.3)
                (nth_set-child (At depth i) k (hash k) es (depth + 1) (rank bits i) cs refl
                  (Walk-child (At depth) bits i cs w.2 e)))
          | inr e ↦ rw e (add_child-IsWellFormed k es depth bits cs w e)
        ]

    nth_set-IsWellFormed :
        (k : List ℕ) (es : List CrdtEntry) (depth n : ℕ) (cs : Nodes)
        → depth ≤ hamt_max_depth
        → AllWellFormed hash depth cs
        → PointerWellFormed hash depth (nth_set k (hash k) es depth n cs)
    nth_set-IsWellFormed k es depth n nil d a = tt
    nth_set-IsWellFormed k es depth zero (cons c cs) d a = node_set-IsWellFormed k es depth c d a.0
    nth_set-IsWellFormed k es depth (suc n) (cons c cs) d a =
        nth_set-IsWellFormed k es depth n cs d a.1

  -- What `Set` and `Delete` make of a well-formed trie is the pointer 0 or a well-formed trie.
  pub trie_set-IsWellFormed :
      (t : Node) (k : List ℕ) (es : List CrdtEntry)
      → IsWellFormed hash 0 t
      → PointerWellFormed hash 0 (trie_set hash (some t) k es)
  unfolding trie_set
  trie_set-IsWellFormed t k es w = node_set-IsWellFormed k es 0 t (omega arith) w
