-- ===== src/Trie/GetSet.antt =====
-- What `Get` answers after `Set` and `Delete`.
use sovereign.Prelude.{
  ℕ, zero, suc, ◌+◌, ◌-◌, ◌≤◌, ◌<◌, ◌≡◌, refl, ◌∙◌, sym, List, [], ◌∷◌, Option, none, some, Bool,
  true, false, ◌==◌, if◌then◌else◌, length, set, arith, Bool-cases, inl, inr,
}
use sovereign.Entry.{CrdtEntry}
use sovereign.EntryMap.{same_key, key_eq, same_key_comm}
use sovereign.Trie.Defs.{
  Leaf, Node, leaf, inner, Nodes, nil, cons, hamt_max_depth, segment, has_key, find_leaf, new_leaf,
  has_bit, rank, insert_at, replace_at, remove_at, any_bit, with_child, add_child, expand_leaf,
  node_get, nth_get, node_set, nth_set, trie_get, trie_set,
}
use sovereign.Trie.Bits.{
  Walk, InRange, rank-InRange, child_get, child_get-insert, child_get-replace, child_get-remove,
  child_get-no_bit,
}
use sovereign.Trie.Valid.{segment-lt, LeadsTo, IsWellFormed, AllWellFormed}
use sovereign.Trie.Leaves.{pointer_get, find_leaf-has_key, update_leaf_entry-get}
use sovereign.Trie.Children.{inner-get}
use sovereign.Trie.Collision.{set_collision-get}

trie_get_pointer :
    (hash : List ℕ → ℕ) (j : List ℕ) (o : Option Node)
    → trie_get hash o j ≡ pointer_get j (hash j) 0 o
unfolding trie_get
trie_get_pointer hash j none = refl
trie_get_pointer hash j (some t) = refl

module _ (hash : List ℕ → ℕ) (k j : List ℕ) (es : List CrdtEntry) where
  expand_leaf-get :
      (fs : List CrdtEntry) (depth : ℕ) (l : Leaf) (ls : List Leaf)
      → depth ≤ hamt_max_depth
      → IsWellFormed hash depth (leaf l ls)
      → has_key k (l ∷ ls) ≡ false
      → node_get j (hash j) depth (expand_leaf k (hash k) fs depth l ls)
        ≡ (if same_key k j then fs else find_leaf j (l ∷ ls))
  unfolding expand_leaf IsWellFormed
  expand_leaf-get [] depth l ls d w f =
      unfold node_get in ground (arith, find_leaf-has_key j (l ∷ ls), key_eq k j)
  expand_leaf-get (e ∷ fs) depth l ls d (a, _, s) f =
      set_collision-get hash (hamt_max_depth - depth) depth l ls (new_leaf k (hash k) (e ∷ fs)) j
        (omega arith) a s refl f

  abbrev after : ℕ → List Bool → Nodes → List CrdtEntry
  after depth bits cs =
      if same_key k j then es else child_get j (hash j) (depth + 1) bits cs (segment (hash j) depth)

  -- A child that answers rightly, where it was replaced.
  finish :
      (depth : ℕ) (bits : List Bool) (cs : Nodes) (r : List CrdtEntry)
      → has_bit bits (segment (hash k) depth) ≡ true
      → r ≡ (
          if same_key k j
          then es
          else nth_get j (hash j) (depth + 1) (rank bits (segment (hash k) depth)) cs)
      → (if segment (hash k) depth == segment (hash j) depth
          then r
          else child_get j (hash j) (depth + 1) bits cs (segment (hash j) depth))
        ≡ after depth bits cs
  finish depth bits cs r h e = ground (arith, key_eq k j)

  with_child-get :
      (depth : ℕ) (bits : List Bool) (cs : Nodes) (c : Option Node)
      → depth < hamt_max_depth
      → Walk (LeadsTo hash depth) bits cs
      → has_bit bits (segment (hash k) depth) ≡ true
      → pointer_get j (hash j) (depth + 1) c ≡ (
          if same_key k j
          then es
          else nth_get j (hash j) (depth + 1) (rank bits (segment (hash k) depth)) cs)
      → pointer_get j (hash j) depth (with_child bits cs (segment (hash k) depth) c)
        ≡ after depth bits cs
  unfolding with_child
  with_child-get depth bits cs (some c) lt w h e =
      inner-get j (hash j) depth bits (replace_at (rank bits (segment (hash k) depth)) c cs) lt
      ∙ child_get-replace j (hash j) (depth + 1) (LeadsTo hash depth) bits (segment (hash k) depth)
          (segment (hash j) depth) c cs w h
      ∙ finish depth bits cs (node_get j (hash j) (depth + 1) c) h e
  with_child-get depth bits cs none lt w h e =
      let i = segment (hash k) depth in
      let s = segment (hash j) depth in
      let cs' = remove_at (rank bits i) cs in
      let there =
        child_get-remove j (hash j) (depth + 1) (LeadsTo hash depth) bits i s cs w h
        ∙ finish depth bits cs [] h e in
      elim (Bool-cases (any_bit (set bits i false))) [
        | inl b ↦ rw b (inner-get j (hash j) depth (set bits i false) cs' lt ∙ there)
        | inr b ↦
            rw b (sym (child_get-no_bit j (hash j) (depth + 1) (set bits i false) s cs' b) ∙ there)
      ]

  add_child-get :
      (fs : List CrdtEntry) (depth : ℕ) (bits : List Bool) (cs : Nodes)
      → depth < hamt_max_depth
      → segment (hash k) depth < length bits
      → Walk (LeadsTo hash depth) bits cs
      → has_bit bits (segment (hash k) depth) ≡ false
      → node_get j (hash j) depth (add_child k (hash k) fs (segment (hash k) depth) bits cs) ≡ (
          if same_key k j
          then fs
          else child_get j (hash j) (depth + 1) bits cs (segment (hash j) depth))
  unfolding add_child
  add_child-get [] depth bits cs lt small w h =
      inner-get j (hash j) depth bits cs lt ∙ ground (arith, key_eq k j)
  add_child-get (e ∷ fs) depth bits cs lt small w h =
      let i = segment (hash k) depth in
      let x = leaf (new_leaf k (hash k) (e ∷ fs)) [] in
      inner-get j (hash j) depth (set bits i true) (insert_at (rank bits i) x cs) lt
      ∙ child_get-insert j (hash j) (depth + 1) (LeadsTo hash depth) bits i (segment (hash j) depth)
          x cs w small h
      ∙ (unfold node_get in
          unfold find_leaf in ground (arith, key_eq k j, key_eq j k, same_key_comm k j))

  leaf-get :
      (depth : ℕ) (l : Leaf) (ls : List Leaf)
      → node_get j (hash j) depth (leaf l ls) ≡ find_leaf j (l ∷ ls)
  unfolding node_get
  leaf-get depth l ls = refl

  nth_get_first :
      (depth : ℕ) (c : Node) (cs : Nodes)
      → nth_get j (hash j) depth 0 (cons c cs) ≡ node_get j (hash j) depth c
  unfolding nth_get
  nth_get_first depth c cs = refl

  nth_get_next :
      (depth n : ℕ) (c : Node) (cs : Nodes)
      → nth_get j (hash j) depth (suc n) (cons c cs) ≡ nth_get j (hash j) depth n cs
  unfolding nth_get
  nth_get_next depth n c cs = refl

  mutual
    unfolding node_set IsWellFormed

    node_get-set :
        (depth : ℕ) (t : Node)
        → depth ≤ hamt_max_depth
        → IsWellFormed hash depth t
        → pointer_get j (hash j) depth (node_set k (hash k) es depth t)
          ≡ (if same_key k j then es else node_get j (hash j) depth t)
    node_get-set depth (leaf l ls) d w = elim (Bool-cases (has_key k (l ∷ ls))) [
      | inl e ↦
          rw (e, leaf-get depth l ls)
            (update_leaf_entry-get k j (hash k) (hash j) depth es (l ∷ ls) w.1 e)
      | inr e ↦ rw (e, leaf-get depth l ls) (expand_leaf-get es depth l ls d w e)
    ]
    node_get-set depth (inner bits cs) d (lt, len, w, a) =
        let i = segment (hash k) depth in
        let old = inner-get j (hash j) depth bits cs lt in
        elim (Bool-cases (has_bit bits i)) [
          | inl e ↦
              rw (e, old)
                (with_child-get depth bits cs (nth_set k (hash k) es (depth + 1) (rank bits i) cs)
                  lt w e
                  (nth_get-set (depth + 1) (rank bits i) cs (omega arith) a
                    (rank-InRange (LeadsTo hash depth) bits i cs e w)))
          | inr e ↦
              rw (e, old)
                (add_child-get es depth bits cs lt (rw len (segment-lt (hash k) depth)) w e)
        ]

    nth_get-set :
        (depth n : ℕ) (cs : Nodes)
        → depth ≤ hamt_max_depth
        → AllWellFormed hash depth cs
        → InRange n cs
        → pointer_get j (hash j) depth (nth_set k (hash k) es depth n cs)
          ≡ (if same_key k j then es else nth_get j (hash j) depth n cs)
    nth_get-set depth n nil d a r = absurd r
    nth_get-set depth zero (cons c cs) d a r =
        rw (nth_get_first depth c cs) (node_get-set depth c d a.0)
    nth_get-set depth (suc n) (cons c cs) d a r =
        rw (nth_get_next depth n c cs) (nth_get-set depth n cs d a.1 r)

  -- On a trie that is well formed and has a root, `Set` makes `Get` answer with the new entries for
  -- their key and as before for every other key; `Delete` is the case of no entries.
  pub trie_get-set :
      (t : Node)
      → IsWellFormed hash 0 t
      → trie_get hash (trie_set hash (some t) k es) j
        ≡ (if same_key k j then es else trie_get hash (some t) j)
  unfolding trie_set trie_get
  trie_get-set t w =
      trie_get_pointer hash j (node_set k (hash k) es 0 t) ∙ node_get-set 0 t (omega arith) w
