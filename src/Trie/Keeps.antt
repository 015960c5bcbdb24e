-- ===== src/Trie/Keeps.antt =====
-- `Set` keeps the trie well formed.
use sovereign.Prelude.{
  ℕ, zero, suc, ◌+◌, ◌≤◌, ◌≡◌, refl, ◌∙◌, sym, List, [], ◌∷◌, ◌++◌, Option, none, some, true, false,
  ◌==◌, ==_iff, length-set, length-replicate, set, arith, Bool-cases, inl, inr,
}
use sovereign.Bytes.{All}
use sovereign.Entry.{CrdtEntry}
use sovereign.EntryMap.{Pair, same_key, key_eq, same_key_comm}
use sovereign.Trie.Defs.{
  Leaf, Node, leaf, hamt_width, hamt_max_depth, segment, has_key, new_leaf, put_leaf, drop_leaf,
  leaf_node, update_leaf_entry, set_collision, no_bits, node_pairs,
}
use sovereign.Trie.Valid.{
  segment-lt, Distinct, Single, LeadsTo, IsHashed, IsWellFormed, AllWellFormed,
}
use sovereign.Trie.Children.{one-Walk, two-Walk, two_children}
use sovereign.Trie.Pairs.{set_collision-All}

Single-deep : (d : ℕ) (ls : List Leaf) → hamt_max_depth ≤ d → Single d ls
Single-deep d [] h = tt
Single-deep d (l ∷ ls) h = h

Single-put_leaf :
    (d : ℕ) (k : List ℕ) (x : Leaf) (ls : List Leaf) → Single d ls → Single d (put_leaf k x ls)
unfolding put_leaf
Single-put_leaf d k x [] s = tt
Single-put_leaf d k x (l ∷ ls) s = Single-deep d (put_leaf k x (l ∷ ls)) s

Single-drop_leaf : (d : ℕ) (k : List ℕ) (ls : List Leaf) → Single d ls → Single d (drop_leaf k ls)
unfolding drop_leaf
Single-drop_leaf d k [] s = tt
Single-drop_leaf d k (l ∷ ls) s = Single-deep d (drop_leaf k (l ∷ ls)) s

-- The leaves of one node.
abbrev SingleNode : ℕ → List Leaf → Type 0
SingleNode d [] = Unit
SingleNode d (l ∷ ls) = Single d ls

SingleNode-put_leaf :
    (d : ℕ) (k : List ℕ) (x : Leaf) (ls : List Leaf)
    → SingleNode d ls
    → SingleNode d (put_leaf k x ls)
unfolding put_leaf
SingleNode-put_leaf d k x [] s = tt
SingleNode-put_leaf d k x (l ∷ ls) s = ground (arith, Single-put_leaf d k x ls)

Single-tail : (d : ℕ) (l : Leaf) (ls : List Leaf) → Single d (l ∷ ls) → SingleNode d (l ∷ ls)
Single-tail d l [] s = tt
Single-tail d l (l' ∷ ls) s = s

SingleNode-drop_leaf :
    (d : ℕ) (k : List ℕ) (ls : List Leaf) → SingleNode d ls → SingleNode d (drop_leaf k ls)
unfolding drop_leaf
SingleNode-drop_leaf d k [] s = tt
SingleNode-drop_leaf d k (l ∷ []) s = ground arith
SingleNode-drop_leaf d k (l ∷ l' ∷ ls) s =
    ground (arith, Single-tail d l' ls, Single-drop_leaf d k (l' ∷ ls))

has_key-put_leaf :
    (k a : List ℕ) (x : Leaf) (ls : List Leaf)
    → x.entity_id ≡ k
    → has_key a (put_leaf k x ls) ≡ has_key a ls
unfolding put_leaf
has_key-put_leaf k a x [] e = refl
has_key-put_leaf k a x (l ∷ ls) e =
    ground (arith, has_key-put_leaf k a x ls e, key_eq k l.entity_id)

has_key-drop_leaf :
    (k a : List ℕ) (ls : List Leaf) → has_key a ls ≡ false → has_key a (drop_leaf k ls) ≡ false
unfolding drop_leaf
has_key-drop_leaf k a [] h = refl
has_key-drop_leaf k a (l ∷ ls) h = ground (arith, has_key-drop_leaf k a ls)

has_key-append :
    (a : List ℕ) (x : Leaf) (ls : List Leaf)
    → has_key a ls ≡ false
    → same_key a x.entity_id ≡ false
    → has_key a (ls ++ (x ∷ [])) ≡ false
has_key-append a x [] h g = ground arith
has_key-append a x (l ∷ ls) h g = ground (arith, has_key-append a x ls)

Distinct-put_leaf :
    (k : List ℕ) (x : Leaf) (ls : List Leaf)
    → x.entity_id ≡ k
    → Distinct ls
    → Distinct (put_leaf k x ls)
unfolding put_leaf
Distinct-put_leaf k x [] e d = tt
Distinct-put_leaf k x (l ∷ ls) e d =
    ground (
      arith,
      Distinct-put_leaf k x ls e,
      has_key-put_leaf k l.entity_id x ls e,
      key_eq k l.entity_id,
    )

Distinct-drop_leaf : (k : List ℕ) (ls : List Leaf) → Distinct ls → Distinct (drop_leaf k ls)
unfolding drop_leaf
Distinct-drop_leaf k [] d = tt
Distinct-drop_leaf k (l ∷ ls) d =
    ground (arith, Distinct-drop_leaf k ls, has_key-drop_leaf k l.entity_id ls)

Distinct-append :
    (x : Leaf) (ls : List Leaf)
    → has_key x.entity_id ls ≡ false
    → Distinct ls
    → Distinct (ls ++ (x ∷ []))
Distinct-append x [] h d = (refl, tt)
Distinct-append x (l ∷ ls) h d = ground (
  arith,
  Distinct-append x ls,
  has_key-append l.entity_id x ls,
  same_key_comm x.entity_id l.entity_id,
)

module _ (hash : List ℕ → ℕ) where
  put_leaf-IsHashed :
      (k : List ℕ) (x : Leaf) (ls : List Leaf)
      → IsHashed hash x
      → All (IsHashed hash) ls
      → All (IsHashed hash) (put_leaf k x ls)
  unfolding put_leaf
  put_leaf-IsHashed k x [] p a = tt
  put_leaf-IsHashed k x (l ∷ ls) p a = ground (arith, put_leaf-IsHashed k x ls)

  drop_leaf-IsHashed :
      (k : List ℕ) (ls : List Leaf) → All (IsHashed hash) ls → All (IsHashed hash) (drop_leaf k ls)
  unfolding drop_leaf
  drop_leaf-IsHashed k [] a = tt
  drop_leaf-IsHashed k (l ∷ ls) a = ground (arith, drop_leaf-IsHashed k ls)

  append-IsHashed :
      (ls : List Leaf) (x : Leaf)
      → All (IsHashed hash) ls
      → IsHashed hash x
      → All (IsHashed hash) (ls ++ (x ∷ []))
  append-IsHashed [] x a p = (p, tt)
  append-IsHashed (l ∷ ls) x a p = (a.0, append-IsHashed ls x a.1 p)

  -- Below a pointer.
  abbrev pub PointerWellFormed : ℕ → Option Node → Type 0
  PointerWellFormed depth none = Unit
  PointerWellFormed depth (some t) = IsWellFormed hash depth t

  abbrev AreLeaves : ℕ → List Leaf → Type 0
  AreLeaves depth ls = All (IsHashed hash) ls × Distinct ls × SingleNode depth ls

  leaf_node-IsWellFormed :
      (depth : ℕ) (ls : List Leaf) → AreLeaves depth ls → PointerWellFormed depth (leaf_node ls)
  unfolding IsWellFormed
  leaf_node-IsWellFormed depth [] a = tt
  leaf_node-IsWellFormed depth (l ∷ ls) a = a

  pub update_leaf_entry-IsWellFormed :
      (k : List ℕ) (es : List CrdtEntry) (depth : ℕ) (ls : List Leaf)
      → AreLeaves depth ls
      → PointerWellFormed depth (update_leaf_entry k (hash k) es ls)
  unfolding update_leaf_entry
  update_leaf_entry-IsWellFormed k [] depth ls (a, d, s) =
      leaf_node-IsWellFormed depth (drop_leaf k ls)
        (drop_leaf-IsHashed k ls a, Distinct-drop_leaf k ls d, SingleNode-drop_leaf depth k ls s)
  update_leaf_entry-IsWellFormed k (e ∷ es) depth ls (a, d, s) =
      let x = new_leaf k (hash k) (e ∷ es) in
      leaf_node-IsWellFormed depth (put_leaf k x ls) (
        put_leaf-IsHashed k x ls refl a,
        Distinct-put_leaf k x ls refl d,
        SingleNode-put_leaf depth k x ls s,
      )

  two-AllWellFormed :
      (depth i i' : ℕ) (c d : Node)
      → IsWellFormed hash depth c
      → IsWellFormed hash depth d
      → AllWellFormed hash depth (two_children i i' c d)
  unfolding AllWellFormed
  two-AllWellFormed depth i i' c d p q = ground arith

  abbrev At : ℕ → ℕ → Pair → Type 0
  At depth i p = segment (hash p.0) depth ≡ i

  pub set_collision-IsWellFormed :
      (levels depth : ℕ) (l : Leaf) (ls : List Leaf) (x : Leaf)
      → depth + levels ≡ hamt_max_depth
      → IsWellFormed hash depth (leaf l ls)
      → IsHashed hash x
      → has_key x.entity_id (l ∷ ls) ≡ false
      → IsWellFormed hash depth (set_collision levels depth l ls x)
  unfolding set_collision IsWellFormed
  set_collision-IsWellFormed zero depth l ls x e (a, d, s) hx f = (
    append-IsHashed (l ∷ ls) x a hx,
    Distinct-append x (l ∷ ls) f d,
    Single-deep depth (ls ++ (x ∷ [])) (omega arith),
  )
  set_collision-IsWellFormed (suc levels) depth l (l' ∷ ls) x e (a, d, s) hx f =
      absurd (omega arith)
  set_collision-IsWellFormed (suc levels) depth l [] x e (a, d, s) hx f =
      let below = set_collision levels (depth + 1) l [] x in
      let deeper =
        set_collision-IsWellFormed levels (depth + 1) l [] x (omega arith) (a, d, tt) hx f in
      let i = segment l.hash depth in
      let i' = segment x.hash depth in
      let at_l : At depth i (l.entity_id, l.entries) = cc (a.0) in
      let at_x : At depth i' (x.entity_id, x.entries) = cc hx in
      elim (Bool-cases (i == i')) [
        | inl eq ↦ rw eq (
          omega arith,
          length-set no_bits i true ∙ length-replicate hamt_width false,
          one-Walk (LeadsTo hash depth) i below (segment-lt l.hash depth) (
              set_collision-All (At depth i) levels (depth + 1) l [] x (at_l, tt)
                (at_x ∙ sym ((==_iff i i').0 eq))),
          (deeper, tt),
        )
        | inr ne ↦ rw ne (
          omega arith,
          length-set (set no_bits i true) i' true
              ∙ length-set no_bits i true
              ∙ length-replicate hamt_width false,
          two-Walk (LeadsTo hash depth) i i' (leaf l []) (leaf x []) (segment-lt l.hash depth)
              (segment-lt x.hash depth) ne (unfold node_pairs in (at_l, tt))
              (unfold node_pairs in (at_x, tt)),
          two-AllWellFormed (depth + 1) i i' (leaf l []) (leaf x []) (a, d, tt)
              ((hx, tt), (refl, tt), tt),
        )
      ]
