-- ===== src/Trie/Leaves.antt =====
-- The leaves of one node, and what they hold after `updateLeafEntry`.
use sovereign.Prelude.{
  ℕ, ◌≡◌, refl, ◌∙◌, List, [], ◌∷◌, ◌++◌, Option, none, some, true, false, if◌then◌else◌, arith,
}
use sovereign.Entry.{CrdtEntry}
use sovereign.EntryMap.{same_key, key_eq, same_key_refl, same_key_comm}
use sovereign.Trie.Defs.{
  Leaf, Node, has_key, find_leaf, put_leaf, drop_leaf, new_leaf, leaf_node, update_leaf_entry,
  node_get,
}
use sovereign.Trie.Valid.{Distinct}

-- The entries of a key below a pointer.
abbrev pub pointer_get : List ℕ → ℕ → ℕ → Option Node → List CrdtEntry
pointer_get key h depth none = []
pointer_get key h depth (some t) = node_get key h depth t

pub find_leaf-has_key : (j : List ℕ) (ls : List Leaf) → has_key j ls ≡ false → find_leaf j ls ≡ []
unfolding find_leaf
find_leaf-has_key j [] h = refl
find_leaf-has_key j (l ∷ ls) h = ground (arith, find_leaf-has_key j ls)

find_leaf-put_leaf :
    (k j : List ℕ) (x : Leaf) (ls : List Leaf)
    → x.entity_id ≡ k
    → has_key k ls ≡ true
    → find_leaf j (put_leaf k x ls) ≡ (if same_key k j then x.entries else find_leaf j ls)
unfolding find_leaf put_leaf
find_leaf-put_leaf k j x [] e h = cc
find_leaf-put_leaf k j x (l ∷ ls) e h = ground (
  arith,
  find_leaf-put_leaf k j x ls e,
  key_eq k l.entity_id,
  key_eq j l.entity_id,
  same_key_comm k j,
  same_key_refl k,
)

find_leaf-drop_leaf :
    (k j : List ℕ) (ls : List Leaf)
    → Distinct ls
    → has_key k ls ≡ true
    → find_leaf j (drop_leaf k ls) ≡ (if same_key k j then [] else find_leaf j ls)
unfolding find_leaf drop_leaf
find_leaf-drop_leaf k j [] d h = cc
find_leaf-drop_leaf k j (l ∷ ls) d h = ground (
  arith,
  find_leaf-drop_leaf k j ls,
  find_leaf-has_key k ls,
  key_eq k l.entity_id,
  key_eq j l.entity_id,
  key_eq k j,
  same_key_comm k j,
)

pub find_leaf-append :
    (j : List ℕ) (x : Leaf) (ls : List Leaf)
    → has_key x.entity_id ls ≡ false
    → find_leaf j (ls ++ (x ∷ [])) ≡ (if same_key x.entity_id j then x.entries else find_leaf j ls)
unfolding find_leaf
find_leaf-append j x [] h = ground (arith, same_key_comm x.entity_id j)
find_leaf-append j x (l ∷ ls) h =
    ground (arith, find_leaf-append j x ls, key_eq j l.entity_id, same_key_comm x.entity_id j)

leaf_node-get :
    (j : List ℕ) (h depth : ℕ) (ls : List Leaf)
    → pointer_get j h depth (leaf_node ls) ≡ find_leaf j ls
unfolding node_get
leaf_node-get j h depth [] = refl
leaf_node-get j h depth (l ∷ ls) = refl

-- Where the key has a leaf, `updateLeafEntry` writes its entries, or removes it for none.
pub update_leaf_entry-get :
    (k j : List ℕ) (hk hj depth : ℕ) (es : List CrdtEntry) (ls : List Leaf)
    → Distinct ls
    → has_key k ls ≡ true
    → pointer_get j hj depth (update_leaf_entry k hk es ls)
      ≡ (if same_key k j then es else find_leaf j ls)
unfolding update_leaf_entry
update_leaf_entry-get k j hk hj depth [] ls d h =
    leaf_node-get j hj depth (drop_leaf k ls) ∙ find_leaf-drop_leaf k j ls d h
update_leaf_entry-get k j hk hj depth (e ∷ es) ls d h =
    leaf_node-get j hj depth (put_leaf k (new_leaf k hk (e ∷ es)) ls)
    ∙ find_leaf-put_leaf k j (new_leaf k hk (e ∷ es)) ls refl h
