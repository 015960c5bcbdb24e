-- ===== src/Trie/Defs.antt =====
-- The nodes of the trie and its operations. A pointer into the arena is the node that it points to,
-- and the pointer 0 is `none`; a bitmap is the list of its 32 bits, the lowest first. Sharing and
-- reference counts are not in the model: where `set` hands back the node that it was given, the
-- tree is the same.
use sovereign.Prelude.{
  ℕ, zero, suc, ◌+◌, ◌-◌, ◌/◌, ◌%◌, ◌^◌, List, [], ◌∷◌, ◌++◌, Option, none, some, Bool, true, false,
  ◌==◌, ltb, leb, if◌then◌else◌, set, replicate,
}
use sovereign.Entry.{CrdtEntry}
use sovereign.EntryMap.{Pair, same_key}

-- `hamtLeaf`
pub record Leaf : Type 0 where
  pub hash : ℕ
  pub entity_id : List ℕ
  pub entries : List CrdtEntry

-- `HamtNode`: a node with entries, of which there is one at least, and a node with children only.
mutual
  pub data Node : Type 0 where
    leaf : Leaf → List Leaf → Node
    inner : List Bool → Nodes → Node

  pub data Nodes : Type 0 where
    nil : Nodes
    cons : Node → Nodes → Nodes

abbrev pub hamt_width : ℕ
hamt_width = 32

abbrev pub hamt_max_depth : ℕ
hamt_max_depth = 7

-- `(hash >> (depth * hamtBits)) & hamtMask`
unfoldable pub segment : ℕ → ℕ → ℕ
segment hash depth = hash / hamt_width ^ depth % hamt_width

-- The bit's test, and `popcount(bitmap & (bit - 1))`.
abbrev pub has_bit : List Bool → ℕ → Bool
has_bit [] i = false
has_bit (b ∷ bits) zero = b
has_bit (b ∷ bits) (suc i) = has_bit bits i

abbrev pub rank : List Bool → ℕ → ℕ
rank [] i = 0
rank (b ∷ bits) zero = 0
rank (b ∷ bits) (suc i) = let r = rank bits i in if b then suc r else r

-- The children array with one written in, replaced or left out.
abbrev pub insert_at : ℕ → Node → Nodes → Nodes
insert_at zero x cs = cons x cs
insert_at (suc n) x nil = cons x nil
insert_at (suc n) x (cons c cs) = cons c (insert_at n x cs)

abbrev pub replace_at : ℕ → Node → Nodes → Nodes
replace_at n x nil = nil
replace_at zero x (cons c cs) = cons x cs
replace_at (suc n) x (cons c cs) = cons c (replace_at n x cs)

abbrev pub remove_at : ℕ → Nodes → Nodes
remove_at n nil = nil
remove_at zero (cons c cs) = cs
remove_at (suc n) (cons c cs) = cons c (remove_at n cs)

-- The entries of the first leaf with the key; nil is the empty list.
unfoldable pub find_leaf : List ℕ → List Leaf → List CrdtEntry
find_leaf key [] = []
find_leaf key (l ∷ leaves) =
    let later = find_leaf key leaves in if same_key key l.entity_id then l.entries else later

abbrev pub new_leaf : List ℕ → ℕ → List CrdtEntry → Leaf
new_leaf key hash entries = record { hash = hash; entity_id = key; entries = entries }

abbrev pub has_key : List ℕ → List Leaf → Bool
has_key key [] = false
has_key key (l ∷ leaves) =
    let later = has_key key leaves in if same_key key l.entity_id then true else later

-- The first leaf with the key replaced, or left out.
unfoldable pub put_leaf : List ℕ → Leaf → List Leaf → List Leaf
put_leaf key x [] = []
put_leaf key x (l ∷ leaves) =
    let later = put_leaf key x leaves in if same_key key l.entity_id then x ∷ leaves else l ∷ later

unfoldable pub drop_leaf : List ℕ → List Leaf → List Leaf
drop_leaf key [] = []
drop_leaf key (l ∷ leaves) =
    let later = drop_leaf key leaves in if same_key key l.entity_id then leaves else l ∷ later

-- A new node with these entries; with none it is the pointer 0.
abbrev pub leaf_node : List Leaf → Option Node
leaf_node [] = none
leaf_node (l ∷ leaves) = some (leaf l leaves)

-- `updateLeafEntry`
unfoldable pub update_leaf_entry : List ℕ → ℕ → List CrdtEntry → List Leaf → Option Node
unfolding put_leaf drop_leaf
update_leaf_entry key hash [] leaves = leaf_node (drop_leaf key leaves)
update_leaf_entry key hash (e ∷ es) leaves =
    leaf_node (put_leaf key (new_leaf key hash (e ∷ es)) leaves)

abbrev pub no_bits : List Bool
no_bits = replicate hamt_width false

-- `setCollision` of the node with the leaves `l ∷ leaves`, with so many levels left below
-- `hamtMaxDepth`; at none `appendToCollision`.
unfoldable pub set_collision : ℕ → ℕ → Leaf → List Leaf → Leaf → Node
set_collision zero depth l leaves x = leaf l (leaves ++ (x ∷ []))
set_collision (suc levels) depth l leaves x =
    let below = set_collision levels (depth + 1) l leaves x in
    let i = segment l.hash depth in
    let j = segment x.hash depth in
    if i == j
    then inner (set no_bits i true) (cons below nil)
    else inner (set (set no_bits i true) j true) (
        if ltb i j
        then cons (leaf l leaves) (cons (leaf x []) nil)
        else cons (leaf x []) (cons (leaf l leaves) nil))

abbrev pub any_bit : List Bool → Bool
any_bit [] = false
any_bit (b ∷ bits) = if b then true else any_bit bits

-- The node with one child replaced, or removed with its bit; without any bit it is the pointer 0.
unfoldable pub with_child : List Bool → Nodes → ℕ → Option Node → Option Node
with_child bitmap children i none =
    let bits = set bitmap i false in
    if any_bit bits then some (inner bits (remove_at (rank bitmap i) children)) else none
with_child bitmap children i (some c) = some (inner bitmap (replace_at (rank bitmap i) c children))

-- A missing child: a new leaf, or nothing to delete.
unfoldable pub add_child : List ℕ → ℕ → List CrdtEntry → ℕ → List Bool → Nodes → Node
add_child key hash [] i bitmap children = inner bitmap children
add_child key hash (e ∷ es) i bitmap children =
    inner (set bitmap i true)
      (insert_at (rank bitmap i) (leaf (new_leaf key hash (e ∷ es)) []) children)

-- The expansion of a leaf node, or nothing to delete.
unfoldable pub expand_leaf : List ℕ → ℕ → List CrdtEntry → ℕ → Leaf → List Leaf → Node
unfolding set_collision
expand_leaf key hash [] depth l leaves = leaf l leaves
expand_leaf key hash (e ∷ es) depth l leaves =
    set_collision (hamt_max_depth - depth) depth l leaves (new_leaf key hash (e ∷ es))

-- `NodePtr.get` and `NodePtr.set`; a position past the children is not reached.
unfoldable mutual
  unfolding segment find_leaf

  pub node_get : List ℕ → ℕ → ℕ → Node → List CrdtEntry
  node_get key hash depth (leaf l leaves) = find_leaf key (l ∷ leaves)
  node_get key hash depth (inner bitmap children) =
      let found = nth_get key hash (depth + 1) (rank bitmap (segment hash depth)) children in
      if leb hamt_max_depth depth
      then []
      else if has_bit bitmap (segment hash depth)
      then found
      else []

  pub nth_get : List ℕ → ℕ → ℕ → ℕ → Nodes → List CrdtEntry
  nth_get key hash depth n nil = []
  nth_get key hash depth zero (cons c cs) = node_get key hash depth c
  nth_get key hash depth (suc n) (cons c cs) = nth_get key hash depth n cs

unfoldable mutual
  unfolding segment update_leaf_entry expand_leaf add_child with_child

  pub node_set : List ℕ → ℕ → List CrdtEntry → ℕ → Node → Option Node
  node_set key hash entries depth (leaf l leaves) =
      if has_key key (l ∷ leaves)
      then update_leaf_entry key hash entries (l ∷ leaves)
      else some (expand_leaf key hash entries depth l leaves)
  node_set key hash entries depth (inner bitmap children) =
      let i = segment hash depth in
      let child = nth_set key hash entries (depth + 1) (rank bitmap i) children in
      if has_bit bitmap i
      then with_child bitmap children i child
      else some (add_child key hash entries i bitmap children)

  pub nth_set : List ℕ → ℕ → List CrdtEntry → ℕ → ℕ → Nodes → Option Node
  nth_set key hash entries depth n nil = none
  nth_set key hash entries depth zero (cons c cs) = node_set key hash entries depth c
  nth_set key hash entries depth (suc n) (cons c cs) = nth_set key hash entries depth n cs

-- `forEach`, as the list of what it visits.
abbrev pub leaf_pairs : List Leaf → List Pair
leaf_pairs [] = []
leaf_pairs (l ∷ leaves) = (l.entity_id, l.entries) ∷ leaf_pairs leaves

unfoldable mutual
  pub node_pairs : Node → List Pair
  node_pairs (leaf l leaves) = leaf_pairs (l ∷ leaves)
  node_pairs (inner bitmap children) = nodes_pairs children

  pub nodes_pairs : Nodes → List Pair
  nodes_pairs nil = []
  nodes_pairs (cons c cs) = node_pairs c ++ nodes_pairs cs

-- The trie with its root, which the pointer 0 may be, and the hash of its seed.
module _ (hash : List ℕ → ℕ) where
  -- `HAMT.Get`
  unfoldable pub trie_get : Option Node → List ℕ → List CrdtEntry
  trie_get none key = []
  trie_get (some t) key = node_get key (hash key) 0 t

  -- The root of `HAMT.Set`; `HAMT.Delete` is the same with no entries.
  unfoldable pub trie_set : Option Node → List ℕ → List CrdtEntry → Option Node
  trie_set none key entries = none
  trie_set (some t) key entries = node_set key (hash key) entries 0 t

-- `NewHAMT` allocates a node with nothing in it.
abbrev pub new_trie : Node
new_trie = inner no_bits nil
