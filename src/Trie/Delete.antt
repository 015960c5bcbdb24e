-- ===== src/Trie/Delete.antt =====
-- What is left after the last key is deleted.
use sovereign.Prelude.{
  ℕ, ◌+◌, ◌≡◌, ◌<◌, refl, ◌∙◌, ap, List, [], ◌∷◌, none, some, Bool, true, false, set,
  length-replicate, arith,
}
use sovereign.Entry.{CrdtEntry}
use sovereign.EntryMap.{same_key_refl}
use sovereign.Trie.Defs.{
  Node, leaf, inner, nil, cons, no_bits, hamt_width, segment, new_trie, new_leaf, has_bit, rank,
  node_set, add_child, with_child, update_leaf_entry, drop_leaf, trie_set, trie_get,
}
use sovereign.Trie.Bits.{has_bit-none, rank-none, rank-one, set-set_back, has_bit-set}
use sovereign.Trie.Valid.{segment-lt}

module _ (hash : List ℕ → ℕ) (k : List ℕ) (x : CrdtEntry) (xs : List CrdtEntry) where
  abbrev only : Node
  only =
      inner (set no_bits (segment (hash k) 0) true)
        (cons (leaf (new_leaf k (hash k) (x ∷ xs)) []) nil)

  set_first : trie_set hash (some new_trie) k (x ∷ xs) ≡ some only
  unfolding trie_set node_set add_child
  set_first =
      rw (has_bit-none hamt_width (segment (hash k) 0), rank-none hamt_width (segment (hash k) 0))
        refl

  nothing_left : (i : ℕ) (c : Node) → with_child (set no_bits i true) (cons c nil) i none ≡ none
  unfolding with_child
  nothing_left i c = rw (set-set_back hamt_width i) refl

  rank_first : (i : ℕ) → i < hamt_width → rank (set no_bits i true) i ≡ 0
  rank_first i h = ground (arith, rank-one hamt_width i i h)

  delete_leaf : (d : ℕ) → node_set k (hash k) [] d (leaf (new_leaf k (hash k) (x ∷ xs)) []) ≡ none
  unfolding node_set update_leaf_entry drop_leaf
  delete_leaf d = rw (same_key_refl k) refl

  -- The recursion into a child that is there.
  into_child :
      (bits : List Bool) (c : Node)
      → has_bit bits (segment (hash k) 0) ≡ true
      → rank bits (segment (hash k) 0) ≡ 0
      → node_set k (hash k) [] 0 (inner bits (cons c nil))
        ≡ with_child bits (cons c nil) (segment (hash k) 0) (node_set k (hash k) [] (0 + 1) c)
  unfolding node_set
  into_child bits c h r = rw (h, r) refl

  delete_only : trie_set hash (some only) k [] ≡ none
  unfolding trie_set
  delete_only =
      let i = segment (hash k) 0 in
      let c = leaf (new_leaf k (hash k) (x ∷ xs)) [] in
      let small = segment-lt (hash k) 0 in
      into_child (set no_bits i true) c
        (has_bit-set no_bits i (rw (length-replicate hamt_width false) small)) (rank_first i small)
      ∙ ap (with_child (set no_bits i true) (cons c nil) i) (delete_leaf (0 + 1))
      ∙ nothing_left i c

  -- Where `Set` puts the first key into a new trie and `Delete` removes it, every later `Set` is
  -- lost: no key has entries afterwards.
  pub delete_loses-trie_set :
      (j i : List ℕ) (es : List CrdtEntry)
      → let deleted = trie_set hash (trie_set hash (some new_trie) k (x ∷ xs)) k [] in
        trie_get hash (trie_set hash deleted j es) i ≡ []
  delete_loses-trie_set j i es =
      rw (set_first, delete_only) (unfold trie_set in unfold trie_get in refl)
