-- ===== src/Tests/TrieTests.antt =====
-- The trie at concrete keys, two of which have the same hash.
use sovereign.Prelude.{ℕ, ◌≡◌, List, [], ◌∷◌, some, true, set, if◌then◌else◌}
use sovereign.Bytes.{All}
use sovereign.EntryMap.{Pair, same_key, entries_of}
use sovereign.Trie.Defs.{
  Node, inner, leaf, cons, nil, new_trie, new_leaf, no_bits, segment, node_set, add_child, trie_get,
  trie_set, node_pairs,
}
use sovereign.Trie.Valid.{IsWellFormed, new_trie-IsWellFormed}
use sovereign.Trie.GetSet.{trie_get-set}
use sovereign.Trie.Invariant.{trie_set-IsWellFormed}
use sovereign.Trie.ForEach.{trie_for_each-get}
use sovereign.Trie.Delete.{delete_loses-trie_set}
use sovereign.Tests.Models.{test_hash, entry_at}

-- A trie with one key.
abbrev one : Node
one = inner (set no_bits 1 true) (cons (leaf (new_leaf (1 ∷ []) 1 (entry_at 1 1 ∷ [])) []) nil)

one-IsWellFormed : IsWellFormed test_hash 0 one
unfolding trie_set node_set add_child segment
one-IsWellFormed =
    trie_set-IsWellFormed test_hash new_trie (1 ∷ []) (entry_at 1 1 ∷ [])
      (new_trie-IsWellFormed test_hash)

trie_get-set_example :
    trie_get test_hash (trie_set test_hash (some one) (2 ∷ []) (entry_at 2 1 ∷ [])) (1 ∷ []) ≡ (
      if same_key (2 ∷ []) (1 ∷ [])
      then entry_at 2 1 ∷ []
      else trie_get test_hash (some one) (1 ∷ []))
trie_get-set_example =
    trie_get-set test_hash (2 ∷ []) (1 ∷ []) (entry_at 2 1 ∷ []) one one-IsWellFormed

trie_for_each-get_example :
    ((k : List ℕ) → trie_get test_hash (some one) k ≡ entries_of k (node_pairs one))
    × All (λ (p : Pair). trie_get test_hash (some one) p.0 ≡ p.1) (node_pairs one)
trie_for_each-get_example = trie_for_each-get test_hash one one-IsWellFormed

delete_loses-trie_set_example :
    let deleted =
      trie_set test_hash
        (trie_set test_hash (some new_trie) (1 ∷ []) (entry_at 1 1 ∷ []))
        (1 ∷ [])
        [] in
    trie_get test_hash (trie_set test_hash deleted (2 ∷ []) (entry_at 2 1 ∷ [])) (2 ∷ []) ≡ []
delete_loses-trie_set_example =
    delete_loses-trie_set test_hash (1 ∷ []) (entry_at 1 1) [] (2 ∷ []) (2 ∷ []) (entry_at 2 1 ∷ [])
