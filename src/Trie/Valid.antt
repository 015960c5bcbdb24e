-- ===== src/Trie/Valid.antt =====
-- The invariant of the trie: leaves hold their key's hash, a node with several leaves stands at the
-- last level, and each child holds only keys whose hash leads to its position.
use sovereign.Prelude.{
  ℕ, ◌+◌, ◌≤◌, ◌<◌, ◌≡◌, List, [], ◌∷◌, false, length, length-replicate, arith, ◌^◌, ◌/◌,
}
use native.Mathlib.Nat.{mod-lt}
use sovereign.Bytes.{All}
use sovereign.EntryMap.{Pair}
use sovereign.Trie.Defs.{
  Leaf, Node, leaf, inner, Nodes, nil, cons, hamt_width, hamt_max_depth, segment, has_key,
  node_pairs, new_trie,
}
use sovereign.Trie.Bits.{Walk, Walk-none}

pub segment-lt : (h depth : ℕ) → segment h depth < hamt_width
unfolding segment
segment-lt h depth = mod-lt (h / hamt_width ^ depth) (omega arith)

-- Several leaves of one node only at the last level.
abbrev pub Single : ℕ → List Leaf → Type 0
Single depth [] = Unit
Single depth (l ∷ leaves) = hamt_max_depth ≤ depth

abbrev pub Distinct : List Leaf → Type 0
Distinct [] = Unit
Distinct (l ∷ leaves) = (has_key l.entity_id leaves ≡ false) × Distinct leaves

module _ (hash : List ℕ → ℕ) where
  abbrev pub IsHashed : Leaf → Type 0
  IsHashed l = l.hash ≡ hash l.entity_id

  -- The keys below a child at the position `i`.
  abbrev pub LeadsTo : ℕ → ℕ → Node → Type 0
  LeadsTo depth i c = All (λ (p : Pair). segment (hash p.0) depth ≡ i) (node_pairs c)

  unfoldable mutual
    pub IsWellFormed : ℕ → Node → Type 0
    IsWellFormed depth (leaf l leaves) =
        All IsHashed (l ∷ leaves) × Distinct (l ∷ leaves) × Single depth leaves
    IsWellFormed depth (inner bitmap children) =
        (depth < hamt_max_depth)
        × (length bitmap ≡ hamt_width)
        × Walk (LeadsTo depth) bitmap children
        × AllWellFormed (depth + 1) children

    pub AllWellFormed : ℕ → Nodes → Type 0
    AllWellFormed depth nil = Unit
    AllWellFormed depth (cons c cs) = IsWellFormed depth c × AllWellFormed depth cs

  pub new_trie-IsWellFormed : IsWellFormed 0 new_trie
  unfolding IsWellFormed
  new_trie-IsWellFormed =
      (omega arith, length-replicate hamt_width false, Walk-none (LeadsTo 0) hamt_width, tt)
