-- ===== src/Trie/Collision.antt =====
-- What the node that `setCollision` makes of two leaves answers.
use sovereign.Prelude.{
  ℕ, zero, suc, ◌+◌, ◌<◌, ◌≡◌, ◌∙◌, ap, List, [], ◌∷◌, true, false, ◌==◌, if◌then◌else◌, arith,
  Bool-cases, inl, inr,
}
use sovereign.Bytes.{All}
use sovereign.Entry.{CrdtEntry}
use sovereign.EntryMap.{same_key, key_eq, same_key_refl, same_key_comm}
use sovereign.Trie.Defs.{
  Leaf, leaf, hamt_max_depth, segment, has_key, find_leaf, set_collision, node_get,
}
use sovereign.Trie.Valid.{segment-lt, Single, IsHashed}
use sovereign.Trie.Leaves.{find_leaf-append}
use sovereign.Trie.Children.{one-get, two-get}

module _ (hash : List ℕ → ℕ) where
  -- Two leaves whose hashes lead apart, or together.
  apart :
      (depth : ℕ) (l x : Leaf) (j : List ℕ)
      → IsHashed hash l
      → IsHashed hash x
      → same_key x.entity_id l.entity_id ≡ false
      → (segment l.hash depth == segment x.hash depth) ≡ false
      → (if segment x.hash depth == segment (hash j) depth
          then find_leaf j (x ∷ [])
          else if segment l.hash depth == segment (hash j) depth
          then find_leaf j (l ∷ [])
          else [])
        ≡ (if same_key x.entity_id j then x.entries else find_leaf j (l ∷ []))
  unfolding find_leaf
  apart depth l x j hl hx f ne = ground (
    arith,
    key_eq x.entity_id j,
    key_eq j l.entity_id,
    key_eq j x.entity_id,
    same_key_comm x.entity_id j,
    same_key_refl j,
  )

  together :
      (depth : ℕ) (l x : Leaf) (j : List ℕ)
      → IsHashed hash l
      → IsHashed hash x
      → (segment l.hash depth == segment x.hash depth) ≡ true
      → (if segment l.hash depth == segment (hash j) depth
          then (if same_key x.entity_id j then x.entries else find_leaf j (l ∷ []))
          else [])
        ≡ (if same_key x.entity_id j then x.entries else find_leaf j (l ∷ []))
  unfolding find_leaf
  together depth l x j hl hx eq = ground (
    arith,
    key_eq x.entity_id j,
    key_eq j l.entity_id,
    key_eq j x.entity_id,
    same_key_comm x.entity_id j,
    same_key_refl j,
  )

  pub set_collision-get :
      (levels depth : ℕ) (l : Leaf) (ls : List Leaf) (x : Leaf) (j : List ℕ)
      → depth + levels ≡ hamt_max_depth
      → All (IsHashed hash) (l ∷ ls)
      → Single depth ls
      → IsHashed hash x
      → has_key x.entity_id (l ∷ ls) ≡ false
      → node_get j (hash j) depth (set_collision levels depth l ls x)
        ≡ (if same_key x.entity_id j then x.entries else find_leaf j (l ∷ ls))
  unfolding set_collision
  set_collision-get zero depth l ls x j e a s hx f =
      unfold node_get in find_leaf-append j x (l ∷ ls) f
  set_collision-get (suc levels) depth l (l' ∷ ls) x j e a s hx f = absurd (omega arith)
  set_collision-get (suc levels) depth l [] x j e a s hx f =
      let below = set_collision-get levels (depth + 1) l [] x j (omega arith) a tt hx f in
      let lt : depth < hamt_max_depth = omega arith in
      elim (Bool-cases (segment l.hash depth == segment x.hash depth)) [
        | inl eq ↦ rw eq (
            one-get j (hash j) depth (segment l.hash depth)
              (set_collision levels (depth + 1) l [] x) lt (segment-lt l.hash depth)
            ∙ ap
                (λ (r : List CrdtEntry).
                  if segment l.hash depth == segment (hash j) depth then r else [])
                below
            ∙ together depth l x j a.0 hx eq)
        | inr ne ↦ rw ne (
            two-get j (hash j) depth (segment l.hash depth) (segment x.hash depth) (leaf l [])
              (leaf x []) lt (segment-lt l.hash depth) (segment-lt x.hash depth) ne
            ∙ unfold node_get in apart depth l x j a.0 hx (ground arith) ne)
      ]
