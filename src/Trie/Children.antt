-- ===== src/Trie/Children.antt =====
-- Nodes with one child and with two.
use sovereign.Prelude.{
  ℕ, ◌+◌, ◌<◌, ◌≡◌, refl, ◌∙◌, sym, ap, List, [], Bool, true, false, ◌==◌, ==_iff, ltb,
  if◌then◌else◌, length-set, length-replicate, set, arith, Bool-cases, inl, inr,
}
use mathlib.Core.Path.{subst}
use sovereign.Entry.{CrdtEntry}
use sovereign.Trie.Defs.{
  Node, inner, Nodes, nil, cons, hamt_width, hamt_max_depth, segment, no_bits, has_bit, rank,
  insert_at, node_get,
}
use sovereign.Trie.Bits.{
  Walk, Walk-none, child_get, child_get-insert, Walk-insert, has_bit-none, has_bit-one, rank-none,
  rank-one,
}

-- A node with children reads the child at the key's segment.
pub inner-get :
    (j : List ℕ) (h depth : ℕ) (bits : List Bool) (cs : Nodes)
    → depth < hamt_max_depth
    → node_get j h depth (inner bits cs) ≡ child_get j h (depth + 1) bits cs (segment h depth)
unfolding node_get
inner-get j h depth bits cs lt = ground arith

nothing_there : (j : List ℕ) (h depth s : ℕ) → child_get j h depth no_bits nil s ≡ []
nothing_there j h depth s = rw (has_bit-none hamt_width s) refl

abbrev AnyPlace : ℕ → Node → Type 0
AnyPlace n c = Unit

one-child :
    (j : List ℕ) (h depth i s : ℕ) (c : Node)
    → i < hamt_width
    → child_get j h depth (set no_bits i true) (cons c nil) s
      ≡ (if i == s then node_get j h depth c else [])
one-child j h depth i s c small =
    let both =
      child_get-insert j h depth AnyPlace no_bits i s c nil (Walk-none AnyPlace hamt_width)
        (rw (length-replicate hamt_width false) small) (has_bit-none hamt_width i) in
    rw (nothing_there j h depth s) at (rw (rank-none hamt_width i) at both)

-- A node with one child, and with two.
pub one-get :
    (j : List ℕ) (h depth i : ℕ) (c : Node)
    → depth < hamt_max_depth
    → i < hamt_width
    → node_get j h depth (inner (set no_bits i true) (cons c nil))
      ≡ (if i == segment h depth then node_get j h (depth + 1) c else [])
one-get j h depth i c lt small =
    inner-get j h depth (set no_bits i true) (cons c nil) lt
    ∙ one-child j h (depth + 1) i (segment h depth) c small

abbrev pub two_children : ℕ → ℕ → Node → Node → Nodes
two_children i i' c d = if ltb i i' then cons c (cons d nil) else cons d (cons c nil)

pub two_inserted :
    (i i' : ℕ) (c d : Node)
    → i < hamt_width
    → insert_at (rank (set no_bits i true) i') d (cons c nil) ≡ two_children i i' c d
two_inserted i i' c d small = elim (Bool-cases (ltb i i')) [
  | inl e ↦ rw (rank-one hamt_width i i' small, e) refl
  | inr e ↦ rw (rank-one hamt_width i i' small, e) refl
]

pub not_set : (i i' : ℕ) → (i == i') ≡ false → has_bit (set no_bits i true) i' ≡ false
not_set i i' ne = elim (Bool-cases (has_bit (set no_bits i true) i')) [
  | inl e ↦ cc (ne, (==_iff i i').1 (has_bit-one hamt_width i i' e))
  | inr e ↦ e
]

pub one-Walk :
    (P : ℕ → Node → Type 0) (i : ℕ) (c : Node)
    → i < hamt_width
    → P i c
    → Walk P (set no_bits i true) (cons c nil)
one-Walk P i c small p = rw (rank-none hamt_width i) at (
    Walk-insert P no_bits i c nil (rw (length-replicate hamt_width false) small)
      (has_bit-none hamt_width i) p (Walk-none P hamt_width))

pub two-Walk :
    (P : ℕ → Node → Type 0) (i i' : ℕ) (c d : Node)
    → i < hamt_width
    → i' < hamt_width
    → (i == i') ≡ false
    → P i c
    → P i' d
    → Walk P (set (set no_bits i true) i' true) (two_children i i' c d)
two-Walk P i i' c d small small' ne p q =
    subst (Walk P (set (set no_bits i true) i' true)) (two_inserted i i' c d small) (
      Walk-insert P (set no_bits i true) i' d (cons c nil)
        (rw (length-set no_bits i true, length-replicate hamt_width false) small') (not_set i i' ne)
        q (one-Walk P i c small p))

pub two-get :
    (j : List ℕ) (h depth i i' : ℕ) (c d : Node)
    → depth < hamt_max_depth
    → i < hamt_width
    → i' < hamt_width
    → (i == i') ≡ false
    → node_get j h depth (inner (set (set no_bits i true) i' true) (two_children i i' c d)) ≡ (
        if i' == segment h depth
        then node_get j h (depth + 1) d
        else if i == segment h depth
        then node_get j h (depth + 1) c
        else [])
two-get j h depth i i' c d lt small small' ne =
    let s = segment h depth in
    inner-get j h depth (set (set no_bits i true) i' true) (two_children i i' c d) lt
    ∙ ap (λ (cs : Nodes). child_get j h (depth + 1) (set (set no_bits i true) i' true) cs s)
        (sym (two_inserted i i' c d small))
    ∙ child_get-insert j h (depth + 1) AnyPlace (set no_bits i true) i' s d (cons c nil)
        (one-Walk AnyPlace i c small tt)
        (rw (length-set no_bits i true, length-replicate hamt_width false) small') (not_set i i' ne)
    ∙ ap (λ (r : List CrdtEntry). if i' == s then node_get j h (depth + 1) d else r)
        (one-child j h (depth + 1) i s c small)
