-- ===== src/Trie/Bits.antt =====
-- The bitmap of a node and its array of children: what each array operation does to the child that a
-- position of the bitmap stands for.
use sovereign.Prelude.{
  ℕ, zero, suc, ◌<◌, ◌≡◌, refl, ap, List, [], ◌∷◌, Bool, true, false, ◌==◌, ltb, length,
  if◌then◌else◌, set, replicate, arith,
}
use sovereign.Entry.{CrdtEntry}
use sovereign.Trie.Defs.{
  Node, Nodes, nil, cons, has_bit, rank, insert_at, replace_at, remove_at, any_bit, node_get,
  nth_get,
}

-- Each child has its bit, and holds a property of the position of that bit.
abbrev pub Walk : (ℕ → Node → Type 0) → List Bool → Nodes → Type 0
Walk P [] nil = Unit
Walk P [] (cons c cs) = ⊥
Walk P (false ∷ bits) cs = Walk (λ i. P (suc i)) bits cs
Walk P (true ∷ bits) nil = ⊥
Walk P (true ∷ bits) (cons c cs) = P 0 c × Walk (λ i. P (suc i)) bits cs

-- What is found at a position: the entries of the key in the child there, and nil without a child.
module _ (key : List ℕ) (hash depth : ℕ) where
  abbrev pub child_get : List Bool → Nodes → ℕ → List CrdtEntry
  child_get bits cs j = if has_bit bits j then nth_get key hash depth (rank bits j) cs else []

  pub child_get-insert :
      (P : ℕ → Node → Type 0) (bits : List Bool) (i j : ℕ) (x : Node) (cs : Nodes)
      → Walk P bits cs
      → i < length bits
      → has_bit bits i ≡ false
      → child_get (set bits i true) (insert_at (rank bits i) x cs) j
        ≡ (if i == j then node_get key hash depth x else child_get bits cs j)
  unfolding nth_get
  child_get-insert P [] i j x cs w lt h = absurd (omega arith)
  child_get-insert P (true ∷ bits) zero j x cs w lt h = cc
  child_get-insert P (false ∷ bits) zero zero x cs w lt h = refl
  child_get-insert P (false ∷ bits) zero (suc j) x cs w lt h = ground arith
  child_get-insert P (true ∷ bits) (suc i) j x nil w lt h = absurd w
  child_get-insert P (true ∷ bits) (suc i) zero x (cons c cs) w lt h = ground arith
  child_get-insert P (true ∷ bits) (suc i) (suc j) x (cons c cs) w lt h =
      ground (arith, child_get-insert (λ n. P (suc n)) bits i j x cs w.1 (omega arith) h)
  child_get-insert P (false ∷ bits) (suc i) zero x cs w lt h = ground arith
  child_get-insert P (false ∷ bits) (suc i) (suc j) x cs w lt h =
      ground (arith, child_get-insert (λ n. P (suc n)) bits i j x cs w (omega arith) h)

  pub child_get-replace :
      (P : ℕ → Node → Type 0) (bits : List Bool) (i j : ℕ) (x : Node) (cs : Nodes)
      → Walk P bits cs
      → has_bit bits i ≡ true
      → child_get bits (replace_at (rank bits i) x cs) j
        ≡ (if i == j then node_get key hash depth x else child_get bits cs j)
  unfolding nth_get
  child_get-replace P [] i j x cs w h = cc
  child_get-replace P (true ∷ bits) i j x nil w h = absurd w
  child_get-replace P (true ∷ bits) zero zero x (cons c cs) w h = refl
  child_get-replace P (true ∷ bits) zero (suc j) x (cons c cs) w h = ground arith
  child_get-replace P (false ∷ bits) zero j x cs w h = cc
  child_get-replace P (true ∷ bits) (suc i) zero x (cons c cs) w h = ground arith
  child_get-replace P (true ∷ bits) (suc i) (suc j) x (cons c cs) w h =
      ground (arith, child_get-replace (λ n. P (suc n)) bits i j x cs w.1 h)
  child_get-replace P (false ∷ bits) (suc i) zero x cs w h = ground arith
  child_get-replace P (false ∷ bits) (suc i) (suc j) x cs w h =
      ground (arith, child_get-replace (λ n. P (suc n)) bits i j x cs w h)

  pub child_get-remove :
      (P : ℕ → Node → Type 0) (bits : List Bool) (i j : ℕ) (cs : Nodes)
      → Walk P bits cs
      → has_bit bits i ≡ true
      → child_get (set bits i false) (remove_at (rank bits i) cs) j
        ≡ (if i == j then [] else child_get bits cs j)
  unfolding nth_get
  child_get-remove P [] i j cs w h = cc
  child_get-remove P (true ∷ bits) i j nil w h = absurd w
  child_get-remove P (true ∷ bits) zero zero (cons c cs) w h = refl
  child_get-remove P (true ∷ bits) zero (suc j) (cons c cs) w h = ground arith
  child_get-remove P (false ∷ bits) zero j cs w h = cc
  child_get-remove P (true ∷ bits) (suc i) zero (cons c cs) w h = ground arith
  child_get-remove P (true ∷ bits) (suc i) (suc j) (cons c cs) w h =
      ground (arith, child_get-remove (λ n. P (suc n)) bits i j cs w.1 h)
  child_get-remove P (false ∷ bits) (suc i) zero cs w h = ground arith
  child_get-remove P (false ∷ bits) (suc i) (suc j) cs w h =
      ground (arith, child_get-remove (λ n. P (suc n)) bits i j cs w h)

  pub child_get-no_bit :
      (bits : List Bool) (j : ℕ) (cs : Nodes) → any_bit bits ≡ false → child_get bits cs j ≡ []
  child_get-no_bit [] j cs h = refl
  child_get-no_bit (true ∷ bits) j cs h = cc
  child_get-no_bit (false ∷ bits) zero cs h = refl
  child_get-no_bit (false ∷ bits) (suc j) cs h = child_get-no_bit bits j cs h

-- The walk over the arrays that the operations make.
pub Walk-insert :
    (P : ℕ → Node → Type 0) (bits : List Bool) (i : ℕ) (x : Node) (cs : Nodes)
    → i < length bits
    → has_bit bits i ≡ false
    → P i x
    → Walk P bits cs
    → Walk P (set bits i true) (insert_at (rank bits i) x cs)
Walk-insert P [] i x cs lt h p w = absurd (omega arith)
Walk-insert P (true ∷ bits) zero x cs lt h p w = cc
Walk-insert P (true ∷ bits) (suc i) x nil lt h p w = absurd w
Walk-insert P (true ∷ bits) (suc i) x (cons c cs) lt h p w =
    (w.0, Walk-insert (λ n. P (suc n)) bits i x cs (omega arith) h p w.1)
Walk-insert P (false ∷ bits) zero x cs lt h p w = (p, w)
Walk-insert P (false ∷ bits) (suc i) x cs lt h p w =
    Walk-insert (λ n. P (suc n)) bits i x cs (omega arith) h p w

pub Walk-replace :
    (P : ℕ → Node → Type 0) (bits : List Bool) (i : ℕ) (x : Node) (cs : Nodes)
    → has_bit bits i ≡ true
    → P i x
    → Walk P bits cs
    → Walk P bits (replace_at (rank bits i) x cs)
Walk-replace P [] i x cs h p w = cc
Walk-replace P (true ∷ bits) i x nil h p w = absurd w
Walk-replace P (true ∷ bits) zero x (cons c cs) h p w = (p, w.1)
Walk-replace P (true ∷ bits) (suc i) x (cons c cs) h p w =
    (w.0, Walk-replace (λ n. P (suc n)) bits i x cs h p w.1)
Walk-replace P (false ∷ bits) zero x cs h p w = cc
Walk-replace P (false ∷ bits) (suc i) x cs h p w = Walk-replace (λ n. P (suc n)) bits i x cs h p w

pub Walk-remove :
    (P : ℕ → Node → Type 0) (bits : List Bool) (i : ℕ) (cs : Nodes)
    → has_bit bits i ≡ true
    → Walk P bits cs
    → Walk P (set bits i false) (remove_at (rank bits i) cs)
Walk-remove P [] i cs h w = cc
Walk-remove P (true ∷ bits) i nil h w = absurd w
Walk-remove P (true ∷ bits) zero (cons c cs) h w = w.1
Walk-remove P (true ∷ bits) (suc i) (cons c cs) h w =
    (w.0, Walk-remove (λ n. P (suc n)) bits i cs h w.1)
Walk-remove P (false ∷ bits) zero cs h w = cc
Walk-remove P (false ∷ bits) (suc i) cs h w = Walk-remove (λ n. P (suc n)) bits i cs h w

-- The child of a position that has its bit is one of the array.
abbrev pub InRange : ℕ → Nodes → Type 0
InRange n nil = ⊥
InRange zero (cons c cs) = Unit
InRange (suc n) (cons c cs) = InRange n cs

pub rank-InRange :
    (P : ℕ → Node → Type 0) (bits : List Bool) (i : ℕ) (cs : Nodes)
    → has_bit bits i ≡ true
    → Walk P bits cs
    → InRange (rank bits i) cs
rank-InRange P [] i cs h w = cc
rank-InRange P (true ∷ bits) i nil h w = absurd w
rank-InRange P (true ∷ bits) zero (cons c cs) h w = tt
rank-InRange P (true ∷ bits) (suc i) (cons c cs) h w = rank-InRange (λ n. P (suc n)) bits i cs h w.1
rank-InRange P (false ∷ bits) zero cs h w = cc
rank-InRange P (false ∷ bits) (suc i) cs h w = rank-InRange (λ n. P (suc n)) bits i cs h w

-- Bitmaps with none or one of their bits.
pub has_bit-none : (n i : ℕ) → has_bit (replicate n false) i ≡ false
has_bit-none zero i = refl
has_bit-none (suc n) zero = refl
has_bit-none (suc n) (suc i) = has_bit-none n i

pub rank-none : (n i : ℕ) → rank (replicate n false) i ≡ 0
rank-none zero i = refl
rank-none (suc n) zero = refl
rank-none (suc n) (suc i) = rank-none n i

pub Walk-none : (P : ℕ → Node → Type 0) (n : ℕ) → Walk P (replicate n false) nil
Walk-none P zero = tt
Walk-none P (suc n) = Walk-none (λ i. P (suc i)) n

pub has_bit-one : (n i j : ℕ) → has_bit (set (replicate n false) i true) j ≡ true → i ≡ j
has_bit-one zero i j h = cc
has_bit-one (suc n) zero zero h = refl
has_bit-one (suc n) zero (suc j) h = cc (has_bit-none n j)
has_bit-one (suc n) (suc i) zero h = cc
has_bit-one (suc n) (suc i) (suc j) h = ap suc (has_bit-one n i j h)

pub rank-one :
    (n i j : ℕ) → i < n → rank (set (replicate n false) i true) j ≡ (if ltb i j then 1 else 0)
rank-one zero i j h = absurd (omega arith)
rank-one (suc n) zero zero h = refl
rank-one (suc n) zero (suc j) h = ground (arith, rank-none n j)
rank-one (suc n) (suc i) zero h = ground arith
rank-one (suc n) (suc i) (suc j) h = ground (arith, rank-one n i j (omega arith))

pub any_bit-none : (n : ℕ) → any_bit (replicate n false) ≡ false
any_bit-none zero = refl
any_bit-none (suc n) = any_bit-none n

pub set-set_back : (n i : ℕ) → set (set (replicate n false) i true) i false ≡ replicate n false
set-set_back zero i = refl
set-set_back (suc n) zero = refl
set-set_back (suc n) (suc i) = ap (λ (bits : List Bool). false ∷ bits) (set-set_back n i)

pub has_bit-set : (bits : List Bool) (i : ℕ) → i < length bits → has_bit (set bits i true) i ≡ true
has_bit-set [] i h = absurd (omega arith)
has_bit-set (b ∷ bits) zero h = refl
has_bit-set (b ∷ bits) (suc i) h = has_bit-set bits i (omega arith)
