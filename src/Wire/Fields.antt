-- ===== src/Wire/Fields.antt =====
-- Go's slice `wire[off:off+n]`, and what it reads of fields that were written one after the other.
use sovereign.Prelude.{
  ℕ, suc, zero, ◌+◌, ◌^◌, ◌<◌, ◌≤◌, ◌≡◌, refl, ap, ◌∙◌, List, [], ◌∷◌, ◌++◌, length, length-append,
  length-take, take, drop, arith, Bool, true, ◌==◌, ◌&&◌,
}
use sovereign.Bytes.{
  be_bytes, be_value, be_value-be_bytes, length-be_bytes, le_bytes, le_value, le_value-le_bytes,
  length-le_bytes,
}

abbrev pub slice : ℕ → ℕ → List ℕ → List ℕ
slice off n wire = take n (drop off wire)

-- A byte array whose bytes are all zero.
abbrev pub is_zero : List ℕ → Bool
is_zero [] = true
is_zero (b ∷ rest) = (b == 0) && is_zero rest

pub take-append : (xs ys : List ℕ) → take (length xs) (xs ++ ys) ≡ xs
take-append [] ys = refl
take-append (x ∷ xs) ys = ap (λ (t : List ℕ). x ∷ t) (take-append xs ys)

suc_add : (a b : ℕ) → suc a + b ≡ suc (a + b)
suc_add a b = omega arith

pub drop-append : (n : ℕ) (xs ys : List ℕ) → drop (length xs + n) (xs ++ ys) ≡ drop n ys
drop-append n [] ys = ap (λ (t : ℕ). drop t ys) (omega arith)
drop-append n (x ∷ xs) ys =
    ap (λ (t : ℕ). drop t (x ∷ xs ++ ys)) (suc_add (length xs) n) ∙ drop-append n xs ys

-- Fields written one after the other in front of a rest, and how many bytes they are.
abbrev pub flat : List (List ℕ) → List ℕ → List ℕ
flat [] rest = rest
flat (x ∷ fields) rest = x ++ flat fields rest

abbrev pub total : List (List ℕ) → ℕ
total [] = 0
total (x ∷ fields) = length x + total fields

-- The bytes behind some fields.
pub behind :
    (fields : List (List ℕ)) (rest : List ℕ) (off : ℕ)
    → total fields ≡ off
    → drop off (flat fields rest) ≡ rest
behind fields rest off h = rw (← h) (go fields)
  where
    go : (fs : List (List ℕ)) → drop (total fs) (flat fs rest) ≡ rest
    go [] = refl
    go (x ∷ fs) = drop-append (total fs) x (flat fs rest) ∙ go fs

-- The field behind some fields.
pub field_at :
    (fields : List (List ℕ)) (x rest : List ℕ) (off n : ℕ)
    → total fields ≡ off
    → length x ≡ n
    → slice off n (flat fields (x ++ rest)) ≡ x
field_at fields x rest off n h k =
    ap (take n) (behind fields (x ++ rest) off h) ∙ rw (← k) (take-append x rest)

-- A number written in n bytes is read back there.
pub be_field_at :
    (fields : List (List ℕ)) (v : ℕ) (rest : List ℕ) (off n : ℕ)
    → total fields ≡ off
    → v < 256 ^ n
    → be_value (slice off n (flat fields (be_bytes n v ++ rest))) ≡ v
be_field_at fields v rest off n h k =
    ap be_value (field_at fields (be_bytes n v) rest off n h (length-be_bytes n v))
    ∙ be_value-be_bytes n v k

pub length-flat :
    (fields : List (List ℕ)) (rest : List ℕ)
    → length (flat fields rest) ≡ total fields + length rest
length-flat [] rest = omega arith
length-flat (x ∷ fields) rest =
    omega (arith, length-append x (flat fields rest), length-flat fields rest)

-- The same with the lowest byte first.
pub le_field_at :
    (fields : List (List ℕ)) (v : ℕ) (rest : List ℕ) (off n : ℕ)
    → total fields ≡ off
    → v < 256 ^ n
    → le_value (slice off n (flat fields (le_bytes n v ++ rest))) ≡ v
le_field_at fields v rest off n h k =
    ap le_value (field_at fields (le_bytes n v) rest off n h (length-le_bytes n v))
    ∙ le_value-le_bytes n v k

-- What a cut leaves
take-take_le : (k n : ℕ) (w : List ℕ) → n ≤ k → take n (take k w) ≡ take n w
take-take_le k zero w h = refl
take-take_le zero (suc n) w h = absurd (omega arith)
take-take_le (suc k) (suc n) [] h = refl
take-take_le (suc k) (suc n) (b ∷ w) h =
    ap (λ (t : List ℕ). b ∷ t) (take-take_le k n w (omega arith))

-- A field before the cut.
pub slice-take : (k off n : ℕ) (w : List ℕ) → off + n ≤ k → slice off n (take k w) ≡ slice off n w
slice-take k zero n w h = take-take_le k n w (omega arith)
slice-take zero (suc off) n w h = absurd (omega arith)
slice-take (suc k) (suc off) n [] h = refl
slice-take (suc k) (suc off) n (b ∷ w) h = slice-take k off n w (omega arith)

pub length-take_lt : (k : ℕ) (w : List ℕ) → k < length w → length (take k w) ≡ k
length-take_lt k w h = omega (arith, length-take k w)
