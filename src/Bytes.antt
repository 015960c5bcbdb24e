-- ===== src/Bytes.antt =====
-- Fixed-width integers as bytes: encoding/binary's big- and little-endian puts and gets.
use sovereign.Prelude.{
  ℕ, zero, suc, ◌+◌, ◌*◌, ◌/◌, ◌%◌, ◌^◌, ◌<◌, ◌≡◌, refl, sym, ap, ◌∙◌, List, [], ◌∷◌, length, take,
  arith,
}
use native.Mathlib.Nat.{div-add-mod, mod-lt, pow-suc, mod-eq_of_lt, mul-add-mod_self_left}

-- `PutUint16`, `PutUint32`, `PutUint64` for n = 2, 4, 8: the byte at the highest place first.
unfoldable pub be_bytes : ℕ → ℕ → List ℕ
be_bytes zero v = []
be_bytes (suc n) v = (v / 256 ^ n % 256) ∷ be_bytes n v

unfoldable pub be_value : List ℕ → ℕ
be_value [] = 0
be_value (b ∷ rest) = b * 256 ^ length rest + be_value rest

-- The lowest byte first.
unfoldable pub le_bytes : ℕ → ℕ → List ℕ
le_bytes zero v = []
le_bytes (suc n) v = (v % 256) ∷ le_bytes n (v / 256)

unfoldable pub le_value : List ℕ → ℕ
le_value [] = 0
le_value (b ∷ rest) = b + 256 * le_value rest

pub length-be_bytes : (n v : ℕ) → length (be_bytes n v) ≡ n
unfolding be_bytes
length-be_bytes zero v = refl
length-be_bytes (suc n) v = ap suc (length-be_bytes n v)

pub length-le_bytes : (n v : ℕ) → length (le_bytes n v) ≡ n
unfolding le_bytes
length-le_bytes zero v = refl
length-le_bytes (suc n) v = ap suc (length-le_bytes n (v / 256))

pub pow256-pos : (n : ℕ) → 0 < 256 ^ n
pow256-pos zero = omega arith
pow256-pos (suc n) = omega (arith, pow-suc 256 n, pow256-pos n)

-- The digits above and below the place `p`.
digit-below : (r s p : ℕ) → r < 256 → s < p → r * p + s < p * 256
digit-below r s p hr hs = grind arith

mod-split : (v p : ℕ) → 0 < p → v % (p * 256) ≡ v / p % 256 * p + v % p
mod-split v p h =
    let s = v % p in
    let r = v / p % 256 in
    let q = v / p / 256 in
    let apart : v ≡ p * 256 * q + (r * p + s) =
      omega (arith, div-add-mod v p, ap (λ (t : ℕ). p * t) (div-add-mod (v / p) 256)) in
    ap (λ (t : ℕ). t % (p * 256)) apart
    ∙ mul-add-mod_self_left (p * 256) q (r * p + s)
    ∙ mod-eq_of_lt (digit-below r s p (omega arith) (mod-lt v h))

be_value-mod : (n v : ℕ) → be_value (be_bytes n v) ≡ v % 256 ^ n
unfolding be_value be_bytes
be_value-mod zero v = omega arith
be_value-mod (suc n) v =
    rw (length-be_bytes, be_value-mod n v, pow-suc) (sym (mod-split v (256 ^ n) (pow256-pos n)))

pub be_value-be_bytes : (n v : ℕ) → v < 256 ^ n → be_value (be_bytes n v) ≡ v
be_value-be_bytes n v h = be_value-mod n v ∙ mod-eq_of_lt h

pub le_value-le_bytes : (n v : ℕ) → v < 256 ^ n → le_value (le_bytes n v) ≡ v
unfolding le_value le_bytes
le_value-le_bytes zero v h = omega arith
le_value-le_bytes (suc n) v h =
    omega (arith, pow-suc 256 n, le_value-le_bytes n (v / 256) (omega (arith, pow-suc 256 n)))

module _ {ℓ κ} {A : Type ℓ} where
  abbrev pub All : (A → Type κ) → List A → Type κ
  All P [] = Unit
  All P (x ∷ xs) = P x × All P xs

  pub All-weaken : (P Q : A → Type κ) (xs : List A) → ((x : A) → P x → Q x) → All P xs → All Q xs
  All-weaken P Q [] f a = tt
  All-weaken P Q (x ∷ xs) f (h, a) = (f x h, All-weaken P Q xs f a)

  pub All-take : (P : A → Type κ) (n : ℕ) (xs : List A) → All P xs → All P (take n xs)
  All-take P zero xs h = tt
  All-take P (suc n) [] h = tt
  All-take P (suc n) (x ∷ xs) h = (h.0, All-take P n xs h.1)

abbrev pub IsByte : ℕ → Type 0
IsByte b = b < 256

digit-lt : (b r p : ℕ) → b < 256 → r < p → b * p + r < p * 256
digit-lt b r p hb hr = grind arith

-- Bytes hold a number below 256 to their count.
pub be_value-lt : (xs : List ℕ) → All IsByte xs → be_value xs < 256 ^ length xs
unfolding be_value
be_value-lt [] h = omega arith
be_value-lt (b ∷ rest) h =
    rw pow-suc (digit-lt b (be_value rest) (256 ^ length rest) h.0 (be_value-lt rest h.1))
