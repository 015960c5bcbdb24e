-- ===== src/Dominance/Batches.antt =====
-- Rows in the order of their system time fall into batches, each newer than the ones before.
use sovereign.Prelude.{◌≡◌, refl, ap, ◌∙◌, List, [], ◌∷◌, ◌++◌, Bool, true, arith}
use sovereign.Prelude.Int.{ℤ, ltb_ℤ}
use sovereign.Prelude.Members.{filter}
use sovereign.Bytes.{All}
use sovereign.Dominance.{Row, leb_ℤ, eq_ℤ, Batch, cons_row, batches}

-- Rows in the order of their system time.
abbrev pub NotBefore : ℤ → Row → Type 0
NotBefore t r = leb_ℤ t r.sys_t ≡ true

abbrev pub IsAscending : List Row → Type 0
IsAscending [] = Unit
IsAscending (r ∷ rest) = All (NotBefore r.sys_t) rest × IsAscending rest

-- The rows of the batches.
abbrev pub rows_of : List Batch → List Row
rows_of [] = []
rows_of (b ∷ rest) = b.rows ++ rows_of rest

abbrev pub AtTime : ℤ → Row → Type 0
AtTime t r = eq_ℤ r.sys_t t ≡ true

abbrev pub After : ℤ → Row → Type 0
After t r = ltb_ℤ t r.sys_t ≡ true

-- Every row of a batch has its time, and every row of a later one is newer.
abbrev pub AreBatches : List Batch → Type 0
AreBatches [] = Unit
AreBatches (b ∷ rest) =
    All (AtTime b.batch_sys) b.rows × All (After b.batch_sys) (rows_of rest) × AreBatches rest

pub All-imp :
    {A : Type 0} (P Q : A → Type 0) (xs : List A) → ((x : A) → P x → Q x) → All P xs → All Q xs
All-imp P Q [] f h = tt
All-imp P Q (x ∷ xs) f h = (f x h.0, All-imp P Q xs f h.1)

All-append : {A : Type 0} (P : A → Type 0) (xs ys : List A) → All P xs → All P ys → All P (xs ++ ys)
All-append P [] ys h k = k
All-append P (x ∷ xs) ys h k = (h.0, All-append P xs ys h.1 k)

pub filter_ext :
    {A : Type 0} (p q : A → Bool) (xs : List A)
    → All (λ x. p x ≡ q x) xs
    → filter p xs ≡ filter q xs
filter_ext p q [] h = refl
filter_ext p q (x ∷ xs) h = ground (arith, filter_ext p q xs)

-- The first batch is not before the time.
abbrev HeadFrom : ℤ → List Batch → Type 0
HeadFrom t [] = Unit
HeadFrom t (b ∷ rest) = leb_ℤ t b.batch_sys ≡ true

HeadFrom-cons_row : (t : ℤ) (r : Row) (bs : List Batch) → NotBefore t r → HeadFrom t (cons_row r bs)
unfolding cons_row
HeadFrom-cons_row t r [] h = h
HeadFrom-cons_row t r (b ∷ rest) h = ground arith

HeadFrom-batches : (t : ℤ) (rows : List Row) → All (NotBefore t) rows → HeadFrom t (batches rows)
unfolding batches
HeadFrom-batches t [] h = tt
HeadFrom-batches t (r ∷ rest) h = HeadFrom-cons_row t r (batches rest) h.0

AreBatches-cons_row :
    (r : Row) (bs : List Batch) → HeadFrom r.sys_t bs → AreBatches bs → AreBatches (cons_row r bs)
unfolding cons_row
AreBatches-cons_row r [] h a = ground arith
AreBatches-cons_row r (b ∷ rest) h (at, after, a) = ground (
  arith,
  All-append (After r.sys_t) b.rows (rows_of rest),
  λ (lt : ltb_ℤ r.sys_t b.batch_sys ≡ true).
      All-imp (AtTime b.batch_sys) (After r.sys_t) b.rows (λ x e. ground arith) at,
  λ (lt : ltb_ℤ r.sys_t b.batch_sys ≡ true).
      All-imp (After b.batch_sys) (After r.sys_t) (rows_of rest) (λ x e. ground arith) after,
)

pub AreBatches-batches : (rows : List Row) → IsAscending rows → AreBatches (batches rows)
unfolding batches
AreBatches-batches [] h = tt
AreBatches-batches (r ∷ rest) h =
    AreBatches-cons_row r (batches rest) (HeadFrom-batches r.sys_t rest h.0)
      (AreBatches-batches rest h.1)

rows_of-cons_row : (r : Row) (bs : List Batch) → rows_of (cons_row r bs) ≡ r ∷ rows_of bs
unfolding cons_row
rows_of-cons_row r [] = refl
rows_of-cons_row r (b ∷ rest) = ground arith

pub rows_of-batches : (rows : List Row) → rows_of (batches rows) ≡ rows
unfolding batches
rows_of-batches [] = refl
rows_of-batches (r ∷ rest) =
    rows_of-cons_row r (batches rest) ∙ ap (λ (t : List Row). r ∷ t) (rows_of-batches rest)
