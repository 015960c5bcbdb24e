-- ===== src/Wal/Cut.antt =====
-- Where a log is cut, some entries are whole and a part of one may follow.
use sovereign.Prelude.{
  ℕ, zero, suc, ◌+◌, ◌-◌, ◌<◌, ◌≤◌, ◌≡◌, refl, sym, ap, ◌∙◌, ◌⊎◌, inl, inr, List, [], ◌∷◌, ◌++◌,
  length, length-append, take, arith,
}
use mathlib.Core.List.{append_assoc}
use sovereign.Bytes.{All}
use sovereign.Wal.Ops.{WalOp, put_advance, op_bytes, log_bytes, OpFits}
use sovereign.Wal.OpSteps.{payload_len_of-op}

take-append_le : (n : ℕ) (xs ys : List ℕ) → n ≤ length xs → take n (xs ++ ys) ≡ take n xs
take-append_le zero xs ys h = refl
take-append_le (suc n) [] ys h = absurd (omega (arith, h))
take-append_le (suc n) (x ∷ xs) ys h =
    ap (λ (t : List ℕ). x ∷ t) (take-append_le n xs ys (omega (arith, h)))

pub take-append_ge :
    (n : ℕ) (xs ys : List ℕ) → length xs ≤ n → take n (xs ++ ys) ≡ xs ++ take (n - length xs) ys
take-append_ge n [] ys h = ap (λ (m : ℕ). take m ys) (omega arith)
take-append_ge zero (x ∷ xs) ys h = absurd (omega (arith, h))
take-append_ge (suc n) (x ∷ xs) ys h =
    ap (λ (t : List ℕ). x ∷ t) (take-append_ge n xs ys (omega (arith, h)))
    ∙ ap (λ (m : ℕ). x ∷ (xs ++ take m ys)) (omega arith)

-- `kept` entries are whole, and so many bytes of another are left; `j` of the whole ones are sure.
pub record Cut (crc32c : List ℕ → ℕ) (seq : ℕ) (ops : List WalOp) (n j : ℕ) : Type 0 where
  pub kept : ℕ
  pub at_least : j ≤ kept
  pub kept_le : kept ≤ length ops
  pub last : WalOp
  pub last_fits : OpFits last
  pub part : ℕ
  pub part_lt : part < length (op_bytes crc32c (seq + kept) last)
  pub same :
      take n (log_bytes crc32c seq ops)
      ≡ log_bytes crc32c seq (take kept ops) ++ take part (op_bytes crc32c (seq + kept) last)

pub pos_op :
    (crc32c : List ℕ → ℕ) (seq : ℕ) (op : WalOp) → OpFits op → 0 < length (op_bytes crc32c seq op)
pos_op crc32c seq op f =
    omega
      (arith, (payload_len_of-op crc32c seq op [] f).0, length-append (op_bytes crc32c seq op) [])

zero_right : (n : ℕ) → n + 0 ≡ n
zero_right n = omega arith

pub shift : (a b : ℕ) → a + suc b ≡ a + 1 + b
shift a b = omega arith

lt_or_ge : (a b : ℕ) → (a < b) ⊎ (b ≤ a)
lt_or_ge a b = omega arith

take_nil : (n : ℕ) → take {A = ℕ} n [] ≡ []
take_nil zero = refl
take_nil (suc n) = refl

module _ (crc32c : List ℕ → ℕ) where
  cut_inside :
      (seq : ℕ) (op : WalOp) (ops : List WalOp) (n : ℕ)
      → OpFits op
      → n < length (op_bytes crc32c seq op)
      → Cut crc32c seq (op ∷ ops) n 0
  unfolding log_bytes
  cut_inside seq op ops n f lt = record {
    kept = 0;
    at_least = omega arith;
    kept_le = omega arith;
    last = op;
    last_fits = f;
    part = n;
    part_lt = rw (zero_right seq) lt;
    same = rw (zero_right seq) (
        take-append_le n (op_bytes crc32c seq op) (log_bytes crc32c (seq + 1) ops)
          (omega (arith, lt)));
  }

  cut_behind :
      (seq : ℕ) (op : WalOp) (ops : List WalOp) (n j i : ℕ)
      → length (op_bytes crc32c seq op) ≤ n
      → i ≤ suc j
      → Cut crc32c (seq + 1) ops (n - length (op_bytes crc32c seq op)) j
      → Cut crc32c seq (op ∷ ops) n i
  unfolding log_bytes
  cut_behind seq op ops n j i le i_le c = record {
    kept = suc c.kept;
    at_least = omega (arith, c.at_least, i_le);
    kept_le = omega (arith, c.kept_le);
    last = c.last;
    last_fits = c.last_fits;
    part = c.part;
    part_lt = rw (shift seq c.kept) c.part_lt;
    same =
        let bytes = op_bytes crc32c seq op in
        rw (shift seq c.kept) (
          take-append_ge n bytes (log_bytes crc32c (seq + 1) ops) le
          ∙ (ap (λ (t : List ℕ). bytes ++ t) c.same
              ∙ sym (
                  append_assoc bytes (log_bytes crc32c (seq + 1) (take c.kept ops))
                    (take c.part (op_bytes crc32c (seq + 1 + c.kept) c.last)))));
  }

  -- `j` entries that are whole before the cut are kept.
  pub cut :
      (seq : ℕ) (ops : List WalOp) (n j : ℕ)
      → All OpFits ops
      → j ≤ length ops
      → length (log_bytes crc32c seq (take j ops)) ≤ n
      → Cut crc32c seq ops n j
  unfolding log_bytes
  cut seq [] n j a j_le h = record {
    kept = 0;
    at_least = j_le;
    kept_le = omega arith;
    last = put_advance 0;
    last_fits = omega arith;
    part = 0;
    part_lt = pos_op crc32c (seq + 0) (put_advance 0) (omega arith);
    same = take_nil n;
  }
  cut seq (op ∷ ops) n zero (f, a) j_le h = elim (lt_or_ge n (length (op_bytes crc32c seq op))) [
    | inl lt ↦ cut_inside seq op ops n f lt
    | inr ge ↦
        cut_behind seq op ops n 0 0 ge (omega arith)
          (cut (seq + 1) ops (n - length (op_bytes crc32c seq op)) 0 a (omega arith) (omega arith))
  ]
  cut seq (op ∷ ops) n (suc j) (f, a) j_le h =
      let both = length-append (op_bytes crc32c seq op) (log_bytes crc32c (seq + 1) (take j ops)) in
      cut_behind seq op ops n j (suc j) (omega (arith, h, both)) (omega arith) (
        cut (seq + 1) ops (n - length (op_bytes crc32c seq op)) j a (omega (arith, j_le))
          (omega (arith, h, both)))
