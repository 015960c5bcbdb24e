-- ===== src/Wal/Reach.antt =====
-- Every state that a log reaches holds entries, one after the other.
use sovereign.Prelude.{
  ℕ, zero, suc, ◌+◌, ◌^◌, ◌<◌, ◌≤◌, ◌≡◌, refl, sym, ap, ◌∙◌, List, [], ◌∷◌, ◌++◌, some, Bool, false,
  length, length-append, length-take, take, arith,
}
use Prim.Native.Nat.{min}
use mathlib.Core.List.{append-nil}
use sovereign.Bytes.{All, All-take, be_bytes}
use sovereign.Wal.Append.{Wal, whole, short, write_and_sync, write_record}
use sovereign.Wal.Replay.{nothing_replayed, replayed, replay_wal}
use sovereign.Wal.Open.{wal_header, open_wal}
use sovereign.Wal.Ops.{WalOp, op_bytes, log_bytes, absorb_all, OpFits, HasWidth32}
use sovereign.Wal.Cut.{take-append_ge}
use sovereign.Wal.Recovers.{log_recovers, replay_wal-log}
use sovereign.Wal.Holds.{
  append_op, Accepted, Holds, append_op-written, append_op-Holds, file-part, All-append,
}

take-take : (n m : ℕ) (xs : List ℕ) → take n (take m xs) ≡ take (min n m) xs
take-take zero m xs = let e : 0 ≡ min 0 m = omega arith in ap (λ (t : ℕ). take t xs) e
take-take (suc n) zero xs = let e : 0 ≡ min (suc n) 0 = omega arith in ap (λ (t : ℕ). take t xs) e
take-take (suc n) (suc m) [] = sym (take_nil (min (suc n) (suc m)))
  where
    take_nil : (n : ℕ) → take {A = ℕ} n [] ≡ []
    take_nil zero = refl
    take_nil (suc n) = refl
take-take (suc n) (suc m) (x ∷ xs) =
    ap (λ (t : List ℕ). x ∷ t) (take-take n m xs)
    ∙ (let e : suc (min n m) ≡ min (suc n) (suc m) = omega arith in
        ap (λ (t : ℕ). take t (x ∷ xs)) e)

-- A cut through the file and a part behind it is a cut through all of both.
cut_part :
    (m n : ℕ) (file rec : List ℕ)
    → take m (file ++ take n rec) ≡ take (min m (length file + n)) (file ++ rec)
cut_part m n file rec =
    ap (take m) (
      sym (
        take-append_ge (length file + n) file rec (omega arith)
        ∙ ap (λ (t : ℕ). file ++ take t rec) (omega arith)))
    ∙ take-take m (length file + n) (file ++ rec)

-- The states that appends, syncs that fail, writes that fail with the process then ended, and ends of
-- the process at any time lead to, each followed by an opening of what the file then holds, which is no
-- less than its header.
pub data Reachable (crc32c : List ℕ → ℕ) : Wal → Type 0 where
  created : (w : Wal) → open_wal [] ≡ some w → Reachable crc32c w
  put :
      (w : Wal) (op : WalOp) (synced : Bool)
      → Reachable crc32c w
      → Accepted op
      → OpFits op
      → w.next_seq + 1 < 2 ^ 64
      → Reachable crc32c (append_op crc32c op whole synced w).1
  crashed :
      (w w' : Wal) (op : WalOp) (n m : ℕ)
      → Reachable crc32c w
      → Accepted op
      → OpFits op
      → w.next_seq + 1 < 2 ^ 64
      → 8 ≤ m
      → open_wal (take m (append_op crc32c op (short n) false w).1.file) ≡ some w'
      → Reachable crc32c w'

header_le :
    (crc32c : List ℕ → ℕ) (ops : List WalOp) (w : Wal) → Holds crc32c ops w → 8 ≤ length w.file
unfolding wal_header be_bytes
header_le crc32c ops w h = rw h.file_is (omega arith)

none_whole : (crc32c : List ℕ → ℕ) (n : ℕ) → 8 ≤ n → 8 + length (log_bytes crc32c 0 []) ≤ n
unfolding log_bytes
none_whole crc32c n h = omega (arith, h)

-- What is opened from a cut through a file of entries holds entries.
opened-Holds :
    (crc32c : List ℕ → ℕ) (ops : List WalOp) (w' : Wal) (n : ℕ)
    → HasWidth32 crc32c
    → All OpFits ops
    → length ops < 2 ^ 64
    → 8 ≤ n
    → open_wal (take n (wal_header ++ log_bytes crc32c 0 ops)) ≡ some w'
    → (ops' : List WalOp) × Holds crc32c ops' w'
opened-Holds crc32c ops w' n wide fit few long opened =
    let (k, _, k_le, _, found) =
      log_recovers crc32c ops n 0 wide fit few (omega arith) (none_whole crc32c n long) in
    let r : Wal = record { file = wal_header ++ log_bytes crc32c 0 (take k ops); next_seq = k } in
    let same : w' ≡ r = some_injective w' r (sym opened ∙ found) in
    let size : length (take k ops) ≡ k = omega (arith, length-take k ops, k_le) in
    (
      take k ops,
      record {
        file_is = ap (λ (x : Wal). x.file) same;
        seq_is = ap (λ (x : Wal). x.next_seq) same ∙ sym size;
        few = omega (arith, size, k_le, few);
        fit = All-take OpFits k ops fit;
      },
    )
  where
    some_injective : (x y : Wal) → some x ≡ some y → x ≡ y
    some_injective x y e = cc

short_write :
    (crc32c : List ℕ → ℕ) (w : Wal) (op : WalOp) (n : ℕ)
    → Accepted op
    → (append_op crc32c op (short n) false w).1.file
      ≡ w.file ++ take n (op_bytes crc32c w.next_seq op)
unfolding write_and_sync write_record
short_write crc32c w op n ok = rw (append_op-written crc32c op (short n) false w ok) refl

crashed-Holds :
    (crc32c : List ℕ → ℕ) (ops : List WalOp) (w w' : Wal) (op : WalOp) (n m : ℕ)
    → HasWidth32 crc32c
    → Holds crc32c ops w
    → Accepted op
    → OpFits op
    → w.next_seq + 1 < 2 ^ 64
    → 8 ≤ m
    → open_wal (take m (append_op crc32c op (short n) false w).1.file) ≡ some w'
    → (ops' : List WalOp) × Holds crc32c ops' w'
crashed-Holds crc32c ops w w' op n m wide h ok f lt long opened =
    let both = ops ++ op ∷ [] in
    let at = min m (length w.file + n) in
    let same : take m (append_op crc32c op (short n) false w).1.file
        ≡ take at (wal_header ++ log_bytes crc32c 0 both) =
      ap (take m) (short_write crc32c w op n ok)
      ∙ (cut_part m n w.file (op_bytes crc32c w.next_seq op)
          ∙ ap (take at) (file-part crc32c ops w op h)) in
    opened-Holds crc32c both w' at wide (All-append ops op h.fit f)
      (omega (arith, length-append ops (op ∷ []), h.seq_is, lt))
      (omega (arith, long, header_le crc32c ops w h)) (ap open_wal (sym same) ∙ opened)

created-Holds : (crc32c : List ℕ → ℕ) (w : Wal) → open_wal [] ≡ some w → Holds crc32c [] w
unfolding open_wal log_bytes
created-Holds crc32c w h =
    let same : w ≡ record { file = wal_header; next_seq = 0 } = cc in
    record {
      file_is = ap (λ (x : Wal). x.file) same ∙ sym (append-nil wal_header);
      seq_is = ap (λ (x : Wal). x.next_seq) same;
      few = omega arith;
      fit = tt;
    }

Reachable-Holds :
    (crc32c : List ℕ → ℕ) (w : Wal)
    → HasWidth32 crc32c
    → Reachable crc32c w
    → (ops : List WalOp) × Holds crc32c ops w
Reachable-Holds crc32c _ wide (created w h) = ([], created-Holds crc32c w h)
Reachable-Holds crc32c _ wide (put w op synced r ok f lt) =
    let (ops, h) = Reachable-Holds crc32c w wide r in
    (ops ++ op ∷ [], (append_op-Holds crc32c ops w op synced h ok f lt).1)
Reachable-Holds crc32c _ wide (crashed w w' op n m r ok f lt long opened) =
    let (ops, h) = Reachable-Holds crc32c w wide r in
    crashed-Holds crc32c ops w w' op n m wide h ok f lt long opened

-- What a log holds after any sequence of appends, of syncs that fail and of crashes at any byte, each
-- crash followed by an opening, is entries of admissible fields one after the other, and its replay is
-- that of these entries; where the checksum has 32 bits and each append was of an accepted entry of admissible fields, with the
-- number of the next one below 2^64.
pub Reachable-replayed :
    (crc32c : List ℕ → ℕ) (w : Wal)
    → HasWidth32 crc32c
    → Reachable crc32c w
    → (ops : List WalOp) × Holds crc32c ops w
      × (replay_wal crc32c w.file ≡ replayed (absorb_all 0 ops nothing_replayed))
Reachable-replayed crc32c w wide r =
    let (ops, h) = Reachable-Holds crc32c w wide r in
    (ops, h, ap (replay_wal crc32c) h.file_is ∙ replay_wal-log crc32c ops wide h.fit h.few)
