-- ===== src/Wal/Holds.antt =====
-- A log that holds entries, and what an append makes of it.
use sovereign.Prelude.{
  ℕ, suc, ◌+◌, ◌%◌, ◌^◌, ◌<◌, ◌≡◌, refl, sym, ap, ◌∙◌, List, [], ◌∷◌, ◌++◌, Bool, true, length,
  length-append, if◌then◌else◌, arith,
}
use mathlib.Core.List.{append_assoc, append-nil}
use sovereign.Bytes.{All}
use sovereign.Wal.{validate_v2}
use sovereign.Wal.Append.{
  Wal, Write, whole, Append, appended, sync_failed, append_mutation, append_checkpoint,
  append_clock_advance, write_and_sync, write_record,
}
use sovereign.Wal.Open.{wal_header}
use sovereign.Wal.Ops.{
  WalOp, put_mutation, put_checkpoint, put_advance, op_bytes, log_bytes, OpFits,
}

-- The append of an entry
unfoldable pub append_op : (List ℕ → ℕ) → WalOp → Write → Bool → Wal → Append × Wal
append_op crc32c (put_mutation m) = append_mutation crc32c m
append_op crc32c (put_checkpoint c) = append_checkpoint crc32c c
append_op crc32c (put_advance a) = append_clock_advance crc32c a

abbrev pub Accepted : WalOp → Type 0
Accepted (put_mutation m) = validate_v2 m ≡ true
Accepted (put_checkpoint c) = Unit
Accepted (put_advance a) = Unit

-- The file and the next number are those of the entries.
pub record Holds (crc32c : List ℕ → ℕ) (ops : List WalOp) (w : Wal) : Type 0 where
  pub file_is : w.file ≡ wal_header ++ log_bytes crc32c 0 ops
  pub seq_is : w.next_seq ≡ length ops
  pub few : length ops < 2 ^ 64
  pub fit : All OpFits ops

pub append_op-written :
    (crc32c : List ℕ → ℕ) (op : WalOp) (r : Write) (synced : Bool) (w : Wal)
    → Accepted op
    → append_op crc32c op r synced w ≡ write_and_sync (op_bytes crc32c w.next_seq op) r synced w
unfolding append_op append_mutation append_checkpoint append_clock_advance op_bytes
append_op-written crc32c (put_mutation m) r synced w h = rw h refl
append_op-written crc32c (put_checkpoint c) r synced w h = refl
append_op-written crc32c (put_advance a) r synced w h = refl

log_bytes-append :
    (crc32c : List ℕ → ℕ) (seq : ℕ) (ops : List WalOp) (op : WalOp)
    → log_bytes crc32c seq (ops ++ op ∷ [])
      ≡ log_bytes crc32c seq ops ++ op_bytes crc32c (seq + length ops) op
unfolding log_bytes
log_bytes-append crc32c seq [] op = append-nil (op_bytes crc32c seq op) ∙ rw (zero_right seq) refl
  where
    zero_right : (n : ℕ) → n + 0 ≡ n
    zero_right n = omega arith
log_bytes-append crc32c seq (o ∷ ops) op =
    let b = op_bytes crc32c seq o in
    ap (λ (t : List ℕ). b ++ t) (log_bytes-append crc32c (seq + 1) ops op)
    ∙ (rw (shift seq (length ops)) (
        sym (
          append_assoc b (log_bytes crc32c (seq + 1) ops)
            (op_bytes crc32c (seq + 1 + length ops) op))))
  where
    shift : (a b : ℕ) → a + suc b ≡ a + 1 + b
    shift a b = omega arith

pub All-append :
    (ops : List WalOp) (op : WalOp) → All OpFits ops → OpFits op → All OpFits (ops ++ op ∷ [])
All-append [] op a f = (f, tt)
All-append (o ∷ ops) op (h, a) f = (h, All-append ops op a f)

-- The bytes of the entries in front of a part of a record
pub file-part :
    (crc32c : List ℕ → ℕ) (ops : List WalOp) (w : Wal) (op : WalOp)
    → Holds crc32c ops w
    → w.file ++ op_bytes crc32c w.next_seq op ≡ wal_header ++ log_bytes crc32c 0 (ops ++ op ∷ [])
file-part crc32c ops w op h =
    rw (h.file_is, h.seq_is, log_bytes-append crc32c 0 ops op, zero_left (length ops))
      (append_assoc wal_header (log_bytes crc32c 0 ops) (op_bytes crc32c (length ops) op))
  where
    zero_left : (n : ℕ) → 0 + n ≡ n
    zero_left n = omega arith

-- A write that succeeds adds the entry, whether or not the sync does.
pub append_op-Holds :
    (crc32c : List ℕ → ℕ) (ops : List WalOp) (w : Wal) (op : WalOp) (synced : Bool)
    → Holds crc32c ops w
    → Accepted op
    → OpFits op
    → w.next_seq + 1 < 2 ^ 64
    → ((append_op crc32c op whole synced w).0 ≡ (if synced then appended else sync_failed))
      × Holds crc32c (ops ++ op ∷ []) (append_op crc32c op whole synced w).1
unfolding write_and_sync write_record
append_op-Holds crc32c ops w op synced h ok f lt =
    rw (append_op-written crc32c op whole synced w ok) (
      refl,
      record {
        file_is = file-part crc32c ops w op h;
        seq_is = small w.next_seq lt ∙ omega (arith, h.seq_is, length-append ops (op ∷ []));
        few = omega (arith, h.seq_is, length-append ops (op ∷ []), lt);
        fit = All-append ops op h.fit f;
      },
    )
  where
    small : (n : ℕ) → n + 1 < 2 ^ 64 → (n + 1) % 2 ^ 64 ≡ n + 1
    small n h = omega (arith, h)
