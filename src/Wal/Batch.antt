-- ===== src/Wal/Batch.antt =====
-- `AppendMutations`: what a batch leaves in the log, and what it returns.
use sovereign.Prelude.{
  ℕ, ◌+◌, ◌^◌, ◌<◌, ◌≡◌, refl, sym, ap, ◌∙◌, List, [], ◌∷◌, ◌++◌, Bool, true, false, length,
  length-append, take, if◌then◌else◌, arith,
}
use mathlib.Core.List.{append_assoc, append-nil}
use sovereign.Bytes.{All}
use sovereign.Wal.{WalMutation, validate_v2}
use sovereign.Wal.Encode.{encode_mutation_v2_checksummed}
use sovereign.Wal.Append.{
  Wal, Write, whole, short, batch_appended, batch_failed_at, batch_sync_failed,
  append_mutations_from, append_mutations, append_mutation, write_record, write_and_sync,
}
use sovereign.Wal.Payloads.{MutationFits}
use sovereign.Wal.Ops.{WalOp, put_mutation, op_bytes}
use sovereign.Wal.Cut.{shift}
use sovereign.Wal.Whole.{zero_right}
use sovereign.Wal.Holds.{Holds, append_op, append_op-Holds}

-- A mutation that is accepted and whose fields have their sizes
abbrev pub IsGood : WalMutation → Type 0
IsGood m = (validate_v2 m ≡ true) × MutationFits m

abbrev pub all_whole : List WalMutation → List (WalMutation × Write)
all_whole [] = []
all_whole (m ∷ ms) = (m, whole) ∷ all_whole ms

abbrev pub put_all : List WalMutation → List WalOp
put_all [] = []
put_all (m ∷ ms) = put_mutation m ∷ put_all ms

written : (List ℕ → ℕ) → WalMutation → Wal → Wal
written crc32c m w = write_record (encode_mutation_v2_checksummed crc32c w.next_seq m) whole w

written-op :
    (crc32c : List ℕ → ℕ) (m : WalMutation) (w : Wal)
    → validate_v2 m ≡ true
    → (append_op crc32c (put_mutation m) whole true w).1 ≡ written crc32c m w
unfolding written append_op append_mutation write_and_sync
written-op crc32c m w h = rw h refl

written-Holds :
    (crc32c : List ℕ → ℕ) (ops : List WalOp) (m : WalMutation) (w : Wal)
    → Holds crc32c ops w
    → IsGood m
    → w.next_seq + 1 < 2 ^ 64
    → Holds crc32c (ops ++ put_mutation m ∷ []) (written crc32c m w)
written-Holds crc32c ops m w h (ok, f) lt =
    rw (← written-op crc32c m w ok) (append_op-Holds crc32c ops w (put_mutation m) true h ok f lt).1

written_all : (List ℕ → ℕ) → List WalMutation → Wal → Wal
written_all crc32c [] w = w
written_all crc32c (m ∷ ms) w = written_all crc32c ms (written crc32c m w)

written_all-Holds :
    (crc32c : List ℕ → ℕ) (good : List WalMutation) (ops : List WalOp) (w : Wal)
    → Holds crc32c ops w
    → All IsGood good
    → w.next_seq + length good < 2 ^ 64
    → Holds crc32c (ops ++ put_all good) (written_all crc32c good w)
unfolding written_all
written_all-Holds crc32c [] ops w h a lt = rw (append-nil ops) h
written_all-Holds crc32c (m ∷ good) ops w h (g, a) lt =
    let h1 = written-Holds crc32c ops m w h g (omega (arith, lt)) in
    rw (← append_assoc ops (put_mutation m ∷ []) (put_all good)) (
      written_all-Holds crc32c good (ops ++ put_mutation m ∷ []) (written crc32c m w) h1 a
        (omega (arith, lt, h.seq_is, h1.seq_is, length-append ops (put_mutation m ∷ []))))

module _ (crc32c : List ℕ → ℕ) (synced : Bool) where
  step :
      (i : ℕ) (m : WalMutation) (rest : List (WalMutation × Write)) (w : Wal)
      → validate_v2 m ≡ true
      → append_mutations_from crc32c i ((m, whole) ∷ rest) synced w
        ≡ append_mutations_from crc32c (i + 1) rest synced (written crc32c m w)
  unfolding append_mutations_from written
  step i m rest w h = rw (h, append_mutations_from) refl

  -- The mutations in front are written, and the loop goes on behind them.
  through :
      (good : List WalMutation) (rest : List (WalMutation × Write)) (i : ℕ) (w : Wal)
      → All IsGood good
      → append_mutations_from crc32c i (all_whole good ++ rest) synced w
        ≡ append_mutations_from crc32c (i + length good) rest synced (written_all crc32c good w)
  unfolding written_all
  through [] rest i w a = rw (zero_right i) refl
  through (m ∷ good) rest i w (g, a) =
      step i m (all_whole good ++ rest) w g.0
      ∙ (through good rest (i + 1) (written crc32c m w) a
          ∙ ap
              (λ (k : ℕ).
                append_mutations_from crc32c k rest synced
                  (written_all crc32c good (written crc32c m w)))
              (sym (shift i (length good))))

-- A batch of mutations that are accepted, each written whole, is in the log, in its order, behind what
-- the log held, whether or not the sync succeeds, which the result tells. Where one of them is not
-- accepted, the result is its index and the log holds those in front of it; and where the write of one
-- fails, the result is its index and the file has those in front of it and the part that was written.
-- The mutations' fields have their sizes, and the numbers stay below 2^64.
pub append_mutations-Holds :
    (crc32c : List ℕ → ℕ) (good : List WalMutation) (m bad : WalMutation) (r : Write) (n : ℕ)
    (rest : List (WalMutation × Write)) (ops : List WalOp) (synced : Bool) (w : Wal)
    → Holds crc32c ops w
    → All IsGood good
    → validate_v2 m ≡ true
    → validate_v2 bad ≡ false
    → w.next_seq + length good < 2 ^ 64
    → (w' : Wal) × Holds crc32c (ops ++ put_all good) w'
      × (append_mutations crc32c (all_whole good) synced w
          ≡ (if synced then batch_appended else batch_sync_failed, w'))
      × (append_mutations crc32c (all_whole good ++ (bad, r) ∷ rest) synced w
          ≡ (batch_failed_at (length good), w'))
      × (append_mutations crc32c (all_whole good ++ (m, short n) ∷ rest) synced w ≡ (
        batch_failed_at (length good),
        record w' { file = w'.file ++ take n (op_bytes crc32c w'.next_seq (put_mutation m)) },
      ))
unfolding append_mutations append_mutations_from write_record op_bytes
append_mutations-Holds crc32c good m bad r n rest ops synced w h a ok refused lt =
    let at = λ (tail : List (WalMutation × Write)).
      through crc32c synced good tail 0 w a
      ∙ ap (λ (k : ℕ). append_mutations_from crc32c k tail synced (written_all crc32c good w))
          (zero_left (length good)) in
    (
      written_all crc32c good w,
      written_all-Holds crc32c good ops w h a lt,
      ap (λ (ms : List (WalMutation × Write)). append_mutations_from crc32c 0 ms synced w)
            (sym (append-nil (all_whole good)))
          ∙ at [],
      at ((bad, r) ∷ rest) ∙ rw (refused, append_mutations_from) refl,
      at ((m, short n) ∷ rest) ∙ rw (ok, append_mutations_from) refl,
    )
  where
    zero_left : (n : ℕ) → 0 + n ≡ n
    zero_left n = omega arith
