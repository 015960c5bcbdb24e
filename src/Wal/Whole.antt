-- ===== src/Wal/Whole.antt =====
-- The replay and the scan of a log that ends in a part of a record.
use sovereign.Prelude.{
  ℕ, zero, suc, ◌+◌, ◌%◌, ◌^◌, ◌<◌, ◌≡◌, refl, ap, ◌∙◌, List, [], ◌∷◌, ◌++◌, true, some, length,
  length-append, take, ltb, if◌then◌else◌, arith,
}
use mathlib.Core.List.{append_assoc}
use sovereign.Bytes.{All}
use sovereign.Wal.Replay.{
  Replayed, replayed, count_record, replay_mutation, replay_advance, replay_checkpoint,
  replay_checkpoint_v2, in_sequence, replay_loop, payload_len_of,
}
use sovereign.Wal.Open.{Scan, scan_loop, scan_record}
use sovereign.Wal.Ops.{
  WalOp, put_mutation, put_checkpoint, put_advance, op_bytes, absorb, log_bytes, absorb_all, OpFits,
  HasWidth32,
}
use sovereign.Wal.OpSteps.{seq_of-op, payload_len_of-op, behind-op, replay_pass-op}
use sovereign.Wal.Torn.{is_complete-op, is_complete-cut, replay_pass-cut}

pub records_verified-absorb :
    (seq : ℕ) (op : WalOp) (out : Replayed)
    → (absorb seq op out).records_verified ≡ out.records_verified + 1
unfolding absorb count_record replay_mutation replay_advance replay_checkpoint replay_checkpoint_v2
records_verified-absorb seq (put_mutation m) out = refl
records_verified-absorb seq (put_advance a) out = refl
records_verified-absorb seq (put_checkpoint c) out = ground arith

in_sequence-next : (v seq : ℕ) → seq + 1 < 2 ^ 64 → in_sequence (v + 1) seq (seq + 1) ≡ true
unfolding in_sequence
in_sequence-next v seq h = ground arith

pub zero_right : (n : ℕ) → n + 0 ≡ n
zero_right n = omega arith

pub in_sequence-absorb :
    (seq : ℕ) (op : WalOp) (out : Replayed)
    → seq + 1 < 2 ^ 64
    → in_sequence (absorb seq op out).records_verified seq (seq + 1) ≡ true
in_sequence-absorb seq op out h =
    rw (records_verified-absorb seq op out) (in_sequence-next out.records_verified seq h)

pub shrinks :
    (crc32c : List ℕ → ℕ) (seq : ℕ) (op : WalOp) (rest : List ℕ) (f : ℕ)
    → OpFits op
    → length (op_bytes crc32c seq op ++ rest) < suc f
    → length rest < f
shrinks crc32c seq op rest f fits h = omega (arith, (payload_len_of-op crc32c seq op rest fits).0)

module _ (crc32c : List ℕ → ℕ) where
  pub replay_loop-step :
      (f seq prev_seq : ℕ) (op : WalOp) (rest : List ℕ) (out : Replayed)
      → HasWidth32 crc32c
      → OpFits op
      → seq < 2 ^ 64
      → in_sequence out.records_verified prev_seq seq ≡ true
      → replay_loop crc32c (suc f) out prev_seq (op_bytes crc32c seq op ++ rest)
        ≡ replay_loop crc32c f (absorb seq op out) seq rest
  unfolding replay_loop
  replay_loop-step f seq prev_seq op rest out wide fits seq_lt next =
      rw
        (
          replay_pass-op crc32c seq op rest out prev_seq wide fits seq_lt next,
          replay_loop,
          seq_of-op crc32c seq op rest seq_lt,
          behind-op crc32c seq op rest fits,
        )
        refl

  replay_loop-ends :
      (f seq prev_seq : ℕ) (op : WalOp) (n : ℕ) (out : Replayed)
      → OpFits op
      → n < length (op_bytes crc32c seq op)
      → seq < 2 ^ 64
      → in_sequence out.records_verified prev_seq seq ≡ true
      → replay_loop crc32c (suc f) out prev_seq (take n (op_bytes crc32c seq op)) ≡ replayed out
  unfolding replay_loop
  replay_loop-ends f seq prev_seq op n out fits lt seq_lt next =
      rw (replay_pass-cut crc32c seq op fits n lt out prev_seq seq_lt next, replay_loop) refl

  -- Entries and a part of another, of number `at`, are replayed as the entries.
  pub replay_loop-log :
      (ops : List WalOp) (last : WalOp) (n f at seq prev_seq : ℕ) (out : Replayed)
      → HasWidth32 crc32c
      → All OpFits ops
      → OpFits last
      → n < length (op_bytes crc32c at last)
      → seq + length ops ≡ at
      → at < 2 ^ 64
      → in_sequence out.records_verified prev_seq seq ≡ true
      → length (log_bytes crc32c seq ops ++ take n (op_bytes crc32c at last)) < f
      → replay_loop crc32c f out prev_seq
          (log_bytes crc32c seq ops ++ take n (op_bytes crc32c at last))
        ≡ replayed (absorb_all seq ops out)
  unfolding log_bytes absorb_all
  replay_loop-log ops last n zero at seq prev_seq out wide a l lt here at_lt next fuel =
      absurd (omega (arith, fuel))
  replay_loop-log [] last n (suc f) at seq prev_seq out wide a l lt here at_lt next fuel =
      replay_loop-ends f at prev_seq last n out l lt at_lt (rw (← here) (rw (zero_right seq) next))
  replay_loop-log (op ∷ ops) last n (suc f) at seq prev_seq out wide (fits, a) l lt here at_lt next
        fuel =
      let tail = take n (op_bytes crc32c at last) in
      let rest = log_bytes crc32c (seq + 1) ops ++ tail in
      let apart : (op_bytes crc32c seq op ++ log_bytes crc32c (seq + 1) ops) ++ tail
          ≡ op_bytes crc32c seq op ++ rest =
        append_assoc (op_bytes crc32c seq op) (log_bytes crc32c (seq + 1) ops) tail in
      let less : length rest < f =
        shrinks crc32c seq op rest f fits (omega (arith, ap length apart, fuel)) in
      ap (replay_loop crc32c (suc f) out prev_seq) apart
      ∙ (replay_loop-step f seq prev_seq op rest out wide fits (omega (arith, here, at_lt)) next
          ∙ replay_loop-log ops last n f at (seq + 1) seq (absorb seq op out) wide a l lt
              (omega (arith, here)) at_lt
              (in_sequence-absorb seq op out (omega (arith, here, at_lt))) less)

  scan_record-op :
      (seq : ℕ) (op : WalOp) (rest : List ℕ) (c g : ℕ)
      → OpFits op
      → seq + 1 < 2 ^ 64
      → scan_record
          (op_bytes crc32c seq op ++ rest)
          (record { next_seq = seq; count = c; last_good = g })
        ≡ record {
          next_seq = seq + 1;
          count = c + 1;
          last_good = g + length (op_bytes crc32c seq op);
        }
  unfolding scan_record
  scan_record-op seq op rest c g fits lt =
      rw (seq_of-op crc32c seq op rest (omega (arith, lt)), counted seq lt, measured) refl
    where
      counted : (n : ℕ) → n + 1 < 2 ^ 64 → (if ltb n n then n else (n + 1) % 2 ^ 64) ≡ n + 1
      counted n h = ground arith

      measured :
          13 + payload_len_of (op_bytes crc32c seq op ++ rest) ≡ length (op_bytes crc32c seq op)
      measured = omega (
        arith,
        (payload_len_of-op crc32c seq op rest fits).0,
        length-append (op_bytes crc32c seq op) rest,
      )

  scan_loop-step :
      (f seq : ℕ) (op : WalOp) (rest : List ℕ) (s : Scan)
      → OpFits op
      → scan_loop (suc f) s (op_bytes crc32c seq op ++ rest)
        ≡ scan_loop f (scan_record (op_bytes crc32c seq op ++ rest) s) rest
  unfolding scan_loop
  scan_loop-step f seq op rest s fits =
      rw (is_complete-op crc32c seq op rest fits, scan_loop, behind-op crc32c seq op rest fits) refl

  -- The same for the scan, which finds the next number and the end of what is whole.
  pub scan_loop-log :
      (ops : List WalOp) (last : WalOp) (n f at seq c g : ℕ)
      → All OpFits ops
      → OpFits last
      → n < length (op_bytes crc32c at last)
      → seq + length ops ≡ at
      → at < 2 ^ 64
      → length (log_bytes crc32c seq ops ++ take n (op_bytes crc32c at last)) < f
      → scan_loop f
          (record { next_seq = seq; count = c; last_good = g })
          (log_bytes crc32c seq ops ++ take n (op_bytes crc32c at last))
        ≡ some (record {
          next_seq = at;
          count = c + length ops;
          last_good = g + length (log_bytes crc32c seq ops);
        })
  unfolding scan_loop log_bytes
  scan_loop-log ops last n zero at seq c g a l lt here at_lt fuel = absurd (omega (arith, fuel))
  scan_loop-log [] last n (suc f) at seq c g a l lt here at_lt fuel =
      rw (is_complete-cut crc32c at last l n lt, scan_loop, ← here)
        (rw (zero_right seq, zero_right c, zero_right g) refl)
  scan_loop-log (op ∷ ops) last n (suc f) at seq c g (fits, a) l lt here at_lt fuel =
      let tail = take n (op_bytes crc32c at last) in
      let body = log_bytes crc32c (seq + 1) ops in
      let rest = body ++ tail in
      let apart : (op_bytes crc32c seq op ++ body) ++ tail ≡ op_bytes crc32c seq op ++ rest =
        append_assoc (op_bytes crc32c seq op) body tail in
      let less : length rest < f =
        shrinks crc32c seq op rest f fits (omega (arith, ap length apart, fuel)) in
      let sum : g + length (op_bytes crc32c seq op) + length body
          ≡ g + length (op_bytes crc32c seq op ++ body) =
        omega (arith, length-append (op_bytes crc32c seq op) body) in
      let counted : c + 1 + length ops ≡ c + length (op ∷ ops) = omega arith in
      ap (scan_loop (suc f) (record { next_seq = seq; count = c; last_good = g })) apart
      ∙ (scan_loop-step f seq op rest (record { next_seq = seq; count = c; last_good = g }) fits
          ∙ rw (scan_record-op seq op rest c g fits (omega (arith, here, at_lt)), ← sum, ← counted)
              (scan_loop-log ops last n f at (seq + 1) (c + 1) (g + length (op_bytes crc32c seq op))
                a l lt (omega (arith, here)) at_lt less))
