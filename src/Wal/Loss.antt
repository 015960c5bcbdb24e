-- ===== src/Wal/Loss.antt =====
-- A log that lost records in its middle, or whose records were changed, is refused.
use sovereign.Prelude.{
  ℕ, zero, suc, none, ◌-◌, ◌+◌, ◌^◌, ◌<◌, ◌≤◌, ◌≡◌, ◌≢◌, refl, ap, ◌∙◌, List, [], ◌∷◌, ◌++◌, true,
  false, length, length-append, ltb, ◌==◌, arith,
}
use mathlib.Core.List.{append_assoc}
use sovereign.Bytes.{All, be_bytes, be_value-be_bytes, length-be_bytes as len}
use sovereign.Wire.Fields.{take-append, behind}
use sovereign.Wal.{max_record_payload_len}
use sovereign.Wal.Replay.{
  Replayed, ReplayError, corrupt, replay_record, replay_failed, pass_fails, seq_gap,
  nothing_replayed, in_sequence, replay_pass, replay_loop, replay_wal, payload_len_of,
}
use sovereign.Wal.Open.{wal_header}
use sovereign.Wal.Encode.{record_bytes, wal_rec_checksummed}
use sovereign.Wal.Decode.{unwrap_checksummed}
use sovereign.Wal.Steps.{replay_pass-record}
use sovereign.Wal.Ops.{WalOp, op_bytes, log_bytes, absorb, absorb_all, OpFits, HasWidth32}
use sovereign.Wal.OpSteps.{seq_of-op, payload_len_of-op}
use sovereign.Wal.Cut.{shift}
use sovereign.Wal.Whole.{zero_right, in_sequence-absorb, shrinks, replay_loop-step}
use sovereign.Wal.Recovers.{replay_wal-header, length-header}

-- After the entries, the replay goes on behind them.
replay_loop-entries :
    (crc32c : List ℕ → ℕ) (ops : List WalOp) (rest : List ℕ) (f seq prev_seq : ℕ) (out : Replayed)
    → HasWidth32 crc32c
    → All OpFits ops
    → seq + length ops < 2 ^ 64
    → in_sequence out.records_verified prev_seq seq ≡ true
    → length (log_bytes crc32c seq ops ++ rest) < f
    → (g : ℕ) × ((last : ℕ) × (length rest < g)
        × (in_sequence (absorb_all seq ops out).records_verified last (seq + length ops) ≡ true)
        × (replay_loop crc32c f out prev_seq (log_bytes crc32c seq ops ++ rest)
            ≡ replay_loop crc32c g (absorb_all seq ops out) last rest))
unfolding log_bytes absorb_all
replay_loop-entries crc32c [] rest f seq prev_seq out wide a lt next fuel =
    (f, (prev_seq, fuel, rw (zero_right seq) next, refl))
replay_loop-entries crc32c (op ∷ ops) rest zero seq prev_seq out wide a lt next fuel =
    absurd (omega (arith, fuel))
replay_loop-entries crc32c (op ∷ ops) rest (suc f) seq prev_seq out wide (fits, a) lt next fuel =
    let body = log_bytes crc32c (seq + 1) ops in
    let apart = append_assoc (op_bytes crc32c seq op) body rest in
    let less : length (body ++ rest) < f =
      shrinks crc32c seq op (body ++ rest) f fits (omega (arith, ap length apart, fuel)) in
    let (g, (last, more, here, same)) =
      replay_loop-entries crc32c ops rest f (seq + 1) seq (absorb seq op out) wide a
        (omega (arith, lt)) (in_sequence-absorb seq op out (omega (arith, lt))) less in
    (
      g,
      (
        last,
        more,
        rw (shift seq (length ops)) here,
        ap (replay_loop crc32c (suc f) out prev_seq) apart
            ∙ (replay_loop-step crc32c f seq prev_seq op (body ++ rest) out wide fits
                  (omega (arith, lt)) next
                ∙ same),
      ),
    )

in_sequence-other :
    (v last seq seq' : ℕ)
    → in_sequence v last seq ≡ true
    → seq' ≢ seq
    → in_sequence v last seq' ≡ false
unfolding in_sequence
in_sequence-other v last seq seq' h ne = grind arith

replay_pass-gap :
    (crc32c : List ℕ → ℕ) (out : Replayed) (prev_seq seq : ℕ) (op : WalOp) (rest : List ℕ)
    → OpFits op
    → seq < 2 ^ 64
    → in_sequence out.records_verified prev_seq seq ≡ false
    → replay_pass crc32c out prev_seq (op_bytes crc32c seq op ++ rest) ≡ pass_fails seq_gap
unfolding replay_pass
replay_pass-gap crc32c out prev_seq seq op rest f lt wrong =
    let bytes = op_bytes crc32c seq op ++ rest in
    let (long, small) = payload_len_of-op crc32c seq op rest f in
    let there : ltb (length bytes) 13 ≡ false = ground (arith, long) in
    let in_bounds : ltb max_record_payload_len (payload_len_of bytes) ≡ false =
      ground (arith, small) in
    rw (there, in_bounds, seq_of-op crc32c seq op rest lt, wrong) refl

replay_loop-fails :
    (crc32c : List ℕ → ℕ) (f : ℕ) (out : Replayed) (prev_seq : ℕ) (bytes : List ℕ) (e : ReplayError)
    → replay_pass crc32c out prev_seq bytes ≡ pass_fails e
    → length bytes < f
    → replay_loop crc32c f out prev_seq bytes ≡ replay_failed e
unfolding replay_loop
replay_loop-fails crc32c zero out prev_seq bytes e h fuel = absurd (omega (arith, fuel))
replay_loop-fails crc32c (suc f) out prev_seq bytes e h fuel = rw (h, replay_loop) refl

-- A replay fails where the pass behind the entries does, in whatever state that is.
replay_wal-fails :
    (crc32c : List ℕ → ℕ) (ops : List WalOp) (rest : List ℕ) (e : ReplayError)
    → HasWidth32 crc32c
    → All OpFits ops
    → length ops < 2 ^ 64
    → ((out : Replayed) (last : ℕ)
        → in_sequence out.records_verified last (length ops) ≡ true
        → replay_pass crc32c out last rest ≡ pass_fails e)
    → replay_wal crc32c (wal_header ++ (log_bytes crc32c 0 ops ++ rest)) ≡ replay_failed e
unfolding in_sequence
replay_wal-fails crc32c ops rest e wide a few fails =
    let body = log_bytes crc32c 0 ops ++ rest in
    let (g, (last, more, here, same)) =
      replay_loop-entries crc32c ops rest (suc (length (wal_header ++ body))) 0 0 nothing_replayed
        wide a (omega (arith, few)) refl (omega (arith, length-header body)) in
    replay_wal-header crc32c body
    ∙ (same
        ∙ replay_loop-fails crc32c g (absorb_all 0 ops nothing_replayed) last rest e
            (fails (absorb_all 0 ops nothing_replayed) last (rw (zero_left (length ops)) at here))
            more)
  where
    zero_left : (n : ℕ) → 0 + n ≡ n
    zero_left n = omega arith

-- A log whose entries are followed by a record of another number than the next one, as where the
-- records between are lost, or one stands there twice, is refused as a gap, whatever stands behind it;
-- where the checksum has 32 bits, the fields have their sizes and the numbers are below 2^64.
pub replay_wal-gap :
    (crc32c : List ℕ → ℕ) (ops : List WalOp) (op : WalOp) (seq : ℕ) (rest : List ℕ)
    → HasWidth32 crc32c
    → All OpFits ops
    → OpFits op
    → length ops < 2 ^ 64
    → seq < 2 ^ 64
    → seq ≢ length ops
    → replay_wal crc32c (wal_header ++ (log_bytes crc32c 0 ops ++ (op_bytes crc32c seq op ++ rest)))
      ≡ replay_failed seq_gap
replay_wal-gap crc32c ops op seq rest wide a f few lt ne =
    replay_wal-fails crc32c ops (op_bytes crc32c seq op ++ rest) seq_gap wide a few λ out last here.
      replay_pass-gap crc32c out last seq op rest f lt
        (in_sequence-other out.records_verified last (length ops) seq here ne)

unwrap-changed :
    (crc32c : List ℕ → ℕ) (body : List ℕ) (sum : ℕ)
    → 0 < length body
    → sum < 2 ^ 32
    → sum ≢ crc32c body
    → unwrap_checksummed crc32c (body ++ be_bytes 4 sum) ≡ none
unfolding unwrap_checksummed
unwrap-changed crc32c body sum pos lt ne =
    let tail = be_bytes 4 sum in
    let size : length (body ++ tail) ≡ length body + 4 =
      omega (arith, length-append body tail, len 4 sum) in
    let there : ltb (length body + 4) 5 ≡ false = ground (arith, pos) in
    let minus : length body + 4 - 4 ≡ length body = omega arith in
    let differs : (sum == crc32c body) ≡ false = ground (arith, ne) in
    rw
      (
        size,
        there,
        minus,
        take-append body tail,
        behind (body ∷ []) tail (length body) (omega arith),
        be_value-be_bytes 4 sum lt,
        differs,
      )
      refl

-- A log whose entries are followed by a complete frame with the next number, in which the stored
-- checksum is not that of the bytes it stands behind, is refused as corrupt, whatever stands behind it;
-- where the bytes are some and no more than a payload may have, both checksums have 32 bits, the
-- entries' fields have their sizes and there are fewer than 2^64 of them.
pub replay_wal-corrupt :
    (crc32c : List ℕ → ℕ) (ops : List WalOp) (body rest : List ℕ) (sum : ℕ)
    → HasWidth32 crc32c
    → All OpFits ops
    → length ops < 2 ^ 64
    → 0 < length body
    → length body + 4 ≤ max_record_payload_len
    → sum < 2 ^ 32
    → sum ≢ crc32c body
    → replay_wal crc32c (
        wal_header
        ++ (log_bytes crc32c 0 ops
            ++ (record_bytes (length ops) wal_rec_checksummed (body ++ be_bytes 4 sum) ++ rest)))
      ≡ replay_failed corrupt
unfolding replay_record
replay_wal-corrupt crc32c ops body rest sum wide a few pos small lt ne =
    let payload = body ++ be_bytes 4 sum in
    replay_wal-fails crc32c ops (record_bytes (length ops) wal_rec_checksummed payload ++ rest)
      corrupt wide a few
      λ out last here.
        replay_pass-record crc32c out last (length ops) wal_rec_checksummed payload rest here few
          (omega arith) (omega (arith, length-append body (be_bytes 4 sum), len 4 sum, small))
        ∙ rw (unwrap-changed crc32c body sum pos lt ne) refl
