-- ===== src/Wal/Ops.antt =====
-- The log as a list of what was put into it: what each entry writes, and what a replay makes of it.
use sovereign.Prelude.{
  ℕ, ◌+◌, ◌^◌, ◌<◌, ◌≤◌, ◌≡◌, refl, inl, inr, List, [], ◌∷◌, ◌++◌, length, length-append,
  if◌then◌else◌, Bool-cases, arith,
}
use sovereign.Bytes.{be_bytes, length-be_bytes as len}
use sovereign.Wal.{WalMutation, WalCheckpoint, max_record_payload_len}
use sovereign.Wal.Encode.{
  frame_checksummed, put_mutation_v2_payload, put_checkpoint_v2_payload, put_clock_advance_payload,
  encode_mutation_v2_checksummed, encode_checkpoint_checksummed, encode_clock_advance_checksummed,
  wal_rec_checkpoint, wal_rec_checkpoint_v2, wal_rec_mutation_v2, wal_rec_clock_advance,
  wal_rec_checksummed,
}
use sovereign.Wal.Replay.{
  Replayed, replay_mutation, replay_advance, replay_checkpoint, replay_checkpoint_v2, decoded_with,
  dispatch, count_record, replay_record,
}
use sovereign.Wal.Payloads.{
  MutationFits, CheckpointFits, recorded_mutation, recorded_checkpoint, recorded_checkpoint_v2,
  length-put_mutation, decode-put_mutation, decode-put_advance, decode-checkpoint,
  decode-put_checkpoint_v2, length-put_checkpoint_v2_le,
}
use sovereign.Wal.Frames.{unwrap-framed}

pub data WalOp : Type 0 where
  put_mutation : WalMutation → WalOp
  put_checkpoint : WalCheckpoint → WalOp
  put_advance : ℕ → WalOp

-- The record that the append of an entry writes.
unfoldable pub op_bytes : (List ℕ → ℕ) → ℕ → WalOp → List ℕ
op_bytes crc32c seq (put_mutation m) = encode_mutation_v2_checksummed crc32c seq m
op_bytes crc32c seq (put_checkpoint c) = encode_checkpoint_checksummed crc32c seq c
op_bytes crc32c seq (put_advance a) = encode_clock_advance_checksummed crc32c seq a

-- What a replay makes of it.
unfoldable pub absorb : ℕ → WalOp → Replayed → Replayed
absorb seq (put_mutation m) out =
    replay_mutation wal_rec_mutation_v2 (recorded_mutation m) seq (count_record seq out)
absorb seq (put_advance a) out = replay_advance a seq (count_record seq out)
absorb seq (put_checkpoint c) out =
    if c.has_cut_seq
    then replay_checkpoint_v2 (recorded_checkpoint_v2 c) seq (count_record seq out)
    else replay_checkpoint (recorded_checkpoint c) seq (count_record seq out)

unfoldable pub log_bytes : (List ℕ → ℕ) → ℕ → List WalOp → List ℕ
log_bytes crc32c seq [] = []
log_bytes crc32c seq (op ∷ ops) = op_bytes crc32c seq op ++ log_bytes crc32c (seq + 1) ops

unfoldable pub absorb_all : ℕ → List WalOp → Replayed → Replayed
absorb_all seq [] out = out
absorb_all seq (op ∷ ops) out = absorb_all (seq + 1) ops (absorb seq op out)

abbrev pub OpFits : WalOp → Type 0
OpFits (put_mutation m) = MutationFits m
OpFits (put_checkpoint c) = CheckpointFits c
OpFits (put_advance a) = a < 2 ^ 64

-- The type and the payload inside the frame
unfoldable pub op_type : WalOp → ℕ
op_type (put_mutation m) = wal_rec_mutation_v2
op_type (put_checkpoint c) = if c.has_cut_seq then wal_rec_checkpoint_v2 else wal_rec_checkpoint
op_type (put_advance a) = wal_rec_clock_advance

unfoldable pub op_payload : WalOp → List ℕ
op_payload (put_mutation m) = put_mutation_v2_payload m
op_payload (put_checkpoint c) =
    if c.has_cut_seq
    then put_checkpoint_v2_payload c
    else c.merkle_root ++ be_bytes 8 c.lamport_high
op_payload (put_advance a) = put_clock_advance_payload a

pub op_bytes-framed :
    (crc32c : List ℕ → ℕ) (seq : ℕ) (op : WalOp)
    → op_bytes crc32c seq op ≡ frame_checksummed crc32c seq (op_type op) (op_payload op)
unfolding op_bytes op_type op_payload encode_mutation_v2_checksummed encode_checkpoint_checksummed
    encode_clock_advance_checksummed
op_bytes-framed crc32c seq (put_mutation m) = refl
op_bytes-framed crc32c seq (put_advance a) = refl
op_bytes-framed crc32c seq (put_checkpoint c) = elim (Bool-cases c.has_cut_seq) [
  | inl e ↦ rw e refl
  | inr e ↦ rw e refl
]

op_type-lt : (op : WalOp) → op_type op < 256
unfolding op_type
op_type-lt (put_mutation m) = omega arith
op_type-lt (put_advance a) = omega arith
op_type-lt (put_checkpoint c) = elim (Bool-cases c.has_cut_seq) [
  | inl e ↦ rw e (omega arith)
  | inr e ↦ rw e (omega arith)
]

pub length-op_payload_le :
    (op : WalOp) → OpFits op → length (op_payload op) + 5 ≤ max_record_payload_len
unfolding op_payload put_clock_advance_payload
length-op_payload_le (put_mutation m) f = omega (arith, length-put_mutation m f, f.size_le)
length-op_payload_le (put_advance a) f = omega (arith, len 8 a)
length-op_payload_le (put_checkpoint c) f = elim (Bool-cases c.has_cut_seq) [
  | inl e ↦ simp e (omega (arith, length-put_checkpoint_v2_le c f))
  | inr e ↦ rw e (
      omega (
        arith,
        length-append c.merkle_root (be_bytes 8 c.lamport_high),
        len 8 c.lamport_high,
        f.root_len,
      ))
]

dispatch-op :
    (seq : ℕ) (op : WalOp) (out : Replayed)
    → OpFits op
    → dispatch (op_type op) (op_payload op) seq (count_record seq out) ≡ inr (absorb seq op out)
unfolding dispatch op_type op_payload absorb decoded_with
dispatch-op seq (put_mutation m) out f = rw (decode-put_mutation m f) refl
dispatch-op seq (put_advance a) out f = rw (decode-put_advance a f) refl
dispatch-op seq (put_checkpoint c) out f = elim (Bool-cases c.has_cut_seq) [
  | inl e ↦ simp (e, decode-put_checkpoint_v2 c f)
  | inr e ↦ simp (e, decode-checkpoint c f)
]

-- The checksum has 32 bits.
abbrev pub HasWidth32 : (List ℕ → ℕ) → Type 0
HasWidth32 crc32c = (bytes : List ℕ) → crc32c bytes < 2 ^ 32

pub replay_record-op :
    (crc32c : List ℕ → ℕ) (seq : ℕ) (op : WalOp) (out : Replayed)
    → HasWidth32 crc32c
    → OpFits op
    → let body = be_bytes 1 (op_type op) ++ op_payload op in
      replay_record crc32c wal_rec_checksummed (body ++ be_bytes 4 (crc32c body)) seq out
      ≡ inr (absorb seq op out)
unfolding replay_record
replay_record-op crc32c seq op out wide f =
    rw
      (
        unwrap-framed crc32c (op_type op) (op_payload op) (op_type-lt op)
            (wide (be_bytes 1 (op_type op) ++ op_payload op)),
        dispatch-op seq op out f,
      )
      refl
