-- ===== src/Wal/OpSteps.antt =====
-- One pass of the replay, and the scan's test, over the record of an entry.
use sovereign.Prelude.{
  ℕ, ◌+◌, ◌^◌, ◌<◌, ◌≤◌, ◌≡◌, refl, List, ◌++◌, true, length, length-append, arith,
}
use sovereign.Bytes.{be_bytes, length-be_bytes as len}
use sovereign.Wal.{max_record_payload_len}
use sovereign.Wal.Encode.{record_bytes, frame_checksummed, wal_rec_checksummed}
use sovereign.Wal.Replay.{
  Replayed, record_done, in_sequence, replay_pass, seq_of, payload_len_of, behind_record,
}
use sovereign.Wal.Steps.{
  replay_pass-record, seq_of-record, behind-record, payload_len_of-record, length-record,
}
use sovereign.Wal.Ops.{
  WalOp, op_bytes, absorb, OpFits, HasWidth32, op_type, op_payload, op_bytes-framed,
  length-op_payload_le, replay_record-op,
}

module _ (crc32c : List ℕ → ℕ) (seq : ℕ) (op : WalOp) (rest : List ℕ) where
  payload : List ℕ
  payload = let body = be_bytes 1 (op_type op) ++ op_payload op in body ++ be_bytes 4 (crc32c body)

  length-payload : OpFits op → length payload ≤ max_record_payload_len
  unfolding payload
  length-payload f =
      let body = be_bytes 1 (op_type op) ++ op_payload op in
      omega (
        arith,
        length-append body (be_bytes 4 (crc32c body)),
        length-append (be_bytes 1 (op_type op)) (op_payload op),
        len 1 (op_type op),
        len 4 (crc32c body),
        length-op_payload_le op f,
      )

  -- An entry's record is a frame.
  op_bytes-record : op_bytes crc32c seq op ≡ record_bytes seq wal_rec_checksummed payload
  unfolding payload frame_checksummed
  op_bytes-record = op_bytes-framed crc32c seq op

  pub seq_of-op : seq < 2 ^ 64 → seq_of (op_bytes crc32c seq op ++ rest) ≡ seq
  seq_of-op h = rw op_bytes-record (seq_of-record seq wal_rec_checksummed payload rest h)

  pub behind-op : OpFits op → behind_record (op_bytes crc32c seq op ++ rest) ≡ rest
  behind-op f =
      rw op_bytes-record (behind-record seq wal_rec_checksummed payload rest (length-payload f))

  pub payload_len_of-op :
      OpFits op
      → (length (op_bytes crc32c seq op ++ rest)
          ≡ 13 + payload_len_of (op_bytes crc32c seq op ++ rest) + length rest)
        × (payload_len_of (op_bytes crc32c seq op ++ rest) ≤ max_record_payload_len)
  payload_len_of-op f =
      let n = payload_len_of-record seq wal_rec_checksummed payload rest (length-payload f) in
      rw op_bytes-record
        (rw n (length-record seq wal_rec_checksummed payload rest), rw n (length-payload f))

  -- One pass of the replay over an entry's record makes of it what it should.
  pub replay_pass-op :
      (out : Replayed) (prev_seq : ℕ)
      → HasWidth32 crc32c
      → OpFits op
      → seq < 2 ^ 64
      → in_sequence out.records_verified prev_seq seq ≡ true
      → replay_pass crc32c out prev_seq (op_bytes crc32c seq op ++ rest)
        ≡ record_done (absorb seq op out)
  unfolding payload
  replay_pass-op out prev_seq wide f seq_lt next =
      rw
        (
          op_bytes-record,
          replay_pass-record crc32c out prev_seq seq wal_rec_checksummed payload rest next seq_lt
              (omega arith) (length-payload f),
          replay_record-op crc32c seq op out wide f,
        )
        refl
