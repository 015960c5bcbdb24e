-- ===== src/Wal/Torn.antt =====
-- A record of which only a part reached the file ends the log, for the replay and for the scan.
use sovereign.Prelude.{
  ℕ, ◌+◌, ◌^◌, ◌<◌, ◌≤◌, ◌≡◌, refl, sym, ap, ◌∙◌, inl, inr, List, [], ◌++◌, true, false, length,
  take, ltb, Bool-cases, arith,
}
use mathlib.Core.List.{append-nil}
use sovereign.Bytes.{be_value}
use sovereign.Wire.Fields.{slice-take, length-take_lt}
use sovereign.Wal.{max_record_payload_len}
use sovereign.Wal.Replay.{Replayed, log_ends, in_sequence, replay_pass, seq_of, payload_len_of}
use sovereign.Wal.Open.{is_complete}
use sovereign.Wal.Ops.{WalOp, op_bytes, OpFits}
use sovereign.Wal.OpSteps.{seq_of-op, payload_len_of-op}

is_complete-longer :
    (bytes : List ℕ) (k : ℕ)
    → length bytes ≡ 13 + payload_len_of bytes + k
    → is_complete bytes ≡ true
unfolding is_complete
is_complete-longer bytes k h =
    rw (h, no_end (payload_len_of bytes) k, whole_payload (payload_len_of bytes) k) refl
  where
    no_end : (n k : ℕ) → ltb (13 + n + k) 13 ≡ false
    no_end n k = ground arith

    whole_payload : (n k : ℕ) → ltb (13 + n + k) (13 + n) ≡ false
    whole_payload n k = ground arith

pub is_complete-op :
    (crc32c : List ℕ → ℕ) (seq : ℕ) (op : WalOp) (rest : List ℕ)
    → OpFits op
    → is_complete (op_bytes crc32c seq op ++ rest) ≡ true
is_complete-op crc32c seq op rest f =
    is_complete-longer (op_bytes crc32c seq op ++ rest) (length rest)
      (payload_len_of-op crc32c seq op rest f).0

-- A header that is there, and a payload of which some is missing
module _ (bytes : List ℕ) (n : ℕ) (h : n < length bytes)
    (whole : length bytes ≡ 13 + payload_len_of bytes) where
  have : length (take n bytes) ≡ n
  have = length-take_lt n bytes h

  same_len : 13 ≤ n → payload_len_of (take n bytes) ≡ payload_len_of bytes
  same_len long = ap be_value (slice-take n 9 4 bytes (omega (arith, long)))

  same_seq : 13 ≤ n → seq_of (take n bytes) ≡ seq_of bytes
  same_seq long = ap be_value (slice-take n 0 8 bytes (omega (arith, long)))

  missing : 13 ≤ n → ltb n (13 + payload_len_of bytes) ≡ true
  missing long = ground (arith, h, whole)

  is_complete-torn : is_complete (take n bytes) ≡ false
  unfolding is_complete
  is_complete-torn = elim (Bool-cases (ltb n 13)) [
    | inl e ↦ rw (have, e) refl
    | inr e ↦ let long : 13 ≤ n = ground arith in rw (have, e, same_len long, missing long) refl
  ]

  replay_pass-torn :
      (crc32c : List ℕ → ℕ) (out : Replayed) (prev_seq : ℕ)
      → payload_len_of bytes ≤ max_record_payload_len
      → in_sequence out.records_verified prev_seq (seq_of bytes) ≡ true
      → replay_pass crc32c out prev_seq (take n bytes) ≡ log_ends
  unfolding replay_pass
  replay_pass-torn crc32c out prev_seq small next = elim (Bool-cases (ltb n 13)) [
    | inl e ↦ rw (have, e) refl
    | inr e ↦
        let long : 13 ≤ n = ground arith in
        let in_bounds : ltb max_record_payload_len (payload_len_of bytes) ≡ false = ground arith in
        rw (have, e, same_len long, in_bounds, same_seq long, next, missing long) refl
  ]

module _ (crc32c : List ℕ → ℕ) (seq : ℕ) (op : WalOp) (f : OpFits op) (n : ℕ)
    (h : n < length (op_bytes crc32c seq op)) where
  measured :
      (length (op_bytes crc32c seq op) ≡ 13 + payload_len_of (op_bytes crc32c seq op))
      × (payload_len_of (op_bytes crc32c seq op) ≤ max_record_payload_len)
  measured =
      let (a, b) = payload_len_of-op crc32c seq op [] f in
      let e = append-nil (op_bytes crc32c seq op) in (omega (arith, rw e at a), rw e at b)

  pub is_complete-cut : is_complete (take n (op_bytes crc32c seq op)) ≡ false
  is_complete-cut = is_complete-torn (op_bytes crc32c seq op) n h measured.0

  pub replay_pass-cut :
      (out : Replayed) (prev_seq : ℕ)
      → seq < 2 ^ 64
      → in_sequence out.records_verified prev_seq seq ≡ true
      → replay_pass crc32c out prev_seq (take n (op_bytes crc32c seq op)) ≡ log_ends
  replay_pass-cut out prev_seq seq_lt next =
      let at_seq : seq_of (op_bytes crc32c seq op) ≡ seq =
        ap seq_of (sym (append-nil (op_bytes crc32c seq op))) ∙ seq_of-op crc32c seq op [] seq_lt in
      replay_pass-torn (op_bytes crc32c seq op) n h measured.0 crc32c out prev_seq measured.1
        (rw at_seq next)
