-- ===== src/Wal/Steps.antt =====
-- The log as a list of what was put into it, and one pass of the replay over a record of it.
use sovereign.Prelude.{
  ℕ, ◌+◌, ◌^◌, ◌<◌, ◌≤◌, ◌≡◌, refl, ap, ◌∙◌, inl, inr, List, [], ◌∷◌, ◌++◌, drop, true, false,
  length, length-append, ltb, arith,
}
use sovereign.Bytes.{be_bytes, length-be_bytes as len}
use sovereign.Wire.Fields.{slice, field_at, be_field_at, length-flat, behind, flat}
use sovereign.Wal.{max_record_payload_len}
use sovereign.Wal.Encode.{record_bytes}
use sovereign.Wal.Replay.{
  Replayed, pass_fails, record_done, replay_record, in_sequence, seq_of, type_of, payload_len_of,
  behind_record, replay_pass,
}

-- The bytes of a record in front of others
record_bytes-append :
    (seq t : ℕ) (p rest : List ℕ)
    → record_bytes seq t p ++ rest
      ≡ flat (be_bytes 8 seq ∷ be_bytes 1 t ∷ be_bytes 4 (length p) ∷ []) (p ++ rest)
unfolding record_bytes be_bytes
record_bytes-append seq t p rest = refl

module _ (seq t : ℕ) (p rest : List ℕ) where
  pub seq_of-record : seq < 2 ^ 64 → seq_of (record_bytes seq t p ++ rest) ≡ seq
  seq_of-record h =
      ap seq_of (record_bytes-append seq t p rest)
      ∙ be_field_at [] seq (flat (be_bytes 1 t ∷ be_bytes 4 (length p) ∷ []) (p ++ rest)) 0 8 refl h

  type_of-record : t < 256 → type_of (record_bytes seq t p ++ rest) ≡ t
  type_of-record h =
      ap type_of (record_bytes-append seq t p rest)
      ∙ be_field_at (be_bytes 8 seq ∷ []) t (be_bytes 4 (length p) ++ (p ++ rest)) 8 1
          (omega (arith, len 8 seq)) h

  pub payload_len_of-record :
      length p ≤ max_record_payload_len → payload_len_of (record_bytes seq t p ++ rest) ≡ length p
  payload_len_of-record h =
      ap payload_len_of (record_bytes-append seq t p rest)
      ∙ be_field_at (be_bytes 8 seq ∷ be_bytes 1 t ∷ []) (length p) (p ++ rest) 9 4
          (omega (arith, len 8 seq, len 1 t)) (omega (arith, h))

  pub length-record : length (record_bytes seq t p ++ rest) ≡ 13 + length p + length rest
  length-record =
      ap length (record_bytes-append seq t p rest)
      ∙ omega (
        arith,
        length-flat (be_bytes 8 seq ∷ be_bytes 1 t ∷ be_bytes 4 (length p) ∷ []) (p ++ rest),
        length-append p rest,
        len 8 seq,
        len 1 t,
        len 4 (length p),
      )

  -- where the length has been read
  payload_of-record : slice 13 (length p) (record_bytes seq t p ++ rest) ≡ p
  payload_of-record =
      ap (slice 13 (length p)) (record_bytes-append seq t p rest)
      ∙ field_at (be_bytes 8 seq ∷ be_bytes 1 t ∷ be_bytes 4 (length p) ∷ []) p rest 13 (length p)
          (omega (arith, len 8 seq, len 1 t, len 4 (length p))) refl

  drop-record : drop (13 + length p) (record_bytes seq t p ++ rest) ≡ rest
  drop-record =
      ap (drop (13 + length p)) (record_bytes-append seq t p rest)
      ∙ behind (be_bytes 8 seq ∷ be_bytes 1 t ∷ be_bytes 4 (length p) ∷ p ∷ []) rest (13 + length p)
          (omega (arith, len 8 seq, len 1 t, len 4 (length p)))

  pub behind-record :
      length p ≤ max_record_payload_len → behind_record (record_bytes seq t p ++ rest) ≡ rest
  behind-record h = rw (payload_len_of-record h) drop-record

no_end : (n k : ℕ) → ltb (13 + n + k) 13 ≡ false
no_end n k = ground arith

whole_payload : (n k : ℕ) → ltb (13 + n + k) (13 + n) ≡ false
whole_payload n k = ground arith

not_too_long : (n : ℕ) → n ≤ max_record_payload_len → ltb max_record_payload_len n ≡ false
not_too_long n h = ground arith

-- A record whose number is the next one is replayed, whatever stands behind it.
pub replay_pass-record :
    (crc32c : List ℕ → ℕ) (out : Replayed) (prev_seq seq t : ℕ) (p rest : List ℕ)
    → in_sequence out.records_verified prev_seq seq ≡ true
    → seq < 2 ^ 64
    → t < 256
    → length p ≤ max_record_payload_len
    → replay_pass crc32c out prev_seq (record_bytes seq t p ++ rest)
      ≡ elim (replay_record crc32c t p seq out) [ inl e ↦ pass_fails e | inr o ↦ record_done o ]
unfolding replay_pass
replay_pass-record crc32c out prev_seq seq t p rest next seq_lt t_lt p_le =
    rw
      (
        length-record seq t p rest,
        no_end (length p) (length rest),
        payload_len_of-record seq t p rest p_le,
        not_too_long (length p) p_le,
        seq_of-record seq t p rest seq_lt,
        next,
        whole_payload (length p) (length rest),
        type_of-record seq t p rest t_lt,
        payload_of-record seq t p rest,
      )
      refl
