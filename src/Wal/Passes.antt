-- ===== src/Wal/Passes.antt =====
-- What it takes for a pass of the replay to be done with a record, whatever the file holds.
use sovereign.Prelude.{
  ℕ, ◌+◌, ◌≤◌, ◌≡◌, ◌≢◌, ◌⊎◌, inl, inr, refl, ap, ◌∙◌, List, true, false, length, ltb, Bool-cases,
  arith,
}
use sovereign.Wal.{max_record_payload_len}
use sovereign.Wal.Replay.{
  Replayed, ReplayError, Pass, log_ends, pass_fails, record_done, replay_record, in_sequence,
  replay_pass, seq_of, type_of, payload_len_of, payload_of,
}
use sovereign.Wal.Open.{is_complete}

-- The record is there, has the next number, and is decoded.
pub record Done (crc32c : List ℕ → ℕ) (out : Replayed) (prev_seq : ℕ) (bytes : List ℕ)
    (out' : Replayed) : Type 0 where
  pub long : 13 + payload_len_of bytes ≤ length bytes
  pub next : in_sequence out.records_verified prev_seq (seq_of bytes) ≡ true
  pub made : replay_record crc32c (type_of bytes) (payload_of bytes) (seq_of bytes) out ≡ inr out'

module _ (crc32c : List ℕ → ℕ) (out : Replayed) (prev_seq : ℕ) (bytes : List ℕ)
    (out' : Replayed) where
  decoded :
      13 + payload_len_of bytes ≤ length bytes
      → in_sequence out.records_verified prev_seq (seq_of bytes) ≡ true
      → (r : ReplayError ⊎ Replayed)
      → replay_record crc32c (type_of bytes) (payload_of bytes) (seq_of bytes) out ≡ r
      → elim r [ inl e ↦ pass_fails e | inr o ↦ record_done o ] ≡ record_done out'
      → Done crc32c out prev_seq bytes out'
  decoded long next (inl e) made h = absurd cc
  decoded long next (inr o) made h = record {
    long = long;
    next = next;
    made = let same : o ≡ out' = cc in made ∙ ap inr same;
  }

  pub replay_pass-Done :
      replay_pass crc32c out prev_seq bytes ≡ record_done out' → Done crc32c out prev_seq bytes out'
  unfolding replay_pass
  replay_pass-Done h = elim (Bool-cases (ltb (length bytes) 13)) [
    | inl a ↦ absurd (let no = rw a at h in cc)
    | inr a ↦ elim (Bool-cases (ltb max_record_payload_len (payload_len_of bytes))) [
      | inl b ↦ absurd (let no = rw (a, b) at h in cc)
      | inr b ↦ elim (Bool-cases (in_sequence out.records_verified prev_seq (seq_of bytes))) [
        | inr c ↦ absurd (let no = rw (a, b, c) at h in cc)
        | inl c ↦ elim (Bool-cases (ltb (length bytes) (13 + payload_len_of bytes))) [
          | inl d ↦ absurd (let no = rw (a, b, c, d) at h in cc)
          | inr d ↦
              decoded (ground arith) c
                (replay_record crc32c (type_of bytes) (payload_of bytes) (seq_of bytes) out) refl
                (rw (a, b, c, d) at h)
        ]
      ]
    ]
  ]

pub Pass-cases :
    (p : Pass)
    → (p ≡ log_ends)
      ⊎ (((e : ReplayError) × (p ≡ pass_fails e)) ⊎ ((o : Replayed) × (p ≡ record_done o)))
Pass-cases log_ends = inl refl
Pass-cases (pass_fails e) = inr (inl (e, refl))
Pass-cases (record_done o) = inr (inr (o, refl))

not_end :
    (r : ReplayError ⊎ Replayed)
    → elim r [ inl e ↦ pass_fails e | inr o ↦ record_done o ] ≢ log_ends
not_end (inl e) = λ no. cc
not_end (inr o) = λ no. cc

-- Where a pass ends the log, there is no complete record.
pub replay_pass-ends :
    (crc32c : List ℕ → ℕ) (out : Replayed) (prev_seq : ℕ) (bytes : List ℕ)
    → replay_pass crc32c out prev_seq bytes ≡ log_ends
    → is_complete bytes ≡ false
unfolding replay_pass is_complete
replay_pass-ends crc32c out prev_seq bytes h = elim (Bool-cases (ltb (length bytes) 13)) [
  | inl a ↦ rw a refl
  | inr a ↦ elim (Bool-cases (ltb (length bytes) (13 + payload_len_of bytes))) [
    | inl d ↦ rw (a, d) refl
    | inr d ↦ elim (Bool-cases (ltb max_record_payload_len (payload_len_of bytes))) [
      | inl b ↦ absurd (let no = rw (a, b) at h in cc)
      | inr b ↦ elim (Bool-cases (in_sequence out.records_verified prev_seq (seq_of bytes))) [
        | inr c ↦ absurd (let no = rw (a, b, c) at h in cc)
        | inl c ↦ absurd (
            not_end (replay_record crc32c (type_of bytes) (payload_of bytes) (seq_of bytes) out)
              (rw (a, b, c, d) at h))
      ]
    ]
  ]
]
