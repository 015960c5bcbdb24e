-- ===== src/Wal/Kinds.antt =====
-- A property that each kind of record keeps is kept by the replay of a record.
use sovereign.Prelude.{ℕ, ◌≡◌, inl, inr, refl, List, Option, none, some, ◌==◌, Bool-cases}
use sovereign.Wal.{WalMutation, WalCheckpoint}
use sovereign.Wal.Encode.{
  wal_rec_mutation, wal_rec_checkpoint, wal_rec_clock_advance, wal_rec_mutation_v2,
  wal_rec_checkpoint_v2, wal_rec_checksummed,
}
use sovereign.Wal.Decode.{
  decode_mutation_payload, decode_mutation_v2_payload, decode_checkpoint, decode_checkpoint_v2,
  unwrap_checksummed,
}
use sovereign.Wal.Replay.{
  Replayed, ReplayError, replay_mutation, replay_advance, replay_checkpoint, replay_checkpoint_v2,
  decoded_with, decode_advance, dispatch, count_record, replay_record,
}

-- What the four kinds of record keep
pub record Kept (P : Replayed → Type 0) : Type 0 where
  pub mutation :
      (t : ℕ) (m : WalMutation) (seq : ℕ) (o : Replayed) → P o → P (replay_mutation t m seq o)
  pub advance : (a seq : ℕ) (o : Replayed) → P o → P (replay_advance a seq o)
  pub checkpoint :
      (p : List ℕ) (c : WalCheckpoint) (seq : ℕ) (o : Replayed)
      → decode_checkpoint p ≡ some c
      → P o
      → P (replay_checkpoint c seq o)
  pub checkpoint_v2 :
      (c : WalCheckpoint) (seq : ℕ) (o : Replayed) → P o → P (replay_checkpoint_v2 c seq o)

module _ (P : Replayed → Type 0) (k : Kept P) where
  decoded-kept :
      {A : Type 0} (x : Option A) (f : A → Replayed) (o' : Replayed)
      → decoded_with x f ≡ inr o'
      → ((a : A) → x ≡ some a → P (f a))
      → P o'
  unfolding decoded_with
  decoded-kept none f o' h g = absurd cc
  decoded-kept (some a) f o' h g = let same : f a ≡ o' = cc in rw (← same) (g a refl)

  dispatch-kept :
      (t : ℕ) (p : List ℕ) (seq : ℕ) (o o' : Replayed) → P o → dispatch t p seq o ≡ inr o' → P o'
  unfolding dispatch
  dispatch-kept t p seq o o' start h = elim (Bool-cases (t == wal_rec_mutation)) [
    | inl a ↦
        decoded-kept (decode_mutation_payload p) (λ m. replay_mutation wal_rec_mutation m seq o) o'
          (rw a at h) (λ m _. k.mutation wal_rec_mutation m seq o start)
    | inr a ↦ elim (Bool-cases (t == wal_rec_mutation_v2)) [
      | inl b ↦
          decoded-kept (decode_mutation_v2_payload p)
            (λ m. replay_mutation wal_rec_mutation_v2 m seq o) o' (rw (a, b) at h)
            (λ m _. k.mutation wal_rec_mutation_v2 m seq o start)
      | inr b ↦ elim (Bool-cases (t == wal_rec_clock_advance)) [
        | inl c ↦
            decoded-kept (decode_advance p) (λ a. replay_advance a seq o) o' (rw (a, b, c) at h)
              (λ a _. k.advance a seq o start)
        | inr c ↦ elim (Bool-cases (t == wal_rec_checkpoint)) [
          | inl d ↦
              decoded-kept (decode_checkpoint p) (λ c. replay_checkpoint c seq o) o'
                (rw (a, b, c, d) at h) (λ c e. k.checkpoint p c seq o e start)
          | inr d ↦ elim (Bool-cases (t == wal_rec_checkpoint_v2)) [
            | inl e ↦
                decoded-kept (decode_checkpoint_v2 p) (λ c. replay_checkpoint_v2 c seq o) o'
                  (rw (a, b, c, d, e) at h) (λ c _. k.checkpoint_v2 c seq o start)
            | inr e ↦ absurd (let no = rw (a, b, c, d, e) at h in cc)
          ]
        ]
      ]
    ]
  ]

  unwrapped :
      (u : Option (ℕ × List ℕ)) (seq : ℕ) (o o' : Replayed)
      → P o
      → elim u [ none ↦ inl ReplayError.corrupt | some (t, p) ↦ dispatch t p seq o ] ≡ inr o'
      → P o'
  unwrapped none seq o o' start h = absurd cc
  unwrapped (some (t, p)) seq o o' start h = dispatch-kept t p seq o o' start h

  -- The property need only hold of the replay with the record counted.
  pub replay_record-kept :
      (crc32c : List ℕ → ℕ) (t : ℕ) (p : List ℕ) (seq : ℕ) (out o' : Replayed)
      → P (count_record seq out)
      → replay_record crc32c t p seq out ≡ inr o'
      → P o'
  unfolding replay_record
  replay_record-kept crc32c t p seq out o' start h = elim (Bool-cases (t == wal_rec_checksummed)) [
    | inl a ↦
        unwrapped (unwrap_checksummed crc32c p) seq (count_record seq out) o' start (rw a at h)
    | inr a ↦ dispatch-kept t p seq (count_record seq out) o' start (rw a at h)
  ]
