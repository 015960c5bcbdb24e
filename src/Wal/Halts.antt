-- ===== src/Wal/Halts.antt =====
-- The replay and the scan of any file end, and agree on what it holds.
use sovereign.Prelude.{
  ℕ, suc, ◌<◌, ◌≤◌, ◌≡◌, ◌≢◌, refl, inl, inr, List, [], ◌∷◌, true, none, some, length, length-drop,
  drop, take, ltb, ◌==◌, Bool-cases, arith,
}
use sovereign.Bytes.{be_value}
use sovereign.Wire.Fields.{slice}
use sovereign.Wal.{wal_magic, wal_version}
use sovereign.Wal.Replay.{
  Replayed, replayed, out_of_fuel, nothing_replayed, replay_loop, replay_wal,
}
use sovereign.Wal.Open.{verify_header, scan_records, open_wal}
use sovereign.Wal.Agrees.{replay_loop-halts, scan_loop-halts, scan_loop-agrees}

module _ (crc32c : List ℕ → ℕ) (file : List ℕ) where
  enough_fuel : length (drop 8 file) < suc (length file)
  enough_fuel = omega (arith, length-drop 8 file)

  replay_wal-halts : replay_wal crc32c file ≢ out_of_fuel
  unfolding replay_wal
  replay_wal-halts = elim (Bool-cases (ltb (length file) 8)) [
    | inl a ↦ rw a (λ no. cc)
    | inr a ↦ elim (Bool-cases (be_value (slice 0 4 file) == wal_magic)) [
      | inr b ↦ rw (a, b) (λ no. cc)
      | inl b ↦ elim (Bool-cases (be_value (slice 4 2 file) == wal_version)) [
        | inr c ↦ rw (a, b, c) (λ no. cc)
        | inl c ↦
            rw (a, b, c)
              (replay_loop-halts crc32c (suc (length file)) nothing_replayed 0 (drop 8 file)
                enough_fuel)
      ]
    ]
  ]

  scan_records-halts : scan_records file ≢ none
  unfolding scan_records
  scan_records-halts =
      scan_loop-halts (suc (length file)) (record { next_seq = 0; count = 0; last_good = 8 })
        (drop 8 file) enough_fuel

  -- What a replay that succeeds went through
  pub replay_wal-loop :
      (out : Replayed)
      → replay_wal crc32c file ≡ replayed out
      → (verify_header file ≡ true)
        × (8 ≤ length file)
        × (replay_loop crc32c (suc (length file)) nothing_replayed 0 (drop 8 file) ≡ replayed out)
  unfolding replay_wal verify_header
  replay_wal-loop out h = elim (Bool-cases (ltb (length file) 8)) [
    | inl a ↦ absurd (let no = rw a at h in cc)
    | inr a ↦ elim (Bool-cases (be_value (slice 0 4 file) == wal_magic)) [
      | inr b ↦ absurd (let no = rw (a, b) at h in cc)
      | inl b ↦ elim (Bool-cases (be_value (slice 4 2 file) == wal_version)) [
        | inr c ↦ absurd (let no = rw (a, b, c) at h in cc)
        | inl c ↦ (rw (a, b, c) refl, ground arith, rw (a, b, c) at h)
      ]
    ]
  ]

open_wal-scan :
    (file : List ℕ) (next_seq count last : ℕ)
    → 8 ≤ length file
    → verify_header file ≡ true
    → scan_records file ≡ some (record { next_seq = next_seq; count = count; last_good = last })
    → open_wal file ≡ some (record { file = take last file; next_seq = next_seq })
unfolding open_wal
open_wal-scan [] next_seq count last h v s = absurd (omega (arith, h))
open_wal-scan (b ∷ bytes) next_seq count last h v s = rw (v, s) refl

-- The replay of any file at all ends, and so does the scan of it: the fuel, which is one more than the
-- bytes of the file, is enough.
pub replay_wal-and-scan_halt :
    (crc32c : List ℕ → ℕ) (file : List ℕ)
    → (replay_wal crc32c file ≢ out_of_fuel) × (scan_records file ≢ none)
replay_wal-and-scan_halt crc32c file =
    (replay_wal-halts crc32c file, scan_records-halts crc32c file)

-- Where a file is replayed without an error, it is opened without one: the scan finds the same next
-- number and as many records as the replay, and an end that is not behind the file's, and the file is
-- cut off there.
pub open_wal-agrees :
    (crc32c : List ℕ → ℕ) (file : List ℕ) (out : Replayed)
    → replay_wal crc32c file ≡ replayed out
    → (last : ℕ) × (last ≤ length file)
      × (scan_records file
          ≡ some
              (record { next_seq = out.next_seq; count = out.records_verified; last_good = last }))
      × (open_wal file ≡ some (record { file = take last file; next_seq = out.next_seq }))
unfolding scan_records
open_wal-agrees crc32c file out h =
    let (verified, long, loop) = replay_wal-loop crc32c file out h in
    let (last, le, found) =
      scan_loop-agrees crc32c (suc (length file)) nothing_replayed out 0 8 (drop 8 file) loop in
    (
      last,
      omega (arith, le, long, length-drop 8 file),
      found,
      open_wal-scan file out.next_seq out.records_verified last long verified found,
    )
