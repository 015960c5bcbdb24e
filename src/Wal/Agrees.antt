-- ===== src/Wal/Agrees.antt =====
-- The scan and the replay read the same records, and both end.
use sovereign.Prelude.{
  ℕ, zero, suc, ◌+◌, ◌<◌, ◌≤◌, ◌≡◌, ◌≢◌, refl, inl, inr, List, true, none, some, length,
  length-drop, ltb, Bool-cases, arith,
}
use sovereign.Wal.{max_credible_clock_high}
use sovereign.Wal.Replay.{
  type_of, payload_of, Replayed, replayed, out_of_fuel, count_record, replay_mutation,
  replay_advance, replay_checkpoint, replay_checkpoint_v2, replay_pass, replay_loop, seq_of,
  payload_len_of, behind_record,
}
use sovereign.Wal.Open.{Scan, scan_record, is_complete, scan_loop}
use sovereign.Wal.Passes.{Done, replay_pass-Done, replay_pass-ends, Pass-cases}
use sovereign.Wal.Kinds.{Kept, replay_record-kept}

is_complete-long :
    (bytes : List ℕ) → 13 + payload_len_of bytes ≤ length bytes → is_complete bytes ≡ true
unfolding is_complete
is_complete-long bytes h = grind arith

long_of : (bytes : List ℕ) → is_complete bytes ≡ true → 13 + payload_len_of bytes ≤ length bytes
unfolding is_complete
long_of bytes h = grind arith

shrinks :
    (bytes : List ℕ) (f : ℕ)
    → 13 + payload_len_of bytes ≤ length bytes
    → length bytes < suc f
    → length (behind_record bytes) < f
shrinks bytes f long h = omega (arith, long, h, length-drop (13 + payload_len_of bytes) bytes)

module _ (crc32c : List ℕ → ℕ) where
  pub replay_loop-halts :
      (f : ℕ) (out : Replayed) (prev_seq : ℕ) (bytes : List ℕ)
      → length bytes < f
      → replay_loop crc32c f out prev_seq bytes ≢ out_of_fuel
  unfolding replay_loop
  replay_loop-halts zero out prev_seq bytes h = absurd (omega (arith, h))
  replay_loop-halts (suc f) out prev_seq bytes h =
      elim (Pass-cases (replay_pass crc32c out prev_seq bytes)) [
        | inl e ↦ rw (e, replay_loop) (λ no. cc)
        | inr (inl (_, e)) ↦ rw (e, replay_loop) (λ no. cc)
        | inr (inr (o, e)) ↦
            rw (e, replay_loop)
              (replay_loop-halts f o (seq_of bytes) (behind_record bytes)
                (shrinks bytes f (replay_pass-Done crc32c out prev_seq bytes o e).long h))
      ]

-- What the records read so far come to, as the replay and the scan count them
abbrev Counted : Replayed → Replayed → Type 0
Counted out o = (o.next_seq ≡ out.next_seq) × (o.records_verified ≡ out.records_verified)

Counted-kept : (out : Replayed) → Kept (Counted out)
unfolding replay_mutation replay_advance replay_checkpoint replay_checkpoint_v2
Counted-kept out = record {
  mutation = λ t m seq o h. h;
  advance = λ a seq o h. h;
  checkpoint = λ p c seq o e h. h;
  checkpoint_v2 = λ c seq o h. elim (Bool-cases (ltb max_credible_clock_high c.clock_high)) [
    | inl e ↦ rw e h
    | inr e ↦ rw e h
  ];
}

module _ (crc32c : List ℕ → ℕ) where
  -- A record that the replay is done with is counted by the scan just so.
  scan_record-Done :
      (out o : Replayed) (prev_seq g : ℕ) (bytes : List ℕ)
      → Done crc32c out prev_seq bytes o
      → scan_record bytes
          (record { next_seq = out.next_seq; count = out.records_verified; last_good = g })
        ≡ record {
          next_seq = o.next_seq;
          count = o.records_verified;
          last_good = g + (13 + payload_len_of bytes);
        }
  unfolding scan_record count_record
  scan_record-Done out o prev_seq g bytes d =
      let (a, b) =
        replay_record-kept (Counted (count_record (seq_of bytes) out))
          (Counted-kept (count_record (seq_of bytes) out)) crc32c (type_of bytes) (payload_of bytes)
          (seq_of bytes) out o (refl, refl) d.made in
      rw (a, b) refl

  pub scan_loop-agrees :
      (f : ℕ) (out out' : Replayed) (prev_seq g : ℕ) (bytes : List ℕ)
      → replay_loop crc32c f out prev_seq bytes ≡ replayed out'
      → (last : ℕ) × (last ≤ g + length bytes)
        × (scan_loop f
              (record { next_seq = out.next_seq; count = out.records_verified; last_good = g })
              bytes
            ≡ some (record {
              next_seq = out'.next_seq;
              count = out'.records_verified;
              last_good = last;
            }))
  unfolding scan_loop replay_loop
  scan_loop-agrees zero out out' prev_seq g bytes h = absurd cc
  scan_loop-agrees (suc f) out out' prev_seq g bytes h =
      elim (Pass-cases (replay_pass crc32c out prev_seq bytes)) [
        | inl e ↦
            let same : out ≡ out' = let k = rw (e, replay_loop) at h in cc in
            (
              g,
              omega arith,
              rw (replay_pass-ends crc32c out prev_seq bytes e, scan_loop) (rw same refl),
            )
        | inr (inl (_, e)) ↦ absurd (let k = rw (e, replay_loop) at h in cc)
        | inr (inr (o, e)) ↦
            let d = replay_pass-Done crc32c out prev_seq bytes o e in
            let (last, le, rest) =
              scan_loop-agrees f o out' (seq_of bytes) (g + (13 + payload_len_of bytes))
                (behind_record bytes) (rw (e, replay_loop) at h) in
            (
              last,
              omega (arith, le, d.long, length-drop (13 + payload_len_of bytes) bytes),
              rw
                  (
                    is_complete-long bytes d.long,
                    scan_loop,
                    scan_record-Done out o prev_seq g bytes d,
                  )
                  rest,
            )
      ]

pub scan_loop-halts :
    (f : ℕ) (s : Scan) (bytes : List ℕ) → length bytes < f → scan_loop f s bytes ≢ none
unfolding scan_loop
scan_loop-halts zero s bytes h = absurd (omega (arith, h))
scan_loop-halts (suc f) s bytes h = elim (Bool-cases (is_complete bytes)) [
  | inr e ↦ rw (e, scan_loop) (λ no. cc)
  | inl e ↦
      rw (e, scan_loop)
        (scan_loop-halts f (scan_record bytes s) (behind_record bytes)
          (shrinks bytes f (long_of bytes e) h))
]
